-- ===== src/Publisher/Counters.antt =====
-- What the counters of `publish_event` come to over any sequence of calls.
use agu_odoo.Base.{ℕ, ◌*◌, ◌≡◌, ◌⊎◌, inl, inr, String, List, [], ◌∷◌, arith, Bool-cases, ap}
use agu_odoo.Nostr.{NostrLib, Tags}
use agu_odoo.Publisher.{Publisher, compute_success_rate}
use agu_odoo.Publisher.Publish.{Sender, publish_event, record_publish}
use agu_odoo.Publisher.Outcome.{ready, publish_event_ready, publish_event_refuses}

-- The arguments of one call of `publish_event`, with what the outside does during it.
pub record Call : Type 0 where
  pub send : Sender
  pub now : ℕ
  pub content : String
  pub kind : ℕ
  pub tags : Tags

module _ (lib : NostrLib) where
  abbrev pub after : Call → Publisher → Publisher
  after c p = (publish_event lib c.send c.now c.content c.kind c.tags p).1

  -- Each call leaves the state for the next one, whether it returns or raises.
  unfoldable pub publish_calls : List Call → Publisher → Publisher
  publish_calls [] p = p
  publish_calls (c ∷ calls) p = publish_calls calls (after c p)

  -- One call counts one event twice, or nothing.
  after-cases : (c : Call) (p : Publisher) → (after c p ≡ record_publish c.now p) ⊎ (after c p ≡ p)
  after-cases c p = elim (Bool-cases (ready lib c.send c.now c.content c.kind c.tags p)) [
    | inl h ↦ inl (ap (λ x. x.1) (publish_event_ready lib c.send c.now c.content c.kind c.tags p h))
    | inr h ↦ inr (publish_event_refuses lib c.send c.now c.content c.kind c.tags p h).3
  ]

  abbrev pub CountersAgree : Publisher → Type 0
  CountersAgree p = p.success_count ≡ p.total_events_published

  after-CountersAgree : (c : Call) (p : Publisher) → CountersAgree p → CountersAgree (after c p)
  after-CountersAgree c p h = elim (after-cases c p) [ inl e ↦ rw e (omega arith) | inr e ↦ rw e h ]

  publish_calls-CountersAgree :
      (calls : List Call) (p : Publisher) → CountersAgree p → CountersAgree (publish_calls calls p)
  unfolding publish_calls
  publish_calls-CountersAgree [] p h = h
  publish_calls-CountersAgree (c ∷ calls) p h =
      publish_calls-CountersAgree calls (after c p) (after-CountersAgree c p h)

  rate_of_agreeing :
      (p : Publisher)
      → CountersAgree p
      → ((compute_success_rate p).num ≡ 0)
        ⊎ ((compute_success_rate p).num ≡ (compute_success_rate p).den * 100)
  unfolding compute_success_rate
  rate_of_agreeing p h = ground arith

  -- However many calls fail, the success rate of a publisher whose counters start equal reads 0 or
  -- 100 percent.
  pub success_rate_extreme :
      (calls : List Call) (p : Publisher)
      → CountersAgree p
      → let rate = compute_success_rate (publish_calls calls p) in
        (rate.num ≡ 0) ⊎ (rate.num ≡ rate.den * 100)
  success_rate_extreme calls p h =
      rate_of_agreeing (publish_calls calls p) (publish_calls-CountersAgree calls p h)
