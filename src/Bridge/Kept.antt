-- ===== src/Bridge/Kept.antt =====
-- `publish_event` of the GitLab bridge keeps what an event says.
use agu_odoo.Base.{
  ◌≡◌, refl, Bool, true, false, any, count_if, ltb, Bool-cases, inl, inr, if◌then◌else◌,
}
use agu_odoo.Python.{Result, ok, err}
use agu_odoo.Odoo.{Notification}
use agu_odoo.Nostr.{Event}
use agu_odoo.Bridge.{BridgeEvent}
use agu_odoo.Bridge.Relays.{Rate, publish_to_relays, replies}
use agu_odoo.Bridge.Strategies.{
  Env, is_empty, signed_event, first_urls, accepts, original_send, original_publish,
  alternative_finish, alternative_send, alternative_publish, async_urls, async_send, async_publish,
  Strategy, new_relay_management, async_strategy, alternative_strategy, original_strategy,
  get_publish_strategy, strategy_publish, enhanced, publish_event,
}

-- The publication does not touch what the event says.
abbrev pub Kept : BridgeEvent → BridgeEvent → Type 0
Kept e e' = (e'.kind ≡ e.kind) × (e'.content ≡ e.content) × (e'.tags ≡ e.tags)

if-Kept :
    (e : BridgeEvent) (b : Bool) (x y : Result Notification × BridgeEvent)
    → Kept e x.1
    → Kept e y.1
    → Kept e (if b then x else y).1
if-Kept e true x y h k = h
if-Kept e false x y h k = k

enhanced-Kept :
    (e : BridgeEvent) (x : Result Notification × BridgeEvent) → Kept e x.1 → Kept e (enhanced x).1
enhanced-Kept e (ok n, e') h = h
enhanced-Kept e (err x, e') h = h

module _ (env : Env) (e : BridgeEvent) where
  original_send-Kept : (r : Result Event) → Kept e (original_send env r e).1
  original_send-Kept (err x) = (refl, refl, refl)
  original_send-Kept (ok event) =
      if-Kept e (ltb 0 (count_if (accepts env event) (first_urls env))) _ _ (refl, refl, refl)
        (refl, refl, refl)

  alternative_finish-Kept :
      (event : Event) (r : Result Rate) → Kept e (alternative_finish env event r e).1
  alternative_finish-Kept event (err x) = (refl, refl, refl)
  alternative_finish-Kept event (ok rate) =
      if-Kept e (ltb 0 rate.successes) _ _ (refl, refl, refl) (refl, refl, refl)

  alternative_send-Kept : (r : Result Event) → Kept e (alternative_send env r e).1
  alternative_send-Kept (err x) = (refl, refl, refl)
  alternative_send-Kept (ok event) =
      alternative_finish-Kept event (publish_to_relays env.net 0 event (first_urls env))

  async_send-Kept : (r : Result Event) → Kept e (async_send env r e).1
  async_send-Kept (err x) = (refl, refl, refl)
  async_send-Kept (ok event) = elim (Bool-cases (is_empty (async_urls env))) [
    | inl c ↦ rw c (refl, refl, refl)
    | inr c ↦ elim (Bool-cases (any (replies env.net 0 event) (async_urls env))) [
      | inl b ↦ rw (c, b) (refl, refl, refl)
      | inr b ↦ rw (c, b) (refl, refl, refl)
    ]
  ]

  strategy-Kept : (s : Strategy) → Kept e (strategy_publish env s e).1
  unfolding original_publish alternative_publish async_publish
  strategy-Kept new_relay_management = (refl, refl, refl)
  strategy-Kept async_strategy = async_send-Kept (signed_event env e)
  strategy-Kept alternative_strategy =
      if-Kept e (is_empty (first_urls env)) _ _ (refl, refl, refl)
        (alternative_send-Kept (signed_event env e))
  strategy-Kept original_strategy =
      if-Kept e (is_empty (first_urls env)) _ _ (refl, refl, refl)
        (original_send-Kept (signed_event env e))

  pub publish_event-Kept : Kept e (publish_event env e).1
  unfolding publish_event
  publish_event-Kept = enhanced-Kept e _ (strategy-Kept (get_publish_strategy env.params))
