-- ===== src/Publisher/Outcome.antt =====
-- What `publish_event` does on each of its paths, and what its counters come to.
use agu_odoo.Base.{
  ℕ, ◌≡◌, refl, sym, subst, inl, inr, Bool, true, false, ◌&&◌, String, List, [], ◌∷◌, ltb, count_if,
  any, count_if-any, arith, Bool-cases,
}
use agu_odoo.Python.{
  Error, Result, ok, err, exception, user_error, catch, catch-eq_err, Result-cases,
}
use agu_odoo.Nostr.{NostrLib, Event, Tags}
use agu_odoo.Publisher.{Publisher, is_active_state, get_relay_urls}
use agu_odoo.Publisher.Publish.{
  Sender, publish_to_single_relay, is_empty, record_publish, prepare_event, publish_to_relays,
  publish_event, keys_set, publish_failed, publish_signed, no_relay_reached,
}

-- The event can be signed, and one of the active relays accepts it.
abbrev pub delivers : Sender → Result Event → List String → Bool
delivers send (err e) urls = false
delivers send (ok event) urls = any (publish_to_single_relay send event) urls

is_empty-any : (p : String → Bool) (urls : List String) → any p urls ≡ true → is_empty urls ≡ false
is_empty-any p [] h = ground arith
is_empty-any p (u ∷ urls) h = refl

module _ (lib : NostrLib) (send : Sender) (now : ℕ) (content : String) (kind : ℕ) (tags : Tags)
    (p : Publisher) where
  abbrev pub outcome : Result Bool × Publisher
  outcome = publish_event lib send now content kind tags p

  abbrev pub delivered : Bool
  delivered = delivers send (prepare_event lib now content kind tags p) (get_relay_urls p)

  -- After the two guards, by what `prepare_event` gives.
  abbrev prepared : Result Event
  prepared = prepare_event lib now content kind tags p

  outcome-prepared :
      is_active_state p.state ≡ true
      → keys_set p ≡ true
      → outcome ≡ catch (publish_signed send now prepared) publish_failed p
  unfolding publish_event
  outcome-prepared a k = rw (a, k)

  abbrev pub ready : Bool
  ready = is_active_state p.state && keys_set p && delivered

  pub publish_event_ready : ready ≡ true → outcome ≡ (ok true, record_publish now p)
  publish_event_ready h =
      rw (outcome-prepared (ground arith) (ground arith)) (elim (Result-cases prepared) [
        | inl (e, q) ↦ absurd (ground (arith, q))
        | inr (event, q) ↦ rw q (
            unfold publish_to_relays in
            ground (
              arith,
              q,
              is_empty-any (publish_to_single_relay send event) (get_relay_urls p),
              count_if-any (publish_to_single_relay send event) (get_relay_urls p),
            ))
      ])

  none_sent :
      (event : Event)
      → any (publish_to_single_relay send event) (get_relay_urls p) ≡ false
      → ltb 0 (count_if (publish_to_single_relay send event) (get_relay_urls p)) ≡ false
  none_sent event h =
      ground (arith, count_if-any (publish_to_single_relay send event) (get_relay_urls p))

  -- The call raised a user error, and left the publisher as it was.
  abbrev pub Refused : Result Bool × Publisher → Type 0
  Refused x = (e : Error) × (x.0 ≡ err e) × (e.class ≡ user_error) × (x.1 ≡ p)

  relays_refuse :
      (event : Event)
      → any (publish_to_single_relay send event) (get_relay_urls p) ≡ false
      → (e : Error) × (publish_to_relays send now event p ≡ (err e, p))
  unfolding publish_to_relays
  relays_refuse event h = elim (Bool-cases (is_empty (get_relay_urls p))) [
    | inl e ↦ (exception user_error "No active relay URLs configured", rw e)
    | inr e ↦ (exception user_error no_relay_reached, rw (e, none_sent event h))
  ]

  event-Refused :
      (event : Event)
      → any (publish_to_single_relay send event) (get_relay_urls p) ≡ false
      → Refused (catch (publish_to_relays send now event) publish_failed p)
  event-Refused event h =
      let (e, q) = relays_refuse event h in
      subst Refused (sym (catch-eq_err (publish_to_relays send now event) publish_failed q))
        (_, refl, refl, refl)

  prepared-Refused :
      delivered ≡ false → Refused (catch (publish_signed send now prepared) publish_failed p)
  prepared-Refused d = elim (Result-cases prepared) [
    | inl (e, q) ↦ rw q (_, refl, refl, refl)
    | inr (event, q) ↦ rw q (event-Refused event (ground (arith, q)))
  ]

  -- If the publisher is not active, lacks a key, cannot sign the event or reaches no active relay,
  -- then `publish_event` raises a user error and the publisher is as it was before.
  pub publish_event_refuses : ready ≡ false → Refused outcome
  unfolding publish_event
  publish_event_refuses h = elim (Bool-cases (is_active_state p.state)) [
    | inr a ↦ rw a (_, refl, refl, refl)
    | inl a ↦ elim (Bool-cases (keys_set p)) [
      | inr k ↦ rw (a, k) (_, refl, refl, refl)
      | inl k ↦ rw (a, k) (prepared-Refused (ground arith))
    ]
  ]
