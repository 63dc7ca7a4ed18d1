-- ===== src/Bridge/Publishing.antt =====
-- What `publish_event` of the GitLab bridge does under each strategy.
use agu_odoo.Base.{
  ◌≡◌, ◌≢◌, refl, Bool, true, false, String, List, [], ◌∷◌, take, any, count_if, count_if-any, ltb,
  arith, Bool-cases, inl, inr,
}
use agu_odoo.Python.{Result, ok, err, exception, attribute_error}
use agu_odoo.Text.{str_eq, split_commas}
use agu_odoo.Text.Split.{split_commas-ne-nil}
use agu_odoo.Odoo.{Notification, Severity, success, warning, danger, unset}
use agu_odoo.Nostr.{Event}
use agu_odoo.Bridge.{BridgeEvent}
use agu_odoo.Bridge.Relays.{get_relay_urls, publish_to_relays, replies}
use agu_odoo.Bridge.Strategies.{
  Env, is_empty, signed_event, first_urls, accepts, original_send, original_publish,
  alternative_finish, alternative_send, alternative_publish, unexpected, async_urls, async_send,
  async_publish, Strategy, new_relay_management, async_strategy, alternative_strategy,
  original_strategy, get_publish_strategy, strategy_publish, enhanced, publish_event,
}

abbrev pub is_success : Severity → Bool
is_success success = true
is_success warning = false
is_success danger = false
is_success unset = false

-- The event can be signed, and one of the urls takes it.
abbrev pub reaches : Result Event → (Event → String → Bool) → List String → Bool
reaches (err x) takes urls = false
reaches (ok event) takes urls = any (takes event) urls

module _ (env : Env) (e : BridgeEvent) where
  -- Which relays a strategy tries, and which reply it counts.
  abbrev pub delivers : Strategy → Bool
  delivers new_relay_management = false
  delivers async_strategy = reaches (signed_event env e) (replies env.net 0) (async_urls env)
  delivers alternative_strategy = reaches (signed_event env e) (replies env.net 0) (first_urls env)
  delivers original_strategy = reaches (signed_event env e) (accepts env) (first_urls env)

  -- What a strategy leaves, after the decorator, is as told: it returns a notification of success,
  -- and the event is published, exactly if `b`.
  abbrev pub Reports : Bool → Result Notification × BridgeEvent → Type 0
  Reports b x =
      (n : Notification) × (x.0 ≡ ok n) × (x.1.published ≡ b) × (is_success n.severity ≡ b)

  any-is_empty :
      (p : String → Bool) (urls : List String) → is_empty urls ≡ true → any p urls ≡ false
  any-is_empty p [] h = refl
  any-is_empty p (u ∷ urls) h = absurd (ground (arith, h))

  reaches-is_empty :
      (r : Result Event) (takes : Event → String → Bool) (urls : List String)
      → is_empty urls ≡ true
      → reaches r takes urls ≡ false
  reaches-is_empty (err x) takes urls h = refl
  reaches-is_empty (ok event) takes urls h = any-is_empty (takes event) urls h

  module _ (fresh : e.published ≡ false) where
    original_send-Reports :
        (r : Result Event)
        → Reports (reaches r (accepts env) (first_urls env)) (enhanced (original_send env r e))
    original_send-Reports (err x) = (_, refl, fresh, refl)
    original_send-Reports (ok event) =
        let counted = count_if-any (accepts env event) (first_urls env) in
        elim (Bool-cases (ltb 0 (count_if (accepts env event) (first_urls env)))) [
          | inl c ↦
              let b : any (accepts env event) (first_urls env) ≡ true =
                ground (arith, counted, c) in
              rw (c, b) (_, refl, refl, refl)
          | inr c ↦
              let b : any (accepts env event) (first_urls env) ≡ false =
                ground (arith, counted, c) in
              rw (c, b) (_, refl, fresh, refl)
        ]

    alternative_urls-Reports :
        (event : Event) (urls : List String)
        → is_empty urls ≡ false
        → Reports
            (any (replies env.net 0 event) urls)
            (enhanced (alternative_finish env event (publish_to_relays env.net 0 event urls) e))
    unfolding publish_to_relays
    alternative_urls-Reports event [] h = absurd (ground (arith, h))
    alternative_urls-Reports event (u ∷ urls) h =
        let counted = count_if-any (replies env.net 0 event) (u ∷ urls) in
        elim (Bool-cases (ltb 0 (count_if (replies env.net 0 event) (u ∷ urls)))) [
          | inl c ↦
              let b : any (replies env.net 0 event) (u ∷ urls) ≡ true =
                ground (arith, counted, c) in
              rw (c, b) (_, refl, refl, refl)
          | inr c ↦
              let b : any (replies env.net 0 event) (u ∷ urls) ≡ false =
                ground (arith, counted, c) in
              rw (c, b) (_, refl, fresh, refl)
        ]

    alternative_send-Reports :
        (r : Result Event)
        → is_empty (first_urls env) ≡ false
        → Reports
            (reaches r (replies env.net 0) (first_urls env))
            (enhanced (alternative_send env r e))
    alternative_send-Reports (err x) h = (_, refl, fresh, refl)
    alternative_send-Reports (ok event) h = alternative_urls-Reports event (first_urls env) h

    async_send-Reports :
        (r : Result Event)
        → let x = async_send env r e in
          Reports (reaches r (replies env.net 0) (async_urls env)) (enhanced (ok x.0, x.1))
    async_send-Reports (err x) = (_, refl, fresh, refl)
    async_send-Reports (ok event) = elim (Bool-cases (is_empty (async_urls env))) [
      | inl c ↦
          let b : any (replies env.net 0 event) (async_urls env) ≡ false =
            any-is_empty _ (async_urls env) c in
          rw (c, b) (_, refl, fresh, refl)
      | inr c ↦ elim (Bool-cases (any (replies env.net 0 event) (async_urls env))) [
        | inl b ↦ rw (c, b) (_, refl, refl, refl)
        | inr b ↦ rw (c, b) (_, refl, fresh, refl)
      ]
    ]

    strategy-Reports : (s : Strategy) → Reports (delivers s) (enhanced (strategy_publish env s e))
    unfolding original_publish alternative_publish async_publish
    strategy-Reports new_relay_management = (_, refl, fresh, refl)
    strategy-Reports async_strategy = async_send-Reports (signed_event env e)
    strategy-Reports alternative_strategy = elim (Bool-cases (is_empty (first_urls env))) [
      | inl c ↦
          let b : delivers alternative_strategy ≡ false =
            reaches-is_empty (signed_event env e) (replies env.net 0) (first_urls env) c in
          rw (c, b) (_, refl, fresh, refl)
      | inr c ↦ rw c (alternative_send-Reports (signed_event env e) c)
    ]
    strategy-Reports original_strategy = elim (Bool-cases (is_empty (first_urls env))) [
      | inl c ↦
          let b : delivers original_strategy ≡ false =
            reaches-is_empty (signed_event env e) (accepts env) (first_urls env) c in
          rw (c, b) (_, refl, fresh, refl)
      | inr c ↦ rw c (original_send-Reports (signed_event env e))
    ]

    -- Whatever happens to an event that is not published, `publish_event` returns a notification.
    -- It reports success, and marks the event as published, exactly if the event can be signed and
    -- one of the relays that the chosen strategy tries takes it; the relay management never
    -- publishes.
    pub publish_event-Reports :
        Reports (delivers (get_publish_strategy env.params)) (publish_event env e)
    unfolding publish_event
    publish_event-Reports = strategy-Reports (get_publish_strategy env.params)

  -- With the relay management switched on, `publish_event` reports a missing attribute and leaves
  -- the event as it is.
  pub publish_event_relay_management :
      str_eq env.params.use_new_relay_management "True" ≡ true
      → publish_event env e ≡ (
        ok (unexpected (exception attribute_error "'method' object has no attribute 'publish'")),
        e,
      )
  unfolding publish_event get_publish_strategy
  publish_event_relay_management h = rw h

  split_not_empty : (urls : List String) → urls ≢ [] → is_empty (take 5 urls) ≡ false
  split_not_empty [] h = absurd (h refl)
  split_not_empty (u ∷ urls) h = refl

  original_send-not_warning :
      (r : Result Event) (n : Notification)
      → (original_send env r e).0 ≡ ok n
      → n.severity ≢ warning
  original_send-not_warning (err x) n h = absurd (cc h)
  original_send-not_warning (ok event) n h =
      elim (Bool-cases (ltb 0 (count_if (accepts env event) (first_urls env)))) [
        | inl c ↦ let q = rw c at h in λ w. ground (arith, q, w)
        | inr c ↦ let q = rw c at h in λ w. ground (arith, q, w)
      ]

  -- What the original strategy returns is never the warning that no relays are configured: the
  -- split of an empty text has one part.
  pub original_publish_no_warning :
      (n : Notification) → (original_publish env e).0 ≡ ok n → n.severity ≢ warning
  unfolding original_publish first_urls get_relay_urls
  original_publish_no_warning n h =
      let c : is_empty (first_urls env) ≡ false =
        split_not_empty (split_commas env.params.relay_urls)
          (split_commas-ne-nil env.params.relay_urls) in
      original_send-not_warning (signed_event env e) n (rw c at h)
