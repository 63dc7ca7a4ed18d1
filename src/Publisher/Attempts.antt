-- ===== src/Publisher/Attempts.antt =====
-- `_verify_event_published`: which relays and attempts count.
use agu_odoo.Base.{
  ℕ, zero, suc, ◌+◌, ◌≡◌, ◌↔◌, refl, true, String, List, [], ◌∷◌, Any, any, arith, sym, ◌∙◌, inl,
  inr, ◌<◌, ◌≤◌, Bool-cases,
}
use agu_odoo.Text.{strip}
use agu_odoo.Publisher.Publish.{
  Verifier, async_verify_request, verify_attempt, verify_event_published,
}
use agu_odoo.Publisher.Verify.{Shows, verify_messages-Shows, Shows-verify_messages}

verify_attempt-any :
    (relay : Verifier) (event_id : String) (attempt : ℕ) (urls : List String)
    → verify_attempt relay event_id attempt urls
      ≡ any (async_verify_request relay event_id attempt) urls
unfolding verify_attempt
verify_attempt-any relay event_id attempt [] = refl
verify_attempt-any relay event_id attempt (u ∷ urls) =
    ground (arith, verify_attempt-any relay event_id attempt urls)

module _ (relay : Verifier) (event_id : String) (urls : List String) where
  -- On this attempt, some relay shows the event within three messages.
  abbrev pub ShownOn : ℕ → Type 0
  ShownOn k = Any (λ url. Shows event_id 3 (relay (strip url) k)) urls

  any-Shows :
      (k : ℕ) (urls : List String)
      → any (async_verify_request relay event_id k) urls ≡ true
      → Any (λ url. Shows event_id 3 (relay (strip url) k)) urls
  unfolding async_verify_request
  any-Shows k [] h = absurd (cc h)
  any-Shows k (url ∷ urls) h = elim (Bool-cases (async_verify_request relay event_id k url)) [
    | inl e ↦ inl (verify_messages-Shows event_id 3 (relay (strip url) k) e)
    | inr e ↦ inr (any-Shows k urls (rw e at h))
  ]

  Shows-any :
      (k : ℕ) (urls : List String)
      → Any (λ url. Shows event_id 3 (relay (strip url) k)) urls
      → any (async_verify_request relay event_id k) urls ≡ true
  unfolding async_verify_request
  Shows-any k [] a = elim a [ ]
  Shows-any k (url ∷ urls) (inl s) =
      let e : async_verify_request relay event_id k url ≡ true =
        Shows-verify_messages event_id 3 (relay (strip url) k) s in
      ground (arith, e)
  Shows-any k (url ∷ urls) (inr a) = ground (arith, Shows-any k urls a)

  true_on_attempt :
      (rounds attempt : ℕ)
      → verify_event_published relay event_id urls rounds attempt ≡ true
      → (k : ℕ) × (attempt ≤ k)
        × (k < attempt + rounds)
        × (any (async_verify_request relay event_id k) urls ≡ true)
  unfolding verify_event_published
  true_on_attempt zero attempt h = ground arith
  true_on_attempt (suc rounds) attempt h =
      elim (Bool-cases (verify_attempt relay event_id attempt urls)) [
        | inl e ↦ (
          attempt,
          omega arith,
          omega arith,
          sym (verify_attempt-any relay event_id attempt urls) ∙ e,
        )
        | inr e ↦
            let (k, lo, hi, found) = true_on_attempt rounds (attempt + 1) (ground (arith, e)) in
            (k, omega arith, omega arith, found)
      ]

  attempt_true :
      (rounds attempt k : ℕ)
      → attempt ≤ k
      → k < attempt + rounds
      → any (async_verify_request relay event_id k) urls ≡ true
      → verify_event_published relay event_id urls rounds attempt ≡ true
  unfolding verify_event_published
  attempt_true zero attempt k lo hi h = absurd (omega arith)
  attempt_true (suc rounds) attempt k lo hi h =
      elim (Bool-cases (verify_attempt relay event_id attempt urls)) [
        | inl e ↦ rw e
        | inr e ↦ rw e (
            attempt_true rounds (attempt + 1) k
              (ground (arith, e, h, verify_attempt-any relay event_id attempt urls)) (omega arith)
              h)
      ]

  -- With the three attempts of the code, the event is reported as published exactly if on one of them
  -- some relay sends it among its first three messages: a message of the event, whose third item is an
  -- object with the event's id, before which each message is an event with another id, or no event and
  -- not the end of the request.
  pub verify_event_published_iff :
      (verify_event_published relay event_id urls 3 0 ≡ true) ↔ ((k : ℕ) × (k < 3) × ShownOn k)
  verify_event_published_iff = (
    λ h.
        let (k, lo, hi, found) = true_on_attempt 3 0 h in
        (k, omega (arith, hi), any-Shows k urls found),
    λ shown.
        let (k, hi, found) = shown in
        attempt_true 3 0 k (omega arith) (omega (arith, hi)) (Shows-any k urls found),
  )
