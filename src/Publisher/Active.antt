-- ===== src/Publisher/Active.antt =====
-- The relay tests, and that `publish_event` sends to relays that answered their last test only.
use native.Mathlib.Decide.{dec_lt}
use agu_odoo.Base.{
  ℕ, zero, suc, ◌+◌, ◌≡◌, Bool, true, false, String, List, [], ◌∷◌, arith, ◌<◌, ◌≤◌, Bool-cases,
  inl, inr, All, keep, map, take, ◌==◌, All-take, All-zip, All-keep_sub, All-append, All-map,
}
use agu_odoo.Publisher.{
  url_of, Relay, Publisher, RelayTest, async_test_relay_connection, test_attempts,
  test_relay_connection, test_relay, test_relay_connections, mapped_urls, get_relay_urls,
}

module _ (net : RelayTest) (url : String) where
  abbrev pub answers : ℕ → Bool
  answers k = (async_test_relay_connection net url k).0

  earlier :
      (attempt k : ℕ)
      → answers attempt ≡ false
      → ((j : ℕ) → attempt + 1 ≤ j → j < k → answers j ≡ false)
      → (j : ℕ) → attempt ≤ j
      → j < k
      → answers j ≡ false
  earlier attempt k e before j lo hi = elim (dec_lt attempt j) [
    | yes p ↦ before j (omega arith) hi
    | no p ↦ let same : j ≡ attempt = omega arith in rw same e
  ]

  -- The loop gives the result of the first attempt that is answered.
  test_attempts_first :
      (rounds attempt : ℕ)
      → (test_attempts net url rounds attempt).0 ≡ true
      → (k : ℕ) × (attempt ≤ k)
        × (k < attempt + rounds)
        × (answers k ≡ true)
        × ((j : ℕ) → attempt ≤ j → j < k → answers j ≡ false)
        × (test_attempts net url rounds attempt ≡ async_test_relay_connection net url k)
  unfolding test_attempts
  test_attempts_first zero attempt h = absurd (ground arith)
  test_attempts_first (suc rounds) attempt h = elim (Bool-cases (answers attempt)) [
    | inl e ↦ (attempt, omega arith, omega arith, e, λ j lo hi. absurd (omega arith), rw e)
    | inr e ↦
        let (k, lo, hi, yes_k, before, same) =
          test_attempts_first rounds (attempt + 1) (ground (arith, e)) in
        (k, omega arith, omega arith, yes_k, earlier attempt k e before, rw (e, same))
  ]

module _ (net : RelayTest) where
  -- The relay answered one of the attempts of its test.
  abbrev pub Reachable : String → Type 0
  Reachable url = (test_relay_connection net url).0 ≡ true

  -- No two relays have the same id.
  abbrev pub DistinctIds : List Relay → Type 0
  DistinctIds [] = Unit
  DistinctIds (r ∷ relays) = All (λ (s : Relay). (r.id == s.id) ≡ false) relays × DistinctIds relays

  -- A relay that is marked active is reachable.
  abbrev MarkedRight : Relay → Type 0
  MarkedRight r = r.is_active ≡ true → Reachable r.url

  test_relay-MarkedRight : (r : Relay) → MarkedRight (test_relay net r)
  unfolding test_relay
  test_relay-MarkedRight r h = h

  tested-MarkedRight : (relays : List Relay) → All MarkedRight (map (test_relay net) relays)
  tested-MarkedRight [] = tt
  tested-MarkedRight (r ∷ relays) = (test_relay-MarkedRight r, tested-MarkedRight relays)

  tested_ids :
      (r : Relay) (relays : List Relay)
      → All (λ (s : Relay). (r.id == s.id) ≡ false) relays
      → All (λ (s : Relay). ((test_relay net r).id == s.id) ≡ false) (map (test_relay net) relays)
  unfolding test_relay
  tested_ids r [] h = tt
  tested_ids r (s ∷ relays) h = (h.0, tested_ids r relays h.1)

  tested-DistinctIds :
      (relays : List Relay) → DistinctIds relays → DistinctIds (map (test_relay net) relays)
  tested-DistinctIds [] d = tt
  tested-DistinctIds (r ∷ relays) d = (tested_ids r relays d.0, tested-DistinctIds relays d.1)

  abbrev UrlsReachable : List Relay → ℕ → Type 0
  UrlsReachable relays i = All Reachable (url_of i relays)

  head_found : (r : Relay) (relays : List Relay) → Reachable r.url → UrlsReachable (r ∷ relays) r.id
  head_found r relays h = let same : (r.id == r.id) ≡ true = ground arith in rw same (h, tt)

  -- The url of an active relay is found by its id.
  active-UrlsReachable :
      (relays : List Relay)
      → DistinctIds relays
      → All MarkedRight relays
      → All (λ (r : Relay). UrlsReachable relays r.id) (keep (λ (r : Relay). r.is_active) relays)
  active-UrlsReachable [] d m = tt
  active-UrlsReachable (r ∷ relays) d m =
      let rest : All (λ (s : Relay). UrlsReachable (r ∷ relays) s.id)
          (keep (λ (s : Relay). s.is_active) relays) =
        All-zip (λ (s : Relay). (r.id == s.id) ≡ false) (λ (s : Relay). UrlsReachable relays s.id) _
          (λ s e h. rw e h) (keep (λ (s : Relay). s.is_active) relays)
          (All-keep_sub (λ (s : Relay). (r.id == s.id) ≡ false) (λ (s : Relay). s.is_active) relays
            d.0)
          (active-UrlsReachable relays d.1 m.1) in
      elim (Bool-cases r.is_active) [
        | inl e ↦ rw e (head_found r relays (m.0 e), rest)
        | inr e ↦ rw e rest
      ]

  mapped_urls-Reachable :
      (relays : List Relay) (ids : List ℕ)
      → All (UrlsReachable relays) ids
      → All Reachable (mapped_urls relays ids)
  unfolding mapped_urls
  mapped_urls-Reachable relays [] h = tt
  mapped_urls-Reachable relays (i ∷ ids) h =
      All-append Reachable (url_of i relays) (mapped_urls relays ids) h.0
        (mapped_urls-Reachable relays ids h.1)

  -- After the relay tests, a publisher whose relays have different ids sends only to relays that
  -- answered their test.
  pub test_relay_connections-Reachable :
      (p : Publisher)
      → DistinctIds p.relay_ids
      → All Reachable (get_relay_urls (test_relay_connections net p))
  unfolding get_relay_urls test_relay_connections
  test_relay_connections-Reachable p d =
      let tested : List Relay = map (test_relay net) p.relay_ids in
      mapped_urls-Reachable tested
        (take 9 (map (λ (r : Relay). r.id) (keep (λ (r : Relay). r.is_active) tested)))
        (All-take (UrlsReachable tested) 9 _ (
          All-map (UrlsReachable tested) (λ (r : Relay). UrlsReachable tested r.id)
            (λ (r : Relay). r.id) (λ r h. h) (keep (λ (r : Relay). r.is_active) tested)
            (active-UrlsReachable tested (tested-DistinctIds p.relay_ids d)
              (tested-MarkedRight p.relay_ids))))
