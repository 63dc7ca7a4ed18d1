-- ===== src/Bridge/Rounds.antt =====
-- The rounds of `manage_relay_list`: which relays they use, and what its answer means.
use native.Mathlib.Decide.{dec_lt}
use agu_odoo.Base.{
  ℕ, zero, suc, ◌+◌, ◌-◌, ◌*◌, ◌≡◌, ◌∙◌, ap, sym, refl, Bool, true, false, Option, none, some,
  String, List, [], ◌∷◌, map, take, drop, length, length-take, ◌≤◌, ◌<◌, arith, Bool-cases, inl,
  inr, ◌⊎◌, count_if-le-length,
}
use agu_odoo.Python.{Result, ok, bind-eq_ok_inv}
use agu_odoo.Text.{join}
use agu_odoo.Nostr.{Event}
use agu_odoo.Bridge.Relays.{
  TestedRelay, RelayNet, Rate, test_relays, select_best_relays, publish_to_relays, url_of,
  round_relays, is_low, retry_rounds, max_attempts, finish_rounds, manage_relay_list, replies,
}

take-nil : (n : ℕ) → let none_left : List TestedRelay = [] in take n none_left ≡ []
take-nil zero = refl
take-nil (suc n) = refl

drop-take :
    (m n k : ℕ) (relays : List TestedRelay)
    → k ≡ m + n
    → drop m (take k relays) ≡ take n (drop m relays)
drop-take zero n k relays q = let same : k ≡ n = omega (arith, q) in ap (λ j. take j relays) same
drop-take (suc m) n zero relays q = absurd (omega (arith, q))
drop-take (suc m) n (suc k) [] q = sym (take-nil n)
drop-take (suc m) n (suc k) (r ∷ relays) q = drop-take m n k relays (omega (arith, q))

-- With at least `9 * (j + 1)` relays, round `j + 1` uses the nine after the first `9 * j`.
pub round_relays_window :
    (j : ℕ) (relays : List TestedRelay)
    → 9 * (j + 1) ≤ length relays
    → round_relays (j + 1) relays ≡ take 9 (drop (9 * j) relays)
unfolding round_relays select_best_relays
round_relays_window j relays h =
    let n : length (take (9 * (j + 1)) relays) - 9 ≡ 9 * j =
      omega (arith, length-take (9 * (j + 1)) relays) in
    ap (λ k. drop k (take (9 * (j + 1)) relays)) n
    ∙ drop-take (9 * j) 9 (9 * (j + 1)) relays (omega arith)

-- The first round of the loop uses the relays of the attempt before it once more.
pub first_round_repeats :
    (relays : List TestedRelay) → round_relays 1 relays ≡ select_best_relays 9 relays
unfolding round_relays select_best_relays
first_round_repeats relays =
    let n : length (take 9 relays) - 9 ≡ 0 = omega (arith, length-take 9 relays) in
    ap (λ k. drop k (take 9 relays)) n

module _ (net : RelayNet) (event : Event) where
  -- A rate is a quotient of a count by the number of relays that it counts in, which is not 0.
  pub publish_to_relays_rate :
      (round : ℕ) (urls : List String) (rate : Rate)
      → publish_to_relays net round event urls ≡ ok rate
      → (rate.relays ≡ length urls) × (rate.successes ≤ rate.relays) × (0 < rate.relays)
  unfolding publish_to_relays
  publish_to_relays_rate round [] rate h = absurd (cc h)
  publish_to_relays_rate round (url ∷ urls) rate h =
      ground (arith, h, count_if-le-length (replies net round event) (url ∷ urls))

  module _ (urls : List String) where
    abbrev pub relays : List TestedRelay
    relays = test_relays net urls

    -- The relays of the attempt before the loop, and of each round.
    abbrev pub batch : ℕ → List String
    batch zero = map url_of (select_best_relays 9 relays)
    batch (suc k) = map url_of (round_relays (suc k) relays)

    abbrev pub attempt : ℕ → Result Rate
    attempt k = publish_to_relays net k event (batch k)

    abbrev pub LowAt : ℕ → Type 0
    LowAt k = (rate : Rate) × (attempt k ≡ ok rate) × (is_low rate ≡ true)

    LowAt-from :
        (a n : ℕ)
        → LowAt a
        → ((k : ℕ) → suc a ≤ k → k < suc a + n → LowAt k)
        → (k : ℕ) → a ≤ k
        → k < a + suc n
        → LowAt k
    LowAt-from a n l rest k lo hi = elim (dec_lt a k) [
      | yes p ↦ rest k (omega arith) (omega arith)
      | no p ↦ let same : k ≡ a = omega arith in rw same l
    ]

    retry_rounds_low :
        (n a : ℕ) (rate last : Rate)
        → retry_rounds net event relays n (suc a) rate ≡ ok last
        → is_low last ≡ true
        → (is_low rate ≡ true) × ((k : ℕ) → suc a ≤ k → k < suc a + n → LowAt k)
    unfolding retry_rounds
    retry_rounds_low zero a rate last h l =
        let same : rate ≡ last = ground (arith, h) in (rw same l, λ k lo hi. absurd (omega arith))
    retry_rounds_low (suc n) a rate last h l = elim (Bool-cases (is_low rate)) [
      | inr e ↦ let same : ok rate ≡ ok last = rw e at h in absurd (ground (arith, same, e, l))
      | inl e ↦
          let (next, q, r) =
            bind-eq_ok_inv (attempt (suc a)) (retry_rounds net event relays n (suc (suc a)))
              (rw e at h) in
          let (low, rest) = retry_rounds_low n (suc a) next last r l in
          (e, LowAt-from (suc a) n (next, q, low) rest)
    ]

    retry_rounds_high :
        (n a : ℕ) (rate last : Rate)
        → retry_rounds net event relays n (suc a) rate ≡ ok last
        → (rate ≡ last) ⊎ ((k : ℕ) × (suc a ≤ k) × (k < suc a + n) × (attempt k ≡ ok last))
    unfolding retry_rounds
    retry_rounds_high zero a rate last h = inl (ground (arith, h))
    retry_rounds_high (suc n) a rate last h = elim (Bool-cases (is_low rate)) [
      | inr e ↦ let same : ok rate ≡ ok last = rw e at h in inl (ground (arith, same))
      | inl e ↦
          let (next, q, r) =
            bind-eq_ok_inv (attempt (suc a)) (retry_rounds net event relays n (suc (suc a)))
              (rw e at h) in
          elim (retry_rounds_high n (suc a) next last r) [
            | inl same ↦ inr (suc a, omega arith, omega arith, q ∙ ap ok same)
            | inr (k, lo, hi, found) ↦ inr (k, omega arith, omega arith, found)
          ]
    ]

    finish_rounds-eq_true :
        (rate : Rate) (w : Option String)
        → finish_rounds relays rate ≡ (true, w)
        → (is_low rate ≡ false) × (w ≡ some (join "," (map url_of (take 108 relays))))
    finish_rounds-eq_true rate w h =
        let h₀ : (finish_rounds relays rate).0 ≡ true = ap (λ x. x.0) h in
        let h₁ : (finish_rounds relays rate).1 ≡ w = ap (λ x. x.1) h in
        elim (Bool-cases (is_low rate)) [
          | inl e ↦ let q : false ≡ true = rw e at h₀ in absurd (cc q)
          | inr e ↦ (e, sym (rw e at h₁))
        ]

    finish_rounds-eq_false :
        (rate : Rate) (w : Option String)
        → finish_rounds relays rate ≡ (false, w)
        → (is_low rate ≡ true) × (w ≡ none)
    finish_rounds-eq_false rate w h =
        let h₀ : (finish_rounds relays rate).0 ≡ false = ap (λ x. x.0) h in
        let h₁ : (finish_rounds relays rate).1 ≡ w = ap (λ x. x.1) h in
        elim (Bool-cases (is_low rate)) [
          | inl e ↦ (e, sym (rw e at h₁))
          | inr e ↦ let q : true ≡ false = rw e at h₀ in absurd (cc q)
        ]

    abbrev pub manage : Result (Bool × Option String)
    manage = manage_relay_list net urls event

    -- The rates of the attempt before the loop and of the last one.
    manage-ok :
        (b : Bool) (w : Option String)
        → manage ≡ ok (b, w)
        → (first : Rate) × (last : Rate) × (attempt 0 ≡ ok first)
          × (retry_rounds net event relays 11 1 first ≡ ok last)
          × (finish_rounds relays last ≡ (b, w))
    unfolding manage_relay_list
    manage-ok b w h =
        let (first, q, r) = bind-eq_ok_inv (attempt 0) _ h in
        let (last, s, t) = bind-eq_ok_inv (retry_rounds net event relays 11 1 first) _ r in
        (first, last, q, s, ground (arith, t))

    -- An answer of true means that one of the at most twelve attempts reached half of its relays, and
    -- that the urls of the 108 fastest relays are written.
    pub manage_relay_list_true :
        (w : Option String)
        → manage ≡ ok (true, w)
        → ((k : ℕ) × (rate : Rate) × (k < max_attempts)
            × (attempt k ≡ ok rate)
            × (is_low rate ≡ false))
          × (w ≡ some (join "," (map url_of (take 108 relays))))
    manage_relay_list_true w h =
        let (first, last, q, s, t) = manage-ok true w h in
        let (high, written) = finish_rounds-eq_true last w t in
        (
          elim (retry_rounds_high 11 0 first last s) [
            | inl same ↦ (0, last, omega arith, q ∙ ap ok same, high)
            | inr (k, lo, hi, found) ↦ (k, last, omega arith, found, high)
          ],
          written,
        )

    -- An answer of false means that all twelve attempts were made and reached less than half of
    -- their relays, and that nothing is written.
    pub manage_relay_list_false :
        (w : Option String)
        → manage ≡ ok (false, w)
        → ((k : ℕ) → k < max_attempts → LowAt k) × (w ≡ none)
    manage_relay_list_false w h =
        let (first, last, q, s, t) = manage-ok false w h in
        let (low, unwritten) = finish_rounds-eq_false last w t in
        let (low₀, rest) = retry_rounds_low 11 0 first last s low in
        ((λ k hi. LowAt-from 0 11 (first, q, low₀) rest k (omega arith) (omega arith)), unwritten)
