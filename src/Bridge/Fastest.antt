-- ===== src/Bridge/Fastest.antt =====
-- The relays that `RelayManager` selects are the fastest of those that answer.
use agu_odoo.Base.{
  ℕ, ◌+◌, ◌≡◌, refl, Bool, String, List, [], ◌∷◌, take, length, All, ◌≤◌, arith, inl, inr, leb,
  if◌then◌else◌, count_if, All-take, All-mono, Any, ◌⊎◌,
}
use agu_odoo.Python.{Error, Result, ok, err, is_ok}
use agu_odoo.Text.{strip}
use agu_odoo.Bridge.Relays.{
  TestedRelay, RelayNet, sort_relays, tested_first, successes, test_relays, select_best_relays,
}
use agu_odoo.Bridge.Sorted.{
  sort_relays-IsSorted, sort_relays-All, length-sort_relays, sort_relays-Any, length-take, IsRelay,
  take-Considered,
}

module _ (net : RelayNet) where
  -- The relay answered its test in the time that is noted.
  abbrev pub Answered : TestedRelay → Type 0
  Answered r = net.tested (strip r.url) ≡ ok r.response_time

  tested_first-Answered :
      (url : String) (o : Result ℕ) (rest : List TestedRelay)
      → net.tested (strip url) ≡ o
      → All Answered rest
      → All Answered (tested_first url o rest)
  tested_first-Answered url (ok t) rest q h = (q, h)
  tested_first-Answered url (err e) rest q h = h

  successes-Answered : (urls : List String) → All Answered (successes net urls)
  unfolding successes
  successes-Answered [] = tt
  successes-Answered (url ∷ urls) =
      tested_first-Answered url (net.tested (strip url)) (successes net urls) refl
        (successes-Answered urls)

  abbrev pub answers : String → Bool
  answers url = is_ok (net.tested (strip url))

  length-tested_first :
      (url : String) (o : Result ℕ) (rest : List TestedRelay)
      → length (tested_first url o rest) ≡ (if is_ok o then 1 else 0) + length rest
  length-tested_first url (ok t) rest = omega arith
  length-tested_first url (err e) rest = omega arith

  length-successes : (urls : List String) → length (successes net urls) ≡ count_if answers urls
  unfolding successes
  length-successes [] = refl
  length-successes (url ∷ urls) = omega (
    arith,
    length-tested_first url (net.tested (strip url)) (successes net urls),
    length-successes urls,
  )

  -- The test of the url failed, or it is in the list with the time of its answer.
  abbrev Recorded : String → List TestedRelay → Type 0
  Recorded url relays =
      ((e : Error) × (net.tested (strip url) ≡ err e))
      ⊎ ((time : ℕ) × (net.tested (strip url) ≡ ok time) × Any (IsRelay url time) relays)

  tested_first-Recorded :
      (url : String) (o : Result ℕ) (rest : List TestedRelay)
      → net.tested (strip url) ≡ o
      → Recorded url (tested_first url o rest)
  tested_first-Recorded url (ok time) rest q = inr (time, q, inl (refl, refl))
  tested_first-Recorded url (err e) rest q = inl (e, q)

  tested_first-Any :
      (P : TestedRelay → Type 0) (url : String) (o : Result ℕ) (rest : List TestedRelay)
      → Any P rest
      → Any P (tested_first url o rest)
  tested_first-Any P url (ok time) rest h = inr h
  tested_first-Any P url (err e) rest h = h

  tested_first-Recorded_rest :
      (url other : String) (o : Result ℕ) (rest : List TestedRelay)
      → Recorded other rest
      → Recorded other (tested_first url o rest)
  tested_first-Recorded_rest url other o rest (inl h) = inl h
  tested_first-Recorded_rest url other o rest (inr (time, q, h)) =
      inr (time, q, tested_first-Any (IsRelay other time) url o rest h)

  successes-Recorded : (urls : List String) → All (λ url. Recorded url (successes net urls)) urls
  unfolding successes
  successes-Recorded [] = tt
  successes-Recorded (url ∷ urls) = (
    tested_first-Recorded url (net.tested (strip url)) (successes net urls) refl,
    All-mono _ _
        (λ other.
          tested_first-Recorded_rest url other (net.tested (strip url)) (successes net urls))
        urls (successes-Recorded urls),
  )

  -- The test of the url failed; or it answered in some time, and the url is among the selected relays
  -- with that time or all of them are at least as fast.
  abbrev pub Considered : String → List TestedRelay → Type 0
  Considered url selected =
      ((e : Error) × (net.tested (strip url) ≡ err e))
      ⊎ ((time : ℕ) × (net.tested (strip url) ≡ ok time)
          × (Any (IsRelay url time) selected ⊎ All (λ r. r.response_time ≤ time) selected))

  Recorded-Considered :
      (url : String) (n : ℕ) (relays : List TestedRelay)
      → Recorded url relays
      → Considered url (take n (sort_relays relays))
  Recorded-Considered url n relays (inl h) = inl h
  Recorded-Considered url n relays (inr (time, q, h)) = inr (
    time,
    q,
    take-Considered url time n (sort_relays relays) (sort_relays-IsSorted relays)
        (sort_relays-Any (IsRelay url time) relays h),
  )

  -- Every relay that is selected is one whose test has answered in the time that is noted. Every url
  -- whose test has answered is selected with its time, or all selected relays are at least as fast. As
  -- many are selected as were asked for, or all that have answered, whichever is less.
  pub select_best_relays_fastest :
      (n : ℕ) (urls : List String)
      → let selected = select_best_relays n (test_relays net urls) in
        All Answered selected
        × All (λ url. Considered url selected) urls
        × (length selected ≡ (if leb n (count_if answers urls) then n else count_if answers urls))
  unfolding test_relays select_best_relays
  select_best_relays_fastest n urls = (
    All-take Answered n (sort_relays (successes net urls))
        (sort_relays-All Answered (successes net urls) (successes-Answered urls)),
    All-mono _ _ (λ url. Recorded-Considered url n (successes net urls)) urls
        (successes-Recorded urls),
    ground (
      arith,
      length-take n (sort_relays (successes net urls)),
      length-sort_relays (successes net urls),
      length-successes urls,
    ),
  )
