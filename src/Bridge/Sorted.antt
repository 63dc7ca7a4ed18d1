-- ===== src/Bridge/Sorted.antt =====
-- The order of the relays by their time, and the first of them.
use agu_odoo.Base.{
  ℕ, zero, suc, ◌≡◌, refl, String, List, [], ◌∷◌, take, length, All, ◌≤◌, arith, Bool-cases, inl,
  inr, leb, if◌then◌else◌, Any, ◌⊎◌,
}
use agu_odoo.Bridge.Relays.{TestedRelay, insert_relay, sort_relays}

-- The relay is at least as fast as the other one.
abbrev pub Faster : TestedRelay → TestedRelay → Type 0
Faster r s = r.response_time ≤ s.response_time

abbrev pub IsSorted : List TestedRelay → Type 0
IsSorted [] = Unit
IsSorted (r ∷ relays) = All (Faster r) relays × IsSorted relays

All-Faster :
    (r s : TestedRelay) (relays : List TestedRelay)
    → Faster r s
    → All (Faster s) relays
    → All (Faster r) relays
All-Faster r s [] f h = tt
All-Faster r s (t ∷ relays) f h = (omega (arith, h.0), All-Faster r s relays f h.1)

-- An insertion keeps what holds of all relays.
pub insert_relay-All :
    (P : TestedRelay → Type 0) (r : TestedRelay) (relays : List TestedRelay)
    → P r
    → All P relays
    → All P (insert_relay r relays)
unfolding insert_relay
insert_relay-All P r [] p h = (p, tt)
insert_relay-All P r (s ∷ relays) p h = elim (Bool-cases (leb r.response_time s.response_time)) [
  | inl e ↦ rw e (p, h)
  | inr e ↦ rw e (h.0, insert_relay-All P r relays p h.1)
]

insert_relay-IsSorted :
    (r : TestedRelay) (relays : List TestedRelay)
    → IsSorted relays
    → IsSorted (insert_relay r relays)
unfolding insert_relay
insert_relay-IsSorted r [] h = (tt, tt)
insert_relay-IsSorted r (s ∷ relays) h = elim (Bool-cases (leb r.response_time s.response_time)) [
  | inl e ↦ rw e ((ground (arith, e), All-Faster r s relays (ground (arith, e)) h.0), h)
  | inr e ↦ rw e (
    insert_relay-All (Faster s) r relays (ground (arith, e)) h.0,
    insert_relay-IsSorted r relays h.1,
  )
]

pub sort_relays-IsSorted : (relays : List TestedRelay) → IsSorted (sort_relays relays)
unfolding sort_relays
sort_relays-IsSorted [] = tt
sort_relays-IsSorted (r ∷ relays) =
    insert_relay-IsSorted r (sort_relays relays) (sort_relays-IsSorted relays)

pub sort_relays-All :
    (P : TestedRelay → Type 0) (relays : List TestedRelay)
    → All P relays
    → All P (sort_relays relays)
unfolding sort_relays
sort_relays-All P [] h = tt
sort_relays-All P (r ∷ relays) h =
    insert_relay-All P r (sort_relays relays) h.0 (sort_relays-All P relays h.1)

length-insert_relay :
    (r : TestedRelay) (relays : List TestedRelay)
    → length (insert_relay r relays) ≡ suc (length relays)
unfolding insert_relay
length-insert_relay r [] = refl
length-insert_relay r (s ∷ relays) = ground (arith, length-insert_relay r relays)

pub length-sort_relays : (relays : List TestedRelay) → length (sort_relays relays) ≡ length relays
unfolding sort_relays
length-sort_relays [] = refl
length-sort_relays (r ∷ relays) =
    omega (arith, length-insert_relay r (sort_relays relays), length-sort_relays relays)

insert_relay-Any :
    (P : TestedRelay → Type 0) (r : TestedRelay) (relays : List TestedRelay)
    → P r ⊎ Any P relays
    → Any P (insert_relay r relays)
unfolding insert_relay
insert_relay-Any P r [] h = h
insert_relay-Any P r (s ∷ relays) h = elim (Bool-cases (leb r.response_time s.response_time)) [
  | inl e ↦ rw e h
  | inr e ↦ rw e (elim h [
    | inl here ↦ inr (insert_relay-Any P r relays (inl here))
    | inr (inl there) ↦ inl there
    | inr (inr rest) ↦ inr (insert_relay-Any P r relays (inr rest))
  ])
]

pub sort_relays-Any :
    (P : TestedRelay → Type 0) (relays : List TestedRelay)
    → Any P relays
    → Any P (sort_relays relays)
unfolding sort_relays
sort_relays-Any P [] h = h
sort_relays-Any P (r ∷ relays) (inl h) = insert_relay-Any P r (sort_relays relays) (inl h)
sort_relays-Any P (r ∷ relays) (inr h) =
    insert_relay-Any P r (sort_relays relays) (inr (sort_relays-Any P relays h))

pub length-take :
    (n : ℕ) (relays : List TestedRelay)
    → length (take n relays) ≡ (if leb n (length relays) then n else length relays)
length-take zero relays = ground arith
length-take (suc n) [] = ground arith
length-take (suc n) (r ∷ relays) = ground (arith, length-take n relays)

-- The relay of this url, with this time
abbrev pub IsRelay : String → ℕ → TestedRelay → Type 0
IsRelay url time r = (r.url ≡ url) × (r.response_time ≡ time)

All-before :
    (url : String) (time : ℕ) (r : TestedRelay) (relays : List TestedRelay)
    → All (Faster r) relays
    → Any (IsRelay url time) relays
    → r.response_time ≤ time
All-before url time r [] h a = elim a [ ]
All-before url time r (s ∷ relays) h (inl (u, t)) = omega (arith, h.0, t)
All-before url time r (s ∷ relays) h (inr a) = All-before url time r relays h.1 a

-- In a sorted list, a relay is among the first `n`, or all of these are at least as fast.
pub take-Considered :
    (url : String) (time n : ℕ) (relays : List TestedRelay)
    → IsSorted relays
    → Any (IsRelay url time) relays
    → Any (IsRelay url time) (take n relays) ⊎ All (λ r. r.response_time ≤ time) (take n relays)
take-Considered url time zero relays h a = inr tt
take-Considered url time (suc n) [] h a = inr tt
take-Considered url time (suc n) (r ∷ relays) h (inl here) = inl (inl here)
take-Considered url time (suc n) (r ∷ relays) h (inr a) =
    elim (take-Considered url time n relays h.1 a) [
      | inl there ↦ inl (inr there)
      | inr faster ↦ inr (All-before url time r relays h.0 a, faster)
    ]
