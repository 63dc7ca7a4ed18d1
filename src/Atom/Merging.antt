-- ===== src/Atom/Merging.antt =====
-- The synchronization of an atom keeps the newer value of each element.
use agu_odoo.Base.{
  ⊤, ℕ, ◌≡◌, ◌≢◌, refl, subst, ap, ◌∙◌, Bool, true, false, not, ◌&&◌, inl, inr, Option, none, some,
  String, List, [], ◌∷◌, ◌++◌, keep, ◌==◌, ltb, if◌then◌else◌, arith, Bool-cases, Option-cases, All,
}
use agu_odoo.Python.{Result, ok, is_ok}
use agu_odoo.Atom.{
  ElementValue, of_element, same_values, taken, write_value, sync_value, sync_atom,
  resolve_conflict, create_conflict,
}

-- The value of an element
abbrev pub find_value : ℕ → List ElementValue → Option ElementValue
find_value e [] = none
find_value e (v ∷ rows) = if of_element e v then some v else find_value e rows

-- No element has two values.
abbrev pub IsUnique : List ElementValue → Type 0
IsUnique [] = ⊤
IsUnique (v ∷ rows) = (find_value v.element_id rows ≡ none) × IsUnique rows

-- The last writer wins; the local value stays if the dates are equal.
abbrev pub last_writer : ℕ → Option ElementValue → ElementValue → ElementValue
last_writer now none r = taken now r
last_writer now (some v) r = if ltb v.write_date r.write_date then taken now r else v

-- Two different values of one date
abbrev pub is_conflict : Option ElementValue → ElementValue → Bool
is_conflict none r = false
is_conflict (some v) r = v.write_date == r.write_date && not (same_values v r)

module _ (e : ℕ) where
  keep-nil_of_find :
      (rows : List ElementValue) → find_value e rows ≡ none → keep (of_element e) rows ≡ []
  keep-nil_of_find [] h = refl
  keep-nil_of_find (v ∷ rows) h = ground (arith, keep-nil_of_find rows)

  keep-one_of_find :
      (rows : List ElementValue) (w : ElementValue)
      → IsUnique rows
      → find_value e rows ≡ some w
      → keep (of_element e) rows ≡ w ∷ []
  keep-one_of_find [] w u h = absurd (cc h)
  keep-one_of_find (v ∷ rows) w u h = elim (Bool-cases (of_element e v)) [
    | inl same ↦
        let rest : find_value e rows ≡ none = ground (arith, u.0, same) in
        let here : some v ≡ some w = ground (arith, h, same) in
        rw (same, keep-nil_of_find rows rest)
          (ap (λ (o : Option ElementValue). elim o [ none ↦ [] | some x ↦ x ∷ [] ]) here)
    | inr other ↦ rw other (keep-one_of_find rows w u.1 (ground (arith, h, other)))
  ]

  find-append :
      (rows : List ElementValue) (w : ElementValue)
      → find_value e rows ≡ none
      → find_value e (rows ++ (w ∷ [])) ≡ (if of_element e w then some w else none)
  find-append [] w h = refl
  find-append (v ∷ rows) w h = ground (arith, find-append rows w)

  find-append_other :
      (rows : List ElementValue) (w : ElementValue)
      → of_element e w ≡ false
      → find_value e (rows ++ (w ∷ [])) ≡ find_value e rows
  find-append_other [] w h = rw h refl
  find-append_other (v ∷ rows) w h = ground (arith, find-append_other rows w)

module _ (now : ℕ) (r : ElementValue) where
  find-write_self :
      (rows : List ElementValue) (v : ElementValue)
      → find_value r.element_id rows ≡ some v
      → find_value r.element_id (write_value now r rows) ≡ some (taken now r)
  find-write_self [] v h = absurd (cc h)
  find-write_self (w ∷ rows) v h = ground (arith, find-write_self rows v)

  find-write_other :
      (e : ℕ) (rows : List ElementValue)
      → e ≢ r.element_id
      → find_value e (write_value now r rows) ≡ find_value e rows
  find-write_other e [] ne = refl
  find-write_other e (w ∷ rows) ne = ground (arith, find-write_other e rows ne)

  find-write_none :
      (e : ℕ) (rows : List ElementValue)
      → find_value e rows ≡ none
      → find_value e (write_value now r rows) ≡ none
  find-write_none e [] h = refl
  find-write_none e (w ∷ rows) h = ground (arith, find-write_none e rows)

  write-IsUnique : (rows : List ElementValue) → IsUnique rows → IsUnique (write_value now r rows)
  write-IsUnique [] u = tt
  write-IsUnique (w ∷ rows) u = elim (Bool-cases (of_element r.element_id w)) [
    | inl e ↦
        let here : find_value r.element_id rows ≡ none = ground (arith, u.0, e) in
        rw e (find-write_none r.element_id rows here, write-IsUnique rows u.1)
    | inr e ↦ rw e (find-write_none w.element_id rows u.0, write-IsUnique rows u.1)
  ]

append-IsUnique :
    (rows : List ElementValue) (w : ElementValue)
    → IsUnique rows
    → find_value w.element_id rows ≡ none
    → IsUnique (rows ++ (w ∷ []))
append-IsUnique [] w u h = (refl, tt)
append-IsUnique (v ∷ rows) w u h =
    let flipped : of_element v.element_id w ≡ false = ground (arith, h) in
    let rest : find_value w.element_id rows ≡ none = ground (arith, h) in
    (find-append v.element_id rows w u.0 ∙ rw flipped refl, append-IsUnique rows w u.1 rest)

module _ (show : ℕ → String) (now : ℕ) where
  -- After one value: it is merged, the others are as before, and no element has two values.
  abbrev pub Merged : ElementValue → List ElementValue → Result ⊤ × List ElementValue → Type 0
  Merged r rows (x, after) =
      (x ≡ ok tt)
      × IsUnique after
      × (find_value r.element_id after ≡ some (last_writer now (find_value r.element_id rows) r))
      × ((e : ℕ) → e ≢ r.element_id → find_value e after ≡ find_value e rows)

  created-Merged :
      (r : ElementValue) (rows : List ElementValue)
      → IsUnique rows
      → find_value r.element_id rows ≡ none
      → Merged r rows (sync_value show now r rows)
  unfolding sync_value
  created-Merged r rows u h = rw (keep-nil_of_find r.element_id rows h) (
    refl,
    append-IsUnique rows (taken now r) u h,
    rw h (find-append r.element_id rows (taken now r) h ∙ ground arith),
    λ e ne. find-append_other e rows (taken now r) (ground arith),
  )

  found-Merged :
      (r v : ElementValue) (rows : List ElementValue)
      → IsUnique rows
      → find_value r.element_id rows ≡ some v
      → is_conflict (some v) r ≡ false
      → Merged r rows (sync_value show now r rows)
  unfolding sync_value
  found-Merged r v rows u h c = elim (Bool-cases (ltb r.write_date v.write_date)) [
    | inl newer ↦
        let kept : ltb v.write_date r.write_date ≡ false = ground (arith, newer) in
        rw (keep-one_of_find r.element_id rows v u h, newer)
          (refl, u, rw (h, kept) refl, λ e ne. refl)
    | inr not_newer ↦ elim (Bool-cases (ltb v.write_date r.write_date)) [
      | inl older ↦
          rw (keep-one_of_find r.element_id rows v u h, not_newer, older)
            (
              refl,
              write-IsUnique now r rows u,
              rw (h, older) (find-write_self now r rows v h),
              λ e ne. find-write_other now r e rows ne,
            )
      | inr not_older ↦
          let same : same_values v r ≡ true = ground (arith, not_newer, not_older, c) in
          rw (keep-one_of_find r.element_id rows v u h, not_newer, not_older, same)
            (refl, u, rw (h, not_older) refl, λ e ne. refl)
    ]
  ]

  pub sync_value-Merged :
      (r : ElementValue) (rows : List ElementValue)
      → IsUnique rows
      → is_conflict (find_value r.element_id rows) r ≡ false
      → Merged r rows (sync_value show now r rows)
  sync_value-Merged r rows u c = elim (Option-cases (find_value r.element_id rows)) [
    | inl h ↦ created-Merged r rows u h
    | inr (v, h) ↦ found-Merged r v rows u h (subst (λ o. is_conflict o r ≡ false) h c)
  ]

  pub sync_value-conflict :
      (r : ElementValue) (rows : List ElementValue)
      → IsUnique rows
      → is_conflict (find_value r.element_id rows) r ≡ true
      → is_ok (sync_value show now r rows).0 ≡ false
  unfolding sync_value resolve_conflict create_conflict
  sync_value-conflict r rows u c = elim (Option-cases (find_value r.element_id rows)) [
    | inl h ↦
        let differ : false ≡ true = subst (λ o. is_conflict o r ≡ true) h c in absurd (cc differ)
    | inr (v, h) ↦
        let d : is_conflict (some v) r ≡ true = subst (λ o. is_conflict o r ≡ true) h c in
        rw (keep-one_of_find r.element_id rows v u h) (ground (arith, d))
  ]

  -- Nothing is to be done for a value that is as new and the same, or older.
  abbrev pub Settled : List ElementValue → ElementValue → Type 0
  Settled rows r =
      (v : ElementValue) × (find_value r.element_id rows ≡ some v)
      × (ltb v.write_date r.write_date ≡ false)
      × (is_conflict (some v) r ≡ false)

  sync_value-Settled :
      (r : ElementValue) (rows : List ElementValue)
      → IsUnique rows
      → Settled rows r
      → sync_value show now r rows ≡ (ok tt, rows)
  unfolding sync_value
  sync_value-Settled r rows u (v, h, older, c) = elim (Bool-cases (ltb r.write_date v.write_date)) [
    | inl newer ↦ rw (keep-one_of_find r.element_id rows v u h, newer) refl
    | inr not_newer ↦
        let same : same_values v r ≡ true = ground (arith, not_newer, older, c) in
        rw (keep-one_of_find r.element_id rows v u h, not_newer, older, same) refl
  ]

  pub sync_atom-Settled :
      (others rows : List ElementValue)
      → IsUnique rows
      → All (Settled rows) others
      → sync_atom show now others rows ≡ (ok tt, rows)
  unfolding sync_atom
  sync_atom-Settled [] rows u a = refl
  sync_atom-Settled (r ∷ others) rows u (a, b) =
      rw (sync_value-Settled r rows u a) (sync_atom-Settled others rows u b)
