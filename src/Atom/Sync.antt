-- ===== src/Atom/Sync.antt =====
-- The synchronization of all values of an atom: what it leaves, when it fails, and its repetition.
use agu_odoo.Base.{
  ⊤, ℕ, ◌≡◌, ◌≢◌, ◌≤◌, refl, sym, ap, ◌∙◌, true, false, inl, inr, ◌⊎◌, Option, none, some, String,
  List, [], ◌∷◌, ltb, arith, Bool-cases, All, Any, All-mono, All-zip,
}
use agu_odoo.Python.{Result, ok, err, is_ok}
use agu_odoo.Atom.{ElementValue, taken, sync_value, sync_atom, then_next}
use agu_odoo.Atom.Merging.{
  find_value, IsUnique, last_writer, is_conflict, Merged, Settled, sync_value-Merged,
  sync_value-conflict, sync_atom-Settled,
}

-- No two entries are of one element.
abbrev pub IsDistinct : List ElementValue → Type 0
IsDistinct [] = ⊤
IsDistinct (r ∷ others) =
    All (λ (s : ElementValue). s.element_id ≢ r.element_id) others × IsDistinct others

abbrev pub Agrees : List ElementValue → ElementValue → Type 0
Agrees rows r = is_conflict (find_value r.element_id rows) r ≡ false

module _ (show : ℕ → String) (now : ℕ) where
  abbrev AllMerged : List ElementValue → List ElementValue → Result ⊤ × List ElementValue → Type 0
  AllMerged others rows (x, after) =
      (x ≡ ok tt)
      × IsUnique after
      × All
          (λ (r : ElementValue).
            find_value r.element_id after ≡ some (last_writer now (find_value r.element_id rows) r))
          others
      × ((e : ℕ)
          → All (λ (r : ElementValue). e ≢ r.element_id) others
          → find_value e after ≡ find_value e rows)

  -- The entries that are left see the table as it was.
  unchanged :
      (r : ElementValue) (others rows after : List ElementValue)
      → All (λ (s : ElementValue). s.element_id ≢ r.element_id) others
      → ((e : ℕ) → e ≢ r.element_id → find_value e after ≡ find_value e rows)
      → All
          (λ (s : ElementValue). find_value s.element_id after ≡ find_value s.element_id rows)
          others
  unchanged r others rows after d same =
      All-mono (λ (s : ElementValue). s.element_id ≢ r.element_id) _ (λ s ne. same s.element_id ne)
        others d

  next-AllMerged :
      (r : ElementValue) (others rows : List ElementValue) (p : Result ⊤ × List ElementValue)
      → Merged show now r rows p
      → All (λ (s : ElementValue). s.element_id ≢ r.element_id) others
      → All (Agrees rows) others
      → ((mid : List ElementValue)
          → IsUnique mid
          → All (Agrees mid) others
          → AllMerged others mid (sync_atom show now others mid))
      → AllMerged (r ∷ others) rows (then_next p (sync_atom show now others))
  next-AllMerged r others rows (err e, mid) (q, u, m, o) d a ih = absurd (cc q)
  next-AllMerged r others rows (ok tt, mid) (q, u, m, o) d a ih =
      let same = unchanged r others rows mid d o in
      let agree : All (Agrees mid) others =
        All-zip (λ (s : ElementValue). find_value s.element_id mid ≡ find_value s.element_id rows)
          (Agrees rows) (Agrees mid) (λ s f c. rw f c) others same a in
      let (x, u', merged, elsewhere) = ih mid u agree in
      let apart : All (λ (s : ElementValue). r.element_id ≢ s.element_id) others =
        All-mono (λ (s : ElementValue). s.element_id ≢ r.element_id)
          (λ (s : ElementValue). r.element_id ≢ s.element_id) (λ s ne h. ne (sym h)) others d in
      (
        x,
        u',
        (
          elsewhere r.element_id apart ∙ m,
          All-zip (λ (s : ElementValue). find_value s.element_id mid ≡ find_value s.element_id rows)
              _ _ (λ s f g. g ∙ ap (λ (w : Option ElementValue). some (last_writer now w s)) f)
              others same merged,
        ),
        λ e (n, ns). elsewhere e ns ∙ o e n,
      )

  sync_atom-AllMerged :
      (others rows : List ElementValue)
      → IsUnique rows
      → IsDistinct others
      → All (Agrees rows) others
      → AllMerged others rows (sync_atom show now others rows)
  unfolding sync_atom
  sync_atom-AllMerged [] rows u d a = (refl, u, tt, λ e o. refl)
  sync_atom-AllMerged (r ∷ others) rows u (d, ds) (a, b) =
      next-AllMerged r others rows (sync_value show now r rows)
        (sync_value-Merged show now r rows u a) d b
        (λ mid u' c. sync_atom-AllMerged others mid u' ds c)

  Any-same :
      (others rows mid : List ElementValue)
      → All
          (λ (s : ElementValue). find_value s.element_id mid ≡ find_value s.element_id rows)
          others
      → Any (λ (s : ElementValue). is_conflict (find_value s.element_id rows) s ≡ true) others
      → Any (λ (s : ElementValue). is_conflict (find_value s.element_id mid) s ≡ true) others
  Any-same [] rows mid same c = c
  Any-same (s ∷ others) rows mid (f, same) (inl c) = inl (rw f c)
  Any-same (s ∷ others) rows mid (f, same) (inr c) = inr (Any-same others rows mid same c)

  then_next-fails :
      (p : Result ⊤ × List ElementValue) (k : List ElementValue → Result ⊤ × List ElementValue)
      → is_ok p.0 ≡ false
      → is_ok (then_next p k).0 ≡ false
  then_next-fails (ok tt, rows) k h = absurd (cc h)
  then_next-fails (err e, rows) k h = refl

  next_fails :
      (r : ElementValue) (others rows : List ElementValue) (p : Result ⊤ × List ElementValue)
      → Merged show now r rows p
      → ((mid : List ElementValue)
          → IsUnique mid
          → ((e : ℕ) → e ≢ r.element_id → find_value e mid ≡ find_value e rows)
          → is_ok (sync_atom show now others mid).0 ≡ false)
      → is_ok (then_next p (sync_atom show now others)).0 ≡ false
  next_fails r others rows (err e, mid) (q, u, m, o) ih = refl
  next_fails r others rows (ok tt, mid) (q, u, m, o) ih = ih mid u o

  conflict_fails :
      (others rows : List ElementValue)
      → IsUnique rows
      → IsDistinct others
      → Any (λ (s : ElementValue). is_conflict (find_value s.element_id rows) s ≡ true) others
      → is_ok (sync_atom show now others rows).0 ≡ false
  unfolding sync_atom
  conflict_fails [] rows u d c = absurd c
  conflict_fails (r ∷ others) rows u (d, ds) c =
      elim (Bool-cases (is_conflict (find_value r.element_id rows) r)) [
        | inl here ↦ then_next-fails _ _ (sync_value-conflict show now r rows u here)
        | inr free ↦
            next_fails r others rows _ (sync_value-Merged show now r rows u free) (λ mid u' o.
              conflict_fails others mid u' ds
                (Any-same others rows mid (unchanged r others rows mid d o) (later free c)))
      ]
    where
      later :
          is_conflict (find_value r.element_id rows) r ≡ false
          → (is_conflict (find_value r.element_id rows) r ≡ true)
            ⊎ Any (λ (s : ElementValue). is_conflict (find_value s.element_id rows) s ≡ true) others
          → Any (λ (s : ElementValue). is_conflict (find_value s.element_id rows) s ≡ true) others
      later free (inl here) = absurd (cc (free, here))
      later free (inr c) = c

  Settled-after :
      (r : ElementValue) (after : List ElementValue) (o : Option ElementValue)
      → find_value r.element_id after ≡ some (last_writer now o r)
      → is_conflict o r ≡ false
      → r.write_date ≤ now
      → Settled show now after r
  Settled-after r after none h c t = (taken now r, h, ground arith, ground arith)
  Settled-after r after (some w) h c t = elim (Bool-cases (ltb w.write_date r.write_date)) [
    | inl older ↦ (taken now r, rw h (rw older refl), ground arith, ground arith)
    | inr newer ↦ (w, rw h (rw newer refl), newer, c)
  ]

-- If no element has two local values, the remote entries are of different elements, and no entry has
-- the date of a local value that differs from it, then `sync_atom` returns. No element has two values
-- after it. Each entry's element has the entry's values, with the time of the synchronization, if the
-- entry is newer or there was no local value, and its local value otherwise. All other elements have
-- the values they had.
pub sync_atom-last_writer :
    (show : ℕ → String) (now : ℕ) (others rows : List ElementValue)
    → IsUnique rows
    → IsDistinct others
    → All (Agrees rows) others
    → let (x, after) = sync_atom show now others rows in
      (x ≡ ok tt)
      × IsUnique after
      × All
          (λ (r : ElementValue).
            find_value r.element_id after ≡ some (last_writer now (find_value r.element_id rows) r))
          others
      × ((e : ℕ)
          → All (λ (r : ElementValue). e ≢ r.element_id) others
          → find_value e after ≡ find_value e rows)
sync_atom-last_writer show now others rows u d a = sync_atom-AllMerged show now others rows u d a

-- Under the conditions of `sync_atom-last_writer`, and if no entry is of a later date than the time of the
-- synchronization, a second synchronization with the same entries, at any time, changes nothing.
pub sync_atom_again :
    (show : ℕ → String) (now later_now : ℕ) (others rows : List ElementValue)
    → IsUnique rows
    → IsDistinct others
    → All (Agrees rows) others
    → All (λ (r : ElementValue). r.write_date ≤ now) others
    → let (x, after) = sync_atom show now others rows in
      sync_atom show later_now others after ≡ (ok tt, after)
sync_atom_again show now later_now others rows u d a t =
    let (x, u', merged, o) = sync_atom-AllMerged show now others rows u d a in
    let after = (sync_atom show now others rows).1 in
    let found : All
        (λ (r : ElementValue).
          (is_conflict (find_value r.element_id rows) r ≡ false) × (r.write_date ≤ now))
        others =
      All-zip (Agrees rows) (λ (r : ElementValue). r.write_date ≤ now) _ (λ r c l. (c, l)) others a
        t in
    sync_atom-Settled show later_now others after u' (
      All-zip
        (λ (r : ElementValue).
          find_value r.element_id after ≡ some (last_writer now (find_value r.element_id rows) r))
        (λ (r : ElementValue).
          (is_conflict (find_value r.element_id rows) r ≡ false) × (r.write_date ≤ now))
        (Settled show later_now after)
        (λ r h (c, l). Settled-after show now r after (find_value r.element_id rows) h c l) others
        merged found)
