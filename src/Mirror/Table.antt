-- ===== src/Mirror/Table.antt =====
-- The table of commits keeps one row for a hash and a repository, and what a commit of GitLab leaves
-- in it is found again.
use agu_odoo.Base.{
  ⊤, ℕ, ◌≡◌, ◌≢◌, refl, ◌∙◌, ◌⊎◌, inl, inr, true, false, Option, none, some, String, List, [], ◌∷◌,
  ◌++◌, any, keep, if◌then◌else◌, arith, eq_iff, Bool-cases,
}
use agu_odoo.Mirror.{CommitRow, same_commit, write_commits, is_unique_commit}

-- The row that a search finds first.
abbrev pub find_commit : String → ℕ → List CommitRow → Option CommitRow
find_commit name repository_id [] = none
find_commit name repository_id (c ∷ rows) =
    if same_commit name repository_id c then some c else find_commit name repository_id rows

-- No two rows share a hash and a repository.
abbrev pub IsUnique : List CommitRow → Type 0
IsUnique [] = ⊤
IsUnique (c ∷ rows) = (find_commit c.name c.repository_id rows ≡ none) × IsUnique rows

pub same_commit_self :
    (c : CommitRow) (name : String) (repository_id : ℕ)
    → c.name ≡ name
    → c.repository_id ≡ repository_id
    → same_commit name repository_id c ≡ true
same_commit_self c name repository_id p q = ground (arith, eq_iff c.name name)

-- The search by another key does not see a row.
abbrev pub OtherKey : String → ℕ → String → ℕ → Type 0
OtherKey name repository_id name' repository_id' = (name ≢ name') ⊎ (repository_id ≢ repository_id')

module _ (name : String) (repository_id : ℕ) where
  pub find-none_of_any :
      (rows : List CommitRow)
      → any (same_commit name repository_id) rows ≡ false
      → find_commit name repository_id rows ≡ none
  find-none_of_any [] h = refl
  find-none_of_any (c ∷ rows) h = ground (arith, find-none_of_any rows)

  pub find-some_of_any :
      (rows : List CommitRow)
      → any (same_commit name repository_id) rows ≡ true
      → (c : CommitRow) × (find_commit name repository_id rows ≡ some c)
  find-some_of_any [] h = absurd (cc h)
  find-some_of_any (c ∷ rows) h = elim (Bool-cases (same_commit name repository_id c)) [
    | inl e ↦ rw e (c, refl)
    | inr e ↦ rw e (find-some_of_any rows (ground arith))
  ]

  pub any-true_of_find :
      (rows : List CommitRow) (d : CommitRow)
      → find_commit name repository_id rows ≡ some d
      → any (same_commit name repository_id) rows ≡ true
  any-true_of_find [] d h = absurd (cc h)
  any-true_of_find (c ∷ rows) d h = ground (arith, any-true_of_find rows d)

  pub any-false_of_find :
      (rows : List CommitRow)
      → find_commit name repository_id rows ≡ none
      → any (same_commit name repository_id) rows ≡ false
  any-false_of_find [] h = refl
  any-false_of_find (c ∷ rows) h = ground (arith, any-false_of_find rows)

  pub find-append :
      (rows : List CommitRow) (row : CommitRow)
      → find_commit name repository_id rows ≡ none
      → find_commit name repository_id (rows ++ (row ∷ []))
        ≡ (if same_commit name repository_id row then some row else none)
  find-append [] row h = refl
  find-append (c ∷ rows) row h = ground (arith, find-append rows row)

  pub find-append_other :
      (rows : List CommitRow) (row : CommitRow)
      → same_commit name repository_id row ≡ false
      → find_commit name repository_id (rows ++ (row ∷ [])) ≡ find_commit name repository_id rows
  find-append_other [] row h = rw h refl
  find-append_other (c ∷ rows) row h = ground (arith, find-append_other rows row)

  keep-nil_of_find :
      (rows : List CommitRow)
      → find_commit name repository_id rows ≡ none
      → keep (same_commit name repository_id) rows ≡ []
  keep-nil_of_find [] h = refl
  keep-nil_of_find (c ∷ rows) h = ground (arith, keep-nil_of_find rows)

  -- In a table without repetitions the check of the constraint passes.
  pub unique_passes :
      (rows : List CommitRow) → IsUnique rows → is_unique_commit name repository_id rows ≡ true
  unfolding is_unique_commit
  unique_passes [] u = refl
  unique_passes (c ∷ rows) u = elim (Bool-cases (same_commit name repository_id c)) [
    | inl e ↦
        let found : find_commit name repository_id rows ≡ none =
          ground (arith, u.0, eq_iff c.name name, e) in
        rw (e, keep-nil_of_find rows found) refl
    | inr e ↦ rw e (unique_passes rows u.1)
  ]

  module _ (f : CommitRow → CommitRow)
      (keeps : (c : CommitRow) → same_commit name repository_id (f c) ≡ true) where
    pub find-write_self :
        (rows : List CommitRow) (c : CommitRow)
        → find_commit name repository_id rows ≡ some c
        → find_commit name repository_id (write_commits f name repository_id rows) ≡ some (f c)
    find-write_self [] c h = absurd (cc h)
    find-write_self (d ∷ rows) c h = ground (arith, keeps d, find-write_self rows c)

    pub find-write_other :
        (name' : String) (repository_id' : ℕ) (rows : List CommitRow)
        → OtherKey name repository_id name' repository_id'
        → find_commit name' repository_id' (write_commits f name repository_id rows)
          ≡ find_commit name' repository_id' rows
    find-write_other name' repository_id' [] ne = refl
    find-write_other name' repository_id' (d ∷ rows) ne = ground (
      arith,
      keeps d,
      eq_iff d.name name,
      eq_iff d.name name',
      eq_iff (f d).name name,
      eq_iff (f d).name name',
      find-write_other name' repository_id' rows ne,
    )

    find-write_none :
        (name' : String) (repository_id' : ℕ) (rows : List CommitRow)
        → find_commit name' repository_id' rows ≡ none
        → find_commit name' repository_id' (write_commits f name repository_id rows) ≡ none
    find-write_none name' repository_id' [] h = refl
    find-write_none name' repository_id' (d ∷ rows) h = ground (
      arith,
      keeps d,
      eq_iff d.name name,
      eq_iff d.name name',
      eq_iff (f d).name name,
      eq_iff (f d).name name',
      find-write_none name' repository_id' rows,
    )

    pub write-IsUnique :
        (rows : List CommitRow) → IsUnique rows → IsUnique (write_commits f name repository_id rows)
    write-IsUnique [] u = tt
    write-IsUnique (d ∷ rows) u = elim (Bool-cases (same_commit name repository_id d)) [
      | inl e ↦
          let here : find_commit (f d).name (f d).repository_id rows ≡ none =
            ground (arith, u.0, e, keeps d, eq_iff d.name name, eq_iff (f d).name name) in
          rw e (find-write_none (f d).name (f d).repository_id rows here, write-IsUnique rows u.1)
      | inr e ↦ rw e (find-write_none d.name d.repository_id rows u.0, write-IsUnique rows u.1)
    ]

pub append-IsUnique :
    (rows : List CommitRow) (row : CommitRow)
    → IsUnique rows
    → find_commit row.name row.repository_id rows ≡ none
    → IsUnique (rows ++ (row ∷ []))
append-IsUnique [] row u h = (refl, tt)
append-IsUnique (c ∷ rows) row u h =
    let other : same_commit row.name row.repository_id c ≡ false = ground (arith, h) in
    let flipped : same_commit c.name c.repository_id row ≡ false =
      ground (arith, other, eq_iff c.name row.name, eq_iff row.name c.name) in
    let rest : find_commit row.name row.repository_id rows ≡ none = ground (arith, h) in
    (
      find-append c.name c.repository_id rows row u.0 ∙ rw flipped refl,
      append-IsUnique rows row u.1 rest,
    )
