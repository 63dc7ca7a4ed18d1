-- ===== src/Mirror/Branches.antt =====
-- What `create_or_update_from_gitlab` leaves of a branch of GitLab in the table of branches.
use agu_odoo.Base.{
  ℕ, ◌≡◌, ◌≢◌, refl, inl, inr, true, Option, String, List, [], ◌∷◌, ◌++◌, Any, any, arith, eq_iff,
  Bool-cases,
}
use agu_odoo.Mirror.{Mirror, BranchRow, same_branch, write_branches, upsert_branch}

-- The row of a branch of this name and repository, with this date of the last commit
abbrev pub IsBranch : String → ℕ → Option ℕ → BranchRow → Type 0
IsBranch name repository_id date b =
    (b.name ≡ name) × (b.repository_id ≡ repository_id) × (b.last_commit_date ≡ date)

Any-last :
    (P : BranchRow → Type 0) (rows : List BranchRow) (b : BranchRow)
    → P b
    → Any P (rows ++ (b ∷ []))
Any-last P [] b p = inl p
Any-last P (c ∷ rows) b p = inr (Any-last P rows b p)

Any-append :
    (P : BranchRow → Type 0) (rows more : List BranchRow) → Any P rows → Any P (rows ++ more)
Any-append P [] more a = elim a [ ]
Any-append P (c ∷ rows) more (inl p) = inl p
Any-append P (c ∷ rows) more (inr a) = inr (Any-append P rows more a)

module _ (name : String) (repository_id : ℕ) (date : Option ℕ) where
  write_branches-Any :
      (rows : List BranchRow)
      → any (same_branch name repository_id) rows ≡ true
      → Any (IsBranch name repository_id date) (write_branches name repository_id date rows)
  write_branches-Any [] h = absurd (cc h)
  write_branches-Any (b ∷ rows) h = elim (Bool-cases (same_branch name repository_id b)) [
    | inl e ↦ rw e (inl (ground (arith, e, eq_iff b.name name), ground (arith, e), refl))
    | inr e ↦ rw e (inr (write_branches-Any rows (ground (arith, h, e))))
  ]

  pub upsert_branch-Any :
      (m : Mirror)
      → Any (IsBranch name repository_id date) (upsert_branch name repository_id date m).branches
  unfolding upsert_branch
  upsert_branch-Any m = elim (Bool-cases (any (same_branch name repository_id) m.branches)) [
    | inl e ↦ rw e (write_branches-Any m.branches e)
    | inr e ↦ rw e (Any-last (IsBranch name repository_id date) m.branches _ (refl, refl, refl))
  ]

  module _ (other : String) (day : Option ℕ) (ne : other ≢ name) where
    write_branches-other :
        (rows : List BranchRow)
        → Any (IsBranch other repository_id day) rows
        → Any (IsBranch other repository_id day) (write_branches name repository_id date rows)
    write_branches-other [] a = elim a [ ]
    write_branches-other (b ∷ rows) (inl here) =
        elim (Bool-cases (same_branch name repository_id b)) [
          | inl e ↦ absurd (ground (arith, e, here, ne, eq_iff b.name name))
          | inr e ↦ rw e (inl here)
        ]
    write_branches-other (b ∷ rows) (inr a) = inr (write_branches-other rows a)

    -- The row of a branch of another name stays.
    pub upsert_branch-other :
        (m : Mirror)
        → Any (IsBranch other repository_id day) m.branches
        → Any (IsBranch other repository_id day) (upsert_branch name repository_id date m).branches
    unfolding upsert_branch
    upsert_branch-other m a = elim (Bool-cases (any (same_branch name repository_id) m.branches)) [
      | inl e ↦ rw e (write_branches-other m.branches a)
      | inr e ↦ rw e (Any-append (IsBranch other repository_id day) m.branches _ a)
    ]
