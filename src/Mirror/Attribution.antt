-- ===== src/Mirror/Attribution.antt =====
-- Whom a mirrored commit is attributed to, when no user has the address of its author.
use agu_odoo.Base.{⊤, ℕ, ◌≡◌, refl, ap, ◌∙◌, true, none, some, [], ◌∷◌, ◌++◌}
use agu_odoo.Python.{Result, ok, err}
use agu_odoo.Text.{nonempty}
use agu_odoo.Mirror.{
  Around, Mirror, CommitRow, RemoteCommit, same_commit, find_user, filled_commit, vals_of,
  with_data, upsert_commit, mirror_commit, convert_to_naive_datetime, not_processed,
}
use agu_odoo.Mirror.Table.{
  find_commit, any-true_of_find, any-false_of_find, find-append, find-write_self, same_commit_self,
}
use agu_odoo.Mirror.Synced.{created_rows, rewritten_rows}

module _ (env : Around) (repository_id : ℕ) (commit : RemoteCommit) (date : ℕ) where
  not_processed-commits : (r : Result ⊤ × Mirror) → (not_processed r).1.commits ≡ r.1.commits
  not_processed-commits (ok u, m) = refl
  not_processed-commits (err e, m) = refl

  mirrored_rows :
      (m : Mirror)
      → convert_to_naive_datetime env commit.committed_date ≡ ok date
      → (mirror_commit env repository_id commit m).1.commits
        ≡ (upsert_commit env repository_id commit date m).1.commits
  unfolding mirror_commit
  mirrored_rows m read =
      rw read (not_processed-commits (upsert_commit env repository_id commit date m))

-- A commit with a hash and a readable date, whose author no user has the address of and which is not
-- in the table yet, is attributed to the current user by the first synchronization; the second one,
-- of the same commit, removes that attribution.
pub mirror_commit_unknown_author :
    (env : Around) (repository_id : ℕ) (commit : RemoteCommit) (date : ℕ) (m : Mirror)
    → nonempty commit.id ≡ true
    → convert_to_naive_datetime env commit.committed_date ≡ ok date
    → find_user commit.author_email env.users ≡ none
    → find_commit commit.id repository_id m.commits ≡ none
    → let first = (mirror_commit env repository_id commit m).1 in
      let second = (mirror_commit env repository_id commit first).1 in
      ((c : CommitRow) × (find_commit commit.id repository_id first.commits ≡ some c)
        × (c.admin_id ≡ some env.user.id))
      × ((c : CommitRow) × (find_commit commit.id repository_id second.commits ≡ some c)
          × (c.admin_id ≡ none))
unfolding filled_commit
mirror_commit_unknown_author env id commit date m named read unknown absent =
    let row : CommitRow = filled_commit env (vals_of env id commit date) in
    let first = (mirror_commit env id commit m).1 in
    let e₁ : first.commits ≡ m.commits ++ (row ∷ []) =
      mirrored_rows env id commit date m read
      ∙ created_rows env id commit date m (any-false_of_find commit.id id m.commits absent) in
    let same : same_commit commit.id id row ≡ true =
      same_commit_self row commit.id id (rw named refl) refl in
    let f₁ : find_commit commit.id id first.commits ≡ some row =
      ap (find_commit commit.id id) e₁
      ∙ find-append commit.id id m.commits row absent
      ∙ rw same refl in
    let e₂ =
      mirrored_rows env id commit date first read
      ∙ rewritten_rows env id commit date first
          (any-true_of_find commit.id id first.commits row f₁) in
    let f₂ =
      ap (find_commit commit.id id) e₂
      ∙ find-write_self commit.id id (with_data env id commit date)
          (λ c. same_commit_self (with_data env id commit date c) commit.id id refl refl)
          first.commits row f₁ in
    ((row, f₁, rw unknown refl), (with_data env id commit date row, f₂, unknown))
