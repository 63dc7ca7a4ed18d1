-- ===== src/Mirror/Synced.antt =====
-- What `create_or_update_from_gitlab` leaves of a commit of GitLab in the table of commits.
use agu_odoo.Base.{
  sym, subst, ⊤, ℕ, ◌⊎◌, Option, ◌≡◌, refl, ◌∙◌, inl, inr, true, false, none, some, String, List,
  [], ◌∷◌, ◌++◌, any, arith, eq_iff, Bool-cases,
}
use agu_odoo.Python.{Result, ok}
use agu_odoo.Text.{nonempty}
use agu_odoo.Mirror.{
  Around, find_user, or_default, Mirror, CommitRow, RemoteCommit, same_commit, write_commits,
  with_data, vals_of, filled_commit, create_commit, upsert_commit,
}
use agu_odoo.Mirror.Table.{
  find_commit, IsUnique, OtherKey, same_commit_self, find-none_of_any, find-some_of_any,
  find-append, find-append_other, unique_passes, find-write_self, find-write_other, write-IsUnique,
  append-IsUnique,
}

-- The author's name of the commit, if it has one.
abbrev pub HasAuthor : RemoteCommit → CommitRow → Type 0
HasAuthor commit c = (nonempty commit.author_name ≡ false) ⊎ (c.author ≡ commit.author_name)

-- The user with the author's email, or the current user if there is none.
abbrev pub HasAdmin : Around → RemoteCommit → CommitRow → Type 0
HasAdmin env commit c =
    (c.admin_id ≡ find_user commit.author_email env.users)
    ⊎ ((find_user commit.author_email env.users ≡ none) × (c.admin_id ≡ some env.user.id))

-- The row that a commit of GitLab has in the table, with its message, its date, its author and its
-- user.
abbrev pub IsMirrored : Around → ℕ → RemoteCommit → ℕ → List CommitRow → Type 0
IsMirrored env repository_id commit date rows =
    (c : CommitRow) × (find_commit commit.id repository_id rows ≡ some c)
    × (c.message ≡ commit.message)
    × (c.date ≡ date)
    × HasAuthor commit c
    × HasAdmin env commit c

-- All other searches find what they found.
abbrev pub SameElsewhere : String → ℕ → List CommitRow → List CommitRow → Type 0
SameElsewhere name repository_id before after =
    (name' : String) (repository_id' : ℕ)
    → OtherKey name repository_id name' repository_id'
    → find_commit name' repository_id' after ≡ find_commit name' repository_id' before

module _ (env : Around) (repository_id : ℕ) (commit : RemoteCommit) (date : ℕ) (m : Mirror) where
  abbrev Leaves : Result ⊤ × Mirror → Type 0
  Leaves r =
      (rows : List CommitRow) × (r ≡ (ok tt, record m { commits = rows }))
      × IsUnique rows
      × IsMirrored env repository_id commit date rows
      × SameElsewhere commit.id repository_id m.commits rows

  abbrev writes : CommitRow → CommitRow
  writes = with_data env repository_id commit date

  writes-same_commit : (c : CommitRow) → same_commit commit.id repository_id (writes c) ≡ true
  writes-same_commit c = same_commit_self (writes c) commit.id repository_id refl refl

  written_rows : List CommitRow
  written_rows = write_commits writes commit.id repository_id m.commits

  written-Leaves :
      IsUnique m.commits
      → any (same_commit commit.id repository_id) m.commits ≡ true
      → Leaves (upsert_commit env repository_id commit date m)
  unfolding upsert_commit written_rows
  written-Leaves u there =
      let (c, found) = find-some_of_any commit.id repository_id m.commits there in
      let u' : IsUnique written_rows =
        write-IsUnique commit.id repository_id writes writes-same_commit m.commits u in
      (
        written_rows,
        rw (there, unique_passes commit.id repository_id written_rows u') refl,
        u',
        (
          writes c,
          find-write_self commit.id repository_id writes writes-same_commit m.commits c found,
          refl,
          refl,
          inr refl,
          inl refl,
        ),
        λ name' repository_id' ne.
            find-write_other commit.id repository_id writes writes-same_commit name' repository_id'
              m.commits ne,
      )

  new_row : CommitRow
  new_row = filled_commit env (vals_of env repository_id commit date)

  new_row-name : nonempty commit.id ≡ true → new_row.name ≡ commit.id
  unfolding new_row filled_commit
  new_row-name named = rw named refl

  new_row-fields :
      (new_row.message ≡ commit.message)
      × (new_row.date ≡ date)
      × (new_row.repository_id ≡ repository_id)
  unfolding new_row filled_commit
  new_row-fields = (refl, refl, refl)

  new_row-HasAuthor : HasAuthor commit new_row
  unfolding new_row filled_commit
  new_row-HasAuthor = elim (Bool-cases (nonempty commit.author_name)) [
    | inr e ↦ inl e
    | inl e ↦ inr (rw e refl)
  ]

  new_row-HasAdmin : HasAdmin env commit new_row
  unfolding new_row filled_commit
  new_row-HasAdmin = admin (find_user commit.author_email env.users)
    where
      admin :
          (o : Option ℕ)
          → (some (or_default o env.user.id) ≡ o)
            ⊎ ((o ≡ none) × (some (or_default o env.user.id) ≡ some env.user.id))
      admin none = inr (refl, refl)
      admin (some id) = inl refl

  created-Leaves :
      IsUnique m.commits
      → nonempty commit.id ≡ true
      → any (same_commit commit.id repository_id) m.commits ≡ false
      → Leaves (upsert_commit env repository_id commit date m)
  unfolding upsert_commit create_commit new_row
  created-Leaves u named absent =
      let row : CommitRow = new_row in
      let rows = m.commits ++ (row ∷ []) in
      let here = new_row-name named in
      let (message, day, repository) = new_row-fields in
      let none_there = find-none_of_any commit.id repository_id m.commits absent in
      let same : same_commit commit.id repository_id row ≡ true =
        same_commit_self row commit.id repository_id here repository in
      let u' : IsUnique rows =
        append-IsUnique m.commits row u
          (subst (λ k. find_commit k repository_id m.commits ≡ none) (sym here) none_there) in
      (
        rows,
        rw (absent, unique_passes row.name row.repository_id rows u') refl,
        u',
        (
          row,
          find-append commit.id repository_id m.commits row none_there ∙ rw same refl,
          message,
          day,
          new_row-HasAuthor,
          new_row-HasAdmin,
        ),
        λ name' repository_id' ne.
            find-append_other name' repository_id' m.commits row
              (ground (arith, here, repository, eq_iff row.name name')),
      )

  -- In a table without repetitions the commit is written or created, and nothing is refused.
  pub upsert-Leaves :
      IsUnique m.commits
      → nonempty commit.id ≡ true
      → Leaves (upsert_commit env repository_id commit date m)
  upsert-Leaves u named = elim (Bool-cases (any (same_commit commit.id repository_id) m.commits)) [
    | inl there ↦ written-Leaves u there
    | inr absent ↦ created-Leaves u named absent
  ]

  -- The table after the commit, whatever the check of the constraint says.
  pub created_rows :
      any (same_commit commit.id repository_id) m.commits ≡ false
      → (upsert_commit env repository_id commit date m).1.commits
        ≡ m.commits ++ (filled_commit env (vals_of env repository_id commit date) ∷ [])
  unfolding upsert_commit create_commit
  created_rows absent = rw absent (ground arith)

  pub rewritten_rows :
      any (same_commit commit.id repository_id) m.commits ≡ true
      → (upsert_commit env repository_id commit date m).1.commits
        ≡ write_commits (with_data env repository_id commit date) commit.id repository_id m.commits
  unfolding upsert_commit
  rewritten_rows there = rw there (ground arith)
