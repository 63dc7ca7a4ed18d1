-- ===== src/Mirror/Sync.antt =====
-- A synchronization of a repository mirrors the commits that GitLab lists, and takes no other row away.
use agu_odoo.Base.{
  ⊤, ℕ, ◌≡◌, ◌≢◌, refl, ap, ◌∙◌, inl, true, false, Option, String, List, [], ◌∷◌, arith, All, Any,
  All-mono,
}
use agu_odoo.Python.{Result, ok, Exec, lift, pure, ◌>>◌, bind-eq_ok}
use agu_odoo.Text.{nonempty}
use agu_odoo.Mirror.{
  Around, Mirror, CommitRow, BranchRow, RemoteCommit, RemoteBranch, mirror_branch, upsert_branch,
  mirror_commit, last_date, convert_to_naive_datetime,
}
use agu_odoo.Mirror.Table.{find_commit, IsUnique, OtherKey}
use agu_odoo.Mirror.Branches.{IsBranch, upsert_branch-Any, upsert_branch-other}
use agu_odoo.Mirror.Synced.{IsMirrored, upsert-Leaves}
use agu_odoo.Mirror.Repository.{
  Settings, GitlabApi, RepositoryRow, Project, Site, replied, not_configured, mirror_branches,
  mirror_commits, mirror_project, sync_branches, sync_commits, on_mirror, reported, asked,
  sync_failure, write_details, sync_body, sync_with_gitlab, sync_done,
}

-- A commit has a hash, and a date that can be read.
abbrev pub IsReadable : Around → RemoteCommit → Type 0
IsReadable env c =
    (nonempty c.id ≡ true) × (date : ℕ) × (convert_to_naive_datetime env c.committed_date ≡ ok date)

-- A branch has no commit, or one with a date that can be read.
abbrev pub IsDated : Around → RemoteBranch → Type 0
IsDated env b = (date : Option ℕ) × (last_date env b.committed_date ≡ ok date)

-- No two commits of the list share a hash.
abbrev pub IsDistinct : List RemoteCommit → Type 0
IsDistinct [] = ⊤
IsDistinct (c ∷ commits) = All (λ (d : RemoteCommit). d.id ≢ c.id) commits × IsDistinct commits

-- No two branches of the list share a name.
abbrev pub IsDistinctNames : List RemoteBranch → Type 0
IsDistinctNames [] = ⊤
IsDistinctNames (b ∷ branches) =
    All (λ (d : RemoteBranch). b.name ≢ d.name) branches × IsDistinctNames branches

-- A branch is in the table with the date of its last commit, if it has one.
abbrev pub IsListed : Around → ℕ → List BranchRow → RemoteBranch → Type 0
IsListed env repository_id rows b =
    (date : Option ℕ) × (last_date env b.committed_date ≡ ok date)
    × Any (IsBranch b.name repository_id date) rows

-- A commit is in the table with its message, author and user, and the date that is read from it.
abbrev pub IsStored : Around → ℕ → List CommitRow → RemoteCommit → Type 0
IsStored env repository_id rows c =
    (date : ℕ) × (convert_to_naive_datetime env c.committed_date ≡ ok date)
    × IsMirrored env repository_id c date rows

module _ (env : Around) (repository_id : ℕ) where
  abbrev Mirrors : List RemoteCommit → Mirror → Result ⊤ × Mirror → Type 0
  Mirrors commits m r =
      (rows : List CommitRow) × (r ≡ (ok tt, record m { commits = rows }))
      × IsUnique rows
      × All (IsStored env repository_id rows) commits
      × ((name : String) (id : ℕ)
          → All (λ (c : RemoteCommit). OtherKey c.id repository_id name id) commits
          → find_commit name id rows ≡ find_commit name id m.commits)

  mirror_commits-Mirrors :
      (commits : List RemoteCommit) (m : Mirror)
      → IsUnique m.commits
      → IsDistinct commits
      → All (IsReadable env) commits
      → Mirrors commits m (mirror_commits env repository_id commits m)
  unfolding mirror_commits mirror_commit
  mirror_commits-Mirrors [] m u d h = (m.commits, refl, u, tt, λ name id a. refl)
  mirror_commits-Mirrors (c ∷ commits) m u d h =
      let (named, date, read) = h.0 in
      let (rows, here, u', mirrored, elsewhere) =
        upsert-Leaves env repository_id c date m u named in
      let m' : Mirror = record m { commits = rows } in
      let (rows', rest, u'', stored, others) = mirror_commits-Mirrors commits m' u' d.1 h.1 in
      let (row, found, message, day, author, admin) = mirrored in
      let kept =
        others c.id repository_id (All-mono _ _ (λ (d : RemoteCommit) ne. inl ne) commits d.0) in
      let step : mirror_commit env repository_id c m ≡ (ok tt, m') = rw (read, here) refl in
      (
        rows',
        bind-eq_ok (mirror_commit env repository_id c)
              (λ _. mirror_commits env repository_id commits) step
            ∙ rest,
        u'',
        ((date, read, (row, kept ∙ found, message, day, author, admin)), stored),
        λ name id a. others name id a.1 ∙ elsewhere name id a.0,
      )

  upsert_branch-commits :
      (name : String) (date : Option ℕ) (m : Mirror)
      → (upsert_branch name repository_id date m).commits ≡ m.commits
  unfolding upsert_branch
  upsert_branch-commits name date m = ground arith

  -- The loop over the branches goes through and changes their table only; every one of them is in it,
  -- and the rows of other branches stay.
  abbrev LeavesBranches : List RemoteBranch → Mirror → Result ⊤ × Mirror → Type 0
  LeavesBranches branches m r =
      (rows : List BranchRow) × (r ≡ (ok tt, record m { branches = rows }))
      × All (IsListed env repository_id rows) branches
      × ((name : String) (date : Option ℕ)
          → All (λ (b : RemoteBranch). name ≢ b.name) branches
          → Any (IsBranch name repository_id date) m.branches
          → Any (IsBranch name repository_id date) rows)

  mirror_branches-LeavesBranches :
      (branches : List RemoteBranch) (m : Mirror)
      → All (IsDated env) branches
      → IsDistinctNames branches
      → LeavesBranches branches m (mirror_branches env repository_id branches m)
  unfolding mirror_branches mirror_branch
  mirror_branches-LeavesBranches [] m h d = (m.branches, refl, tt, λ name date ne a. a)
  mirror_branches-LeavesBranches (b ∷ branches) m h d =
      let (date, read) = h.0 in
      let m' : Mirror = upsert_branch b.name repository_id date m in
      let (rows, rest, listed, kept) = mirror_branches-LeavesBranches branches m' h.1 d.1 in
      let step : mirror_branch env repository_id b m ≡ (ok tt, m') =
        rw (read, mirror_branch) refl in
      (
        rows,
        bind-eq_ok (mirror_branch env repository_id b)
              (λ _. mirror_branches env repository_id branches) step
            ∙ rest
            ∙ ap (λ commits. (ok tt, record { branches = rows; commits = commits }))
                (upsert_branch-commits b.name date m),
        (
          (date, read, kept b.name date d.0 (upsert_branch-Any b.name repository_id date m)),
          listed,
        ),
        λ name day ne a.
            kept name day ne.1 (upsert_branch-other b.name repository_id date name day ne.0 m a),
      )

on_mirror-eq :
    (m : Exec Mirror ⊤) (s : Site) {after : Mirror}
    → m s.mirror ≡ (ok tt, after)
    → on_mirror m s ≡ (ok tt, record s { mirror = after })
on_mirror-eq m s e =
    ap (λ (x : Result ⊤ × Mirror). ((reported x).0, record s { mirror = (reported x).1 })) e

module _ (env : Around) (api : GitlabApi) (id : ℕ) (project : Project) (s : Site) where
  sync_branches-eq :
      (branches : List RemoteBranch) {m : Mirror}
      → api.list_branches project.id ≡ replied branches
      → mirror_branches env id branches s.mirror ≡ (ok tt, m)
      → sync_branches env api id project s ≡ (ok tt, record s { mirror = m })
  sync_branches-eq branches lb e =
      bind-eq_ok (lift (asked sync_failure (api.list_branches project.id)))
        (λ branches. on_mirror (mirror_branches env id branches))
        (ap (λ x. (asked sync_failure x, s)) lb)
      ∙ on_mirror-eq (mirror_branches env id branches) s e

  sync_commits-eq :
      (commits : List RemoteCommit) {m : Mirror}
      → api.list_commits project.id ≡ replied commits
      → mirror_commits env id commits s.mirror ≡ (ok tt, m)
      → sync_commits env api id project s ≡ (ok tt, record s { mirror = m })
  sync_commits-eq commits lc e =
      bind-eq_ok (lift (asked sync_failure (api.list_commits project.id)))
        (λ commits. on_mirror (mirror_commits env id commits))
        (ap (λ x. (asked sync_failure x, s)) lc)
      ∙ on_mirror-eq (mirror_commits env id commits) s e

mirror_project-eq :
    (env : Around) (api : GitlabApi) (id : ℕ) (project : Project) (s : Site)
    (branches : List RemoteBranch) (commits : List RemoteCommit) {m m' : Mirror}
    → api.list_branches project.id ≡ replied branches
    → api.list_commits project.id ≡ replied commits
    → mirror_branches env id branches s.mirror ≡ (ok tt, m)
    → mirror_commits env id commits m ≡ (ok tt, m')
    → mirror_project env api id project s ≡ (
      ok sync_done,
      record s { repositories = write_details id project s.repositories; mirror = m' },
    )
mirror_project-eq env api id project s branches commits {m} {m'} lb lc e e' =
    let s₁ : Site = record s { repositories = write_details id project s.repositories } in
    let s₂ : Site = record s₁ { mirror = m } in
    bind-eq_ok (sync_branches env api id project)
      (λ _. sync_commits env api id project >> pure sync_done)
      (sync_branches-eq env api id project s₁ branches lb e)
    ∙ bind-eq_ok (sync_commits env api id project) (λ _. pure sync_done)
        (sync_commits-eq env api id project s₂ commits lc e')

-- With the settings given, if GitLab authenticates the token and answers every request, the dates of
-- the branches and commits that `list()` gives, GitLab's first page of each, can be read, these branches
-- have different names, these commits have hashes, no two the same, and no two rows of the table of
-- commits share a hash and a repository, then the synchronization of a repository succeeds. Every branch
-- of the page is in the table with the date of its last commit. The table of commits is again without
-- repetitions, and every commit of the page is in it with its message and date, with its author's name
-- if it has one, and with the user of the author's email, or the current user if there is none. The rows
-- of all other commits are found as before.
pub sync_with_gitlab_mirrors :
    (env : Around) (settings : Settings) (api : GitlabApi) (r : RepositoryRow) (s : Site)
    (project : Project) (branches : List RemoteBranch) (commits : List RemoteCommit)
    → not_configured settings ≡ false
    → api.auth ≡ replied tt
    → api.get_project r.project_id ≡ replied project
    → api.list_branches project.id ≡ replied branches
    → api.list_commits project.id ≡ replied commits
    → All (IsDated env) branches
    → IsDistinctNames branches
    → All (IsReadable env) commits
    → IsDistinct commits
    → IsUnique s.mirror.commits
    → let (result, after) = sync_with_gitlab env settings api r s in
      (result ≡ ok sync_done)
      × All (IsListed env r.id after.mirror.branches) branches
      × IsUnique after.mirror.commits
      × All (IsStored env r.id after.mirror.commits) commits
      × ((name : String) (id : ℕ)
          → All (λ (c : RemoteCommit). OtherKey c.id r.id name id) commits
          → find_commit name id after.mirror.commits ≡ find_commit name id s.mirror.commits)
unfolding sync_with_gitlab sync_body
sync_with_gitlab_mirrors env settings api r s project branches commits c a g lb lc db nb dc d u =
    let (rows, first, listed, kept) =
      mirror_branches-LeavesBranches env r.id branches s.mirror db nb in
    let m : Mirror = record s.mirror { branches = rows } in
    let (table, second, u', stored, others) = mirror_commits-Mirrors env r.id commits m u d dc in
    let whole = mirror_project-eq env api r.id project s branches commits lb lc first second in
    rw (c, a, g, whole) (refl, listed, u', stored, others)
