-- ===== src/Mirror.antt =====
-- odoo_custom_addons/gitlab_nostr_bridge/models/gitlab_branch.py and gitlab_commit.py: the tables in
-- which the branches and commits of GitLab are mirrored. The packages python-gitlab and dateutil are
-- arguments: what GitLab lists, and what `parser.parse` gives for a text.
pub mod Repository
pub mod Table
pub mod Synced
pub mod Branches
pub mod Sync
pub mod Attribution
pub mod Notices
pub mod Wizard
pub mod Form
pub mod NewBranch
pub mod Users
pub mod Config
pub mod Saved
pub mod UserKeys
pub mod Pushes
pub mod FormAction
pub mod BranchPushes
pub mod WizardTests
pub mod Tests
use agu_odoo.Base.{
  ⊤, ℕ, ◌+◌, Bool, true, false, ◌&&◌, Option, none, some, String, List, [], ◌∷◌, ◌++◌, any, keep,
  ◌==◌, if◌then◌else◌, length, take, leb,
}
use agu_odoo.Python.{Error, Result, ok, err, exception, user_error, validation_error, bind, Exec}
use agu_odoo.Text.{concat, str_eq, codes}
use agu_odoo.Odoo.{is_set, text_of}

-- What `parser.parse(date_string)` gives: the clock that the text shows, and the instant in UTC.
pub record Stamp : Type 0 where
  pub clock : ℕ
  pub utc : ℕ

-- `gitlab.branch`
pub record BranchRow : Type 0 where
  pub name : String
  pub repository_id : ℕ
  pub last_commit_date : Option ℕ

-- `gitlab.commit`
pub record CommitRow : Type 0 where
  pub name : String
  pub message : String
  pub author : String
  pub admin_id : Option ℕ
  pub date : ℕ
  pub repository_id : ℕ
  pub branch_ids : List ℕ

-- A branch of a project of GitLab, with the date of its last commit.
pub record RemoteBranch : Type 0 where
  pub name : String
  pub committed_date : Option String

-- A commit of a project of GitLab.
pub record RemoteCommit : Type 0 where
  pub id : String
  pub message : String
  pub author_name : String
  pub author_email : String
  pub committed_date : String

-- A row of `res.users`.
pub record Account : Type 0 where
  pub id : ℕ
  pub name : String
  pub email : String

-- What the methods take from outside: the time, the current user, the users in the order of a
-- search, `parser.parse`, and the SHA-1 of a text.
pub record Around : Type 0 where
  pub now : ℕ
  pub now_text : String
  pub user : Account
  pub users : List Account
  pub parse : String → Result Stamp
  pub sha1 : String → String

pub record Mirror : Type 0 where
  pub branches : List BranchRow
  pub commits : List CommitRow

-- `_convert_to_naive_datetime`, of both models
unfoldable pub convert_to_naive_datetime : Around → String → Result ℕ
convert_to_naive_datetime env date_string = bind (env.parse date_string) λ dt. ok dt.clock

-- The two searches by name and repository.
abbrev pub same_branch : String → ℕ → BranchRow → Bool
same_branch name repository_id b = str_eq b.name name && b.repository_id == repository_id

abbrev pub same_commit : String → ℕ → CommitRow → Bool
same_commit name repository_id c = str_eq c.name name && c.repository_id == repository_id

-- `write` on the records that a search has found
abbrev pub write_branches : String → ℕ → Option ℕ → List BranchRow → List BranchRow
write_branches name repository_id date [] = []
write_branches name repository_id date (b ∷ rows) =
    (if same_branch name repository_id b then record b { last_commit_date = date } else b)
    ∷ write_branches name repository_id date rows

abbrev pub last_date : Around → Option String → Result (Option ℕ)
last_date env none = ok none
last_date env (some text) = bind (convert_to_naive_datetime env text) λ d. ok (some d)

-- `create_or_update_from_gitlab` of the branches
unfoldable pub upsert_branch : String → ℕ → Option ℕ → Mirror → Mirror
upsert_branch name repository_id date m =
    if any (same_branch name repository_id) m.branches
    then record m { branches = write_branches name repository_id date m.branches }
    else record m {
      branches =
          m.branches
          ++ (record { name = name; repository_id = repository_id; last_commit_date = date } ∷ []);
    }

unfoldable pub mirror_branch : Around → ℕ → RemoteBranch → Exec Mirror ⊤
mirror_branch env repository_id branch m = elim (last_date env branch.committed_date) [
  | err e ↦ (err e, m)
  | ok date ↦ (ok tt, upsert_branch branch.name repository_id date m)
]

-- The values that are given to `create` of a commit; what is missing or false is `none`.
pub record CommitVals : Type 0 where
  pub name : Option String
  pub message : Option String
  pub author : Option String
  pub admin_id : Option ℕ
  pub date : Option ℕ
  pub repository_id : ℕ
  pub branch_ids : List ℕ

-- `_generate_commit_hash`
unfoldable pub generate_commit_hash : Around → CommitVals → String
generate_commit_hash env vals =
    env.sha1 (concat (text_of vals.message ∷ text_of vals.author ∷ env.now_text ∷ []))

abbrev pub or_default {ℓ} : {A : Type ℓ} → Option A → A → A
or_default none d = d
or_default (some a) d = a

abbrev or_text : Option String → String → String
or_text t d = if is_set t then text_of t else d

-- `create` of a commit: what is not given is filled in.
unfoldable pub filled_commit : Around → CommitVals → CommitRow
unfolding generate_commit_hash
filled_commit env vals = record {
  name = or_text vals.name (generate_commit_hash env vals);
  message = text_of vals.message;
  author = or_text vals.author env.user.name;
  admin_id = some (or_default vals.admin_id env.user.id);
  date = or_default vals.date env.now;
  repository_id = vals.repository_id;
  branch_ids = vals.branch_ids;
}

-- `_check_unique_commit`, for one row of the table
unfoldable pub is_unique_commit : String → ℕ → List CommitRow → Bool
is_unique_commit name repository_id rows =
    leb (length (keep (same_commit name repository_id) rows)) 1

abbrev pub checked_commit : {A : Type 0} → String → ℕ → A → Exec Mirror A
checked_commit name repository_id a m =
    if is_unique_commit name repository_id m.commits then (ok a, m) else (
      err (
          exception validation_error
            "A commit with this hash already exists for the selected repository."),
      m,
    )

unfoldable pub create_commit : Around → CommitVals → Exec Mirror CommitRow
unfolding filled_commit
create_commit env vals m =
    let row = filled_commit env vals in
    checked_commit row.name row.repository_id row (record m { commits = m.commits ++ (row ∷ []) })

-- `search([('email', '=', author_email)], limit=1)`
abbrev pub find_user : String → List Account → Option ℕ
find_user email [] = none
find_user email (u ∷ users) = if str_eq u.email email then some u.id else find_user email users

-- `commit_data`, written on a row
abbrev pub with_data : Around → ℕ → RemoteCommit → ℕ → CommitRow → CommitRow
with_data env repository_id commit date c = record c {
  name = commit.id;
  message = commit.message;
  author = commit.author_name;
  admin_id = find_user commit.author_email env.users;
  date = date;
  repository_id = repository_id;
}

abbrev pub write_commits : (CommitRow → CommitRow) → String → ℕ → List CommitRow → List CommitRow
write_commits f name repository_id [] = []
write_commits f name repository_id (c ∷ rows) =
    (if same_commit name repository_id c then f c else c) ∷ write_commits f name repository_id rows

-- `commit_data`, as the values of `create`
abbrev pub vals_of : Around → ℕ → RemoteCommit → ℕ → CommitVals
vals_of env repository_id commit date = record {
  name = some commit.id;
  message = some commit.message;
  author = some commit.author_name;
  admin_id = find_user commit.author_email env.users;
  date = some date;
  repository_id = repository_id;
  branch_ids = [];
}

abbrev without_row : Result CommitRow × Mirror → Result ⊤ × Mirror
without_row (ok row, m) = (ok tt, m)
without_row (err e, m) = (err e, m)

-- A commit that is there is written, another one is created.
unfoldable pub upsert_commit : Around → ℕ → RemoteCommit → ℕ → Exec Mirror ⊤
upsert_commit env repository_id commit date m =
    if any (same_commit commit.id repository_id) m.commits
    then checked_commit commit.id repository_id tt (record m {
      commits =
          write_commits (with_data env repository_id commit date) commit.id repository_id m.commits;
    })
    else without_row (create_commit env (vals_of env repository_id commit date) m)

abbrev pub not_processed : Result ⊤ × Mirror → Result ⊤ × Mirror
not_processed (ok u, m) = (ok u, m)
not_processed (err e, m) =
    (err (exception user_error (concat ("Failed to process GitLab commit: " ∷ e.text ∷ []))), m)

-- `create_or_update_from_gitlab` of the commits; the event that it publishes changes no table and
-- raises nothing.
unfoldable pub mirror_commit : Around → ℕ → RemoteCommit → Exec Mirror ⊤
mirror_commit env repository_id commit m =
    not_processed (elim (convert_to_naive_datetime env commit.committed_date) [
      | err e ↦ (err e, m)
      | ok date ↦ upsert_commit env repository_id commit date m
    ])

-- `_compute_repository_short`, of the code points of the name
unfoldable pub repository_short : List ℕ → List ℕ
repository_short name = if leb (length name) 10 then name else take 10 name ++ codes "..."
