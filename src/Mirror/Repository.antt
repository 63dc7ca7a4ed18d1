-- ===== src/Mirror/Repository.antt =====
-- odoo_custom_addons/gitlab_nostr_bridge/models/gitlab_repository.py and custom_error_handler.py: the
-- creation of a repository on GitLab and its synchronization, with the log of the errors. GitLab is a
-- record of functions; its exceptions are those that the code tells apart.
use agu_odoo.Base.{
  ⊤, ℕ, ◌+◌, Bool, false, ◌||◌, not, Option, String, List, [], ◌∷◌, ◌++◌, ◌==◌, if◌then◌else◌,
}
use agu_odoo.Python.{
  Error, Result, ok, err, exception, user_error, Exec, ◌>>=◌, ◌>>◌, lift, modify, pure, raise,
}
use agu_odoo.Text.{concat}
use agu_odoo.Odoo.{Notification, success, is_set}
use agu_odoo.Mirror.{Around, Mirror, RemoteBranch, RemoteCommit, mirror_branch, mirror_commit}

-- The exceptions of python-gitlab and requests.
pub data Failure : Type 0 where
  gitlab_authentication_error gitlab_get_error gitlab_create_error request_exception other_failure :
      String → Failure

pub data Reply {ℓ} (A : Type ℓ) : Type ℓ where
  replied : A → Reply A
  failed : Failure → Reply A

pub record Project : Type 0 where
  pub id : ℕ
  pub web_url : String

pub record GitlabApi : Type 0 where
  -- `gl.auth()`
  pub auth : Reply ⊤
  -- `gl.projects.get(project_id)`
  pub get_project : ℕ → Reply Project
  -- `gl.projects.create({'name': name})`
  pub create_project : String → Reply Project
  -- `project.branches.list()` and `project.commits.list()`, of a project by its id: what a call
  -- without arguments gives, which is the first page
  pub list_branches : ℕ → Reply (List RemoteBranch)
  pub list_commits : ℕ → Reply (List RemoteCommit)

-- The two parameters of the configuration.
pub record Settings : Type 0 where
  pub gitlab_url : Option String
  pub gitlab_private_token : Option String

-- `gitlab.repository`
pub record RepositoryRow : Type 0 where
  pub id : ℕ
  pub name : String
  pub gitlab_id : ℕ
  pub url : String
  pub project_id : ℕ

-- `gitlab.nostr.error.log`
pub record ErrorRow : Type 0 where
  pub summary : String
  pub method : String
  pub details : String

-- The tables of the database that the methods change.
pub record Site : Type 0 where
  pub repositories : List RepositoryRow
  pub mirror : Mirror
  pub error_log : List ErrorRow
  pub next_id : ℕ

-- `log_error`
unfoldable pub log_error : String → Error → Site → Site
log_error method e s = record s {
  error_log = s.error_log ++ (record { summary = e.text; method = method; details = e.text } ∷ []);
}

-- `gitlab_nostr_error_handler`: log, and raise again
abbrev pub handled : {A : Type 0} → String → Result A × Site → Result A × Site
handled method (ok a, s) = (ok a, s)
handled method (err e, s) = (err e, log_error method e s)

abbrev pub error_handler : {A : Type 0} → String → Exec Site A → Exec Site A
error_handler method m s = handled method (m s)

abbrev pub not_configured : Settings → Bool
not_configured c = not (is_set c.gitlab_url) || not (is_set c.gitlab_private_token)

abbrev pub no_settings : Error
no_settings =
    exception user_error "GitLab URL or Private Token is not configured. Please check the settings."

abbrev pub no_authentication : Error
no_authentication =
    exception user_error
      "Failed to authenticate with GitLab. Please check your GitLab private token."

abbrev pub unexpected : String → Error
unexpected text = exception user_error (concat ("An unexpected error occurred: " ∷ text ∷ []))

-- The `except` clauses of `sync_with_gitlab`
abbrev pub sync_failure : Failure → Error
sync_failure (gitlab_authentication_error text) = no_authentication
sync_failure (gitlab_get_error text) =
    exception user_error (concat ("Failed to retrieve GitLab project. Error: " ∷ text ∷ []))
sync_failure (gitlab_create_error text) = unexpected text
sync_failure (request_exception text) = unexpected text
sync_failure (other_failure text) = unexpected text

-- The `except` clauses of `create`
abbrev pub create_failure : Failure → Error
create_failure (gitlab_authentication_error text) = no_authentication
create_failure (gitlab_create_error text) =
    exception user_error (concat ("Failed to create GitLab project. Error: " ∷ text ∷ []))
create_failure (request_exception text) =
    exception user_error
      "Failed to connect to GitLab. Please check the GitLab URL and your network connection."
create_failure (gitlab_get_error text) = unexpected text
create_failure (other_failure text) = unexpected text

-- What GitLab answers, with its exceptions as a method reports them.
abbrev pub asked {ℓ} : {A : Type ℓ} → (Failure → Error) → Reply A → Result A
asked report (replied a) = ok a
asked report (failed f) = err (report f)

-- The exceptions of the loops are none of GitLab's.
abbrev pub reported : {A : Type 0} → Result A × Mirror → Result A × Mirror
reported (ok a, m) = (ok a, m)
reported (err e, m) = (err (unexpected e.text), m)

unfoldable pub mirror_branches : Around → ℕ → List RemoteBranch → Exec Mirror ⊤
mirror_branches env repository_id [] = pure tt
mirror_branches env repository_id (b ∷ branches) =
    mirror_branch env repository_id b >> mirror_branches env repository_id branches

unfoldable pub mirror_commits : Around → ℕ → List RemoteCommit → Exec Mirror ⊤
mirror_commits env repository_id [] = pure tt
mirror_commits env repository_id (c ∷ commits) =
    mirror_commit env repository_id c >> mirror_commits env repository_id commits

-- An operation of the mirrored tables.
abbrev pub on_mirror : {A : Type 0} → Exec Mirror A → Exec Site A
on_mirror m s = let (r, mirror) = reported (m s.mirror) in (r, record s { mirror = mirror })

-- `self.write({'gitlab_id': project.id, 'url': project.web_url})`
abbrev pub write_details : ℕ → Project → List RepositoryRow → List RepositoryRow
write_details repository_id project [] = []
write_details repository_id project (r ∷ rows) =
    (if r.id == repository_id
      then record r { gitlab_id = project.id; url = project.web_url }
      else r)
    ∷ write_details repository_id project rows

abbrev pub sync_done : Notification
sync_done = record {
  title = "Sync Successful";
  message = "Repository synced successfully with GitLab.";
  severity = success;
  sticky = false;
}

-- The loops over what the project lists
abbrev pub sync_branches : Around → GitlabApi → ℕ → Project → Exec Site ⊤
sync_branches env api repository_id project =
    lift (asked sync_failure (api.list_branches project.id)) >>= λ branches.
    on_mirror (mirror_branches env repository_id branches)

abbrev pub sync_commits : Around → GitlabApi → ℕ → Project → Exec Site ⊤
sync_commits env api repository_id project =
    lift (asked sync_failure (api.list_commits project.id)) >>= λ commits.
    on_mirror (mirror_commits env repository_id commits)

abbrev pub mirror_project : Around → GitlabApi → ℕ → Project → Exec Site Notification
mirror_project env api repository_id project = do
  modify
      (λ (s : Site). record s { repositories = write_details repository_id project s.repositories })
  sync_branches env api repository_id project
  sync_commits env api repository_id project
  pure sync_done

-- `sync_with_gitlab`, without its decorator
unfoldable pub sync_body : Around → Settings → GitlabApi → RepositoryRow → Exec Site Notification
sync_body env settings api r = if not_configured settings then raise no_settings else do
  lift (asked sync_failure api.auth)
  project ← lift (asked sync_failure (api.get_project r.project_id))
  mirror_project env api r.id project

unfoldable pub sync_with_gitlab :
    Around → Settings → GitlabApi → RepositoryRow → Exec Site Notification
sync_with_gitlab env settings api r =
    error_handler "sync_with_gitlab" (sync_body env settings api r)

abbrev pub sync_each : Around → Settings → GitlabApi → List RepositoryRow → Exec Site ⊤
sync_each env settings api [] = pure tt
sync_each env settings api (r ∷ rows) =
    sync_with_gitlab env settings api r >> sync_each env settings api rows

-- `sync_all_repositories`
unfoldable pub sync_all_repositories : Around → Settings → GitlabApi → Exec Site ⊤
sync_all_repositories env settings api =
    error_handler "sync_all_repositories" λ s. sync_each env settings api s.repositories s

-- The exception of the synchronization is none of GitLab's.
abbrev pub synced_or_unexpected : ℕ → Result Notification × Site → Result ℕ × Site
synced_or_unexpected id (ok n, s) = (ok id, s)
synced_or_unexpected id (err e, s) = (err (unexpected e.text), s)

abbrev pub store_and_sync : Around → Settings → GitlabApi → String → Project → Exec Site ℕ
store_and_sync env settings api name project s =
    let row : RepositoryRow = record {
      id = s.next_id;
      name = name;
      gitlab_id = project.id;
      url = project.web_url;
      project_id = project.id;
    } in
    synced_or_unexpected s.next_id (
      sync_with_gitlab env settings api row
        (record s { repositories = s.repositories ++ (row ∷ []); next_id = s.next_id + 1 }))

-- `create`
unfoldable pub create_repository : Around → Settings → GitlabApi → String → Exec Site ℕ
create_repository env settings api name = error_handler "create" (
    if not_configured settings then raise no_settings else do
      lift (asked create_failure api.auth)
      project ← lift (asked create_failure (api.create_project name))
      store_and_sync env settings api name project)
