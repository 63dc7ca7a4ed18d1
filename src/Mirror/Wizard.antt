-- ===== src/Mirror/Wizard.antt =====
-- odoo_custom_addons/gitlab_nostr_bridge/wizards/create_commit_wizard.py: a commit that is created on
-- GitLab, mirrored in the tables, and told to the relays. The checks of its form are in Mirror/Form.
use agu_odoo.Base.{⊤, ℕ, Bool, false, Option, String, List, [], ◌∷◌, ◌++◌, if◌then◌else◌}
use agu_odoo.Python.{Error, Result, ok, err, exception, user_error, other_error, bind, Exec}
use agu_odoo.Text.{concat}
use agu_odoo.Json.{str, num, obj, field, end}
use agu_odoo.Odoo.{Notification, success}
use agu_odoo.Bridge.{BridgeEvent}
use agu_odoo.Publisher.{Publisher}
use agu_odoo.Publisher.Api.{Outside, publish_event_for_module}
use agu_odoo.Mirror.{Around, Mirror, RemoteBranch, RemoteCommit, mirror_commit}
use agu_odoo.Mirror.Repository.{
  Failure, gitlab_authentication_error, gitlab_get_error, gitlab_create_error, request_exception,
  other_failure, Reply, replied, failed, Project, Settings, RepositoryRow, not_configured,
  no_settings, unexpected, asked,
}

-- `gitlab_nostr_bridge.create.commit.wizard`
pub record Wizard : Type 0 where
  pub repository : RepositoryRow
  pub branch_name : String
  pub commit_message : String
  pub file_path : String
  pub file_content : String
  pub file_upload : Option String
  pub file_upload_filename : Option String
  pub file_name : Option String
  pub file_exists : Bool
  pub is_new_file : Bool

-- `commit_data`, with its one action
pub record CommitData : Type 0 where
  pub branch : String
  pub commit_message : String
  pub action : String
  pub file_path : String
  pub content : String

-- `project.files.get`: the content of the file, an error of GitLab with its code, or another exception.
pub data FileReply : Type 0 where
  file : String → FileReply
  get_error : ℕ → String → FileReply
  no_file_reply : String → FileReply

-- `base64.b64decode(text).decode('utf-8')`
pub data Decoded : Type 0 where
  decoded : String → Decoded
  unicode_decode_error decode_failure : String → Decoded

pub record Host : Type 0 where
  -- `gitlab.Gitlab(gitlab_url, private_token=gitlab_token)`
  pub client : Reply ⊤
  pub get_project : ℕ → Reply Project
  -- `project.files.get(file_path=path, ref=branch)`
  pub get_file : ℕ → String → String → FileReply
  pub create_commit : ℕ → CommitData → Reply RemoteCommit
  -- `project.branches.create({'branch': name, 'ref': source})`
  pub create_branch : ℕ → String → String → Reply RemoteBranch
  pub decode : String → Decoded

-- What was created on GitLab, which no rollback takes back
pub data Push : Type 0 where
  pushed_commit : ℕ → CommitData → Push
  pushed_branch : ℕ → String → String → Push

pub record Workspace : Type 0 where
  pub mirror : Mirror
  pub publishers : List Publisher
  pub events : List BridgeEvent
  pub pushes : List Push

abbrev pub failure_text : Failure → String
failure_text (gitlab_authentication_error t) = t
failure_text (gitlab_get_error t) = t
failure_text (gitlab_create_error t) = t
failure_text (request_exception t) = t
failure_text (other_failure t) = t

abbrev pub failure_error : Failure → Error
failure_error f = exception other_error (failure_text f)

abbrev pub client_failure : Failure → Error
client_failure f =
    exception user_error
      "Failed to connect to GitLab. Please check your settings and network connection."

-- `_get_gitlab_client`
unfoldable pub get_gitlab_client : Settings → Host → Result ⊤
get_gitlab_client settings host =
    if not_configured settings then err no_settings else asked client_failure host.client

-- The client and the project of the repository
abbrev pub get_project_of : Settings → Host → RepositoryRow → Result Project
get_project_of settings host r =
    bind (get_gitlab_client settings host) λ _. asked failure_error (host.get_project r.project_id)

abbrev pub commit_data : Wizard → CommitData
commit_data w = record {
  branch = w.branch_name;
  commit_message = w.commit_message;
  action = if w.is_new_file then "create" else "update";
  file_path = w.file_path;
  content = w.file_content;
}

abbrev pub push_failure : Failure → Error
push_failure (gitlab_create_error t) =
    exception user_error (concat ("Failed to create commit: " ∷ t ∷ []))
push_failure (gitlab_authentication_error t) = exception other_error t
push_failure (gitlab_get_error t) = exception other_error t
push_failure (request_exception t) = exception other_error t
push_failure (other_failure t) = exception other_error t

abbrev pub commit_created : Notification
commit_created = record {
  title = "Success";
  message = "Commit created successfully and published to Nostr";
  severity = success;
  sticky = false;
}

-- `nostr_content`
abbrev pub nostr_content : Outside → Wizard → RemoteCommit → String
nostr_content o w commit = o.dumps (
    obj (
      field "commit_hash" (str commit.id) (
        field "repository_path" (str w.repository.url) (field "commit_timestamp" (num o.now) end))))

-- The publishing; its exception is logged.
abbrev pub told : Outside → Wizard → RemoteCommit → List Publisher → List Publisher
told o w commit publishers =
    (publish_event_for_module o "gitlab_nostr_bridge" "commit" (nostr_content o w commit)
      (("r" ∷ w.repository.url ∷ []) ∷ []) publishers).1

abbrev pub finish_commit :
    Outside → Wizard → RemoteCommit → Result ⊤ × Mirror → Exec Workspace Notification
finish_commit o w commit (ok u, m) s =
    (ok commit_created, record s { mirror = m; publishers = told o w commit s.publishers })
finish_commit o w commit (err e, m) s = (err e, record s { mirror = m })

abbrev pub push_commit :
    Outside → Around → Wizard → ℕ → Reply RemoteCommit → Exec Workspace Notification
push_commit o env w project_id (replied commit) s =
    finish_commit o w commit (mirror_commit env w.repository.id commit s.mirror)
      (record s { pushes = s.pushes ++ (pushed_commit project_id (commit_data w) ∷ []) })
push_commit o env w project_id (failed f) s = (err (push_failure f), s)

abbrev pub commit_to :
    Outside → Around → Host → Wizard → Result Project → Exec Workspace Notification
commit_to o env host w (ok project) s =
    push_commit o env w project.id (host.create_commit project.id (commit_data w)) s
commit_to o env host w (err e) s = (err e, s)

abbrev pub reported_again : {A : Type 0} → Result A × Workspace → Result A × Workspace
reported_again (ok a, s) = (ok a, s)
reported_again (err e, s) = (err (unexpected e.text), s)

-- `action_create_commit`
unfoldable pub action_create_commit :
    Outside → Around → Settings → Host → Wizard → Exec Workspace Notification
action_create_commit o env settings host w s =
    reported_again (commit_to o env host w (get_project_of settings host w.repository) s)

-- The request of a button: the tables are rolled back after an exception, GitLab is not.
abbrev pub keep_pushes : {A : Type 0} → Workspace → Result A × Workspace → Result A × Workspace
keep_pushes s (ok a, t) = (ok a, t)
keep_pushes s (err e, t) = (err e, record s { pushes = t.pushes })
