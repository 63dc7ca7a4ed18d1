-- ===== src/Mirror/NewBranch.antt =====
-- odoo_custom_addons/gitlab_nostr_bridge/wizards/create_branch_wizard.py: a branch that is created on
-- GitLab and mirrored in the tables, with its event.
use agu_odoo.Base.{⊤, ℕ, String, [], ◌∷◌, ◌++◌, if◌then◌else◌}
use agu_odoo.Python.{Error, Result, ok, err, exception, name_error, bind, Exec}
use agu_odoo.Json.{str, num, obj, field, end}
use agu_odoo.Bridge.{BridgeEvent}
use agu_odoo.Bridge.Strategies.{Env}
use agu_odoo.Bridge.GitLab.{create_gitlab_event}
use agu_odoo.Publisher.Api.{Outside}
use agu_odoo.Mirror.{Around, Mirror, RemoteBranch, mirror_branch}
use agu_odoo.Mirror.Repository.{
  Reply, replied, failed, Failure, asked, not_configured, Project, Settings, RepositoryRow,
}
use agu_odoo.Mirror.Wizard.{Host, pushed_branch, Workspace, failure_error}

-- `_get_gitlab_client` of this wizard, whose module imports neither UserError nor _logger: both of its
-- error paths raise NameError.
abbrev pub undefined_logger : Failure → Error
undefined_logger f = exception name_error "name '_logger' is not defined"

unfoldable pub get_branch_client : Settings → Host → Result ⊤
get_branch_client settings host =
    if not_configured settings
    then err (exception name_error "name 'UserError' is not defined")
    else asked undefined_logger host.client

abbrev pub get_branch_project : Settings → Host → RepositoryRow → Result Project
get_branch_project settings host r =
    bind (get_branch_client settings host) λ _. asked failure_error (host.get_project r.project_id)

-- The event that is created for the branch
abbrev pub branch_event : Outside → Env → RepositoryRow → String → Result BridgeEvent
branch_event o bridge r branch_name = create_gitlab_event bridge "branch" (
    o.dumps (
      obj (
        field "project_id" (num r.project_id)
          (field "branch_name" (str branch_name) (field "action" (str "create") end)))))

abbrev pub store_event : Result BridgeEvent → Exec Workspace ⊤
store_event (ok e) s = (ok tt, record s { events = s.events ++ (e ∷ []) })
store_event (err e) s = (err e, s)

abbrev pub finish_branch : Result BridgeEvent → Result ⊤ × Mirror → Exec Workspace ⊤
finish_branch event (ok u, m) s = store_event event (record s { mirror = m })
finish_branch event (err e, m) s = (err e, record s { mirror = m })

abbrev pub push_branch :
    Outside
    → Around
    → Env
    → RepositoryRow
    → String
    → String
    → ℕ
    → Reply RemoteBranch
    → Exec Workspace ⊤
push_branch o env bridge r branch_name source_branch project_id (replied branch) s =
    finish_branch (branch_event o bridge r branch_name) (mirror_branch env r.id branch s.mirror)
      (record s { pushes = s.pushes ++ (pushed_branch project_id branch_name source_branch ∷ []) })
push_branch o env bridge r branch_name source_branch project_id (failed f) s =
    (err (failure_error f), s)

abbrev pub branch_to :
    Outside
    → Around
    → Env
    → Host
    → RepositoryRow
    → String
    → String
    → Result Project
    → Exec Workspace ⊤
branch_to o env bridge host r branch_name source_branch (ok project) s =
    push_branch o env bridge r branch_name source_branch project.id
      (host.create_branch project.id branch_name source_branch) s
branch_to o env bridge host r branch_name source_branch (err e) s = (err e, s)

-- `action_create_branch`
unfoldable pub action_create_branch :
    Outside → Around → Env → Settings → Host → RepositoryRow → String → String → Exec Workspace ⊤
action_create_branch o env bridge settings host r branch_name source_branch s =
    branch_to o env bridge host r branch_name source_branch (get_branch_project settings host r) s
