-- ===== src/Mirror/WizardTests.antt =====
-- Runs of the two wizards against a GitLab that takes everything, and has a file README.
use agu_odoo.Base.{
  String, Option, if◌then◌else◌, ◌∷◌, ◌≡◌, refl, ◌⊎◌, true, false, none, some, [], if◌then◌else◌,
}
use agu_odoo.Python.{ok, err, is_ok, exception, other_error}
use agu_odoo.Text.{strip, str_eq}
use agu_odoo.Bridge.Tests.{env}
use agu_odoo.Publisher.Tests.{test_lib}
use agu_odoo.Publisher.Api.{Outside}
use agu_odoo.Mirror.Repository.{Project, replied}
use agu_odoo.Mirror.Tests.{around, first_commit, main_branch, project, settings, repository, site}
use agu_odoo.Odoo.{request}
use agu_odoo.Text.{concat}
use agu_odoo.Mirror.Repository.{Settings}
use agu_odoo.Mirror.Wizard.{get_gitlab_client, commit_data}
use text.Mathlib.TextPositions.{eq_refl}
use agu_odoo.Mirror.Config.{Parameters, IsLawful, ConfigForm, get_values, set_values}
use agu_odoo.Mirror.Saved.{get_values-set_values}
use agu_odoo.Mirror.Users.{
  Directory, User, UserVals, write_user, create_user, sync_gitlab_user, public_key_of,
}
use agu_odoo.Mirror.UserKeys.{users_need_gitlab}
use agu_odoo.Mirror.Wizard.{
  Wizard, Host, file, get_error, decoded, Workspace, get_project_of, action_create_commit,
  keep_pushes,
}
use agu_odoo.Mirror.Form.{onchange_file_upload, check_file_path}
use agu_odoo.Mirror.NewBranch.{get_branch_project, action_create_branch}
use agu_odoo.Mirror.Pushes.{CommitPushed, Refused, action_create_commit_outcome}
use agu_odoo.Mirror.BranchPushes.{BranchPushed, action_create_branch_outcome}

abbrev outside : Outside
outside = record {
  lib = test_lib;
  dumps = λ j. "{}";
  send = λ url event. err (exception other_error "timed out");
  now = 100;
}

abbrev host : Host
host = record {
  client = replied tt;
  get_project = λ id. replied project;
  get_file = λ id path branch. if str_eq path "README" then file "aGk=" else get_error 404 "404";
  create_commit = λ id data'. replied first_commit;
  create_branch = λ id name source. replied main_branch;
  decode = λ text. decoded "hi";
}

abbrev wizard : Wizard
wizard = record {
  repository = repository;
  branch_name = "main";
  commit_message = "Change";
  file_path = "README";
  file_content = "hello";
  file_upload = some "aGk=";
  file_upload_filename = some "a.txt";
  file_name = none;
  file_exists = false;
  is_new_file = true;
}

abbrev workspace : Workspace
workspace = record { mirror = site.mirror; publishers = []; events = []; pushes = [] }

uploads : (onchange_file_upload host wizard).1.file_path ≡ "/a.txt"
unfolding onchange_file_upload
uploads = refl

blank_is_refused : is_ok (check_file_path (record wizard { file_path = " " })) ≡ false
unfolding check_file_path strip
blank_is_refused = refl

action_create_commit_outcome_example :
    ((p : Project) × (get_project_of settings host repository ≡ ok p)
      × CommitPushed outside around host wizard workspace p (
          keep_pushes workspace
            (action_create_commit outside around settings host wizard workspace)))
    ⊎ Refused
        (get_project_of settings host repository)
        (λ project_id. host.create_commit project_id (commit_data wizard))
        workspace
        (keep_pushes workspace (action_create_commit outside around settings host wizard workspace))
action_create_commit_outcome_example =
    action_create_commit_outcome outside around settings host wizard workspace

action_create_branch_outcome_example :
    ((p : Project) × (get_branch_project settings host repository ≡ ok p)
      × BranchPushed outside around (env "False") host repository "topic" "main" workspace p (
          keep_pushes workspace (
            action_create_branch outside around
              (env "False")
              settings
              host
              repository
              "topic"
              "main"
              workspace)))
    ⊎ Refused
        (get_branch_project settings host repository)
        (λ project_id. host.create_branch project_id "topic" "main")
        workspace
        (keep_pushes workspace (
          action_create_branch outside around
            (env "False")
            settings
            host
            repository
            "topic"
            "main"
            workspace))
action_create_branch_outcome_example =
    action_create_branch_outcome outside around (env "False") settings host repository "topic"
      "main" workspace

abbrev unset_settings : Settings
unset_settings = record { gitlab_url = none; gitlab_private_token = none }

abbrev directory : Directory
directory = record {
  new_key = "nsec1new";
  public_of = λ key. ok (concat ("npub of " ∷ key ∷ []));
  list_users =
      λ login. replied (record { username = login; email = "ann@gitlab.example.org"; id = 3 } ∷ []);
}

abbrev member : User
member = record {
  login = "ann";
  email = "ann@example.org";
  nostr_private_key = some "nsec1old";
  nostr_public_key = some "npub of nsec1old";
  gitlab_username = none;
  gitlab_email = none;
  gitlab_user_id = 0;
}

abbrev new_login : UserVals
new_login = record {
  login = some "anna";
  email = none;
  nostr_private_key = some (some "nsec1x");
  nostr_public_key = none;
}

abbrev written : User
written = (request (write_user directory settings host new_login) member).1

written_key : written.nostr_public_key ≡ some "npub of nsec1x"
unfolding write_user sync_gitlab_user get_gitlab_client public_key_of
written_key = refl

users_need_gitlab_example :
    (is_ok (request (create_user directory unset_settings host new_login) member).0 ≡ false)
    × (is_ok (request (write_user directory unset_settings host new_login) member).0 ≡ false)
    × ((request (write_user directory unset_settings host new_login) member).1 ≡ member)
users_need_gitlab_example =
    users_need_gitlab directory unset_settings host new_login member refl refl

-- A table of parameters as a function of the key
abbrev parameters : Parameters (String → Option String)
parameters = record {
  value_of = λ key p. p key;
  set_param = λ key value p. λ k. if str_eq k key then value else p k;
}

parameters-IsLawful : IsLawful parameters
parameters-IsLawful = record {
  value_of-set_param_self = λ key value p. rw (eq_refl key) refl;
  value_of-set_param_other = λ key other value p h. rw h refl;
}

abbrev entered : ConfigForm
entered = record {
  gitlab_url = some "https://gitlab.example.org";
  gitlab_private_token = none;
  use_alternative_publish = true;
  nostr_relay_urls = some "wss://one";
}

get_values-set_values_example :
    get_values parameters (set_values parameters (λ form p. p) entered (λ key. none))
    ≡ record entered { gitlab_private_token = some "" }
get_values-set_values_example =
    get_values-set_values parameters parameters-IsLawful (λ form p. p) entered (λ key. none)
