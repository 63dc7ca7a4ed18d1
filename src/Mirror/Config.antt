-- ===== src/Mirror/Config.antt =====
-- odoo_custom_addons/gitlab_nostr_bridge/models/res_config_settings.py: the form of the settings, kept
-- in Odoo's table of parameters, whose operations and what they promise are arguments.
use agu_odoo.Base.{⊤, ◌≡◌, Bool, true, false, Option, none, some, String, [], ◌∷◌, if◌then◌else◌}
use agu_odoo.Python.{Result, ok, err, exception, user_error}
use agu_odoo.Text.{str_eq, concat}
use agu_odoo.Odoo.{Notification, success, warning, is_set, text_of}
use agu_odoo.Bridge.Strategies.{return_notification}
use agu_odoo.Mirror.Repository.{Settings}

-- `ir.config_parameter`: the value of a key, and its change; `none` removes the key.
pub record Parameters (P : Type 0) : Type 0 where
  pub value_of : String → P → Option String
  pub set_param : String → Option String → P → P

pub record IsLawful {P : Type 0} (params : Parameters P) : Type 0 where
  pub value_of-set_param_self :
      (key : String) (value : Option String) (p : P)
      → params.value_of key (params.set_param key value p) ≡ value
  pub value_of-set_param_other :
      (key other : String) (value : Option String) (p : P)
      → str_eq key other ≡ false
      → params.value_of key (params.set_param other value p) ≡ params.value_of key p

-- `res.config.settings`
pub record ConfigForm : Type 0 where
  pub gitlab_url : Option String
  pub gitlab_private_token : Option String
  pub use_alternative_publish : Bool
  pub nostr_relay_urls : Option String

-- `str(flag)`
abbrev pub flag_text : Bool → String
flag_text true = "True"
flag_text false = "False"

module _ {P : Type 0} (params : Parameters P) where
  -- `get_param(key, default)`, which gives the default for an empty value too
  abbrev pub get_param : String → String → P → String
  get_param key default p =
      if is_set (params.value_of key p) then text_of (params.value_of key p) else default

  -- `set_values`, after what the framework stores of the form
  unfoldable pub set_values : (ConfigForm → P → P) → ConfigForm → P → P
  set_values base form p = params.set_param "nostr_bridge.relay_urls" form.nostr_relay_urls (
      params.set_param "use_alternative_publish" (some (flag_text form.use_alternative_publish)) (
        params.set_param "gitlab_nostr_bridge.gitlab_private_token" form.gitlab_private_token
          (params.set_param "gitlab_nostr_bridge.gitlab_url" form.gitlab_url (base form p))))

  -- `get_values`
  unfoldable pub get_values : P → ConfigForm
  get_values p = record {
    gitlab_url = some (get_param "gitlab_nostr_bridge.gitlab_url" "" p);
    gitlab_private_token = some (get_param "gitlab_nostr_bridge.gitlab_private_token" "" p);
    use_alternative_publish = str_eq (get_param "use_alternative_publish" "" p) "True";
    nostr_relay_urls = some (get_param "nostr_bridge.relay_urls" "" p);
  }

  -- What the synchronization reads
  abbrev pub settings_of : P → Settings
  settings_of p = record {
    gitlab_url = params.value_of "gitlab_nostr_bridge.gitlab_url" p;
    gitlab_private_token = params.value_of "gitlab_nostr_bridge.gitlab_private_token" p;
  }

-- `action_clear_gitlab_token`
unfoldable pub action_clear_gitlab_token : ConfigForm → Notification × ConfigForm
action_clear_gitlab_token form = (
  return_notification "GitLab Token Cleared" "The GitLab private token has been cleared." warning
      false,
  record form { gitlab_private_token = none },
)

abbrev pub connected : Result ⊤ → Result Notification
connected (ok u) =
    ok (
      return_notification "Connection Successful" "Connected to GitLab successfully." success false)
connected (err e) =
    err (exception user_error (concat ("Failed to connect to GitLab: " ∷ e.text ∷ [])))

-- `test_gitlab_connection`, with the reply of GitLab to the token
unfoldable pub test_gitlab_connection :
    (String → String → Result ⊤) → ConfigForm → Result Notification
test_gitlab_connection get_user form =
    if is_set form.gitlab_url
    then (if is_set form.gitlab_private_token
        then connected (get_user (text_of form.gitlab_url) (text_of form.gitlab_private_token))
        else err (exception user_error "GitLab URL and Private Token must be set."))
    else err (exception user_error "GitLab URL and Private Token must be set.")
