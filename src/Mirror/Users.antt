-- ===== src/Mirror/Users.antt =====
-- odoo_custom_addons/gitlab_nostr_bridge/models/res_users.py: the Nostr keys of a user, and the account
-- of the user on GitLab.
use agu_odoo.Base.{
  ⊤, ℕ, false, ◌||◌, Option, none, some, String, List, [], ◌∷◌, if◌then◌else◌, is_some,
}
use agu_odoo.Python.{Result, ok, err, Exec}
use agu_odoo.Odoo.{Notification, success, warning, is_set, text_of}
use agu_odoo.Bridge.Strategies.{return_notification}
use agu_odoo.Mirror.Repository.{Reply, replied, failed, Settings}
use agu_odoo.Mirror.Wizard.{Host, get_gitlab_client}

-- The fields of `res.users` that the addon adds, with the login and the email
pub record User : Type 0 where
  pub login : String
  pub email : String
  pub nostr_private_key : Option String
  pub nostr_public_key : Option String
  pub gitlab_username : Option String
  pub gitlab_email : Option String
  pub gitlab_user_id : ℕ

-- The values of `create` and `write`; `none` is a field that is not given.
pub record UserVals : Type 0 where
  pub login : Option String
  pub email : Option String
  pub nostr_private_key : Option (Option String)
  pub nostr_public_key : Option (Option String)

pub record GitlabUser : Type 0 where
  pub username : String
  pub email : String
  pub id : ℕ

pub record Directory : Type 0 where
  -- `PrivateKey().bech32()`
  pub new_key : String
  -- `PrivateKey.from_nsec(key).public_key.bech32()`
  pub public_of : String → Result String
  -- `gl.users.list(username=login)`
  pub list_users : String → Reply (List GitlabUser)

abbrev pub known : Result String → Option String
known (ok key) = some key
known (err e) = none

-- `_compute_nostr_public_key`, of a private key
unfoldable pub public_key_of : Directory → Option String → Option String
public_key_of dir key = if is_set key then known (dir.public_of (text_of key)) else none

abbrev pub compute_nostr_public_key : Directory → User → User
compute_nostr_public_key dir u = record u {
  nostr_public_key = public_key_of dir u.nostr_private_key;
}

abbrev pub or_kept {ℓ} : {A : Type ℓ} → Option A → A → A
or_kept none a = a
or_kept (some b) a = b

-- Odoo's `write`, which computes the public key again when the private key is written
abbrev pub write_key : Directory → Option (Option String) → User → User
write_key dir none u = u
write_key dir (some key) u = compute_nostr_public_key dir (record u { nostr_private_key = key })

-- A public key that is written itself stays, though it is a computed field.
abbrev pub write_public : Option (Option String) → User → User
write_public none u = u
write_public (some key) u = record u { nostr_public_key = key }

abbrev pub write_vals : Directory → UserVals → User → User
write_vals dir vals u = write_public vals.nostr_public_key (
    write_key dir vals.nostr_private_key
      (record u { login = or_kept vals.login u.login; email = or_kept vals.email u.email }))

abbrev pub with_account : Reply (List GitlabUser) → User → User
with_account (replied []) u = u
with_account (replied (g ∷ others)) u = record u {
  gitlab_username = some g.username;
  gitlab_email = some g.email;
  gitlab_user_id = g.id;
}
with_account (failed f) u = u

abbrev pub with_client : Result ⊤ → Reply (List GitlabUser) → Exec User ⊤
with_client (ok c) reply u = (ok tt, with_account reply u)
with_client (err e) reply u = (err e, u)

-- `sync_gitlab_user`: the client is made outside of the `try`.
unfoldable pub sync_gitlab_user : Directory → Settings → Host → Exec User ⊤
sync_gitlab_user dir settings host u =
    with_client (get_gitlab_client settings host) (dir.list_users u.login) u

-- `write`
unfoldable pub write_user : Directory → Settings → Host → UserVals → Exec User ⊤
write_user dir settings host vals u =
    let written = write_vals dir vals u in
    if is_some vals.login || is_some vals.email
    then sync_gitlab_user dir settings host written
    else (ok tt, written)

-- `create`, of a row that Odoo has made with empty fields
unfoldable pub create_user : Directory → Settings → Host → UserVals → Exec User ⊤
create_user dir settings host vals u = sync_gitlab_user dir settings host (
    write_vals dir
      (record vals { nostr_private_key = some (or_kept vals.nostr_private_key (some dir.new_key)) })
      u)

-- `action_generate_nostr_key`
unfoldable pub action_generate_nostr_key : Directory → User → Notification × User
action_generate_nostr_key dir u = (
  return_notification "Nostr Key Generated" "A new Nostr key pair has been generated." success
      false,
  compute_nostr_public_key dir (record u { nostr_private_key = some dir.new_key }),
)

-- `action_clear_nostr_key`
unfoldable pub action_clear_nostr_key : Directory → User → Notification × User
action_clear_nostr_key dir u = (
  return_notification "Nostr Key Cleared" "The Nostr key pair has been cleared." warning false,
  compute_nostr_public_key dir (record u { nostr_private_key = none }),
)

abbrev pub synced : Result ⊤ × User → Result Notification × User
synced (ok c, u) = (
  ok (
      return_notification "GitLab User Synced" "GitLab user information has been synchronized."
        success false),
  u,
)
synced (err e, u) = (err e, u)

-- `action_sync_gitlab_user`; the notification is that of a success also if no account was found.
unfoldable pub action_sync_gitlab_user : Directory → Settings → Host → Exec User Notification
action_sync_gitlab_user dir settings host u = synced (sync_gitlab_user dir settings host u)
