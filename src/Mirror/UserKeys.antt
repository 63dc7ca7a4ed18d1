-- ===== src/Mirror/UserKeys.antt =====
-- The public key of a user belongs to the private key, and a missing configuration of GitLab refuses
-- users.
use agu_odoo.Base.{◌≡◌, refl, true, false, ◌||◌, Option, none, some, String, is_some, ◌⊎◌}
use agu_odoo.Python.{Error, ok, err, is_ok}
use agu_odoo.Odoo.{request, rollback, is_set, text_of}
use agu_odoo.Mirror.Repository.{Settings, not_configured}
use agu_odoo.Mirror.Wizard.{Host, get_gitlab_client}
use agu_odoo.Mirror.Users.{
  User, UserVals, Directory, compute_nostr_public_key, write_vals, sync_gitlab_user, write_user,
  create_user, action_generate_nostr_key, action_clear_nostr_key, action_sync_gitlab_user,
}

-- There is no private key and no public key, or the public key is the one that the library derives from
-- the private key, or that derivation fails and there is no public key.
abbrev pub Pairs : Directory → Option String → Option String → Type 0
Pairs dir private_key public_key =
    ((is_set private_key ≡ false) × (public_key ≡ none))
    ⊎ (((key : String) × (is_set private_key ≡ true)
          × (dir.public_of (text_of private_key) ≡ ok key)
          × (public_key ≡ some key))
        ⊎ ((e : Error) × (is_set private_key ≡ true)
            × (dir.public_of (text_of private_key) ≡ err e)
            × (public_key ≡ none)))

abbrev pub IsPaired : Directory → User → Type 0
IsPaired dir u = Pairs dir u.nostr_private_key u.nostr_public_key

module _ (dir : Directory) where
  -- The requests that change a user, other than a write of the public key itself; the keys that are
  -- generated and GitLab's answers may differ from one request to the next, the derivation of public
  -- keys does not.
  pub data Step : User → User → Type 0 where
    write :
        (settings : Settings) (host : Host) (vals : UserVals) (u : User)
        → vals.nostr_public_key ≡ none
        → Step u (request (write_user dir settings host vals) u).1
    generate : (u : User) → Step u (action_generate_nostr_key dir u).1
    clear : (u : User) → Step u (action_clear_nostr_key dir u).1
    sync :
        (settings : Settings) (host : Host) (u : User)
        → Step u (request (action_sync_gitlab_user dir settings host) u).1

  -- A user is created without a public key, or was there when the addon was installed, which computes
  -- the stored fields; `empty` is the row before the values are written.
  pub data Reach : User → Type 0 where
    created :
        (settings : Settings) (host : Host) (vals : UserVals) (empty : User)
        → vals.nostr_public_key ≡ none
        → (request (create_user dir settings host vals) empty).0 ≡ ok tt
        → Reach (request (create_user dir settings host vals) empty).1
    installed : (u : User) → Reach (compute_nostr_public_key dir u)
    step : {t u : User} → Reach t → Step t u → Reach u

without_client :
    (dir : Directory) (settings : Settings) (host : Host) (u v : User)
    → not_configured settings ≡ true
    → (is_ok (rollback u (sync_gitlab_user dir settings host v)).0 ≡ false)
      × ((rollback u (sync_gitlab_user dir settings host v)).1 ≡ u)
unfolding sync_gitlab_user get_gitlab_client
without_client dir settings host u v h = rw h (refl, refl)

-- As long as the url or the token of GitLab is not configured, no user can be created, and no write of
-- a login or an email succeeds: the request raises, and a user that was there is left as it was.
pub users_need_gitlab :
    (dir : Directory) (settings : Settings) (host : Host) (vals : UserVals) (u : User)
    → not_configured settings ≡ true
    → (is_some vals.login || is_some vals.email) ≡ true
    → (is_ok (request (create_user dir settings host vals) u).0 ≡ false)
      × (is_ok (request (write_user dir settings host vals) u).0 ≡ false)
      × ((request (write_user dir settings host vals) u).1 ≡ u)
unfolding create_user write_user
users_need_gitlab dir settings host vals u h given =
    let fresh = without_client dir settings host u _ h in
    let (fails, kept) = without_client dir settings host u (write_vals dir vals u) h in
    (fresh.0, rw given fails, rw given kept)
