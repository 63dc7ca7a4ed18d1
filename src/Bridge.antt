-- ===== src/Bridge.antt =====
-- odoo_custom_addons/gitlab_nostr_bridge/models/nostr_event.py: the events of the GitLab bridge, the
-- keys of the user, and the event that is signed for one.
pub mod Relays
pub mod Sorted
pub mod Fastest
pub mod Rounds
pub mod Strategies
pub mod Publishing
pub mod Kept
pub mod GitLab
pub mod Sending
pub mod Intake
pub mod Stored
pub mod Tests
use agu_odoo.Base.{
  ℕ, Bool, true, false, Option, none, some, String, List, [], ◌==◌, if◌then◌else◌, length,
}
use agu_odoo.Python.{Error, Result, ok, err, exception, user_error, value_error, bind}
use agu_odoo.Text.{starts_with, hex, codes}
use agu_odoo.Odoo.{is_set, text_of}
use agu_odoo.Nostr.{NostrLib, Event, Tags, Decoded, no_value, pair, triple}

-- `nostr.event` of the bridge. The tags are what `json.loads` gives for their text, if there is one;
-- `created_at` is 0 where it is not set.
pub record BridgeEvent : Type 0 where
  pub event_id : Option String
  pub kind : ℕ
  pub content : String
  pub tags : Option (Result Tags)
  pub public_key : String
  pub created_at : ℕ
  pub signature : Option String
  pub published : Bool
  pub logs : Option String

-- The keys of the current user.
pub record User : Type 0 where
  pub nostr_public_key : Option String
  pub nostr_private_key : Option String

abbrev pub invalid_key : {A : Type 0} → Result A
invalid_key =
    err (exception user_error "Invalid public key format. Please check the key and try again.")

abbrev hex_of_npub : NostrLib → Decoded → Result String
hex_of_npub lib (pair (some hrp) (some payload)) = elim (lib.convertbits payload) [
  | none ↦ invalid_key
  | some bytes ↦ ok (hex bytes)
]
hex_of_npub lib _ = invalid_key

-- `_bech32_to_hex`, which replaces every exception by its own
unfoldable pub bech32_to_hex : NostrLib → String → Result String
bech32_to_hex lib key =
    if starts_with key "npub" then hex_of_npub lib (lib.bech32_decode key) else ok key

-- `_ensure_private_key`
unfoldable pub ensure_private_key : User → Result String
ensure_private_key user =
    if is_set user.nostr_private_key
    then ok (text_of user.nostr_private_key)
    else err (
        exception user_error
          "Nostr private key is not set for the current user. Please set it in your user preferences.")

-- `_get_private_key`
unfoldable pub get_private_key : NostrLib → User → Result String
unfolding ensure_private_key
get_private_key lib user = bind (ensure_private_key user) λ key.
    if starts_with key "nsec"
    then lib.from_nsec key
    else if length (codes key) == 64
    then lib.from_hex key
    else err (exception value_error "Invalid private key format")

-- `json.loads(self.tags) if self.tags else []`
abbrev pub tags_of : Option (Result Tags) → Result Tags
tags_of none = ok []
tags_of (some r) = r

abbrev pub or_now : ℕ → ℕ → ℕ
or_now created_at now = if created_at == 0 then now else created_at

-- `_create_nostr_event`
unfoldable pub create_nostr_event : NostrLib → ℕ → BridgeEvent → Result Event
create_nostr_event lib now e = bind (bech32_to_hex lib e.public_key) λ hex_pubkey.
    bind (tags_of e.tags) λ tags. ok (record {
      id = none;
      public_key = hex_pubkey;
      created_at = or_now e.created_at now;
      kind = e.kind;
      tags = tags;
      content = e.content;
      signature = none;
    })

-- `_sign_event` and `sign_event`
unfoldable pub sign_event : NostrLib → User → Event → Result Event
sign_event lib user event = bind (get_private_key lib user) λ key. lib.sign_event key event
