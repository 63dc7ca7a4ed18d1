-- ===== src/Nostr.antt =====
-- The `nostr` and `bech32` packages, as far as the modules use them. They are not part of the
-- repository: their functions are the fields of a record that the definitions take.
use agu_odoo.Base.{ℕ, String, Option, List}
use agu_odoo.Python.{Result}

abbrev pub Tags : Type 0
Tags = List (List String)

-- `nostr.event.Event`; the id and the signature are set when it is signed.
pub record Event : Type 0 where
  pub id : Option String
  pub public_key : String
  pub created_at : ℕ
  pub kind : ℕ
  pub tags : Tags
  pub content : String
  pub signature : Option String

-- What `bech32_decode` returns: `None`, a pair or a triple, by the package that is imported. The
-- first two parts are the human readable part and the data; either is `None` for a bad key.
pub data Decoded : Type 0 where
  no_value : Decoded
  pair triple : Option String → Option (List ℕ) → Decoded

pub record NostrLib : Type 0 where
  -- `bech32_decode(key)`
  pub bech32_decode : String → Decoded
  -- `convertbits(data, 5, 8, False)`
  pub convertbits : List ℕ → Option (List ℕ)
  -- `PrivateKey.from_nsec(key)`
  pub from_nsec : String → Result String
  -- `PublicKey.from_npub(key).hex()`
  pub from_npub : String → Result String
  -- `PrivateKey(bytes.fromhex(key))`
  pub from_hex : String → Result String
  -- `private_key.sign_event(event)`, the event with its id and signature
  pub sign_event : String → Event → Result Event
  -- `Event.compute_id(public_key, created_at, kind, tags, content)`
  pub compute_id : String → ℕ → ℕ → Tags → String → String
