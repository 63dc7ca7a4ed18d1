-- ===== src/Dao/Member.antt =====
-- odoo_custom_addons/dao_core/models/dao_member.py: the private key of a member, which is stored
-- encrypted, and the checks of a write. The package cryptography is a record of functions.
use agu_odoo.Base.{
  ⊤, Bool, false, ◌&&◌, Option, none, some, String, List, [], ◌∷◌, if◌then◌else◌, ◌==◌, length,
  is_some,
}
use Prim.Native.Char.{code}
use agu_odoo.Python.{Result, ok, err, exception, user_error, validation_error, bind, Exec}
use agu_odoo.Text.{codes, concat, nonempty}
use agu_odoo.Odoo.{is_set, text_of}
use agu_odoo.Chain.{Chain, same_address}
use agu_odoo.Dao.{Config, get_web3_connection}

-- `dao.member`, as far as its wallet goes
pub record Member : Type 0 where
  pub eth_address : Option String
  pub eth_private_key : Option String

-- What a `write` is given; a field that is missing is `none`.
pub record MemberVals : Type 0 where
  pub eth_address : Option (Option String)
  pub eth_private_key : Option (Option String)

-- The member, and the parameter dao.encryption_key.
pub record Site : Type 0 where
  pub member : Member
  pub encryption_key : Option String

pub record Vault : Type 0 where
  -- `Fernet.generate_key()`
  pub generate_key : String
  -- `base64.b64encode(Fernet(key).encrypt(text.encode())).decode()`
  pub seal : String → String → Result String
  -- `Fernet(key).decrypt(base64.b64decode(text.encode())).decode()`
  pub unseal : String → String → Result String

-- What the methods take from outside.
pub record Outside : Type 0 where
  pub vault : Vault
  pub chain : Chain
  pub configs : List Config
  -- `web3.is_address(address)`
  pub is_address : String → Bool

-- `key.replace('0x', '')`: a `0` goes with the `x` that follows it.
abbrev starts_x : String → Bool
starts_x String.[] = false
starts_x (String.◌∷◌ c s) = code c == b'x'

abbrev rest_of : String → String
rest_of String.[] = ""
rest_of (String.◌∷◌ c s) = s

unfoldable pub remove_0x : String → String
remove_0x String.[] = ""
remove_0x (String.◌∷◌ c s) =
    let cleaned = remove_0x s in
    if code c == b'0' && starts_x s then rest_of cleaned else String.◌∷◌ c cleaned

-- `_get_encryption_key`, with the parameter after it
abbrev pub get_encryption_key : Vault → Option String → String × Option String
get_encryption_key vault param =
    if is_set param then (text_of param, param) else (vault.generate_key, some vault.generate_key)

abbrev pub not_secured : {A : Type 0} → Result A
not_secured = err (exception user_error "Failed to secure private key")

abbrev pub secured : Result String → Result String
secured (ok sealed) = ok sealed
secured (err e) = not_secured

-- `_encrypt_private_key` of a key that is set
unfoldable pub encrypt_private_key : Vault → String → Option String → Result String × Option String
encrypt_private_key vault private_key param =
    if length (codes (remove_0x private_key)) == 64
    then (let (key, param') = get_encryption_key vault param in
        (secured (vault.seal key private_key), param'))
    else (not_secured, param)

abbrev pub not_decrypted : Result String → Result String
not_decrypted (ok text) = ok text
not_decrypted (err e) = err (exception user_error "Could not decrypt private key")

-- `_decrypt_private_key` of a member whose key is set
unfoldable pub decrypt_private_key : Vault → Site → Result String
decrypt_private_key vault s =
    not_decrypted (
      vault.unseal (get_encryption_key vault s.encryption_key).0 (text_of s.member.eth_private_key))

abbrev pub invalid_key_format : Result ⊤ → Result ⊤
invalid_key_format (ok u) = ok tt
invalid_key_format (err e) =
    err (exception validation_error (concat ("Invalid private key format: " ∷ e.text ∷ [])))

-- The body of the `try`: an empty text is not looked at.
abbrev pub key_matches : Chain → String → String → Result ⊤
key_matches chain address private_key =
    if nonempty private_key
    then (bind (chain.from_key (remove_0x private_key)) λ derived.
        if same_address derived address
        then ok tt
        else err (exception validation_error "Private key does not match the Ethereum address"))
    else ok tt

-- `_check_private_key`
unfoldable pub check_private_key : Outside → Site → Result ⊤
unfolding decrypt_private_key
check_private_key o s =
    if is_set s.member.eth_private_key && is_set s.member.eth_address
    then invalid_key_format
        (bind (decrypt_private_key o.vault s) (key_matches o.chain (text_of s.member.eth_address)))
    else ok tt

-- `_check_eth_address`
unfoldable pub check_eth_address : Outside → Member → Result ⊤
check_eth_address o m =
    if is_set m.eth_address
    then (bind (get_web3_connection o.chain o.configs) λ u.
        if o.is_address (text_of m.eth_address)
        then ok tt
        else err (exception validation_error "Invalid Ethereum address format"))
    else ok tt

abbrev or_kept : Option (Option String) → Option String → Option String
or_kept none old = old
or_kept (some new) old = new

abbrev pub write_fields : MemberVals → Member → Member
write_fields v m = record {
  eth_address = or_kept v.eth_address m.eth_address;
  eth_private_key = or_kept v.eth_private_key m.eth_private_key;
}

-- A constraint is checked if its field is among the values.
abbrev pub check_written : Bool → Result ⊤ → Result ⊤
check_written written r = if written then r else ok tt

-- `super().write(vals)`, with the constraints
unfoldable pub write_checked : Outside → MemberVals → Exec Site ⊤
unfolding check_private_key check_eth_address
write_checked o v s =
    let s' : Site = record s { member = write_fields v s.member } in
    (
      bind (check_written (is_some v.eth_address) (check_eth_address o s'.member))
          λ u. check_written (is_some v.eth_private_key) (check_private_key o s'),
      s',
    )

-- `vals.get('eth_private_key')`
abbrev pub given_key : MemberVals → Option String
given_key v = elim v.eth_private_key [ none ↦ none | some key ↦ key ]

abbrev pub write_sealed :
    Outside → MemberVals → Site → Result String × Option String → Result ⊤ × Site
write_sealed o v s (err e, param) = (err e, record s { encryption_key = param })
write_sealed o v s (ok sealed, param) =
    write_checked o (record v { eth_private_key = some (some sealed) })
      (record s { encryption_key = param })

-- `write`
unfoldable pub write : Outside → MemberVals → Exec Site ⊤
unfolding write_checked
write o v s =
    if is_set (given_key v)
    then write_sealed o v s (encrypt_private_key o.vault (text_of (given_key v)) s.encryption_key)
    else write_checked o v s
