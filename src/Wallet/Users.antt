-- ===== src/Wallet/Users.antt =====
-- odoo_custom_addons/web3_wallet_bad/models/res_users.py and wallet_utils.py: the wallet of a user, its
-- encrypted private key and the key of the encryption. `eth_account` and `cryptography.fernet` are
-- records of functions.
use agu_odoo.Base.{⊤, ℕ, Bool, ◌||◌, Option, none, some, String, List, [], ◌∷◌, if◌then◌else◌}
use agu_odoo.Python.{
  Error, Result, ok, err, exception, user_error, value_error, bind, Exec, pure, raise, lift, ◌>>=◌,
  ◌>>◌, catch,
}
use agu_odoo.Text.{concat, nonempty, str_eq, starts_with}
use agu_odoo.Odoo.{is_set, text_of}

-- An account of `eth_account`, with its key in hexadecimal.
pub record Account : Type 0 where
  pub address : String
  pub key : String

pub record Crypto : Type 0 where
  -- `Account.create(...)` and `Account.from_key(key)`
  pub create_account : Result Account
  pub from_key : String → Result Account
  -- `account.sign_message(message)`, the signature
  pub sign : Account → String → Result String
  -- `Fernet.generate_key()`, and `encrypt` and `decrypt` under a key, in base64
  pub generate_key : String
  pub encrypt : String → String → Result String
  pub decrypt : String → String → Result String
  pub now : ℕ

-- The user, and the parameter `web3_wallet.encryption_key`
pub record Site : Type 0 where
  pub eth_address : Option String
  pub encrypted_key : Option String
  pub last_activity : Option ℕ
  pub encryption_key : Option String

-- `_get_encryption_key`
unfoldable pub get_encryption_key : Crypto → Exec Site String
get_encryption_key crypto s =
    if is_set s.encryption_key
    then (ok (text_of s.encryption_key), s)
    else (ok crypto.generate_key, record s { encryption_key = some crypto.generate_key })

abbrev pub replaced : {A : Type 0} → String → Result A × Site → Result A × Site
replaced text (ok a, s) = (ok a, s)
replaced text (err e, s) = (err (exception value_error text), s)

abbrev pub some_of : Result String → Result (Option String)
some_of r = bind r λ a. ok (some a)

-- `encrypt_private_key`
unfoldable pub encrypt_private_key : Crypto → String → Exec Site (Option String)
unfolding get_encryption_key
encrypt_private_key crypto private_key s = replaced "Failed to encrypt private key" (
    if nonempty private_key
    then (get_encryption_key crypto >>= λ key. lift (some_of (crypto.encrypt key private_key))) s
    else (ok none, s))

-- `decrypt_private_key`
unfoldable pub decrypt_private_key : Crypto → Option String → Exec Site (Option String)
unfolding get_encryption_key
decrypt_private_key crypto encrypted s = replaced "Failed to decrypt private key" (
    if is_set encrypted
    then (get_encryption_key crypto >>= λ key.
          lift (some_of (crypto.decrypt key (text_of encrypted))))
        s
    else (ok none, s))

-- The values of `write`, by the names of their fields
pub data Value : Type 0 where
  text : Option String → Value
  time : ℕ → Value

abbrev pub Vals : Type 0
Vals = List (String × Value)

-- The fields of `res.users` that the code writes; `encrypted_private_key` is none.
abbrev pub is_field : String → Bool
is_field name =
    str_eq name "eth_address" || str_eq name "encrypted_key" || str_eq name "last_activity"

abbrev pub unknown_field : Vals → Option String
unknown_field [] = none
unknown_field ((name, v) ∷ vals) = if is_field name then unknown_field vals else some name

abbrev pub set_value : String → Value → Site → Site
set_value name (time t) s = record s { last_activity = some t }
set_value name (text v) s =
    if str_eq name "eth_address"
    then record s { eth_address = v }
    else record s { encrypted_key = v }

abbrev pub set_values : Vals → Site → Site
set_values [] s = s
set_values ((name, v) ∷ vals) s = set_values vals (set_value name v s)

-- Odoo's `write`, which refuses a name that is no field of the model
unfoldable pub write : Vals → Exec Site ⊤
write vals s = elim (unknown_field vals) [
  | none ↦ (ok tt, set_values vals s)
  | some name ↦ (
    err (exception value_error (concat ("Invalid field '" ∷ name ∷ "' on model 'res.users'" ∷ []))),
    s,
  )
]

abbrev pub failed_with : {A : Type 0} → String → Error → Exec Site A
failed_with prefix e = raise (exception user_error (concat (prefix ∷ e.text ∷ [])))

abbrev pub new_values : Crypto → String → Account → Option String → Vals
new_values crypto key_field account encrypted =
    ("eth_address", text (some account.address))
    ∷ (key_field, text encrypted)
    ∷ ("last_activity", time crypto.now)
    ∷ []

-- The account, encrypted and written under the name of a field
abbrev pub write_account : Crypto → String → Account → Option String → Exec Site Account
write_account crypto key_field account encrypted =
    write (new_values crypto key_field account encrypted) >> pure account

abbrev pub store_account : Crypto → String → Account → Exec Site Account
store_account crypto key_field account =
    encrypt_private_key crypto account.key >>= write_account crypto key_field account

-- `create_web3_wallet`, with the account that it returns; the connection record is not modelled, since
-- the write before it raises.
unfoldable pub create_web3_wallet : Crypto → Exec Site Account
unfolding encrypt_private_key write
create_web3_wallet crypto s =
    if is_set s.eth_address
    then (err (exception user_error "User already has a wallet associated"), s)
    else catch (lift crypto.create_account >>= store_account crypto "encrypted_private_key")
        (failed_with "Failed to create wallet: ") s

-- `private_key[2:]` after `0x`
abbrev pub without_prefix : String → String
without_prefix (String.◌∷◌ c (String.◌∷◌ d s)) =
    if starts_with (String.◌∷◌ c (String.◌∷◌ d s)) "0x" then s else String.◌∷◌ c (String.◌∷◌ d s)
without_prefix s = s

-- `import_wallet`, which encrypts the text that it was given
unfoldable pub import_wallet : Crypto → String → Exec Site Account
unfolding encrypt_private_key write
import_wallet crypto private_key s =
    if is_set s.eth_address
    then (err (exception user_error "User already has a wallet associated"), s)
    else catch
        (lift (crypto.from_key (without_prefix private_key)) >>= λ account.
          store_account crypto "encrypted_private_key"
            (record account { key = without_prefix private_key }))
        (failed_with "Failed to import wallet: ") s

-- `action_create_wallet`, with the account whose address its notice shows
unfoldable pub action_create_wallet : Crypto → Exec Site Account
unfolding encrypt_private_key write
action_create_wallet crypto s =
    if is_set s.eth_address
    then (err (exception user_error "User already has a wallet"), s)
    else catch (lift crypto.create_account >>= store_account crypto "encrypted_key")
        (failed_with "Failed to create wallet: ") s

abbrev pub none_on_error : Result (Option String) × Site → Result (Option String) × Site
none_on_error (ok key, s) = (ok key, s)
none_on_error (err e, s) = (ok none, s)

-- `_get_wallet_private_key`
unfoldable pub get_wallet_private_key : Crypto → Exec Site (Option String)
unfolding decrypt_private_key
get_wallet_private_key crypto s =
    if is_set s.encrypted_key
    then none_on_error (decrypt_private_key crypto s.encrypted_key s)
    else (ok none, s)

-- What `sign_message` returns.
pub record Signed : Type 0 where
  pub message : String
  pub signature : String
  pub address : String

abbrev signed_by : Crypto → String → Option String → Result Signed
signed_by crypto message key =
    if is_set key
    then (bind (crypto.from_key (text_of key)) λ account.
        bind (crypto.sign account message) λ signature.
          ok (record { message = message; signature = signature; address = account.address }))
    else err (exception user_error "Private key not available")

-- `sign_message`
unfoldable pub sign_message : Crypto → String → Exec Site Signed
unfolding get_wallet_private_key
sign_message crypto message s =
    if is_set s.eth_address
    then catch (get_wallet_private_key crypto >>= λ key. lift (signed_by crypto message key))
        (failed_with "Failed to sign message: ") s
    else (err (exception user_error "No wallet associated with this user"), s)
