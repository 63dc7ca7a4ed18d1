-- ===== src/Dao.antt =====
-- odoo_custom_addons/dao_core/models/dao_transaction.py, with the connection of dao_config.py: a
-- transaction of a DAO, its submission and its later states. Amounts and gas prices are whole
-- numbers of wei.
pub mod Network
pub mod Contract
pub mod Abi
pub mod Drafts
pub mod Pending
pub mod Submit
pub mod Lifecycle
pub mod Settling
pub mod Member
pub mod MemberKeys
pub mod MemberTests
pub mod Tests
use agu_odoo.Base.{
  ⊤, ℕ, ◌+◌, ◌*◌, ◌/◌, Bool, true, false, not, ◌&&◌, ◌||◌, Option, none, some, String, List, [],
  ◌∷◌, ◌==◌, if◌then◌else◌, ltb,
}
use agu_odoo.Python.{
  Error, Result, ok, err, exception, user_error, validation_error, attribute_error, Exec, bind,
}
use agu_odoo.Text.{concat}
use agu_odoo.Odoo.{is_set, text_of}
use agu_odoo.Chain.{Chain, TxParams, Receipt, same_address}

pub data Status : Type 0 where
  draft pending completed failed cancelled : Status

pub data SigningMethod : Type 0 where
  private_key_method wallet_file_method : SigningMethod

-- `dao.transaction`
pub record Transaction : Type 0 where
  pub name : String
  pub transaction_hash : Option String
  pub from_address : String
  pub to_address : String
  pub value : ℕ
  pub status : Status
  pub gas_limit : ℕ
  pub gas_price : ℕ
  pub gas_used : ℕ
  pub nonce : ℕ
  pub is_contract_interaction : Bool
  pub raw_input : Option String
  pub transaction_type : SigningMethod
  pub private_key : Option String
  pub wallet_file : Option String
  pub wallet_password : Option String
  pub error_message : Option String
  pub eth_balance : ℕ

abbrev pub is_draft : Status → Bool
is_draft draft = true
is_draft pending = false
is_draft completed = false
is_draft failed = false
is_draft cancelled = false

abbrev pub is_failed : Status → Bool
is_failed failed = true
is_failed draft = false
is_failed pending = false
is_failed completed = false
is_failed cancelled = false

abbrev pub is_pending : Status → Bool
is_pending pending = true
is_pending draft = false
is_pending completed = false
is_pending failed = false
is_pending cancelled = false

-- `_compute_estimated_fee`; the product is 0 where the code writes 0
unfoldable pub compute_estimated_fee : Transaction → ℕ
compute_estimated_fee t =
    if not (t.gas_limit == 0) && not (t.gas_price == 0) then t.gas_limit * t.gas_price else 0

-- `_compute_total_amount`
unfoldable pub compute_total_amount : Transaction → ℕ
unfolding compute_estimated_fee
compute_total_amount t = t.value + compute_estimated_fee t

-- `dao.config`, as far as a connection needs it
pub record Config : Type 0 where
  pub rpc_url : String
  pub active : Bool

-- `search([('active', '=', True)], limit=1)`
abbrev pub active_config : List Config → Option Config
active_config [] = none
active_config (c ∷ configs) = if c.active then some c else active_config configs

abbrev connect_failed : Result ⊤ → Result ⊤
connect_failed (ok u) = ok u
connect_failed (err e) =
    err (exception user_error (concat ("Failed to establish Web3 connection: " ∷ e.text ∷ [])))

abbrev connect_to : Chain → Config → Result ⊤
connect_to chain c = connect_failed (
    bind (chain.is_connected c.rpc_url) λ connected.
      if connected
      then ok tt
      else err (exception user_error "Could not connect to blockchain node"))

-- `get_web3_connection`, called on the model
unfoldable pub get_web3_connection : Chain → List Config → Result ⊤
get_web3_connection chain configs = elim (active_config configs) [
  | none ↦ err (exception user_error "No active DAO configuration found")
  | some c ↦ connect_to chain c
]

-- `gas_limit or 21000`
abbrev pub gas_or_default : ℕ → ℕ
gas_or_default gas_limit = if gas_limit == 0 then 21000 else gas_limit

abbrev pub tx_params : Transaction → ℕ → TxParams
tx_params t nonce = record {
  nonce = nonce;
  gas_price = t.gas_price;
  gas = gas_or_default t.gas_limit;
  to_address = t.to_address;
  value = t.value;
  payload = if t.is_contract_interaction then t.raw_input else some "";
}

-- `except Exception as e: raise UserError(f"{prefix}{str(e)}")`
abbrev rewrap : {A : Type 0} → String → Result A → Result A
rewrap prefix (ok a) = ok a
rewrap prefix (err e) = err (exception user_error (concat (prefix ∷ e.text ∷ [])))

-- The signature with a key whose address is the sender's.
abbrev sign_as_sender : Chain → Transaction → TxParams → String → String → Result String
sign_as_sender chain t params key mismatch = bind (chain.from_key key) λ address.
    if same_address address t.from_address
    then chain.sign_transaction params key
    else err (exception user_error mismatch)

abbrev sign_by : Chain → Transaction → TxParams → SigningMethod → Result String
sign_by chain t params private_key_method =
    if is_set t.private_key
    then rewrap "Invalid private key: " (
        sign_as_sender chain t params (text_of t.private_key)
          "Private key does not match sender address")
    else err (exception user_error "Private key is required")
sign_by chain t params wallet_file_method =
    if is_set t.wallet_file && is_set t.wallet_password
    then rewrap "Invalid wallet file or password: " (
        bind (chain.decrypt (text_of t.wallet_file) (text_of t.wallet_password))
          λ key. sign_as_sender chain t params key "Wallet address does not match sender address")
    else err (exception user_error "Wallet file and password are required")

-- The body of the `try` up to the `write`: the hash of the transaction that was sent.
unfoldable pub send_signed : Chain → List Config → Transaction → Result String
send_signed chain configs t = bind (get_web3_connection chain configs) λ _.
    if ltb t.eth_balance (compute_total_amount t)
    then err (exception user_error "Insufficient balance")
    else bind (chain.get_transaction_count t.from_address) λ nonce.
      bind (sign_by chain t (tx_params t nonce) t.transaction_type)
        λ raw. chain.send_raw_transaction raw

abbrev transaction_failed : {A : Type 0} → Error → Result A
transaction_failed e = err (exception user_error (concat ("Transaction failed: " ∷ e.text ∷ [])))

-- The two writes at the end, and the exception.
abbrev finish_submit : Transaction → Result String → Result ⊤ × Transaction
finish_submit t (ok hash) = (
  ok tt,
  record t {
    transaction_hash = some hash;
    status = pending;
    private_key = none;
    wallet_file = none;
    wallet_password = none;
  },
)
finish_submit t (err e) = (
  transaction_failed e,
  record t {
    status = failed;
    error_message = some e.text;
    private_key = none;
    wallet_file = none;
    wallet_password = none;
  },
)

unfoldable pub submit_transaction_with_key : Chain → List Config → Exec Transaction ⊤
submit_transaction_with_key chain configs t =
    if is_draft t.status
    then finish_submit t (send_signed chain configs t)
    else (err (exception user_error "Only draft transactions can be submitted"), t)

-- The body of the `try` of `submit_transaction`. The sender's address is a text, and the first
-- access to its `eth_address` raises.
abbrev send_by_member : Chain → List Config → Transaction → Result String
send_by_member chain configs t =
    if ltb t.eth_balance (compute_total_amount t)
    then err (exception user_error "Insufficient balance")
    else bind (get_web3_connection chain configs)
        λ _. err (exception attribute_error "'str' object has no attribute 'eth_address'")

abbrev finish_member_submit : Transaction → Result String → Result ⊤ × Transaction
finish_member_submit t (ok hash) =
    (ok tt, record t { transaction_hash = some hash; status = pending })
finish_member_submit t (err e) =
    (transaction_failed e, record t { status = failed; error_message = some e.text })

unfoldable pub submit_transaction : Chain → List Config → Exec Transaction ⊤
submit_transaction chain configs t =
    if is_draft t.status
    then finish_member_submit t (send_by_member chain configs t)
    else (err (exception user_error "Only draft transactions can be submitted"), t)
