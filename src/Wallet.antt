-- ===== src/Wallet.antt =====
-- odoo_custom_addons/web3_wallet_bad/models/wallet_transaction.py: a transaction of a wallet and its
-- states. `value` counts units of 10^-8 ether and `gas_price` units of 10^-2 Gwei, as the digits of the
-- fields say. The package `web3` is a record of functions, which all fail if there is no connection.
pub mod Config
pub mod Sending
pub mod Lifecycle
pub mod Updates
pub mod Fees
pub mod Users
pub mod Raising
pub mod Keys
pub mod Tests
use agu_odoo.Base.{
  ⊤, ℕ, ◌+◌, ◌*◌, ◌/◌, ◌-◌, Bool, true, false, not, ◌&&◌, ◌||◌, Option, none, some, String, List,
  [], ◌∷◌, ◌==◌, ltb, leb, if◌then◌else◌,
}
use agu_odoo.Python.{
  Error, Result, ok, err, exception, user_error, validation_error, name_error, bind, Exec, or_error,
}
use agu_odoo.Text.{concat}
use agu_odoo.Odoo.{is_set, text_of}
use agu_odoo.Chain.{Receipt}

pub data State : Type 0 where
  draft pending completed failed cancelled : State

-- The difference of two block numbers, which is negative for a receipt of a later block.
pub data Difference : Type 0 where
  minus : ℕ → ℕ → Difference

-- `wallet.transaction`
pub record Transaction : Type 0 where
  pub name : String
  pub from_address : String
  pub to_address : String
  pub value : ℕ
  pub gas_price : ℕ
  pub gas_limit : ℕ
  pub gas_used : ℕ
  pub state : State
  pub transaction_hash : Option String
  pub block_number : ℕ
  pub block_timestamp : Option ℕ
  pub nonce : ℕ
  pub confirmation_blocks : Difference
  pub raw_transaction : Option String
  pub signed_transaction : Option String
  pub error_message : Option String

-- `tx_params`
pub record Params : Type 0 where
  pub from_address : String
  pub to_address : String
  pub value : ℕ
  pub gas : ℕ
  pub gas_price : ℕ
  pub nonce : ℕ

-- What a transaction takes from outside: the connection of its network, and the key of its user.
pub record Web3 : Type 0 where
  -- `self.network_id.get_web3_connection()`
  pub connection : Result ⊤
  pub get_balance : String → Result ℕ
  pub get_transaction_count : String → Result ℕ
  -- `web3.to_hex(web3.eth.account.sign_transaction(tx_params, private_key).rawTransaction)`
  pub sign_transaction : Params → String → Result String
  -- `web3.to_hex(web3.eth.send_raw_transaction(raw))`
  pub send_raw_transaction : String → Result String
  -- `web3.eth.get_transaction_receipt(hash)` and `web3.eth.block_number`
  pub get_transaction_receipt : String → Result (Option Receipt)
  pub block_number : Result ℕ
  -- `json.dumps(tx_params)`
  pub dumps : Params → String
  -- `self.user_id._get_wallet_private_key()`
  pub private_key : Option String
  pub now : ℕ

abbrev pub is_draft : State → Bool
is_draft draft = true
is_draft pending = false
is_draft completed = false
is_draft failed = false
is_draft cancelled = false

abbrev pub is_pending : State → Bool
is_pending pending = true
is_pending draft = false
is_pending completed = false
is_pending failed = false
is_pending cancelled = false

abbrev pub is_failed : State → Bool
is_failed failed = true
is_failed draft = false
is_failed pending = false
is_failed completed = false
is_failed cancelled = false

-- `web3.to_wei(self.value, 'ether')` and `web3.to_wei(self.gas_price, 'gwei')`
abbrev pub value_in_wei : Transaction → ℕ
value_in_wei t = t.value * 10_000_000_000

abbrev pub gas_price_in_wei : Transaction → ℕ
gas_price_in_wei t = t.gas_price * 10_000_000

unfoldable pub total_cost : Transaction → ℕ
total_cost t = value_in_wei t + t.gas_limit * gas_price_in_wei t

abbrev pub tx_params : Transaction → ℕ → Params
tx_params t nonce = record {
  from_address = t.from_address;
  to_address = t.to_address;
  value = value_in_wei t;
  gas = t.gas_limit;
  gas_price = gas_price_in_wei t;
  nonce = nonce;
}

-- What was signed, and the hash under which it was sent
pub record SentTransaction : Type 0 where
  pub params : Params
  pub signed : String
  pub hash : String

-- The `try` of `action_send`, up to the write: with a balance that covers the cost, and with a key
abbrev pub signed_with : Web3 → Transaction → ℕ → Result SentTransaction
signed_with web3 t nonce =
    if is_set web3.private_key
    then (bind (web3.sign_transaction (tx_params t nonce) (text_of web3.private_key)) λ signed.
        bind (web3.send_raw_transaction signed)
          λ hash. ok (record { params = tx_params t nonce; signed = signed; hash = hash }))
    else err (exception user_error "Private key not available")

abbrev pub covered : Web3 → Transaction → ℕ → Result SentTransaction
covered web3 t balance =
    if ltb balance (total_cost t)
    then err (exception user_error "Insufficient balance for transaction")
    else bind (web3.get_transaction_count t.from_address) (signed_with web3 t)

unfoldable pub sign_and_send : Web3 → Transaction → Result SentTransaction
unfolding total_cost
sign_and_send web3 t =
    bind web3.connection λ _. bind (web3.get_balance t.from_address) (covered web3 t)

abbrev pub finish_send : Web3 → Result SentTransaction → Exec Transaction Bool
finish_send web3 (ok sent) t = (
  ok true,
  record t {
    state = pending;
    transaction_hash = some sent.hash;
    nonce = sent.params.nonce;
    raw_transaction = some (web3.dumps sent.params);
    signed_transaction = some sent.signed;
  },
)
finish_send web3 (err e) t = (
  err (exception user_error (concat ("Transaction failed: " ∷ e.text ∷ []))),
  record t { state = failed; error_message = some e.text },
)

-- `action_send`
unfoldable pub action_send : Web3 → Exec Transaction Bool
unfolding sign_and_send
action_send web3 t =
    if is_draft t.state
    then finish_send web3 (sign_and_send web3 t) t
    else (err (exception user_error "Only draft transactions can be sent"), t)

-- `action_cancel`
unfoldable pub action_cancel : Exec Transaction Bool
action_cancel t =
    if is_draft t.state || is_failed t.state
    then (
      ok true,
      record t { state = cancelled; error_message = some "Transaction cancelled by user" },
    )
    else (err (exception user_error "Only draft or failed transactions can be cancelled"), t)

-- `self.gas_price * 1.1`, rounded half up to the digits of the field
unfoldable pub raised_price : ℕ → ℕ
raised_price p = (11 * p + 5) / 10

-- `action_retry`: the copy that is created
unfoldable pub action_retry : Transaction → Result Transaction
unfolding raised_price
action_retry t =
    if is_failed t.state
    then ok (record t {
      state = draft;
      transaction_hash = none;
      error_message = none;
      gas_price = raised_price t.gas_price;
    })
    else err (exception user_error "Only failed transactions can be retried")

-- The write for a receipt
abbrev pub write_receipt : Web3 → Receipt → ℕ → Transaction → Transaction
write_receipt web3 receipt latest t = record t {
  state = completed;
  gas_used = receipt.gas_used;
  block_number = receipt.block_number;
  block_timestamp = some web3.now;
  confirmation_blocks = minus latest receipt.block_number;
}

abbrev pub reverted : Transaction → Transaction
reverted t = record t { state = failed; error_message = some "Transaction reverted on chain" }

abbrev pub apply_receipt : Web3 → Receipt → Transaction → Transaction
apply_receipt web3 receipt t =
    if receipt.status == 1
    then elim web3.block_number [ ok latest ↦ write_receipt web3 receipt latest t | err e ↦ t ]
    else reverted t

-- An exception is logged, and the transaction stays as it is.
abbrev pub receipt_of : Web3 → Transaction → Result (Option Receipt)
receipt_of web3 t =
    bind web3.connection λ _. web3.get_transaction_receipt (text_of t.transaction_hash)

abbrev pub settle : Web3 → Result (Option Receipt) → Transaction → Transaction
settle web3 (ok (some receipt)) t = apply_receipt web3 receipt t
settle web3 (ok none) t = t
settle web3 (err e) t = t

unfoldable pub update_transaction : Web3 → Transaction → Transaction
update_transaction web3 t = if is_pending t.state then settle web3 (receipt_of web3 t) t else t

-- `update_pending_transactions`, of the table; each row has its own network
unfoldable pub update_pending_transactions :
    (Transaction → Web3) → List Transaction → List Transaction
update_pending_transactions web3_of [] = []
update_pending_transactions web3_of (t ∷ rows) =
    update_transaction (web3_of t) t ∷ update_pending_transactions web3_of rows

-- `_check_value`
unfoldable pub check_value : Transaction → Result ⊤
check_value t =
    if leb t.value 0
    then err (exception validation_error "Transaction value must be positive")
    else ok tt

-- The default of `create`, of the name
unfoldable pub created_name : Option String → String → String
created_name given next = if is_set given then text_of given else next
