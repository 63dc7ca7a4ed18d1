-- ===== src/Dao/Contract.antt =====
-- The contract in odoo_custom_addons/dao_core/models/dao_config.py: the check of its ABI, the gas
-- price, its calls and the test of the connection. The contract is a record of functions of `web3`.
use agu_odoo.Base.{
  ⊤, ℕ, ◌*◌, Bool, true, false, Option, none, some, String, List, [], ◌∷◌, map, is_some,
  if◌then◌else◌,
}
use agu_odoo.Python.{
  ErrorClass, Error, Result, ok, err, exception, user_error, value_error, validation_error,
  json_decode_error, bind,
}
use agu_odoo.Text.{concat}
use agu_odoo.Odoo.{Notification, Severity, success, warning, danger}
use agu_odoo.Json.{Json, null, bool, num, str, arr, obj, Items, nil, cons, Doc, loads, get?}
use agu_odoo.Chain.{Chain}
use agu_odoo.Dao.{Config, get_web3_connection, connect_to}

-- An entry of a JSON array is an object with a `type`.
abbrev invalid_abi : String → Result ⊤
invalid_abi text = err (exception validation_error text)

abbrev pub check_entry : Json → Result ⊤
check_entry (obj fs) =
    if is_some (get? "type" fs)
    then ok tt
    else invalid_abi "Invalid ABI format: missing 'type' field in entry"
check_entry null = invalid_abi "Invalid ABI format: each entry must be an object"
check_entry (bool b) = invalid_abi "Invalid ABI format: each entry must be an object"
check_entry (num n) = invalid_abi "Invalid ABI format: each entry must be an object"
check_entry (str s) = invalid_abi "Invalid ABI format: each entry must be an object"
check_entry (arr xs) = invalid_abi "Invalid ABI format: each entry must be an object"

abbrev pub check_entries : Items → Result ⊤
check_entries nil = ok tt
check_entries (cons j xs) = bind (check_entry j) λ _. check_entries xs

abbrev pub check_abi : Json → Result ⊤
check_abi (arr xs) = check_entries xs
check_abi null = invalid_abi "Contract ABI must be a JSON array"
check_abi (bool b) = invalid_abi "Contract ABI must be a JSON array"
check_abi (num n) = invalid_abi "Contract ABI must be a JSON array"
check_abi (str s) = invalid_abi "Contract ABI must be a JSON array"
check_abi (obj fs) = invalid_abi "Contract ABI must be a JSON array"

-- The two `except` clauses; the second one takes the ValidationErrors of the `try` too.
abbrev pub abi_error : ErrorClass → Error → Error
abi_error json_decode_error e = exception validation_error "Contract ABI must be valid JSON"
abi_error other e =
    exception validation_error (concat ("Invalid Contract ABI format: " ∷ e.text ∷ []))

abbrev pub abi_handled : Result ⊤ → Result ⊤
abi_handled (ok u) = ok u
abi_handled (err e) = err (abi_error e.class e)

-- `_check_contract_abi`, of a text that is set
unfoldable pub check_contract_abi : Doc → Result ⊤
check_contract_abi abi = abi_handled (bind (loads abi) check_abi)

-- What `web3.eth` tells of the gas, and the contract at an address with an ABI.
pub record Eth : Type 0 where
  -- `web3.eth.get_block('latest')['baseFeePerGas']`, `max_priority_fee` and `gas_price`
  pub base_fee : Result ℕ
  pub max_priority_fee : Result ℕ
  pub gas_price : Result ℕ
  -- `method(*args).call()` of the contract, by address, ABI and name
  pub call : String → Json → String → Result Json

pub data Strategy : Type 0 where
  legacy eip1559 : Strategy

pub data GasPrice : Type 0 where
  dynamic_fee : ℕ → ℕ → GasPrice
  flat_price : ℕ → GasPrice

abbrev pub price_by : Eth → Strategy → Result GasPrice
price_by eth eip1559 = bind eth.base_fee λ base_fee.
    bind eth.max_priority_fee λ priority_fee. ok (dynamic_fee (base_fee * 2) priority_fee)
price_by eth legacy = bind eth.gas_price λ gas_price. ok (flat_price gas_price)

-- `get_gas_price` of a configuration, by its strategy
unfoldable pub get_gas_price : Chain → Eth → Config → Strategy → Result GasPrice
get_gas_price chain eth config strategy = bind (connect_to chain config) λ _. price_by eth strategy

-- The contract of a configuration
pub record Contract : Type 0 where
  pub config : Config
  pub address : String
  pub abi : Doc

-- `search([('active', '=', True)], limit=1)`
abbrev pub active_contract : List Contract → Option Contract
active_contract [] = none
active_contract (c ∷ contracts) = if c.config.active then some c else active_contract contracts

abbrev contract_of : Option Contract → Result Contract
contract_of none = err (exception value_error "No active DAO configuration found")
contract_of (some c) = ok c

-- `get_contract`, called on the model: the address and the ABI
unfoldable pub get_contract : Chain → List Contract → Result (String × Json)
get_contract chain contracts = bind (contract_of (active_contract contracts)) λ c.
    bind (get_web3_connection chain (map (λ (x : Contract). x.config) contracts))
      λ _. bind (loads c.abi) λ abi. ok (c.address, abi)

abbrev pub call_failed : Result Json → Result Json
call_failed (ok j) = ok j
call_failed (err e) = err (exception user_error (concat ("Contract call failed: " ∷ e.text ∷ [])))

-- `call_contract_method`; the search of the contract stands outside of its `try`
unfoldable pub call_contract_method : Chain → Eth → List Contract → String → Result Json
unfolding get_contract
call_contract_method chain eth contracts method_name =
    bind (get_contract chain contracts) λ c. call_failed (eth.call c.0 c.1 method_name)

abbrev connection_notice : Severity → String → Notification
connection_notice severity message = record {
  title = "Connection Test";
  message = message;
  severity = severity;
  sticky = false;
}

abbrev second_look : Result Bool → Notification
second_look (ok true) = connection_notice success "Successfully connected to blockchain node"
second_look (ok false) = connection_notice warning "Could not establish connection"
second_look (err e) = connection_notice danger (concat ("Connection failed: " ∷ e.text ∷ []))

abbrev pub after_connection : Result ⊤ → Result Bool → Notification
after_connection (ok u) again = second_look again
after_connection (err e) again =
    connection_notice danger (concat ("Connection failed: " ∷ e.text ∷ []))

-- `test_connection`, which asks the node once in `get_web3_connection` and once more
unfoldable pub test_connection : Chain → Config → Result Bool → Notification
test_connection chain config again = after_connection (connect_to chain config) again
