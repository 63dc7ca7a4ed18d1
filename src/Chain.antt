-- ===== src/Chain.antt =====
-- The `web3` and `eth_account` packages, as far as the wallets use them. They are not part of the
-- repository: their functions are the fields of a record that the definitions take. Amounts are
-- whole numbers of wei.
use agu_odoo.Base.{ℕ, Bool, true, false, ◌&&◌, ◌==◌, Option, String, List, [], ◌∷◌, map}
use agu_odoo.Python.{Result}
use agu_odoo.Text.{codes, lower}

-- The parameters of a transaction that is signed.
pub record TxParams : Type 0 where
  pub nonce : ℕ
  pub gas_price : ℕ
  pub gas : ℕ
  pub to_address : String
  pub value : ℕ
  pub payload : Option String

-- A receipt of the chain; `status` is 1 for a transaction that has succeeded.
pub record Receipt : Type 0 where
  pub status : ℕ
  pub gas_used : ℕ
  pub block_number : ℕ

pub record Chain : Type 0 where
  -- `Web3(Web3.HTTPProvider(rpc_url)).is_connected()`
  pub is_connected : String → Result Bool
  -- `web3.eth.get_transaction_count(address)`
  pub get_transaction_count : String → Result ℕ
  -- `web3.eth.get_balance(address)`
  pub get_balance : String → Result ℕ
  -- `Account.from_key(private_key).address`
  pub from_key : String → Result String
  -- `web3.eth.account.decrypt(json.loads(wallet_file.decode()), password)`
  pub decrypt : String → String → Result String
  -- `web3.eth.account.sign_transaction(tx_params, private_key).rawTransaction`
  pub sign_transaction : TxParams → String → Result String
  -- `web3.eth.send_raw_transaction(raw)`, the hash
  pub send_raw_transaction : String → Result String
  -- `web3.eth.get_transaction_receipt(hash)`
  pub get_transaction_receipt : String → Result (Option Receipt)
  -- `web3.eth.block_number`
  pub block_number : Result ℕ

abbrev same_codes : List ℕ → List ℕ → Bool
same_codes [] [] = true
same_codes [] (d ∷ ds) = false
same_codes (c ∷ cs) [] = false
same_codes (c ∷ cs) (d ∷ ds) = c == d && same_codes cs ds

-- `a.lower() == b.lower()`, of addresses: they are ASCII
unfoldable pub same_address : String → String → Bool
same_address a b = same_codes (map lower (codes a)) (map lower (codes b))
