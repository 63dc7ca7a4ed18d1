-- ===== src/Wallet/Config.antt =====
-- odoo_custom_addons/web3_wallet_bad/models/wallet_config.py: a network, its connection and its gas
-- prices. The floating-point multiplier is the function `int(x * gas_price_multiplier)` of the fees.
use agu_odoo.Base.{
  ⊤, ℕ, ◌*◌, ◌+◌, Bool, true, false, Option, some, String, List, [], ◌∷◌, leb, if◌then◌else◌,
}
use agu_odoo.Python.{Error, Result, ok, err, exception, user_error, bind, Exec}
use agu_odoo.Text.{str_eq, concat}

pub data Strategy : Type 0 where
  legacy eip1559 : Strategy

pub data SyncStatus : Type 0 where
  synced syncing sync_error : SyncStatus

-- `wallet.config`, as far as its methods use it
pub record WalletConfig : Type 0 where
  pub network_id : String
  pub gas_price_strategy : Strategy
  -- `int(x * self.gas_price_multiplier)`
  pub multiplied : ℕ → ℕ
  pub max_gas_price : ℕ
  pub last_block_number : ℕ
  pub last_sync_time : Option ℕ
  pub sync_status : SyncStatus

-- The node at `rpc_url`
pub record Node : Type 0 where
  -- `web3.is_connected()`
  pub is_connected : Result Bool
  pub block_number : Result ℕ
  pub gas_price : Result ℕ
  -- `web3.eth.get_block('latest')['baseFeePerGas']`
  pub base_fee : Result ℕ
  pub max_priority_fee : Result ℕ

-- `dict.get(key, default)` of a table of constants
abbrev pub table_get : List (String × String) → String → String → String
table_get [] key default = default
table_get ((k, v) ∷ table) key default = if str_eq k key then v else table_get table key default

abbrev currencies : List (String × String)
currencies =
    ("1", "ETH")
    ∷ ("11155111", "SEP")
    ∷ ("137", "MATIC")
    ∷ ("80001", "tMATIC")
    ∷ ("369", "PLS")
    ∷ ("943", "tPLS")
    ∷ []

abbrev explorers : List (String × String)
explorers =
    ("1", "https://etherscan.io")
    ∷ ("11155111", "https://sepolia.etherscan.io")
    ∷ ("137", "https://polygonscan.com")
    ∷ ("80001", "https://mumbai.polygonscan.com")
    ∷ ("369", "https://scan.pulsechain.com")
    ∷ ("943", "https://scan.v3.testnet.pulsechain.com")
    ∷ []

-- `_compute_network_info`, the currency and the explorer
unfoldable pub compute_network_info : String → String × String
compute_network_info network_id =
    (table_get currencies network_id "ETH", table_get explorers network_id "")

abbrev failed_connection : Error → Error
failed_connection e =
    exception user_error (concat ("Failed to establish Web3 connection: " ∷ e.text ∷ []))

abbrev pub reported_connection : Result Bool → Result ⊤
reported_connection (ok true) = ok tt
reported_connection (ok false) =
    err (failed_connection (exception user_error "Could not connect to blockchain node"))
reported_connection (err e) = err (failed_connection e)

-- `get_web3_connection`
unfoldable pub get_web3_connection : Node → Result ⊤
get_web3_connection node = reported_connection node.is_connected

abbrev pub min : ℕ → ℕ → ℕ
min a b = if leb a b then a else b

-- `web3.to_wei(self.max_gas_price, 'gwei')`
abbrev pub cap_of : WalletConfig → ℕ
cap_of config = config.max_gas_price * 1_000_000_000

-- What `get_gas_price` returns.
pub data GasPrice : Type 0 where
  -- `maxFeePerGas` and `maxPriorityFeePerGas`
  dynamic_fee : ℕ → ℕ → GasPrice
  -- `gasPrice`
  flat_price : ℕ → GasPrice

abbrev pub price_by : WalletConfig → Node → Strategy → Result GasPrice
price_by config node eip1559 = bind node.base_fee λ base_fee.
    bind node.max_priority_fee λ priority_fee.
      ok
        (dynamic_fee (min (config.multiplied base_fee + priority_fee) (cap_of config)) priority_fee)
price_by config node legacy =
    bind node.gas_price
      λ gas_price. ok (flat_price (min (config.multiplied gas_price) (cap_of config)))

-- `get_gas_price`
unfoldable pub get_gas_price : WalletConfig → Node → Result GasPrice
unfolding get_web3_connection
get_gas_price config node =
    bind (get_web3_connection node) λ _. price_by config node config.gas_price_strategy

abbrev tested : ℕ → Result ℕ → Exec WalletConfig ℕ
tested now (ok block_number) config = (
  ok block_number,
  record config {
    last_block_number = block_number;
    last_sync_time = some now;
    sync_status = synced;
  },
)
tested now (err e) config = (
  err (exception user_error (concat ("Connection test failed: " ∷ e.text ∷ []))),
  record config { sync_status = sync_error },
)

-- `test_connection`, with the block number that its notice shows
unfoldable pub test_connection : Node → ℕ → Exec WalletConfig ℕ
unfolding get_web3_connection
test_connection node now config =
    tested now
      (bind (get_web3_connection node) λ _.
        bind node.block_number λ block_number. bind node.gas_price λ gas_price. ok block_number)
      config
