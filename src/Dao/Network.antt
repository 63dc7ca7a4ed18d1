-- ===== src/Dao/Network.antt =====
-- The tables of the networks in odoo_custom_addons/dao_core/models/dao_config.py: currencies,
-- explorers and the RPC urls that the form proposes.
use agu_odoo.Base.{String, List, [], ◌∷◌, if◌then◌else◌}
use agu_odoo.Text.{str_eq, nonempty}

abbrev pub table_get : List (String × String) → String → String → String
table_get [] key default = default
table_get ((k, v) ∷ table) key default = if str_eq k key then v else table_get table key default

-- The table of `get_network_currency`, and the one of `_compute_network_info`
unfoldable pub get_network_currency : String → String
get_network_currency network_id = table_get table network_id "ETH"
  where
    table : List (String × String)
    table =
        ("1", "ETH")
        ∷ ("137", "MATIC")
        ∷ ("56", "BNB")
        ∷ ("42161", "ETH")
        ∷ ("10", "ETH")
        ∷ ("43114", "AVAX")
        ∷ ("11155111", "SEP")
        ∷ ("80001", "tMATIC")
        ∷ ("97", "tBNB")
        ∷ ("421613", "AGOR")
        ∷ ("420", "ETH")
        ∷ ("43113", "AVAX")
        ∷ []

unfoldable pub get_explorer_url : String → String
get_explorer_url network_id = table_get table network_id ""
  where
    table : List (String × String)
    table =
        ("1", "https://etherscan.io")
        ∷ ("137", "https://polygonscan.com")
        ∷ ("56", "https://bscscan.com")
        ∷ ("42161", "https://arbiscan.io")
        ∷ ("10", "https://optimistic.etherscan.io")
        ∷ ("43114", "https://snowtrace.io")
        ∷ ("11155111", "https://sepolia.etherscan.io")
        ∷ ("80001", "https://mumbai.polygonscan.com")
        ∷ ("97", "https://testnet.bscscan.com")
        ∷ ("421613", "https://goerli.arbiscan.io")
        ∷ ("420", "https://goerli-optimism.etherscan.io")
        ∷ ("43113", "https://testnet.snowtrace.io")
        ∷ []

-- `_compute_network_info`, the currency and the explorer, by tables of its own
unfoldable pub compute_network_info : String → String × String
compute_network_info network_id =
    (table_get currencies network_id "ETH", table_get explorers network_id "")
  where
    currencies : List (String × String)
    currencies =
        ("1", "ETH")
        ∷ ("137", "MATIC")
        ∷ ("56", "BNB")
        ∷ ("42161", "ETH")
        ∷ ("10", "ETH")
        ∷ ("43114", "AVAX")
        ∷ ("11155111", "SEP")
        ∷ ("80001", "tMATIC")
        ∷ ("97", "tBNB")
        ∷ ("421613", "AGOR")
        ∷ ("420", "ETH")
        ∷ ("43113", "AVAX")
        ∷ []

    explorers : List (String × String)
    explorers =
        ("1", "https://etherscan.io")
        ∷ ("137", "https://polygonscan.com")
        ∷ ("56", "https://bscscan.com")
        ∷ ("42161", "https://arbiscan.io")
        ∷ ("10", "https://optimistic.etherscan.io")
        ∷ ("43114", "https://snowtrace.io")
        ∷ ("11155111", "https://sepolia.etherscan.io")
        ∷ ("80001", "https://mumbai.polygonscan.com")
        ∷ ("97", "https://testnet.bscscan.com")
        ∷ ("421613", "https://goerli.arbiscan.io")
        ∷ ("420", "https://goerli-optimism.etherscan.io")
        ∷ ("43113", "https://testnet.snowtrace.io")
        ∷ []

-- `_onchange_network_id`: the RPC url that the form proposes, or the one that is there
unfoldable pub onchange_network_id : String → String → String
onchange_network_id network_id rpc_url =
    if nonempty network_id then table_get table network_id "" else rpc_url
  where
    table : List (String × String)
    table =
        ("1", "https://mainnet.infura.io/v3/YOUR-PROJECT-ID")
        ∷ ("137", "https://polygon-rpc.com")
        ∷ ("56", "https://bsc-dataseed.binance.org")
        ∷ ("42161", "https://arb1.arbitrum.io/rpc")
        ∷ ("10", "https://mainnet.optimism.io")
        ∷ ("43114", "https://api.avax.network/ext/bc/C/rpc")
        ∷ ("11155111", "https://sepolia.infura.io/v3/YOUR-PROJECT-ID")
        ∷ ("80001", "https://rpc-mumbai.maticvigil.com")
        ∷ ("97", "https://data-seed-prebsc-1-s1.binance.org:8545")
        ∷ ("421613", "https://goerli-rollup.arbitrum.io/rpc")
        ∷ ("420", "https://goerli.optimism.io")
        ∷ ("43113", "https://api.avax-test.network/ext/bc/C/rpc")
        ∷ []
