-- ===== src/Wallet/Tests.antt =====
-- Runs of the wallet on one transaction, one node and one user.
use agu_odoo.Base.{
  ◌+◌, ◌*◌, ◌≤◌, ◌<◌, ◌≡◌, ◌↔◌, refl, ◌⊎◌, true, false, none, some, String, [], ◌∷◌,
}
use agu_odoo.Python.{Error, ok, err, exception, user_error, is_ok}
use agu_odoo.Text.{concat}
use agu_odoo.Odoo.{request}
use agu_odoo.Wallet.{
  draft, failed, completed, minus, Transaction, Web3, SentTransaction, sign_and_send, action_send,
  action_retry, update_transaction, update_pending_transactions,
}
use agu_odoo.Wallet.Sending.{IsSound, sent_off, action_send-request}
use agu_odoo.Wallet.Lifecycle.{IsConsistent, send, update, Reach, here, next, Reach-IsConsistent}
use agu_odoo.Wallet.Updates.{EachUpdated, update_pending_transactions-EachUpdated}
use agu_odoo.Wallet.Config.{WalletConfig, Node, eip1559, synced, compute_network_info}
use agu_odoo.Wallet.Fees.{action_retry_price}
use agu_odoo.Wallet.Users.{Site, Account, Crypto, create_web3_wallet, import_wallet}
use agu_odoo.Wallet.Keys.{create_and_import_raise}

abbrev payment : Transaction
payment = record {
  name = "WT1";
  from_address = "0xa";
  to_address = "0xb";
  value = 100_000_000;
  gas_price = 200;
  gas_limit = 21000;
  gas_used = 0;
  state = draft;
  transaction_hash = none;
  block_number = 0;
  block_timestamp = none;
  nonce = 0;
  confirmation_blocks = minus 0 0;
  raw_transaction = none;
  signed_transaction = none;
  error_message = none;
}

-- Two ether, and a node that mines what it is sent.
abbrev web3 : Web3
web3 = record {
  connection = ok tt;
  get_balance = λ address. ok 2_000_000_000_000_000_000;
  get_transaction_count = λ address. ok 4;
  sign_transaction = λ params key. ok "0xsigned";
  send_raw_transaction = λ raw. ok "0xhash";
  get_transaction_receipt =
      λ hash. ok (some (record { status = 1; gas_used = 21000; block_number = 10 }));
  block_number = ok 12;
  dumps = λ params. "{}";
  private_key = some "0xkey";
  now = 90;
}

action_send-request_example :
    ((sent : SentTransaction) × (true ≡ true)
      × IsSound web3 payment sent
      × (request (action_send web3) payment ≡ (ok true, sent_off web3 sent payment)))
    ⊎ ((e : Error) × (true ≡ true)
        × (sign_and_send web3 payment ≡ err e)
        × (request (action_send web3) payment ≡ (
          err (exception user_error (concat ("Transaction failed: " ∷ e.text ∷ []))),
          payment,
        )))
    ⊎ ((true ≡ false)
        × (request (action_send web3) payment
            ≡ (err (exception user_error "Only draft transactions can be sent"), payment)))
action_send-request_example = action_send-request web3 payment

abbrev sent : Transaction
sent = (request (action_send web3) payment).1

Reach-IsConsistent_example : IsConsistent (update_transaction web3 sent)
Reach-IsConsistent_example =
    let run : Reach payment (update_transaction web3 sent) =
      next (next here (send web3)) (update web3) in
    Reach-IsConsistent run refl

update_pending_transactions-EachUpdated_example :
    EachUpdated
      (λ t. web3)
      (sent ∷ payment ∷ [])
      (update_pending_transactions (λ t. web3) (sent ∷ payment ∷ []))
update_pending_transactions-EachUpdated_example =
    update_pending_transactions-EachUpdated (λ t. web3) (sent ∷ payment ∷ [])

sent_completed : (update_transaction web3 sent).state ≡ completed
unfolding update_transaction action_send sign_and_send
sent_completed = refl

abbrev reverted_payment : Transaction
reverted_payment = record payment { state = failed; transaction_hash = some "0xhash" }

abbrev again : Transaction
again = record payment { gas_price = 220 }

action_retry_price_example : (200 ≤ 220) × (10 * 220 ≤ 11 * 200 + 5) × ((200 < 220) ↔ (5 ≤ 200))
unfolding action_retry
action_retry_price_example = action_retry_price reverted_payment again refl

-- The node asks for a priority fee of 3 Gwei, above the maximum of 2.
abbrev config : WalletConfig
config = record {
  network_id = "369";
  gas_price_strategy = eip1559;
  multiplied = λ x. x;
  max_gas_price = 2;
  last_block_number = 0;
  last_sync_time = none;
  sync_status = synced;
}

abbrev node : Node
node = record {
  is_connected = ok true;
  block_number = ok 12;
  gas_price = ok 1_000_000_000;
  base_fee = ok 1_000_000_000;
  max_priority_fee = ok 3_000_000_000;
}

pulse : compute_network_info "369" ≡ ("PLS", "https://scan.pulsechain.com")
unfolding compute_network_info
pulse = refl

abbrev account : Account
account = record { address = "0xa"; key = "12ab" }

abbrev rest : String → String
rest String.[] = ""
rest (String.◌∷◌ c s) = s

-- A cipher that puts a letter in front.
abbrev crypto : Crypto
crypto = record {
  create_account = ok account;
  from_key = λ key. ok (record account { key = key });
  sign = λ account message. ok "0xsig";
  generate_key = "fernet";
  encrypt = λ key m. ok (String.◌∷◌ "c" m);
  decrypt = λ key c. ok (rest c);
  now = 90;
}

abbrev nobody : Site
nobody = record {
  eth_address = none;
  encrypted_key = none;
  last_activity = none;
  encryption_key = none;
}

create_and_import_raise_example :
    ((is_ok (request (create_web3_wallet crypto) nobody).0 ≡ false)
      × ((request (create_web3_wallet crypto) nobody).1 ≡ nobody))
    × ((is_ok (request (import_wallet crypto "12ab") nobody).0 ≡ false)
        × ((request (import_wallet crypto "12ab") nobody).1 ≡ nobody))
create_and_import_raise_example = create_and_import_raise crypto "12ab" nobody
