-- ===== src/Dao/Tests.antt =====
-- Runs of DAO transactions against a concrete chain.
use agu_odoo.Base.{◌↔◌, arith}
use agu_odoo.Python.{validation_error, Error}
use agu_odoo.Json.{Doc, json, arr, obj, str, cons, nil, field, end}
use agu_odoo.Dao.Contract.{check_contract_abi}
use agu_odoo.Dao.Network.{onchange_network_id}
use agu_odoo.Dao.Abi.{IsAbi, check_contract_abi_iff}
use agu_odoo.Base.{◌≡◌, refl, true, false, none, some, List, [], ◌∷◌, ◌⊎◌, ◌≤◌, ◌*◌, ◌/◌}
use agu_odoo.Python.{Error, ok, err}
use agu_odoo.Odoo.{request}
use agu_odoo.Chain.{Chain, same_address}
use agu_odoo.Dao.{
  failed, draft, pending, completed, Transaction, private_key_method, Config, compute_total_amount,
  get_web3_connection, send_signed, submit_transaction_with_key,
}
use agu_odoo.Dao.Pending.{update_pending}
use agu_odoo.Dao.Settling.{completed_sent_again}
use agu_odoo.Dao.Submit.{
  IsSent, IsRefused, SignedBySender, submit_request_rollback, send_signed_sound,
}
use agu_odoo.Dao.Lifecycle.{Step, Reach, HasHash, Confirmed, Reach-HasHash, Step-completed}

abbrev pub test_chain : Chain
test_chain = record {
  is_connected = λ url. ok true;
  get_transaction_count = λ address. ok 4;
  get_balance = λ address. ok 100000;
  from_key = λ key. ok "0xAB";
  decrypt = λ file password. ok "key";
  sign_transaction = λ params key. ok "raw";
  send_raw_transaction = λ raw. ok "0x01";
  get_transaction_receipt =
      λ hash. ok (some (record { status = 1; gas_used = 21000; block_number = 9 }));
  block_number = ok 9;
}

abbrev pub configs : List Config
configs = record { rpc_url = "https://rpc"; active = true } ∷ []

abbrev transfer : Transaction
transfer = record {
  name = "transfer";
  transaction_hash = none;
  from_address = "0xab";
  to_address = "0xcd";
  value = 5;
  status = draft;
  gas_limit = 30;
  gas_price = 2;
  gas_used = 0;
  nonce = 0;
  is_contract_interaction = false;
  raw_input = none;
  transaction_type = private_key_method;
  private_key = some "key";
  wallet_file = none;
  wallet_password = none;
  error_message = none;
  eth_balance = 100;
}

abbrev sent_transfer : Transaction
sent_transfer = record transfer {
  status = pending;
  transaction_hash = some "0x01";
  private_key = none;
}

submit_request_rollback_example :
    IsSent test_chain configs transfer
      (request (submit_transaction_with_key test_chain configs) transfer)
    ⊎ IsRefused test_chain configs transfer
        (request (submit_transaction_with_key test_chain configs) transfer)
submit_request_rollback_example = submit_request_rollback test_chain configs transfer

send_signed_sound_example :
    (get_web3_connection test_chain configs ≡ ok tt)
    × (compute_total_amount transfer ≤ transfer.eth_balance)
    × SignedBySender test_chain configs transfer "0x01"
unfolding send_signed get_web3_connection compute_total_amount same_address
send_signed_sound_example = send_signed_sound test_chain configs transfer "0x01" refl

Reach-HasHash_example : HasHash (submit_transaction_with_key test_chain configs transfer).1
unfolding submit_transaction_with_key send_signed get_web3_connection compute_total_amount
    same_address
Reach-HasHash_example =
    Reach-HasHash {s = transfer} tt
      (Reach.next Reach.here test_chain (Step.submit configs transfer refl))

Step-completed_example : (sent_transfer.status ≡ completed) ⊎ Confirmed test_chain sent_transfer
unfolding update_pending
Step-completed_example =
    Step-completed test_chain {t = sent_transfer} (Step.update sent_transfer) refl

abbrev failed_transfer : Transaction
failed_transfer = record transfer {
  status = failed;
  transaction_hash = some "0x01";
  error_message = some "reverted";
}

abbrev retried_transfer : Transaction
retried_transfer = record transfer { gas_price = 2 * 11 / 10 }

abbrev done_transfer : Transaction
done_transfer = record transfer { status = completed; transaction_hash = some "0x00" }

completed_sent_again_example :
    (u : Transaction) × Reach done_transfer u
    × (u.status ≡ pending)
    × (u.transaction_hash ≡ some "0x01")
unfolding send_signed get_web3_connection compute_total_amount same_address
completed_sent_again_example =
    completed_sent_again test_chain configs done_transfer "0x01" refl (omega arith) refl

-- One entry, of a function.
abbrev one_function : Doc
one_function = json (arr (cons (obj (field "type" (str "function") end)) nil))

check_contract_abi_iff_example :
    ((check_contract_abi one_function ≡ ok tt) ↔ IsAbi one_function)
    × ((e : Error) → check_contract_abi one_function ≡ err e → e.class ≡ validation_error)
check_contract_abi_iff_example = check_contract_abi_iff one_function

polygon_rpc : onchange_network_id "137" "http://localhost" ≡ "https://polygon-rpc.com"
unfolding onchange_network_id
polygon_rpc = refl
