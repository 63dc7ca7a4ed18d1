-- ===== src/Dao/Pending.antt =====
-- The retry of a failed transaction and the update of the pending ones, of dao_transaction.py.
use agu_odoo.Base.{⊤, ◌*◌, ◌/◌, ◌&&◌, Option, none, some, List, [], ◌∷◌, ◌==◌, if◌then◌else◌}
use agu_odoo.Python.{Result, ok, err, exception, user_error, Exec}
use agu_odoo.Odoo.{is_set, text_of}
use agu_odoo.Chain.{Chain, Receipt}
use agu_odoo.Dao.{
  Config, Transaction, completed, draft, failed, get_web3_connection, is_failed, is_pending,
}

-- `retry_failed_transaction`, which returns the copy; a gas price of 10 percent more is cut to
-- whole wei
unfoldable pub retry_failed_transaction : Transaction → Result Transaction
retry_failed_transaction t =
    if is_failed t.status
    then ok (record t {
      status = draft;
      transaction_hash = none;
      gas_used = 0;
      error_message = none;
      gas_price = t.gas_price * 11 / 10;
    })
    else err (exception user_error "Only failed transactions can be retried")

-- What `update_pending_transactions` writes for a receipt.
abbrev pub write_receipt : Transaction → Receipt → Transaction
write_receipt t r =
    if r.status == 1
    then record t { status = completed; gas_used = r.gas_used; error_message = none }
    else record t {
      status = failed;
      gas_used = r.gas_used;
      error_message = some "Transaction failed on blockchain";
    }

abbrev pub apply_receipt : Transaction → Result (Option Receipt) → Transaction
apply_receipt t (err e) = t
apply_receipt t (ok none) = t
apply_receipt t (ok (some r)) = write_receipt t r

-- One round of its loop over the transactions found.
unfoldable pub update_pending : Chain → Transaction → Transaction
update_pending chain t =
    if is_pending t.status && is_set t.transaction_hash
    then apply_receipt t (chain.get_transaction_receipt (text_of t.transaction_hash))
    else t

abbrev pub update_all : Chain → List Transaction → List Transaction
update_all chain [] = []
update_all chain (t ∷ table) = update_pending chain t ∷ update_all chain table

abbrev pub after_connection : Result ⊤ → Chain → Exec (List Transaction) ⊤
after_connection (err e) chain table = (err e, table)
after_connection (ok u) chain table = (ok tt, update_all chain table)

-- `update_pending_transactions`, over the table
unfoldable pub update_pending_transactions : Chain → List Config → Exec (List Transaction) ⊤
unfolding update_pending
update_pending_transactions chain configs =
    after_connection (get_web3_connection chain configs) chain
