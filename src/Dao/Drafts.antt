-- ===== src/Dao/Drafts.antt =====
-- The balance constraint of dao_transaction.py, and the operations that reset and cancel.
use agu_odoo.Base.{⊤, ◌&&◌, ◌||◌, if◌then◌else◌, ltb}
use agu_odoo.Python.{Result, ok, err, exception, user_error, validation_error, Exec}
use agu_odoo.Dao.{Transaction, cancelled, compute_total_amount, draft, is_draft, is_failed}

-- `_check_balance`, the constraint that a write of the status triggers
unfoldable pub check_balance : Transaction → Result ⊤
check_balance t =
    if is_draft t.status && ltb t.eth_balance (compute_total_amount t)
    then err (exception validation_error "Insufficient balance for transaction")
    else ok tt

abbrev pub write_checked : Transaction → Result ⊤ × Transaction
write_checked t = (check_balance t, t)

-- `action_draft`
unfoldable pub action_draft : Exec Transaction ⊤
unfolding check_balance
action_draft t = write_checked (record t { status = draft })

-- `action_cancel`
unfoldable pub action_cancel : Exec Transaction ⊤
unfolding check_balance
action_cancel t =
    if is_draft t.status || is_failed t.status
    then write_checked (record t { status = cancelled })
    else (err (exception user_error "Only draft or failed transactions can be cancelled"), t)
