-- ===== src/Wallet/Updates.antt =====
-- What the scheduled update of the pending transactions makes of the rows of the table.
use agu_odoo.Base.{
  ⊤, ℕ, ◌≡◌, refl, sym, subst, inl, inr, true, false, Option, none, some, List, [], ◌∷◌, Bool-cases,
  ◌==◌,
}
use agu_odoo.Python.{Error, Result, ok, err, bind}
use agu_odoo.Odoo.{text_of}
use agu_odoo.Chain.{Receipt}
use agu_odoo.Wallet.{
  completed, failed, Transaction, Web3, is_pending, minus, update_transaction,
  update_pending_transactions, settle, receipt_of, apply_receipt, write_receipt,
}

-- What one run of the update may make of one row, by what its node answers about its hash.
pub data Updated (web3 : Web3) (t : Transaction) : Transaction → Type 0 where
  not_pending : is_pending t.state ≡ false → Updated web3 t t
  completes :
      (receipt : Receipt) (latest : ℕ)
      → is_pending t.state ≡ true
      → web3.connection ≡ ok tt
      → web3.get_transaction_receipt (text_of t.transaction_hash) ≡ ok (some receipt)
      → (receipt.status == 1) ≡ true
      → web3.block_number ≡ ok latest
      → Updated web3 t (record t {
        state = completed;
        gas_used = receipt.gas_used;
        block_number = receipt.block_number;
        block_timestamp = some web3.now;
        confirmation_blocks = minus latest receipt.block_number;
      })
  reverts :
      (receipt : Receipt)
      → is_pending t.state ≡ true
      → web3.connection ≡ ok tt
      → web3.get_transaction_receipt (text_of t.transaction_hash) ≡ ok (some receipt)
      → (receipt.status == 1) ≡ false
      → Updated web3 t
          (record t { state = failed; error_message = some "Transaction reverted on chain" })
  no_receipt :
      is_pending t.state ≡ true
      → web3.connection ≡ ok tt
      → web3.get_transaction_receipt (text_of t.transaction_hash) ≡ ok none
      → Updated web3 t t
  no_connection :
      (e : Error) → is_pending t.state ≡ true → web3.connection ≡ err e → Updated web3 t t
  receipt_error :
      (e : Error)
      → is_pending t.state ≡ true
      → web3.connection ≡ ok tt
      → web3.get_transaction_receipt (text_of t.transaction_hash) ≡ err e
      → Updated web3 t t
  block_error :
      (receipt : Receipt) (e : Error)
      → is_pending t.state ≡ true
      → web3.connection ≡ ok tt
      → web3.get_transaction_receipt (text_of t.transaction_hash) ≡ ok (some receipt)
      → (receipt.status == 1) ≡ true
      → web3.block_number ≡ err e
      → Updated web3 t t

-- The rows one by one, none lost and none added.
pub data EachUpdated (web3_of : Transaction → Web3)
    : List Transaction → List Transaction → Type 0 where
  no_row : EachUpdated web3_of [] []
  row :
      {t u : Transaction} {ts us : List Transaction}
      → Updated (web3_of t) t u
      → EachUpdated web3_of ts us
      → EachUpdated web3_of (t ∷ ts) (u ∷ us)

success-Updated :
    (web3 : Web3) (t : Transaction) (receipt : Receipt) (o : Result ℕ)
    → is_pending t.state ≡ true
    → web3.connection ≡ ok tt
    → web3.get_transaction_receipt (text_of t.transaction_hash) ≡ ok (some receipt)
    → (receipt.status == 1) ≡ true
    → web3.block_number ≡ o
    → Updated web3 t (elim o [ ok latest ↦ write_receipt web3 receipt latest t | err e ↦ t ])
success-Updated web3 t receipt (ok latest) p c r s b = completes receipt latest p c r s b
success-Updated web3 t receipt (err e) p c r s b = block_error receipt e p c r s b

receipt-Updated :
    (web3 : Web3) (t : Transaction) (receipt : Receipt)
    → is_pending t.state ≡ true
    → web3.connection ≡ ok tt
    → web3.get_transaction_receipt (text_of t.transaction_hash) ≡ ok (some receipt)
    → Updated web3 t (apply_receipt web3 receipt t)
receipt-Updated web3 t receipt p c r = elim (Bool-cases (receipt.status == 1)) [
  | inr s ↦ rw s (reverts receipt p c r s)
  | inl s ↦ rw s (success-Updated web3 t receipt web3.block_number p c r s refl)
]

answer-Updated :
    (web3 : Web3) (t : Transaction) (o : Result (Option Receipt))
    → is_pending t.state ≡ true
    → web3.connection ≡ ok tt
    → web3.get_transaction_receipt (text_of t.transaction_hash) ≡ o
    → Updated web3 t (settle web3 o t)
answer-Updated web3 t (err e) p c r = receipt_error e p c r
answer-Updated web3 t (ok none) p c r = no_receipt p c r
answer-Updated web3 t (ok (some receipt)) p c r = receipt-Updated web3 t receipt p c r

connected-Updated :
    (web3 : Web3) (t : Transaction) (o : Result ⊤)
    → is_pending t.state ≡ true
    → web3.connection ≡ o
    → Updated web3 t
        (settle web3 (bind o λ _. web3.get_transaction_receipt (text_of t.transaction_hash)) t)
connected-Updated web3 t (err e) p c = no_connection e p c
connected-Updated web3 t (ok u) p c =
    answer-Updated web3 t (web3.get_transaction_receipt (text_of t.transaction_hash)) p c refl

update_left :
    (web3 : Web3) (t : Transaction) → is_pending t.state ≡ false → update_transaction web3 t ≡ t
unfolding update_transaction
update_left web3 t e = rw e refl

update_asked :
    (web3 : Web3) (t : Transaction)
    → is_pending t.state ≡ true
    → update_transaction web3 t ≡ settle web3 (receipt_of web3 t) t
unfolding update_transaction
update_asked web3 t e = rw e refl

update-Updated : (web3 : Web3) (t : Transaction) → Updated web3 t (update_transaction web3 t)
update-Updated web3 t = elim (Bool-cases (is_pending t.state)) [
  | inr e ↦ subst (Updated web3 t) (sym (update_left web3 t e)) (not_pending e)
  | inl e ↦
      subst (Updated web3 t) (sym (update_asked web3 t e))
        (connected-Updated web3 t web3.connection e refl)
]

-- One run of the scheduled update, over any table: a row that is not pending stays as it is, a pending
-- one whose node gives a receipt is completed with the receipt's gas and block, or failed if the
-- receipt's status is not 1, and one whose node raises or knows no receipt stays as it is. What one
-- row's node does changes no other row.
pub update_pending_transactions-EachUpdated :
    (web3_of : Transaction → Web3) (rows : List Transaction)
    → EachUpdated web3_of rows (update_pending_transactions web3_of rows)
unfolding update_pending_transactions
update_pending_transactions-EachUpdated web3_of [] = no_row
update_pending_transactions-EachUpdated web3_of (t ∷ rows) =
    row (update-Updated (web3_of t) t) (update_pending_transactions-EachUpdated web3_of rows)
