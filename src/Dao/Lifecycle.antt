-- ===== src/Dao/Lifecycle.antt =====
-- The states of a DAO transaction over any sequence of its operations.
use agu_odoo.Base.{
  ◌≡◌, ◌≢◌, refl, ◌⊎◌, inl, inr, true, Option, none, some, String, List, arith, Bool-cases, is_some,
  ◌&&◌, ◌||◌, ◌==◌,
}
use agu_odoo.Python.{Result, ok, err}
use agu_odoo.Odoo.{is_set, text_of}
use agu_odoo.Chain.{Chain, Receipt}
use agu_odoo.Dao.{
  Status, draft, pending, completed, failed, cancelled, Transaction, is_draft, is_pending,
  is_failed, Config, send_signed, finish_submit, submit_transaction_with_key,
}
use agu_odoo.Dao.Pending.{write_receipt, apply_receipt, update_pending}
use agu_odoo.Dao.Drafts.{action_draft, action_cancel}

-- One operation that returned, while the chain is the given one.
pub data Step (chain : Chain) : Transaction → Transaction → Type 0 where
  submit :
      (configs : List Config) (t : Transaction)
      → (submit_transaction_with_key chain configs t).0 ≡ ok tt
      → Step chain t (submit_transaction_with_key chain configs t).1
  reset : (t : Transaction) → (action_draft t).0 ≡ ok tt → Step chain t (action_draft t).1
  cancel : (t : Transaction) → (action_cancel t).0 ≡ ok tt → Step chain t (action_cancel t).1
  update : (t : Transaction) → Step chain t (update_pending chain t)

-- The chain may differ from step to step.
pub data Reach (s : Transaction) : Transaction → Type 0 where
  here : Reach s s
  next : {t u : Transaction} → Reach s t → (chain : Chain) → Step chain t u → Reach s u

-- A transaction that is pending or completed has the hash of what was sent.
abbrev pub HasHashIn : Status → Option String → Type 0
HasHashIn pending hash = is_some hash ≡ true
HasHashIn completed hash = is_some hash ≡ true
HasHashIn draft hash = Unit
HasHashIn failed hash = Unit
HasHashIn cancelled hash = Unit

abbrev pub HasHash : Transaction → Type 0
HasHash t = HasHashIn t.status t.transaction_hash

finish_submit-HasHash : (t : Transaction) (r : Result String) → HasHash (finish_submit t r).1
finish_submit-HasHash t (ok hash) = refl
finish_submit-HasHash t (err e) = tt

submit-HasHash :
    (chain : Chain) (configs : List Config) (t : Transaction)
    → HasHash t
    → HasHash (submit_transaction_with_key chain configs t).1
unfolding submit_transaction_with_key
submit-HasHash chain configs t h = elim (Bool-cases (is_draft t.status)) [
  | inl d ↦ rw d (finish_submit-HasHash t (send_signed chain configs t))
  | inr d ↦ rw d h
]

action_cancel-HasHash : (t : Transaction) → HasHash t → HasHash (action_cancel t).1
unfolding action_cancel
action_cancel-HasHash t h = elim (Bool-cases (is_draft t.status || is_failed t.status)) [
  | inl d ↦ rw d tt
  | inr d ↦ rw d h
]

write_receipt-HasHash :
    (t : Transaction) (r : Receipt)
    → is_some t.transaction_hash ≡ true
    → HasHash (write_receipt t r)
write_receipt-HasHash t r h = elim (Bool-cases (r.status == 1)) [ inl e ↦ rw e h | inr e ↦ rw e tt ]

apply_receipt-HasHash :
    (t : Transaction) (r : Result (Option Receipt))
    → HasHash t
    → is_some t.transaction_hash ≡ true
    → HasHash (apply_receipt t r)
apply_receipt-HasHash t (err e) h s = h
apply_receipt-HasHash t (ok none) h s = h
apply_receipt-HasHash t (ok (some r)) h s = write_receipt-HasHash t r s

is_set-is_some : (o : Option String) → is_set o ≡ true → is_some o ≡ true
is_set-is_some none h = h
is_set-is_some (some s) h = refl

update_pending-HasHash :
    (chain : Chain) (t : Transaction) → HasHash t → HasHash (update_pending chain t)
unfolding update_pending
update_pending-HasHash chain t h =
    elim (Bool-cases (is_pending t.status && is_set t.transaction_hash)) [
      | inl e ↦ rw e (
          apply_receipt-HasHash t (chain.get_transaction_receipt (text_of t.transaction_hash)) h
            (is_set-is_some t.transaction_hash (ground (arith, e))))
      | inr e ↦ rw e h
    ]

Step-HasHash : (chain : Chain) {t u : Transaction} → Step chain t u → HasHash t → HasHash u
unfolding action_draft
Step-HasHash chain (submit configs t r) h = submit-HasHash chain configs t h
Step-HasHash chain (reset t r) h = tt
Step-HasHash chain (cancel t r) h = action_cancel-HasHash t h
Step-HasHash chain (update t) h = update_pending-HasHash chain t h

-- If a transaction has a hash where it is pending or completed, then so it has after any sequence
-- of operations.
pub Reach-HasHash : {s t : Transaction} → HasHash s → Reach s t → HasHash t
Reach-HasHash h here = h
Reach-HasHash h (next r chain s) = Step-HasHash chain s (Reach-HasHash h r)

-- The transaction is pending, and this chain has a receipt with status 1 for its hash.
abbrev pub Confirmed : Chain → Transaction → Type 0
Confirmed chain t =
    (r : Receipt) × (t.status ≡ pending)
    × (chain.get_transaction_receipt (text_of t.transaction_hash) ≡ ok (some r))
    × ((r.status == 1) ≡ true)

status_pending : (s : Status) → is_pending s ≡ true → s ≡ pending
status_pending pending h = refl
status_pending draft h = absurd (ground arith)
status_pending completed h = absurd (ground arith)
status_pending failed h = absurd (ground arith)
status_pending cancelled h = absurd (ground arith)

finish_submit-not_completed :
    (t : Transaction) (r : Result String) → (finish_submit t r).1.status ≢ completed
finish_submit-not_completed t (ok hash) = λ h. cc h
finish_submit-not_completed t (err e) = λ h. cc h

submit-completed :
    (chain : Chain) (configs : List Config) (t : Transaction)
    → (submit_transaction_with_key chain configs t).1.status ≡ completed
    → t.status ≡ completed
unfolding submit_transaction_with_key
submit-completed chain configs t h = elim (Bool-cases (is_draft t.status)) [
  | inl d ↦ absurd (finish_submit-not_completed t (send_signed chain configs t) (rw d at h))
  | inr d ↦ rw d at h
]

action_cancel-completed :
    (t : Transaction) → (action_cancel t).1.status ≡ completed → t.status ≡ completed
unfolding action_cancel
action_cancel-completed t h = elim (Bool-cases (is_draft t.status || is_failed t.status)) [
  | inl d ↦ let q : cancelled ≡ completed = rw d at h in absurd (cc q)
  | inr d ↦ rw d at h
]

apply_receipt-completed :
    (chain : Chain) (t : Transaction) (o : Result (Option Receipt))
    → t.status ≡ pending
    → chain.get_transaction_receipt (text_of t.transaction_hash) ≡ o
    → (apply_receipt t o).status ≡ completed
    → Confirmed chain t
apply_receipt-completed chain t (err e) p q h = absurd (cc (p, h))
apply_receipt-completed chain t (ok none) p q h = absurd (cc (p, h))
apply_receipt-completed chain t (ok (some r)) p q h = elim (Bool-cases (r.status == 1)) [
  | inl e ↦ (r, p, q, e)
  | inr e ↦ let f : failed ≡ completed = rw e at h in absurd (cc f)
]

update_pending-completed :
    (chain : Chain) (t : Transaction)
    → (update_pending chain t).status ≡ completed
    → (t.status ≡ completed) ⊎ Confirmed chain t
unfolding update_pending
update_pending-completed chain t h =
    elim (Bool-cases (is_pending t.status && is_set t.transaction_hash)) [
      | inl e ↦ inr (
          apply_receipt-completed chain t
            (chain.get_transaction_receipt (text_of t.transaction_hash))
            (status_pending t.status (ground (arith, e))) refl (rw e at h))
      | inr e ↦ inl (rw e at h)
    ]

-- A transaction that an operation leaves completed was completed before, or it was pending and the
-- chain of that operation had a receipt with status 1 for its hash.
pub Step-completed :
    (chain : Chain) {t u : Transaction}
    → Step chain t u
    → u.status ≡ completed
    → (t.status ≡ completed) ⊎ Confirmed chain t
unfolding action_draft
Step-completed chain (submit configs t r) h = inl (submit-completed chain configs t h)
Step-completed chain (reset t r) h = absurd (let q : draft ≡ completed = h in cc q)
Step-completed chain (cancel t r) h = inl (action_cancel-completed t h)
Step-completed chain (update t) h = update_pending-completed chain t h
