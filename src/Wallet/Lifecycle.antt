-- ===== src/Wallet/Lifecycle.antt =====
-- The states of a transaction over any sequence of requests.
use agu_odoo.Base.{
  ⊤, ℕ, ◌≡◌, refl, sym, subst, ap, inl, inr, true, ◌||◌, Option, none, some, String, is_some,
  Bool-cases, ◌==◌,
}
use agu_odoo.Python.{Result, ok, err, if-eq_ok_inv, ok-inj}
use agu_odoo.Odoo.{request}
use agu_odoo.Chain.{Receipt}
use agu_odoo.Wallet.{
  State, draft, pending, completed, failed, cancelled, Transaction, Web3, is_draft, is_pending,
  is_failed, action_send, action_cancel, action_retry, update_transaction, settle, receipt_of,
  write_receipt,
}
use agu_odoo.Wallet.Sending.{action_send-request}

-- What a state says of the hash and the error message: what was sent has a hash, and a failed transaction is one that
-- the chain has reverted.
abbrev pub Says : State → Option String → Option String → Type 0
Says draft hash message = hash ≡ none
Says pending hash message = is_some hash ≡ true
Says completed hash message = is_some hash ≡ true
Says failed hash message = (is_some hash ≡ true) × (message ≡ some "Transaction reverted on chain")
Says cancelled hash message = ⊤

abbrev pub IsConsistent : Transaction → Type 0
IsConsistent t = Says t.state t.transaction_hash t.error_message

-- A request to a method of the transaction, a run of the scheduled update, or a retry, which is
-- followed to the copy.
pub data Step (t : Transaction) : Transaction → Type 0 where
  send : (web3 : Web3) → Step t (request (action_send web3) t).1
  cancel : Step t (request action_cancel t).1
  update : (web3 : Web3) → Step t (update_transaction web3 t)
  retry : {u : Transaction} → action_retry t ≡ ok u → Step t u

pub data Reach (t : Transaction) : Transaction → Type 0 where
  here : Reach t t
  next : {u v : Transaction} → Reach t u → Step u v → Reach t v

send-IsConsistent :
    (web3 : Web3) (t : Transaction) → IsConsistent t → IsConsistent (request (action_send web3) t).1
send-IsConsistent web3 t c = elim (action_send-request web3 t) [
  | inl (sent, d, s, q) ↦ subst IsConsistent (sym (ap (λ x. x.1) q)) refl
  | inr (inl (e, d, s, q)) ↦ subst IsConsistent (sym (ap (λ x. x.1) q)) c
  | inr (inr (d, q)) ↦ subst IsConsistent (sym (ap (λ x. x.1) q)) c
]

cancel-IsConsistent : (t : Transaction) → IsConsistent t → IsConsistent (request action_cancel t).1
unfolding action_cancel
cancel-IsConsistent t c = elim (Bool-cases (is_draft t.state || is_failed t.state)) [
  | inl e ↦ rw e tt
  | inr e ↦ rw e c
]

pending_hash :
    (s : State) (hash message : Option String)
    → is_pending s ≡ true
    → Says s hash message
    → is_some hash ≡ true
pending_hash pending hash message e c = c
pending_hash draft hash message e c = absurd (cc e)
pending_hash completed hash message e c = absurd (cc e)
pending_hash failed hash message e c = absurd (cc e)
pending_hash cancelled hash message e c = absurd (cc e)

settle-IsConsistent :
    (web3 : Web3) (t : Transaction) (r : Result (Option Receipt))
    → IsConsistent t
    → is_some t.transaction_hash ≡ true
    → IsConsistent (settle web3 r t)
settle-IsConsistent web3 t (err e) c h = c
settle-IsConsistent web3 t (ok none) c h = c
settle-IsConsistent web3 t (ok (some receipt)) c h = elim (Bool-cases (receipt.status == 1)) [
  | inr e ↦ rw e (h, refl)
  | inl e ↦ rw e (counted web3.block_number)
]
  where
    counted :
        (b : Result ℕ)
        → IsConsistent (elim b [ ok latest ↦ write_receipt web3 receipt latest t | err e ↦ t ])
    counted (ok latest) = h
    counted (err e) = c

update-IsConsistent :
    (web3 : Web3) (t : Transaction) → IsConsistent t → IsConsistent (update_transaction web3 t)
unfolding update_transaction
update-IsConsistent web3 t c = elim (Bool-cases (is_pending t.state)) [
  | inl e ↦ rw e (
      settle-IsConsistent web3 t (receipt_of web3 t) c
        (pending_hash t.state t.transaction_hash t.error_message e c))
  | inr e ↦ rw e c
]

retry-IsConsistent : (t u : Transaction) → action_retry t ≡ ok u → IsConsistent u
unfolding action_retry
retry-IsConsistent t u h =
    let (f, q) = if-eq_ok_inv (is_failed t.state) _ _ h in subst IsConsistent (ok-inj q) refl

Step-IsConsistent : {t u : Transaction} → Step t u → IsConsistent t → IsConsistent u
Step-IsConsistent {t} (send web3) c = send-IsConsistent web3 t c
Step-IsConsistent {t} cancel c = cancel-IsConsistent t c
Step-IsConsistent {t} (update web3) c = update-IsConsistent web3 t c
Step-IsConsistent {t} {u} (retry h) c = retry-IsConsistent t u h

-- If in a transaction the hash and the error message fit its state, then so they do after every
-- sequence of requests, scheduled updates and retries: what is pending or completed has a hash, what
-- has failed has one too and the message that the chain has reverted it, and a draft has none.
pub Reach-IsConsistent : {t u : Transaction} → Reach t u → IsConsistent t → IsConsistent u
Reach-IsConsistent here c = c
Reach-IsConsistent (next r s) c = Step-IsConsistent s (Reach-IsConsistent r c)
