-- ===== src/Wallet/Sending.antt =====
-- What `action_send` does, and what its request leaves of the transaction.
use agu_odoo.Base.{
  [], ◌∷◌, ℕ, ◌+◌, ◌*◌, ◌≤◌, ◌≡◌, refl, subst, ◌⊎◌, inl, inr, true, false, Option, none, some,
  String, ltb, arith, Bool-cases,
}
use agu_odoo.Python.{
  Error, ok, err, exception, user_error, bind-eq_ok_inv, if-eq_ok_inv, if-eq_ok_inv_else, ok-inj,
  Result-cases,
}
use agu_odoo.Text.{concat}
use agu_odoo.Odoo.{request, is_set, text_of}
use agu_odoo.Wallet.{
  Transaction, Web3, SentTransaction, is_draft, total_cost, tx_params, signed_with, covered,
  sign_and_send, finish_send, action_send,
}

-- What was sent was covered by the balance, and was signed with the key of the user under the next
-- nonce of the sender.
abbrev pub IsSound : Web3 → Transaction → SentTransaction → Type 0
IsSound web3 t sent =
    ((balance : ℕ) × (web3.get_balance t.from_address ≡ ok balance)
      × (sent.params.value + sent.params.gas * sent.params.gas_price ≤ balance))
    × (web3.get_transaction_count t.from_address ≡ ok sent.params.nonce)
    × ((key : String) × (web3.private_key ≡ some key)
        × (web3.sign_transaction sent.params key ≡ ok sent.signed))
    × (web3.send_raw_transaction sent.signed ≡ ok sent.hash)

set_key : (o : Option String) → is_set o ≡ true → o ≡ some (text_of o)
set_key none h = absurd (cc h)
set_key (some s) h = refl

sign_and_send-IsSound :
    (web3 : Web3) (t : Transaction) (sent : SentTransaction)
    → sign_and_send web3 t ≡ ok sent
    → IsSound web3 t sent
unfolding sign_and_send total_cost
sign_and_send-IsSound web3 t sent h =
    let (_, _, h₁) = bind-eq_ok_inv web3.connection _ h in
    let (balance, b, h₂) = bind-eq_ok_inv (web3.get_balance t.from_address) (covered web3 t) h₁ in
    let (enough, h₃) = if-eq_ok_inv_else (ltb balance (total_cost t)) _ _ h₂ in
    let (nonce, n, h₄) =
      bind-eq_ok_inv (web3.get_transaction_count t.from_address) (signed_with web3 t) h₃ in
    let (keyed, h₅) = if-eq_ok_inv (is_set web3.private_key) _ _ h₄ in
    let (signed, s, h₆) =
      bind-eq_ok_inv (web3.sign_transaction (tx_params t nonce) (text_of web3.private_key)) _ h₅ in
    let (hash, p, h₇) = bind-eq_ok_inv (web3.send_raw_transaction signed) _ h₆ in
    subst (IsSound web3 t) (ok-inj h₇) (
      (balance, b, ground (arith, enough)),
      n,
      (text_of web3.private_key, set_key web3.private_key keyed, s),
      p,
    )

-- The transaction after it was sent
abbrev pub sent_off : Web3 → SentTransaction → Transaction → Transaction
sent_off web3 sent t = (finish_send web3 (ok sent) t).1

-- The request that sends a draft ends in one of two ways. It returns true: what was sent was covered
-- by the balance and signed with the key of the user under the next nonce, and the transaction is
-- pending under the hash that the network gave. Or it raises a UserError with the cause, and the
-- transaction is as it was, a draft: the state `failed` that the handler writes is rolled back. A
-- transaction that is no draft is refused.
pub action_send-request :
    (web3 : Web3) (t : Transaction)
    → ((sent : SentTransaction) × (is_draft t.state ≡ true)
        × IsSound web3 t sent
        × (request (action_send web3) t ≡ (ok true, sent_off web3 sent t)))
      ⊎ ((e : Error) × (is_draft t.state ≡ true)
          × (sign_and_send web3 t ≡ err e)
          × (request (action_send web3) t
              ≡ (err (exception user_error (concat ("Transaction failed: " ∷ e.text ∷ []))), t)))
      ⊎ ((is_draft t.state ≡ false)
          × (request (action_send web3) t
              ≡ (err (exception user_error "Only draft transactions can be sent"), t)))
unfolding action_send
action_send-request web3 t = elim (Bool-cases (is_draft t.state)) [
  | inr e ↦ inr (inr (e, rw e refl))
  | inl e ↦ elim (Result-cases (sign_and_send web3 t)) [
    | inl (x, r) ↦ inr (inl (x, e, r, rw (e, r) refl))
    | inr (sent, r) ↦ inl (sent, e, sign_and_send-IsSound web3 t sent r, rw (e, r) refl)
  ]
]
