-- ===== src/Dao/Settling.antt =====
-- What the update of pending transactions, the retry and the reset of a DAO transaction come to.
use agu_odoo.Base.{ℕ, ◌*◌, ◌≡◌, refl, ap, sym, subst, true, none, some, String, List, ◌≤◌, arith}
use agu_odoo.Python.{ok, ok-inj, if-eq_ok_inv}
use agu_odoo.Chain.{Chain}
use agu_odoo.Dao.{
  Transaction, Status, draft, pending, completed, failed, is_failed, Config, compute_estimated_fee,
  compute_total_amount, send_signed, submit_transaction_with_key, finish_submit,
}
use agu_odoo.Dao.Drafts.{action_draft, check_balance}
use agu_odoo.Dao.Pending.{retry_failed_transaction}
use agu_odoo.Dao.Lifecycle.{Reach, Step}

product_monotone : (a b c : ℕ) → b ≤ c → a * b ≤ a * c
product_monotone a b c h = grind arith

-- A retry that returns is of a failed transaction, and gives a draft without a hash, of the same
-- value, at no lower gas price.
pub retry_failed_transaction_draft :
    (t u : Transaction)
    → retry_failed_transaction t ≡ ok u
    → (t.status ≡ failed)
      × (u.status ≡ draft)
      × (u.transaction_hash ≡ none)
      × (u.value ≡ t.value)
      × (t.gas_price ≤ u.gas_price)
unfolding retry_failed_transaction
retry_failed_transaction_draft t u h =
    let (f, q) = if-eq_ok_inv (is_failed t.status) _ _ h in
    let same = ok-inj q in
    (
      status_failed t.status f,
      sym (ap (λ (x : Transaction). x.status) same),
      sym (ap (λ (x : Transaction). x.transaction_hash) same),
      sym (ap (λ (x : Transaction). x.value) same),
      subst (λ (x : Transaction). t.gas_price ≤ x.gas_price) same (omega arith),
    )
  where
    status_failed : (s : Status) → is_failed s ≡ true → s ≡ failed
    status_failed failed g = refl
    status_failed draft g = absurd (ground (arith, g))
    status_failed pending g = absurd (ground (arith, g))
    status_failed completed g = absurd (ground (arith, g))
    status_failed Status.cancelled g = absurd (ground (arith, g))

-- A completed transaction can be reset and sent a second time, if its balance covers the total and
-- the sending succeeds: it is then pending under the new hash.
pub completed_sent_again :
    (chain : Chain) (configs : List Config) (t : Transaction) (hash : String)
    → t.status ≡ completed
    → compute_total_amount t ≤ t.eth_balance
    → send_signed chain configs (record t { status = draft }) ≡ ok hash
    → (u : Transaction) × Reach t u × (u.status ≡ pending) × (u.transaction_hash ≡ some hash)
unfolding action_draft check_balance submit_transaction_with_key compute_total_amount
    compute_estimated_fee
completed_sent_again chain configs t hash was covered sent =
    let d : Transaction = record t { status = draft } in
    let fits : (action_draft t).0 ≡ ok tt = ground (arith, covered) in
    let again : submit_transaction_with_key chain configs d ≡ finish_submit d (ok hash) = rw sent in
    (
      (submit_transaction_with_key chain configs d).1,
      Reach.next (Reach.next Reach.here chain (Step.reset t fits)) chain
          (Step.submit configs d (ap (λ x. x.0) again)),
      ap (λ x. x.1.status) again,
      ap (λ x. x.1.transaction_hash) again,
    )
