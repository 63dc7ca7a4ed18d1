-- ===== src/Wallet/Fees.antt =====
-- The bounds of the gas prices.
use agu_odoo.Base.{◌*◌, ◌+◌, ◌/◌, ◌≤◌, ◌<◌, ◌≡◌, ◌↔◌, ap, arith}
use agu_odoo.Python.{ok, if-eq_ok_inv, ok-inj}
use agu_odoo.Wallet.{Transaction, is_failed, action_retry, raised_price}

-- A retry of a failed transaction offers at least its gas price and at most a tenth more, rounded up,
-- and it offers more exactly if the price is 0.05 Gwei or higher.
pub action_retry_price :
    (t u : Transaction)
    → action_retry t ≡ ok u
    → (t.gas_price ≤ u.gas_price)
      × (10 * u.gas_price ≤ 11 * t.gas_price + 5)
      × ((t.gas_price < u.gas_price) ↔ (5 ≤ t.gas_price))
unfolding action_retry raised_price
action_retry_price t u h =
    let (f, q) = if-eq_ok_inv (is_failed t.state) _ _ h in
    let price : (11 * t.gas_price + 5) / 10 ≡ u.gas_price =
      ap (λ (x : Transaction). x.gas_price) (ok-inj q) in
    (omega arith, omega arith, ((λ k. omega arith), (λ k. omega arith)))
