-- ===== src/Dao/Submit.antt =====
-- What the submission of a DAO transaction does on each of its paths.
use agu_odoo.Base.{
  ⊤, ℕ, ◌+◌, ◌*◌, ◌≡◌, refl, ◌⊎◌, inl, inr, true, false, none, some, String, List, ◌≤◌, ◌<◌, arith,
  Bool-cases, ltb, ◌&&◌, ◌==◌, sym, subst,
}
use agu_odoo.Python.{
  Error, Result, ok, err, bind, bind-eq_ok_inv, if-eq_ok_inv, if-eq_ok_inv_else, exception,
  attribute_error, user_error,
}
use agu_odoo.Odoo.{request, rollback, text_of, is_set}
use agu_odoo.Chain.{Chain, TxParams, same_address}
use agu_odoo.Dao.{
  pending, Transaction, SigningMethod, private_key_method, wallet_file_method, is_draft, Config,
  compute_total_amount, get_web3_connection, tx_params, sign_by, sign_as_sender, send_signed,
  finish_submit, submit_transaction_with_key, submit_transaction, finish_member_submit, rewrap,
  compute_estimated_fee,
}

module _ (chain : Chain) (configs : List Config) (t : Transaction) where
  -- Without a gas limit nothing is said; with one, the transaction that is signed costs at most the
  -- stored balance.
  abbrev pub IsAffordable : ℕ → Type 0
  IsAffordable nonce =
      let params = tx_params t nonce in
      (t.gas_limit ≡ 0) ⊎ (params.value + params.gas * params.gas_price ≤ t.eth_balance)

  -- The raw transaction that was sent is the transaction's, signed by a key of its sender.
  pub record SignedBySender (hash : String) : Type 0 where
    pub nonce : ℕ
    pub key : String
    pub address : String
    pub raw : String
    pub counted : chain.get_transaction_count t.from_address ≡ ok nonce
    pub derived : chain.from_key key ≡ ok address
    pub owned : same_address address t.from_address ≡ true
    pub signed : chain.sign_transaction (tx_params t nonce) key ≡ ok raw
    pub sent : chain.send_raw_transaction raw ≡ ok hash
    pub affordable : IsAffordable nonce

  sign_as_sender-ok :
      (params : TxParams) (k mismatch : String) {raw : String}
      → sign_as_sender chain t params k mismatch ≡ ok raw
      → (address : String) × (chain.from_key k ≡ ok address)
        × (same_address address t.from_address ≡ true)
        × (chain.sign_transaction params k ≡ ok raw)
  sign_as_sender-ok params k mismatch h =
      let (address, d, s) = bind-eq_ok_inv (chain.from_key k) _ h in
      let (o, g) = if-eq_ok_inv (same_address address t.from_address) _ _ s in (address, d, o, g)

  rewrap-ok :
      (prefix : String) (r : Result String) {raw : String} → rewrap prefix r ≡ ok raw → r ≡ ok raw
  rewrap-ok prefix (ok a) h = h
  rewrap-ok prefix (err e) h = absurd (cc h)

  sign_by-ok :
      (params : TxParams) (m : SigningMethod) {raw : String}
      → sign_by chain t params m ≡ ok raw
      → (k : String) × (mismatch : String) × (sign_as_sender chain t params k mismatch ≡ ok raw)
  sign_by-ok params private_key_method h =
      let (s, r) = if-eq_ok_inv (is_set t.private_key) _ _ h in
      (text_of t.private_key, _, rewrap-ok _ _ r)
  sign_by-ok params wallet_file_method h =
      let (s, r) = if-eq_ok_inv (is_set t.wallet_file && is_set t.wallet_password) _ _ h in
      let (key, d, g) =
        bind-eq_ok_inv (chain.decrypt (text_of t.wallet_file) (text_of t.wallet_password)) _
          (rewrap-ok _ _ r) in
      (key, _, g)

  -- The fee of a transaction with a gas limit is part of the total.
  total-cost : (nonce : ℕ) → compute_total_amount t ≤ t.eth_balance → IsAffordable nonce
  unfolding compute_total_amount compute_estimated_fee
  total-cost nonce h = elim (Bool-cases (t.gas_limit == 0)) [
    | inl z ↦ inl (ground (arith, z))
    | inr n ↦ inr ground (arith, n, h)
  ]

  -- If a hash comes back, then the node was connected, the total amount of the transaction is not
  -- above the stored balance, and what was sent is the transaction, at the nonce of its sender,
  -- signed with a key whose address is the sender's. If it has a gas limit, then what was sent
  -- costs at most the balance, with all of its gas.
  pub send_signed_sound :
      (hash : String)
      → send_signed chain configs t ≡ ok hash
      → (get_web3_connection chain configs ≡ ok tt)
        × (compute_total_amount t ≤ t.eth_balance)
        × SignedBySender hash
  unfolding send_signed
  send_signed_sound hash h =
      let (_, connected, h₁) = bind-eq_ok_inv (get_web3_connection chain configs) _ h in
      let (covered, h₂) = if-eq_ok_inv_else (ltb t.eth_balance (compute_total_amount t)) _ _ h₁ in
      let (nonce, counted, h₃) = bind-eq_ok_inv (chain.get_transaction_count t.from_address) _ h₂ in
      let (raw, by, sent) =
        bind-eq_ok_inv (sign_by chain t (tx_params t nonce) t.transaction_type) _ h₃ in
      let (key, mismatch, as_sender) = sign_by-ok (tx_params t nonce) t.transaction_type by in
      let (address, derived, owned, signed) =
        sign_as_sender-ok (tx_params t nonce) key mismatch as_sender in
      let enough : compute_total_amount t ≤ t.eth_balance = ground (arith, covered) in
      (
        connected,
        enough,
        record {
          nonce = nonce;
          key = key;
          address = address;
          raw = raw;
          counted = counted;
          derived = derived;
          owned = owned;
          signed = signed;
          sent = sent;
          affordable = total-cost nonce enough;
        },
      )

  -- The request has sent the transaction: it is pending under its hash, without its secrets.
  abbrev pub IsSent : Result ⊤ × Transaction → Type 0
  IsSent x =
      (hash : String) × (is_draft t.status ≡ true)
      × (send_signed chain configs t ≡ ok hash)
      × (x ≡ (
        ok tt,
        record t {
          transaction_hash = some hash;
          status = pending;
          private_key = none;
          wallet_file = none;
          wallet_password = none;
        },
      ))

  -- The request raised a user error and changed nothing: the transaction was no draft, or could not
  -- be sent.
  abbrev pub IsRefused : Result ⊤ × Transaction → Type 0
  IsRefused x =
      (e : Error) × (e.class ≡ user_error)
      × (x ≡ (err e, t))
      × ((is_draft t.status ≡ false)
          ⊎ ((cause : Error) × (send_signed chain configs t ≡ err cause)))

  request_draft :
      is_draft t.status ≡ true
      → request (submit_transaction_with_key chain configs) t
        ≡ rollback t (finish_submit t (send_signed chain configs t))
  unfolding submit_transaction_with_key
  request_draft d = rw d refl

  request_no_draft :
      is_draft t.status ≡ false
      → request (submit_transaction_with_key chain configs) t
        ≡ (err (exception user_error "Only draft transactions can be submitted"), t)
  unfolding submit_transaction_with_key
  request_no_draft d = rw d refl

  request-IsSent :
      (r : Result String)
      → is_draft t.status ≡ true
      → send_signed chain configs t ≡ r
      → IsSent (rollback t (finish_submit t r)) ⊎ IsRefused (rollback t (finish_submit t r))
  request-IsSent (ok hash) d q = inl (hash, d, q, refl)
  request-IsSent (err e) d q = inr (_, refl, refl, inr (e, q))

  -- The request that submits has sent a draft, which is then pending under the hash and without its
  -- secrets; or it raises a user error, the transaction being no draft or not having been sent, and
  -- leaves the transaction as it was: the failed status, the message and the clearing of the secrets
  -- are rolled back.
  pub submit_request_rollback :
      IsSent (request (submit_transaction_with_key chain configs) t)
      ⊎ IsRefused (request (submit_transaction_with_key chain configs) t)
  submit_request_rollback = elim (Bool-cases (is_draft t.status)) [
    | inl d ↦
        subst (λ x. IsSent x ⊎ IsRefused x) (sym (request_draft d))
          (request-IsSent (send_signed chain configs t) d refl)
    | inr d ↦ inr (_, refl, request_no_draft d, inl d)
  ]

  member_raises :
      (r : Result ⊤)
      → let x = finish_member_submit t (
          bind r
            λ _. err (exception attribute_error "'str' object has no attribute 'eth_address'")) in
        (e : Error) × (x.0 ≡ err e) × (rollback t x ≡ (err e, t))
  member_raises (ok u) = (_, refl, refl)
  member_raises (err e) = (_, refl, refl)

  -- The other way to submit never succeeds, and its request leaves the transaction as it was.
  pub submit_transaction_raises :
      (e : Error) × ((submit_transaction chain configs t).0 ≡ err e)
      × (request (submit_transaction chain configs) t ≡ (err e, t))
  unfolding submit_transaction
  submit_transaction_raises = elim (Bool-cases (is_draft t.status)) [
    | inr d ↦ rw d (_, refl, refl)
    | inl d ↦ rw d (elim (Bool-cases (ltb t.eth_balance (compute_total_amount t))) [
      | inl short ↦ rw short (_, refl, refl)
      | inr enough ↦ rw enough (member_raises (get_web3_connection chain configs))
    ])
  ]

  -- With no gas limit and a gas price, the total holds no fee, and yet the transaction that is
  -- signed may use 21000 gas: it can cost more than the total that the balance was checked
  -- against.
  pub gas_default_not_counted :
      t.gas_limit ≡ 0
      → 0 < t.gas_price
      → (nonce : ℕ)
      → let params = tx_params t nonce in
        compute_total_amount t < params.value + params.gas * params.gas_price
  unfolding compute_total_amount
  gas_default_not_counted h p nonce = ground (arith, h)
