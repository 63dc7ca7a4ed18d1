-- ===== src/Wallet/Keys.antt =====
-- The key of a wallet: what the creation of one leaves, and which ways to get one never return.
use agu_odoo.Base.{◌≡◌, refl, inl, inr, true, false, some, String, Bool-cases}
use agu_odoo.Python.{Error, Result, ok, err, Exec, lift, ◌>>=◌, is_ok}
use agu_odoo.Text.{nonempty}
use agu_odoo.Odoo.{request, is_set}
use agu_odoo.Wallet.Users.{
  Account, Crypto, Site, encrypt_private_key, write, write_account, store_account, failed_with,
  create_web3_wallet, import_wallet, get_wallet_private_key, without_prefix,
}
use agu_odoo.Wallet.Raising.{Raises, bind-Raises, catch-Raises, request_undone}

module _ (crypto : Crypto) where
  abbrev imported : String → Account → Exec Site Account
  imported private_key account =
      store_account crypto "encrypted_private_key"
        (record account { key = without_prefix private_key })

  store_account-Raises :
      (account : Account) → Raises (store_account crypto "encrypted_private_key" account)
  unfolding write
  store_account-Raises account =
      bind-Raises (encrypt_private_key crypto account.key)
        (write_account crypto "encrypted_private_key" account) (λ encrypted s. refl)

  create-Raises : Raises (create_web3_wallet crypto)
  unfolding create_web3_wallet
  create-Raises s = elim (Bool-cases (is_set s.eth_address)) [
    | inl e ↦ rw e refl
    | inr e ↦ rw e (
        catch-Raises (lift crypto.create_account >>= store_account crypto "encrypted_private_key")
          (failed_with "Failed to create wallet: ")
          (bind-Raises (lift crypto.create_account) (store_account crypto "encrypted_private_key")
            store_account-Raises)
          (λ x s'. refl) s)
  ]

  import-Raises : (private_key : String) → Raises (import_wallet crypto private_key)
  unfolding import_wallet
  import-Raises private_key s = elim (Bool-cases (is_set s.eth_address)) [
    | inl e ↦ rw e refl
    | inr e ↦ rw e (
        catch-Raises (lift (crypto.from_key (without_prefix private_key)) >>= imported private_key)
          (failed_with "Failed to import wallet: ")
          (bind-Raises (lift (crypto.from_key (without_prefix private_key))) (imported private_key)
            (λ account. store_account-Raises (record account { key = without_prefix private_key })))
          (λ x s'. refl) s)
  ]

  -- The two methods that write the key under `encrypted_private_key`, which is no field of the user,
  -- never return, and a request to one of them leaves the user and the parameters as they were.
  pub create_and_import_raise :
      (private_key : String) (s : Site)
      → ((is_ok (request (create_web3_wallet crypto) s).0 ≡ false)
          × ((request (create_web3_wallet crypto) s).1 ≡ s))
        × ((is_ok (request (import_wallet crypto private_key) s).0 ≡ false)
            × ((request (import_wallet crypto private_key) s).1 ≡ s))
  create_and_import_raise private_key s = (
    request_undone (create_web3_wallet crypto) s (create-Raises s),
    request_undone (import_wallet crypto private_key) s (import-Raises private_key s),
  )

-- Whenever the encryption under a key returns, its text is not empty and the decryption under that key
-- gives back what was encrypted. A key may be refused.
abbrev pub IsCipher : Crypto → Type 0
IsCipher crypto =
    (key m c : String)
    → crypto.encrypt key m ≡ ok c
    → (nonempty c ≡ true) × (crypto.decrypt key c ≡ ok m)

module _ (crypto : Crypto) where
  -- The new account has become the wallet of the user, and its key is the one that is read.
  abbrev pub HasWallet : Account → Result Account × Site → Type 0
  HasWallet account (result, after) =
      (result ≡ ok account)
      × (after.eth_address ≡ some account.address)
      × ((get_wallet_private_key crypto after).0 ≡ ok (some account.key))

  -- The request raised and changed nothing, since the encryption has refused its key.
  abbrev pub EncryptionRefused : Account → Site → Result Account × Site → Type 0
  EncryptionRefused account s x =
      ((e : Error) × (x ≡ (err e, s)))
      × ((key : String) × (cause : Error) × (crypto.encrypt key account.key ≡ err cause))
