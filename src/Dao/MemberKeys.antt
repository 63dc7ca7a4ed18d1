-- ===== src/Dao/MemberKeys.antt =====
-- What a write of a member's private key guarantees, and what a write of the address does not.
use agu_odoo.Base.{
  ⊤, ◌≡◌, ◌∙◌, sym, refl, ap, true, Option, none, some, String, ◌==◌, length, is_some, Bool-cases,
  inl, inr,
}
use agu_odoo.Python.{Result-cases, Result, ok, err, ok-inj, bind-eq_ok_inv, if-eq_ok_inv}
use agu_odoo.Text.{codes, nonempty}
use agu_odoo.Odoo.{is_set, text_of}
use agu_odoo.Chain.{same_address}
use agu_odoo.Dao.{get_web3_connection}
use agu_odoo.Dao.Member.{
  Member, MemberVals, Site, Vault, Outside, remove_0x, get_encryption_key, encrypt_private_key,
  not_decrypted, decrypt_private_key, invalid_key_format, key_matches, check_private_key,
  check_eth_address, write_fields, check_written, write_checked, given_key, write,
}

-- What the package cryptography promises: a text that could be sealed is unsealed with the same key, and
-- neither a sealed text nor a generated key is empty.
pub record VaultLaws (vault : Vault) : Type 0 where
  pub unseal_seal :
      (key text c : String) → vault.seal key text ≡ ok c → vault.unseal key c ≡ ok text
  pub sealed_set : (key text c : String) → vault.seal key text ≡ ok c → nonempty c ≡ true
  pub generated_set : nonempty vault.generate_key ≡ true

invalid_key_format-ok : (r : Result ⊤) → invalid_key_format r ≡ ok tt → r ≡ ok tt
invalid_key_format-ok (ok u) h = refl
invalid_key_format-ok (err e) h = absurd (cc h)

module _ (o : Outside) (laws : VaultLaws o.vault) (v : MemberVals) (private_key : String)
    (s : Site) where
  -- The parameter that a first use has set serves the next one.
  key_again :
      (param : Option String)
      → (get_encryption_key o.vault (get_encryption_key o.vault param).1).0
        ≡ (get_encryption_key o.vault param).0
  key_again param = elim (Bool-cases (is_set param)) [
    | inl e ↦ rw e (rw e)
    | inr e ↦ rw (e, laws.generated_set)
  ]

  abbrev key : String
  key = (get_encryption_key o.vault s.encryption_key).0

  -- The address that the key derives is the member's.
  abbrev pub Owns : Member → Type 0
  Owns m =
      (address : String)
      → m.eth_address ≡ some address
      → nonempty address ≡ true
      → (derived : String) × (o.chain.from_key (remove_0x private_key) ≡ ok derived)
        × (same_address derived address ≡ true)

  matches-Owns :
      (address : String)
      → nonempty private_key ≡ true
      → key_matches o.chain address private_key ≡ ok tt
      → (derived : String) × (o.chain.from_key (remove_0x private_key) ≡ ok derived)
        × (same_address derived address ≡ true)
  matches-Owns address n h =
      let (derived, d, g) =
        bind-eq_ok_inv (o.chain.from_key (remove_0x private_key)) _ (rw n at h) in
      let (same, t) = if-eq_ok_inv (same_address derived address) _ _ g in (derived, d, same)

  module _ (sealed : String) (sealing : o.vault.seal key private_key ≡ ok sealed) where
    abbrev sealed_vals : MemberVals
    sealed_vals = record v { eth_private_key = some (some sealed) }

    abbrev before_check : Site
    before_check = record s { encryption_key = (get_encryption_key o.vault s.encryption_key).1 }

    abbrev stored : Site
    stored = record before_check { member = write_fields sealed_vals s.member }

    stored-decrypts : decrypt_private_key o.vault stored ≡ ok private_key
    unfolding decrypt_private_key
    stored-decrypts =
        ap (λ k. not_decrypted (o.vault.unseal k sealed)) (key_again s.encryption_key)
        ∙ ap not_decrypted (laws.unseal_seal key private_key sealed sealing)

    checked-Owns :
        nonempty private_key ≡ true → check_private_key o stored ≡ ok tt → Owns stored.member
    unfolding check_private_key
    checked-Owns n h address a set =
        let has_key : nonempty sealed ≡ true = laws.sealed_set key private_key sealed sealing in
        let has_address : is_set stored.member.eth_address ≡ true = rw a set in
        let (text, d, g) =
          bind-eq_ok_inv (decrypt_private_key o.vault stored)
            (key_matches o.chain (text_of stored.member.eth_address))
            (invalid_key_format-ok _ (rw (has_key, has_address) at h)) in
        let same : text ≡ private_key = ok-inj (sym d ∙ stored-decrypts) in
        matches-Owns address n (rw (same, a) at g)

    write_checked-Owns :
        nonempty private_key ≡ true
        → (write_checked o sealed_vals before_check).0 ≡ ok tt
        → (decrypt_private_key o.vault (write_checked o sealed_vals before_check).1
            ≡ ok private_key)
          × Owns (write_checked o sealed_vals before_check).1.member
    unfolding write_checked
    write_checked-Owns n h =
        let (u, addressed, checked) =
          bind-eq_ok_inv (check_written (is_some v.eth_address) (check_eth_address o stored.member))
            (λ u. check_private_key o stored) h in
        (stored-decrypts, checked-Owns n checked)

  -- If a write of a private key that is not empty returns, then the stored text decrypts to that
  -- key, and the address that the key derives is that of the member, if the member has one. The
  -- vault unseals what it could seal, and its texts and keys are not empty.
  pub write_key-Owns :
      v.eth_private_key ≡ some (some private_key)
      → nonempty private_key ≡ true
      → (write o v s).0 ≡ ok tt
      → (decrypt_private_key o.vault (write o v s).1 ≡ ok private_key) × Owns (write o v s).1.member
  unfolding write encrypt_private_key
  write_key-Owns k n h =
      let given : given_key v ≡ some private_key = rw k in
      elim (Bool-cases (length (codes (remove_0x private_key)) == 64)) [
        | inl e ↦ elim (Result-cases (o.vault.seal key private_key)) [
          | inl (x, q) ↦ let r = rw (given, n, e, q) at h in absurd (cc r)
          | inr (sealed, q) ↦
              rw (given, n, e, q) (write_checked-Owns sealed q n (rw (given, n, e, q) at h))
        ]
        | inr e ↦ let q = rw (given, n, e) at h in absurd (cc q)
      ]

-- If the node can be reached, a write of a valid address and no key returns, with the new address
-- beside the old private key: nothing compares them.
pub write_address_unchecked :
    (o : Outside) (v : MemberVals) (s : Site) (address : String)
    → v.eth_private_key ≡ none
    → v.eth_address ≡ some (some address)
    → get_web3_connection o.chain o.configs ≡ ok tt
    → o.is_address address ≡ true
    → write o v s ≡ (
      ok tt,
      record s {
        member = record { eth_address = some address; eth_private_key = s.member.eth_private_key };
      },
    )
unfolding write write_checked check_eth_address
write_address_unchecked o v s address k a connected valid = elim (Bool-cases (nonempty address)) [
  | inl e ↦ rw (k, a, e, connected, valid)
  | inr e ↦ rw (k, a, e)
]
