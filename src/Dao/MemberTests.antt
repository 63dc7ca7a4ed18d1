-- ===== src/Dao/MemberTests.antt =====
-- A member whose key is written, against a concrete vault and chain.
use agu_odoo.Base.{◌≡◌, sym, refl, true, none, some, String}
use agu_odoo.Python.{Result, ok, err, ok-inj, exception, other_error}
use agu_odoo.Chain.{same_address}
use agu_odoo.Dao.Tests.{test_chain, configs}
use agu_odoo.Dao.Member.{
  MemberVals, Site, Vault, Outside, remove_0x, decrypt_private_key, write, write_checked,
  encrypt_private_key, check_private_key,
}
use agu_odoo.Dao.MemberKeys.{VaultLaws, Owns, write_key-Owns}

abbrev unseal_text : String → Result String
unseal_text String.[] = err (exception other_error "invalid token")
unseal_text (String.◌∷◌ c s) = ok s

-- A sealed text has one more character.
abbrev test_vault : Vault
test_vault = record {
  generate_key = "fresh";
  seal = λ key text. ok (String.◌∷◌ "*" text);
  unseal = λ key text. unseal_text text;
}

test_vault_laws : VaultLaws test_vault
test_vault_laws = record {
  unseal_seal = λ key text c h. rw (sym (ok-inj h)) refl;
  sealed_set = λ key text c h. rw (sym (ok-inj h)) refl;
  generated_set = refl;
}

abbrev outside : Outside
outside = record {
  vault = test_vault;
  chain = test_chain;
  configs = configs;
  is_address = λ address. true;
}

abbrev private_key : String
private_key = "0x0123456789abcdef0123456789abcdef0123456789abcdef0123456789abcdef"

abbrev member_site : Site
member_site = record {
  member = record { eth_address = some "0xab"; eth_private_key = none };
  encryption_key = none;
}

abbrev key_vals : MemberVals
key_vals = record { eth_address = none; eth_private_key = some (some private_key) }

write_key-Owns_example :
    (decrypt_private_key test_vault (write outside key_vals member_site).1 ≡ ok private_key)
    × Owns outside test_vault_laws key_vals private_key member_site
        (write outside key_vals member_site).1.member
unfolding write write_checked encrypt_private_key check_private_key decrypt_private_key remove_0x
    same_address
write_key-Owns_example =
    write_key-Owns outside test_vault_laws key_vals private_key member_site refl refl refl

abbrev address_vals : MemberVals
address_vals = record { eth_address = some (some "0xcd"); eth_private_key = none }
