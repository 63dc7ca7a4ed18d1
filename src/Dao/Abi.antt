-- ===== src/Dao/Abi.antt =====
-- Which texts the check of the contract's ABI accepts, and what the users of the contract rely on.
use agu_odoo.Base.{⊤, ◌≡◌, ◌↔◌, refl, true, String, is_some, arith, Bool-cases, inl, inr}
use agu_odoo.Python.{
  Error, Result, ok, err, bind, ErrorClass, user_error, validation_error, value_error,
  attribute_error, name_error, key_error, index_error, type_error, zero_division_error,
  json_decode_error, access_denied, other_error, bind-eq_ok_inv,
}
use agu_odoo.Json.{
  Json, null, bool, num, str, arr, obj, Items, nil, cons, Doc, json, plain, loads, get?,
}
use agu_odoo.Dao.Contract.{
  check_entry, check_entries, check_abi, abi_error, abi_handled, check_contract_abi,
}
use agu_odoo.Dao.Network.{compute_network_info, get_network_currency, get_explorer_url}

-- Every entry is an object with a `type`.
abbrev pub IsEntry : Json → Type 0
IsEntry (obj fs) = is_some (get? "type" fs) ≡ true
IsEntry null = ⊥
IsEntry (bool b) = ⊥
IsEntry (num n) = ⊥
IsEntry (str s) = ⊥
IsEntry (arr xs) = ⊥

abbrev pub AreEntries : Items → Type 0
AreEntries nil = ⊤
AreEntries (cons j xs) = IsEntry j × AreEntries xs

abbrev pub IsAbi : Doc → Type 0
IsAbi (json (arr xs)) = AreEntries xs
IsAbi (json null) = ⊥
IsAbi (json (bool b)) = ⊥
IsAbi (json (num n)) = ⊥
IsAbi (json (str s)) = ⊥
IsAbi (json (obj fs)) = ⊥
IsAbi (plain s) = ⊥

check_entry_iff : (j : Json) → (check_entry j ≡ ok tt) ↔ IsEntry j
check_entry_iff (obj fs) = elim (Bool-cases (is_some (get? "type" fs))) [
  | inl e ↦ ((λ h. e), (λ h. rw e refl))
  | inr e ↦ ((λ h. ground (arith, e, h)), (λ h. ground (arith, e, h)))
]
check_entry_iff null = ((λ h. cc h), (λ h. elim h [ ]))
check_entry_iff (bool b) = ((λ h. cc h), (λ h. elim h [ ]))
check_entry_iff (num n) = ((λ h. cc h), (λ h. elim h [ ]))
check_entry_iff (str s) = ((λ h. cc h), (λ h. elim h [ ]))
check_entry_iff (arr xs) = ((λ h. cc h), (λ h. elim h [ ]))

check_entries_sound : (xs : Items) → check_entries xs ≡ ok tt → AreEntries xs
check_entries_sound nil h = tt
check_entries_sound (cons j xs) h =
    let (u, e, r) = bind-eq_ok_inv (check_entry j) (λ _. check_entries xs) h in
    ((check_entry_iff j).0 e, check_entries_sound xs r)

check_entries_complete : (xs : Items) → AreEntries xs → check_entries xs ≡ ok tt
check_entries_complete nil h = refl
check_entries_complete (cons j xs) h =
    rw ((check_entry_iff j).1 h.0) (check_entries_complete xs h.1)

handled-eq_ok : (r : Result ⊤) → abi_handled r ≡ ok tt → r ≡ ok tt
handled-eq_ok (ok u) h = refl
handled-eq_ok (err e) h = absurd (cc h)

abi_error-class : (c : ErrorClass) (e : Error) → (abi_error c e).class ≡ validation_error
abi_error-class json_decode_error e = refl
abi_error-class user_error e = refl
abi_error-class validation_error e = refl
abi_error-class value_error e = refl
abi_error-class attribute_error e = refl
abi_error-class name_error e = refl
abi_error-class key_error e = refl
abi_error-class index_error e = refl
abi_error-class type_error e = refl
abi_error-class zero_division_error e = refl
abi_error-class access_denied e = refl
abi_error-class other_error e = refl

handled-class : (r : Result ⊤) (e : Error) → abi_handled r ≡ err e → e.class ≡ validation_error
handled-class (ok u) e h = absurd (cc h)
handled-class (err x) e h = cc (abi_error-class x.class x)

-- The check of the contract's ABI accepts a text exactly if it is a JSON array whose entries are all
-- objects with a `type`. Whatever else the text is, the check raises a ValidationError and nothing
-- else.
pub check_contract_abi_iff :
    (abi : Doc)
    → ((check_contract_abi abi ≡ ok tt) ↔ IsAbi abi)
      × ((e : Error) → check_contract_abi abi ≡ err e → e.class ≡ validation_error)
unfolding check_contract_abi
check_contract_abi_iff abi = ((sound abi, complete abi), λ e h. handled-class _ e h)
  where
    sound : (abi : Doc) → abi_handled (bind (loads abi) check_abi) ≡ ok tt → IsAbi abi
    sound (json (arr xs)) h = check_entries_sound xs (handled-eq_ok _ h)
    sound (json null) h = absurd (cc h)
    sound (json (bool b)) h = absurd (cc h)
    sound (json (num n)) h = absurd (cc h)
    sound (json (str s)) h = absurd (cc h)
    sound (json (obj fs)) h = absurd (cc h)
    sound (plain s) h = absurd (cc h)

    complete : (abi : Doc) → IsAbi abi → abi_handled (bind (loads abi) check_abi) ≡ ok tt
    complete (json (arr xs)) h = rw (check_entries_complete xs h) refl
    complete (json null) h = elim h [ ]
    complete (json (bool b)) h = elim h [ ]
    complete (json (num n)) h = elim h [ ]
    complete (json (str s)) h = elim h [ ]
    complete (json (obj fs)) h = elim h [ ]
    complete (plain s) h = elim h [ ]

-- The tables from which a network's stored currency and explorer are computed give, for every network,
-- what `get_network_currency` and `get_explorer_url` give by tables of their own.
pub compute_network_info-eq :
    (network_id : String)
    → compute_network_info network_id
      ≡ (get_network_currency network_id, get_explorer_url network_id)
unfolding compute_network_info get_network_currency get_explorer_url
compute_network_info-eq network_id = refl
