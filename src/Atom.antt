-- ===== src/Atom.antt =====
-- odoo_custom_addons/atom_system/models/atom_conflict_resolution.py: the values of an atom, synchronized
-- with those of another node. A float is only compared for equality; it is the number of its bits.
-- Odoo writes `write_date` itself: what a call gives for it is ignored.
pub mod Merging
pub mod Sync
pub mod Tests
use agu_odoo.Base.{
  ⊤, ℕ, Bool, true, false, not, ◌&&◌, Option, none, some, String, List, [], ◌∷◌, ◌++◌, keep, ◌==◌,
  ltb, if◌then◌else◌,
}
use agu_odoo.Python.{Error, Result, ok, err, exception, value_error, other_error, bind, Exec}
use agu_odoo.Text.{concat}

-- `atom.element.value`, of one atom; and an entry of `remote_data['element_values']`
pub record ElementValue : Type 0 where
  pub element_id : ℕ
  pub value1 : ℕ
  pub value2 : ℕ
  pub value3 : ℕ
  pub write_date : ℕ

pub data Resolution : Type 0 where
  local remote manual : Resolution

-- `atom.conflict.resolution`, as the values of `create`
pub record ConflictVals : Type 0 where
  pub element_id : ℕ
  pub local_value : String
  pub remote_value : String
  pub resolution : Option Resolution

-- `create` of a conflict: `resolution` is required and has no default.
unfoldable pub create_conflict : ConflictVals → Result ConflictVals
create_conflict vals = elim vals.resolution [
  | none ↦ err (
      exception other_error
        "null value in column \"resolution\" of relation \"atom_conflict_resolution\" violates not-null constraint")
  | some r ↦ ok vals
]

-- `resolve_conflict`; what it does after the creation is not reached, since the creation gets no
-- `resolution`.
unfoldable pub resolve_conflict : ℕ → String → String → Result ConflictVals
resolve_conflict element_id local_value remote_value = create_conflict (record {
  element_id = element_id;
  local_value = local_value;
  remote_value = remote_value;
  resolution = none;
})

-- The text of the three values
abbrev pub values_text : (ℕ → String) → ElementValue → String
values_text show v = concat (show v.value1 ∷ ", " ∷ show v.value2 ∷ ", " ∷ show v.value3 ∷ [])

abbrev pub same_values : ElementValue → ElementValue → Bool
same_values v r = v.value1 == r.value1 && v.value2 == r.value2 && v.value3 == r.value3

abbrev pub of_element : ℕ → ElementValue → Bool
of_element element_id v = v.element_id == element_id

-- What is written or created, at a time
abbrev pub taken : ℕ → ElementValue → ElementValue
taken now r = record r { write_date = now }

abbrev pub write_value : ℕ → ElementValue → List ElementValue → List ElementValue
write_value now r [] = []
write_value now r (v ∷ rows) =
    (if of_element r.element_id v then taken now r else v) ∷ write_value now r rows

abbrev pub conflicting : (ℕ → String) → ElementValue → ElementValue → Exec (List ElementValue) ⊤
conflicting show v r rows = if same_values v r then (ok tt, rows) else (
  bind (resolve_conflict r.element_id (values_text show v) (values_text show r)) λ c. ok tt,
  rows,
)

-- The branches on the local values of the element
abbrev pub merge : (ℕ → String) → ℕ → ElementValue → List ElementValue → Exec (List ElementValue) ⊤
merge show now r [] rows = (ok tt, rows ++ (taken now r ∷ []))
merge show now r (v ∷ []) rows =
    if ltb r.write_date v.write_date
    then (ok tt, rows)
    else (if ltb v.write_date r.write_date
        then (ok tt, write_value now r rows)
        else conflicting show v r rows)
merge show now r (v ∷ w ∷ found) rows =
    (err (exception value_error "Expected singleton: atom.element.value"), rows)

unfoldable pub sync_value : (ℕ → String) → ℕ → ElementValue → Exec (List ElementValue) ⊤
sync_value show now r rows = merge show now r (keep (of_element r.element_id) rows) rows

abbrev pub then_next :
    Result ⊤ × List ElementValue
    → (List ElementValue → Result ⊤ × List ElementValue)
    → Result ⊤ × List ElementValue
then_next (ok u, rows) k = k rows
then_next (err e, rows) k = (err e, rows)

-- `sync_atom`
unfoldable pub sync_atom : (ℕ → String) → ℕ → List ElementValue → Exec (List ElementValue) ⊤
sync_atom show now [] rows = (ok tt, rows)
sync_atom show now (r ∷ others) rows =
    then_next (sync_value show now r rows) (sync_atom show now others)
