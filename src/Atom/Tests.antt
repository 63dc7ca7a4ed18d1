-- ===== src/Atom/Tests.antt =====
-- Runs of a synchronization: an older, a newer and a new value, and two values of one date.
use agu_odoo.Base.{All, ℕ, ◌≢◌, some, ◌≡◌, refl, [], ◌∷◌, arith}
use agu_odoo.Python.{ok}
use agu_odoo.Text.{show}
use agu_odoo.Atom.{ElementValue, sync_atom, sync_value, taken}
use agu_odoo.Atom.Merging.{IsUnique, find_value, last_writer}
use agu_odoo.Atom.Sync.{sync_atom-last_writer, sync_atom_again}

abbrev first : ElementValue
first = record { element_id = 1; value1 = 10; value2 = 11; value3 = 12; write_date = 50 }

abbrev second : ElementValue
second = record first { element_id = 2; write_date = 60 }

-- Newer than the local value of the first element, older than the one of the second, and a third one
abbrev first_remote : ElementValue
first_remote = record first { value1 = 20; write_date = 55 }

abbrev second_remote : ElementValue
second_remote = record second { value1 = 30; write_date = 40 }

abbrev third_remote : ElementValue
third_remote = record first { element_id = 3; value1 = 40 }

-- Of the date of the second value, with another first number
abbrev clash : ElementValue
clash = record second { value1 = 99 }

sync_atom-last_writer_example :
    let others = first_remote ∷ second_remote ∷ third_remote ∷ [] in
    let rows = first ∷ second ∷ [] in
    let (x, after) = sync_atom show 100 others rows in
    (x ≡ ok tt)
    × IsUnique after
    × All
        (λ (r : ElementValue).
          find_value r.element_id after ≡ some (last_writer 100 (find_value r.element_id rows) r))
        others
    × ((e : ℕ)
        → All (λ (r : ElementValue). e ≢ r.element_id) others
        → find_value e after ≡ find_value e rows)
sync_atom-last_writer_example =
    sync_atom-last_writer show 100 (first_remote ∷ second_remote ∷ third_remote ∷ [])
      (first ∷ second ∷ []) (refl, (refl, tt))
      (
        ((λ h. absurd (omega arith)), ((λ h. absurd (omega arith)), tt)),
        (((λ h. absurd (omega arith)), tt), (tt, tt)),
      )
      (refl, (refl, (refl, tt)))

keeps_the_newer :
    sync_atom show 100 (first_remote ∷ second_remote ∷ third_remote ∷ []) (first ∷ second ∷ [])
    ≡ (ok tt, taken 100 first_remote ∷ second ∷ taken 100 third_remote ∷ [])
unfolding sync_atom sync_value
keeps_the_newer = refl

sync_atom_again_example :
    let (x, after) = sync_atom show 100 (first_remote ∷ second_remote ∷ []) (first ∷ second ∷ []) in
    sync_atom show 200 (first_remote ∷ second_remote ∷ []) after ≡ (ok tt, after)
sync_atom_again_example =
    sync_atom_again show 100 200 (first_remote ∷ second_remote ∷ []) (first ∷ second ∷ [])
      (refl, (refl, tt)) (((λ h. absurd (omega arith)), tt), (tt, tt)) (refl, (refl, tt))
      (omega arith, (omega arith, tt))
