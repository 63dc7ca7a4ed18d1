-- ===== src/Ivcs/Unlogged.antt =====
-- What the operations on branches leave: no event of theirs is ever stored, and the repository is not
-- rolled back.
use agu_odoo.Base.{ℕ, ◌≡◌, ◌⊎◌, Bool, true, false, String}
use agu_odoo.Python.{Error, Result, ok, err}
use agu_odoo.Odoo.{is_set}
use agu_odoo.Ivcs.{Outside, Item, Site, create_branch, delete_branch}

module _ {R : Type 0} where
  -- The call returned false or raised, and changed nothing but the repository.
  abbrev pub IsUnlogged : Site R → Result Bool × Site R → Type 0
  IsUnlogged s x =
      ((x.0 ≡ ok false) ⊎ ((e : Error) × (x.0 ≡ err e))) × (x.1 ≡ record s { repo = x.1.repo })

  -- The call raised, and left this repository.
  abbrev pub Leaves : R → Site R → Result Bool × Site R → Type 0
  Leaves repo s x = (e : Error) × (x ≡ (err e, record s { repo = repo }))

module _ {R : Type 0} (o : Outside R) (item : Item)
    (key : is_set item.nostr_private_key ≡ true) where
  -- The outcome of a creation, and of a deletion: nothing where the branch is there, or is not; the
  -- other way round the call raises, and the head is there, or is gone.
  abbrev pub CreateOutcome : ℕ → String → Site R → Type 0
  CreateOutcome now name s =
      ((o.git.has_head name s.repo ≡ true) × (create_branch o item now name s ≡ (ok false, s)))
      ⊎ ((o.git.has_head name s.repo ≡ false)
          × Leaves (o.git.create_head name s.repo) s (create_branch o item now name s))

  abbrev pub DeleteOutcome : ℕ → String → Site R → Type 0
  DeleteOutcome now name s =
      ((o.git.has_head name s.repo ≡ false) × (delete_branch o item now name s ≡ (ok false, s)))
      ⊎ ((o.git.has_head name s.repo ≡ true)
          × Leaves (o.git.delete_head name s.repo) s (delete_branch o item now name s))
