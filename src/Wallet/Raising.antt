-- ===== src/Wallet/Raising.antt =====
-- Methods that never return, and what a request to one leaves.
use agu_odoo.Base.{◌≡◌, refl, false}
use agu_odoo.Python.{Error, Result, ok, err, Exec, ◌>>=◌, catch, is_ok}
use agu_odoo.Odoo.{request, rollback}
use agu_odoo.Wallet.Users.{Site}

-- A method that raises, whatever the state.
abbrev pub Raises : {A : Type 0} → Exec Site A → Type 0
Raises m = (s : Site) → is_ok (m s).0 ≡ false

module _ {A B : Type 0} where
  pub bind-Raises :
      (m : Exec Site A) (f : A → Exec Site B) → ((a : A) → Raises (f a)) → Raises (m >>= f)
  bind-Raises m f h s = go (m s)
    where
      go :
          (r : Result A × Site)
          → is_ok {A = B}
              (elim r.0 as (λ _. Result B × Site) [ ok a ↦ f a r.1 | err e ↦ (err e, r.1) ]).0
            ≡ false
      go (ok a, s') = h a s'
      go (err e, s') = refl

module _ {A : Type 0} where
  pub catch-Raises :
      (m : Exec Site A) (f : Error → Exec Site A)
      → Raises m
      → ((e : Error) → Raises (f e))
      → Raises (catch m f)
  catch-Raises m f h k s = go (m s) (h s)
    where
      go :
          (r : Result A × Site)
          → is_ok r.0 ≡ false
          → is_ok (elim r.0 as (λ _. Result A × Site) [ ok a ↦ (ok a, r.1) | err e ↦ f e r.1 ]).0
            ≡ false
      go (ok a, s') p = absurd (cc p)
      go (err e, s') p = k e s'

  pub request_undone :
      (m : Exec Site A) (s : Site)
      → is_ok (m s).0 ≡ false
      → (is_ok (request m s).0 ≡ false) × ((request m s).1 ≡ s)
  request_undone m s h = go (m s) h
    where
      go :
          (r : Result A × Site)
          → is_ok r.0 ≡ false
          → (is_ok (rollback s r).0 ≡ false) × ((rollback s r).1 ≡ s)
      go (ok a, s') p = absurd (cc p)
      go (err e, s') p = (refl, refl)
