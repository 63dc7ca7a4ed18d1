-- ===== src/Python.antt =====
-- Python's exceptions, and methods that mutate a record and may raise. What was written before a
-- raise stays written, so the state comes back beside an error too.
use agu_odoo.Base.{
  ◌≡◌, refl, ap, ◌⊎◌, inl, inr, Bool, true, false, String, Option, none, some, if◌then◌else◌,
}

-- The classes of exceptions that the modelled code raises; `other_error` is one of a library.
pub data ErrorClass : Type 0 where
  user_error validation_error value_error attribute_error name_error key_error index_error :
      ErrorClass
  type_error zero_division_error json_decode_error access_denied other_error : ErrorClass

-- An exception with its `str(e)`.
pub record Error : Type 0 where
  pub class : ErrorClass
  pub text : String

pub data Result {ℓ} (A : Type ℓ) : Type ℓ where
  ok : A → Result A
  err : Error → Result A

abbrev pub exception : ErrorClass → String → Error
exception c t = record { class = c; text = t }

abbrev pub is_ok {ℓ} : {A : Type ℓ} → Result A → Bool
is_ok (ok a) = true
is_ok (err e) = false

abbrev pub bind {ℓ κ} : {A : Type ℓ} {B : Type κ} → Result A → (A → Result B) → Result B
bind (ok a) f = f a
bind (err e) f = err e

pub Result-cases {ℓ} :
    {A : Type ℓ} (r : Result A) → ((e : Error) × (r ≡ err e)) ⊎ ((a : A) × (r ≡ ok a))
Result-cases (ok a) = inr (a, refl)
Result-cases (err e) = inl (e, refl)

pub ok-inj {ℓ} : {A : Type ℓ} {a b : A} → ok a ≡ ok b → a ≡ b
ok-inj {a = a} h = ap (λ r. elim r [ ok c ↦ c | err e ↦ a ]) h

-- Inversion of a chain that returned.
pub bind-eq_ok_inv {ℓ κ} :
    {A : Type ℓ} {B : Type κ} (r : Result A) (f : A → Result B) {b : B}
    → bind r f ≡ ok b
    → (a : A) × (r ≡ ok a) × (f a ≡ ok b)
bind-eq_ok_inv (ok a) f h = (a, refl, h)
bind-eq_ok_inv (err e) f h = absurd (cc h)

-- Inversion of a test that must pass.
pub if-eq_ok_inv {ℓ} :
    {A : Type ℓ} (b : Bool) (r : Result A) (e : Error) {a : A}
    → (if b then r else err e) ≡ ok a
    → (b ≡ true) × (r ≡ ok a)
if-eq_ok_inv true r e h = (refl, h)
if-eq_ok_inv false r e h = absurd (cc h)

pub if-eq_ok_inv_else {ℓ} :
    {A : Type ℓ} (b : Bool) (r : Result A) (e : Error) {a : A}
    → (if b then err e else r) ≡ ok a
    → (b ≡ false) × (r ≡ ok a)
if-eq_ok_inv_else true r e h = absurd (cc h)
if-eq_ok_inv_else false r e h = (refl, h)

-- A result that is a value satisfies `P`.
abbrev pub Post {ℓ κ} : {A : Type ℓ} → (A → Type κ) → Result A → Type κ
Post P (ok a) = P a
Post P (err e) = Unit

pub bind-Post {ℓ μ κ} :
    {A : Type ℓ} {B : Type μ} (P : B → Type κ) (r : Result A) (f : A → Result B)
    → ((a : A) → r ≡ ok a → Post P (f a))
    → Post P (bind r f)
bind-Post P (ok a) f h = h a refl
bind-Post P (err e) f h = tt

pub Post-map {ℓ κ μ} :
    {A : Type ℓ} (P : A → Type κ) (Q : A → Type μ)
    → ((a : A) → P a → Q a)
    → (r : Result A) → Post P r
    → Post Q r
Post-map P Q step (ok a) h = step a h
Post-map P Q step (err e) h = tt

pub if-Post {ℓ κ} :
    {A : Type ℓ} (P : A → Type κ) (b : Bool) (r s : Result A)
    → Post P r
    → Post P s
    → Post P (if b then r else s)
if-Post P true r s h k = h
if-Post P false r s h k = k

abbrev pub Exec : Type 0 → Type 0 → Type 0
Exec S A = S → Result A × S

module _ {S A : Type 0} where
  abbrev pub pure : A → Exec S A
  pure a s = (ok a, s)

  abbrev pub raise : Error → Exec S A
  raise e s = (err e, s)

  abbrev pub lift : Result A → Exec S A
  lift r s = (r, s)

  abbrev pub gets : (S → A) → Exec S A
  gets f s = (ok (f s), s)

  -- `try: m except Exception as e: handle(e)`
  abbrev pub catch : Exec S A → (Error → Exec S A) → Exec S A
  catch m handle s = let (r, s') = m s in elim r [ ok a ↦ (ok a, s') | err e ↦ handle e s' ]

abbrev pub modify : {S : Type 0} → (S → S) → Exec S Unit
modify f s = (ok tt, f s)

abbrev pub raise_if : {S : Type 0} → Bool → Error → Exec S Unit
raise_if b e s = (if b then err e else ok tt, s)

abbrev pub or_error : {A : Type 0} → Option A → Error → Result A
or_error none e = err e
or_error (some a) e = ok a

infixl 5 ◌>>=◌ ◌>>◌
abbrev pub ◌>>=◌ : {S A B : Type 0} → Exec S A → (A → Exec S B) → Exec S B
◌>>=◌ m f s = let (r, s') = m s in elim r [ ok a ↦ f a s' | err e ↦ (err e, s') ]

abbrev pub ◌>>◌ : {S A B : Type 0} → Exec S A → Exec S B → Exec S B
m >> k = m >>= λ _. k

-- A step of a block, and a `try`, by what the first part did.
module _ {S A B : Type 0} (m : Exec S A) {s s' : S} where
  pub bind-eq_ok : {a : A} (f : A → Exec S B) → m s ≡ (ok a, s') → (m >>= f) s ≡ f a s'
  bind-eq_ok f q = ap (λ (x : Result A × S). elim x.0 [ ok a ↦ f a x.1 | err e ↦ (err e, x.1) ]) q

  pub bind-eq_err : {e : Error} (f : A → Exec S B) → m s ≡ (err e, s') → (m >>= f) s ≡ (err e, s')
  bind-eq_err f q = ap (λ (x : Result A × S). elim x.0 [ ok a ↦ f a x.1 | err e ↦ (err e, x.1) ]) q

module _ {S A : Type 0} (m : Exec S A) (handle : Error → Exec S A) {s s' : S} where
  pub catch-eq_ok : {a : A} → m s ≡ (ok a, s') → catch m handle s ≡ (ok a, s')
  catch-eq_ok q =
      ap (λ (x : Result A × S). elim x.0 [ ok a ↦ (ok a, x.1) | err e ↦ handle e x.1 ]) q

  pub catch-eq_err : {e : Error} → m s ≡ (err e, s') → catch m handle s ≡ handle e s'
  catch-eq_err q =
      ap (λ (x : Result A × S). elim x.0 [ ok a ↦ (ok a, x.1) | err e ↦ handle e x.1 ]) q
