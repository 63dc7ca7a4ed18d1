-- ===== src/Text/Split.antt =====
-- `split(',')` and `','.join` are inverse to one another, and what `strip_all` keeps.
use Prim.Native.Char.{Char, code}
use Prim.Native.String.{◌++◌}
use text.Mathlib.TextLemmas.{nil-append, cons-append}
use text.Mathlib.TextEquality.{Char-path}
use agu_odoo.Base.{
  ◌≡◌, ◌≢◌, refl, ap, ◌∙◌, sym, true, false, List, [], ◌∷◌, String, arith, ◌==◌, All, All-keep, map,
  Bool-cases, inl, inr,
}
use agu_odoo.Text.{nonempty, join, split_commas, onto_first, strip, strip_all}

pub strip_all-nonempty : (urls : List String) → All (λ u. nonempty u ≡ true) (strip_all urls)
unfolding strip_all
strip_all-nonempty urls = All-keep nonempty (map strip urls)

-- `split` never returns an empty list.
pub split_commas-ne-nil : (s : String) → split_commas s ≢ []
unfolding split_commas
split_commas-ne-nil String.[] = ground arith
split_commas-ne-nil (String.◌∷◌ c s) = elim (Bool-cases (code c == b',')) [
  | inl e ↦ rw e (ground arith)
  | inr e ↦ rw e (ground arith)
]

join-onto_first :
    (c : Char) (parts : List String)
    → parts ≢ []
    → join "," (onto_first c parts) ≡ String.◌∷◌ c (join "," parts)
unfolding join
join-onto_first c [] h = absurd (h refl)
join-onto_first c (p ∷ []) h = refl
join-onto_first c (p ∷ q ∷ parts) h = cons-append c p _

join-empty_first :
    (parts : List String) → parts ≢ [] → join "," ("" ∷ parts) ≡ "," ++ join "," parts
unfolding join
join-empty_first [] h = absurd (h refl)
join-empty_first (p ∷ parts) h = nil-append _

comma_char : (c : Char) (s : String) → (code c == b',') ≡ true → String.◌∷◌ c s ≡ "," ++ s
comma_char c s h =
    rw (Char-path c "," (ground arith))
      (sym (cons-append "," "" s ∙ ap (λ r. String.◌∷◌ "," r) (nil-append s)))

pub join-split_commas : (s : String) → join "," (split_commas s) ≡ s
unfolding split_commas join
join-split_commas String.[] = refl
join-split_commas (String.◌∷◌ c s) = elim (Bool-cases (code c == b',')) [
  | inl e ↦ rw e (
      join-empty_first _ (split_commas-ne-nil s)
      ∙ ap (λ r. "," ++ r) (join-split_commas s)
      ∙ sym (comma_char c s e))
  | inr e ↦
      rw e (
        join-onto_first c _ (split_commas-ne-nil s)
        ∙ ap (λ r. String.◌∷◌ c r) (join-split_commas s))
]

-- The text has no comma.
abbrev pub NoComma : String → Type 0
NoComma String.[] = Unit
NoComma (String.◌∷◌ c s) = ((code c == b',') ≡ false) × NoComma s

split_commas-NoComma : (s : String) → NoComma s → split_commas s ≡ s ∷ []
unfolding split_commas
split_commas-NoComma String.[] h = refl
split_commas-NoComma (String.◌∷◌ c s) h = rw (h.0, split_commas-NoComma s h.1)

split_commas-append :
    (s t : String) → NoComma s → split_commas (s ++ ("," ++ t)) ≡ s ∷ split_commas t
unfolding split_commas
split_commas-append String.[] t h = rw (nil-append ("," ++ t), cons-append "," "" t, nil-append t)
split_commas-append (String.◌∷◌ c s) t h =
    rw (cons-append c s ("," ++ t), h.0, split_commas-append s t h.1)

pub split_commas-join :
    (parts : List String) → parts ≢ [] → All NoComma parts → split_commas (join "," parts) ≡ parts
unfolding join
split_commas-join [] h a = absurd (h refl)
split_commas-join (p ∷ []) h a = split_commas-NoComma p a.0
split_commas-join (p ∷ q ∷ parts) h a =
    split_commas-append p (join "," (q ∷ parts)) a.0
    ∙ ap (λ r. p ∷ r) (split_commas-join (q ∷ parts) (ground arith) a.1)
