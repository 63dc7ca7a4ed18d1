-- ===== src/Text.antt =====
-- What the program does with text: `split`, `strip`, `join`, f-strings, `bytes.hex`, truth of a text.
pub mod Split
use Prim.Native.Char.{Char, code}
use Prim.Native.String.{◌++◌}
use agu_odoo.Base.{
  ℕ, ◌≡◌, refl, Bool, true, false, ◌||◌, ◌&&◌, not, List, [], ◌∷◌, String, arith, ◌==◌, leb,
  if◌then◌else◌, ◌/◌, ◌%◌, ◌+◌, zero, suc, length, keep, All, All-keep, map,
}
pub use text.Mathlib.Text.{◌==◌ as str_eq, starts_with}

-- `bool(s)`
abbrev pub nonempty : String → Bool
nonempty String.[] = false
nonempty (String.◌∷◌ c s) = true

-- An f-string, or `"".join(parts)`.
abbrev pub concat : List String → String
concat [] = ""
concat (s ∷ parts) = s ++ concat parts

-- `sep.join(parts)`
unfoldable pub join : String → List String → String
join sep [] = ""
join sep (s ∷ []) = s
join sep (s ∷ t ∷ parts) = s ++ (sep ++ join sep (t ∷ parts))

-- `s.split(',')`: a comma ends a part, and there is always a last part.
abbrev pub onto_first : Char → List String → List String
onto_first c [] = (String.◌∷◌ c "") ∷ []
onto_first c (part ∷ parts) = (String.◌∷◌ c part) ∷ parts

unfoldable pub split_commas : String → List String
split_commas String.[] = "" ∷ []
split_commas (String.◌∷◌ c s) =
    let parts = split_commas s in if code c == b',' then "" ∷ parts else onto_first c parts

-- `str.isspace` of one character.
unfoldable pub is_space : ℕ → Bool
is_space c =
    (leb 9 c && leb c 13)
    || (leb 28 c && leb c 32)
    || c == 0x85
    || c == 0xa0
    || c == 0x1680
    || (leb 0x2000 c && leb c 0x200a)
    || c == 0x2028
    || c == 0x2029
    || c == 0x202f
    || c == 0x205f
    || c == 0x3000

unfoldable pub lstrip : String → String
unfolding is_space
lstrip String.[] = ""
lstrip (String.◌∷◌ c s) = let rest = lstrip s in if is_space (code c) then rest else String.◌∷◌ c s

unfoldable pub rstrip : String → String
unfolding is_space
rstrip String.[] = ""
rstrip (String.◌∷◌ c s) =
    let rest = rstrip s in
    if not (nonempty rest) && is_space (code c) then "" else String.◌∷◌ c rest

-- `s.strip()`
unfoldable pub strip : String → String
unfolding lstrip rstrip
strip s = rstrip (lstrip s)

-- The code points of a text, and `sub in s` on them.
abbrev pub codes : String → List ℕ
codes String.[] = []
codes (String.◌∷◌ c s) = code c ∷ codes s

abbrev pub begins : List ℕ → List ℕ → Bool
begins [] s = true
begins (c ∷ sub) [] = false
begins (c ∷ sub) (d ∷ s) = c == d && begins sub s

unfoldable pub occurs : List ℕ → List ℕ → Bool
occurs sub [] = begins sub []
occurs sub (c ∷ s) = begins sub (c ∷ s) || occurs sub s

-- `str.lower` on the ASCII letters; no other character lowers to one of `t r u e`.
abbrev pub lower : ℕ → ℕ
lower c = if leb b'A' c && leb c b'Z' then c + 32 else c

-- `str(n)` of a natural number.
abbrev digit : ℕ → String
digit zero = "0"
digit (suc zero) = "1"
digit (suc (suc zero)) = "2"
digit (suc (suc (suc zero))) = "3"
digit (suc (suc (suc (suc zero)))) = "4"
digit (suc (suc (suc (suc (suc zero))))) = "5"
digit (suc (suc (suc (suc (suc (suc zero)))))) = "6"
digit (suc (suc (suc (suc (suc (suc (suc zero))))))) = "7"
digit (suc (suc (suc (suc (suc (suc (suc (suc zero)))))))) = "8"
digit _ = "9"

show_digits : ℕ → ℕ → String
show_digits zero n = digit n
show_digits (suc fuel) n =
    let front = show_digits fuel (n / 10) in if leb n 9 then digit n else front ++ digit (n % 10)

unfoldable pub show : ℕ → String
unfolding show_digits
show n = show_digits n n

-- `bytes(data).hex()`
abbrev pub hex_digit : ℕ → String
hex_digit n =
    if leb n 9
    then digit n
    else if n == 10
    then "a"
    else if n == 11
    then "b"
    else if n == 12
    then "c"
    else if n == 13
    then "d"
    else if n == 14
    then "e"
    else "f"

unfoldable pub hex : List ℕ → String
hex [] = ""
hex (b ∷ data') = hex_digit (b / 16) ++ (hex_digit (b % 16) ++ hex data')

-- `[url.strip() for url in urls if url.strip()]`
unfoldable pub strip_all : List String → List String
strip_all urls = keep nonempty (map strip urls)
