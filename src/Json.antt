-- ===== src/Json.antt =====
-- JSON values, and texts as `json.loads` sees them: the Python standard library's `json`.
use agu_odoo.Base.{ℕ, Bool, false, Option, none, some, [], ◌∷◌, String, if◌then◌else◌}
use agu_odoo.Python.{
  Result, ok, err, exception, index_error, key_error, type_error, json_decode_error, bind,
}
use agu_odoo.Text.{str_eq, concat, show}

mutual
  pub data Json : Type 0 where
    null : Json
    bool : Bool → Json
    num : ℕ → Json
    str : String → Json
    arr : Items → Json
    obj : Fields → Json

  pub data Items : Type 0 where
    nil : Items
    cons : Json → Items → Items

  pub data Fields : Type 0 where
    end : Fields
    field : String → Json → Fields → Fields

-- A text is the JSON text of a value, or it is no JSON at all.
pub data Doc : Type 0 where
  json : Json → Doc
  plain : String → Doc

-- `json.loads(text)`
abbrev pub loads : Doc → Result Json
loads (json j) = ok j
loads (plain s) = err (exception json_decode_error "Expecting value: line 1 column 1 (char 0)")

-- `d.get(key)` on the fields of an object; the last of two equal keys counts, as in `json.loads`.
abbrev pub get? : String → Fields → Option Json
get? key end = none
get? key (field k v rest) = elim (get? key rest) [
  | some w ↦ some w
  | none ↦ if str_eq k key then some v else none
]

-- `value[key]`, for a text key
abbrev pub item : String → Json → Result Json
item key (obj fs) = elim (get? key fs) [
  | some v ↦ ok v
  | none ↦ err (exception key_error (concat ("'" ∷ key ∷ "'" ∷ [])))
]
item key (arr xs) = err (exception type_error "list indices must be integers or slices, not str")
item key (str s) = err (exception type_error "string indices must be integers, not 'str'")
item key null = err (exception type_error "'NoneType' object is not subscriptable")
item key (bool b) = err (exception type_error "'bool' object is not subscriptable")
item key (num n) = err (exception type_error "'int' object is not subscriptable")

abbrev pub nth : ℕ → Items → Option Json
nth i nil = none
nth ℕ.zero (cons x xs) = some x
nth (ℕ.suc i) (cons x xs) = nth i xs

-- The `n`-th character of a text, as a text.
abbrev char_text : ℕ → String → Option String
char_text i String.[] = none
char_text ℕ.zero (String.◌∷◌ c s) = some (String.◌∷◌ c "")
char_text (ℕ.suc i) (String.◌∷◌ c s) = char_text i s

-- `value[i]`, for a number; a key of an object is a text, never a number
abbrev pub index : ℕ → Json → Result Json
index i (arr xs) = elim (nth i xs) [
  | some v ↦ ok v
  | none ↦ err (exception index_error "list index out of range")
]
index i (str s) = elim (char_text i s) [
  | some c ↦ ok (str c)
  | none ↦ err (exception index_error "string index out of range")
]
index i (obj fs) = err (exception key_error (show i))
index i null = err (exception type_error "'NoneType' object is not subscriptable")
index i (bool b) = err (exception type_error "'bool' object is not subscriptable")
index i (num n) = err (exception type_error "'int' object is not subscriptable")

-- `value == text`
abbrev pub equals_text : String → Json → Bool
equals_text t (str s) = str_eq s t
equals_text t null = false
equals_text t (bool b) = false
equals_text t (num n) = false
equals_text t (arr xs) = false
equals_text t (obj fs) = false

-- `[json.loads(response)[0] == text]`
abbrev pub first_is : String → Doc → Result Bool
first_is t doc = bind (loads doc) (λ j. bind (index 0 j) (λ v. ok (equals_text t v)))
