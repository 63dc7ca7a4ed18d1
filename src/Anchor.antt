-- ===== src/Anchor.antt =====
-- odoo_custom_addons/git_repository_anchor/models/repository_anchor.py: the events that anchor a
-- repository, and who may act on it. The packages `nostr` and `json` are a record of functions.
pub mod Permission
pub mod Tests
use Prim.Native.Char.{code}
use agu_odoo.Base.{
  ⊤, ℕ, Bool, true, false, ◌||◌, ◌&&◌, not, Option, none, some, String, List, [], ◌∷◌,
  if◌then◌else◌, ◌==◌, any, is_some,
}
use agu_odoo.Python.{
  ErrorClass, Error, Result, ok, err, exception, user_error, type_error, json_decode_error,
  key_error, bind,
}
use agu_odoo.Text.{concat, codes, occurs, str_eq}
use agu_odoo.Json.{
  Json, null, bool, num, str, arr, obj, Items, nil, cons, field, end, item, equals_text, get?,
}
use agu_odoo.Nostr.{Event, Tags}

-- A key of a user; a user without one has `False`.
abbrev pub Key : Type 0
Key = Option String

pub record Library : Type 0 where
  -- `json.dumps(value)` and `json.loads(text)`
  pub dumps : Json → String
  pub loads : String → Result Json
  -- the public key of `PrivateKey()`, and `private_key.sign_event(event)`
  pub public_key : String
  pub sign_event : Event → Result Event
  pub now : ℕ

abbrev pub key_value : Key → Json
key_value none = bool false
key_value (some k) = str k

abbrev pub key_items : List Key → Items
key_items [] = nil
key_items (k ∷ keys) = cons (key_value k) (key_items keys)

-- `os.path.basename(path)`: what follows the last slash
abbrev is_slash : ℕ → Bool
is_slash c = c == b'/'

unfoldable pub basename : String → String
basename String.[] = ""
basename (String.◌∷◌ c s) =
    let rest = basename s in
    if any is_slash (codes s) then rest else if is_slash (code c) then s else String.◌∷◌ c s

-- An event of kind 31228 about a path, signed
unfoldable pub signed_anchor : Library → String → Json → Result Event
signed_anchor lib path content = lib.sign_event (record {
  id = none;
  public_key = lib.public_key;
  created_at = lib.now;
  kind = 31228;
  tags = ("r" ∷ path ∷ []) ∷ [];
  content = lib.dumps content;
  signature = none;
})

abbrev pub anchor_content : String → String → List Key → Json
anchor_content action path maintainers = obj (
    field "action" (str action) (
      field "repo_name" (str (basename path))
        (field "maintainers" (arr (key_items maintainers)) end)))

-- `create_anchor_event`
unfoldable pub create_anchor_event : Library → String → List Key → Result Event
unfolding signed_anchor
create_anchor_event lib repo_path maintainers =
    signed_anchor lib repo_path (anchor_content "create_repository" repo_path maintainers)

-- `update_anchor`
unfoldable pub update_anchor : Library → String → List Key → Result Event
unfolding signed_anchor
update_anchor lib repo_path maintainers =
    signed_anchor lib repo_path (anchor_content "update_repository" repo_path maintainers)

abbrev pub fork_content : String → String → List Key → Json
fork_content original_repo_path new_repo_path new_maintainers = obj (
    field "action" (str "fork_repository") (
      field "original_repo" (str original_repo_path) (
        field "new_repo" (str new_repo_path)
          (field "maintainers" (arr (key_items new_maintainers)) end))))

-- `fork_repository`
unfoldable pub fork_repository : Library → String → String → List Key → Result Event
unfolding signed_anchor
fork_repository lib original_repo_path new_repo_path new_maintainers =
    signed_anchor lib new_repo_path (fork_content original_repo_path new_repo_path new_maintainers)

-- The two `except` clauses; no other exception is caught.
abbrev pub anchor_error : ErrorClass → Error → Error
anchor_error json_decode_error e = exception user_error "Invalid anchor event content"
anchor_error key_error e = exception user_error "Incomplete anchor event content"
anchor_error other e = e

abbrev pub handled {ℓ} : {A : Type ℓ} → Result A → Result A
handled (ok a) = ok a
handled (err e) = err (anchor_error e.class e)

-- What an anchor says of a repository.
pub record RepositoryState : Type 0 where
  pub repo_name : Json
  pub maintainers : Json

-- `resolve_repository_state`
unfoldable pub resolve_repository_state : Library → Event → Result RepositoryState
resolve_repository_state lib anchor_event = handled (
    bind (lib.loads anchor_event.content) λ content. bind (item "repo_name" content) λ repo_name.
      bind (item "maintainers" content)
        λ maintainers. ok (record { repo_name = repo_name; maintainers = maintainers }))

-- `list_maintainers`
unfoldable pub list_maintainers : Library → Event → Result Json
list_maintainers lib anchor_event =
    handled (bind (lib.loads anchor_event.content) (item "maintainers"))

-- `public_key == value`; `False == 0` holds
abbrev pub equals_key : Key → Json → Bool
equals_key (some k) j = equals_text k j
equals_key none (bool b) = not b
equals_key none (num n) = n == 0
equals_key none null = false
equals_key none (str s) = false
equals_key none (arr xs) = false
equals_key none (obj fs) = false

abbrev pub in_items : Key → Items → Bool
in_items k nil = false
in_items k (cons j xs) = equals_key k j || in_items k xs

-- `public_key in value`
abbrev pub contains : Key → Json → Result Bool
contains k (arr xs) = ok (in_items k xs)
contains (some k) (obj fs) = ok (is_some (get? k fs))
contains none (obj fs) = ok false
contains (some k) (str s) = ok (occurs (codes k) (codes s))
contains none (str s) =
    err (exception type_error "'in <string>' requires string as left operand, not bool")
contains k null = err (exception type_error "argument of type 'NoneType' is not iterable")
contains k (bool b) = err (exception type_error "argument of type 'bool' is not iterable")
contains k (num n) = err (exception type_error "argument of type 'int' is not iterable")

-- `check_permission`
unfoldable pub check_permission : Library → Event → Key → Result Bool
unfolding list_maintainers
check_permission lib anchor_event public_key =
    bind (list_maintainers lib anchor_event) (contains public_key)
