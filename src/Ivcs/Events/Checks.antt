-- ===== src/Ivcs/Events/Checks.antt =====
-- The constraints of nostr_events.py, and that what `to_json` writes meets them.
use agu_odoo.Base.{⊤, ℕ, Bool, false, ◌||◌, String, List, [], ◌∷◌, if◌then◌else◌, ◌==◌, is_some}
use agu_odoo.Python.{
  Error, Result, ok, err, exception, type_error, validation_error, json_decode_error, ErrorClass,
  bind,
}
use agu_odoo.Text.{codes, occurs}
use agu_odoo.Json.{Json, null, bool, num, str, arr, obj, Items, nil, cons, get?, item, equals_text}
use agu_odoo.Base.{◌≡◌, refl, sym}
use agu_odoo.Python.{bind-eq_ok_inv, ok-inj}
use agu_odoo.Ivcs.Events.{
  Payload, anchor, branch, commit, tree, blob, create, update, delete, class_of, content_value,
}
use agu_odoo.Ivcs.Events.{
  Codec, EventClass, anchor_event, branch_event, commit_event, tree_event, blob_event,
}
use agu_odoo.Ivcs.Events.Reading.{load_text}

-- `_check_kind`
unfoldable pub check_kind : ℕ → Result ⊤
check_kind kind =
    if kind == 31228 || kind == 31227 || kind == 3121 || kind == 3122 || kind == 3123
    then ok tt
    else err (exception validation_error "Invalid event kind")

abbrev has_text : String → Items → Bool
has_text key nil = false
has_text key (cons j xs) = equals_text key j || has_text key xs

-- `key in value`
abbrev pub contains_key : String → Json → Result Bool
contains_key key (obj fs) = ok (is_some (get? key fs))
contains_key key (arr xs) = ok (has_text key xs)
contains_key key (str s) = ok (occurs (codes key) (codes s))
contains_key key null = err (exception type_error "argument of type 'NoneType' is not iterable")
contains_key key (bool b) = err (exception type_error "argument of type 'bool' is not iterable")
contains_key key (num n) = err (exception type_error "argument of type 'int' is not iterable")

abbrev invalid : {A : Type 0} → String → Result A
invalid text = err (exception validation_error text)

-- A test that every key is there, as `and` and `all` make it: the first one missing ends it.
abbrev pub require : List String → String → Json → Result ⊤
require [] text content = ok tt
require (key ∷ keys) text content =
    bind (contains_key key content)
      λ there. if there then require keys text content else invalid text

-- `content['action']` is one of the texts.
abbrev pub one_of : List String → Json → Bool
one_of [] j = false
one_of (t ∷ texts) j = equals_text t j || one_of texts j

abbrev action_in : List String → String → Json → Result ⊤
action_in texts text content =
    bind (require ("action" ∷ []) text content) λ _.
      bind (item "action" content) λ action. if one_of texts action then ok tt else invalid text

abbrev pub checked : EventClass → Json → Result ⊤
checked anchor_event content =
    action_in ("create_repository" ∷ []) "Invalid content for Repository Anchor event" content
checked branch_event content =
    action_in ("create_branch" ∷ "update_branch" ∷ "delete_branch" ∷ [])
      "Invalid content for Branch event" content
checked commit_event content =
    require ("hash" ∷ "message" ∷ "author" ∷ "date" ∷ [])
      "Missing required fields in Commit event content" content
checked tree_event content =
    require ("hash" ∷ "items" ∷ []) "Missing required fields in Tree event content" content
checked blob_event content =
    require ("hash" ∷ "size" ∷ "data" ∷ []) "Missing required fields in Blob event content" content

-- `except json.JSONDecodeError` around the whole check
abbrev pub decode_handled : ErrorClass → Error → Error
decode_handled json_decode_error e = exception validation_error "Invalid JSON in content field"
decode_handled other e = e

abbrev pub handle_decode : Result ⊤ → Result ⊤
handle_decode (ok u) = ok u
handle_decode (err e) = err (decode_handled e.class e)

-- `_check_content`, of the content field
unfoldable pub check_content : Codec → EventClass → Json → Result ⊤
check_content codec c content = handle_decode (bind (load_text codec content) (checked c))

-- The content that a class writes meets its own constraint.
pub check_content-content_value :
    (codec : Codec) (p : Payload) (content : Json)
    → content_value codec p ≡ ok content
    → codec.loads (codec.dumps content) ≡ ok content
    → check_content codec (class_of p) (str (codec.dumps content)) ≡ ok tt
unfolding check_content
check_content-content_value codec (anchor name description maintainers) content c r =
    let same = ok-inj c in rw (r, sym same) refl
check_content-content_value codec (branch name create) content c r =
    let same = ok-inj c in rw (r, sym same) refl
check_content-content_value codec (branch name update) content c r =
    let same = ok-inj c in rw (r, sym same) refl
check_content-content_value codec (branch name delete) content c r =
    let same = ok-inj c in rw (r, sym same) refl
check_content-content_value codec (commit hash message author timestamp) content c r =
    let same = ok-inj c in rw (r, sym same) refl
check_content-content_value codec (tree hash items) content c r =
    let (j, loaded, made) = bind-eq_ok_inv (codec.loads items) _ c in
    let same = ok-inj made in rw (r, sym same) refl
check_content-content_value codec (blob hash size payload) content c r =
    let same = ok-inj c in rw (r, sym same) refl
