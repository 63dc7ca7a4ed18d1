-- ===== src/Ivcs/Events.antt =====
-- odoo_custom_addons/integrated_ivcs/models/nostr_events.py: the events of a repository as JSON texts.
-- `json` and `datetime` of Python's library
-- are a record of functions.
pub mod Reading
pub mod Checks
pub mod Tests
use agu_odoo.Base.{
  ⊤, ℕ, zero, suc, Bool, true, false, not, ◌&&◌, ◌||◌, Option, none, some, String, List, [], ◌∷◌,
  map, if◌then◌else◌, ◌==◌, is_some, is_none,
}
use agu_odoo.Python.{
  Error, Result, ok, err, exception, type_error, attribute_error, value_error, validation_error,
  json_decode_error, ErrorClass, bind,
}
use agu_odoo.Text.{starts_with, nonempty, concat, codes, occurs, str_eq}
use agu_odoo.Json.{
  Json, null, bool, num, str, arr, obj, Items, nil, cons, Fields, end, field, get?, item,
  equals_text,
}

-- A row of `res.users`, with its `nostr_public_key`.
pub record KeyUser : Type 0 where
  pub id : ℕ
  pub key : Option String

pub record Codec : Type 0 where
  -- `json.dumps(value)` and `json.loads(text)`
  pub dumps : Json → String
  pub loads : String → Result Json
  -- `timestamp.isoformat()` and `datetime.fromisoformat(text)`
  pub isoformat : ℕ → String
  pub fromisoformat : String → Result ℕ

-- `nostr.event`; a text that is not set is `none`
pub record BaseEvent : Type 0 where
  pub id : String
  pub pubkey : String
  pub created_at : ℕ
  pub kind : ℕ
  pub tags : Option String
  pub content : Option String
  pub sig : String

pub data BranchAction : Type 0 where
  create update delete : BranchAction

-- The fields that the classes add to an event.
pub data Payload : Type 0 where
  anchor : String → Option String → List KeyUser → Payload
  branch : String → BranchAction → Payload
  commit : String → String → String → ℕ → Payload
  tree : String → String → Payload
  blob : String → ℕ → String → Payload

pub data EventClass : Type 0 where
  anchor_event branch_event commit_event tree_event blob_event : EventClass

abbrev pub class_of : Payload → EventClass
class_of (anchor name description maintainers) = anchor_event
class_of (branch name action) = branch_event
class_of (commit hash message author timestamp) = commit_event
class_of (tree hash items) = tree_event
class_of (blob hash size content) = blob_event

abbrev pub action_text : BranchAction → String
action_text create = "create"
action_text update = "update"
action_text delete = "delete"

-- A text field as `json.dumps` writes it: an unset one is `False`.
abbrev pub text_value : Option String → Json
text_value none = bool false
text_value (some s) = str s

-- `json.loads(self.tags) if self.tags else []`
abbrev pub tags_value : Codec → Option String → Result Json
tags_value codec none = ok (arr nil)
tags_value codec (some s) = if nonempty s then codec.loads s else ok (arr nil)

abbrev pub wire : BaseEvent → Json → Json → Json
wire e tags content = obj (
    field "id" (str e.id) (
      field "pubkey" (str e.pubkey) (
        field "created_at" (num e.created_at) (
          field "kind" (num e.kind)
            (field "tags" tags (field "content" content (field "sig" (str e.sig) end)))))))

-- `to_json` of the base class
unfoldable pub base_json : Codec → BaseEvent → Result String
base_json codec e =
    bind (tags_value codec e.tags) λ tags. ok (codec.dumps (wire e tags (text_value e.content)))

abbrev pub key_values : List KeyUser → Items
key_values [] = nil
key_values (u ∷ users) = cons (text_value u.key) (key_values users)

-- The content that a class writes
abbrev pub content_value : Codec → Payload → Result Json
content_value codec (anchor name description maintainers) = ok (
    obj (
      field "action" (str "create_repository") (
        field "repo_name" (str name) (
          field "description" (text_value description)
            (field "maintainers" (arr (key_values maintainers)) end)))))
content_value codec (branch name action) = ok (
    obj (
      field "action" (str (concat (action_text action ∷ "_branch" ∷ [])))
        (field "branch_name" (str name) end)))
content_value codec (commit hash message author timestamp) = ok (
    obj (
      field "hash" (str hash) (
        field "message" (str message)
          (field "author" (str author) (field "date" (str (codec.isoformat timestamp)) end)))))
content_value codec (tree hash items) =
    bind (codec.loads items) λ j. ok (obj (field "hash" (str hash) (field "items" j end)))
content_value codec (blob hash size content) =
    ok (obj (field "hash" (str hash) (field "size" (num size) (field "data" (str content) end))))

-- `data[key] = value`: an entry keeps its place, a new one is the last
abbrev pub set_field : String → Json → Fields → Fields
set_field key v end = field key v end
set_field key v (field k w rest) =
    if str_eq k key then field k v rest else field k w (set_field key v rest)

abbrev pub set_item : String → Json → Json → Result Json
set_item key v (obj fs) = ok (obj (set_field key v fs))
set_item key v (arr xs) =
    err (exception type_error "list indices must be integers or slices, not str")
set_item key v (str s) = err (exception type_error "'str' object does not support item assignment")
set_item key v (num n) = err (exception type_error "'int' object does not support item assignment")
set_item key v (bool b) =
    err (exception type_error "'bool' object does not support item assignment")
set_item key v null =
    err (exception type_error "'NoneType' object does not support item assignment")

-- `to_json` of the other classes
unfoldable pub to_json : Codec → BaseEvent → Payload → Result String
unfolding base_json
to_json codec e payload = bind (base_json codec e) λ json_data. bind (codec.loads json_data) λ j.
    bind (content_value codec payload)
      λ content. bind (set_item "content" (str (codec.dumps content)) j) λ j'. ok (codec.dumps j')
