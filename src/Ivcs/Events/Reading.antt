-- ===== src/Ivcs/Events/Reading.antt =====
-- `from_json` of nostr_events.py: the values that it makes of a JSON text, which reach no record. It is a
-- method of the class: the anchor's reads `cls.env`, which a class does not have, and the others call
-- `create` on the class with the values only.
use agu_odoo.Base.{ℕ, zero, suc, String, if◌then◌else◌}
use agu_odoo.Python.{Result, ok, err, exception, type_error, attribute_error, bind}
use agu_odoo.Text.{starts_with}
use agu_odoo.Json.{Json, null, bool, num, str, arr, obj, item}
use agu_odoo.Ivcs.Events.{
  Codec, EventClass, anchor_event, branch_event, commit_event, tree_event, blob_event,
}

-- `json.loads(value)`, of a value that has to be a text
abbrev pub load_text : Codec → Json → Result Json
load_text codec (str s) = codec.loads s
load_text codec null =
    err (exception type_error "the JSON object must be str, bytes or bytearray, not NoneType")
load_text codec (bool b) =
    err (exception type_error "the JSON object must be str, bytes or bytearray, not bool")
load_text codec (num n) =
    err (exception type_error "the JSON object must be str, bytes or bytearray, not int")
load_text codec (arr xs) =
    err (exception type_error "the JSON object must be str, bytes or bytearray, not list")
load_text codec (obj fs) =
    err (exception type_error "the JSON object must be str, bytes or bytearray, not dict")

-- `text.replace("_branch", "")`, with the characters of an occurrence that are still to be skipped
unfoldable pub remove_branch : ℕ → String → String
remove_branch skipped String.[] = ""
remove_branch (suc k) (String.◌∷◌ c s) = remove_branch k s
remove_branch zero (String.◌∷◌ c s) =
    let gone = remove_branch 6 s in
    let kept = remove_branch 0 s in
    if starts_with (String.◌∷◌ c s) "_branch" then gone else String.◌∷◌ c kept

abbrev pub action_of : Json → Result String
action_of (str s) = ok (remove_branch 0 s)
action_of null = err (exception attribute_error "'NoneType' object has no attribute 'replace'")
action_of (bool b) = err (exception attribute_error "'bool' object has no attribute 'replace'")
action_of (num n) = err (exception attribute_error "'int' object has no attribute 'replace'")
action_of (arr xs) = err (exception attribute_error "'list' object has no attribute 'replace'")
action_of (obj fs) = err (exception attribute_error "'dict' object has no attribute 'replace'")

abbrev pub date_of : Codec → Json → Result ℕ
date_of codec (str s) = codec.fromisoformat s
date_of codec null = err (exception type_error "fromisoformat: argument must be str")
date_of codec (bool b) = err (exception type_error "fromisoformat: argument must be str")
date_of codec (num n) = err (exception type_error "fromisoformat: argument must be str")
date_of codec (arr xs) = err (exception type_error "fromisoformat: argument must be str")
date_of codec (obj fs) = err (exception type_error "fromisoformat: argument must be str")

-- The values of the base class
pub record BaseVals : Type 0 where
  pub id : Json
  pub pubkey : Json
  pub created_at : Json
  pub kind : Json
  pub tags : String
  pub content : Json
  pub sig : Json

-- The values that a class adds
pub data PayloadVals : Type 0 where
  branch_vals : Json → String → PayloadVals
  commit_vals : Json → Json → Json → ℕ → PayloadVals
  tree_vals : Json → String → PayloadVals
  blob_vals : Json → Json → Json → PayloadVals

abbrev pub base_vals : Codec → Json → Result BaseVals
base_vals codec j = bind (item "id" j) λ id. bind (item "pubkey" j) λ pubkey.
    bind (item "created_at" j) λ created_at. bind (item "kind" j) λ kind.
      bind (item "tags" j) λ tags. bind (item "content" j) λ content. bind (item "sig" j) λ sig.
        ok (record {
          id = id;
          pubkey = pubkey;
          created_at = created_at;
          kind = kind;
          tags = codec.dumps tags;
          content = content;
          sig = sig;
        })

-- `cls.env` of the anchor, which is read before all of the values
abbrev pub no_environment : {A : Type 0} → Result A
no_environment =
    err (
      exception attribute_error
        "type object 'nostr.event.repository.anchor' has no attribute 'env'")

abbrev pub payload_vals : Codec → EventClass → Json → Result PayloadVals
payload_vals codec anchor_event content = no_environment
payload_vals codec branch_event content =
    bind (item "branch_name" content)
      λ name. bind (bind (item "action" content) action_of) λ action. ok (branch_vals name action)
payload_vals codec commit_event content = bind (item "hash" content) λ hash.
    bind (item "message" content) λ message. bind (item "author" content) λ author.
      bind (bind (item "date" content) (date_of codec))
        λ timestamp. ok (commit_vals hash message author timestamp)
payload_vals codec tree_event content =
    bind (item "hash" content)
      λ hash. bind (item "items" content) λ items. ok (tree_vals hash (codec.dumps items))
payload_vals codec blob_event content = bind (item "hash" content) λ hash.
    bind (item "size" content)
      λ size. bind (item "data" content) λ payload. ok (blob_vals hash size payload)

-- `cls.create(vals)`, where `cls` is the class of the model
abbrev pub create_on_class : {A V : Type 0} → V → Result A
create_on_class vals =
    err (exception type_error "create() missing 1 required positional argument: 'vals_list'")

-- The base class's `from_json`, which reads nothing else
unfoldable pub base_from_json : {A : Type 0} → Codec → String → Result A
base_from_json codec text = bind (bind (codec.loads text) (base_vals codec)) create_on_class

-- The dictionary that the other classes pass on
abbrev pub created_vals : Codec → EventClass → Json → Json → Result (BaseVals × PayloadVals)
created_vals codec anchor_event j content = no_environment
created_vals codec c j content =
    bind (base_vals codec j)
      λ base. bind (payload_vals codec c content) λ payload. ok (base, payload)

-- `from_json` of the other classes
unfoldable pub from_json : {A : Type 0} → Codec → EventClass → String → Result A
from_json codec c text = bind (codec.loads text) λ j.
    bind (bind (item "content" j) (load_text codec))
      λ content. bind (created_vals codec c j content) create_on_class
