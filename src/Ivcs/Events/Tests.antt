-- ===== src/Ivcs/Events/Tests.antt =====
-- A branch event, written and read with a JSON library that knows a few texts.
use agu_odoo.Base.{⊤, ◌≡◌, refl, false, Option, none, some, String, if◌then◌else◌}
use agu_odoo.Python.{type_error, bind, Result, ok, err, exception, json_decode_error}
use agu_odoo.Text.{str_eq}
use agu_odoo.Json.{Json, str, bool, arr, obj, nil, field, end, get?}
use agu_odoo.Ivcs.Events.{Codec, BaseEvent, Payload, branch, update, wire, to_json, branch_event}
use agu_odoo.Ivcs.Events.Reading.{from_json, remove_branch}
use agu_odoo.Ivcs.Events.Checks.{check_content}

abbrev event : BaseEvent
event = record {
  id = "e1";
  pubkey = "1234";
  created_at = 90;
  kind = 31227;
  tags = none;
  content = none;
  sig = "b2";
}

abbrev main_branch : Payload
main_branch = branch "main" update

abbrev content : Json
content = obj (field "action" (str "update_branch") (field "branch_name" (str "main") end))

-- The texts that are written, each by a short name
abbrev named : Option Json → String
named none = "content"
named (some (str s)) = "event"
named (some _) = "base event"

abbrev dumps : Json → String
dumps (obj fs) = named (get? "content" fs)
dumps _ = "tags"

abbrev loads : String → Result Json
loads s =
    if str_eq s "content"
    then ok content
    else if str_eq s "event"
    then ok (wire event (arr nil) (str "content"))
    else if str_eq s "base event"
    then ok (wire event (arr nil) (bool false))
    else err (exception json_decode_error "Expecting value: line 1 column 1 (char 0)")

abbrev codec : Codec
codec = record {
  dumps = dumps;
  loads = loads;
  isoformat = λ t. "1970-01-01T00:01:30";
  fromisoformat = λ text. ok 90;
}

-- A name that holds the suffix twice loses both.
remove_branch_twice : remove_branch 0 "a_branch_branch" ≡ "a"
unfolding remove_branch
remove_branch_twice = refl

-- What is written is read up to the call of `create`.
written_then_read :
    bind (to_json codec event main_branch) (from_json {A = ⊤} codec branch_event)
    ≡ err (exception type_error "create() missing 1 required positional argument: 'vals_list'")
unfolding to_json from_json remove_branch
written_then_read = refl

content_accepted : check_content codec branch_event (str "content") ≡ ok tt
unfolding check_content
content_accepted = refl
