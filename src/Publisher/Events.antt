-- ===== src/Publisher/Events.antt =====
-- odoo_custom_addons/nostr_publisher/models/nostr_event.py: the table of events; and the listener of
-- nostr_publisher.py that fills it.
pub mod Listener
pub mod Again
pub mod KeyFormats
use agu_odoo.Base.{
  ℕ, Bool, true, false, not, ◌&&◌, ◌||◌, Option, none, some, String, List, [], ◌∷◌, ◌==◌,
  if◌then◌else◌, any, is_some,
}
use agu_odoo.Python.{
  Error, Result, ok, err, exception, value_error, type_error, key_error, user_error, other_error,
  bind, or_error, is_ok, Exec,
}
use agu_odoo.Text.{concat, hex, nonempty, str_eq}
use agu_odoo.Json.{
  Json, Doc, json, plain, null, bool, num, str, arr, obj, loads, index, get?, equals_text,
}
use agu_odoo.Nostr.{NostrLib, Decoded, no_value, pair, triple}
use agu_odoo.Publisher.Keys.{is_bech32}

-- `nostr.event`
pub record StoredEvent : Type 0 where
  pub event_id : String
  pub kind : ℕ
  pub content : String
  pub tags : Doc
  pub public_key : String
  pub created_at : ℕ
  pub signature : String
  pub published : Bool

-- The values that `create` takes; a key that is missing is `none`.
pub record EventVals : Type 0 where
  pub event_id : Option String
  pub kind : Option ℕ
  pub content : Option String
  pub tags : Option Doc
  pub public_key : Option String
  pub created_at : Option ℕ
  pub signature : Option String
  pub published : Bool

-- `hrp, data = bech32_decode(key)` takes a pair apart, and nothing else.
abbrev pub event_hex_of_decoded : NostrLib → String → Decoded → Result String
event_hex_of_decoded lib key no_value =
    err (exception type_error "cannot unpack non-iterable NoneType object")
event_hex_of_decoded lib key (triple hrp payload) =
    err (exception value_error "too many values to unpack (expected 2)")
event_hex_of_decoded lib key (pair hrp none) =
    err (exception value_error (concat ("Invalid bech32 key: " ∷ key ∷ [])))
event_hex_of_decoded lib key (pair hrp (some payload)) = elim (lib.convertbits payload) [
  | none ↦ err (exception type_error "cannot convert 'NoneType' object to bytes")
  | some bytes ↦ ok (hex bytes)
]

-- `NostrEvent._convert_to_hex`
unfoldable pub event_convert_to_hex : NostrLib → String → Result String
event_convert_to_hex lib key =
    if is_bech32 key then event_hex_of_decoded lib key (lib.bech32_decode key) else ok key

abbrev has_text : Option String → Bool
has_text none = false
has_text (some s) = nonempty s

abbrev has_number : Option ℕ → Bool
has_number none = false
has_number (some n) = not (n == 0)

abbrev tags_parse : Option Doc → Bool
tags_parse none = true
tags_parse (some doc) = is_ok (loads doc)

-- `_validate_event`: every required field is there and is true as a Python value.
unfoldable pub validate_event : EventVals → Bool
validate_event v =
    has_text v.event_id
    && has_number v.kind
    && has_text v.content
    && has_text v.public_key
    && has_number v.created_at
    && has_text v.signature
    && tags_parse v.tags

-- `vals['public_key'] = self._convert_to_hex(vals['public_key'])`, if the key is there
abbrev with_hex_key : NostrLib → EventVals → Option String → Result EventVals
with_hex_key lib v none = ok v
with_hex_key lib v (some key) =
    bind (event_convert_to_hex lib key) λ hex_key. ok (record v { public_key = some hex_key })

abbrev text_or_empty : Option String → String
text_or_empty none = ""
text_or_empty (some s) = s

abbrev number_or_zero : Option ℕ → ℕ
number_or_zero none = 0
number_or_zero (some n) = n

abbrev tags_or_empty : Option Doc → Doc
tags_or_empty none = plain ""
tags_or_empty (some doc) = doc

-- The row of validated values.
abbrev row_of : EventVals → StoredEvent
row_of v = record {
  event_id = text_or_empty v.event_id;
  kind = number_or_zero v.kind;
  content = text_or_empty v.content;
  tags = tags_or_empty v.tags;
  public_key = text_or_empty v.public_key;
  created_at = number_or_zero v.created_at;
  signature = text_or_empty v.signature;
  published = v.published;
}

-- `search([('event_id', '=', event_id)])` finds a row.
abbrev pub is_known : String → List StoredEvent → Bool
is_known event_id events = any (λ (e : StoredEvent). str_eq e.event_id event_id) events

-- `super().create(vals)`, under the constraint UNIQUE(event_id)
abbrev insert_row : StoredEvent → Exec (List StoredEvent) StoredEvent
insert_row row events =
    if is_known row.event_id events
    then (err (exception other_error "Event ID must be unique!"), events)
    else (ok row, row ∷ events)

abbrev create_validated : Result EventVals → Exec (List StoredEvent) StoredEvent
create_validated (err e) events = (err e, events)
create_validated (ok v) events =
    if validate_event v
    then insert_row (row_of v) events
    else (err (exception user_error "Invalid Nostr event data"), events)

-- `NostrEvent.create`
unfoldable pub create : NostrLib → EventVals → Exec (List StoredEvent) StoredEvent
create lib v = create_validated (with_hex_key lib v v.public_key)
