-- ===== src/Publisher/Events/Listener.antt =====
-- The listener of odoo_custom_addons/nostr_publisher/models/nostr_publisher.py, which fills the table
-- of events.
use agu_odoo.Base.{ℕ, true, Option, none, some, String, List, [], ◌∷◌, if◌then◌else◌}
use agu_odoo.Python.{Result, ok, err, exception, key_error, bind}
use agu_odoo.Text.{concat}
use agu_odoo.Json.{Json, Doc, json, num, str, obj, loads, index, get?, equals_text}
use agu_odoo.Nostr.{NostrLib}
use agu_odoo.Publisher.Events.{EventVals, StoredEvent, create, is_known}

-- An event as a relay sends it, with the keys that the code reads.
pub record WireEvent : Type 0 where
  pub id : Option String
  pub kind : Option ℕ
  pub content : Option String
  pub tags : Option Json
  pub pubkey : Option String
  pub created_at : Option ℕ
  pub sig : Option String

abbrev pub missing : {A : Type 0} → String → Result A
missing key = err (exception key_error (concat ("'" ∷ key ∷ "'" ∷ [])))

-- The dictionary that `_process_event` passes to `create`; its keys are read in this order.
abbrev pub vals_from :
    String
    → Option ℕ
    → Option String
    → Option Json
    → Option String
    → Option ℕ
    → Option String
    → Result EventVals
vals_from event_id (some kind) (some content) (some tags) (some pubkey) (some created_at)
      (some sig) =
    ok (record {
      event_id = some event_id;
      kind = some kind;
      content = some content;
      tags = some (json tags);
      public_key = some pubkey;
      created_at = some created_at;
      signature = some sig;
      published = true;
    })
vals_from event_id none _ _ _ _ _ = missing "kind"
vals_from event_id _ none _ _ _ _ = missing "content"
vals_from event_id _ _ none _ _ _ = missing "tags"
vals_from event_id _ _ _ none _ _ = missing "pubkey"
vals_from event_id _ _ _ _ none _ = missing "created_at"
vals_from event_id _ _ _ _ _ _ = missing "sig"

unfoldable pub vals_of_wire : String → WireEvent → Result EventVals
vals_of_wire event_id w = vals_from event_id w.kind w.content w.tags w.pubkey w.created_at w.sig

abbrev pub create_from : NostrLib → Result EventVals → List StoredEvent → List StoredEvent
create_from lib (err e) events = events
create_from lib (ok v) events = (create lib v events).1

-- `_process_event`, which catches every exception
abbrev pub process_id : NostrLib → WireEvent → Option String → List StoredEvent → List StoredEvent
process_id lib w none events = events
process_id lib w (some event_id) events =
    if is_known event_id events then events else create_from lib (vals_of_wire event_id w) events

unfoldable pub process_event : NostrLib → WireEvent → List StoredEvent → List StoredEvent
process_event lib w events = process_id lib w w.id events

abbrev pub as_text : Option Json → Option String
as_text (some (str s)) = some s
as_text _ = none

-- Numbers are natural ones; what Odoo would convert to a number, such as a numeric text, is not followed.
abbrev pub as_number : Option Json → Option ℕ
as_number (some (num n)) = some n
as_number _ = none

-- The event in a message: the values of an object at the keys that are read.
abbrev pub wire_of : Json → WireEvent
wire_of (obj fs) = record {
  id = as_text (get? "id" fs);
  kind = as_number (get? "kind" fs);
  content = as_text (get? "content" fs);
  tags = get? "tags" fs;
  pubkey = as_text (get? "pubkey" fs);
  created_at = as_number (get? "created_at" fs);
  sig = as_text (get? "sig" fs);
}
wire_of _ = record {
  id = none;
  kind = none;
  content = none;
  tags = none;
  pubkey = none;
  created_at = none;
  sig = none;
}

-- What happens at the socket while the listener waits.
pub data Incoming : Type 0 where
  message : Doc → Incoming
  timeout closed failure : Incoming

-- What the listener does next: wait again, or connect again after some seconds.
pub data Next : Type 0 where
  wait : Next
  reconnect_after : ℕ → Next

-- The branches on the first item of a message.
abbrev pub handle_message : NostrLib → Json → Json → List StoredEvent → Result (List StoredEvent)
handle_message lib j head events =
    if equals_text "EVENT" head
    then bind (index 2 j) (λ e. ok (process_event lib (wire_of e) events))
    else if equals_text "EOSE" head
    then ok events
    else if equals_text "NOTICE" head
    then bind (index 1 j) (λ notice. ok events)
    else ok events

abbrev pub read_message : NostrLib → Doc → List StoredEvent → Result (List StoredEvent)
read_message lib doc events =
    bind (loads doc) λ j. bind (index 0 j) λ head. handle_message lib j head events

abbrev pub after_message : List StoredEvent → Result (List StoredEvent) → List StoredEvent × Next
after_message events (ok events') = (events', wait)
after_message events (err e) = (events, reconnect_after 10)

-- One round of `listen_to_relay` in `_listen_for_events`.
unfoldable pub listen_step : NostrLib → Incoming → List StoredEvent → List StoredEvent × Next
listen_step lib (message doc) events = after_message events (read_message lib doc events)
listen_step lib timeout events = (events, wait)
listen_step lib closed events = (events, reconnect_after 5)
listen_step lib failure events = (events, reconnect_after 10)

-- The rounds of all relays share the table, in the order in which they come.
unfoldable pub listen : NostrLib → List Incoming → List StoredEvent → List StoredEvent
unfolding listen_step
listen lib [] events = events
listen lib (i ∷ incoming) events = listen lib incoming (listen_step lib i events).0
