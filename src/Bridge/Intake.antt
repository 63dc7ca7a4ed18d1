-- ===== src/Bridge/Intake.antt =====
-- The listener of gitlab_nostr_bridge/models/nostr_event.py, and the table that it fills.
use agu_odoo.Base.{ℕ, Bool, true, false, none, some, String, List, [], ◌∷◌, if◌then◌else◌, any}
use agu_odoo.Python.{Result, ok, err, exception, type_error, bind}
use agu_odoo.Text.{str_eq}
use agu_odoo.Json.{
  Json, Items, Doc, json, plain, null, num, str, arr, cons, nil, item, index, equals_text,
}
use agu_odoo.Nostr.{NostrLib, Tags}
use agu_odoo.Bridge.{BridgeEvent, bech32_to_hex}

-- The values of an event, of the types that the columns have.
abbrev pub wrong_type : {A : Type 0} → Result A
wrong_type = err (exception type_error "a value has another type than its column")

abbrev pub as_text : Json → Result String
as_text (str s) = ok s
as_text _ = wrong_type

abbrev pub as_number : Json → Result ℕ
as_number (num n) = ok n
as_number _ = wrong_type

abbrev pub texts : Items → Result (List String)
texts nil = ok []
texts (cons j js) = let rest = texts js in bind (as_text j) λ s. bind rest λ ss. ok (s ∷ ss)

abbrev pub as_texts : Json → Result (List String)
as_texts (arr js) = texts js
as_texts _ = wrong_type

abbrev pub tag_rows : Items → Result Tags
tag_rows nil = ok []
tag_rows (cons j js) = let rest = tag_rows js in bind (as_texts j) λ t. bind rest λ ts. ok (t ∷ ts)

abbrev pub as_tags : Json → Result Tags
as_tags (arr js) = tag_rows js
as_tags _ = wrong_type

-- `search([('event_id', '=', event_id)])` finds a row.
abbrev pub has_id : String → BridgeEvent → Bool
has_id event_id e = elim e.event_id [ none ↦ false | some i ↦ str_eq i event_id ]

abbrev pub is_known : String → List BridgeEvent → Bool
is_known event_id events = any (has_id event_id) events

-- The row of an event that is new. The code reads the keys `public_key` and `signature`.
unfoldable pub new_row : NostrLib → String → Json → Result BridgeEvent
new_row lib event_id j = bind (bind (item "kind" j) as_number) λ kind.
    bind (bind (item "content" j) as_text) λ content. bind (item "tags" j) λ tags.
      bind (bind (item "public_key" j) as_text) λ public_key.
        bind (bind (item "created_at" j) as_number) λ created_at.
          bind (bind (item "signature" j) as_text) λ signature.
            bind (bech32_to_hex lib public_key) λ key. ok (record {
              event_id = some event_id;
              kind = kind;
              content = content;
              tags = some (as_tags tags);
              public_key = key;
              created_at = created_at;
              signature = some signature;
              published = true;
              logs = none;
            })

abbrev pub added : Result BridgeEvent → List BridgeEvent → List BridgeEvent
added (ok row) events = row ∷ events
added (err e) events = events

abbrev pub process_id : NostrLib → Json → Result String → List BridgeEvent → List BridgeEvent
process_id lib j (err e) events = events
process_id lib j (ok event_id) events =
    if is_known event_id events then events else added (new_row lib event_id j) events

-- `_process_event`, which catches every exception
unfoldable pub process_event : NostrLib → Json → List BridgeEvent → List BridgeEvent
process_event lib j events = process_id lib j (bind (item "id" j) as_text) events

-- What happens at the socket while the listener waits, and what it does next.
pub data Incoming : Type 0 where
  message : Doc → Incoming
  timeout closed failure : Incoming

pub data Next : Type 0 where
  wait : Next
  reconnect_after : ℕ → Next

abbrev pub is_null : Json → Bool
is_null null = true
is_null _ = false

-- The branches on the first item of a message.
abbrev pub subscribed : NostrLib → Json → List BridgeEvent → Json → Result (List BridgeEvent)
subscribed lib j events subscription =
    if equals_text "my_subscription" subscription
    then bind (index 2 j) (λ e. ok (if is_null e then events else process_event lib e events))
    else ok events

abbrev pub handle_message : NostrLib → Json → List BridgeEvent → Json → Result (List BridgeEvent)
handle_message lib j events head =
    if equals_text "EVENT" head
    then bind (index 1 j) (subscribed lib j events)
    else if equals_text "EOSE" head
    then ok events
    else if equals_text "NOTICE" head
    then bind (index 1 j) (λ notice. ok events)
    else ok events

abbrev pub after_message : List BridgeEvent → Result (List BridgeEvent) → List BridgeEvent × Next
after_message events (ok events') = (events', wait)
after_message events (err e) = (events, reconnect_after 10)

abbrev pub read_message : NostrLib → Doc → List BridgeEvent → List BridgeEvent × Next
read_message lib (plain text) events = (events, wait)
read_message lib (json j) events =
    after_message events (bind (index 0 j) (handle_message lib j events))

-- One round of `listen_to_relay`; a text that is no JSON is logged and skipped.
unfoldable pub listen_step : NostrLib → Incoming → List BridgeEvent → List BridgeEvent × Next
listen_step lib (message doc) events = read_message lib doc events
listen_step lib timeout events = (events, wait)
listen_step lib closed events = (events, reconnect_after 5)
listen_step lib failure events = (events, reconnect_after 10)

unfoldable pub listen_to_relay : NostrLib → List Incoming → List BridgeEvent → List BridgeEvent
unfolding listen_step
listen_to_relay lib [] events = events
listen_to_relay lib (i ∷ incoming) events =
    listen_to_relay lib incoming (listen_step lib i events).0
