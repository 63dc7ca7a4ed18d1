-- ===== src/Publisher/Publish.antt =====
-- `publish_event` of nostr_publisher.py with the methods that it calls, and the verification that
-- an event is found on a relay.
use agu_odoo.Base.{
  ℕ, zero, suc, ◌+◌, Bool, true, false, not, ◌&&◌, none, some, String, List, [], ◌∷◌, if◌then◌else◌,
  ltb, count_if,
}
use agu_odoo.Python.{
  Error, Result, ok, err, exception, user_error, attribute_error, bind, Exec, pure, raise, gets,
  catch, modify, raise_if, ◌>>=◌, ◌>>◌,
}
use agu_odoo.Text.{strip, concat, starts_with, str_eq}
use agu_odoo.Json.{Doc, Json, first_is, loads, index, get?, obj, equals_text}
use agu_odoo.Odoo.{is_set, text_of}
use agu_odoo.Nostr.{NostrLib, Event, Tags}
use agu_odoo.Publisher.{Publisher, is_active_state, get_relay_urls}
use agu_odoo.Publisher.Keys.{convert_to_hex}

-- The exchange with a relay that publishes an event: its reply, or an exception.
abbrev pub Sender : Type 0
Sender = String → Event → Result Doc

abbrev pub reply_is_ok : Result Doc → Bool
reply_is_ok (err e) = false
reply_is_ok (ok reply) = elim (first_is "OK" reply) [ ok b ↦ b | err e ↦ false ]

-- `_async_publish_to_relay` and `_publish_to_single_relay`; both catch every exception
unfoldable pub publish_to_single_relay : Sender → Event → String → Bool
publish_to_single_relay send event url = reply_is_ok (send (strip url) event)

abbrev pub is_empty {ℓ} : {A : Type ℓ} → List A → Bool
is_empty [] = true
is_empty (x ∷ xs) = false

-- What the code does once an event has reached a relay.
abbrev pub record_publish : ℕ → Publisher → Publisher
record_publish now p = record p {
  total_events_published = p.total_events_published + 1;
  success_count = p.success_count + 1;
  last_publish_date = some now;
}

-- The event that `publish_event` signs.
abbrev pub new_event : String → ℕ → ℕ → Tags → String → Event
new_event public_key now kind tags content = record {
  id = none;
  public_key = public_key;
  created_at = now;
  kind = kind;
  tags = tags;
  content = content;
  signature = none;
}

-- The first half of the `try` of `publish_event`: the event, signed with the publisher's key.
unfoldable pub prepare_event : NostrLib → ℕ → String → ℕ → Tags → Publisher → Result Event
prepare_event lib now content kind tags p =
    bind (convert_to_hex lib (text_of p.public_key)) λ hex_key.
      bind (lib.from_nsec (text_of p.private_key))
        λ private_key. lib.sign_event private_key (new_event hex_key now kind tags content)

abbrev pub no_relay_reached : String
no_relay_reached =
    "Failed to publish event to any relay. Please check relay connections and try again later."

-- The second half: to each active relay in turn.
unfoldable pub publish_to_relays : Sender → ℕ → Event → Exec Publisher Bool
publish_to_relays send now event = do
  relay_urls ← gets get_relay_urls
  raise_if (is_empty relay_urls) (exception user_error "No active relay URLs configured")
  if ltb 0 (count_if (publish_to_single_relay send event) relay_urls)
      then modify (record_publish now) >> pure true
      else raise (exception user_error no_relay_reached)

abbrev pub publish_signed : Sender → ℕ → Result Event → Exec Publisher Bool
publish_signed send now (err e) = raise e
publish_signed send now (ok event) = publish_to_relays send now event

abbrev pub publish_failed : Error → Exec Publisher Bool
publish_failed e = raise (
    exception user_error
      (concat ("An unexpected error occurred while publishing the event: " ∷ e.text ∷ [])))

abbrev pub keys_set : Publisher → Bool
keys_set p = is_set p.private_key && is_set p.public_key

unfoldable pub publish_event : NostrLib → Sender → ℕ → String → ℕ → Tags → Exec Publisher Bool
unfolding publish_to_relays
publish_event lib send now content kind tags = do
  active ← gets (λ p. is_active_state p.state)
  raise_if (not active) (exception user_error "Nostr Publisher is not active.")
  keys ← gets keys_set
  raise_if (not keys)
      (exception user_error "Nostr keys are not set. Please check your configuration.")
  catch
      (do
        prepared ← gets (prepare_event lib now content kind tags)
        publish_signed send now prepared)
      publish_failed

-- A message of a relay as it is sent, and as `json.loads` reads it.
pub record Frame : Type 0 where
  pub raw : String
  pub doc : Doc

abbrev pub id_is : String → Json → Result Bool
id_is event_id (obj fs) = elim (get? "id" fs) [
  | none ↦ ok false
  | some v ↦ ok (equals_text event_id v)
]
id_is event_id v = err (exception attribute_error "object has no attribute 'get'")

-- `json.loads(response)[2].get('id') == event_id`
abbrev pub frame_has : String → Frame → Result Bool
frame_has event_id f = bind (loads f.doc) (λ j. bind (index 2 j) (id_is event_id))

-- The loop of `_async_verify_request` over the messages that it waits for; a message that does
-- not come raises. Its `except` returns False.
unfoldable pub verify_messages : String → ℕ → List (Result Frame) → Bool
verify_messages event_id zero frames = false
verify_messages event_id (suc rounds) [] = false
verify_messages event_id (suc rounds) (err e ∷ frames) = false
verify_messages event_id (suc rounds) (ok f ∷ frames) =
    let rest = verify_messages event_id rounds frames in
    if starts_with f.raw "[\"EVENT\""
    then elim (frame_has event_id f) [ err e ↦ false | ok found ↦ if found then true else rest ]
    else if str_eq f.raw "[\"EOSE\",\"verify\"]"
    then false
    else rest

-- What a relay sends after a request to verify, by its url and the number of the attempt.
abbrev pub Verifier : Type 0
Verifier = String → ℕ → List (Result Frame)

unfoldable pub async_verify_request : Verifier → String → ℕ → String → Bool
unfolding verify_messages
async_verify_request relay event_id attempt url =
    verify_messages event_id 3 (relay (strip url) attempt)

-- One attempt: the relays in turn, up to the first that has the event.
unfoldable pub verify_attempt : Verifier → String → ℕ → List String → Bool
verify_attempt relay event_id attempt [] = false
verify_attempt relay event_id attempt (url ∷ urls) =
    let rest = verify_attempt relay event_id attempt urls in
    if async_verify_request relay event_id attempt url then true else rest

-- `_verify_event_published`: the attempts left, and the number of the next one
unfoldable pub verify_event_published : Verifier → String → List String → ℕ → ℕ → Bool
verify_event_published relay event_id urls zero attempt = false
verify_event_published relay event_id urls (suc rounds) attempt =
    let rest = verify_event_published relay event_id urls rounds (attempt + 1) in
    if verify_attempt relay event_id attempt urls then true else rest
