-- ===== src/Identity.antt =====
-- odoo_custom_addons/nostr_identity/models/nostr_identity_verifier.py, and the creation of keys in
-- nostr_identity.py: the connection of a verifier to its relay. What the record shows while the method
-- polls it, written by the handlers in other transactions, is an argument.
pub mod Polling
pub mod Tests
use agu_odoo.Base.{
  ⊤, ℕ, zero, suc, ◌+◌, Bool, true, false, not, ◌&&◌, Option, none, some, String, List, [], ◌∷◌,
  ◌++◌, if◌then◌else◌,
}
use agu_odoo.Python.{Error, Result, ok, err, exception, user_error, bind, Exec}
use agu_odoo.Text.{concat, nonempty}
use agu_odoo.Odoo.{is_set, text_of}
use agu_odoo.Json.{Json}

pub data SocketState : Type 0 where
  disconnected connecting connected : SocketState

-- `nostr.identity.verifier`
pub record Verifier : Type 0 where
  pub relay_url : String
  pub websocket_state : SocketState
  pub last_error : Option String

-- What a poll of the record shows.
pub record Seen : Type 0 where
  pub state : SocketState
  pub last_error : Option String

-- The outside of a connection: whether the socket can be created, and what each poll shows.
pub record Network : Type 0 where
  pub create_websocket : Result ⊤
  pub seen : ℕ → Seen

abbrev pub is_connected : SocketState → Bool
is_connected connected = true
is_connected connecting = false
is_connected disconnected = false

abbrev pub or_text : Option String → String → String
or_text t default = if is_set t then text_of t else default

-- One round of the loop: to return, to raise, or to sleep and go on with `rest`
abbrev pub poll_round : Seen → Result ⊤ × ℕ → Result ⊤ × ℕ
poll_round s rest = elim s.state [
  | connected ↦ (ok tt, 0)
  | disconnected ↦ (err (exception user_error (or_text s.last_error "Connection failed")), 0)
  | connecting ↦ (rest.0, rest.1 + 1)
]

-- The loop, with the rounds that are left and the number of the next one; the second part counts the
-- half seconds that were slept.
unfoldable pub poll : Network → ℕ → ℕ → Result ⊤ × ℕ
poll net zero k = (err (exception user_error "Connection timeout"), 0)
poll net (suc rounds) k = poll_round (net.seen k) (poll net rounds (k + 1))

abbrev pub rounds : ℕ
rounds = 20

-- The `except` of `connect_to_relay`
abbrev pub connection_ended : Result ⊤ → Verifier → Result Bool × Verifier
connection_ended (ok u) v = (ok true, record v { websocket_state = connected })
connection_ended (err e) v =
    (ok false, record v { websocket_state = disconnected; last_error = some e.text })

-- `connect_to_relay`
unfoldable pub connect_to_relay : Network → Exec Verifier Bool
connect_to_relay net v =
    if is_connected v.websocket_state
    then (ok true, v)
    else connection_ended (bind net.create_websocket λ _. (poll net rounds 0).0)
        (record v { websocket_state = connecting; last_error = none })

-- `_handle_error`, `_handle_close` and `_handle_open`
unfoldable pub handle_error : String → Verifier → Verifier
handle_error error v = record v { last_error = some error; websocket_state = disconnected }

unfoldable pub handle_close : Verifier → Verifier
handle_close v = record v { websocket_state = disconnected }

unfoldable pub handle_open : Verifier → Verifier
handle_open v = record v { websocket_state = connected }

-- A socket: what its `send` and `close` do
pub record Socket : Type 0 where
  pub send : String → Result ⊤
  pub close : Result ⊤

-- The `try` of `publish_event`. `_get_ws_connection` reads the context of the caller;
-- `_set_ws_connection` changes a variable of its own, so a new connection does not reach the context.
abbrev pub sent : Option Socket → String → Result Bool
sent none message = err (exception user_error "WebSocket connection is not available")
sent (some ws) message = bind (ws.send message) λ _. ok true

abbrev pub publish_failed : Result Bool → Result Bool
publish_failed (ok b) = ok b
publish_failed (err e) =
    err (exception user_error (concat ("Failed to publish event: " ∷ e.text ∷ [])))

abbrev pub after_connection :
    Option Socket → String → Result Bool × Verifier → Result Bool × Verifier
after_connection ws message (ok true, v) = (publish_failed (sent ws message), v)
after_connection ws message (ok false, v) =
    (err (exception user_error "Failed to connect to relay"), v)
after_connection ws message (err e, v) = (err e, v)

-- `publish_event`, with the socket of the context
unfoldable pub publish_event : Network → Option Socket → String → Exec Verifier Bool
unfolding connect_to_relay
publish_event net ws message v =
    if is_connected v.websocket_state
    then (publish_failed (sent ws message), v)
    else after_connection ws message (connect_to_relay net v)

-- `close_connection`; an exception of `close` is logged
unfoldable pub close_connection : Option Socket → Verifier → Verifier
close_connection ws v = record v { websocket_state = disconnected }

-- `nostr.message`
pub record Message : Type 0 where
  pub content : String
  pub processed : Bool

-- `_handle_message`
unfoldable pub handle_message : String → List Message → List Message
handle_message message messages = messages ++ (record { content = message; processed = false } ∷ [])

-- `process_messages`
unfoldable pub process_messages : List Message → List Message
process_messages [] = []
process_messages (m ∷ messages) =
    (if m.processed then m else record m { processed = true }) ∷ process_messages messages

-- The keys that a new identity is given
pub record KeyVals : Type 0 where
  pub public_key : Option String
  pub private_key : Option String

abbrev pub generate : Result (String × String) → Result KeyVals
generate (ok (public_key, private_key)) =
    ok (record { public_key = some public_key; private_key = some private_key })
generate (err e) =
    err (exception user_error (concat ("Failed to generate Nostr keys: " ∷ e.text ∷ [])))

-- `create` of an identity: a new pair, where one of the keys is not given
unfoldable pub created_keys : Result (String × String) → KeyVals → Result KeyVals
created_keys generated vals = elim vals.public_key [
  | none ↦ generate generated
  | some p ↦ elim vals.private_key [ none ↦ generate generated | some s ↦ ok vals ]
]
