-- ===== src/Bridge/Strategies.antt =====
-- The publish strategies of gitlab_nostr_bridge/models/nostr_event.py, the choice between them, the
-- decorator around `publish_event`, and the publication through `RelayManager`.
use agu_odoo.Base.{
  ℕ, ◌+◌, ◌*◌, ◌/◌, ◌%◌, Bool, true, false, Option, none, some, String, List, [], ◌∷◌, map, take,
  any, count_if, ltb, if◌then◌else◌,
}
use agu_odoo.Python.{Error, Result, ok, err, exception, attribute_error, bind, Exec}
use agu_odoo.Text.{str_eq, concat, join, show, occurs, codes, lower, split_commas, strip_all}
use agu_odoo.Odoo.{Notification, Severity, success, warning, danger}
use agu_odoo.Nostr.{NostrLib, Event}
use agu_odoo.Bridge.{BridgeEvent, User, create_nostr_event, sign_event}
use agu_odoo.Bridge.Relays.{
  RelayNet, Rate, get_relay_urls, publish_to_relays, replies, manage_relay_list,
}

-- The parameters of the configuration that the strategies read; a flag is the text `True` or not.
pub record Params : Type 0 where
  pub relay_urls : String
  pub use_new_relay_management : String
  pub use_async_publish : String
  pub use_alternative_publish : String

pub record Env : Type 0 where
  pub lib : NostrLib
  pub user : User
  pub now : ℕ
  pub params : Params
  pub net : RelayNet

-- `_return_notification`
abbrev pub return_notification : String → String → Severity → Bool → Notification
return_notification title message severity sticky = record {
  title = title;
  message = message;
  severity = severity;
  sticky = sticky;
}

abbrev pub not_configured : Notification
not_configured =
    return_notification "Configuration Error" "No Nostr relay URLs configured." warning false

abbrev pub reached_none : Notification
reached_none =
    return_notification "Publishing Failed" "Failed to publish Nostr event to any relay." danger
      true

abbrev pub is_empty : List String → Bool
is_empty [] = true
is_empty (url ∷ urls) = false

-- The event that a strategy sends.
unfoldable pub signed_event : Env → BridgeEvent → Result Event
signed_event env e = bind (create_nostr_event env.lib env.now e) (sign_event env.lib env.user)

-- `relay_manager.relay_urls[:5]`
unfoldable pub first_urls : Env → List String
unfolding get_relay_urls
first_urls env = take 5 (get_relay_urls env.params.relay_urls)

-- `result['success'] and 'true' in result['response'].lower()`
abbrev pub says_true : Result String → Bool
says_true (err e) = false
says_true (ok response) = occurs (codes "true") (map lower (codes response))

abbrev pub accepts : Env → Event → String → Bool
accepts env event url = says_true (env.net.exchange 0 url event)

-- A line of the logs.
abbrev relay_log : String → Result String → String
relay_log url (ok response) = concat ("Relay " ∷ url ∷ ": Success - " ∷ response ∷ [])
relay_log url (err e) = concat ("Relay " ∷ url ∷ ": Failed - " ∷ e.text ∷ [])

abbrev relay_logs : Env → Event → List String → String
relay_logs env event urls =
    join "\n" (map (λ url. relay_log url (env.net.exchange 0 url event)) urls)

abbrev mark_published : Event → String → BridgeEvent → BridgeEvent
mark_published event logs e = record e {
  event_id = event.id;
  signature = event.signature;
  published = true;
  logs = some logs;
}

abbrev published_to : ℕ → Notification
published_to count =
    return_notification "Success"
      (concat ("Nostr event published successfully to " ∷ show count ∷ " relays." ∷ [])) success
      false

abbrev pub original_send : Env → Result Event → Exec BridgeEvent Notification
original_send env (err x) e = (err x, e)
original_send env (ok event) e =
    let urls = first_urls env in
    let count = count_if (accepts env event) urls in
    let logs = relay_logs env event urls in
    if ltb 0 count
    then (ok (published_to count), mark_published event logs e)
    else (ok reached_none, record e { logs = some logs })

-- `OriginalPublishStrategy.publish`
unfoldable pub original_publish : Env → Exec BridgeEvent Notification
original_publish env e =
    if is_empty (first_urls env)
    then (ok not_configured, e)
    else original_send env (signed_event env e) e

-- `f"{rate:.2f}"`, of a rate with at most five relays: no such rate lies between two hundredths.
abbrev show_rate : Rate → String
show_rate rate =
    let hundredths = (rate.successes * 200 + rate.relays) / (rate.relays * 2) in
    concat
      (show (hundredths / 100) ∷ "." ∷ show (hundredths % 100 / 10) ∷ show (hundredths % 10) ∷ [])

abbrev pub alternative_finish : Env → Event → Result Rate → Exec BridgeEvent Notification
alternative_finish env event (err x) e = (err x, e)
alternative_finish env event (ok rate) e =
    if ltb 0 rate.successes
    then (
      ok (
          return_notification "Success"
            (concat
              ("Nostr event published successfully with " ∷ show_rate rate ∷ " success rate." ∷ []))
            success false),
      mark_published event
          (concat (
            "Event published to relays with "
            ∷ show_rate rate
            ∷ " success rate: "
            ∷ join ", " (first_urls env)
            ∷ []))
          e,
    )
    else (ok reached_none, e)

abbrev pub alternative_send : Env → Result Event → Exec BridgeEvent Notification
alternative_send env (err x) e = (err x, e)
alternative_send env (ok event) e =
    alternative_finish env event (publish_to_relays env.net 0 event (first_urls env)) e

-- `AlternativePublishStrategy.publish`
unfoldable pub alternative_publish : Env → Exec BridgeEvent Notification
alternative_publish env e =
    if is_empty (first_urls env)
    then (ok not_configured, e)
    else alternative_send env (signed_event env e) e

abbrev pub unexpected : Error → Notification
unexpected x =
    return_notification "Error" (concat ("An unexpected error occurred: " ∷ x.text ∷ [])) danger
      true

unfoldable pub async_urls : Env → List String
async_urls env = strip_all (split_commas env.params.relay_urls)

abbrev pub async_send : Env → Result Event → BridgeEvent → Notification × BridgeEvent
async_send env (err x) e = (unexpected x, e)
async_send env (ok event) e =
    if is_empty (async_urls env)
    then (not_configured, e)
    else if any (replies env.net 0 event) (async_urls env)
    then (
      return_notification "Success" "Event published successfully." success false,
      mark_published event
          (concat ("Event published to relays: " ∷ join ", " (async_urls env) ∷ [])) e,
    )
    else (return_notification "Failed" "Failed to publish the event to any relay." danger true, e)

-- `AsyncPublishStrategy.publish`, which catches every exception
unfoldable pub async_publish : Env → Exec BridgeEvent Notification
async_publish env e = let (n, e') = async_send env (signed_event env e) e in (ok n, e')

-- What `_get_publish_strategy` returns: an object, or the bound method of the relay management.
pub data Strategy : Type 0 where
  new_relay_management async_strategy alternative_strategy original_strategy : Strategy

unfoldable pub get_publish_strategy : Params → Strategy
get_publish_strategy params =
    if str_eq params.use_new_relay_management "True"
    then new_relay_management
    else if str_eq params.use_async_publish "True"
    then async_strategy
    else if str_eq params.use_alternative_publish "True"
    then alternative_strategy
    else original_strategy

-- `strategy.publish(self)`; a bound method has no such attribute
abbrev pub strategy_publish : Env → Strategy → Exec BridgeEvent Notification
strategy_publish env new_relay_management e =
    (err (exception attribute_error "'method' object has no attribute 'publish'"), e)
strategy_publish env async_strategy e = async_publish env e
strategy_publish env alternative_strategy e = alternative_publish env e
strategy_publish env original_strategy e = original_publish env e

-- `enhanced_publish_event`: every exception becomes a notification.
abbrev pub enhanced : Result Notification × BridgeEvent → Result Notification × BridgeEvent
enhanced (ok n, e) = (ok n, e)
enhanced (err x, e) = (ok (unexpected x), e)

-- `publish_event` and `action_publish`
unfoldable pub publish_event : Env → Exec BridgeEvent Notification
publish_event env e = enhanced (strategy_publish env (get_publish_strategy env.params) e)

-- An event with the parameter nostr_bridge.successful_relays.
pub record Site : Type 0 where
  pub event : BridgeEvent
  pub successful_relays : Option String

abbrev pub written_to : Option String → Option String → Option String
written_to none old = old
written_to (some new) old = some new

abbrev pub managed : Result (Bool × Option String) → Site → Notification × Site
managed (err x) s = (unexpected x, s)
managed (ok (true, w)) s = (
  return_notification "Success" "Nostr event published successfully." success false,
  record {
    event = record (s.event) {
      published = true;
      logs = some "Event published successfully using new relay management system.";
    };
    successful_relays = written_to w s.successful_relays;
  },
)
managed (ok (false, w)) s = (
  return_notification "Publishing Failed"
      "Failed to publish Nostr event using new relay management system." danger true,
  record s { successful_relays = written_to w s.successful_relays },
)

abbrev pub manage_event : Env → Result Event → Exec Site Notification
manage_event env (err x) s = (err x, s)
manage_event env (ok event) s =
    let (n, s') =
      managed (manage_relay_list env.net (get_relay_urls env.params.relay_urls) event) s in
    (ok n, s')

-- `_new_relay_management_publish`; the event that it sends is not signed
unfoldable pub new_relay_management_publish : Env → Exec Site Notification
new_relay_management_publish env s = manage_event env (create_nostr_event env.lib env.now s.event) s
