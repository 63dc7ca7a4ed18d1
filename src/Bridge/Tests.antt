-- ===== src/Bridge/Tests.antt =====
-- Runs of the GitLab bridge on concrete relays, keys and events.
use agu_odoo.Base.{
  length, ℕ, ◌≡◌, refl, sym, ap, true, false, Option, none, some, String, List, [], ◌∷◌, map, take,
  All, ◌<◌, arith, ◌==◌, if◌then◌else◌,
}
use agu_odoo.Python.{ok, err, exception, other_error, ok-inj}
use agu_odoo.Text.{str_eq, join, strip, split_commas}
use agu_odoo.Json.{json, arr, obj, str, num, cons, nil, field, end, Fields}
use agu_odoo.Odoo.{Notification, danger}
use agu_odoo.Nostr.{Event}
use agu_odoo.Publisher.Tests.{test_lib}
use agu_odoo.Bridge.{BridgeEvent, bech32_to_hex, get_private_key, create_nostr_event, sign_event}
use agu_odoo.Bridge.Relays.{
  RelayNet, TestedRelay, Rate, url_of, is_low, max_attempts, insert_relay, sort_relays, test_relays,
  select_best_relays, publish_to_relays, round_relays, retry_rounds, manage_relay_list,
}
use agu_odoo.Bridge.Fastest.{Answered, Considered, select_best_relays_fastest}
use agu_odoo.Bridge.Rounds.{attempt, LowAt, manage_relay_list_true, manage_relay_list_false}
use agu_odoo.Bridge.Strategies.{
  Params, Env, first_urls, signed_event, get_publish_strategy, original_publish, publish_event,
}
use agu_odoo.Bridge.Publishing.{delivers, Reports, publish_event-Reports}
use agu_odoo.Bridge.GitLab.{
  get_event_kind, user_key, user_key_to_hex, create_and_publish, create_gitlab_event,
  create_gitlab_event_row,
}
use agu_odoo.Bridge.Sending.{
  answered, timed_out, Attempts, publish_to_relay, publish_to_relay_complete,
}
use agu_odoo.Bridge.Intake.{Incoming, message}

-- Both relays answer their test, the second one faster, and accept what is published.
abbrev test_net : RelayNet
test_net = record {
  tested = λ url. if str_eq url "wss://two" then ok 10 else ok 30;
  exchange = λ round url event. ok "[\"OK\",\"a1\",true,\"\"]";
}

-- The relays answer their test and nothing else.
abbrev silent_net : RelayNet
silent_net = record {
  tested = λ url. ok 10;
  exchange = λ round url event. err (exception other_error "timed out");
}

abbrev dead_net : RelayNet
dead_net = record {
  tested = λ url. err (exception other_error "refused");
  exchange = λ round url event. err (exception other_error "refused");
}

abbrev signed : Event
signed = record {
  id = some "a1";
  public_key = "1234";
  created_at = 100;
  kind = 1;
  tags = [];
  content = "hello";
  signature = some "b2";
}

abbrev urls : List String
urls = "wss://one" ∷ "wss://two" ∷ []

select_best_relays_fastest_example :
    let selected = select_best_relays 1 (test_relays test_net urls) in
    All (Answered test_net) selected
    × All (λ url. Considered test_net url selected) urls
    × (length selected ≡ 1)
unfolding strip
select_best_relays_fastest_example = select_best_relays_fastest test_net 1 urls

abbrev nine : List TestedRelay
nine =
    map (λ n. record { url = "wss://one"; response_time = n })
      (1 ∷ 2 ∷ 3 ∷ 4 ∷ 5 ∷ 6 ∷ 7 ∷ 8 ∷ 9 ∷ [])

manage_relay_list_true_example :
    ((k : ℕ) × (rate : Rate) × (k < max_attempts)
      × (attempt test_net signed urls k ≡ ok rate)
      × (is_low rate ≡ false))
    × (some "wss://two,wss://one"
        ≡ some (join "," (map url_of (take 108 (test_relays test_net urls)))))
unfolding manage_relay_list publish_to_relays sort_relays strip insert_relay retry_rounds join
manage_relay_list_true_example =
    manage_relay_list_true test_net signed urls (some "wss://two,wss://one") refl

abbrev unwritten : Option String
unwritten = none

manage_relay_list_false_example :
    ((k : ℕ) → k < max_attempts → LowAt silent_net signed urls k) × (unwritten ≡ none)
unfolding manage_relay_list publish_to_relays sort_relays strip insert_relay retry_rounds join
    round_relays
manage_relay_list_false_example = manage_relay_list_false silent_net signed urls unwritten refl

abbrev params : String → Params
params flag = record {
  relay_urls = "wss://one,wss://two";
  use_new_relay_management = flag;
  use_async_publish = "False";
  use_alternative_publish = "False";
}

abbrev pub env : String → Env
env flag = record {
  lib = test_lib;
  user = record { nostr_public_key = some "npub1xy"; nostr_private_key = some "nsec1xy" };
  now = 100;
  params = params flag;
  net = test_net;
}

abbrev keyless : Env
keyless = record (env "False") {
  user = record { nostr_public_key = some "1234"; nostr_private_key = none };
}

abbrev draft_event : BridgeEvent
draft_event = record {
  event_id = none;
  kind = 1;
  content = "hello";
  tags = none;
  public_key = "1234";
  created_at = 0;
  signature = none;
  published = false;
  logs = none;
}

publish_event-Reports_example :
    Reports
      (env "False")
      draft_event
      (delivers (env "False") draft_event (get_publish_strategy (params "False")))
      (publish_event (env "False") draft_event)
publish_event-Reports_example = publish_event-Reports (env "False") draft_event refl

abbrev dummied : BridgeEvent
dummied = record draft_event {
  event_id = some "a1";
  signature = some "dummy_signature_for_testing";
  created_at = 100;
}

abbrev answers_second : Attempts
answers_second url event k = if k == 1 then answered "yes" else timed_out

abbrev answers_first : Attempts
answers_first url event k = answered "yes"

publish_to_relay_complete_example :
    publish_to_relay answers_first signed "wss://one"
    ≡ record { url = "wss://one"; success = true; text = "yes" }
publish_to_relay_complete_example =
    publish_to_relay_complete answers_first signed "wss://one" 0 "yes" (omega arith) refl
      (λ j lo hi. absurd (omega arith))

-- An event with the keys of the protocol, and one with the keys that the code reads.
abbrev protocol_fields : Fields
protocol_fields = field "id" (str "a1") (
    field "kind" (num 1) (
      field "content" (str "hello") (
        field "tags" (arr nil) (
          field "pubkey" (str "1234")
            (field "created_at" (num 100) (field "sig" (str "b2") end))))))

abbrev code_fields : Fields
code_fields = field "id" (str "a1") (
    field "kind" (num 1) (
      field "content" (str "hello") (
        field "tags" (arr nil) (
          field "public_key" (str "1234")
            (field "created_at" (num 100) (field "signature" (str "b2") end))))))

abbrev event_message : Incoming
event_message =
    message
      (json (arr (cons (str "EVENT") (cons (str "my_subscription") (cons (obj code_fields) nil)))))

-- The package signs an event without changing what it says.
test_lib_keeps :
    (key : String) (event signed : Event)
    → test_lib.sign_event key event ≡ ok signed
    → (signed.kind ≡ event.kind) × (signed.content ≡ event.content) × (signed.tags ≡ event.tags)
test_lib_keeps key event signed h =
    let q : record event { id = some "a1"; signature = some "b2" } ≡ signed = ok-inj h in
    (
      sym (ap (λ (e : Event). e.kind) q),
      sym (ap (λ (e : Event). e.content) q),
      sym (ap (λ (e : Event). e.tags) q),
    )

abbrev silent : Env
silent = record (env "False") { net = silent_net }

abbrev commit_row : BridgeEvent
commit_row = record {
  event_id = some "a1";
  kind = 3121;
  content = "{}";
  tags = some (ok (("p" ∷ "1234" ∷ []) ∷ []));
  public_key = "1234";
  created_at = 100;
  signature = some "b2";
  published = false;
  logs = some "Relay wss://one: Failed - timed out\nRelay wss://two: Failed - timed out";
}

create_gitlab_event_row_example :
    (pubkey : String) × (user_key silent ≡ ok pubkey)
    × (commit_row.kind ≡ get_event_kind "commit")
    × (commit_row.content ≡ "{}")
    × (commit_row.tags ≡ some (ok (("p" ∷ pubkey ∷ []) ∷ [])))
unfolding create_gitlab_event user_key_to_hex sign_event get_private_key create_and_publish
    bech32_to_hex publish_event get_publish_strategy original_publish first_urls split_commas
    signed_event create_nostr_event get_event_kind join
create_gitlab_event_row_example =
    create_gitlab_event_row silent "commit" "{}" commit_row test_lib_keeps refl

abbrev sent_notice : Notification
sent_notice = record {
  title = "Publishing Failed";
  message = "Failed to publish Nostr event to any relay.";
  severity = danger;
  sticky = true;
}
