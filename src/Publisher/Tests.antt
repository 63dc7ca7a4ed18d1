-- ===== src/Publisher/Tests.antt =====
-- Runs of the publisher on concrete relays, keys and events.
use agu_odoo.Base.{
  ◌⊎◌, ◌*◌, ◌<◌, ℕ, ◌↔◌, ◌≡◌, refl, true, false, none, some, [], ◌∷◌, ◌==◌, All, if◌then◌else◌,
}
use agu_odoo.Python.{ok, err, exception, other_error}
use agu_odoo.Text.{str_eq}
use agu_odoo.Json.{Doc, json, arr, obj, str, num, bool, cons, nil, field, end}
use agu_odoo.Odoo.{danger}
use agu_odoo.Nostr.{NostrLib, triple}
use agu_odoo.Publisher.{
  compute_success_rate, Relay, Publisher, RelayTest, active, test_relay_connections, get_relay_urls,
}
use agu_odoo.Publisher.Keys.{convert_to_hex}
use agu_odoo.Publisher.Publish.{
  Sender, Verifier, verify_attempt, prepare_event, publish_to_single_relay, publish_event,
  record_publish, async_verify_request, verify_event_published,
}
use agu_odoo.Publisher.Outcome.{ready, publish_event_refuses, Refused}
use agu_odoo.Publisher.Counters.{Call, publish_calls, success_rate_extreme}
use agu_odoo.Publisher.Attempts.{ShownOn, verify_event_published_iff}
use agu_odoo.Publisher.Active.{Reachable, test_relay_connections-Reachable}
use agu_odoo.Publisher.RelayRecord.{RelayVals}
use agu_odoo.Publisher.Events.Listener.{WireEvent, Incoming, message, process_event}
use agu_odoo.Publisher.Events.Again.{process_event_again}
use agu_odoo.Publisher.Api.{Wizard, Outside, submit_event, submitted, submit_event_reports}

-- A `nostr` package that takes every key, and signs an event with a fixed id.
abbrev pub test_lib : NostrLib
test_lib = record {
  bech32_decode = λ key. triple (some "npub") (some (1 ∷ 2 ∷ []));
  convertbits = λ data'. some (18 ∷ 52 ∷ []);
  from_nsec = λ key. ok key;
  from_npub = λ key. ok "1234";
  from_hex = λ key. ok key;
  sign_event = λ key event. ok (record event { id = some "a1"; signature = some "b2" });
  compute_id = λ key now kind tags content. "a1";
}

abbrev ok_reply : Doc
ok_reply = json (arr (cons (str "OK") (cons (str "a1") (cons (bool true) (cons (str "") nil)))))

abbrev accepting : Sender
accepting url event = ok ok_reply

abbrev offline : Sender
offline url event = err (exception other_error "timed out")

abbrev relay_one : Relay
relay_one = record {
  id = 1;
  url = "wss://one";
  is_active = true;
  last_connection = none;
  connection_failures = 0;
  response_time = 0;
}

abbrev relay_two : Relay
relay_two = record {
  id = 2;
  url = "wss://two";
  is_active = false;
  last_connection = none;
  connection_failures = 2;
  response_time = 0;
}

abbrev publisher : Publisher
publisher = record {
  name = "main";
  state = active;
  public_key = some "npub1xy";
  private_key = some "nsec1xy";
  last_publish_date = none;
  total_events_published = 0;
  success_count = 0;
  relay_ids = relay_one ∷ relay_two ∷ [];
  active_relay_ids = 1 ∷ [];
}

-- Only the second relay answers, on its second attempt.
abbrev test_net : RelayTest
test_net = record {
  exchange = λ url attempt.
      if str_eq url "wss://two"
      then (if attempt == 1 then ok (ok_reply, 20) else err (exception other_error "timed out"))
      else err (exception other_error "refused");
  ends_at = λ url. 7;
}

publish_event_refuses_example :
    Refused test_lib offline 100 "hello" 1 [] publisher
      (publish_event test_lib offline 100 "hello" 1 [] publisher)
unfolding prepare_event convert_to_hex get_relay_urls publish_to_single_relay
publish_event_refuses_example =
    publish_event_refuses test_lib offline 100 "hello" 1 [] publisher refl

test_relay_connections-Reachable_example :
    All (Reachable test_net) (get_relay_urls (test_relay_connections test_net publisher))
test_relay_connections-Reachable_example =
    test_relay_connections-Reachable test_net publisher ((refl, tt), (tt, tt))

abbrev failing_call : Call
failing_call = record { send = offline; now = 100; content = "hello"; kind = 1; tags = [] }

abbrev good_call : Call
good_call = record { send = accepting; now = 101; content = "hello"; kind = 1; tags = [] }

success_rate_extreme_example :
    let rate =
      compute_success_rate (publish_calls test_lib (failing_call ∷ good_call ∷ []) publisher) in
    (rate.num ≡ 0) ⊎ (rate.num ≡ rate.den * 100)
success_rate_extreme_example =
    success_rate_extreme test_lib (failing_call ∷ good_call ∷ []) publisher refl

-- A relay that has the event from the second attempt on.
abbrev verifier : Verifier
verifier url attempt =
    if attempt == 1
    then ok (record {
      raw = "[\"EVENT\",\"verify\",{\"id\":\"a1\"}]";
      doc = json (
          arr (
            cons (str "EVENT") (cons (str "verify") (cons (obj (field "id" (str "a1") end)) nil))));
    })
      ∷ []
    else []

verify_event_published_iff_example :
    (verify_event_published verifier "a1" ("wss://one" ∷ []) 3 0 ≡ true)
    ↔ ((k : ℕ) × (k < 3) × ShownOn verifier "a1" ("wss://one" ∷ []) k)
verify_event_published_iff_example = verify_event_published_iff verifier "a1" ("wss://one" ∷ [])

-- The event is there on the second attempt.
verified_on_second : verify_event_published verifier "a1" ("wss://one" ∷ []) 3 0 ≡ true
unfolding verify_event_published verify_attempt async_verify_request
verified_on_second = refl

abbrev new_url : RelayVals
new_url = record {
  url = some "wss://two";
  is_active = none;
  last_connection = none;
  connection_failures = none;
  response_time = none;
}

abbrev wire : ℕ → WireEvent
wire kind = record {
  id = some "a1";
  kind = some kind;
  content = some "hello";
  tags = some (arr nil);
  pubkey = some "1234";
  created_at = some 100;
  sig = some "b2";
}

abbrev wire_message : Incoming
wire_message = message (
    json (
      arr (
        cons (str "EVENT") (
          cons (str "sub") (
            cons
              (obj (
                field "id" (str "a1") (
                  field "kind" (num 1) (
                    field "content" (str "hello") (
                      field "tags" (arr nil) (
                        field "pubkey" (str "1234")
                          (field "created_at" (num 100) (field "sig" (str "b2") end))))))))
              nil)))))

process_event_again_example :
    process_event test_lib (wire 1) (process_event test_lib (wire 1) [])
    ≡ process_event test_lib (wire 1) []
process_event_again_example = process_event_again test_lib (wire 1) []

abbrev wizard : Wizard
wizard = record { content = "hello"; kind = 1; tags = ok []; tag_key = none; tag_value = none }

submit_event_reports_example :
    ((ready test_lib accepting 100 "hello" 1 [] publisher ≡ true)
      → submit_event test_lib accepting 100 wizard publisher
        ≡ (submitted, record_publish 100 publisher))
    × ((ready test_lib accepting 100 "hello" 1 [] publisher ≡ false)
        → ((submit_event test_lib accepting 100 wizard publisher).0.severity ≡ danger)
          × ((submit_event test_lib accepting 100 wizard publisher).1 ≡ publisher))
submit_event_reports_example = submit_event_reports test_lib accepting 100 wizard publisher [] refl

abbrev outside : Outside
outside = record { lib = test_lib; dumps = λ j. "{}"; send = accepting; now = 100 }
