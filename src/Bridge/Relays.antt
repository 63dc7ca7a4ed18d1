-- ===== src/Bridge/Relays.antt =====
-- `RelayManager` of gitlab_nostr_bridge/models/nostr_event.py: the test of the configured relays, and
-- the rounds in which an event is published to the fastest of them.

use agu_odoo.Base.{
  ℕ, zero, suc, ◌-◌, ◌*◌, Bool, true, false, Option, none, some, String, List, [], ◌∷◌, map, take,
  drop, length, count_if, ltb, leb, if◌then◌else◌,
}
use agu_odoo.Python.{Result, ok, err, exception, zero_division_error, bind, is_ok}
use agu_odoo.Text.{join, split_commas, strip}
use agu_odoo.Nostr.{Event}

-- A relay that has answered its test, with the time that it took.
pub record TestedRelay : Type 0 where
  pub url : String
  pub response_time : ℕ

-- The outside of a manager: the test of a url, which gives the response time, and the exchange that
-- publishes an event, by the number of the round, which gives the reply.
pub record RelayNet : Type 0 where
  pub tested : String → Result ℕ
  pub exchange : ℕ → String → Event → Result String

-- `_get_relay_urls`, from the parameter nostr_bridge.relay_urls
unfoldable pub get_relay_urls : String → List String
get_relay_urls relay_urls = split_commas relay_urls

-- `sort(key=lambda x: x['response_time'])`, which is stable
unfoldable pub insert_relay : TestedRelay → List TestedRelay → List TestedRelay
insert_relay r [] = r ∷ []
insert_relay r (s ∷ relays) =
    let rest = insert_relay r relays in
    if leb r.response_time s.response_time then r ∷ s ∷ relays else s ∷ rest

unfoldable pub sort_relays : List TestedRelay → List TestedRelay
sort_relays [] = []
sort_relays (r ∷ relays) = insert_relay r (sort_relays relays)

-- `test_relay`, which catches every exception; the results that are successful
abbrev pub tested_first : String → Result ℕ → List TestedRelay → List TestedRelay
tested_first url (ok response_time) rest =
    record { url = url; response_time = response_time } ∷ rest
tested_first url (err e) rest = rest

unfoldable pub successes : RelayNet → List String → List TestedRelay
successes net [] = []
successes net (url ∷ urls) = tested_first url (net.tested (strip url)) (successes net urls)

-- `test_relays`: the field `successful_relays`
unfoldable pub test_relays : RelayNet → List String → List TestedRelay
unfolding successes
test_relays net urls = sort_relays (successes net urls)

-- `select_best_relays(n)`
unfoldable pub select_best_relays : ℕ → List TestedRelay → List TestedRelay
select_best_relays n successful_relays = take n successful_relays

-- A quotient of counts, in place of a float.
pub record Rate : Type 0 where
  pub successes : ℕ
  pub relays : ℕ

-- `publish_to_relay` succeeds if there is any reply.
abbrev pub replies : RelayNet → ℕ → Event → String → Bool
replies net round event url = is_ok (net.exchange round url event)

-- `publish_to_relays`, over the urls of the relays
unfoldable pub publish_to_relays : RelayNet → ℕ → Event → List String → Result Rate
publish_to_relays net round event [] = err (exception zero_division_error "division by zero")
publish_to_relays net round event (url ∷ urls) = ok (record {
  successes = count_if (replies net round event) (url ∷ urls);
  relays = length (url ∷ urls);
})

abbrev pub url_of : TestedRelay → String
url_of r = r.url

-- `relays[-9:]`
abbrev pub last_nine : List TestedRelay → List TestedRelay
last_nine relays = drop (length relays - 9) relays

-- The relays of a round of the loop.
unfoldable pub round_relays : ℕ → List TestedRelay → List TestedRelay
unfolding select_best_relays
round_relays attempts relays = last_nine (select_best_relays (9 * attempts) relays)

-- `success_rate < 0.5`
abbrev pub is_low : Rate → Bool
is_low rate = ltb (2 * rate.successes) rate.relays

-- The `while` loop: the rounds left before `attempts` is 12, and `attempts`.
unfoldable pub retry_rounds : RelayNet → Event → List TestedRelay → ℕ → ℕ → Rate → Result Rate
retry_rounds net event relays zero attempts rate = ok rate
retry_rounds net event relays (suc rounds) attempts rate =
    if is_low rate
    then bind (publish_to_relays net attempts event (map url_of (round_relays attempts relays)))
        (retry_rounds net event relays rounds (suc attempts))
    else ok rate

abbrev pub max_attempts : ℕ
max_attempts = 12

-- The end of `manage_relay_list`: the answer, and the parameter nostr_bridge.successful_relays where
-- it is written.
abbrev pub finish_rounds : List TestedRelay → Rate → Bool × Option String
finish_rounds relays rate =
    if is_low rate then (false, none) else (true, some (join "," (map url_of (take 108 relays))))

-- `manage_relay_list`
unfoldable pub manage_relay_list : RelayNet → List String → Event → Result (Bool × Option String)
unfolding test_relays select_best_relays
manage_relay_list net urls event =
    let relays = test_relays net urls in
    bind (publish_to_relays net 0 event (map url_of (select_best_relays 9 relays))) λ rate.
      bind (retry_rounds net event relays (max_attempts - 1) 1 rate)
        λ rate'. ok (finish_rounds relays rate')
