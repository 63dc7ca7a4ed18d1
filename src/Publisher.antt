-- ===== src/Publisher.antt =====
-- odoo_custom_addons/nostr_publisher/models: the publisher's state, its relays and their tests.
pub mod Keys
pub mod Publish
pub mod Tests
pub mod Outcome
pub mod Active
pub mod RelayRecord
pub mod Api
pub mod Events
pub mod Counters
pub mod Verify
pub mod Attempts
use agu_odoo.Base.{
  ℕ, zero, suc, ◌+◌, Bool, true, false, Option, none, some, String, List, [], ◌∷◌, ◌++◌, map, take,
  keep, ◌==◌, if◌then◌else◌, length, ltb, ◌*◌,
}
use agu_odoo.Python.{Result, ok, err}
use agu_odoo.Text.{strip}
use agu_odoo.Json.{Doc, first_is}

pub data PublisherState : Type 0 where
  draft active inactive : PublisherState

abbrev pub is_active_state : PublisherState → Bool
is_active_state active = true
is_active_state draft = false
is_active_state inactive = false

-- `nostr.relay`. Times are counted in ticks of a clock; the response time is in milliseconds.
pub record Relay : Type 0 where
  pub id : ℕ
  pub url : String
  pub is_active : Bool
  pub last_connection : Option ℕ
  pub connection_failures : ℕ
  pub response_time : ℕ

-- `nostr.publisher`
pub record Publisher : Type 0 where
  pub name : String
  pub state : PublisherState
  pub public_key : Option String
  pub private_key : Option String
  pub last_publish_date : Option ℕ
  pub total_events_published : ℕ
  pub success_count : ℕ
  pub relay_ids : List Relay
  pub active_relay_ids : List ℕ

-- The outside of a relay test: the exchange with a relay, by its url and the number of the
-- attempt, gives the reply and the time that it took or raises; and the time of the test's end.
pub record RelayTest : Type 0 where
  pub exchange : String → ℕ → Result (Doc × ℕ)
  pub ends_at : String → ℕ

-- `_async_test_relay_connection`, which catches every exception
abbrev pub judge_reply : Result (Doc × ℕ) → Bool × ℕ
judge_reply (err e) = (false, 0)
judge_reply (ok (reply, elapsed)) = elim (first_is "OK" reply) [
  | ok b ↦ (b, elapsed)
  | err e ↦ (false, 0)
]

unfoldable pub async_test_relay_connection : RelayTest → String → ℕ → Bool × ℕ
async_test_relay_connection net url attempt = judge_reply (net.exchange (strip url) attempt)

-- `_test_relay_connection`: the rounds left, and the attempt that is next
unfoldable pub test_attempts : RelayTest → String → ℕ → ℕ → Bool × ℕ
test_attempts net url zero attempt = (false, 0)
test_attempts net url (suc rounds) attempt =
    let rest = test_attempts net url rounds (attempt + 1) in
    let (is_active, response_time) = async_test_relay_connection net url attempt in
    if is_active then (is_active, response_time) else rest

abbrev pub max_retries : ℕ
max_retries = 3

unfoldable pub test_relay_connection : RelayTest → String → Bool × ℕ
test_relay_connection net url = test_attempts net url max_retries 0

-- One round of the loop in `test_relay_connections`.
unfoldable pub test_relay : RelayTest → Relay → Relay
test_relay net r =
    let (is_active, response_time) = test_relay_connection net r.url in
    record r {
      is_active = is_active;
      last_connection = if is_active then some (net.ends_at r.url) else r.last_connection;
      connection_failures = if is_active then 0 else r.connection_failures + 1;
      response_time = response_time;
    }

-- `_compute_active_relays`
unfoldable pub compute_active_relays : Publisher → Publisher
compute_active_relays p = record p {
  active_relay_ids =
      take 9 (map (λ (r : Relay). r.id) (keep (λ (r : Relay). r.is_active) p.relay_ids));
}

unfoldable pub test_relay_connections : RelayTest → Publisher → Publisher
unfolding compute_active_relays
test_relay_connections net p =
    compute_active_relays (record p { relay_ids = map (test_relay net) p.relay_ids })

-- `cron_test_relay_connections` and `cron_update_active_relays`, over the publishers of the table.
unfoldable pub cron_test_relay_connections : RelayTest → List Publisher → List Publisher
cron_test_relay_connections net [] = []
cron_test_relay_connections net (p ∷ publishers) =
    (if is_active_state p.state then test_relay_connections net p else p)
    ∷ cron_test_relay_connections net publishers

-- `_compute_relay_count`
unfoldable pub compute_relay_count : Publisher → ℕ
compute_relay_count p = length p.relay_ids

-- A quotient of numbers, in place of the float that the code divides them to.
pub record Ratio : Type 0 where
  pub num : ℕ
  pub den : ℕ

-- `_compute_success_rate`, in percent
unfoldable pub compute_success_rate : Publisher → Ratio
compute_success_rate p =
    if ltb 0 p.total_events_published
    then record { num = p.success_count * 100; den = p.total_events_published }
    else record { num = 0; den = 1 }

-- `active_relay_ids.mapped('url')`
abbrev pub url_of : ℕ → List Relay → List String
url_of i [] = []
url_of i (r ∷ relays) = if r.id == i then r.url ∷ [] else url_of i relays

unfoldable pub mapped_urls : List Relay → List ℕ → List String
mapped_urls relays [] = []
mapped_urls relays (i ∷ ids) = url_of i relays ++ mapped_urls relays ids

-- `_get_relay_urls`
unfoldable pub get_relay_urls : Publisher → List String
unfolding mapped_urls
get_relay_urls p = mapped_urls p.relay_ids p.active_relay_ids
