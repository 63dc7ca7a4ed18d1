-- ===== src/Publisher/RelayRecord.antt =====
-- odoo_custom_addons/nostr_publisher/models/nostr_relay.py: a relay tests itself when it is made
-- and when its url changes.
use agu_odoo.Base.{
  ℕ, ◌+◌, ◌≡◌, refl, Bool, true, false, Option, none, some, String, if◌then◌else◌, is_some,
}
use agu_odoo.Python.{ok, exception, name_error, Exec, raise, ◌>>=◌}
use agu_odoo.Odoo.{Notification}
use agu_odoo.Publisher.{Relay, RelayTest, test_relay_connection}

-- The values of a `write`; a key that is missing is `none`.
pub record RelayVals : Type 0 where
  pub url : Option String
  pub is_active : Option Bool
  pub last_connection : Option ℕ
  pub connection_failures : Option ℕ
  pub response_time : Option ℕ

abbrev or_old {ℓ} : {A : Type ℓ} → Option A → A → A
or_old none old = old
or_old (some new) old = new

abbrev or_kept : Option ℕ → Option ℕ → Option ℕ
or_kept none old = old
or_kept (some new) old = some new

-- `super().write(vals)`
abbrev pub write_fields : RelayVals → Relay → Relay
write_fields v r = record r {
  url = or_old v.url r.url;
  is_active = or_old v.is_active r.is_active;
  last_connection = or_kept v.last_connection r.last_connection;
  connection_failures = or_old v.connection_failures r.connection_failures;
  response_time = or_old v.response_time r.response_time;
}

-- What a test writes. There is no url among the values, so `write` does no more than
-- `super().write` with them.
abbrev test_vals : RelayTest → Relay → Bool × ℕ → RelayVals
test_vals net r (true, response_time) = record {
  url = none;
  is_active = some true;
  last_connection = some (net.ends_at r.url);
  connection_failures = some 0;
  response_time = some response_time;
}
test_vals net r (false, response_time) = record {
  url = none;
  is_active = some false;
  last_connection = none;
  connection_failures = some (r.connection_failures + 1);
  response_time = none;
}

-- `test_connection`, which returns whether the relay is active
unfoldable pub test_connection : RelayTest → Relay → Bool × Relay
test_connection net r =
    let tested = test_relay_connection net r.url in
    (tested.0, write_fields (test_vals net r tested) r)

-- `create`, on the relay that `super().create` has made
unfoldable pub create : RelayTest → Relay → Relay
unfolding test_connection
create net r = (test_connection net r).1

unfoldable pub write : RelayTest → RelayVals → Relay → Relay
unfolding test_connection
write net v r =
    let written = write_fields v r in
    if is_some v.url then (test_connection net written).1 else written

-- `action_test_connection`: the message calls `_`, which nostr_relay.py does not import.
unfoldable pub action_test_connection : RelayTest → Exec Relay Notification
unfolding test_connection
action_test_connection net = do
  is_active ← (λ r. let (a, r') = test_connection net r in (ok a, r'))
  raise (exception name_error "name '_' is not defined")

test_vals-is_active :
    (net : RelayTest) (r : Relay) (t : Bool × ℕ)
    → (write_fields (test_vals net r t) r).is_active ≡ t.0
test_vals-is_active net r (true, t) = refl
test_vals-is_active net r (false, t) = refl

test_vals-failures :
    (net : RelayTest) (r : Relay) (t : Bool × ℕ)
    → (write_fields (test_vals net r t) r).connection_failures
      ≡ (if t.0 then 0 else r.connection_failures + 1)
test_vals-failures net r (true, t) = refl
test_vals-failures net r (false, t) = refl

-- After a write of a new url the relay is active exactly if the new url answers its test, and its
-- failures are counted on or start at 0.
pub write_url_tests :
    (net : RelayTest) (v : RelayVals) (r : Relay) (url : String)
    → v.url ≡ some url
    → ((write net v r).is_active ≡ (test_relay_connection net url).0)
      × ((write net v r).connection_failures ≡ (
          if (test_relay_connection net url).0
          then 0
          else (write_fields v r).connection_failures + 1))
unfolding write
write_url_tests net v r url h =
    let written : Relay = record (write_fields v r) { url = url } in
    let tested : Bool × ℕ = test_relay_connection net url in
    rw h (test_vals-is_active net written tested, test_vals-failures net written tested)
