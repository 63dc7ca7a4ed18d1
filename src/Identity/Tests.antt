-- ===== src/Identity/Tests.antt =====
-- Concrete runs of a verifier: a relay that answers on the third poll.
use agu_odoo.Base.{ℕ, zero, suc, ◌≤◌, ◌<◌, ◌≡◌, refl, ◌⊎◌, true, false, none, some}
use agu_odoo.Python.{ok, is_ok}
use agu_odoo.Identity.{
  SocketState, connected, connecting, disconnected, Verifier, Network, poll, rounds,
  connect_to_relay, or_text, publish_event,
}
use agu_odoo.Identity.Polling.{Waits, at, connect_to_relay_outcome, publish_event_no_socket}

abbrev state_at : ℕ → SocketState
state_at zero = connecting
state_at (suc zero) = connecting
state_at (suc (suc k)) = connected

abbrev third_poll : Network
third_poll = record {
  create_websocket = ok tt;
  seen = λ k. record { state = state_at k; last_error = none };
}

abbrev idle : Verifier
idle = record {
  relay_url = "wss://relay.example";
  websocket_state = disconnected;
  last_error = some "closed";
}

connects :
    connect_to_relay third_poll idle
    ≡ (ok true, record idle { websocket_state = connected; last_error = none })
unfolding connect_to_relay poll
connects = refl

sleeps_twice : (poll third_poll rounds 0).1 ≡ 2
unfolding poll
sleeps_twice = refl

publish_event_no_socket_example : is_ok (publish_event third_poll none "[]" idle).0 ≡ false
publish_event_no_socket_example = publish_event_no_socket third_poll "[]" idle

connect_to_relay_outcome_example :
    ((poll third_poll rounds 0).1 ≤ 20)
    × (((j : ℕ) × (j < 20)
          × Waits third_poll 0 j
          × (at third_poll j ≡ connected)
          × (connect_to_relay third_poll idle
              ≡ (ok true, record idle { websocket_state = connected; last_error = none })))
        ⊎ ((j : ℕ) × (j < 20)
            × Waits third_poll 0 j
            × (at third_poll j ≡ disconnected)
            × (connect_to_relay third_poll idle ≡ (
              ok false,
              record idle {
                websocket_state = disconnected;
                last_error = some (or_text (third_poll.seen j).last_error "Connection failed");
              },
            )))
        ⊎ (Waits third_poll 0 20
            × (connect_to_relay third_poll idle ≡ (
              ok false,
              record idle {
                websocket_state = disconnected;
                last_error = some "Connection timeout";
              },
            ))))
connect_to_relay_outcome_example = connect_to_relay_outcome third_poll idle refl refl
