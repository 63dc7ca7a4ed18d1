-- ===== src/Identity/Polling.antt =====
-- How the polling of a connection ends, and what becomes of an event without a socket.
use native.Mathlib.Decide.{dec_lt}
use agu_odoo.Base.{
  ⊤, ℕ, zero, suc, ◌+◌, ◌-◌, ◌≤◌, ◌<◌, ◌≡◌, refl, ap, ◌⊎◌, inl, inr, Bool, true, false, none, some,
  String, arith, Bool-cases,
}
use agu_odoo.Python.{Result, ok, err, exception, user_error, is_ok}
use agu_odoo.Identity.{
  SocketState, disconnected, connecting, connected, Verifier, Network, is_connected, poll, rounds,
  connect_to_relay, after_connection, publish_event, or_text,
}

SocketState-cases : (s : SocketState) → (s ≡ connected) ⊎ (s ≡ disconnected) ⊎ (s ≡ connecting)
SocketState-cases connected = inl refl
SocketState-cases disconnected = inr (inl refl)
SocketState-cases connecting = inr (inr refl)

module _ (net : Network) where
  abbrev pub at : ℕ → SocketState
  at k = (net.seen k).state

  -- From one round up to another one the connection was being established.
  abbrev pub Waits : ℕ → ℕ → Type 0
  Waits a b = (i : ℕ) → a ≤ i → i < b → at i ≡ connecting

  Waits-step : (a b : ℕ) → at a ≡ connecting → Waits (a + 1) b → Waits a b
  Waits-step a b h w i lo hi = elim (dec_lt a i) [
    | yes p ↦ w i (omega arith) hi
    | no p ↦ let same : i ≡ a = omega arith in rw same h
  ]

  -- The first round that shows a connection or a failure decides, after one sleep for each round before
  -- it; if none does, all rounds are slept and the time is over.
  abbrev pub Decided : ℕ → ℕ → Result ⊤ × ℕ → Type 0
  Decided a n r =
      ((j : ℕ) × (a ≤ j) × (j < a + n) × Waits a j × (at j ≡ connected) × (r ≡ (ok tt, j - a)))
      ⊎ ((j : ℕ) × (a ≤ j)
          × (j < a + n)
          × Waits a j
          × (at j ≡ disconnected)
          × (r ≡ (
            err (exception user_error (or_text (net.seen j).last_error "Connection failed")),
            j - a,
          )))
      ⊎ (Waits a (a + n) × (r ≡ (err (exception user_error "Connection timeout"), n)))

  poll-Decided : (n a : ℕ) → Decided a n (poll net n a)
  unfolding poll
  poll-Decided zero a = inr (inr ((λ i lo hi. absurd (omega arith)), refl))
  poll-Decided (suc n) a = elim (SocketState-cases (at a)) [
    | inl h ↦ inl (
      a,
      omega arith,
      omega arith,
      (λ i lo hi. absurd (omega arith)),
      h,
      rw h (ap (λ (d : ℕ). (ok tt, d)) (omega arith)),
    )
    | inr (inl h) ↦ inr (
        inl (
          a,
          omega arith,
          omega arith,
          (λ i lo hi. absurd (omega arith)),
          h,
          rw h (
              ap
                (λ (d : ℕ). (
                  err (exception user_error (or_text (net.seen a).last_error "Connection failed")),
                  d,
                ))
                (omega arith)),
        ))
    | inr (inr h) ↦ elim (poll-Decided n (a + 1)) [
      | inl (j, lo, hi, w, c, r) ↦ inl (
        j,
        omega arith,
        omega arith,
        Waits-step a j h w,
        c,
        rw (h, r) (ap (λ (d : ℕ). (ok tt, d)) (omega arith)),
      )
      | inr (inl (j, lo, hi, w, c, r)) ↦ inr (
          inl (
            j,
            omega arith,
            omega arith,
            Waits-step a j h w,
            c,
            rw (h, r)
                (ap
                  (λ (d : ℕ). (
                    err (
                        exception user_error (or_text (net.seen j).last_error "Connection failed")),
                    d,
                  ))
                  (omega arith)),
          ))
      | inr (inr (w, r)) ↦ inr (
          inr (
            Waits-step a (a + suc n) h (λ i lo hi. w i lo (omega arith)),
            rw (h, r)
                (ap (λ (d : ℕ). (err (exception user_error "Connection timeout"), d))
                  (omega arith)),
          ))
    ]
  ]

-- With a socket that can be created, `connect_to_relay` of a verifier that is not connected returns
-- within 20 polls and at most 20 sleeps: true, when the first poll that is not `connecting` shows
-- `connected`; false with the error of the record, when it shows `disconnected`; and false with a
-- timeout, when all 20 polls show `connecting`. The verifier is left connected exactly in the first case.
pub connect_to_relay_outcome :
    (net : Network) (v : Verifier)
    → is_connected v.websocket_state ≡ false
    → net.create_websocket ≡ ok tt
    → ((poll net rounds 0).1 ≤ 20)
      × (((j : ℕ) × (j < 20)
            × Waits net 0 j
            × (at net j ≡ connected)
            × (connect_to_relay net v
                ≡ (ok true, record v { websocket_state = connected; last_error = none })))
          ⊎ ((j : ℕ) × (j < 20)
              × Waits net 0 j
              × (at net j ≡ disconnected)
              × (connect_to_relay net v ≡ (
                ok false,
                record v {
                  websocket_state = disconnected;
                  last_error = some (or_text (net.seen j).last_error "Connection failed");
                },
              )))
          ⊎ (Waits net 0 20
              × (connect_to_relay net v ≡ (
                ok false,
                record v { websocket_state = disconnected; last_error = some "Connection timeout" },
              ))))
unfolding connect_to_relay
connect_to_relay_outcome net v off socket = elim (poll-Decided net 20 0) [
  | inl (j, lo, hi, w, c, r) ↦ (rw r (omega arith), inl (j, hi, w, c, rw (off, r, socket) refl))
  | inr (inl (j, lo, hi, w, c, r)) ↦
      (rw r (omega arith), inr (inl (j, hi, w, c, rw (off, r, socket) refl)))
  | inr (inr (w, r)) ↦ (rw r (omega arith), inr (inr (w, rw (off, r, socket) refl)))
]

after_connection-none :
    (message : String) (r : Result Bool × Verifier)
    → is_ok (after_connection none message r).0 ≡ false
after_connection-none message (ok true, v) = refl
after_connection-none message (ok false, v) = refl
after_connection-none message (err e, v) = refl

-- Without a socket in the context of the caller, `publish_event` raises whatever the state of the
-- verifier is and however its connection goes: also after `connect_to_relay` has returned true.
pub publish_event_no_socket :
    (net : Network) (message : String) (v : Verifier)
    → is_ok (publish_event net none message v).0 ≡ false
unfolding publish_event
publish_event_no_socket net message v = elim (Bool-cases (is_connected v.websocket_state)) [
  | inl h ↦ rw h refl
  | inr h ↦ rw h (after_connection-none message _)
]
