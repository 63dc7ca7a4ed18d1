-- ===== src/Bridge/Stored.antt =====
-- What the listener of the bridge stores.
use agu_odoo.Base.{
  ◌≡◌, refl, subst, Bool, true, false, none, some, String, List, [], ◌∷◌, if◌then◌else◌, arith,
  Bool-cases, inl, inr,
}
use agu_odoo.Python.{Result, ok, err, bind, is_ok, bind-Post, if-Post, Post}
use agu_odoo.Json.{Json, Fields, json, plain, obj, item, index, get?, equals_text}
use agu_odoo.Nostr.{NostrLib}
use agu_odoo.Bridge.{BridgeEvent, bech32_to_hex}
use agu_odoo.Bridge.Intake.{
  as_text, as_number, is_known, new_row, added, process_id, process_event, Incoming, message,
  timeout, closed, failure, is_null, handle_message, after_message, listen_step, listen_to_relay,
}

-- No event id is stored twice.
abbrev pub OtherId : String → List BridgeEvent → Type 0
OtherId event_id events = is_known event_id events ≡ false

abbrev pub RowIsNew : BridgeEvent → List BridgeEvent → Type 0
RowIsNew row events = (i : String) → row.event_id ≡ some i → OtherId i events

abbrev pub IsTable : List BridgeEvent → Type 0
IsTable [] = Unit
IsTable (row ∷ events) = RowIsNew row events × IsTable events

new_row-id :
    (lib : NostrLib) (i : String) (j : Json)
    → Post (λ (e : BridgeEvent). e.event_id ≡ some i) (new_row lib i j)
unfolding new_row
new_row-id lib i j =
    bind-Post (λ (e : BridgeEvent). e.event_id ≡ some i) (bind (item "kind" j) as_number) _
      λ kind _.
        bind-Post (λ (e : BridgeEvent). e.event_id ≡ some i) (bind (item "content" j) as_text) _
          λ content _.
            bind-Post (λ (e : BridgeEvent). e.event_id ≡ some i) (item "tags" j) _
              λ tags _.
                bind-Post (λ (e : BridgeEvent). e.event_id ≡ some i)
                  (bind (item "public_key" j) as_text) _
                  λ public_key _.
                    bind-Post (λ (e : BridgeEvent). e.event_id ≡ some i)
                      (bind (item "created_at" j) as_number) _
                      λ created_at _.
                        bind-Post (λ (e : BridgeEvent). e.event_id ≡ some i)
                          (bind (item "signature" j) as_text) _
                          λ signature _.
                            bind-Post (λ (e : BridgeEvent). e.event_id ≡ some i)
                              (bech32_to_hex lib public_key) _ λ key _. refl

added-IsTable :
    (i : String) (r : Result BridgeEvent) (events : List BridgeEvent)
    → Post (λ (e : BridgeEvent). e.event_id ≡ some i) r
    → OtherId i events
    → IsTable events
    → IsTable (added r events)
added-IsTable i (err e) events p o t = t
added-IsTable i (ok row) events p o t =
    ((λ k q. let same : i ≡ k = ground (arith, p, q) in subst (λ n. OtherId n events) same o), t)

process_id-IsTable :
    (lib : NostrLib) (j : Json) (r : Result String) (events : List BridgeEvent)
    → IsTable events
    → IsTable (process_id lib j r events)
process_id-IsTable lib j (err e) events t = t
process_id-IsTable lib j (ok i) events t = elim (Bool-cases (is_known i events)) [
  | inl k ↦ rw k t
  | inr k ↦ rw k (added-IsTable i (new_row lib i j) events (new_row-id lib i j) k t)
]

process_event-IsTable :
    (lib : NostrLib) (j : Json) (events : List BridgeEvent)
    → IsTable events
    → IsTable (process_event lib j events)
unfolding process_event
process_event-IsTable lib j events t =
    process_id-IsTable lib j (bind (item "id" j) as_text) events t

unless_null-IsTable :
    (lib : NostrLib) (e : Json) (b : Bool) (events : List BridgeEvent)
    → IsTable events
    → IsTable (if b then events else process_event lib e events)
unless_null-IsTable lib e true events t = t
unless_null-IsTable lib e false events t = process_event-IsTable lib e events t

handle_message-IsTable :
    (lib : NostrLib) (j : Json) (events : List BridgeEvent) (head : Json)
    → IsTable events
    → Post IsTable (handle_message lib j events head)
handle_message-IsTable lib j events head t =
    if-Post IsTable (equals_text "EVENT" head) _ _
      (bind-Post IsTable (index 1 j) _ λ subscription _.
        if-Post IsTable (equals_text "my_subscription" subscription) _ _
          (bind-Post IsTable (index 2 j) _ λ e _. unless_null-IsTable lib e (is_null e) events t) t)
      (if-Post IsTable (equals_text "EOSE" head) _ _ t (
        if-Post IsTable (equals_text "NOTICE" head) _ _
          (bind-Post IsTable (index 1 j) _ λ notice _. t) t))

after_message-IsTable :
    (events : List BridgeEvent) (r : Result (List BridgeEvent))
    → IsTable events
    → Post IsTable r
    → IsTable (after_message events r).0
after_message-IsTable events (ok events') t h = h
after_message-IsTable events (err e) t h = t

listen_step-IsTable :
    (lib : NostrLib) (i : Incoming) (events : List BridgeEvent)
    → IsTable events
    → IsTable (listen_step lib i events).0
unfolding listen_step
listen_step-IsTable lib (message (plain text)) events t = t
listen_step-IsTable lib (message (json j)) events t =
    after_message-IsTable events (bind (index 0 j) (handle_message lib j events)) t
      (bind-Post IsTable (index 0 j) _ λ head _. handle_message-IsTable lib j events head t)
listen_step-IsTable lib timeout events t = t
listen_step-IsTable lib closed events t = t
listen_step-IsTable lib failure events t = t

-- Whatever a relay sends, a table in which no event id is stored twice stays so.
pub listen_to_relay-IsTable :
    (lib : NostrLib) (incoming : List Incoming) (events : List BridgeEvent)
    → IsTable events
    → IsTable (listen_to_relay lib incoming events)
unfolding listen_to_relay
listen_to_relay-IsTable lib [] events t = t
listen_to_relay-IsTable lib (i ∷ incoming) events t =
    listen_to_relay-IsTable lib incoming (listen_step lib i events).0
      (listen_step-IsTable lib i events t)

-- A chain in which every value fails at the key.
abbrev Fails : {A : Type 0} → Result A → Type 0
Fails r = is_ok r ≡ false

bind-Fails :
    {A B : Type 0} (r : Result A) (f : A → Result B) → ((a : A) → Fails (f a)) → Fails (bind r f)
bind-Fails (ok a) f h = h a
bind-Fails (err e) f h = refl

bind-Fails_first : {A B : Type 0} (r : Result A) (f : A → Result B) → Fails r → Fails (bind r f)
bind-Fails_first (ok a) f h = absurd (ground (arith, h))
bind-Fails_first (err e) f h = refl

item-Fails : (key : String) (fs : Fields) → get? key fs ≡ none → Fails (item key (obj fs))
item-Fails key fs h = rw (h, item) refl

new_row-Fails :
    (lib : NostrLib) (i : String) (fs : Fields)
    → get? "public_key" fs ≡ none
    → Fails (new_row lib i (obj fs))
unfolding new_row
new_row-Fails lib i fs h = bind-Fails (bind (item "kind" (obj fs)) as_number) _ λ kind.
    bind-Fails (bind (item "content" (obj fs)) as_text) _ λ content.
      bind-Fails (item "tags" (obj fs)) _ λ tags.
        bind-Fails_first (bind (item "public_key" (obj fs)) as_text) _
          (bind-Fails_first (item "public_key" (obj fs)) as_text (item-Fails "public_key" fs h))

added-Fails :
    (r : Result BridgeEvent) (events : List BridgeEvent) → Fails r → added r events ≡ events
added-Fails (ok row) events h = absurd (ground (arith, h))
added-Fails (err e) events h = refl

-- An event without a `public_key` is never stored; the Nostr protocol has the key under `pubkey`.
pub process_event_no_public_key :
    (lib : NostrLib) (fs : Fields) (events : List BridgeEvent)
    → get? "public_key" fs ≡ none
    → process_event lib (obj fs) events ≡ events
unfolding process_event
process_event_no_public_key lib fs events h = no_key_id (bind (item "id" (obj fs)) as_text)
  where
    no_key_id : (r : Result String) → process_id lib (obj fs) r events ≡ events
    no_key_id (err e) = refl
    no_key_id (ok i) = elim (Bool-cases (is_known i events)) [
      | inl k ↦ rw k
      | inr k ↦ rw k (added-Fails (new_row lib i (obj fs)) events (new_row-Fails lib i fs h))
    ]
