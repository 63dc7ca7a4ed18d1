-- ===== src/Publisher/Events/Again.antt =====
-- What `_process_event` does with an event that comes again, and with one of kind 0.
use text.Mathlib.TextPositions.{eq_refl}
use agu_odoo.Base.{
  ℕ, ◌≡◌, ◌⊎◌, refl, ap, ◌∙◌, true, false, Option, none, some, String, List, arith, Bool-cases, inl,
  inr,
}
use agu_odoo.Python.{Result, ok, err, Post, bind-Post, Post-map}
use agu_odoo.Json.{Json}
use agu_odoo.Nostr.{NostrLib}
use agu_odoo.Publisher.Events.{
  StoredEvent, EventVals, validate_event, with_hex_key, row_of, is_known, insert_row,
  create_validated, create, event_convert_to_hex, text_or_empty,
}
use agu_odoo.Publisher.Events.Listener.{
  WireEvent, vals_of_wire, vals_from, create_from, process_id, process_event,
}

-- The values that `_process_event` makes carry the event's id and kind.
vals_from-id :
    (i : String) (k : Option ℕ) (c : Option String) (t : Option Json) (p : Option String)
    (a : Option ℕ) (s : Option String)
    → Post (λ (v : EventVals). (v.event_id ≡ some i) × (v.kind ≡ k)) (vals_from i k c t p a s)
vals_from-id i (some _) (some _) (some _) (some _) (some _) (some _) = (refl, refl)
vals_from-id i none _ _ _ _ _ = tt
vals_from-id i _ none _ _ _ _ = tt
vals_from-id i _ _ none _ _ _ = tt
vals_from-id i _ _ _ none _ _ = tt
vals_from-id i _ _ _ _ none _ = tt
vals_from-id i _ _ _ _ _ none = tt

vals_of_wire-id :
    (i : String) (w : WireEvent)
    → Post (λ (v : EventVals). (v.event_id ≡ some i) × (v.kind ≡ w.kind)) (vals_of_wire i w)
unfolding vals_of_wire
vals_of_wire-id i w = vals_from-id i w.kind w.content w.tags w.pubkey w.created_at w.sig

-- The conversion of the key changes no other value.
abbrev pub SameIdKind : EventVals → EventVals → Type 0
SameIdKind v w = (w.event_id ≡ v.event_id) × (w.kind ≡ v.kind)

with_hex_key-SameIdKind :
    (lib : NostrLib) (v : EventVals) (o : Option String)
    → Post (SameIdKind v) (with_hex_key lib v o)
with_hex_key-SameIdKind lib v none = (refl, refl)
with_hex_key-SameIdKind lib v (some key) =
    bind-Post (SameIdKind v) (event_convert_to_hex lib key) _ λ hex_key _. (refl, refl)

insert_row-known :
    (row : StoredEvent) (events : List StoredEvent) (i : String)
    → row.event_id ≡ i
    → is_known i (insert_row row events).1 ≡ true
insert_row-known row events i h = elim (Bool-cases (is_known row.event_id events)) [
  | inl e ↦ rw (e, ← h) e
  | inr e ↦ rw (e, h, eq_refl)
]

create_validated-known :
    (i : String) (r : Result EventVals) (events : List StoredEvent)
    → Post (λ (v : EventVals). v.event_id ≡ some i) r
    → ((create_validated r events).1 ≡ events) ⊎ (is_known i (create_validated r events).1 ≡ true)
create_validated-known i (err e) events h = inl refl
create_validated-known i (ok v) events h = elim (Bool-cases (validate_event v)) [
  | inl e ↦ rw e (inr (insert_row-known (row_of v) events i (ap text_or_empty h)))
  | inr e ↦ rw e (inl refl)
]

create-known :
    (lib : NostrLib) (i : String) (v : EventVals) (events : List StoredEvent)
    → v.event_id ≡ some i
    → ((create lib v events).1 ≡ events) ⊎ (is_known i (create lib v events).1 ≡ true)
unfolding create
create-known lib i v events h = create_validated-known i (with_hex_key lib v v.public_key) events (
    Post-map (SameIdKind v) (λ (w : EventVals). w.event_id ≡ some i) (λ w k. k.0 ∙ h) _
      (with_hex_key-SameIdKind lib v v.public_key))

validate_kind_zero : (v : EventVals) → v.kind ≡ some 0 → validate_event v ≡ false
unfolding validate_event
validate_kind_zero v h = rw h (ground arith)

create_validated-kind_zero :
    (r : Result EventVals) (events : List StoredEvent)
    → Post (λ (v : EventVals). v.kind ≡ some 0) r
    → (create_validated r events).1 ≡ events
create_validated-kind_zero (err e) events h = refl
create_validated-kind_zero (ok v) events h = rw (validate_kind_zero v h)

create-kind_zero :
    (lib : NostrLib) (v : EventVals) (events : List StoredEvent)
    → v.kind ≡ some 0
    → (create lib v events).1 ≡ events
unfolding create
create-kind_zero lib v events h =
    create_validated-kind_zero (with_hex_key lib v v.public_key) events (
      Post-map (SameIdKind v) (λ (w : EventVals). w.kind ≡ some 0) (λ w k. k.1 ∙ h) _
        (with_hex_key-SameIdKind lib v v.public_key))

create_from-known :
    (lib : NostrLib) (i : String) (k : Option ℕ) (r : Result EventVals) (events : List StoredEvent)
    → Post (λ (v : EventVals). (v.event_id ≡ some i) × (v.kind ≡ k)) r
    → (create_from lib r events ≡ events) ⊎ (is_known i (create_from lib r events) ≡ true)
create_from-known lib i k (err e) events h = inl refl
create_from-known lib i k (ok v) events h = create-known lib i v events h.0

process_id_again :
    (lib : NostrLib) (w : WireEvent) (o : Option String) (events : List StoredEvent)
    → process_id lib w o (process_id lib w o events) ≡ process_id lib w o events
process_id_again lib w none events = refl
process_id_again lib w (some i) events = elim (Bool-cases (is_known i events)) [
  | inl e ↦ rw e (rw e)
  | inr e ↦
      rw e (elim (create_from-known lib i w.kind (vals_of_wire i w) events (vals_of_wire-id i w)) [
        | inl same ↦ rw same (rw e same)
        | inr known ↦ rw known
      ])
]

-- An event that comes again, from the same or another relay, changes nothing.
pub process_event_again :
    (lib : NostrLib) (w : WireEvent) (events : List StoredEvent)
    → process_event lib w (process_event lib w events) ≡ process_event lib w events
unfolding process_event
process_event_again lib w events = process_id_again lib w w.id events

create_from-kind_zero :
    (lib : NostrLib) (i : String) (k : Option ℕ) (r : Result EventVals) (events : List StoredEvent)
    → Post (λ (v : EventVals). (v.event_id ≡ some i) × (v.kind ≡ k)) r
    → k ≡ some 0
    → create_from lib r events ≡ events
create_from-kind_zero lib i k (err e) events h z = refl
create_from-kind_zero lib i k (ok v) events h z = create-kind_zero lib v events (h.1 ∙ z)

process_id-kind_zero :
    (lib : NostrLib) (w : WireEvent) (o : Option String) (events : List StoredEvent)
    → w.kind ≡ some 0
    → process_id lib w o events ≡ events
process_id-kind_zero lib w none events h = refl
process_id-kind_zero lib w (some i) events h = elim (Bool-cases (is_known i events)) [
  | inl e ↦ rw e
  | inr e ↦
      rw e (create_from-kind_zero lib i w.kind (vals_of_wire i w) events (vals_of_wire-id i w) h)
]

-- An event of kind 0, the metadata of a profile, is never stored.
pub process_event_kind_zero :
    (lib : NostrLib) (w : WireEvent) (events : List StoredEvent)
    → w.kind ≡ some 0
    → process_event lib w events ≡ events
unfolding process_event
process_event_kind_zero lib w events h = process_id-kind_zero lib w w.id events h
