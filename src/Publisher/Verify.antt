-- ===== src/Publisher/Verify.antt =====
-- `_async_verify_request`: which messages of a relay show that it has an event.
use agu_odoo.Base.{
  ap, ℕ, zero, suc, ◌≡◌, ◌≢◌, refl, Bool, true, false, Option, none, some, String, List, [], ◌∷◌,
  ◌++◌, All, length, arith, sym, ◌∙◌, subst, ◌⊎◌, inl, inr, ◌<◌, Bool-cases, eq_iff, if◌then◌else◌,
}
use agu_odoo.Python.{Result, ok, err, bind-eq_ok_inv, ok-inj}
use agu_odoo.Text.{str_eq, starts_with}
use agu_odoo.Json.{Json, arr, obj, str, num, bool, null, Fields, loads, index, get?, equals_text}
use agu_odoo.Publisher.Publish.{Frame, id_is, frame_has, verify_messages}

abbrev pub is_event : Frame → Bool
is_event f = starts_with f.raw "[\"EVENT\""

module _ (event_id : String) where
  -- The third item of the message is an object with this `id`.
  abbrev pub HasId : Frame → Type 0
  HasId f =
      (j : Json) × (fields : Fields) × (loads f.doc ≡ ok j)
      × (index 2 j ≡ ok (obj fields))
      × (get? "id" fields ≡ some (str event_id))

  abbrev pub HasOtherId : Frame → Type 0
  HasOtherId f =
      (j : Json) × (fields : Fields) × (loads f.doc ≡ ok j)
      × (index 2 j ≡ ok (obj fields))
      × (get? "id" fields ≢ some (str event_id))

  -- A message after which the code waits for the next one.
  abbrev pub IsPassed : Result Frame → Type 0
  IsPassed x =
      (f : Frame) × (x ≡ ok f)
      × (((is_event f ≡ true) × HasOtherId f)
          ⊎ ((is_event f ≡ false) × (str_eq f.raw "[\"EOSE\",\"verify\"]" ≡ false)))

  -- Among the first `n` messages is one of the event, and all messages before it are passed.
  abbrev pub Shows : ℕ → List (Result Frame) → Type 0
  Shows n frames =
      (before after : List (Result Frame)) × (f : Frame) × (frames ≡ before ++ (ok f ∷ after))
      × (length before < n)
      × All IsPassed before
      × (is_event f ≡ true)
      × HasId f

  equals_text-str : (v : Json) → equals_text event_id v ≡ true → v ≡ str event_id
  equals_text-str (str s) h = ap str ((eq_iff s event_id).0 h)
  equals_text-str null h = absurd (cc h)
  equals_text-str (bool b) h = absurd (cc h)
  equals_text-str (num n) h = absurd (cc h)
  equals_text-str (arr xs) h = absurd (cc h)
  equals_text-str (obj fs) h = absurd (cc h)

  -- What the test of the `id` says of the field.
  abbrev Tells : Bool → Option Json → Type 0
  Tells true o = o ≡ some (str event_id)
  Tells false o = o ≢ some (str event_id)

  text_found : equals_text event_id (str event_id) ≡ true
  text_found = (eq_iff event_id event_id).1 refl

  value-Tells : (v : Json) (b : Bool) → equals_text event_id v ≡ b → Tells b (some v)
  value-Tells v true q = ap some (equals_text-str v q)
  value-Tells v false q = λ p.
      let w : str event_id ≡ v = cc p in
      let found = subst (λ v. equals_text event_id v ≡ true) w text_found in absurd (cc (q, found))

  field-Tells :
      (o : Option Json) (b : Bool)
      → (elim o [ none ↦ ok false | some v ↦ ok (equals_text event_id v) ]) ≡ ok b
      → Tells b o
  field-Tells none b h = subst (λ b. Tells b none) (ok-inj h) (λ q. absurd (cc q))
  field-Tells (some v) b h =
      subst (λ b. Tells b (some v)) (ok-inj h) (value-Tells v (equals_text event_id v) refl)

  id_is-Tells :
      (v : Json) (b : Bool)
      → id_is event_id v ≡ ok b
      → (fields : Fields) × (v ≡ obj fields) × Tells b (get? "id" fields)
  id_is-Tells (obj fields) b h = (fields, refl, field-Tells (get? "id" fields) b h)
  id_is-Tells (str s) b h = absurd (cc h)
  id_is-Tells null b h = absurd (cc h)
  id_is-Tells (bool x) b h = absurd (cc h)
  id_is-Tells (num n) b h = absurd (cc h)
  id_is-Tells (arr xs) b h = absurd (cc h)

  frame_has-Tells :
      (f : Frame) (b : Bool)
      → frame_has event_id f ≡ ok b
      → (j : Json) × (fields : Fields) × (loads f.doc ≡ ok j)
        × (index 2 j ≡ ok (obj fields))
        × Tells b (get? "id" fields)
  frame_has-Tells f b h =
      let (j, loaded, q) = bind-eq_ok_inv (loads f.doc) _ h in
      let (v, third, r) = bind-eq_ok_inv (index 2 j) _ q in
      let (fields, shape, tells) = id_is-Tells v b r in
      (j, fields, loaded, third ∙ ap ok shape, tells)

  field_read :
      (o : Option Json) (b : Bool)
      → Tells b o
      → (elim o [ none ↦ ok false | some v ↦ ok (equals_text event_id v) ]) ≡ ok b
  field_read none true h = absurd (cc h)
  field_read none false h = refl
  field_read (some v) true h =
      let w : str event_id ≡ v = cc h in
      ap ok (subst (λ v. equals_text event_id v ≡ true) w text_found)
  field_read (some v) false h = elim (Bool-cases (equals_text event_id v)) [
    | inl e ↦ absurd (h (ap some (equals_text-str v e)))
    | inr e ↦ ap ok e
  ]

  frame_has-eq :
      (f : Frame) (b : Bool) (j : Json) (fields : Fields)
      → loads f.doc ≡ ok j
      → index 2 j ≡ ok (obj fields)
      → Tells b (get? "id" fields)
      → frame_has event_id f ≡ ok b
  frame_has-eq f b j fields loaded third tells =
      rw (loaded, third) (field_read (get? "id" fields) b tells)

  passed-Shows :
      (n : ℕ) (x : Result Frame) (frames : List (Result Frame))
      → IsPassed x
      → Shows n frames
      → Shows (suc n) (x ∷ frames)
  passed-Shows n x frames passed (before, after, f, split, short, all, event, has) = (
    x ∷ before,
    after,
    f,
    ap (λ rest. x ∷ rest) split,
    omega (arith, short),
    (passed, all),
    event,
    has,
  )

  event-Shows :
      (n : ℕ) (f : Frame) (frames : List (Result Frame)) (rest : Bool) (r : Result Bool)
      → (rest ≡ true → Shows n frames)
      → is_event f ≡ true
      → frame_has event_id f ≡ r
      → (elim r [ err e ↦ false | ok found ↦ if found then true else rest ]) ≡ true
      → Shows (suc n) (ok f ∷ frames)
  event-Shows n f frames rest (err e) later event q h = absurd (cc h)
  event-Shows n f frames rest (ok true) later event q h =
      ([], frames, f, refl, omega arith, tt, event, frame_has-Tells f true q)
  event-Shows n f frames rest (ok false) later event q h =
      passed-Shows n (ok f) frames (f, refl, inl (event, frame_has-Tells f false q)) (later h)

  pub verify_messages-Shows :
      (n : ℕ) (frames : List (Result Frame))
      → verify_messages event_id n frames ≡ true
      → Shows n frames
  unfolding verify_messages
  verify_messages-Shows zero frames h = absurd (cc h)
  verify_messages-Shows (suc n) [] h = absurd (cc h)
  verify_messages-Shows (suc n) (err e ∷ frames) h = absurd (cc h)
  verify_messages-Shows (suc n) (ok f ∷ frames) h = elim (Bool-cases (is_event f)) [
    | inl event ↦
        event-Shows n f frames (verify_messages event_id n frames) (frame_has event_id f)
          (verify_messages-Shows n frames) event refl (rw event at h)
    | inr other ↦ elim (Bool-cases (str_eq f.raw "[\"EOSE\",\"verify\"]")) [
      | inl end ↦ absurd (let q : false ≡ true = rw (other, end) at h in cc q)
      | inr more ↦
          passed-Shows n (ok f) frames (f, refl, inr (other, more))
            (verify_messages-Shows n frames (rw (other, more) at h))
    ]
  ]

  passed_on :
      (n : ℕ) (x : Result Frame) (frames : List (Result Frame))
      → IsPassed x
      → verify_messages event_id n frames ≡ true
      → verify_messages event_id (suc n) (x ∷ frames) ≡ true
  unfolding verify_messages
  passed_on n (err e) frames (f, q, why) h = absurd (cc q)
  passed_on n (ok g) frames (f, q, inl (event, (j, fields, loaded, third, tells))) h =
      let same : g ≡ f = ok-inj q in
      rw (same, event, frame_has-eq f false j fields loaded third tells) h
  passed_on n (ok g) frames (f, q, inr (other, more)) h =
      let same : g ≡ f = ok-inj q in rw (same, other, more) h

  found_at :
      (before after : List (Result Frame)) (f : Frame) (n : ℕ)
      → length before < n
      → All IsPassed before
      → is_event f ≡ true
      → HasId f
      → verify_messages event_id n (before ++ (ok f ∷ after)) ≡ true
  unfolding verify_messages
  found_at before after f zero short all event has = absurd (omega (arith, short))
  found_at [] after f (suc n) short all event (j, fields, loaded, third, tells) =
      rw (event, frame_has-eq f true j fields loaded third tells)
  found_at (x ∷ before) after f (suc n) short all event has =
      passed_on n x (before ++ (ok f ∷ after)) all.0
        (found_at before after f n (omega (arith, short)) all.1 event has)

  pub Shows-verify_messages :
      (n : ℕ) (frames : List (Result Frame))
      → Shows n frames
      → verify_messages event_id n frames ≡ true
  Shows-verify_messages n frames (before, after, f, split, short, all, event, has) =
      subst (λ frames. verify_messages event_id n frames ≡ true) (sym split)
        (found_at before after f n short all event has)
