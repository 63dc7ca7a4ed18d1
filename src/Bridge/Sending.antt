-- ===== src/Bridge/Sending.antt =====
-- `publish_nostr_event` of gitlab_nostr_bridge/models/nostr_event.py, with the retries on each relay.
use native.Mathlib.Decide.{dec_lt}
use agu_odoo.Base.{
  ℕ, zero, suc, ◌+◌, ◌≡◌, refl, ◌∙◌, Bool, true, false, none, some, String, List, [], ◌∷◌, map,
  if◌then◌else◌, ◌==◌, ◌≤◌, ◌<◌, arith, Bool-cases, inl, inr, ◌⊎◌,
}
use agu_odoo.Python.{Error, Result, ok, err, exception, user_error, value_error, type_error, bind}
use agu_odoo.Text.{concat, hex, strip}
use agu_odoo.Nostr.{NostrLib, Decoded, no_value, pair, triple, Event, Tags}
use agu_odoo.Publisher.Keys.{is_bech32}

-- How one attempt to send an event ends.
pub data Attempt : Type 0 where
  answered : String → Attempt
  invalid_status : String → Attempt
  timed_out : Attempt
  failed : String → Attempt

-- The result for a relay.
pub record Sent : Type 0 where
  pub url : String
  pub success : Bool
  pub text : String

abbrev sent : String → Bool → String → Sent
sent url success text = record { url = url; success = success; text = text }

abbrev pub no_attempts_left : String → Sent
no_attempts_left url = sent url false "Max retries reached"

-- What the branches of the `try` do: return, or go on with `rest`; only the last attempt returns the
-- error of another exception.
abbrev pub after_attempt : String → Bool → Attempt → Sent → Sent
after_attempt url last (answered response) rest = sent url true response
after_attempt url last (invalid_status text) rest =
    sent url false (concat ("Invalid status code: " ∷ text ∷ []))
after_attempt url last timed_out rest = rest
after_attempt url last (failed text) rest = if last then sent url false text else rest

-- The outside: how the attempts on a url end, by their number.
abbrev pub Attempts : Type 0
Attempts = String → Event → ℕ → Attempt

-- `publish_to_relay`: the attempts left, and the number of the next one
unfoldable pub publish_attempts : Attempts → Event → String → ℕ → ℕ → Sent
publish_attempts net event url zero attempt = no_attempts_left url
publish_attempts net event url (suc rounds) attempt =
    after_attempt url (rounds == 0) (net (strip url) event attempt)
      (publish_attempts net event url rounds (attempt + 1))

abbrev pub retries : ℕ
retries = 3

unfoldable pub publish_to_relay : Attempts → Event → String → Sent
publish_to_relay net event url = publish_attempts net event url retries 0

-- `_convert_to_hex` of the bridge; its `bech32_decode` gives a triple
abbrev hex_of_triple : NostrLib → Decoded → Result String
hex_of_triple lib (triple hrp (some payload)) = elim (lib.convertbits payload) [
  | none ↦ err (exception type_error "cannot convert 'NoneType' object to bytes")
  | some bytes ↦ ok (hex bytes)
]
hex_of_triple lib (triple hrp none) = err (exception type_error "'NoneType' object is not iterable")
hex_of_triple lib (pair hrp payload) =
    err (exception value_error "not enough values to unpack (expected 3, got 2)")
hex_of_triple lib no_value = err (exception type_error "cannot unpack non-iterable NoneType object")

unfoldable pub convert_to_hex : NostrLib → String → Result String
convert_to_hex lib key = if is_bech32 key then hex_of_triple lib (lib.bech32_decode key) else ok key

-- The arguments of `publish_nostr_event`.
pub record Request : Type 0 where
  pub content : String
  pub public_key : String
  pub private_key : String
  pub relay_urls : List String
  pub kind : ℕ
  pub tags : Tags
  pub created_at : ℕ

-- The event that is signed.
unfoldable pub requested_event : NostrLib → Request → Result Event
unfolding convert_to_hex
requested_event lib r = bind (convert_to_hex lib r.public_key) λ public_key_hex.
    bind (convert_to_hex lib r.private_key) λ private_key_hex.
      bind (lib.from_hex private_key_hex) λ key. lib.sign_event key (record {
        id = none;
        public_key = public_key_hex;
        created_at = r.created_at;
        kind = r.kind;
        tags = r.tags;
        content = r.content;
        signature = none;
      })

abbrev publish_failed : {A : Type 0} → Error → Result A
publish_failed e =
    err (exception user_error (concat ("Failed to publish Nostr event: " ∷ e.text ∷ [])))

abbrev pub rethrown : Result (List Sent) → Result (List Sent)
rethrown (ok results) = ok results
rethrown (err e) = publish_failed e

-- `publish_nostr_event`
unfoldable pub publish_nostr_event : Attempts → NostrLib → Request → Result (List Sent)
unfolding publish_to_relay
publish_nostr_event net lib r =
    rethrown
      (bind (requested_event lib r) λ event. ok (map (publish_to_relay net event) r.relay_urls))

-- `publish_event_sync`, which wraps the exception once more
unfoldable pub publish_event_sync : Attempts → NostrLib → Request → Result (List Sent)
publish_event_sync net lib r = rethrown (publish_nostr_event net lib r)

module _ (net : Attempts) (event : Event) (url : String) where
  -- The attempt is followed by another one, if there is one left.
  abbrev pub Retried : Attempt → Type 0
  Retried a = (a ≡ timed_out) ⊎ ((text : String) × (a ≡ failed text))

  abbrev pub at : ℕ → Attempt
  at k = net (strip url) event k

  abbrev pub Before : ℕ → ℕ → Type 0
  Before a k = (j : ℕ) → a ≤ j → j < k → Retried (at j)

  Before-step : (a k : ℕ) → Retried (at a) → Before (a + 1) k → Before a k
  Before-step a k r b j lo hi = elim (dec_lt a j) [
    | yes p ↦ b j (omega arith) hi
    | no p ↦ let same : j ≡ a = omega arith in rw same r
  ]

  -- What the attempts give is either of the first answer that comes before any refusal.
  abbrev Answer : ℕ → ℕ → Sent → Type 0
  Answer a n s =
      (s.success ≡ true)
      → (k : ℕ) × (response : String) × (a ≤ k)
        × (k < a + n)
        × (at k ≡ answered response)
        × (s.text ≡ response)
        × Before a k

  later : (a n : ℕ) (s : Sent) → Retried (at a) → Answer (a + 1) n s → Answer a (suc n) s
  later a n s r h ok_s =
      let (k, response, lo, hi, found, said, before) = h ok_s in
      (k, response, omega arith, omega arith, found, said, Before-step a k r before)

  attempt-Answer :
      (n a : ℕ) (o : Attempt) (rest : Sent)
      → at a ≡ o
      → Answer (a + 1) n rest
      → Answer a (suc n) (after_attempt url (n == 0) o rest)
  attempt-Answer n a (answered response) rest q h =
      λ s. (a, response, omega arith, omega arith, q, refl, λ j lo hi. absurd (omega arith))
  attempt-Answer n a (invalid_status text) rest q h = λ s. absurd (cc s)
  attempt-Answer n a timed_out rest q h = later a n rest (inl q) h
  attempt-Answer n a (failed text) rest q h = elim (Bool-cases (n == 0)) [
    | inl e ↦ rw e (λ s. absurd (cc s))
    | inr e ↦ rw e (later a n rest (inr (text, q)) h)
  ]

  publish_attempts-Answer : (n a : ℕ) → Answer a n (publish_attempts net event url n a)
  unfolding publish_attempts
  publish_attempts-Answer zero a = λ s. absurd (cc s)
  publish_attempts-Answer (suc n) a =
      attempt-Answer n a (at a) (publish_attempts net event url n (a + 1)) refl
        (publish_attempts-Answer n (a + 1))

  -- A relay is reported as reached only if one of the three attempts was answered, with that answer
  -- as its text, and every attempt before it timed out or failed.
  pub publish_to_relay_sound :
      (publish_to_relay net event url).success ≡ true
      → (k : ℕ) × (response : String) × (0 ≤ k)
        × (k < 0 + retries)
        × (at k ≡ answered response)
        × ((publish_to_relay net event url).text ≡ response)
        × Before 0 k
  unfolding publish_to_relay
  publish_to_relay_sound = publish_attempts-Answer 3 0

  attempt-Retried :
      (n : ℕ) (o : Attempt) (rest : Sent)
      → Retried o
      → 0 < n
      → after_attempt url (n == 0) o rest ≡ rest
  attempt-Retried n o rest (inl t) p = rw t
  attempt-Retried n o rest (inr (text, t)) p = let e : (n == 0) ≡ false = ground arith in rw (t, e)

  reached :
      (n a k : ℕ) (response : String)
      → a ≤ k
      → k < a + n
      → at k ≡ answered response
      → Before a k
      → publish_attempts net event url n a ≡ sent url true response
  unfolding publish_attempts
  reached zero a k response lo hi q b = absurd (omega arith)
  reached (suc n) a k response lo hi q b = elim (dec_lt a k) [
    | no p ↦ let same : a ≡ k = omega arith in rw (same, q)
    | yes p ↦
        attempt-Retried n (at a) (publish_attempts net event url n (a + 1)) (b a (omega arith) p)
          (omega arith)
        ∙ reached n (a + 1) k response (omega arith) (omega arith) q
            (λ j lo' hi'. b j (omega arith) hi')
  ]

  -- A relay that answers one of the three attempts, after attempts that only timed out or failed, is
  -- reported as reached, with its answer.
  pub publish_to_relay_complete :
      (k : ℕ) (response : String)
      → k < retries
      → at k ≡ answered response
      → Before 0 k
      → publish_to_relay net event url ≡ record { url = url; success = true; text = response }
  unfolding publish_to_relay
  publish_to_relay_complete k response hi q b =
      reached 3 0 k response (omega arith) (omega arith) q b
