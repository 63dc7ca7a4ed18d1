-- ===== src/Mirror/Notices.antt =====
-- `action_test_publish_nostr_event` of gitlab_repository.py: a test event, and what the user is told.
use agu_odoo.Base.{
  Any, Any-mono, count_if-Any, leb, ℕ, ◌≡◌, refl, ap, ◌∙◌, Bool, true, false, not, ◌||◌, Option,
  String, List, [], ◌∷◌, map, count_if, length, ltb, ◌<◌, if◌then◌else◌, arith, inl, inr,
}
use agu_odoo.Python.{
  Result, ok, err, exception, user_error, if-eq_ok_inv_else, ok-inj, Result-cases,
}
use agu_odoo.Text.{concat, join, show, split_commas, strip_all}
use agu_odoo.Odoo.{Notification, success, warning, danger, is_set, text_of}
use agu_odoo.Nostr.{NostrLib, Event}
use agu_odoo.Bridge.Sending.{
  Attempts, answered, Sent, Request, publish_to_relay, publish_event_sync, publish_nostr_event,
  requested_event, retries, at, publish_to_relay_sound,
}

-- The current user's keys, the parameter `nostr_bridge.relay_urls`, the time, the relays and the
-- library.
pub record Desk : Type 0 where
  pub nostr_public_key : Option String
  pub nostr_private_key : Option String
  pub relay_urls : String
  pub now : ℕ
  pub net : Attempts
  pub lib : NostrLib

abbrev pub test_request : Desk → String → String → List String → Request
test_request desk name url urls = record {
  content = concat ("Test Nostr event from GitLab Repository: " ∷ name ∷ []);
  public_key = text_of desk.nostr_public_key;
  private_key = text_of desk.nostr_private_key;
  relay_urls = urls;
  kind = 1;
  tags = ("r" ∷ url ∷ []) ∷ [];
  created_at = desk.now;
}

abbrev pub reached : Sent → Bool
reached s = s.success

abbrev pub failed_lines : List Sent → List String
failed_lines [] = []
failed_lines (s ∷ results) =
    let rest = failed_lines results in
    if s.success then rest else concat ("Relay " ∷ s.url ∷ ": " ∷ s.text ∷ []) ∷ rest

-- `message += "\n\nErrors:\n" + "\n".join(error_messages)`
abbrev with_errors : String → List String → String
with_errors message [] = message
with_errors message (l ∷ lines) = concat (message ∷ "\n\nErrors:\n" ∷ join "\n" (l ∷ lines) ∷ [])

abbrev pub test_message : List String → List Sent → String
test_message urls results =
    if ltb 0 (count_if reached results)
    then concat (
        "Successfully published test Nostr event to "
        ∷ show (count_if reached results)
        ∷ " out of "
        ∷ show (length urls)
        ∷ " relays."
        ∷ [])
    else "Failed to publish test Nostr event to any relay. Check the logs for detailed error messages."

unfoldable pub test_notice : List String → Result (List Sent) → Notification
test_notice urls (ok results) = record {
  title = "Test Nostr Event Publication";
  message = with_errors (test_message urls results) (failed_lines results);
  severity = if ltb 0 (count_if reached results) then success else warning;
  sticky = true;
}
test_notice urls (err e) = record {
  title = "Error";
  message = e.text;
  severity = danger;
  sticky = true;
}

abbrev is_empty {ℓ} : {A : Type ℓ} → List A → Bool
is_empty [] = true
is_empty (x ∷ xs) = false

-- `action_test_publish_nostr_event`, of a repository by its name and url
unfoldable pub test_publish : Desk → String → String → Result Notification
unfolding test_notice
test_publish desk name url =
    if not (is_set desk.nostr_private_key) || not (is_set desk.nostr_public_key)
    then err (
        exception user_error
          "Nostr keys are not set for the current user. Please set them in user preferences.")
    else let urls = strip_all (split_commas desk.relay_urls) in
      if is_empty urls
      then err
          (exception user_error "No Nostr relay URLs configured. Please set them in the settings.")
      else ok (
          test_notice urls (publish_event_sync desk.net desk.lib (test_request desk name url urls)))

-- What the publication returns: the event was signed, and each relay has a result.
publish_event_sync-eq_ok :
    (net : Attempts) (lib : NostrLib) (r : Request) (results : List Sent)
    → publish_event_sync net lib r ≡ ok results
    → (event : Event) × (requested_event lib r ≡ ok event)
      × (results ≡ map (publish_to_relay net event) r.relay_urls)
unfolding publish_event_sync publish_nostr_event
publish_event_sync-eq_ok net lib r results h = elim (Result-cases (requested_event lib r)) [
  | inl (e, q) ↦ absurd (ground (arith, q, h))
  | inr (event, q) ↦ (event, q, ground (arith, q, h))
]

-- A relay answered one of the attempts at sending the event.
abbrev pub Answers : Desk → Event → String → Type 0
Answers desk event url =
    (k : ℕ) × (response : String) × (k < retries) × (at desk.net event url k ≡ answered response)

notice-success :
    (urls : List String) (r : Result (List Sent))
    → (test_notice urls r).severity ≡ success
    → (results : List Sent) × (r ≡ ok results) × (leb (count_if reached results) 0 ≡ false)
unfolding test_notice
notice-success urls (err e) h = absurd (cc h)
notice-success urls (ok results) h = (results, refl, ground (arith, h))

-- If the test of a repository reports success, then its event could be signed, and some relay of the
-- configuration answered one of the three attempts at sending it.
pub test_publish_sound :
    (desk : Desk) (name url : String) (n : Notification)
    → test_publish desk name url ≡ ok n
    → n.severity ≡ success
    → let urls = strip_all (split_commas desk.relay_urls) in
      (event : Event) × (requested_event desk.lib (test_request desk name url urls) ≡ ok event)
      × Any (Answers desk event) urls
unfolding test_publish
test_publish_sound desk name url n h s =
    let urls = strip_all (split_commas desk.relay_urls) in
    let r = test_request desk name url urls in
    let sent = publish_event_sync desk.net desk.lib r in
    let (_, h₁) =
      if-eq_ok_inv_else (not (is_set desk.nostr_private_key) || not (is_set desk.nostr_public_key))
        _ _ h in
    let (_, h₂) = if-eq_ok_inv_else (is_empty urls) (ok (test_notice urls sent)) _ h₁ in
    let same : test_notice urls sent ≡ n = ok-inj h₂ in
    let (results, q, positive) =
      notice-success urls sent (ap (λ (n : Notification). n.severity) same ∙ s) in
    let (event, signed, each) = publish_event_sync-eq_ok desk.net desk.lib r results q in
    (
      event,
      signed,
      Any-mono (λ u. (publish_to_relay desk.net event u).success ≡ true) (Answers desk event)
          (λ u t.
            let (k, response, lo, hi, found, said, before) =
              publish_to_relay_sound desk.net event u t in
            (k, response, omega arith, found))
          urls
          (count_if-Any reached (publish_to_relay desk.net event) urls
            (ground (arith, each, positive))),
    )
