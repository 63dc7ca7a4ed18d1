-- ===== src/Publisher/Api.antt =====
-- The ways into the publisher: `publish_event_for_module` of nostr_publisher.py, the controllers of
-- controllers/main.py and the wizard of wizards/submit_event_wizard.py.
use agu_odoo.Base.{
  ℕ, ◌≡◌, Bool, true, false, ◌&&◌, Option, none, some, String, List, [], ◌∷◌, ◌++◌, if◌then◌else◌,
}
use agu_odoo.Python.{Result, ok, err, exception, user_error, Exec, bind}
use agu_odoo.Text.{concat}
use agu_odoo.Json.{Json, str, obj, field, end}
use agu_odoo.Odoo.{Notification, success, danger, is_set, text_of}
use agu_odoo.Nostr.{NostrLib, Tags}
use agu_odoo.Publisher.{Publisher, RelayTest, is_active_state, test_relay_connections}
use agu_odoo.Publisher.Publish.{Sender, publish_event, record_publish}
use agu_odoo.Publisher.Outcome.{ready, Refused, publish_event_ready, publish_event_refuses}

abbrev pub is_active_publisher : Publisher → Bool
is_active_publisher p = is_active_state p.state

-- `search(domain, limit=1)` and a method of the record found; `none` if no record is found.
abbrev pub on_first :
    {A : Type 0}
    → (Publisher → Bool)
    → Exec Publisher A
    → List Publisher
    → Option (Result A) × List Publisher
on_first sel m [] = (none, [])
on_first sel m (p ∷ ps) =
    let rest = on_first sel m ps in
    if sel p then (some (m p).0, (m p).1 ∷ ps) else (rest.0, p ∷ rest.1)

-- The tags and the content of a module's event.
abbrev module_tags : String → String → Tags → Tags
module_tags module_name event_type tags =
    tags ++ (("e" ∷ module_name ∷ []) ∷ ("t" ∷ event_type ∷ []) ∷ [])

abbrev module_content : String → String → String → Json
module_content module_name event_type content = obj (
    field "module" (str module_name)
      (field "type" (str event_type) (field "content" (str content) end)))

abbrev found_or :
    {A : Type 0} → List Publisher → Option (Result A) × List Publisher → Result A × List Publisher
found_or ps (none, _) = (err (exception user_error "No active Nostr Publisher configured"), ps)
found_or ps (some r, ps') = (r, ps')

-- What the calls take from outside: the `nostr` package, `json.dumps`, the relays and the time.
pub record Outside : Type 0 where
  pub lib : NostrLib
  pub dumps : Json → String
  pub send : Sender
  pub now : ℕ

-- `publish_event_for_module`
unfoldable pub publish_event_for_module :
    Outside → String → String → String → Tags → Exec (List Publisher) Bool
publish_event_for_module o module_name event_type content tags ps = found_or ps (
    on_first is_active_publisher
      (publish_event o.lib o.send o.now (o.dumps (module_content module_name event_type content)) 1
        (module_tags module_name event_type tags))
      ps)

-- The JSON reply of a controller.
pub data Reply : Type 0 where
  event_id : Bool → Reply
  error : String → Reply
  done : String → Reply

abbrev publish_reply : Option (Result Bool) → Reply
publish_reply none = error "No active Nostr Publisher configured"
publish_reply (some (ok published)) = event_id published
publish_reply (some (err e)) = error "Failed to publish event"

-- The route /nostr/publish.
unfoldable pub publish_route : Outside → String → ℕ → Tags → List Publisher → Reply × List Publisher
publish_route o content kind tags ps =
    let found =
      on_first is_active_publisher (publish_event o.lib o.send o.now content kind tags) ps in
    (publish_reply found.0, found.1)

abbrev module_reply : Result Bool → Reply
module_reply (ok published) = event_id published
module_reply (err e) = error (concat ("Failed to publish event for module: " ∷ e.text ∷ []))

-- The route /nostr/publish_for_module.
unfoldable pub publish_for_module_route :
    Outside → String → String → String → Tags → List Publisher → Reply × List Publisher
unfolding publish_event_for_module
publish_for_module_route o module_name event_type content tags ps =
    let published = publish_event_for_module o module_name event_type content tags ps in
    (module_reply published.0, published.1)

abbrev test_reply : Option (Result (Unit {0})) → Reply
test_reply none = error "No Nostr Publisher configured"
test_reply (some r) = done "Relay test initiated"

-- The route /nostr/test_relays, over the first publisher of the table, active or not.
unfoldable pub test_relays_route : RelayTest → List Publisher → Reply × List Publisher
test_relays_route net ps =
    let found = on_first (λ p. true) (λ p. (ok tt, test_relay_connections net p)) ps in
    (test_reply found.0, found.1)

-- `submit.event.wizard`; the tags are what `json.loads(self.tags)` gives.
pub record Wizard : Type 0 where
  pub content : String
  pub kind : ℕ
  pub tags : Result Tags
  pub tag_key : Option String
  pub tag_value : Option String

abbrev with_tag : Wizard → Tags → Wizard
with_tag w tags = record w {
  tags = ok (tags ++ ((text_of w.tag_key ∷ text_of w.tag_value ∷ []) ∷ []));
  tag_key = none;
  tag_value = none;
}

-- `_onchange_tag`
unfoldable pub onchange_tag : Wizard → Result Wizard
onchange_tag w =
    if is_set w.tag_key && is_set w.tag_value
    then bind w.tags (λ tags. ok (with_tag w tags))
    else ok w

abbrev pub submitted : Notification
submitted = record {
  title = "Event Submitted";
  message = "Event successfully published.";
  severity = success;
  sticky = false;
}

abbrev submit_failed : String → Notification
submit_failed message = record {
  title = "Error";
  message = message;
  severity = danger;
  sticky = false;
}

abbrev submit_notice : Result Bool → Notification
submit_notice (ok true) = submitted
submit_notice (ok false) = submit_failed "Failed to publish event."
submit_notice (err e) = submit_failed (concat ("Failed to publish event: " ∷ e.text ∷ []))

abbrev submit_tags : NostrLib → Sender → ℕ → Wizard → Result Tags → Exec Publisher Bool
submit_tags lib send now w (err e) p = (err e, p)
submit_tags lib send now w (ok tags) p = publish_event lib send now w.content w.kind tags p

-- `submit_event`, on the publisher that the wizard names
unfoldable pub submit_event : NostrLib → Sender → ℕ → Wizard → Publisher → Notification × Publisher
submit_event lib send now w p =
    let r = submit_tags lib send now w w.tags p in (submit_notice r.0, r.1)

module _ (lib : NostrLib) (send : Sender) (now : ℕ) (w : Wizard) (p : Publisher) (tags : Tags) where
  abbrev publishes : Bool
  publishes = ready lib send now w.content w.kind tags p

  failed_notice :
      Refused lib send now w.content w.kind tags p
        (publish_event lib send now w.content w.kind tags p)
      → let r = publish_event lib send now w.content w.kind tags p in
        ((submit_notice r.0).severity ≡ danger) × (r.1 ≡ p)
  failed_notice (e, r, c, q) = (rw r, q)

  -- With tags that parse, the wizard reports success and the event is counted if the publisher can
  -- deliver it; else it reports an error and the publisher is as it was.
  pub submit_event_reports :
      w.tags ≡ ok tags
      → ((publishes ≡ true) → submit_event lib send now w p ≡ (submitted, record_publish now p))
        × ((publishes ≡ false)
            → ((submit_event lib send now w p).0.severity ≡ danger)
              × ((submit_event lib send now w p).1 ≡ p))
  unfolding submit_event
  submit_event_reports t = rw t (
    (λ h. rw (publish_event_ready lib send now w.content w.kind tags p h)),
    (λ h. failed_notice (publish_event_refuses lib send now w.content w.kind tags p h)),
  )
