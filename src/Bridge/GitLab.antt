-- ===== src/Bridge/GitLab.antt =====
-- The GitLab side of gitlab_nostr_bridge/models/nostr_event.py: an event for a commit, a branch or a
-- merge request, its row and its publication; and the signature of an event that has none.
use agu_odoo.Base.{
  ℕ, ◌≡◌, false, Option, none, some, String, List, [], ◌∷◌, if◌then◌else◌, ◌==◌, arith, ap, sym,
  ◌∙◌,
}
use agu_odoo.Python.{
  Result, ok, err, exception, user_error, value_error, bind, bind-eq_ok_inv, ok-inj,
}
use agu_odoo.Text.{str_eq, starts_with, concat}
use agu_odoo.Json.{Json, str, item}
use agu_odoo.Odoo.{is_set, text_of}
use agu_odoo.Nostr.{NostrLib, Event, Tags}
use agu_odoo.Bridge.{
  BridgeEvent, invalid_key, ensure_private_key, bech32_to_hex, get_private_key, tags_of, or_now,
  sign_event,
}
use agu_odoo.Bridge.Strategies.{Env, publish_event}
use agu_odoo.Bridge.Kept.{Kept, publish_event-Kept}

-- `_get_event_kind`
unfoldable pub get_event_kind : String → ℕ
get_event_kind event_type =
    if str_eq event_type "commit"
    then 3121
    else if str_eq event_type "branch"
    then 31227
    else if str_eq event_type "merge_request"
    then 31228
    else 1

-- A tag of the data of an event: its name and the value at a key.
abbrev tag_of : String → String → Json → Result (List Json)
tag_of name key payload = bind (item key payload) λ v. ok (str name ∷ v ∷ [])

abbrev two_tags : Result (List Json) → Result (List Json) → Result (List (List Json))
two_tags r s = bind r λ t. bind s λ u. ok (t ∷ u ∷ [])

-- `_get_event_tags`, which `create_gitlab_event` does not call
unfoldable pub get_event_tags : String → Json → Result (List (List Json))
get_event_tags event_type payload =
    if str_eq event_type "commit"
    then two_tags (tag_of "p" "project_id" payload) (tag_of "c" "commit_id" payload)
    else if str_eq event_type "branch"
    then two_tags (tag_of "p" "project_id" payload) (tag_of "b" "branch_name" payload)
    else if str_eq event_type "merge_request"
    then two_tags (tag_of "p" "project_id" payload) (tag_of "mr" "merge_request_id" payload)
    else ok []

-- The function `bech32_to_hex` of the module
abbrev invalid_format : Result String → Result String
invalid_format (ok key) = ok key
invalid_format (err e) =
    err (exception value_error (concat ("Invalid public key format: " ∷ e.text ∷ [])))

unfoldable pub user_key_to_hex : NostrLib → String → Result String
user_key_to_hex lib key =
    if starts_with key "npub" then invalid_format (lib.from_npub key) else ok key

-- `create_nostr_event`, from the data of `create_gitlab_event`
abbrev pub gitlab_event : ℕ → String → String → String → Event
gitlab_event now event_type content pubkey = record {
  id = none;
  public_key = pubkey;
  created_at = now;
  kind = get_event_kind event_type;
  tags = ("p" ∷ pubkey ∷ []) ∷ [];
  content = content;
  signature = none;
}

-- The values of `create_and_publish`, with the key as `create` converts it.
abbrev pub row_of : Event → String → BridgeEvent
row_of event public_key = record {
  event_id = event.id;
  kind = event.kind;
  content = event.content;
  tags = some (ok event.tags);
  public_key = public_key;
  created_at = event.created_at;
  signature = event.signature;
  published = false;
  logs = none;
}

-- `create_and_publish`, which returns the row whatever the publication reports
unfoldable pub create_and_publish : Env → Event → Result BridgeEvent
create_and_publish env event =
    bind (bech32_to_hex env.lib event.public_key)
      λ public_key. ok (publish_event env (row_of event public_key)).1

abbrev pub user_key : Env → Result String
user_key env =
    if is_set env.user.nostr_public_key
    then user_key_to_hex env.lib (text_of env.user.nostr_public_key)
    else err (exception user_error "Nostr public key is not set for the current user.")

-- `create_gitlab_event`, for the content that `json.dumps(data)` gives
unfoldable pub create_gitlab_event : Env → String → String → Result BridgeEvent
create_gitlab_event env event_type content = bind (user_key env) λ pubkey.
    bind (sign_event env.lib env.user (gitlab_event env.now event_type content pubkey))
      λ signed. create_and_publish env signed

-- What `generate_event_id_and_signature` signs.
abbrev pub unsigned : Env → BridgeEvent → String → Tags → Event
unsigned env e pub_key tags = record {
  id = none;
  public_key = pub_key;
  created_at = or_now e.created_at env.now;
  kind = if e.kind == 0 then 1 else e.kind;
  tags = tags;
  content = e.content;
  signature = none;
}

-- Its `except` computes an id and sets a signature of its own.
abbrev pub signed_or_dummy : Env → Event → Result Event → Event
signed_or_dummy env event (ok signed) = signed
signed_or_dummy env event (err e) = record event {
  id =
      some
        (env.lib.compute_id event.public_key event.created_at event.kind event.tags event.content);
  signature = some "dummy_signature_for_testing";
}

-- `self.public_key or self.env.user.nostr_public_key`
abbrev pub key_or_user : Env → BridgeEvent → Option String
key_or_user env e =
    if is_set (some e.public_key) then some e.public_key else env.user.nostr_public_key

-- The key as `write` converts it; `None` has no `startswith`.
abbrev pub written_key : NostrLib → Option String → Result String
written_key lib none = invalid_key
written_key lib (some key) = bech32_to_hex lib key

unfoldable pub generate_event_id_and_signature : Env → BridgeEvent → Result BridgeEvent
generate_event_id_and_signature env e = bind (tags_of e.tags) λ tags.
    let event = unsigned env e (text_of (key_or_user env e)) tags in
    let signed = signed_or_dummy env event (sign_event env.lib env.user event) in
    bind (written_key env.lib (key_or_user env e)) λ public_key. ok (record e {
      event_id = signed.id;
      signature = signed.signature;
      created_at = event.created_at;
      public_key = public_key;
    })

-- If the user has no private key and the call returns, then the signature of the event is the text
-- `dummy_signature_for_testing`.
pub generate_dummy_signature :
    (env : Env) (e e' : BridgeEvent)
    → is_set env.user.nostr_private_key ≡ false
    → generate_event_id_and_signature env e ≡ ok e'
    → e'.signature ≡ some "dummy_signature_for_testing"
unfolding generate_event_id_and_signature sign_event get_private_key ensure_private_key
generate_dummy_signature env e e' h g =
    let (tags, t, r) = bind-eq_ok_inv (tags_of e.tags) _ g in
    let (public_key, k, s) = bind-eq_ok_inv (written_key env.lib (key_or_user env e)) _ r in
    ground (arith, s, h)

-- If `create_gitlab_event` returns, and a signature changes neither kind, content nor tags of an
-- event, then the row has the kind of its type, the content that was dumped, and one tag with the
-- key of the user and no other, whatever the publication reported.
pub create_gitlab_event_row :
    (env : Env) (event_type content : String) (row : BridgeEvent)
    → ((key : String) (event signed : Event)
        → env.lib.sign_event key event ≡ ok signed
        → (signed.kind ≡ event.kind)
          × (signed.content ≡ event.content)
          × (signed.tags ≡ event.tags))
    → create_gitlab_event env event_type content ≡ ok row
    → (pubkey : String) × (user_key env ≡ ok pubkey)
      × (row.kind ≡ get_event_kind event_type)
      × (row.content ≡ content)
      × (row.tags ≡ some (ok (("p" ∷ pubkey ∷ []) ∷ [])))
unfolding create_gitlab_event create_and_publish sign_event
create_gitlab_event_row env event_type content row keeps h =
    let (pubkey, k, h₁) = bind-eq_ok_inv (user_key env) _ h in
    let (signed, s, h₂) =
      bind-eq_ok_inv (sign_event env.lib env.user (gitlab_event env.now event_type content pubkey))
        _ h₁ in
    let (key, g, t) = bind-eq_ok_inv (get_private_key env.lib env.user) _ s in
    let (public_key, b, h₃) = bind-eq_ok_inv (bech32_to_hex env.lib signed.public_key) _ h₂ in
    let kept : Kept (row_of signed public_key) (publish_event env (row_of signed public_key)).1 =
      publish_event-Kept env (row_of signed public_key) in
    let same : (publish_event env (row_of signed public_key)).1 ≡ row = ok-inj h₃ in
    let (kind, cont, tag) = keeps key (gitlab_event env.now event_type content pubkey) signed t in
    (
      pubkey,
      k,
      sym (ap (λ (e : BridgeEvent). e.kind) same) ∙ kept.0 ∙ kind,
      sym (ap (λ (e : BridgeEvent). e.content) same) ∙ kept.1 ∙ cont,
      sym (ap (λ (e : BridgeEvent). e.tags) same) ∙ kept.2 ∙ ap (λ ts. some (ok ts)) tag,
    )
