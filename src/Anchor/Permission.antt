-- ===== src/Anchor/Permission.antt =====
-- Who has permission by an anchor that the addon has made, and what a fork's anchor lacks.
use agu_odoo.Base.{
  ◌≡◌, ◌↔◌, refl, ap, ◌∙◌, ◌⊎◌, inl, inr, true, none, some, String, List, [], ◌∷◌, Any, arith,
  eq_iff, Bool-cases,
}
use agu_odoo.Python.{ok, err, exception, user_error, ok-inj}
use agu_odoo.Json.{Json, arr, item}
use agu_odoo.Nostr.{Event}
use agu_odoo.Anchor.{
  Key, Library, key_items, key_value, anchor_content, fork_content, create_anchor_event,
  update_anchor, fork_repository, equals_key, in_items, check_permission, list_maintainers,
  resolve_repository_state, handled,
}

-- A signature keeps the content, and `json.loads` reads what `json.dumps` has written of it.
abbrev pub KeepsContent : Library → Type 0
KeepsContent lib =
    (event signed : Event) → lib.sign_event event ≡ ok signed → signed.content ≡ event.content

abbrev pub IsRead : Library → Json → Type 0
IsRead lib j = lib.loads (lib.dumps j) ≡ ok j

equals_key_iff : (k j : Key) → (equals_key k (key_value j) ≡ true) ↔ (j ≡ k)
equals_key_iff none none = ((λ h. refl), (λ h. refl))
equals_key_iff none (some j) = ((λ h. absurd (cc h)), (λ h. absurd (cc h)))
equals_key_iff (some k) none = ((λ h. absurd (cc h)), (λ h. absurd (cc h)))
equals_key_iff (some k) (some j) =
    ((λ h. ap some ((eq_iff j k).0 h)), (λ h. ground (arith, eq_iff j k)))

Any-of_in_items :
    (k : Key) (keys : List Key) → in_items k (key_items keys) ≡ true → Any (λ j. j ≡ k) keys
Any-of_in_items k [] h = absurd (cc h)
Any-of_in_items k (j ∷ keys) h = elim (Bool-cases (equals_key k (key_value j))) [
  | inl e ↦ inl ((equals_key_iff k j).0 e)
  | inr e ↦ inr (Any-of_in_items k keys (ground (arith, e, h)))
]

in_items_of_Any :
    (k : Key) (keys : List Key) → Any (λ j. j ≡ k) keys → in_items k (key_items keys) ≡ true
in_items_of_Any k [] m = elim m [ ]
in_items_of_Any k (j ∷ keys) (inl e) = rw ((equals_key_iff k j).1 e) refl
in_items_of_Any k (j ∷ keys) (inr m) = rw (in_items_of_Any k keys m) (ground arith)

-- The event is one that a method of the addon has made for the maintainers, with this content.
abbrev pub IsAnchor : Library → List Key → Event → Json → Type 0
IsAnchor lib maintainers event content =
    ((path : String) × (create_anchor_event lib path maintainers ≡ ok event)
      × (content ≡ anchor_content "create_repository" path maintainers))
    ⊎ ((path : String) × (update_anchor lib path maintainers ≡ ok event)
        × (content ≡ anchor_content "update_repository" path maintainers))
    ⊎ ((original new : String) × (fork_repository lib original new maintainers ≡ ok event)
        × (content ≡ fork_content original new maintainers))

anchor-content :
    (lib : Library) (maintainers : List Key) (event : Event) (content : Json)
    → KeepsContent lib
    → IsAnchor lib maintainers event content
    → event.content ≡ lib.dumps content
unfolding create_anchor_event update_anchor fork_repository
anchor-content lib maintainers event content keeps (inl (path, made, c)) = rw c (keeps _ event made)
anchor-content lib maintainers event content keeps (inr (inl (path, made, c))) =
    rw c (keeps _ event made)
anchor-content lib maintainers event content keeps (inr (inr (original, new, made, c))) =
    rw c (keeps _ event made)

anchor-loads :
    (lib : Library) (maintainers : List Key) (event : Event) (content : Json)
    → KeepsContent lib
    → IsRead lib content
    → IsAnchor lib maintainers event content
    → lib.loads event.content ≡ ok content
anchor-loads lib maintainers event content keeps r a =
    ap lib.loads (anchor-content lib maintainers event content keeps a) ∙ r

anchor-list_maintainers :
    (lib : Library) (maintainers : List Key) (event : Event) (content : Json)
    → KeepsContent lib
    → IsRead lib content
    → IsAnchor lib maintainers event content
    → list_maintainers lib event ≡ ok (arr (key_items maintainers))
unfolding list_maintainers
anchor-list_maintainers lib maintainers event content keeps r a =
    rw (anchor-loads lib maintainers event content keeps r a) (listed a)
  where
    listed :
        IsAnchor lib maintainers event content
        → handled (item "maintainers" content) ≡ ok (arr (key_items maintainers))
    listed (inl (path, made, c)) = rw c refl
    listed (inr (inl (path, made, c))) = rw c refl
    listed (inr (inr (original, new, made, c))) = rw c refl

-- By an anchor that was created, updated or forked for a list of maintainers, a key has permission
-- exactly if it is one of theirs. This holds of the missing key as well: a user without a key has
-- permission exactly if some maintainer has none. The library is one that keeps the content of an
-- event when it signs it, and that reads the content of the anchor as it was written.
pub check_permission_iff :
    (lib : Library) (maintainers : List Key) (event : Event) (content : Json) (key : Key)
    → KeepsContent lib
    → IsRead lib content
    → IsAnchor lib maintainers event content
    → (check_permission lib event key ≡ ok true) ↔ Any (λ k. k ≡ key) maintainers
unfolding check_permission
check_permission_iff lib maintainers event content key keeps r a =
    rw (anchor-list_maintainers lib maintainers event content keeps r a) (
      (λ h. Any-of_in_items key maintainers (ok-inj h)),
      (λ m. ap ok (in_items_of_Any key maintainers m)),
    )

-- The anchor of a fork names its maintainers, but the state of the repository cannot be resolved from
-- it: `resolve_repository_state` always raises a UserError, since the content has no `repo_name`.
pub fork_unresolved :
    (lib : Library) (maintainers : List Key) (event : Event) (original new : String)
    → KeepsContent lib
    → IsRead lib (fork_content original new maintainers)
    → fork_repository lib original new maintainers ≡ ok event
    → (list_maintainers lib event ≡ ok (arr (key_items maintainers)))
      × (resolve_repository_state lib event
          ≡ err (exception user_error "Incomplete anchor event content"))
unfolding resolve_repository_state
fork_unresolved lib maintainers event original new keeps r made =
    let content = fork_content original new maintainers in
    let a : IsAnchor lib maintainers event content = inr (inr (original, new, made, refl)) in
    (
      anchor-list_maintainers lib maintainers event content keeps r a,
      rw (anchor-loads lib maintainers event content keeps r a) refl,
    )
