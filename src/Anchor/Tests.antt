-- ===== src/Anchor/Tests.antt =====
-- An anchor of two maintainers, one of whom has no key, and a fork.
use agu_odoo.Base.{
  ◌≡◌, ◌↔◌, refl, sym, ap, inl, true, none, some, String, List, [], ◌∷◌, Any, if◌then◌else◌,
}
use agu_odoo.Python.{ok, err, exception, user_error, json_decode_error, ok-inj}
use agu_odoo.Text.{str_eq}
use agu_odoo.Json.{Json, arr, obj, get?}
use agu_odoo.Nostr.{Event}
use agu_odoo.Anchor.{
  Key, Library, key_items, basename, anchor_content, fork_content, create_anchor_event,
  fork_repository, check_permission, list_maintainers, resolve_repository_state,
}
use agu_odoo.Anchor.Permission.{KeepsContent, check_permission_iff, fork_unresolved}

abbrev maintainers : List Key
maintainers = some "1234" ∷ none ∷ []

abbrev anchored : Json
anchored = anchor_content "create_repository" "/srv/p" maintainers

abbrev forked : Json
forked = fork_content "/srv/p" "/srv/q" maintainers

-- The two contents by short names
abbrev dumps : Json → String
dumps (obj fs) = elim (get? "repo_name" fs) [ some j ↦ "anchor" | none ↦ "fork" ]
dumps _ = ""

abbrev library : Library
library = record {
  dumps = dumps;
  loads = λ text.
      if str_eq text "anchor"
      then ok anchored
      else if str_eq text "fork"
      then ok forked
      else err (exception json_decode_error "Expecting value: line 1 column 1 (char 0)");
  public_key = "5678";
  sign_event = λ event. ok (record event { id = some "a1"; signature = some "b2" });
  now = 90;
}

library-KeepsContent : KeepsContent library
library-KeepsContent event signed h = ap (λ (e : Event). e.content) (sym (ok-inj h))

abbrev anchor : Event
anchor = record {
  id = some "a1";
  public_key = "5678";
  created_at = 90;
  kind = 31228;
  tags = ("r" ∷ "/srv/p" ∷ []) ∷ [];
  content = "anchor";
  signature = some "b2";
}

-- A user without a key has permission.
abbrev nobody : Key
nobody = none

check_permission_iff_example :
    (check_permission library anchor nobody ≡ ok true) ↔ Any (λ k. k ≡ nobody) maintainers
unfolding create_anchor_event basename
check_permission_iff_example =
    check_permission_iff library maintainers anchor anchored nobody library-KeepsContent refl
      (inl ("/srv/p", refl, refl))

abbrev fork : Event
fork = record anchor { tags = ("r" ∷ "/srv/q" ∷ []) ∷ []; content = "fork" }

fork_unresolved_example :
    (list_maintainers library fork ≡ ok (arr (key_items maintainers)))
    × (resolve_repository_state library fork
        ≡ err (exception user_error "Incomplete anchor event content"))
unfolding fork_repository
fork_unresolved_example =
    fork_unresolved library maintainers fork "/srv/p" "/srv/q" library-KeepsContent refl refl

basename_last : basename "/srv/p" ≡ "p"
unfolding basename
basename_last = refl

basename_slash : basename "/srv/" ≡ ""
unfolding basename
basename_slash = refl
