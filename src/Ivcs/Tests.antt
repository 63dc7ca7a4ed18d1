-- ===== src/Ivcs/Tests.antt =====
-- Runs of a branch manager over repositories that are lists of heads.
use agu_odoo.Base.{ℕ, ◌≡◌, refl, Bool, true, not, some, String, List, [], ◌∷◌, any, keep}
use agu_odoo.Python.{ok}
use agu_odoo.Text.{str_eq}
use agu_odoo.Publisher.Tests.{test_lib}
use agu_odoo.Json.{json, obj, str, field, end}
use agu_odoo.Ivcs.{Git, Outside, Item, Site, LogEvent}
use agu_odoo.Ivcs.Log.{
  reconstruct_branches_from_events, replay, put, sort_events, insert_event, is_found, like,
  like_prefix,
}

abbrev has : String → List String → Bool
has b heads = any (λ c. str_eq c b) heads

abbrev without : String → List String → List String
without b heads = keep (λ c. not (str_eq c b)) heads

-- A commit or a merge leaves the list of heads as it is.
abbrev head_git : Git (List String)
head_git = record {
  has_head = has;
  create_head = λ b heads. b ∷ heads;
  delete_head = without;
  set_commit = λ b commit heads. (ok tt, heads);
  checkout_and_merge = λ target source heads. (ok tt, heads);
  abort_merge = λ heads. (ok tt, heads);
}

abbrev outside : Outside (List String)
outside = record { git = head_git; lib = test_lib; public_key_of = λ key. key; dumps = λ j. "{}" }

abbrev item : Item
item = record {
  name = "docs";
  repo_path = "/opt/ivcs_repos/item_1";
  nostr_private_key = some "1234";
}

abbrev empty_site : Site (List String)
empty_site = record { repo = []; events = []; has_manager = true; current_branch = "main" }

-- An event of a log, with the tags of the item.
abbrev logged : String → ℕ → LogEvent
logged action at = record {
  kind = 31227;
  content = json (obj (field "action" (str action) (field "branch_name" (str "feature") end)));
  tags = "[[\"r\", \"/opt/ivcs_repos/item_1\"]]";
  created_at = at;
}

-- The creation is later than the deletion, though it is stored first.
replayed_in_order :
    reconstruct_branches_from_events item (logged "create" 5 ∷ logged "delete" 3 ∷ [])
    ≡ ok (put (some "feature") 5 [])
unfolding reconstruct_branches_from_events sort_events insert_event replay is_found like like_prefix
replayed_in_order = refl
