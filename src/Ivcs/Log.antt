-- ===== src/Ivcs/Log.antt =====
-- `reconstruct_branches_from_events` of branch_manager.py, and `create_branch` of ivcs_item.py with
-- its own event.
use agu_odoo.Base.{
  ⊤, ℕ, Bool, true, false, not, ◌&&◌, ◌||◌, Option, none, some, String, List, [], ◌∷◌, map, keep,
  any, leb, ◌==◌, if◌then◌else◌,
}
use agu_odoo.Python.{Result, ok, err, exception, user_error, attribute_error, bind, Exec}
use agu_odoo.Text.{codes, lower, str_eq}
use agu_odoo.Json.{Json, null, bool, num, str, arr, obj, field, end, loads, get?}
use agu_odoo.Odoo.{is_set}
use agu_odoo.Ivcs.{Outside, Item, LogEvent, Site, sign_content, create_and_publish, create_branch}

-- A branch of the reconstruction. Its name is what the content says, if that is a text.
pub record Branch : Type 0 where
  pub name : Option String
  pub created_at : ℕ
  pub last_updated : Option ℕ
  pub last_merged : Option ℕ
  pub merged_from : Option Json

abbrev pub same_name : Option String → Option String → Bool
same_name none none = true
same_name none (some t) = false
same_name (some s) none = false
same_name (some s) (some t) = str_eq s t

abbrev pub is_named : Option String → Branch → Bool
is_named name b = same_name b.name name

-- `branch_name in branches`
abbrev pub has_branch : Option String → List Branch → Bool
has_branch name branches = any (is_named name) branches

-- `branches.pop(branch_name, None)`
abbrev pub pop : Option String → List Branch → List Branch
pop name branches = keep (λ b. not (is_named name b)) branches

-- `branches[branch_name] = {'created_at': created_at}`
abbrev pub put : Option String → ℕ → List Branch → List Branch
put name created_at branches =
    record {
      name = name;
      created_at = created_at;
      last_updated = none;
      last_merged = none;
      merged_from = none;
    }
    ∷ pop name branches

-- The change of the entry at a name, if there is one.
abbrev pub change : Option String → (Branch → Branch) → List Branch → List Branch
change name f branches = map (λ b. if is_named name b then f b else b) branches

abbrev pub set_updated : ℕ → Branch → Branch
set_updated at b = record b { last_updated = some at }

abbrev pub set_merged : ℕ → Option Json → Branch → Branch
set_merged at info b = record b { last_merged = some at; merged_from = info }

abbrev pub text_value : Option Json → Option String
text_value (some (str s)) = some s
text_value _ = none

abbrev pub is_action : Option String → String → Bool
is_action none action = false
is_action (some s) action = str_eq s action

-- The branches of the loop on the action of an event.
abbrev pub apply_action :
    Option String → Option String → Option Json → ℕ → List Branch → List Branch
apply_action action name info created_at branches =
    if is_action action "create"
    then put name created_at branches
    else if is_action action "delete"
    then pop name branches
    else if is_action action "update"
    then change name (set_updated created_at) branches
    else if is_action action "merge"
    then change name (set_merged created_at info) branches
    else branches

abbrev pub no_get : Result (List Branch)
no_get = err (exception attribute_error "object has no attribute 'get'")

abbrev pub apply_content : Json → ℕ → List Branch → Result (List Branch)
apply_content (obj fs) created_at branches = ok (
    apply_action (text_value (get? "action" fs)) (text_value (get? "branch_name" fs))
      (get? "additional_info" fs) created_at branches)
apply_content null created_at branches = no_get
apply_content (bool b) created_at branches = no_get
apply_content (num n) created_at branches = no_get
apply_content (str s) created_at branches = no_get
apply_content (arr xs) created_at branches = no_get

-- One round of the loop.
abbrev pub apply_event : LogEvent → List Branch → Result (List Branch)
apply_event e branches = bind (loads e.content) λ j. apply_content j e.created_at branches

unfoldable pub replay : List LogEvent → List Branch → Result (List Branch)
replay [] branches = ok branches
replay (e ∷ events) branches = bind (apply_event e branches) (replay events)

-- `ilike` on the tags: the path occurs in them, where `_` stands for any character and letters
-- match in either case.
abbrev pub like_char : ℕ → ℕ → Bool
like_char p c = p == b'_' || lower p == lower c

unfoldable pub like_prefix : List ℕ → List ℕ → Bool
like_prefix [] s = true
like_prefix (p ∷ pattern') [] = false
like_prefix (p ∷ pattern') (c ∷ s) = like_char p c && like_prefix pattern' s

unfoldable pub like : List ℕ → List ℕ → Bool
unfolding like_prefix
like pattern' [] = like_prefix pattern' []
like pattern' (c ∷ s) = like_prefix pattern' (c ∷ s) || like pattern' s

-- The domain of the search.
unfoldable pub is_found : Item → LogEvent → Bool
is_found item e = e.kind == 31227 && like (codes item.repo_path) (codes e.tags)

-- `order='created_at asc'`; events of the same time stay in the order of the table.
unfoldable pub insert_event : LogEvent → List LogEvent → List LogEvent
insert_event e [] = e ∷ []
insert_event e (f ∷ events) =
    let rest = insert_event e events in
    if leb e.created_at f.created_at then e ∷ f ∷ events else f ∷ rest

unfoldable pub sort_events : List LogEvent → List LogEvent
unfolding insert_event
sort_events [] = []
sort_events (e ∷ events) = insert_event e (sort_events events)

-- `reconstruct_branches_from_events`
unfoldable pub reconstruct_branches_from_events : Item → List LogEvent → Result (List Branch)
unfolding sort_events
reconstruct_branches_from_events item events = replay (sort_events (keep (is_found item) events)) []

-- The content of the event of an item.
abbrev pub item_content : Item → String → Json
item_content item branch_name = obj (
    field "action" (str "create_branch")
      (field "branch_name" (str branch_name) (field "repo_name" (str item.name) end)))

-- `_create_nostr_branch_event` of ivcs_item.py
unfoldable pub create_nostr_branch_event :
    {R : Type 0} → Outside R → Item → ℕ → String → Exec (Site R) ⊤
create_nostr_branch_event o item now branch_name s =
    let content = item_content item branch_name in
    if is_set item.nostr_private_key
    then create_and_publish (sign_content o item now content) s
    else (err (exception user_error "Nostr private key is not set for this item."), s)

-- Then the manager's own `create_branch`, whose answer is dropped.
abbrev pub then_manager :
    {R : Type 0} → Outside R → Item → ℕ → String → Result ⊤ × Site R → Result ⊤ × Site R
then_manager o item now branch_name (err e, s) = (err e, s)
then_manager o item now branch_name (ok u, s) =
    let (r, s') = create_branch o item now branch_name s in (bind r (λ b. ok tt), s')

-- What the notification says: created, or that there is one.
abbrev pub created : {R : Type 0} → Bool → Result ⊤ × Site R → Result Bool × Site R
created b (ok u, s) = (ok b, s)
created b (err e, s) = (err e, s)

-- `create_branch` of ivcs_item.py: true for the notification of success
unfoldable pub item_create_branch :
    {R : Type 0} → Outside R → Item → ℕ → String → Exec (Site R) Bool
unfolding create_nostr_branch_event
item_create_branch o item now branch_name s =
    let s₀ : Site _ = record s { has_manager = true } in
    if o.git.has_head branch_name s.repo
    then (ok false, s₀)
    else created true (
        then_manager o item now branch_name (
          create_nostr_branch_event o item now branch_name (record s₀ {
            repo = o.git.create_head branch_name s.repo;
            current_branch = branch_name;
          })))
