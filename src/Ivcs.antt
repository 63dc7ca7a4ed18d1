-- ===== src/Ivcs.antt =====
-- odoo_custom_addons/integrated_ivcs/models/branch_manager.py, with the branches of ivcs_item.py and
-- `create_and_publish` of nostr_event.py: the branches of a repository, and the event of each
-- operation. The package GitPython is a record of functions.
pub mod Events
pub mod Log
pub mod Unlogged
pub mod Tests
use agu_odoo.Base.{
  ⊤, ℕ, Bool, true, false, not, ◌&&◌, ◌||◌, Option, none, some, String, List, [], ◌∷◌, ◌++◌, map,
  keep, any, ◌==◌, if◌then◌else◌,
}
use agu_odoo.Python.{
  Error, Result, ok, err, exception, user_error, attribute_error, key_error, bind, Exec, pure,
  raise, modify, catch, ◌>>=◌, ◌>>◌,
}
use agu_odoo.Text.{nonempty, concat, codes, lower, str_eq}
use agu_odoo.Json.{Json, Fields, Doc, json, str, obj, field, end, loads, get?, equals_text}
use agu_odoo.Odoo.{Notification, Severity, success, warning, is_set, text_of}
use agu_odoo.Nostr.{NostrLib, Event}

-- `git.Repo`, over the repositories `R`
pub record Git (R : Type 0) : Type 0 where
  -- `branch_name in repo.heads`
  pub has_head : String → R → Bool
  pub create_head : String → R → R
  -- `repo.delete_head(branch_name, force=True)`
  pub delete_head : String → R → R
  -- `repo.heads[branch_name].set_commit(commit)`
  pub set_commit : String → String → Exec R ⊤
  -- `repo.git.checkout(target)` and `repo.git.merge(source)`
  pub checkout_and_merge : String → String → Exec R ⊤
  -- `repo.git.merge('--abort')`
  pub abort_merge : Exec R ⊤

-- What the methods take from outside.
pub record Outside (R : Type 0) : Type 0 where
  pub git : Git R
  pub lib : NostrLib
  -- `private_key.public_key.hex()`
  pub public_key_of : String → String
  pub dumps : Json → String

-- The item of a branch manager.
pub record Item : Type 0 where
  pub name : String
  pub repo_path : String
  pub nostr_private_key : Option String

-- A row of the event table, with the text of its tags.
pub record LogEvent : Type 0 where
  pub kind : ℕ
  pub content : Doc
  pub tags : String
  pub created_at : ℕ

-- The repository, and the event table in the order of its ids.
pub record Site (R : Type 0) : Type 0 where
  pub repo : R
  pub events : List LogEvent
  -- The fields `branch_manager_id`, as far as it is set, and `current_branch` of the item.
  pub has_manager : Bool
  pub current_branch : String

-- The content of an event of the manager; an empty `additional_info` is left out.
abbrev pub info_fields : Option String → Fields
info_fields none = end
info_fields (some info) = if nonempty info then field "additional_info" (str info) end else end

abbrev pub branch_content : Item → String → String → Option String → Json
branch_content item branch_name action info = obj (
    field "action" (str action) (
      field "branch_name" (str branch_name) (field "repo_name" (str item.name) (info_fields info))))

-- The signature of an event of kind 31227 with the item's key.
unfoldable pub sign_content : {R : Type 0} → Outside R → Item → ℕ → Json → Result Event
sign_content o item now content = bind (o.lib.from_hex (text_of item.nostr_private_key)) λ key.
    o.lib.sign_event key (record {
      id = none;
      public_key = o.public_key_of key;
      created_at = now;
      kind = 31227;
      tags = ("r" ∷ item.repo_path ∷ []) ∷ [];
      content = o.dumps content;
      signature = none;
    })

-- `create_and_publish`, of an event of kind 31227: `_get_event_model` looks up a model that nothing
-- defines, since models/__init__.py does not import nostr_events.py.
abbrev pub create_and_publish : {R : Type 0} → Result Event → Exec (Site R) ⊤
create_and_publish (err e) s = (err e, s)
create_and_publish (ok event) s = (err (exception key_error "nostr.event.branch"), s)

-- `_create_branch_event`
unfoldable pub create_branch_event :
    {R : Type 0} → Outside R → Item → ℕ → String → String → Option String → Exec (Site R) ⊤
create_branch_event o item now branch_name action info s =
    let content = branch_content item branch_name action info in
    if is_set item.nostr_private_key
    then create_and_publish (sign_content o item now content) s
    else (ok tt, s)

-- An operation of the repository.
abbrev pub on_repo : {R A : Type 0} → Exec R A → Exec (Site R) A
on_repo m s = let (r, repo) = m s.repo in (r, record s { repo = repo })

abbrev pub answer : {R : Type 0} → Bool → Result ⊤ × Site R → Result Bool × Site R
answer b (ok u, s) = (ok b, s)
answer b (err e, s) = (err e, s)

-- `create_branch` of the manager
unfoldable pub create_branch : {R : Type 0} → Outside R → Item → ℕ → String → Exec (Site R) Bool
create_branch o item now branch_name s =
    if o.git.has_head branch_name s.repo
    then (ok false, s)
    else answer true (
        create_branch_event o item now branch_name "create" none
          (record s { repo = o.git.create_head branch_name s.repo }))

-- `delete_branch` of the manager
unfoldable pub delete_branch : {R : Type 0} → Outside R → Item → ℕ → String → Exec (Site R) Bool
delete_branch o item now branch_name s =
    if o.git.has_head branch_name s.repo
    then answer true (
        create_branch_event o item now branch_name "delete" none
          (record s { repo = o.git.delete_head branch_name s.repo }))
    else (ok false, s)

-- After an operation of the repository that may raise.
abbrev pub then_event :
    {R : Type 0}
    → Outside R
    → Item
    → ℕ
    → String
    → String
    → String
    → Result ⊤ × Site R
    → Result ⊤ × Site R
then_event o item now branch_name action info (err e, s) = (err e, s)
then_event o item now branch_name action info (ok u, s) =
    create_branch_event o item now branch_name action (some info) s

-- `update_branch`
unfoldable pub update_branch :
    {R : Type 0} → Outside R → Item → ℕ → String → String → Exec (Site R) Bool
update_branch o item now branch_name new_commit s =
    if o.git.has_head branch_name s.repo
    then answer true (
        then_event o item now branch_name "update" new_commit
          (on_repo (o.git.set_commit branch_name new_commit) s))
    else (ok false, s)

-- A merge that fails is aborted.
abbrev pub merged :
    {R : Type 0} → Outside R → Item → ℕ → String → String → Result ⊤ × Site R → Result Bool × Site R
merged o item now source target (ok u, s) =
    answer true (create_branch_event o item now target "merge" (some source) s)
merged o item now source target (err e, s) = answer false (on_repo o.git.abort_merge s)

-- `merge_branches`
unfoldable pub merge_branches :
    {R : Type 0} → Outside R → Item → ℕ → String → String → Exec (Site R) Bool
merge_branches o item now source target s =
    if o.git.has_head source s.repo && o.git.has_head target s.repo
    then merged o item now source target (on_repo (o.git.checkout_and_merge target source) s)
    else (ok false, s)
