-- ===== src/Mirror/FormAction.antt =====
-- When the commit wizard updates a file and when it creates one.
use agu_odoo.Base.{◌≡◌, refl, ap, Bool, true, false, not, ◌&&◌, String, ◌↔◌, if◌then◌else◌}
use agu_odoo.Python.{Result, ok, err}
use agu_odoo.Text.{nonempty, strip, str_eq}
use agu_odoo.Mirror.Repository.{Project, Settings}
use agu_odoo.Mirror.Wizard.{
  Wizard, FileReply, file, get_error, no_file_reply, Host, get_project_of, commit_data,
}
use agu_odoo.Mirror.Form.{compute_is_new_file, compute_file_exists, is_file, found_in}

is_update : (b : Bool) → ◌≡◌ {A = String} (if not b then "create" else "update") "update" → b ≡ true
is_update true h = refl
is_update false h = let differ : true ≡ false = ap (λ t. str_eq t "create") h in absurd (cc differ)

and-eq_true_inv : (a b : Bool) → (a && b) ≡ true → (a ≡ true) × (b ≡ true)
and-eq_true_inv true true h = (refl, refl)
and-eq_true_inv true false h = absurd (cc h)
and-eq_true_inv false b h = absurd (cc h)

is_file-eq_true_inv : (r : FileReply) → is_file r ≡ true → (content : String) × (r ≡ file content)
is_file-eq_true_inv (file content) h = (content, refl)
is_file-eq_true_inv (get_error code text) h = absurd (cc h)
is_file-eq_true_inv (no_file_reply text) h = absurd (cc h)

found_in-eq_true_inv :
    (host : Host) (w : Wizard) (r : Result Project)
    → found_in host w r ≡ true
    → (project : Project) × (r ≡ ok project)
      × (content : String) × (host.get_file project.id w.file_path w.branch_name ≡ file content)
found_in-eq_true_inv host w (ok project) h =
    let (content, f) = is_file-eq_true_inv _ h in (project, refl, content, f)
found_in-eq_true_inv host w (err e) h = absurd (cc h)

-- The action of the commit is an update exactly if the branch and the path are given, the path is not
-- blank, GitLab gives the project of the repository, and it has a file at the path in the branch. In
-- all other cases, an error of the check among them, it is a creation.
pub commit_action_iff :
    (settings : Settings) (host : Host) (w : Wizard)
    → ((commit_data (compute_is_new_file (compute_file_exists settings host w))).action ≡ "update")
      ↔ ((nonempty w.branch_name ≡ true)
          × (nonempty w.file_path ≡ true)
          × (nonempty (strip w.file_path) ≡ true)
          × (project : Project) × (get_project_of settings host w.repository ≡ ok project)
          × (content : String) × (host.get_file project.id w.file_path w.branch_name
              ≡ file content))
unfolding compute_is_new_file compute_file_exists
commit_action_iff settings host w =
    let named = nonempty w.branch_name in
    let given = nonempty w.file_path in
    let visible = nonempty (strip w.file_path) in
    let found = found_in host w (get_project_of settings host w.repository) in
    (
      (λ h.
          let (h₁, f) =
            and-eq_true_inv (named && given && visible) found
              (is_update (named && given && visible && found) h) in
          let (h₂, v) = and-eq_true_inv (named && given) visible h₁ in
          let (n, g) = and-eq_true_inv named given h₂ in
          let (project, p, content, c) = found_in-eq_true_inv host w _ f in
          (n, g, v, project, p, content, c)),
      (λ (n, g, v, project, p, content, c). rw (n, g, v, p, c) refl),
    )
