-- ===== src/Mirror/BranchPushes.antt =====
-- What the button of the branch wizard leaves on GitLab and in the tables.
use agu_odoo.Base.{⊤, ℕ, ◌≡◌, refl, ap, ◌⊎◌, inl, inr, false, String, [], ◌∷◌, ◌++◌}
use agu_odoo.Python.{Result, ok, err, is_ok}
use agu_odoo.Bridge.{BridgeEvent}
use agu_odoo.Bridge.Strategies.{Env}
use agu_odoo.Publisher.Api.{Outside}
use agu_odoo.Mirror.{Around, Mirror, RemoteBranch, mirror_branch}
use agu_odoo.Mirror.Repository.{Reply, replied, failed, Project, Settings, RepositoryRow}
use agu_odoo.Mirror.Wizard.{Host, pushed_branch, Workspace, keep_pushes}
use agu_odoo.Mirror.NewBranch.{
  get_branch_project, branch_event, finish_branch, push_branch, branch_to, action_create_branch,
}
use agu_odoo.Mirror.Pushes.{Refused}

module _ (o : Outside) (env : Around) (bridge : Env) (host : Host) (r : RepositoryRow)
    (branch_name source_branch : String) (s : Workspace) where
  -- The branch was created on GitLab: it is mirrored and its event is stored, or the request raises
  -- because one of the two fails, and the tables are as they were.
  abbrev pub BranchPushed : Project → Result ⊤ × Workspace → Type 0
  BranchPushed project (x, after) =
      (branch : RemoteBranch) × (host.create_branch project.id branch_name source_branch
        ≡ replied branch)
      × (after.pushes ≡ s.pushes ++ (pushed_branch project.id branch_name source_branch ∷ []))
      × (((x ≡ ok tt)
            × (mirror_branch env r.id branch s.mirror ≡ (ok tt, after.mirror))
            × (event : BridgeEvent) × (branch_event o bridge r branch_name ≡ ok event)
            × (after.events ≡ s.events ++ (event ∷ [])))
          ⊎ ((is_ok x ≡ false)
              × ((is_ok (mirror_branch env r.id branch s.mirror).0 ≡ false)
                  ⊎ (is_ok (branch_event o bridge r branch_name) ≡ false))
              × (after ≡ record s { pushes = after.pushes })))

  abbrev finished : ℕ → Result BridgeEvent → Result ⊤ × Mirror → Result ⊤ × Workspace
  finished project_id event x = keep_pushes s (
      finish_branch event x (record s {
        pushes = s.pushes ++ (pushed_branch project_id branch_name source_branch ∷ []);
      }))

  finish_branch-BranchPushed :
      (project : Project) (branch : RemoteBranch) (event : Result BridgeEvent)
      (x : Result ⊤ × Mirror)
      → host.create_branch project.id branch_name source_branch ≡ replied branch
      → branch_event o bridge r branch_name ≡ event
      → mirror_branch env r.id branch s.mirror ≡ x
      → BranchPushed project (finished project.id event x)
  finish_branch-BranchPushed project branch (ok event) (ok tt, m) c e h =
      (branch, c, refl, inl (refl, h, event, e, refl))
  finish_branch-BranchPushed project branch (err e') (ok tt, m) c e h =
      (branch, c, refl, inr (refl, inr (ap (λ (y : Result BridgeEvent). is_ok y) e), refl))
  finish_branch-BranchPushed project branch event (err e', m) c e h =
      (branch, c, refl, inr (refl, inl (ap (λ (y : Result ⊤ × Mirror). is_ok y.0) h), refl))

  abbrev creates : ℕ → Reply RemoteBranch
  creates project_id = host.create_branch project_id branch_name source_branch

  push_branch-BranchPushed :
      (project : Project) (reply : Reply RemoteBranch)
      → creates project.id ≡ reply
      → BranchPushed project
          (keep_pushes s (push_branch o env bridge r branch_name source_branch project.id reply s))
        ⊎ Refused (ok project) creates s (
            keep_pushes s (push_branch o env bridge r branch_name source_branch project.id reply s))
  push_branch-BranchPushed project (replied branch) h =
      inl (finish_branch-BranchPushed project branch _ _ h refl refl)
  push_branch-BranchPushed project (failed f) h = inr (inr (project, f, refl, h), refl, refl)

  branch_to-BranchPushed :
      (project : Result Project)
      → ((p : Project) × (project ≡ ok p)
          × BranchPushed p
              (keep_pushes s (branch_to o env bridge host r branch_name source_branch project s)))
        ⊎ Refused project creates s
            (keep_pushes s (branch_to o env bridge host r branch_name source_branch project s))
  branch_to-BranchPushed (ok project) = elim (push_branch-BranchPushed project _ refl) [
    | inl h ↦ inl (project, refl, h)
    | inr h ↦ inr h
  ]
  branch_to-BranchPushed (err e) = inr (inl (e, refl), refl, refl)

-- The button that creates a branch ends in one of three ways. The branch was created on GitLab, its
-- row is mirrored and its event stored; or it was created on GitLab, but it could not be mirrored or
-- its event could not be created, the request raises, and the tables are as before; or the project
-- could not be had or the creation was not answered, the request raises, and nothing is changed in the
-- tables.
pub action_create_branch_outcome :
    (o : Outside) (env : Around) (bridge : Env) (settings : Settings) (host : Host)
    (r : RepositoryRow) (branch_name source_branch : String) (s : Workspace)
    → ((project : Project) × (get_branch_project settings host r ≡ ok project)
        × BranchPushed o env bridge host r branch_name source_branch s project (
            keep_pushes s
              (action_create_branch o env bridge settings host r branch_name source_branch s)))
      ⊎ Refused
          (get_branch_project settings host r)
          (λ project_id. host.create_branch project_id branch_name source_branch)
          s
          (keep_pushes s
            (action_create_branch o env bridge settings host r branch_name source_branch s))
unfolding action_create_branch
action_create_branch_outcome o env bridge settings host r branch_name source_branch s =
    branch_to-BranchPushed o env bridge host r branch_name source_branch s _
