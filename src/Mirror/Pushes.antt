-- ===== src/Mirror/Pushes.antt =====
-- What a button of the wizards leaves on GitLab and in the tables.
use agu_odoo.Base.{⊤, ℕ, ◌≡◌, refl, ap, ◌⊎◌, inl, inr, false, [], ◌∷◌, ◌++◌}
use agu_odoo.Python.{Error, Result, ok, err, is_ok}
use agu_odoo.Odoo.{Notification}
use agu_odoo.Publisher.Api.{Outside}
use agu_odoo.Mirror.{Around, Mirror, RemoteCommit, mirror_commit}
use agu_odoo.Mirror.Repository.{Failure, Reply, replied, failed, Project, Settings}
use agu_odoo.Mirror.Wizard.{
  Wizard, Host, pushed_commit, Workspace, get_project_of, commit_data, commit_created, told,
  finish_commit, push_commit, commit_to, reported_again, action_create_commit, keep_pushes,
}

-- The project could not be had, or the request to create did not come back with a reply.
abbrev pub NoReply : {C : Type 0} → Result Project → (ℕ → Reply C) → Type 0
NoReply project create =
    ((e : Error) × (project ≡ err e))
    ⊎ ((p : Project) × (f : Failure) × (project ≡ ok p) × (create p.id ≡ failed f))

-- GitLab has not answered that it created anything: the request raises and changes no table.
abbrev pub Refused :
    {A C : Type 0} → Result Project → (ℕ → Reply C) → Workspace → Result A × Workspace → Type 0
Refused project create s (r, after) = NoReply project create × (is_ok r ≡ false) × (after ≡ s)

module _ (o : Outside) (env : Around) (host : Host) (w : Wizard) (s : Workspace) where
  abbrev Final : ℕ → RemoteCommit → Result Notification × Workspace → Type 0
  Final project_id commit (r, after) =
      ((r ≡ ok commit_created)
        × (mirror_commit env w.repository.id commit s.mirror ≡ (ok tt, after.mirror))
        × (after ≡ record s {
          mirror = after.mirror;
          publishers = told o w commit s.publishers;
          pushes = s.pushes ++ (pushed_commit project_id (commit_data w) ∷ []);
        }))
      ⊎ ((is_ok r ≡ false)
          × (is_ok (mirror_commit env w.repository.id commit s.mirror).0 ≡ false)
          × (after
              ≡ record s { pushes = s.pushes ++ (pushed_commit project_id (commit_data w) ∷ []) }))

  -- The commit was created on GitLab: it is mirrored and told to the relays, or the request raises
  -- because it cannot be mirrored, and the tables are as they were.
  abbrev pub CommitPushed : Project → Result Notification × Workspace → Type 0
  CommitPushed project x =
      (commit : RemoteCommit) × (host.create_commit project.id (commit_data w) ≡ replied commit)
      × Final project.id commit x

  finish_commit-Final :
      (project_id : ℕ) (commit : RemoteCommit) (x : Result ⊤ × Mirror)
      → mirror_commit env w.repository.id commit s.mirror ≡ x
      → Final project_id commit (
          keep_pushes s (
            reported_again (
              finish_commit o w commit x (record s {
                pushes = s.pushes ++ (pushed_commit project_id (commit_data w) ∷ []);
              }))))
  finish_commit-Final project_id commit (ok tt, m) h = inl (refl, h, refl)
  finish_commit-Final project_id commit (err e, m) h =
      inr (refl, ap (λ (y : Result ⊤ × Mirror). is_ok y.0) h, refl)

  abbrev creates : ℕ → Reply RemoteCommit
  creates project_id = host.create_commit project_id (commit_data w)

  push_commit-CommitPushed :
      (project : Project) (reply : Reply RemoteCommit)
      → creates project.id ≡ reply
      → CommitPushed project
          (keep_pushes s (reported_again (push_commit o env w project.id reply s)))
        ⊎ Refused
            (ok project)
            creates
            s
            (keep_pushes s (reported_again (push_commit o env w project.id reply s)))
  push_commit-CommitPushed project (replied commit) h =
      inl (commit, h, finish_commit-Final project.id commit _ refl)
  push_commit-CommitPushed project (failed f) h = inr (inr (project, f, refl, h), refl, refl)

  commit_to-CommitPushed :
      (project : Result Project)
      → ((p : Project) × (project ≡ ok p)
          × CommitPushed p (keep_pushes s (reported_again (commit_to o env host w project s))))
        ⊎ Refused project creates s
            (keep_pushes s (reported_again (commit_to o env host w project s)))
  commit_to-CommitPushed (ok project) = elim (push_commit-CommitPushed project _ refl) [
    | inl h ↦ inl (project, refl, h)
    | inr h ↦ inr h
  ]
  commit_to-CommitPushed (err e) = inr (inl (e, refl), refl, refl)

-- The button that creates a commit ends in one of three ways. The commit was created on GitLab and
-- mirrored, the success is shown, and the publishers are those after its event was sent or could not
-- be sent; or it was created on GitLab but could not be mirrored, the request raises, and the tables
-- are as before; or the project could not be had or the creation was not answered, the request raises,
-- and nothing is changed in the tables.
pub action_create_commit_outcome :
    (o : Outside) (env : Around) (settings : Settings) (host : Host) (w : Wizard) (s : Workspace)
    → ((project : Project) × (get_project_of settings host w.repository ≡ ok project)
        × CommitPushed o env host w s project
            (keep_pushes s (action_create_commit o env settings host w s)))
      ⊎ Refused
          (get_project_of settings host w.repository)
          (λ project_id. host.create_commit project_id (commit_data w))
          s
          (keep_pushes s (action_create_commit o env settings host w s))
unfolding action_create_commit
action_create_commit_outcome o env settings host w s = commit_to-CommitPushed o env host w s _
