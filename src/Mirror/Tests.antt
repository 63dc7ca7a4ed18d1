-- ===== src/Mirror/Tests.antt =====
-- Runs of the synchronization on a small project of GitLab.
use agu_odoo.Base.{
  none, eq_iff, ◌==◌, ℕ, ◌≡◌, refl, true, some, String, [], ◌∷◌, arith, All, Any, if◌then◌else◌,
}
use agu_odoo.Python.{ok}
use agu_odoo.Text.{strip, show, join, str_eq, strip_all, split_commas}
use agu_odoo.Odoo.{success, Notification}
use agu_odoo.Nostr.{Event}
use agu_odoo.Publisher.Tests.{test_lib}
use agu_odoo.Bridge.Sending.{
  publish_attempts, publish_event_sync, publish_nostr_event, publish_to_relay, answered, timed_out,
  requested_event,
}
use agu_odoo.Mirror.{
  Around, convert_to_naive_datetime, Account, RemoteBranch, RemoteCommit, repository_short,
}
use agu_odoo.Mirror.Table.{find_commit, IsUnique, OtherKey}
use agu_odoo.Mirror.Repository.{
  Site, Settings, GitlabApi, RepositoryRow, Project, replied, failed, gitlab_get_error,
  sync_with_gitlab, sync_done,
}
use agu_odoo.Mirror.{mirror_commit, CommitRow}
use agu_odoo.Mirror.Attribution.{mirror_commit_unknown_author}
use agu_odoo.Mirror.Sync.{IsListed, IsStored, sync_with_gitlab_mirrors}
use agu_odoo.Mirror.Notices.{Desk, test_publish, test_request, Answers, test_publish_sound}

abbrev pub ann : Account
ann = record { id = 7; name = "Ann"; email = "ann@example.org" }

-- Every date is read as noon.
abbrev pub around : Around
around = record {
  now = 90;
  now_text = "1970-01-01 00:01:30";
  user = ann;
  users = ann ∷ [];
  parse = λ text. ok (record { clock = 43200; utc = 36000 });
  sha1 = λ text. "da39";
}

abbrev pub first_commit : RemoteCommit
first_commit = record {
  id = "c1";
  message = "Initial commit";
  author_name = "Bob";
  author_email = "bob@example.org";
  committed_date = "2024-01-01T12:00:00+02:00";
}

abbrev second_commit : RemoteCommit
second_commit = record first_commit { id = "c2"; message = "Fix" }

abbrev pub main_branch : RemoteBranch
main_branch = record { name = "main"; committed_date = some "2024-01-01T12:00:00+02:00" }

abbrev pub project : Project
project = record { id = 5; web_url = "https://gitlab.example.org/p" }

abbrev gitlab : GitlabApi
gitlab = record {
  auth = replied tt;
  get_project = λ id. replied project;
  create_project = λ name. replied project;
  list_branches = λ id. replied (main_branch ∷ []);
  list_commits = λ id. replied (first_commit ∷ second_commit ∷ []);
}

-- The project is gone.
abbrev gone : GitlabApi
gone = record gitlab { get_project = λ id. failed (gitlab_get_error "404: Not found") }

abbrev pub settings : Settings
settings = record {
  gitlab_url = some "https://gitlab.example.org";
  gitlab_private_token = some "t";
}

abbrev pub repository : RepositoryRow
repository = record { id = 1; name = "p"; gitlab_id = 0; url = ""; project_id = 5 }

abbrev pub site : Site
site = record {
  repositories = repository ∷ [];
  mirror = record { branches = []; commits = [] };
  error_log = [];
  next_id = 2;
}

sync_with_gitlab_mirrors_example :
    let (result, after) = sync_with_gitlab around settings gitlab repository site in
    (result ≡ ok sync_done)
    × All (IsListed around 1 after.mirror.branches) (main_branch ∷ [])
    × IsUnique after.mirror.commits
    × All (IsStored around 1 after.mirror.commits) (first_commit ∷ second_commit ∷ [])
    × ((name : String) (id : ℕ)
        → All (λ (c : RemoteCommit). OtherKey c.id 1 name id) (first_commit ∷ second_commit ∷ [])
        → find_commit name id after.mirror.commits ≡ find_commit name id site.mirror.commits)
unfolding convert_to_naive_datetime
sync_with_gitlab_mirrors_example =
    sync_with_gitlab_mirrors around settings gitlab repository site project (main_branch ∷ [])
      (first_commit ∷ second_commit ∷ []) refl refl refl refl refl ((some 43200, refl), tt) (tt, tt)
      ((refl, 43200, refl), ((refl, 43200, refl), tt))
      ((λ e. absurd (ground (arith, eq_iff "c2" "c1", e)), tt), (tt, tt)) tt

mirror_commit_unknown_author_example :
    let first = (mirror_commit around 1 first_commit site.mirror).1 in
    let second = (mirror_commit around 1 first_commit first).1 in
    ((c : CommitRow) × (find_commit "c1" 1 first.commits ≡ some c) × (c.admin_id ≡ some 7))
    × ((c : CommitRow) × (find_commit "c1" 1 second.commits ≡ some c) × (c.admin_id ≡ none))
unfolding convert_to_naive_datetime
mirror_commit_unknown_author_example =
    mirror_commit_unknown_author around 1 first_commit 43200 site.mirror refl refl refl refl

-- The first relay never answers, the second one on the second attempt.
abbrev desk : Desk
desk = record {
  nostr_public_key = some "1234";
  nostr_private_key = some "5678";
  relay_urls = "wss://one, wss://two";
  now = 90;
  net = λ url event k.
      if str_eq url "wss://two"
      then (if k == 0 then timed_out else answered "[\"OK\"]")
      else timed_out;
  lib = test_lib;
}

abbrev told : Notification
told = record {
  title = "Test Nostr Event Publication";
  message =
      "Successfully published test Nostr event to 1 out of 2 relays.\n\nErrors:\nRelay wss://one: Max retries reached";
  severity = success;
  sticky = true;
}

test_publish_sound_example :
    let urls = strip_all (split_commas desk.relay_urls) in
    (event : Event) × (requested_event test_lib (test_request desk "p" "u" urls) ≡ ok event)
    × Any (Answers desk event) urls
unfolding test_publish publish_event_sync publish_nostr_event publish_to_relay requested_event
    split_commas strip_all strip publish_attempts show join
test_publish_sound_example = test_publish_sound desk "p" "u" told refl refl

repository_short_cut :
    repository_short
      (b'a' ∷ b'b' ∷ b'c' ∷ b'd' ∷ b'e' ∷ b'f' ∷ b'g' ∷ b'h' ∷ b'i' ∷ b'j' ∷ b'k' ∷ [])
    ≡ b'a' ∷ b'b' ∷ b'c' ∷ b'd' ∷ b'e' ∷ b'f' ∷ b'g' ∷ b'h' ∷ b'i' ∷ b'j' ∷ b'.' ∷ b'.' ∷ b'.' ∷ []
unfolding repository_short
repository_short_cut = refl
