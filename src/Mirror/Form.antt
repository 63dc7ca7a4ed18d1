-- ===== src/Mirror/Form.antt =====
-- The form of odoo_custom_addons/gitlab_nostr_bridge/wizards/create_commit_wizard.py: its computed
-- fields, the changes of the file and of the upload, and the check of the path.
use agu_odoo.Base.{
  ⊤, Bool, true, false, not, ◌&&◌, ◌||◌, Option, none, some, String, [], ◌∷◌, ◌==◌, if◌then◌else◌,
}
use agu_odoo.Python.{Result, ok, err, exception, validation_error, other_error, Exec}
use agu_odoo.Text.{concat, nonempty, strip, occurs, codes}
use agu_odoo.Odoo.{is_set, text_of}
use agu_odoo.Mirror.Repository.{Project, Settings}
use agu_odoo.Mirror.Wizard.{
  Wizard, FileReply, file, get_error, no_file_reply, Decoded, decoded, unicode_decode_error,
  decode_failure, Host, get_project_of,
}

-- `_compute_is_new_file`
unfoldable pub compute_is_new_file : Wizard → Wizard
compute_is_new_file w = record w { is_new_file = not w.file_exists }

abbrev pub is_file : FileReply → Bool
is_file (file content) = true
is_file (get_error code text) = false
is_file (no_file_reply text) = false

abbrev pub found_in : Host → Wizard → Result Project → Bool
found_in host w (ok project) = is_file (host.get_file project.id w.file_path w.branch_name)
found_in host w (err e) = false

-- `_compute_file_exists`
unfoldable pub compute_file_exists : Settings → Host → Wizard → Wizard
compute_file_exists settings host w = record w {
  file_exists =
      nonempty w.branch_name
      && nonempty w.file_path
      && nonempty (strip w.file_path)
      && found_in host w (get_project_of settings host w.repository);
}

pub record Warning : Type 0 where
  pub title : String
  pub message : String

abbrev pub shown_file : Host → FileReply → Wizard → Option Warning × Wizard
shown_file host (file content) w = elim (host.decode content) [
  | decoded text ↦ (none, record w { file_content = text; is_new_file = false })
  | unicode_decode_error text ↦ (some (record { title = "Error"; message = text }), w)
  | decode_failure text ↦ (some (record { title = "Error"; message = text }), w)
]
shown_file host (get_error code text) w =
    if code == 404
    then (none, record w { file_content = ""; is_new_file = true })
    else (some (record { title = "GitLab Error"; message = text }), w)
shown_file host (no_file_reply text) w = (some (record { title = "Error"; message = text }), w)

abbrev pub shown_project : Host → Result Project → Wizard → Option Warning × Wizard
shown_project host (ok project) w =
    shown_file host (host.get_file project.id w.file_path w.branch_name) w
shown_project host (err e) w = (some (record { title = "Error"; message = e.text }), w)

-- `_onchange_file_details`
unfoldable pub onchange_file_details : Settings → Host → Wizard → Option Warning × Wizard
onchange_file_details settings host w =
    if nonempty w.branch_name && nonempty w.file_path
    then (if occurs (codes "..") (codes w.file_path)
        then (
          some
              (record { title = "Invalid File Path"; message = "Please enter a valid file path." }),
          w,
        )
        else shown_project host (get_project_of settings host w.repository) w)
    else (none, w)

abbrev pub with_name : Wizard → Wizard
with_name w =
    if is_set w.file_upload_filename
    then record w {
      file_name = w.file_upload_filename;
      file_path = concat ("/" ∷ text_of w.file_upload_filename ∷ []);
      commit_message = concat ("Add " ∷ text_of w.file_upload_filename ∷ []);
    }
    else w

abbrev pub with_upload : Decoded → Exec Wizard Bool
with_upload (decoded text) w = (ok true, with_name (record w { file_content = text }))
with_upload (unicode_decode_error text) w =
    (ok true, with_name (record w { file_content = "Binary file content" }))
with_upload (decode_failure text) w = (err (exception other_error text), w)

-- `_onchange_file_upload`; true if it returns a domain
unfoldable pub onchange_file_upload : Host → Exec Wizard Bool
onchange_file_upload host w =
    if is_set w.file_upload
    then with_upload (host.decode (text_of w.file_upload)) w
    else (ok false, w)

-- `_check_file_path`
unfoldable pub check_file_path : Wizard → Result ⊤
check_file_path w =
    if not (nonempty w.file_path) || not (nonempty (strip w.file_path))
    then err (exception validation_error "File path cannot be empty or only whitespace.")
    else (if occurs (codes "..") (codes w.file_path)
        then err (
            exception validation_error
              "Invalid file path. Please provide a valid path without '..'.")
        else ok tt)
