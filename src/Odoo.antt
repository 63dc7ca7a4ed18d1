-- ===== src/Odoo.antt =====
-- What the modules take from Odoo: the notification that an action returns to the client, the
-- truth of a text field, and the transaction around a request.
use agu_odoo.Base.{Bool, false, String, Option, none, some}
use agu_odoo.Python.{Result, ok, err, Exec}
use agu_odoo.Text.{nonempty}

pub data Severity : Type 0 where
  success warning danger unset : Severity

-- The parameters of a `display_notification` client action.
pub record Notification : Type 0 where
  pub title : String
  pub message : String
  pub severity : Severity
  pub sticky : Bool

-- `bool(record.field)` of a text field: unset and empty are false.
abbrev pub is_set : Option String → Bool
is_set none = false
is_set (some s) = nonempty s

-- The text of a field that is set.
abbrev pub text_of : Option String → String
text_of none = ""
text_of (some s) = s

-- A request is one database transaction: an exception that leaves the handler rolls back all that
-- the handler has written.
abbrev pub rollback : {S A : Type 0} → S → Result A × S → Result A × S
rollback s (ok a, s') = (ok a, s')
rollback s (err e, s') = (err e, s)

abbrev pub request : {S A : Type 0} → Exec S A → Exec S A
request m s = rollback s (m s)
