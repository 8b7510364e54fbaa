-- ===== src/Admin/Audit.antt =====
-- `AuditPage` (audit/page.tsx).
pub mod Rows
use rustdesk_plus.Api.Http.{Call, Result, ok, thrown}
use rustdesk_plus.Api.Queries.{list_connection_audit}
use rustdesk_plus.Api.Types.{ConnectionAudit}
use rustdesk_plus.Common.{
  Bool, List, Option, [], false, if◌then◌else◌, none, not, some, ℕ, ◌%◌, ◌++◌, ◌/◌, ◌==◌,
}
use rustdesk_plus.Common.Text.{Text, decimal, text}

pub record AuditPage : Type 0 where
  pub items : List ConnectionAudit
  pub search : Text
  pub loading : Bool
  pub error : Text

-- `duration` of a time in whole seconds. `missing` is the text for none.
unfoldable pub duration : Text → Option ℕ → Text
unfolding decimal
duration missing none = missing
duration missing (some seconds) =
    let h = seconds / 3600 in
    let m = seconds % 3600 / 60 in
    let s = seconds % 60 in
    if not (h == 0)
    then decimal h ++ text "h " ++ decimal m ++ text "min"
    else if not (m == 0)
    then decimal m ++ text "min " ++ decimal s ++ text "s"
    else decimal s ++ text "s"

-- The call of `load`, and its answer.
unfoldable pub audit_call : AuditPage → Call
unfolding list_connection_audit
audit_call p = list_connection_audit (some p.search) (some 200) none

unfoldable pub on_audit : Result (List ConnectionAudit) → AuditPage → AuditPage
on_audit (ok items) p = record p { items = items; error = []; loading = false }
on_audit (thrown message) p = record p { error = message; loading = false }
