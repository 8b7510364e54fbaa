-- ===== src/Admin/Audit/Rows.antt =====
-- The rows of `AuditPage` (audit/page.tsx). Its fixed texts are misencoded in the source and are
-- arguments here, in a record; `locale_string` is `toLocaleString` of a time of the server.
use rustdesk_plus.Admin.Audit.{AuditPage, duration}
use rustdesk_plus.Api.Types.{AuditStatus, ConnectionAudit, active, closed, connecting, launched}
use rustdesk_plus.Common.{
  Bool, List, Option, [], if◌then◌else◌, is_empty, map, none, not, some, ℕ, ◌&&◌, ◌++◌, ◌==◌, ◌∷◌,
}
use rustdesk_plus.Common.Text.{Text, decimal, or_text, text, truthy}

pub record AuditTexts : Type 0 where
  pub missing : Text
  pub awaiting : Text
  pub file_transfer : Text
  pub port_tunnel : Text
  pub camera : Text
  pub ip_mark : Text

pub record AuditRow : Type 0 where
  pub origin : Text
  pub origin_line : Text
  pub panel : Option Text
  pub target : Text
  pub target_line : Text
  pub kind : Text
  pub began : Text
  pub ended : Text
  pub lasted : Text
  pub status : Text

abbrev ip_part : AuditTexts → Option Text → Text
ip_part t none = []
ip_part t (some []) = []
ip_part t (some (c ∷ ip)) = t.ip_mark ++ (c ∷ ip)

abbrev id_part : Option Text → Text
id_part none = []
id_part (some []) = []
id_part (some (c ∷ id)) = text "ID " ++ (c ∷ id)

-- `connectionTypes[t] || …`
unfoldable pub connection_text : AuditTexts → Option ℕ → Text
unfolding decimal
connection_text t none = t.missing
connection_text t (some n) =
    if n == 0
    then text "Controle remoto"
    else if n == 1
    then t.file_transfer
    else if n == 2
    then t.port_tunnel
    else if n == 3
    then t.camera
    else if n == 4
    then text "Terminal"
    else text "Tipo " ++ decimal n

unfoldable pub audit_status_label : AuditStatus → Text
audit_status_label launched = text "Iniciada"
audit_status_label connecting = text "Conectando"
audit_status_label active = text "Ativa"
audit_status_label closed = text "Encerrada"

module _ (t : AuditTexts) (locale_string : Text → Text) where
  unfoldable pub audit_date : Option Text → Text
  audit_date none = t.missing
  audit_date (some []) = t.missing
  audit_date (some (c ∷ s)) = locale_string (c ∷ s)

  unfoldable pub audit_row : ConnectionAudit → AuditRow
  unfolding connection_text audit_status_label audit_date duration
  audit_row a = record {
    origin = or_text a.peer_name (or_text a.peer_rustdesk_id t.awaiting);
    origin_line = id_part a.peer_rustdesk_id ++ ip_part t a.source_ip;
    panel =
        if truthy a.initiated_by_name
        then some (text "Painel: " ++ or_text a.initiated_by_name [])
        else none;
    target = or_text a.alias (or_text a.hostname a.target_rustdesk_id);
    target_line = text "ID " ++ a.target_rustdesk_id;
    kind = connection_text t a.connection_type;
    began = audit_date (if truthy a.started_at then a.started_at else a.launched_at);
    ended = audit_date a.ended_at;
    lasted = duration t.missing a.duration_seconds;
    status = audit_status_label a.status;
  }

-- The table: the rows, and one of the two lines where there are none or the list is not there yet.
pub record AuditTable : Type 0 where
  pub rows : List AuditRow
  pub none_yet : Bool
  pub still_loading : Bool

unfoldable pub audit_table : AuditTexts → (Text → Text) → AuditPage → AuditTable
unfolding audit_row
audit_table t locale_string p = record {
  rows = map (audit_row t locale_string) p.items;
  none_yet = not p.loading && is_empty p.items;
  still_loading = p.loading;
}

-- The page: the search, the error, where there is one, and the table.
pub record AuditView : Type 0 where
  pub search : Text
  pub error : Option Text
  pub table : AuditTable

unfoldable pub audit_view : AuditTexts → (Text → Text) → AuditPage → AuditView
unfolding audit_table
audit_view t locale_string p = record {
  search = p.search;
  error = if is_empty p.error then none else some p.error;
  table = audit_table t locale_string p;
}

-- The field of the search; 250 milliseconds after it the list is asked for.
unfoldable pub type_audit_search : Text → AuditPage → AuditPage
type_audit_search s p = record p { search = s }
