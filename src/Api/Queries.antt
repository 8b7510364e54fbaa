-- ===== src/Api/Queries.antt =====
-- The calls of api.ts whose path has a query (listDevices, listConnectionAudit, listScriptRuns).
pub mod Sent
use rustdesk_plus.Api.Http.{Call, get}
use rustdesk_plus.Common.{Bool, List, Option, [], false, none, some, suc, true, zero, ℕ, ◌++◌, ◌∷◌}
use rustdesk_plus.Common.Percent.{query_string}
use rustdesk_plus.Common.Text.{Text, decimal, text}

-- The argument of `listDevices`
pub record ListFilter : Type 0 where
  pub branch_id : Option Text
  pub search : Option Text
  pub online : Option Bool
  pub favorite : Option Bool
  pub deleted : Option Bool

abbrev pub bool_text : Bool → Text
bool_text true = text "true"
bool_text false = text "false"

abbrev pub text_param : Text → Option Text → List (Text × Text)
text_param k none = []
text_param k (some []) = []
text_param k (some (c ∷ s)) = (k, c ∷ s) ∷ []

abbrev pub bool_param : Text → Option Bool → List (Text × Text)
bool_param k none = []
bool_param k (some b) = (k, bool_text b) ∷ []

-- The parameters of `listDevices`, in the order in which they are set.
unfoldable pub params_of : ListFilter → List (Text × Text)
params_of f =
    text_param (text "branch_id") f.branch_id
    ++ text_param (text "search") f.search
    ++ bool_param (text "online") f.online
    ++ bool_param (text "favorite") f.favorite
    ++ bool_param (text "deleted") f.deleted

abbrev pub with_query : Text → Text → Text
with_query path [] = path
with_query path (c ∷ qs) = path ++ text "?" ++ c ∷ qs

-- `listDevices`
unfoldable pub list_devices : ListFilter → Call
unfolding params_of query_string
list_devices f = record {
  method = get;
  path = with_query (text "/admin/devices") (query_string (params_of f));
  body = none;
}

abbrev number_param : Text → Option ℕ → List (Text × Text)
number_param k none = []
number_param k (some zero) = []
number_param k (some (suc n)) = (k, decimal (suc n)) ∷ []

-- `listConnectionAudit`: a limit or an offset of 0 is falsy, and left out.
unfoldable pub audit_params : Option Text → Option ℕ → Option ℕ → List (Text × Text)
unfolding decimal
audit_params search limit offset =
    text_param (text "search") search
    ++ number_param (text "limit") limit
    ++ number_param (text "offset") offset

unfoldable pub list_connection_audit : Option Text → Option ℕ → Option ℕ → Call
unfolding audit_params query_string
list_connection_audit search limit offset = record {
  method = get;
  path =
      with_query (text "/admin/audit/connections")
        (query_string (audit_params search limit offset));
  body = none;
}

abbrev defined_param : Text → Option ℕ → List (Text × Text)
defined_param k none = []
defined_param k (some n) = (k, decimal n) ∷ []

-- `listScriptRuns` with an object: only what is undefined is left out.
unfoldable pub list_script_runs : Option ℕ → Option ℕ → Call
unfolding query_string
list_script_runs limit offset = record {
  method = get;
  path =
      with_query (text "/admin/script-runs")
        (query_string (defined_param (text "limit") limit ++ defined_param (text "offset") offset));
  body = none;
}
