-- ===== src/Admin/Buttons.antt =====
-- The buttons that the forms of the administration pages share (users, branches, tags).
use rustdesk_plus.Common.{Bool, if◌then◌else◌}
use rustdesk_plus.Common.Text.{Text, text}

-- A button that sends a form.
pub record Submit : Type 0 where
  pub label : Text
  pub disabled : Bool

abbrev pub submit_button : Bool → Text → Submit
submit_button saving idle = record {
  label = if saving then text "Salvando..." else idle;
  disabled = saving;
}

abbrev pub toggle_label : Bool → Text → Text
toggle_label up idle = if up then text "Cancelar" else idle
