-- ===== src/Terminal/View/Window.antt =====
-- The whole of what the terminal page draws (terminal/page.tsx); `show_config` is its hook of that
-- name, which the button beside the title switches.
use rustdesk_plus.Common.{
  Bool, List, Option, [], false, if◌then◌else◌, is_empty, map, none, not, some, true, ℕ, ◌&&◌, ◌∷◌,
}
use rustdesk_plus.Common.Text.{Text, text}
use rustdesk_plus.Terminal.Output.{build_prompt}
use rustdesk_plus.Terminal.Page.{
  Page, TargetMode, any_running, by_tag, every_device, no_tenant_selected, one_device,
}
use rustdesk_plus.Terminal.View.{EntryView, InputView, history_view, input_view, target_line}
use rustdesk_plus.Terminal.View.Config.{mode_label, target_options, tenant_options}

-- One of several buttons, of which one is chosen.
pub record Choice : Type 0 where
  pub label : Text
  pub chosen : Bool

abbrev mode_is : TargetMode → TargetMode → Bool
mode_is every_device every_device = true
mode_is by_tag by_tag = true
mode_is one_device one_device = true
mode_is m n = false

unfoldable pub mode_choice : TargetMode → TargetMode → Choice
unfolding mode_label
mode_choice now m = record { label = mode_label m; chosen = mode_is now m }

unfoldable pub shell_choices : Bool → List Choice
shell_choices powershell =
    record { label = text "CMD"; chosen = not powershell }
    ∷ record { label = text "PowerShell"; chosen = powershell }
    ∷ []

pub record ConfigView : Type 0 where
  pub tenants : Option (List (Text × Text))
  pub modes : List Choice
  pub targets : Option (List (Text × Text))
  pub shells : List Choice

unfoldable pub config_view : Page → ConfigView
unfolding tenant_options mode_choice target_options shell_choices
config_view p = record {
  tenants = tenant_options p;
  modes = map (mode_choice p.target_mode) (every_device ∷ by_tag ∷ one_device ∷ []);
  targets = target_options p;
  shells = shell_choices p.powershell;
}

-- Where nothing was run: the shell and the target.
unfoldable pub banner : Page → Option (Text × Text)
unfolding target_line
banner p =
    if is_empty p.history
    then some (
      if p.powershell then text "Windows PowerShell" else text "Prompt de Comando (CMD)",
      target_line p,
    )
    else none

-- The prompt with the cursor below the history.
unfoldable pub idle_prompt : Page → Option Text
unfolding any_running build_prompt
idle_prompt p =
    if not (any_running p) && not (is_empty p.history)
    then some (build_prompt p.powershell p.current_dir)
    else none

module _ (time_of : Text → ℕ) (clock : ℕ) where
  pub record WindowView : Type 0 where
    pub toggle : Text
    pub config : Option ConfigView
    pub error : Option Text
    pub dimmed : Bool
    pub banner : Option (Text × Text)
    pub entries : List (EntryView time_of clock)
    pub idle : Option Text
    pub input : InputView

  unfoldable pub window_view : Bool → Page → WindowView
  unfolding config_view no_tenant_selected banner history_view idle_prompt input_view
  window_view show_config p = record {
    toggle = if show_config then text "▲ Ocultar" else text "▼ Configurar";
    config = if show_config then some (config_view p) else none;
    error = p.error;
    dimmed = no_tenant_selected p;
    banner = banner p;
    entries = history_view time_of clock p;
    idle = idle_prompt p;
    input = input_view p;
  }
