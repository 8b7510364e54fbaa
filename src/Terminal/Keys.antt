-- ===== src/Terminal/Keys.antt =====
-- The keys and the typing of the input line (terminal/page.tsx).
use rustdesk_plus.Common.{List, Option, [], get_elem?, length, none, or_default}
use rustdesk_plus.Common.Int.{max_ℤ, min_ℤ, negsuc, pos, ℤ, ◌+ℤ◌, ◌-ℤ◌}
use rustdesk_plus.Common.Text.{Text}
use rustdesk_plus.Terminal.Page.{Page}

-- `cmdHistory[i]`
abbrev pub at : List Text → ℤ → Option Text
at h (pos n) = get_elem? h n
at h (negsuc n) = none

-- ArrowUp
unfoldable pub older : Page → Page
unfolding ◌+ℤ◌ ◌-ℤ◌
older p =
    let next = min_ℤ (p.cmd_history_idx +ℤ pos 1) (pos (length p.cmd_history) -ℤ pos 1) in
    record p { cmd_history_idx = next; cmd = or_default (at p.cmd_history next) p.cmd }

-- The command at the index, and the empty line at -1 or where nothing stands.
abbrev pub recalled : List Text → ℤ → Text
recalled h i = or_default (at h i) []

-- ArrowDown
unfoldable pub newer : Page → Page
unfolding ◌-ℤ◌
newer p =
    let next = max_ℤ (p.cmd_history_idx -ℤ pos 1) (negsuc 0) in
    record p { cmd_history_idx = next; cmd = recalled p.cmd_history next }

-- `onChange` of the input
unfoldable pub type_cmd : Text → Page → Page
type_cmd s p = record p { cmd = s; cmd_history_idx = negsuc 0 }
