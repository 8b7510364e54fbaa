-- ===== src/Terminal/Output.antt =====
-- The working directory that travels in a command's output (terminal/page.tsx): the command is
-- wrapped so that it prints a marked line, which is read back and hidden.
pub mod Marked
pub mod Extract
use mathlib.Core.List.{reverse}
use rustdesk_plus.Common.{
  Bool, List, Option, [], false, filter, if◌then◌else◌, length, none, not, some, true, ◌++◌, ◌+◌,
  ◌∷◌,
}
use rustdesk_plus.Common.Text.{
  Text, join, line_feed, slice, split_lines, starts_with, text, trim, trim_end,
}

unfoldable pub cwd_sentinel : Text
cwd_sentinel = text "__TRIVIO_CWD__"

-- `CWD_SENTINEL + ":"`
unfoldable pub marker : Text
unfolding cwd_sentinel
marker = cwd_sentinel ++ text ":"

unfoldable pub wrap_for_cwd : Text → Bool → Text
unfolding cwd_sentinel
wrap_for_cwd cmd is_powershell =
    if is_powershell
    then cmd ++ text "; Write-Host \"" ++ cwd_sentinel ++ text ":$(Get-Location)\""
    else cmd ++ text " & echo " ++ cwd_sentinel ++ text ":%CD%"

-- The loop of `extractCwd`, over the lines from the last to the first.
unfoldable pub extract_from : List Text → Option Text
unfolding marker
extract_from [] = none
extract_from (line ∷ lines) =
    if starts_with marker line
    then some (trim (slice (length cwd_sentinel + 1) line))
    else extract_from lines

unfoldable pub extract_cwd : Text → Option Text
unfolding extract_from split_lines
extract_cwd output = extract_from (reverse (split_lines output))

abbrev pub is_unmarked : Text → Bool
is_unmarked line = not (starts_with marker line)

unfoldable pub strip_sentinel : Text → Text
unfolding marker split_lines join trim_end
strip_sentinel output = trim_end (join (line_feed ∷ []) (filter is_unmarked (split_lines output)))

unfoldable pub build_prompt : Bool → Option Text → Text
build_prompt true none = text "PS>"
build_prompt true (some []) = text "PS>"
build_prompt true (some (c ∷ cwd)) = text "PS " ++ (c ∷ cwd) ++ text ">"
build_prompt false none = text ">"
build_prompt false (some []) = text ">"
build_prompt false (some (c ∷ cwd)) = (c ∷ cwd) ++ text ">"
