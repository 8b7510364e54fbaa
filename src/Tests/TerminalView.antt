-- ===== src/Tests/TerminalView.antt =====
-- The output, the times and the target of the terminal at concrete inputs.
use rustdesk_plus.Common.{
  List, [], any, arith, false, none, refl, some, true, ℕ, ◌*◌, ◌++◌, ◌+◌, ◌<◌, ◌∷◌, ◌≡◌, ◌≤◌, ◌⊎◌,
}
use rustdesk_plus.Common.Int.{negsuc, pos}
use rustdesk_plus.Common.Text.{
  Text, decimal, digits_before, is_space, join, keep, line_feed, split_lines, starts_with, text,
  trim, trim_end, trim_start,
}
use rustdesk_plus.Terminal.Output.{cwd_sentinel, extract_cwd, marker, strip_sentinel}
use rustdesk_plus.Terminal.Output.Extract.{
  extract_cwd-marked, extract_cwd-strip_sentinel, is_marked,
}
use rustdesk_plus.Terminal.Output.Marked.{NoLineEnd}
use rustdesk_plus.Terminal.Page.{HistoryEntry, any_running}
use rustdesk_plus.Terminal.View.{
  Outcome, connecting_text, int_text, now_of, online_devices, outcome_of, seconds_between,
}
use rustdesk_plus.Terminal.View.Config.{device_option, target_options}
use rustdesk_plus.Terminal.View.Elapsed.{elapsed_lem}
use rustdesk_plus.Tests.Terminal.{fresh}

unmarked : any is_marked (split_lines (text "bye")) ≡ false
unfolding split_lines marker cwd_sentinel starts_with
unmarked = refl

clean : NoLineEnd (text "C:\\Users")
clean = ground arith

extract_cwd-marked_example :
    extract_cwd
      (text "hello" ++ line_feed ∷ ((marker ++ text "C:\\Users") ++ line_feed ∷ text "bye"))
    ≡ some (text "C:\\Users")
unfolding trim trim_start trim_end keep is_space
extract_cwd-marked_example =
    extract_cwd-marked (text "hello") (text "C:\\Users") (text "bye") clean unmarked

extract_cwd-strip_sentinel_example :
    extract_cwd (strip_sentinel (text "bye" ++ line_feed ∷ text "__TRIVIO_CWD__:C:\\")) ≡ none
extract_cwd-strip_sentinel_example =
    extract_cwd-strip_sentinel (text "bye" ++ line_feed ∷ text "__TRIVIO_CWD__:C:\\")

stripped_output : strip_sentinel (text "bye" ++ line_feed ∷ text "__TRIVIO_CWD__:C:\\") ≡ text "bye"
unfolding strip_sentinel split_lines marker cwd_sentinel starts_with join trim_end keep is_space
stripped_output = refl

abbrev without_result : HistoryEntry
without_result = record {
  job_id = text "j1";
  cmd = text "dir";
  powershell = true;
  result = none;
  running = false;
  started_at = 7000;
  cwd = none;
}

abbrev no_times : Text → ℕ
no_times s = 0

elapsed_lem_example :
    let outcome = outcome_of no_times 9500 (now_of 9500 fresh) without_result in
    ((any_running fresh ≡ true)
      × (s : ℕ) × (outcome ≡ Outcome.connecting (connecting_text (pos s)))
      × (s * 1000 ≤ 2500)
      × (2500 < (s + 1) * 1000))
    ⊎ ((any_running fresh ≡ false)
        × (s : ℕ) × (outcome ≡ Outcome.connecting (connecting_text (negsuc s)))
        × (s * 1000 < 7000)
        × (7000 ≤ (s + 1) * 1000))
elapsed_lem_example =
    elapsed_lem no_times 9500 fresh without_result refl (omega arith) (omega arith)

-- What is drawn once the time of the command is up.
negative_seconds :
    outcome_of no_times 9500 (now_of 9500 fresh) without_result
    ≡ Outcome.connecting (text "-7s — conectando ao agente...")
unfolding outcome_of now_of any_running seconds_between int_text decimal digits_before
negative_seconds = refl

abbrev pick_pc : List (Text × Text)
pick_pc = ([], text "Selecione PC") ∷ (text "d1", text "PC-1") ∷ []

pc_listed : target_options fresh ≡ some pick_pc
unfolding target_options online_devices device_option
pc_listed = refl
