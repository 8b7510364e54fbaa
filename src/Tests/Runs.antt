-- ===== src/Tests/Runs.antt =====
-- Runs of scripts, at concrete inputs.
use mathlib.Core.List.Perm
use mathlib.Core.List.{}
use rustdesk_plus.Api.Scripts.{ScriptRunResult, StepStatus, done, running}
use rustdesk_plus.Common.{
  List, [], arith, false, none, refl, some, suc, true, zero, ℕ, ◌*◌, ◌++◌, ◌+◌, ◌<◌, ◌↔◌, ◌∷◌, ◌≡◌,
  ◌≢◌, ◌≤◌, ◌⊎◌,
}
use rustdesk_plus.Common.Text.{text}
use rustdesk_plus.Scripts.Execute.{
  Execute, TargetType, all_finished, done_count, failed_count, is_disabled, on_run, press_run,
  run_body, start_polling, total_count,
}
use rustdesk_plus.Scripts.Execute.Completes.{run_completes}
use rustdesk_plus.Scripts.Execute.Ends.{
  RunEvent, Spaced, run_answered, run_ends, run_lost, run_steps, ticked, ticks,
}
use rustdesk_plus.Scripts.Execute.Progress.{on_run_progress}
use rustdesk_plus.Scripts.Execute.Selection.{clicks, clicks-perm, selection}
use rustdesk_plus.Scripts.Execute.Targets.{NamesTargets, press_run_sends}
use rustdesk_plus.Terminal.Events.{}

abbrev result_of : StepStatus → ScriptRunResult
result_of status = record {
  id = [];
  device_id = text "d1";
  hostname = none;
  alias = none;
  rustdesk_id = [];
  status = status;
  error = none;
  started_at = none;
  finished_at = none;
  steps = [];
}

abbrev chosen : Execute
chosen = record {
  scripts = [];
  devices = [];
  tags = [];
  selected_script_id = text "s1";
  target_type = TargetType.devices;
  selected_devices = text "u1" ∷ [];
  selected_tag = [];
  running = false;
  active_run = none;
  expanded_device = none;
  polling = false;
  poll_start = 0;
}

abbrev polled : Execute
polled = start_polling 5 (text "r1") (record chosen { running = true })

abbrev half_done : List ScriptRunResult
half_done = result_of done ∷ result_of running ∷ []

polls : polled.polling ≡ true
unfolding start_polling
polls = refl

press_run_sends_example :
    ((is_disabled chosen ≡ true) × (press_run chosen ≡ (chosen, none)))
    ⊎ ((false ≡ false)
        × (press_run chosen ≡ (record chosen { running = true }, some (text "s1", run_body chosen)))
        × (text "s1" ≢ [])
        × NamesTargets TargetType.devices chosen (run_body chosen))
press_run_sends_example = press_run_sends chosen

half_way :
    let x' = on_run (text "r1") half_done polled in
    (total_count x' ≡ 2)
    × (done_count x' + failed_count x' ≤ total_count x')
    × ((x'.polling ≡ false)
        ↔ ((0 < total_count x') × (done_count x' + failed_count x' ≡ total_count x')))
half_way = on_run_progress (text "r1") half_done polled polls

both_finished : all_finished (result_of done ∷ result_of StepStatus.failed ∷ []) ≡ true
unfolding all_finished
both_finished = refl

-- The interval runs every second, and nothing is answered.
every_second : ℕ → ℕ → ℕ → List RunEvent
every_second start k zero = []
every_second start k (suc n) = ticked (start + k * 1000) ∷ every_second start (suc k) n

every_second-Spaced : (start k n : ℕ) → Spaced start k (every_second start k n)
unfolding every_second
every_second-Spaced start k zero = tt
every_second-Spaced start k (suc n) = (omega arith, every_second-Spaced start (suc k) n)

ticks-every_second : (start k n : ℕ) → n ≤ ticks (every_second start k n)
unfolding every_second ticks
ticks-every_second start k zero = omega arith
ticks-every_second start k (suc n) = omega (arith, ticks-every_second start (suc k) n)

run_ends_example :
    ((run_steps (every_second 5 1 1201) polled).polling ≡ false)
    × ((run_steps (every_second 5 1 1201) polled).running ≡ false)
unfolding start_polling
run_ends_example =
    run_ends polled (every_second 5 1 1201) polls (every_second-Spaced 5 1 1201)
      (ticks-every_second 5 1 1201)

clicks-perm_example :
    selection (clicks (text "u2" ∷ text "u1" ∷ text "u2" ∷ []) chosen)
    ≡ selection (clicks (text "u1" ∷ text "u2" ∷ text "u2" ∷ []) chosen)
clicks-perm_example =
    clicks-perm (text "u2" ∷ text "u1" ∷ text "u2" ∷ []) (text "u1" ∷ text "u2" ∷ text "u2" ∷ [])
      chosen (Perm.swap (text "u1") (text "u2") (text "u2" ∷ []))

abbrev soon : List RunEvent
soon = ticked 1005 ∷ run_answered (text "r1") half_done ∷ run_lost ∷ []

half : all_finished half_done ≡ false
unfolding all_finished
half = refl

enabled_button : is_disabled chosen ≡ false
unfolding is_disabled
enabled_button = refl

abbrev both_done : List ScriptRunResult
both_done = result_of done ∷ result_of StepStatus.failed ∷ []

run_completes_example :
    let x' =
      run_steps
        (soon ++ run_answered (text "r1") both_done ∷ [])
        (start_polling 5 (text "r1") (press_run chosen).0) in
    (x'.active_run ≡ some (record { run_id = text "r1"; results = both_done }))
    × (x'.polling ≡ false)
    × (done_count x' + failed_count x' ≡ total_count x')
    × (is_disabled x' ≡ false)
run_completes_example =
    run_completes chosen 5 (text "r1") soon both_done enabled_button
      (omega arith, ((refl, half), (tt, tt))) both_finished
