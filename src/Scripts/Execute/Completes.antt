-- ===== src/Scripts/Execute/Completes.antt =====
-- A run from the press of the button to its last result (scripts/page.tsx).
use rustdesk_plus.Api.Scripts.{ScriptRunResult}
use rustdesk_plus.Common.{
  All, List, Option, [], ap, arith, false, none, refl, some, true, ℕ, ◌++◌, ◌+◌, ◌∙◌, ◌∷◌, ◌≡◌, ◌≤◌,
}
use rustdesk_plus.Common.Text.{Text}
use rustdesk_plus.Scripts.Execute.{
  ActiveRun, Execute, all_finished, done_count, failed_count, is_disabled, on_run, press_run,
  start_polling, tick, time_limit, total_count,
}
use rustdesk_plus.Scripts.Execute.Ends.{
  RunEvent, run_answered, run_lost, run_step, run_steps, ticked,
}
use rustdesk_plus.Scripts.Execute.Progress.{over_iff}
use rustdesk_plus.Scripts.Execute.Targets.{press_enabled}

-- What may happen while the run is under way: its interval runs within the 20 minutes, a call of
-- it is answered with results that are not all finished, or fails.
abbrev pub IsUnderWay : ℕ → Text → RunEvent → Type 0
IsUnderWay start id (ticked now) = now ≤ start + time_limit
IsUnderWay start id (run_answered i rs) = (i ≡ id) × (all_finished rs ≡ false)
IsUnderWay start id run_lost = Unit

module _ (x : Execute) (start : ℕ) (id : Text) where
  abbrev under_way : Option ActiveRun → Execute
  under_way a = record x {
    running = true;
    active_run = a;
    poll_start = start;
    expanded_device = none;
    polling = true;
  }

  abbrev completed : List ScriptRunResult → Execute
  completed rs = record (under_way (some (record { run_id = id; results = rs }))) {
    polling = false;
    running = false;
  }

  run_step-under_way :
      (e : RunEvent) (a : Option ActiveRun)
      → IsUnderWay start id e
      → (b : Option ActiveRun) × (run_step e (under_way a) ≡ under_way b)
  unfolding run_step tick on_run
  run_step-under_way (ticked now) a h = (a, ground arith)
  run_step-under_way (run_answered i rs) a h =
      (some (record { run_id = i; results = rs }), rw h.1 refl)
  run_step-under_way run_lost a h = (a, refl)

  run_steps-completed :
      (es : List RunEvent) (a : Option ActiveRun) (last : List ScriptRunResult)
      → All (IsUnderWay start id) es
      → all_finished last ≡ true
      → run_steps (es ++ run_answered id last ∷ []) (under_way a) ≡ completed last
  unfolding run_steps run_step on_run
  run_steps-completed [] a last h over = rw over refl
  run_steps-completed (e ∷ es) a last (now, h) over =
      let (b, same) = run_step-under_way e a now in
      ap (run_steps (es ++ run_answered id last ∷ [])) same ∙ run_steps-completed es b last h over

-- A press of the enabled button, whose run is then polled: once an answer says that each result is
-- done or failed, those results are shown, nothing is polled, the counts of the done and the failed
-- make up the total, and the button is enabled again. Before it, the interval runs within the 20
-- minutes, and other answers are about the same run and are no such ones.
pub run_completes :
    (x : Execute) (start : ℕ) (id : Text) (es : List RunEvent) (last : List ScriptRunResult)
    → is_disabled x ≡ false
    → All (IsUnderWay start id) es
    → all_finished last ≡ true
    → let x' =
        run_steps (es ++ run_answered id last ∷ []) (start_polling start id (press_run x).0) in
      (x'.active_run ≡ some (record { run_id = id; results = last }))
      × (x'.polling ≡ false)
      × (done_count x' + failed_count x' ≡ total_count x')
      × (is_disabled x' ≡ false)
unfolding start_polling done_count failed_count total_count is_disabled
run_completes x start id es last pressed h over =
    let begun = some (record { run_id = id; results = [] }) in
    let ends = run_steps-completed x start id es begun last h over in
    rw (press_enabled x pressed, ends)
      (refl, refl, ((over_iff last).0 over).1, ground (arith, pressed))
