-- ===== src/Scripts/Execute/Ends.antt =====
-- Following a run ends, whatever is answered (scripts/page.tsx).
use rustdesk_plus.Api.Scripts.{ScriptRunResult}
use rustdesk_plus.Common.{
  Bool-cases, List, [], arith, false, if◌then◌else◌, inl, inr, ltb, refl, suc, true, ℕ, ◌*◌, ◌+◌,
  ◌-◌, ◌∷◌, ◌≡◌, ◌≤◌, ◌⊎◌,
}
use rustdesk_plus.Common.Text.{Text}
use rustdesk_plus.Scripts.Execute.{Execute, all_finished, on_run, tick, time_limit}

-- The interval runs, or a call that it made is answered, or is not.
pub data RunEvent : Type 0 where
  ticked : ℕ → RunEvent
  run_answered : Text → List ScriptRunResult → RunEvent
  run_lost : RunEvent

-- An interval that is cleared runs no more.
unfoldable pub run_step : RunEvent → Execute → Execute
unfolding tick on_run
run_step (ticked now) x = if x.polling then (tick now x).0 else x
run_step (run_answered id rs) x = on_run id rs x
run_step run_lost x = x

unfoldable pub run_steps : List RunEvent → Execute → Execute
unfolding run_step
run_steps [] x = x
run_steps (e ∷ es) x = run_steps es (run_step e x)

-- The interval runs for the k-th time no earlier than k seconds after its start.
abbrev pub Spaced : ℕ → ℕ → List RunEvent → Type 0
Spaced start k [] = Unit
Spaced start k (ticked now ∷ es) = (start + k * 1000 ≤ now) × Spaced start (suc k) es
Spaced start k (run_answered id rs ∷ es) = Spaced start k es
Spaced start k (run_lost ∷ es) = Spaced start k es

unfoldable pub ticks : List RunEvent → ℕ
ticks [] = 0
ticks (ticked now ∷ es) = suc (ticks es)
ticks (run_answered id rs ∷ es) = ticks es
ticks (run_lost ∷ es) = ticks es

abbrev pub IsOver : Execute → Type 0
IsOver x = (x.polling ≡ false) × (x.running ≡ false)

run_step-IsOver : (e : RunEvent) (x : Execute) → IsOver x → IsOver (run_step e x)
unfolding run_step on_run
run_step-IsOver (ticked now) x h = ground arith
run_step-IsOver (run_answered id rs) x h = ground arith
run_step-IsOver run_lost x h = h

run_steps-IsOver : (es : List RunEvent) (x : Execute) → IsOver x → IsOver (run_steps es x)
unfolding run_steps
run_steps-IsOver [] x h = h
run_steps-IsOver (e ∷ es) x h = run_steps-IsOver es (run_step e x) (run_step-IsOver e x h)

-- Each event of a run that is polled ends it, or leaves it polled from the same start.
IsPolled : ℕ → Execute → Type 0
IsPolled start x = (x.polling ≡ true) × (x.poll_start ≡ start)

answer_ends_or_keeps :
    (id : Text) (rs : List ScriptRunResult) (start : ℕ) (x : Execute)
    → IsPolled start x
    → IsOver (on_run id rs x) ⊎ IsPolled start (on_run id rs x)
unfolding on_run IsPolled
answer_ends_or_keeps id rs start x h = elim (Bool-cases (all_finished rs)) [
  | inl over ↦ inl (rw over (refl, refl))
  | inr under_way ↦ inr (rw under_way h)
]

tick_ends_or_keeps :
    (now start : ℕ) (x : Execute)
    → IsPolled start x
    → IsOver (run_step (ticked now) x)
      ⊎ (IsPolled start (run_step (ticked now) x) × (now ≤ start + time_limit))
unfolding run_step tick IsPolled
tick_ends_or_keeps now start x h = elim (Bool-cases (ltb time_limit (now - x.poll_start))) [
  | inl late ↦ inl (rw (h.0, late) (refl, refl))
  | inr early ↦ inr (rw (h.0, early) (refl, h.1), ground arith)
]

run_ends_from :
    (es : List RunEvent) (k start : ℕ) (x : Execute)
    → IsPolled start x
    → k ≤ 1201
    → Spaced start k es
    → 1202 ≤ k + ticks es
    → IsOver (run_steps es x)
unfolding run_steps ticks
run_ends_from [] k start x h le spaced enough = absurd (omega arith)
run_ends_from (ticked now ∷ es) k start x h le spaced enough =
    elim (tick_ends_or_keeps now start x h) [
      | inl over ↦ run_steps-IsOver es (run_step (ticked now) x) over
      | inr (polled, early) ↦
          run_ends_from es (suc k) start (run_step (ticked now) x) polled (omega arith) spaced.1
            (omega arith)
    ]
run_ends_from (run_answered id rs ∷ es) k start x h le spaced enough =
    elim (answer_ends_or_keeps id rs start x h) [
      | inl over ↦ run_steps-IsOver es (on_run id rs x) over
      | inr polled ↦ run_ends_from es k start (on_run id rs x) polled le spaced enough
    ]
run_ends_from (run_lost ∷ es) k start x h le spaced enough =
    run_ends_from es k start x h le spaced enough

-- A run that is polled ends, whatever is answered, in whatever order and however late, and also if
-- nothing is: once its interval has run 1201 times neither the interval is alive nor the button
-- waits. The interval runs for the k-th time no earlier than k seconds after its start.
pub run_ends :
    (x : Execute) (es : List RunEvent)
    → x.polling ≡ true
    → Spaced x.poll_start 1 es
    → 1201 ≤ ticks es
    → ((run_steps es x).polling ≡ false) × ((run_steps es x).running ≡ false)
unfolding IsPolled
run_ends x es polls spaced enough =
    run_ends_from es 1 x.poll_start x (polls, refl) (omega arith) spaced (omega (arith, enough))
