-- ===== src/Scripts/Execute/Progress.antt =====
-- Following a run to its end (scripts/page.tsx).
use rustdesk_plus.Api.Scripts.{ScriptRunResult}
use rustdesk_plus.Common.{
  Bool-cases, List, [], all, arith, false, filter, inl, inr, length, ltb, refl, true, ℕ, ◌+◌, ◌-◌,
  ◌<◌, ◌↔◌, ◌∷◌, ◌≡◌, ◌≤◌, ◌⊎◌,
}
use rustdesk_plus.Common.Text.{Text}
use rustdesk_plus.Scripts.Execute.{
  Execute, all_finished, done_count, failed_count, is_done, is_failed, is_finished, on_run, tick,
  time_limit, total_count,
}

pub counts_le :
    (rs : List ScriptRunResult)
    → length (filter is_done rs) + length (filter is_failed rs) ≤ length rs
counts_le [] = omega arith
counts_le (r ∷ rs) = ground (arith, counts_le rs)

counts_all :
    (rs : List ScriptRunResult)
    → all is_finished rs ≡ true
    → length (filter is_done rs) + length (filter is_failed rs) ≡ length rs
counts_all [] h = omega arith
counts_all (r ∷ rs) h = ground (arith, counts_all rs)

all_counts :
    (rs : List ScriptRunResult)
    → length (filter is_done rs) + length (filter is_failed rs) ≡ length rs
    → all is_finished rs ≡ true
all_counts [] h = refl
all_counts (r ∷ rs) h = ground (arith, counts_le rs, all_counts rs)

pub over_iff :
    (rs : List ScriptRunResult)
    → (all_finished rs ≡ true)
      ↔ ((0 < length rs) × (length (filter is_done rs) + length (filter is_failed rs) ≡ length rs))
unfolding all_finished
over_iff [] = ground arith
over_iff (r ∷ rs) = (λ h. (omega arith, counts_all (r ∷ rs) h), λ h. all_counts (r ∷ rs) h.1)

-- After an answer to a run that is polled the total is the number of results in it, and the
-- finished ones are no more than that; and the polling is stopped exactly if there is a result and
-- each one counts as done or as failed.
pub on_run_progress :
    (run_id : Text) (rs : List ScriptRunResult) (x : Execute)
    → x.polling ≡ true
    → let x' = on_run run_id rs x in
      (total_count x' ≡ length rs)
      × (done_count x' + failed_count x' ≤ total_count x')
      × ((x'.polling ≡ false)
          ↔ ((0 < total_count x') × (done_count x' + failed_count x' ≡ total_count x')))
unfolding on_run done_count failed_count total_count
on_run_progress run_id rs x polls = elim (Bool-cases (all_finished rs)) [
  | inl over ↦ rw over (refl, counts_le rs, (λ h. (over_iff rs).0 over, λ h. refl))
  | inr under_way ↦
      rw under_way (refl, counts_le rs, (λ h. cc, λ h. ground (arith, (over_iff rs).1 h)))
]

-- A tick later than 20 minutes after the start of the polling gives the run up: it is not asked
-- for, and neither runs nor is polled any more. Any earlier tick asks for the run and changes
-- nothing.
pub tick_gives_up :
    (now : ℕ) (x : Execute)
    → ((x.poll_start + time_limit < now)
        × (tick now x ≡ (record x { polling = false; running = false }, false)))
      ⊎ ((now ≤ x.poll_start + time_limit) × (tick now x ≡ (x, true)))
unfolding tick
tick_gives_up now x = elim (Bool-cases (ltb time_limit (now - x.poll_start))) [
  | inl late ↦ inl (ground arith, rw late)
  | inr early ↦ inr (ground arith, rw early)
]
