-- ===== src/Terminal/View/Elapsed.antt =====
-- The seconds that the terminal shows for a command that has no result (terminal/page.tsx).
use rustdesk_plus.Common.{
  Bool-cases, arith, false, inl, inr, none, refl, true, ℕ, ◌*◌, ◌+◌, ◌-◌, ◌/◌, ◌<◌, ◌≡◌, ◌≤◌, ◌⊎◌,
}
use rustdesk_plus.Common.Int.{negsuc, pos, ℤ}
use rustdesk_plus.Common.Text.{Text}
use rustdesk_plus.Terminal.Page.{HistoryEntry, Page, any_running}
use rustdesk_plus.Terminal.View.{connecting, connecting_text, now_of, outcome_of, seconds_between}

seconds_after :
    (started now : ℕ)
    → started ≤ now
    → (s : ℕ) × (seconds_between started now ≡ pos s)
      × (s * 1000 ≤ now - started)
      × (now - started < (s + 1) * 1000)
unfolding seconds_between
seconds_after started now h = ((now - started) / 1000, ground arith, omega arith, omega arith)

seconds_from_zero :
    (started : ℕ)
    → 0 < started
    → (s : ℕ) × (seconds_between started 0 ≡ negsuc s)
      × (s * 1000 < started)
      × (started ≤ (s + 1) * 1000)
unfolding seconds_between
seconds_from_zero started h = ((started + 999) / 1000 - 1, ground arith, omega arith, omega arith)

module _ (time_of : Text → ℕ) (clock : ℕ) (p : Page) (e : HistoryEntry) where
  outcome_without_result :
      (now : ℕ) {s : ℤ}
      → e.result ≡ none
      → seconds_between e.started_at now ≡ s
      → outcome_of time_of clock now e ≡ connecting (connecting_text s)
  unfolding outcome_of
  outcome_without_result now h k = rw (h, k) refl

  -- For a command that has no result yet the whole seconds since its start are shown while any
  -- command runs. Where none runs, as after its time limit, the seconds that are shown are
  -- negative: those from its start back to the beginning of the clock, rounded up.
  pub elapsed_lem :
      e.result ≡ none
      → 0 < e.started_at
      → e.started_at ≤ clock
      → let outcome = outcome_of time_of clock (now_of clock p) e in
        ((any_running p ≡ true)
          × (s : ℕ) × (outcome ≡ connecting (connecting_text (pos s)))
          × (s * 1000 ≤ clock - e.started_at)
          × (clock - e.started_at < (s + 1) * 1000))
        ⊎ ((any_running p ≡ false)
            × (s : ℕ) × (outcome ≡ connecting (connecting_text (negsuc s)))
            × (s * 1000 < e.started_at)
            × (e.started_at ≤ (s + 1) * 1000))
  unfolding now_of
  elapsed_lem h started past = elim (Bool-cases (any_running p)) [
    | inl runs ↦
        let (s, k, low, high) = seconds_after e.started_at clock past in
        inl (runs, s, rw runs (outcome_without_result clock h k), low, high)
    | inr rests ↦
        let (s, k, low, high) = seconds_from_zero e.started_at started in
        inr (rests, s, rw rests (outcome_without_result 0 h k), low, high)
  ]
