-- ===== src/Terminal/View/Input.antt =====
-- What the input line of the terminal offers (terminal/page.tsx).
use rustdesk_plus.Common.{[], arith, false, is_empty, none, some, true, ℕ, ◌≡◌, ◌⊎◌}
use rustdesk_plus.Common.Text.{trim}
use rustdesk_plus.Terminal.Page.{Page, any_running, no_tenant_selected}
use rustdesk_plus.Terminal.Run.{launch_of, run}
use rustdesk_plus.Terminal.View.{input_view, run_button}

pub IsOffered : Page → Type 0
IsOffered p = ((input_view p).mark ≡ run_button) × ((input_view p).disabled ≡ false)

offered-parts :
    (p : Page)
    → IsOffered p
    → (is_empty (trim p.cmd) ≡ false) × (any_running p ≡ false) × (no_tenant_selected p ≡ false)
unfolding IsOffered input_view
offered-parts p h = ground arith

run_offered :
    (now : ℕ) (p : Page)
    → (is_empty (trim p.cmd) ≡ false) × (any_running p ≡ false) × (no_tenant_selected p ≡ false)
    → ((run now p).1 ≡ some (launch_of now p (trim p.cmd)))
      ⊎ (((run now p).0.history ≡ []) × ((run now p).0.cmd ≡ []))
unfolding run
run_offered now p h = ground arith

run_disabled :
    (now : ℕ) (p : Page)
    → (input_view p).disabled ≡ true
    → ((run now p).1 ≡ none) × ((run now p).0.history ≡ p.history)
unfolding run input_view
run_disabled now p h = ground arith

-- Where the line is enabled and has its button, a press sends the command, or clears the screen
-- and the line; where it is disabled, not even the key Enter sends anything or changes the screen.
pub input_view-run :
    (now : ℕ) (p : Page)
    → ((input_view p).mark ≡ run_button
        → (input_view p).disabled ≡ false
        → ((run now p).1 ≡ some (launch_of now p (trim p.cmd)))
          ⊎ (((run now p).0.history ≡ []) × ((run now p).0.cmd ≡ [])))
      × ((input_view p).disabled ≡ true
          → ((run now p).1 ≡ none) × ((run now p).0.history ≡ p.history))
unfolding IsOffered
input_view-run now p =
    (λ button enabled. run_offered now p (offered-parts p (button, enabled)), run_disabled now p)
