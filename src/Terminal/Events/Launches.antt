-- ===== src/Terminal/Events/Launches.antt =====
-- When a command is sent, and what is sent (terminal/page.tsx).
use rustdesk_plus.Common.{
  Bool, Bool-cases, List, Option-cases, [], any-append, ap, arith, false, inl, inr, is_empty, none,
  refl, some, true, ℕ, ◌&&◌, ◌↔◌, ◌∙◌, ◌∷◌, ◌≡◌, ◌≢◌, ◌⊎◌,
}
use rustdesk_plus.Common.Text.{Text, text, to_lower, trim}
use rustdesk_plus.Common.Text.Equality.{text_eq_iff, text_eq_ne}
use rustdesk_plus.Terminal.Keys.{type_cmd}
use rustdesk_plus.Terminal.Output.{wrap_for_cwd}
use rustdesk_plus.Terminal.Page.{Page, any_running, is_running, no_tenant_selected}
use rustdesk_plus.Terminal.Run.{Launch, exec_body, is_clear, launch_of, launched, run}

abbrev pub IsReady : Page → Type 0
IsReady p =
    (trim p.cmd ≢ [])
    × (any_running p ≡ false)
    × (no_tenant_selected p ≡ false)
    × (is_clear (trim p.cmd) ≡ false)

pub run_needs : (now : ℕ) (p : Page) (l : Launch) → (run now p).1 ≡ some l → IsReady p
unfolding run
run_needs now p l h = ground arith

pub run_of_IsReady :
    (now : ℕ) (p : Page)
    → IsReady p
    → run now p ≡ (launched now p (trim p.cmd), some (launch_of now p (trim p.cmd)))
unfolding run
run_of_IsReady now p h = ground arith

run_unsent : (now : ℕ) (p : Page) → ¬ IsReady p → (run now p).1 ≡ none
run_unsent now p n = elim (Option-cases (run now p).1) [
  | inl unsent ↦ unsent
  | inr (l, e) ↦ absurd (n (run_needs now p l e))
]

is_empty→nil {ℓ} : {A : Type ℓ} (xs : List A) → is_empty xs ≡ true → xs ≡ []
is_empty→nil [] h = refl
is_empty→nil (x ∷ xs) h = ground arith

is_empty→neq {ℓ} : {A : Type ℓ} (xs : List A) → is_empty xs ≡ false → xs ≢ []
is_empty→neq [] h = ground arith
is_empty→neq (x ∷ xs) h = λ e. ground arith

IsReady-cases : (p : Page) → IsReady p ⊎ ¬ IsReady p
IsReady-cases p = elim (Bool-cases (is_empty (trim p.cmd))) [
  | inl blank ↦ inr (λ h. h.0 (is_empty→nil (trim p.cmd) blank))
  | inr line ↦ elim (Bool-cases (any_running p)) [
    | inl busy ↦ inr (λ h. ground arith)
    | inr free ↦ elim (Bool-cases (no_tenant_selected p)) [
      | inl missing ↦ inr (λ h. ground arith)
      | inr chosen ↦ elim (Bool-cases (is_clear (trim p.cmd))) [
        | inl clears ↦ inr (λ h. ground arith)
        | inr command ↦ inl (is_empty→neq (trim p.cmd) line, free, chosen, command)
      ]
    ]
  ]
]

-- What the user needs for a command to be sent.
abbrev pub CanSend : Page → Type 0
CanSend p =
    (trim p.cmd ≢ [])
    × (any_running p ≡ false)
    × (p.super_admin ≡ true → p.selected_tenant_id ≢ [])
    × (to_lower (trim p.cmd) ≢ text "clear")
    × (to_lower (trim p.cmd) ≢ text "cls")

tenant_needed :
    (super : Bool) (id : Text) → ((super && is_empty id) ≡ false) ↔ (super ≡ true → id ≢ [])
tenant_needed true [] = (λ h. ground arith, λ h. absurd (h refl refl))
tenant_needed true (c ∷ id) = (λ h e g. ground arith, λ h. refl)
tenant_needed false id = (λ h e. ground arith, λ h. refl)

is_clear_lem :
    (s : Text) → (is_clear s ≡ false) ↔ ((to_lower s ≢ text "clear") × (to_lower s ≢ text "cls"))
unfolding is_clear
is_clear_lem s = (
  λ h. (
    λ e. ground (arith, text_eq_iff (to_lower s) (text "clear")),
    λ e. ground (arith, text_eq_iff (to_lower s) (text "cls")),
  ),
  λ (h, g).
      rw (text_eq_ne (to_lower s) (text "clear") h, text_eq_ne (to_lower s) (text "cls") g) refl,
)

IsReady-CanSend : (p : Page) → IsReady p ↔ CanSend p
unfolding no_tenant_selected
IsReady-CanSend p =
    let tenant = tenant_needed p.super_admin p.selected_tenant_id in
    let clears = is_clear_lem (trim p.cmd) in
    (
      λ (line, free, chosen, command).
          (line, free, tenant.0 chosen, (clears.0 command).0, (clears.0 command).1),
      λ (line, free, chosen, clear, cls). (line, free, tenant.1 chosen, clears.1 (clear, cls)),
    )

any_running-launched : (now : ℕ) (p : Page) (s : Text) → any_running (launched now p s) ≡ true
unfolding any_running launched
any_running-launched now p s = rw (any-append is_running p.history) (ground arith)

launch_sends :
    (now : ℕ) (p : Page)
    → IsReady p
    → CanSend p
      × (l : Launch) × ((run now p).1 ≡ some l)
      × (l.trimmed ≡ trim p.cmd)
      × (l.powershell ≡ p.powershell)
      × (l.body.cmd ≡ wrap_for_cwd (trim p.cmd) p.powershell)
      × (l.body.powershell ≡ p.powershell)
      × ((run now p).0.cmd ≡ [])
      × (any_running (run now p).0 ≡ true)
unfolding launch_of exec_body launched
launch_sends now p h =
    let sent = run_of_IsReady now p h in
    (
      (IsReady-CanSend p).0 h,
      launch_of now p (trim p.cmd),
      ap (λ r. r.1) sent,
      refl,
      refl,
      refl,
      refl,
      ap (λ r. r.0.cmd) sent,
      ap (λ r. any_running r.0) sent ∙ any_running-launched now p (trim p.cmd),
    )

-- A command is sent exactly if the line is not blank, nothing runs, a tenant is chosen where the user
-- is a super administrator, and the line is neither "clear" nor "cls" in any case. What is sent is
-- the line without the blanks around it, wrapped for its shell, to the shell that is chosen; the
-- line is then empty, and a command runs.
pub run_sends :
    (now : ℕ) (p : Page)
    → (CanSend p
        × (l : Launch) × ((run now p).1 ≡ some l)
        × (l.trimmed ≡ trim p.cmd)
        × (l.powershell ≡ p.powershell)
        × (l.body.cmd ≡ wrap_for_cwd (trim p.cmd) p.powershell)
        × (l.body.powershell ≡ p.powershell)
        × ((run now p).0.cmd ≡ [])
        × (any_running (run now p).0 ≡ true))
      ⊎ ((¬ CanSend p) × ((run now p).1 ≡ none))
run_sends now p = elim (IsReady-cases p) [
  | inl ready ↦ inl (launch_sends now p ready)
  | inr unready ↦ inr (λ h. unready ((IsReady-CanSend p).1 h), run_unsent now p unready)
]

pub run_of_running : (now : ℕ) (p : Page) → any_running p ≡ true → run now p ≡ (p, none)
unfolding run
run_of_running now p h = ground arith

-- Once a command is sent, whatever is typed and entered after it changes nothing but the line and
-- is not sent, as long as no reply has come.
pub run_once :
    (now later : ℕ) (p : Page) (l : Launch) (s : Text)
    → (run now p).1 ≡ some l
    → run later (type_cmd s (run now p).0) ≡ (type_cmd s (run now p).0, none)
unfolding any_running type_cmd
run_once now later p l s h =
    let sent = run_of_IsReady now p (run_needs now p l h) in
    run_of_running later (type_cmd s (run now p).0)
      (rw sent (any_running-launched now p (trim p.cmd)))
