-- ===== src/Scripts/Execute/Targets.antt =====
-- The targets of a run (scripts/page.tsx).
use rustdesk_plus.Common.{
  Bool-cases, List, [], arith, false, if◌then◌else◌, inl, inr, none, not, refl, some, true, ◌≡◌,
  ◌≢◌, ◌⊎◌,
}
use rustdesk_plus.Common.Text.{Text, includes, text_eq}
use rustdesk_plus.Common.Text.Equality.{text_eq→eq}
use rustdesk_plus.Common.Text.Members.{includes-append_one, includes-filter-differs}
use rustdesk_plus.Scripts.Execute.{
  Execute, RunBody, TargetType, devices, every, handle_run, is_disabled, lacks_target, press_run,
  run_body, tag, toggle,
}

-- A click on a device changes whether that device is selected, and nothing of the others.
pub includes-toggle :
    (u v : Text) (xs : List Text)
    → includes v (toggle u xs) ≡ (if text_eq u v then not (includes v xs) else includes v xs)
unfolding toggle
includes-toggle u v xs =
    ground (arith, text_eq→eq u v, includes-filter-differs u v xs, includes-append_one u v xs)

-- The targets that a body names.
abbrev pub NamesTargets : TargetType → Execute → RunBody → Type 0
NamesTargets t x body = elim t [
  | every ↦ (body.target_ids ≡ none) × (body.tag_id ≡ none)
  | devices ↦
      (body.target_ids ≡ some x.selected_devices) × (x.selected_devices ≢ []) × (body.tag_id ≡ none)
  | tag ↦ (body.tag_id ≡ some x.selected_tag) × (x.selected_tag ≢ []) × (body.target_ids ≡ none)
]

names_targets :
    (t : TargetType) (x : Execute)
    → x.target_type ≡ t
    → lacks_target t x.selected_devices x.selected_tag ≡ false
    → NamesTargets t x (run_body x)
unfolding run_body
names_targets every x e h = rw e (refl, refl)
names_targets devices x e h = rw e (refl, λ n. ground arith, refl)
names_targets tag x e h = rw e (refl, λ n. ground arith, refl)

enabled :
    (x : Execute)
    → is_disabled x ≡ false
    → (x.running ≡ false)
      × (x.selected_script_id ≢ [])
      × (lacks_target x.target_type x.selected_devices x.selected_tag ≡ false)
unfolding is_disabled
enabled x h = ground arith

handle_chosen :
    (x : Execute)
    → x.selected_script_id ≢ []
    → handle_run x ≡ (record x { running = true }, some (x.selected_script_id, run_body x))
unfolding handle_run
handle_chosen x h = ground arith

pub press_enabled :
    (x : Execute)
    → is_disabled x ≡ false
    → press_run x ≡ (record x { running = true }, some (x.selected_script_id, run_body x))
unfolding press_run
press_enabled x h = rw h (handle_chosen x (enabled x h).1)

-- The button does nothing where it is disabled; otherwise no run is under way and it sends the run
-- of the chosen script, which names the devices or the tag that are chosen, at least one, or
-- neither if all devices are the target.
pub press_run_sends :
    (x : Execute)
    → ((is_disabled x ≡ true) × (press_run x ≡ (x, none)))
      ⊎ ((x.running ≡ false)
          × (press_run x ≡ (record x { running = true }, some (x.selected_script_id, run_body x)))
          × (x.selected_script_id ≢ [])
          × NamesTargets x.target_type x (run_body x))
unfolding press_run
press_run_sends x = elim (Bool-cases (is_disabled x)) [
  | inl disabled ↦ inl (disabled, rw disabled)
  | inr pressed ↦
      let (free, chosen, target) = enabled x pressed in
      inr (free, press_enabled x pressed, chosen, names_targets x.target_type x refl target)
]
