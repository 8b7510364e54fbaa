-- ===== src/Scripts/Execute/Selection.antt =====
-- The devices that are selected, as a set (scripts/page.tsx): the page keeps them in the order of
-- the clicks, which says nothing.
use mathlib.Core.List.{Perm, foldr}
use mathlib.Core.List.Perm
use mathlib.Core.Quot
use mathlib.Core.Quot.{Quot, Quot-set}
use mathlib.Core.Bool.{Bool-set}
use rustdesk_plus.Common.{List, ap, arith, if◌then◌else◌, not, sym, ◌∙◌, ◌≡◌, Bool, [], ◌∷◌, refl}
use rustdesk_plus.Common.Text.{Text, includes, text_eq}
use rustdesk_plus.Scripts.Execute.{Execute, toggle, toggle_device}
use rustdesk_plus.Scripts.Execute.Targets.{includes-toggle}

-- The same devices are selected.
abbrev pub SameDevices : List Text → List Text → Type 0
SameDevices xs ys = (u : Text) → includes u xs ≡ includes u ys

abbrev pub Selection : Type 0
Selection = Quot SameDevices

-- The selection of a tab.
unfoldable pub selection : Execute → Selection
selection x = Quot.mk x.selected_devices

unfoldable pub has_device : Text → Selection → Bool
has_device u = Quot.lift Bool-set (includes u) (λ xs ys h. h u)

pub toggle-SameDevices :
    (u : Text) (xs ys : List Text) → SameDevices xs ys → SameDevices (toggle u xs) (toggle u ys)
toggle-SameDevices u xs ys h v =
    includes-toggle u v xs
    ∙ ap (λ b. if text_eq u v then not b else b) (h v)
    ∙ sym (includes-toggle u v ys)

-- A click on a device, as an operation on selections.
unfoldable pub click : Text → Selection → Selection
click u =
    Quot.lift Quot-set (λ xs. Quot.mk (toggle u xs))
      (λ xs ys h. Quot.sound (toggle-SameDevices u xs ys h))

toggles_comm :
    (u v : Text) (xs : List Text) → SameDevices (toggle u (toggle v xs)) (toggle v (toggle u xs))
toggles_comm u v xs w =
    rw
      (
        includes-toggle u w (toggle v xs),
        includes-toggle v w xs,
        includes-toggle v w (toggle u xs),
        includes-toggle u w xs,
      )
      (ground arith)

toggle_twice : (u : Text) (xs : List Text) → SameDevices (toggle u (toggle u xs)) xs
toggle_twice u xs w = rw (includes-toggle u w (toggle u xs), includes-toggle u w xs) (ground arith)

click_comm : (u v : Text) (s : Selection) → click u (click v s) ≡ click v (click u s)
unfolding click
click_comm u v = Quot.ind (λ s. Quot-set _ _) (λ xs. Quot.sound (toggles_comm u v xs))

click_twice : (u : Text) (s : Selection) → click u (click u s) ≡ s
unfolding click
click_twice u = Quot.ind (λ s. Quot-set _ _) (λ xs. Quot.sound (toggle_twice u xs))

-- Clicks one after the other.
unfoldable pub clicks : List Text → Execute → Execute
unfolding toggle_device
clicks [] x = x
clicks (u ∷ us) x = clicks us (toggle_device u x)

click_first :
    (u : Text) (us : List Text) (s : Selection)
    → foldr click (click u s) us ≡ click u (foldr click s us)
click_first u [] s = refl
click_first u (v ∷ us) s = ap (click v) (click_first u us s) ∙ click_comm v u (foldr click s us)

selection-clicks :
    (us : List Text) (x : Execute) → selection (clicks us x) ≡ foldr click (selection x) us
unfolding clicks selection click toggle_device
selection-clicks [] x = refl
selection-clicks (u ∷ us) x =
    selection-clicks us (toggle_device u x) ∙ click_first u us (selection x)

-- In whatever order the devices are clicked, each as often, the same are selected.
pub clicks-perm :
    (us vs : List Text) (x : Execute)
    → Perm us vs
    → selection (clicks us x) ≡ selection (clicks vs x)
clicks-perm us vs x h =
    selection-clicks us x
    ∙ Perm.foldr-eq Quot-set click click_comm h (selection x)
    ∙ sym (selection-clicks vs x)
