-- ===== src/Scripts/Builder/Listed.antt =====
-- The library of scripts and the one that is open (scripts/page.tsx).
use mathlib.Core.Option
use mathlib.Core.Option.{some-injective}
use rustdesk_plus.Api.Scripts.{Script}
use rustdesk_plus.Common.{
  All, Bool-cases, List, Option, [], arith, false, filter, inl, inr, map, none, refl, some, sym,
  true, ◌∷◌, ◌≡◌, ◌≢◌,
}
use rustdesk_plus.Common.Text.{Text, includes, or_else, text_eq}
use rustdesk_plus.Common.Text.Equality.{text_eq_refl, text_eq→eq}
use rustdesk_plus.Scripts.Builder.{Builder, open_script}
use rustdesk_plus.Scripts.Builder.Library.{
  Export, Imported, export, import, is_selected, load, on_created, on_deleted, on_imported,
  open_next, other_script,
}
use rustdesk_plus.Scripts.Builder.Save.{on_saved, replace_script}
use rustdesk_plus.Scripts.Flow.{definition_to_flow}
use rustdesk_plus.Scripts.Flow.RoundTrip.{HasVariables, flow_to_definition-definition_to_flow}

abbrev pub script_ids : List Script → List Text
script_ids ss = map (λ s. s.id) ss

abbrev pub IsIn : List Script → Option Script → Type 0
IsIn ss none = Unit
IsIn ss (some s) = includes s.id (script_ids ss) ≡ true

-- The selected script, where there is one, is in the library.
abbrev pub IsListed : Builder → Type 0
IsListed b = IsIn b.scripts b.selected_script

IsIn-head : (s : Script) (ss : List Script) → IsIn (s ∷ ss) (some s)
unfolding includes
IsIn-head s ss = rw (text_eq_refl s.id)

load-IsListed :
    (s : List Script) (b : Builder) → IsListed b → (b.selected_script ≡ none) → IsListed (load s b)
unfolding load open_script
load-IsListed [] b h e = rw e tt
load-IsListed (s ∷ ss) b h e = IsIn-head s ss

IsIn-replace :
    (u : Script) (x : Text) (ss : List Script)
    → includes x (script_ids ss) ≡ true
    → includes x (script_ids (map (replace_script u) ss)) ≡ true
unfolding includes
IsIn-replace u x [] h = cc
IsIn-replace u x (s ∷ ss) h = ground (arith, text_eq→eq s.id u.id, IsIn-replace u x ss)

script_ids-replace :
    (u : Script) (ss : List Script) → script_ids (map (replace_script u) ss) ≡ script_ids ss
script_ids-replace u [] = refl
script_ids-replace u (s ∷ ss) = ground (arith, text_eq→eq s.id u.id, script_ids-replace u ss)

IsIn-filter :
    (id : Text) (s : Script) (ss : List Script)
    → text_eq s.id id ≡ false
    → includes s.id (script_ids ss) ≡ true
    → includes s.id (script_ids (filter (other_script id) ss)) ≡ true
unfolding includes
IsIn-filter id s [] n h = cc
IsIn-filter id s (t ∷ ss) n h = ground (arith, text_eq→eq t.id s.id, IsIn-filter id s ss n)

open_next-IsListed :
    (ss : List Script) (b : Builder) → IsListed (open_next ss (record b { scripts = ss }))
unfolding open_script
open_next-IsListed [] b = tt
open_next-IsListed (s ∷ ss) b = IsIn-head s ss

deleted-IsIn :
    (id : Text) (ss : List Script) (o : Option Script)
    → is_selected id o ≡ false
    → IsIn ss o
    → IsIn (filter (other_script id) ss) o
deleted-IsIn id ss none n h = tt
deleted-IsIn id ss (some s) n h = IsIn-filter id s ss n h

-- The id of the open script
abbrev pub open_id : Builder → Option Text
open_id b = Option.map (λ s. s.id) b.selected_script

IsIn-same :
    (ss : List Script) (o o' : Option Script)
    → Option.map (λ s. s.id) o ≡ Option.map (λ s. s.id) o'
    → IsIn ss o
    → IsIn ss o'
IsIn-same ss o none e h = tt
IsIn-same ss none (some t) e h = ground arith
IsIn-same ss (some s) (some t) e h = rw (sym (some-injective s.id t.id e)) h

on_deleted-IsListed :
    (seen : Builder) (id : Text) (b : Builder)
    → IsListed seen
    → open_id seen ≡ open_id b
    → IsListed (on_deleted seen id b)
unfolding on_deleted
on_deleted-IsListed seen id b h same = elim (Bool-cases (is_selected id seen.selected_script)) [
  | inl chosen ↦ rw chosen (open_next-IsListed (filter (other_script id) seen.scripts) b)
  | inr spared ↦ rw spared (
      IsIn-same (filter (other_script id) seen.scripts) seen.selected_script b.selected_script same
        (deleted-IsIn id seen.scripts seen.selected_script spared h))
]

open_next-scripts :
    (ss : List Script) (b : Builder) → (open_next ss (record b { scripts = ss })).scripts ≡ ss
unfolding open_script
open_next-scripts [] b = refl
open_next-scripts (s ∷ ss) b = refl

on_deleted-scripts :
    (seen : Builder) (id : Text) (b : Builder)
    → (on_deleted seen id b).scripts ≡ filter (other_script id) seen.scripts
unfolding on_deleted
on_deleted-scripts seen id b = elim (Bool-cases (is_selected id seen.selected_script)) [
  | inl chosen ↦ rw chosen (open_next-scripts (filter (other_script id) seen.scripts) b)
  | inr spared ↦ rw spared
]

includes-filter_self :
    (id : Text) (ss : List Script) → includes id (script_ids (filter (other_script id) ss)) ≡ false
unfolding includes
includes-filter_self id [] = refl
includes-filter_self id (s ∷ ss) = ground (arith, includes-filter_self id ss)

or_else_given : (s t : Text) → s ≢ [] → or_else s t ≡ s
or_else_given [] t n = absurd (n refl)
or_else_given (c ∷ s) t n = refl

or_else_nil : (s : Text) → or_else s [] ≡ s
or_else_nil [] = refl
or_else_nil (c ∷ s) = refl

-- Whatever list was shown when the button was pressed, and whatever has happened since, a script that
-- is created or imported is open and in the library. After a deletion no script of that id is left,
-- and the open script, where there is one, is in the library if it was at the press and no script of
-- another id was opened since.
pub library_keeps :
    (listed : List Script) (c : Builder) (s : Script) (seen b : Builder) (id : Text)
    → IsListed seen
    → open_id seen ≡ open_id b
    → IsListed (on_created listed s c)
      × ((on_created listed s c).selected_script ≡ some s)
      × IsListed (on_imported listed s c)
      × ((on_imported listed s c).selected_script ≡ some s)
      × IsListed (on_deleted seen id b)
      × (includes id (script_ids (on_deleted seen id b).scripts) ≡ false)
unfolding on_created on_imported open_script
library_keeps listed c s seen b id h same = (
  IsIn-head s listed,
  refl,
  IsIn-head s listed,
  refl,
  on_deleted-IsListed seen id b h same,
  rw (on_deleted-scripts seen id b) (includes-filter_self id seen.scripts),
)

-- The answer to a save of a script of the library keeps the open script in it, and the ids of the
-- library as they were.
pub on_saved-IsListed :
    (b : Builder) (s : Script)
    → includes s.id (script_ids b.scripts) ≡ true
    → IsListed (on_saved s b) × (script_ids (on_saved s b).scripts ≡ script_ids b.scripts)
unfolding on_saved
on_saved-IsListed b s k = (IsIn-replace s s.id b.scripts k, script_ids-replace s b.scripts)

-- What an exported file holds.
abbrev pub file_of : Export → Imported
file_of e = record {
  name = some e.name;
  description = some e.description;
  definition = some e.definition;
}

-- A script that is opened, exported and imported again arrives with its name, description and
-- definition, if it has a name and its nodes list their variables.
pub import-export :
    (stem : Text) (s : Script) (b : Builder)
    → s.name ≢ []
    → All HasVariables s.definition.nodes
    → Option.map (λ e. import stem (file_of e)) (export (open_script s b))
      ≡ some (record { name = s.name; description = s.description; definition = s.definition })
unfolding export open_script import definition_to_flow
import-export stem s b n h = λ i. some (record {
  name = or_else_given s.name stem n i;
  description = or_else_nil s.description i;
  definition = flow_to_definition-definition_to_flow s.definition h i;
})
