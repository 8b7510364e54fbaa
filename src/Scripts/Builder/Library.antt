-- ===== src/Scripts/Builder/Library.antt =====
-- The library of scripts (scripts/page.tsx): loading, creating, deleting, exporting, importing.
use rustdesk_plus.Api.Scripts.{Script, ScriptDefinition}
use rustdesk_plus.Common.{
  Bool, List, Option, [], false, filter, if◌then◌else◌, is_empty, map, none, not, or_default, some,
  true, ◌∷◌,
}
use rustdesk_plus.Common.Percent.{is_alphanumeric}
use rustdesk_plus.Common.Text.{Text, or_text, text_eq, trim}
use rustdesk_plus.Scripts.Builder.{Builder, open_script}
use rustdesk_plus.Scripts.Flow.{flow_to_definition}

abbrev open_first : List Script → Builder → Builder
open_first [] b = b
open_first (s ∷ ss) b = open_script s b

-- `load` with the answer of `listScripts`
unfoldable pub load : List Script → Builder → Builder
unfolding open_script
load s b = record (open_first s (record b { scripts = s })) { loading = false }

-- `handleCreateScript` up to the call: the name that is sent, where it is not blank.
unfoldable pub create : Builder → Builder × Option Text
unfolding trim
create b =
    let name = trim b.new_name in
    if is_empty name then (b, none) else (record b { saving = true }, some name)

-- `seen` is the list of scripts when the button was pressed.
unfoldable pub on_created : List Script → Script → Builder → Builder
unfolding open_script
on_created seen s b = record (open_script s (record b { scripts = s ∷ seen })) {
  creating_new = false;
  new_name = [];
  saving = false;
}

unfoldable pub on_create_failed : Builder → Builder
on_create_failed b = record b { saving = false }

abbrev pub other_script : Text → Script → Bool
other_script id s = not (text_eq s.id id)

abbrev pub is_selected : Text → Option Script → Bool
is_selected id none = false
is_selected id (some s) = text_eq s.id id

abbrev pub open_next : List Script → Builder → Builder
open_next [] b = record b { selected_script = none; nodes = []; edges = [] }
open_next (s ∷ ss) b = open_script s b

-- `handleDeleteScript` once the user has agreed and the server has deleted the script. `seen` is
-- the drawing of the page in which the button was pressed.
unfoldable pub on_deleted : Builder → Text → Builder → Builder
unfolding open_script text_eq
on_deleted seen id b =
    let updated = filter (other_script id) seen.scripts in
    let b' = record b { scripts = updated } in
    if is_selected id seen.selected_script then open_next updated b' else b'

pub record Export : Type 0 where
  pub name : Text
  pub description : Text
  pub definition : ScriptDefinition

unfoldable pub export : Builder → Option Export
unfolding flow_to_definition
export b = elim b.selected_script [
  | none ↦ none
  | some s ↦ some (record {
    name = s.name;
    description = s.description;
    definition = flow_to_definition b.nodes b.edges;
  })
]

-- `name.replace(/[^a-z0-9]/gi, "_")`
unfoldable pub file_stem : Text → Text
file_stem name = map (λ c. if is_alphanumeric c then c else b'_') name

-- What `JSON.parse` finds in an imported file; an absent or falsy member is `none`.
pub record Imported : Type 0 where
  pub name : Option Text
  pub description : Option Text
  pub definition : Option ScriptDefinition

-- `handleImportFile` up to the call. `stem` is the file's name without ".script.json".
unfoldable pub import : Text → Imported → Export
import stem d = record {
  name = or_text d.name stem;
  description = or_text d.description [];
  definition = or_default d.definition (record { nodes = []; edges = [] });
}

-- The page when the file has been read, and after a file that cannot be used or a failed call.
unfoldable pub start_import : Builder → Builder
start_import b = record b { saving = true }

unfoldable pub on_import_failed : Builder → Builder
on_import_failed b = record b { saving = false }

unfoldable pub on_imported : List Script → Script → Builder → Builder
unfolding open_script
on_imported seen s b = record (open_script s (record b { scripts = s ∷ seen })) { saving = false }
