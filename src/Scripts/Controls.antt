-- ===== src/Scripts/Controls.antt =====
-- The controls of the library in `BuilderTab` and of the tabs of scripts/page.tsx.
use rustdesk_plus.Api.Scripts.{Script}
use rustdesk_plus.Common.{
  Bool, List, Option, [], arith, false, if◌then◌else◌, is_empty, length, map, none, some, true, ℕ,
  ◌||◌, ◌≡◌, ◌≢◌,
}
use rustdesk_plus.Common.Text.{Text, text, text_eq, trim}
use rustdesk_plus.Scripts.Builder.{Builder, SaveStatus, idle, saved, unsaved}
use rustdesk_plus.Scripts.Builder.Library.{create}
use rustdesk_plus.Scripts.Execute.{Execute, TargetType}
use rustdesk_plus.Scripts.Flow.{FlowNode}

pub data LibraryKey : Type 0 where
  enter_key escape_key other_key : LibraryKey

-- The button that starts a new script, the field of its name, and "Cancelar".
unfoldable pub start_new : Builder → Builder
start_new b = record b { creating_new = true }

unfoldable pub type_name : Text → Builder → Builder
type_name s b = record b { new_name = s }

unfoldable pub cancel_new : Builder → Builder
cancel_new b = record b { creating_new = false; new_name = [] }

-- `onKeyDown` of the field, with the name that is sent where one is.
unfoldable pub name_key : LibraryKey → Builder → Builder × Option Text
unfolding create cancel_new
name_key enter_key b = create b
name_key escape_key b = (cancel_new b, none)
name_key other_key b = (b, none)

-- The condition under which "Criar" is disabled.
unfoldable pub create_disabled : Builder → Bool
unfolding trim
create_disabled b = b.saving || is_empty (trim b.new_name)

unfoldable pub press_create : Builder → Builder × Option Text
unfolding create_disabled create
press_create b = if create_disabled b then (b, none) else create b

-- The text beside the name of the open script
unfoldable pub save_text : SaveStatus → Text
save_text unsaved = text "Salvando..."
save_text saved = text "✓ Salvo"
save_text idle = text "✓ Salvo"

pub record LibraryRow : Type 0 where
  pub name : Text
  pub steps : ℕ
  pub opened : Bool

abbrev is_open : Option Script → Script → Bool
is_open none s = false
is_open (some o) s = text_eq o.id s.id

unfoldable pub library_row : Option Script → Script → LibraryRow
unfolding text_eq
library_row o s = record { name = s.name; steps = length s.definition.nodes; opened = is_open o s }

-- What is drawn in the library
pub data LibraryView : Type 0 where
  library_loading library_empty : LibraryView
  library_rows : List LibraryRow → LibraryView

unfoldable pub library_view : Builder → LibraryView
unfolding library_row
library_view b =
    if b.loading
    then library_loading
    else if is_empty b.scripts
    then library_empty
    else library_rows (map (library_row b.selected_script) b.scripts)

-- Any change to the target of a run on the tab "Executar"
unfoldable pub pick_target : TargetType → Execute → Execute
pick_target t x = record x { target_type = t }

unfoldable pub pick_script : Text → Execute → Execute
pick_script id x = record x { selected_script_id = id }

unfoldable pub pick_tag : Text → Execute → Execute
pick_tag id x = record x { selected_tag = id }

-- The tabs of `ScriptsPage`
pub data ScriptsTab : Type 0 where
  builder_tab execute_tab history_tab : ScriptsTab

unfoldable pub tab_label : ScriptsTab → Text
tab_label builder_tab = text "Biblioteca"
tab_label execute_tab = text "Executar"
tab_label history_tab = text "Histórico"

-- A click on a node, and one on the canvas beside all nodes.
unfoldable pub select_node : Text → Builder → Builder
select_node id b = record b { selected_node_id = some id }

unfoldable pub leave_node : Builder → Builder
leave_node b = record b { selected_node_id = none }

abbrev pub is_selected_node : Option Text → FlowNode → Bool
is_selected_node none n = false
is_selected_node (some id) n = text_eq n.id id

-- `nodesWithCallbacks`: the nodes, each with whether it is drawn as selected.
unfoldable pub nodes_with_callbacks : Builder → List (FlowNode × Bool)
unfolding text_eq
nodes_with_callbacks b = map (λ n. (n, is_selected_node b.selected_node_id n)) b.nodes

-- The key Enter creates whatever the button says: while a script is being created, a second press
-- of the key sends the name once more, although the button is disabled.
pub enter_again :
    (b : Builder)
    → trim b.new_name ≢ []
    → let (b', first) = name_key enter_key b in
      (first ≡ some (trim b.new_name))
      × ((press_create b').1 ≡ none)
      × ((name_key enter_key b').1 ≡ some (trim b.new_name))
unfolding name_key create press_create create_disabled
enter_again b n = ground arith
