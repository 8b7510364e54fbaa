-- ===== src/Scripts/BuilderView.antt =====
-- What `BuilderTab` and `ScriptsPage` draw (scripts/page.tsx): the library, the canvas with its
-- nodes, the bar above it and the panel beside it.
use mathlib.Core.Option
use rustdesk_plus.Api.Scripts.{NodeType, Script, download, notify, shell, variable}
use rustdesk_plus.Common.{
  Bool, List, Option, Option-cases, [], any, arith, false, find?, if◌then◌else◌, inl, inr, is_empty,
  is_some, map, none, refl, some, sym, true, ℕ, ◌++◌, ◌∷◌, ◌≡◌, ◌≢◌,
}
use rustdesk_plus.Common.Text.{Text, or_else, text, text_eq}
use rustdesk_plus.Scripts.Builder.{Builder, SaveStatus, idle, saved, unsaved}
use rustdesk_plus.Scripts.Controls.{
  LibraryView, ScriptsTab, builder_tab, create_disabled, execute_tab, history_tab, library_view,
  is_selected_node, nodes_with_callbacks, save_text, tab_label,
}
use rustdesk_plus.Scripts.Flow.{FlowNode, NodeData}
use rustdesk_plus.Scripts.History.{shell_preview, variable_preview}
use rustdesk_plus.Scripts.Panel.{panel_node, panel_title, shown_texts, shown_timeout}

-- A node as `NodeWrapper` draws it.
pub record NodeCard : Type 0 where
  pub title : Text
  pub preview : Option Text
  pub selected : Bool

-- `nodeTypes`: the preview that each kind of node hands to `NodeWrapper`.
unfoldable pub preview_of : NodeType → NodeData → Option Text
unfolding shell_preview variable_preview
preview_of shell d = shell_preview d
preview_of download d = d.url
preview_of notify d = d.message
preview_of variable d = some (variable_preview d)

-- `preview && …`
abbrev drawn_text : Option Text → Option Text
drawn_text none = none
drawn_text (some s) = if is_empty s then none else some s

unfoldable pub node_card : FlowNode × Bool → NodeCard
unfolding preview_of
node_card (n, chosen) = record {
  title = or_else n.node_data.label (text "Sem título");
  preview = drawn_text (preview_of n.type n.node_data);
  selected = chosen;
}

-- `NODE_PALETTE`
unfoldable pub node_palette : List (NodeType × Text)
node_palette =
    (variable, text "Variável")
    ∷ (shell, text "Shell")
    ∷ (download, text "Download")
    ∷ (notify, text "Nota")
    ∷ []

-- The hint of a button of the palette
abbrev pub palette_hint : NodeType × Text → Text
palette_hint (t, label) = text "Adicionar nó " ++ label

-- The form for the name of a new script
pub record NameForm : Type 0 where
  pub value : Text
  pub disabled : Bool

unfoldable pub name_form : Builder → Option NameForm
unfolding create_disabled
name_form b =
    if b.creating_new
    then some (record { value = b.new_name; disabled = create_disabled b })
    else none

-- The panel of the node that is selected, where the canvas has it.
pub record PanelView : Type 0 where
  pub title : Text
  pub texts : List Text
  pub seconds : Option ℕ

abbrev panel_of : FlowNode → PanelView
panel_of n = record { title = panel_title n.type; texts = shown_texts n; seconds = shown_timeout n }

unfoldable pub panel_view : Builder → Option PanelView
unfolding panel_node panel_title shown_texts shown_timeout
panel_view b = Option.map panel_of (panel_node b)

abbrev has_status : SaveStatus → Bool
has_status idle = false
has_status unsaved = true
has_status saved = true

-- The canvas of the open script, with the bar above it. The status is transparent while nothing
-- was edited.
pub record CanvasView : Type 0 where
  pub name : Text
  pub status : Option Text
  pub palette : List Text
  pub cards : List NodeCard
  pub edge_ends : List (Text × Text)
  pub panel : Option PanelView

unfoldable pub canvas_view : Builder → Script → CanvasView
unfolding save_text node_palette node_card nodes_with_callbacks panel_view
canvas_view b s = record {
  name = s.name;
  status = if has_status b.save_status then some (save_text b.save_status) else none;
  palette = map palette_hint node_palette;
  cards = map node_card (nodes_with_callbacks b);
  edge_ends = map (λ e. (e.source, e.target)) b.edges;
  panel = panel_view b;
}

pub record BuilderView : Type 0 where
  pub title : Text
  pub form : Option NameForm
  pub library : LibraryView
  pub canvas : Option CanvasView
  pub hint : Option Text

unfoldable pub builder_view : Builder → BuilderView
unfolding name_form library_view canvas_view
builder_view b = record {
  title = text "Biblioteca";
  form = name_form b;
  library = library_view b;
  canvas = Option.map (canvas_view b) b.selected_script;
  hint = if is_some b.selected_script then none else some (text "Selecione ou crie um script");
}

abbrev tab_is : ScriptsTab → ScriptsTab → Bool
tab_is builder_tab builder_tab = true
tab_is execute_tab execute_tab = true
tab_is history_tab history_tab = true
tab_is a b = false

-- The buttons of the tabs, each with whether its tab is drawn.
unfoldable pub tab_buttons : ScriptsTab → List (Text × Bool)
unfolding tab_label
tab_buttons tab =
    map (λ t. (tab_label t, tab_is tab t)) (builder_tab ∷ execute_tab ∷ history_tab ∷ [])

abbrev is_selected_card : NodeCard → Bool
is_selected_card c = c.selected

any-card :
    (chosen : FlowNode → Bool) (ns : List FlowNode)
    → any is_selected_card (map node_card (map (λ n. (n, chosen n)) ns)) ≡ any chosen ns
unfolding node_card
any-card chosen [] = refl
any-card chosen (n ∷ ns) = ground (arith, any-card chosen ns)

is_some-find :
    (f : FlowNode → PanelView) (p : FlowNode → Bool) (ns : List FlowNode)
    → is_some (Option.map f (find? p ns)) ≡ any p ns
is_some-find f p [] = refl
is_some-find f p (n ∷ ns) = ground (arith, is_some-find f p ns)

none_selected : (ns : List FlowNode) → any (λ n. false) ns ≡ false
none_selected [] = refl
none_selected (n ∷ ns) = none_selected ns

-- As long as no empty identifier is selected, the panel is drawn exactly if a node of the canvas is
-- drawn as selected.
pub panel-card :
    (b : Builder) (s : Script)
    → b.selected_node_id ≢ some []
    → is_some (canvas_view b s).panel ≡ any is_selected_card (canvas_view b s).cards
unfolding canvas_view panel_view panel_node nodes_with_callbacks text_eq
panel-card b s h =
    let cards = any-card (is_selected_node b.selected_node_id) b.nodes in
    elim (Option-cases b.selected_node_id) [
      | inl unselected ↦ rw (cards, unselected) (sym (none_selected b.nodes))
      | inr ([], empty_id) ↦ absurd (h empty_id)
      | inr (c ∷ id, chosen) ↦ rw (cards, chosen) (is_some-find panel_of _ b.nodes)
    ]
