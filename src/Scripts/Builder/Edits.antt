-- ===== src/Scripts/Builder/Edits.antt =====
-- The edits of the canvas one after the other (scripts/page.tsx).
use rustdesk_plus.Api.Scripts.{NodeType, Script}
use rustdesk_plus.Common.{All, List, Option, [], refl, some, ◌∙◌, ◌∷◌, ◌≡◌}
use rustdesk_plus.Common.Text.{Text}
use rustdesk_plus.Scripts.Builder.{Builder, schedule_save}
use rustdesk_plus.Scripts.Builder.Edit.{add_node, delete_node, on_connect, update_node_data}
use rustdesk_plus.Scripts.Flow.{FlowEdge}
use rustdesk_plus.Scripts.Panel.{PanelEdit, panel_close, panel_delete, panel_update}

-- `panel_edited` and `node_deleted`, which is the button of the panel, name the node.
-- `nodes_connected` has the script that the callback has kept, and what React Flow's `addEdge`
-- makes of the edges that are there. Nodes that are dragged and the Delete key are not among them:
-- their handlers may save what an older drawing shows.
pub data CanvasEdit : Type 0 where
  node_added : Text → NodeType → CanvasEdit
  panel_edited : Text → PanelEdit → CanvasEdit
  node_deleted : Text → CanvasEdit
  nodes_connected : Option Script → List FlowEdge → CanvasEdit

unfoldable pub edit_canvas : CanvasEdit → Builder → Builder
unfolding add_node panel_update panel_delete on_connect
edit_canvas (node_added new type) b = add_node new type b
edit_canvas (panel_edited id e) b = panel_update id e b
edit_canvas (node_deleted id) b = panel_delete id b
edit_canvas (nodes_connected drawn es) b = on_connect drawn es b

unfoldable pub edit_all : List CanvasEdit → Builder → Builder
unfolding edit_canvas
edit_all [] b = b
edit_all (e ∷ es) b = edit_all es (edit_canvas e b)

-- A connection is made where the callback has kept a script of this id: so it is as long as no
-- other script was opened on the canvas.
abbrev pub ConnectsIn : Text → CanvasEdit → Type 0
ConnectsIn id (node_added new type) = Unit
ConnectsIn id (panel_edited node e) = Unit
ConnectsIn id (node_deleted node) = Unit
ConnectsIn id (nodes_connected drawn es) = (t : Script) × (drawn ≡ some t) × (t.id ≡ id)

-- What is scheduled is to save the canvas as it is, for a script of this id.
abbrev pub SavesTo : Text → Builder → Type 0
SavesTo id b =
    (t : Script) × (b.timer ≡ some (record { script = some t; nodes = b.nodes; edges = b.edges }))
    × (t.id ≡ id)

pub edit_canvas-SavesTo :
    (e : CanvasEdit) (b : Builder) (s : Script)
    → b.selected_script ≡ some s
    → ConnectsIn s.id e
    → SavesTo s.id (edit_canvas e b)
unfolding edit_canvas panel_update panel_delete update_node_data on_connect add_node delete_node
    panel_close schedule_save
edit_canvas-SavesTo (node_added new type) b s h k = (s, rw h refl, refl)
edit_canvas-SavesTo (panel_edited id e) b s h k = (s, rw h refl, refl)
edit_canvas-SavesTo (node_deleted id) b s h k = (s, rw h refl, refl)
edit_canvas-SavesTo (nodes_connected drawn es) b s h (t, kept, same) = (t, rw kept refl, same)

edit_canvas-selected :
    (e : CanvasEdit) (b : Builder) → (edit_canvas e b).selected_script ≡ b.selected_script
unfolding edit_canvas panel_update panel_delete update_node_data on_connect add_node delete_node
    panel_close schedule_save
edit_canvas-selected (node_added new type) b = refl
edit_canvas-selected (panel_edited id e) b = refl
edit_canvas-selected (node_deleted id) b = refl
edit_canvas-selected (nodes_connected drawn es) b = refl

edit_all-SavesTo :
    (es : List CanvasEdit) (b : Builder) (s : Script)
    → b.selected_script ≡ some s
    → All (ConnectsIn s.id) es
    → SavesTo s.id b
    → SavesTo s.id (edit_all es b)
unfolding edit_all
edit_all-SavesTo [] b s h k saves = saves
edit_all-SavesTo (e ∷ es) b s h k saves =
    edit_all-SavesTo es (edit_canvas e b) s (edit_canvas-selected e b ∙ h) k.1
      (edit_canvas-SavesTo e b s h k.0)

-- However many edits are made, what is about to be saved is the canvas after the last one, for the
-- script that is open.
pub edits-SavesTo :
    (e : CanvasEdit) (es : List CanvasEdit) (b : Builder) (s : Script)
    → b.selected_script ≡ some s
    → All (ConnectsIn s.id) (e ∷ es)
    → SavesTo s.id (edit_all (e ∷ es) b)
unfolding edit_all
edits-SavesTo e es b s h k =
    edit_all-SavesTo es (edit_canvas e b) s (edit_canvas-selected e b ∙ h) k.1
      (edit_canvas-SavesTo e b s h k.0)
