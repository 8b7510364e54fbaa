-- ===== src/Scripts/Builder/Reopened.antt =====
-- A script that is opened while the save of edits is still to come (scripts/page.tsx).
use rustdesk_plus.Api.Scripts.{Script}
use rustdesk_plus.Common.{All, List, ap, refl, some, ◌∙◌, ◌∷◌, ◌≡◌}
use rustdesk_plus.Common.Text.{Text}
use rustdesk_plus.Scripts.Builder.{Builder, open_script, schedule_save}
use rustdesk_plus.Scripts.Builder.Edit.{add_node, delete_node, on_connect, update_node_data}
use rustdesk_plus.Scripts.Builder.Edits.{
  CanvasEdit, ConnectsIn, SavesTo, edit_all, edit_canvas, edit_canvas-SavesTo, edits-SavesTo,
  node_added, node_deleted, nodes_connected, panel_edited,
}
use rustdesk_plus.Scripts.Builder.Save.{SaveCall, fire, on_saved, save_call}
use rustdesk_plus.Scripts.Flow.{flow_to_definition}
use rustdesk_plus.Scripts.Panel.{panel_close, panel_delete, panel_update}

-- What a save of the canvas would send for a script.
abbrev pub saving_of : Script → Builder → SaveCall
saving_of s b = record { script_id = s.id; definition = flow_to_definition b.nodes b.edges }

fire-SavesTo : (s : Script) (b : Builder) → SavesTo s.id b → (fire b).1 ≡ some (saving_of s b)
unfolding fire save_call
fire-SavesTo s b (t, job, id) =
    rw job (
      ap (λ i. some (record { script_id = i; definition = flow_to_definition b.nodes b.edges })) id)

-- The edits that are made by a handler of the drawing that is shown.
abbrev pub OfDrawing : CanvasEdit → Type 0
OfDrawing (node_added new type) = Unit
OfDrawing (panel_edited id e) = Unit
OfDrawing (node_deleted id) = Unit
OfDrawing (nodes_connected drawn es) = ⊥

OfDrawing-ConnectsIn : (e : CanvasEdit) (id : Text) → OfDrawing e → ConnectsIn id e
OfDrawing-ConnectsIn (node_added new type) id h = tt
OfDrawing-ConnectsIn (panel_edited node e) id h = tt
OfDrawing-ConnectsIn (node_deleted node) id h = tt
OfDrawing-ConnectsIn (nodes_connected drawn es) id h = absurd h

-- Such an edit of the canvas that `open_script` leaves, whatever was there before and whatever answer
-- has come since.
edit_after :
    (f : CanvasEdit) (other updated : Script) (b c : Builder)
    → OfDrawing f
    → let late = edit_canvas f (on_saved updated (fire (open_script other c)).0) in
      let alone = edit_canvas f (open_script other b) in
      (late.nodes ≡ alone.nodes) × (late.edges ≡ alone.edges)
unfolding edit_canvas panel_update panel_delete update_node_data on_connect add_node delete_node
    panel_close schedule_save open_script fire on_saved
edit_after (node_added new type) other updated b c h = (refl, refl)
edit_after (panel_edited id e) other updated b c h = (refl, refl)
edit_after (node_deleted id) other updated b c h = (refl, refl)
edit_after (nodes_connected drawn es) other updated b c h = absurd h

fire-open_script : (other : Script) (b : Builder) → (fire (open_script other b)).1 ≡ (fire b).1
unfolding fire open_script
fire-open_script other b = refl

-- A script is opened, be it another one or the same again, before edits of the open script are
-- saved, where each connection among them is made by a callback that has kept a script of the same
-- id: the timer still sends them, and once the answer has come the next node that is added, changed
-- in the panel or deleted by its button sends, to the script of the answer, what it would send of
-- the opened script alone, without those edits.
pub opened_too_early :
    (e : CanvasEdit) (es : List CanvasEdit) (f : CanvasEdit) (b : Builder)
    (s other updated : Script)
    → b.selected_script ≡ some s
    → All (ConnectsIn s.id) (e ∷ es)
    → OfDrawing f
    → let edited = edit_all (e ∷ es) b in
      let again = open_script other edited in
      let late = edit_canvas f (on_saved updated (fire again).0) in
      ((fire again).1 ≡ some (saving_of s edited))
      × ((fire late).1 ≡ some (saving_of updated (edit_canvas f (open_script other b))))
unfolding on_saved
opened_too_early e es f b s other updated selected kept_open drawn =
    let edited = edit_all (e ∷ es) b in
    let late = on_saved updated (fire (open_script other edited)).0 in
    let (nodes, edges) = edit_after f other updated b edited drawn in
    (
      fire-open_script other edited
          ∙ fire-SavesTo s edited (edits-SavesTo e es b s selected kept_open),
      fire-SavesTo updated (edit_canvas f late)
            (edit_canvas-SavesTo f late updated refl (OfDrawing-ConnectsIn f updated.id drawn))
          ∙ cc (nodes, edges),
    )
