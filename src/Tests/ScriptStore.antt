-- ===== src/Tests/ScriptStore.antt =====
-- A server that keeps scripts, and a script that is edited, saved and opened again.
use rustdesk_plus.Api.Http.{Call, put}
use rustdesk_plus.Api.Scripts.{Script, ScriptDefinition, variable}
use rustdesk_plus.Api.Session.{stored}
use rustdesk_plus.Common.{
  All, List, Option, [], if◌then◌else◌, map, none, refl, some, suc, zero, ℕ, ◌++◌, ◌∷◌, ◌≡◌,
}
use rustdesk_plus.Common.Text.{Text, text, text_eq}
use rustdesk_plus.Common.Text.Equality.{text_eq_refl}
use rustdesk_plus.Devices.View.{body}
use rustdesk_plus.Scripts.Builder.{open_script}
use rustdesk_plus.Scripts.Builder.Edits.{
  CanvasEdit, ConnectsIn, edit_all, edit_canvas, node_added, node_deleted, nodes_connected,
  panel_edited,
}
use rustdesk_plus.Scripts.Builder.Reopened.{opened_too_early, saving_of}
use rustdesk_plus.Scripts.Builder.Reopens.{ScriptServer, as_drawn, as_shown, edits-reopen}
use rustdesk_plus.Scripts.Builder.Save.{SaveCall, fire, on_saved}
use rustdesk_plus.Scripts.Builder.Sent.{definition_in, update_of}
use rustdesk_plus.Scripts.Panel.{title_typed, variable_added}
use rustdesk_plus.Tests.Scripts.{first, opened}

abbrev Kept : Type 0
Kept = Text → Option Script

abbrev drop : ℕ → Text → Text
drop zero s = s
drop (suc n) [] = []
drop (suc n) (c ∷ s) = drop n s

-- What is behind `/admin/scripts/`.
abbrev address_id : Text → Text
address_id path = drop 15 path

abbrev kept_at : Text → Script → Kept → Kept
kept_at id s st j = if text_eq id j then some s else st j

abbrev changed : Text → Option Script → Option ScriptDefinition → Kept → Option Script × Kept
changed id none d st = (none, st)
changed id (some s) none st = (some s, st)
changed id (some s) (some d) st =
    (some (record s { definition = d }), kept_at id (record s { definition = d }) st)

abbrev answer_call : Call → Kept → Option Script × Kept
answer_call c st = let id = address_id c.path in changed id (st id) (definition_in c.body) st

answer_keeps :
    (st : Kept) (c : Call) (id : Text) (s : Script) (d : ScriptDefinition)
    → st id ≡ some s
    → c.method ≡ put
    → c.path ≡ text "/admin/scripts/" ++ id
    → definition_in c.body ≡ some d
    → (updated : Script) × ((answer_call c st).0 ≡ some updated)
      × ((answer_call c st).1 id ≡ some updated)
      × (updated.definition ≡ d)
answer_keeps st c id s d stored method path body = (
  record s { definition = d },
  rw (path, stored, body) refl,
  rw (path, stored, body, text_eq_refl id) refl,
  refl,
)

abbrev keeping : ScriptServer
keeping = record {
  Store = Kept;
  script_of = λ st id. st id;
  answer = answer_call;
  keeps = answer_keeps;
}

abbrev holds_first : Kept
holds_first = kept_at first.id first (λ id. none)

abbrev some_edits : List CanvasEdit
some_edits =
    node_added (text "n") variable
    ∷ panel_edited (text "n") variable_added
    ∷ nodes_connected (some first) []
    ∷ node_deleted (text "a")
    ∷ []

some_connect :
    All (ConnectsIn first.id) (panel_edited (text "a") (title_typed (text "x")) ∷ some_edits)
some_connect = (tt, (tt, (tt, ((first, refl, refl), (tt, tt)))))

edits-reopen_example :
    let edited = edit_all (panel_edited (text "a") (title_typed (text "x")) ∷ some_edits) opened in
    (c : SaveCall) × ((fire edited).1 ≡ some c)
    × (updated : Script) × ((answer_call (update_of c) holds_first).0 ≡ some updated)
    × ((answer_call (update_of c) holds_first).1 first.id ≡ some updated)
    × ((open_script updated opened).nodes ≡ map as_shown edited.nodes)
    × ((open_script updated opened).edges ≡ map as_drawn edited.edges)
unfolding text_eq
edits-reopen_example =
    edits-reopen keeping (panel_edited (text "a") (title_typed (text "x"))) some_edits opened opened
      first first holds_first refl some_connect refl

abbrev retitled : CanvasEdit
retitled = panel_edited (text "a") (title_typed (text "x"))

opened_too_early_example :
    let edited = edit_all (retitled ∷ some_edits) opened in
    let again = open_script first edited in
    let late = edit_canvas retitled (on_saved first (fire again).0) in
    ((fire again).1 ≡ some (saving_of first edited))
    × ((fire late).1 ≡ some (saving_of first (edit_canvas retitled (open_script first opened))))
opened_too_early_example =
    opened_too_early retitled some_edits retitled opened first first first refl some_connect tt
