-- ===== src/Api/ScriptReader.antt =====
-- The JSON of a script's definition, read back by the names and types of its interfaces in api.ts.
use mathlib.Core.Option
use rustdesk_plus.Api.Admin.{optional_field}
use rustdesk_plus.Api.DeviceCalls.{items}
use rustdesk_plus.Api.Http.{
  Items, Json, Members, arr, bool, cons, end, member, members, nil, num, obj, object, str,
}
use rustdesk_plus.Api.ScriptCalls.{
  data_json, definition_json, edge_json, node_json, powershell_field, timeout_field, type_text,
  var_json, vars_field,
}
use rustdesk_plus.Api.Scripts.{
  NodeType, Position, ScriptDefinition, ScriptEdge, ScriptNode, ScriptNodeData, ScriptVar, download,
  notify, shell, variable,
}
use rustdesk_plus.Common.{
  Bool, List, Option, [], arith, if◌then◌else◌, map, none, refl, some, true, ℕ, ◌∷◌, ◌≡◌,
}
use rustdesk_plus.Common.Int.{pos, ℤ}
use rustdesk_plus.Common.Text.{Text, text, text_eq}

-- The first member with a name
unfoldable pub prop : Text → Members → Option Json
unfolding text_eq
prop k end = none
prop k (member j v ms) = if text_eq j k then some v else prop k ms

abbrev pub members_of : Json → Members
members_of (obj ms) = ms
members_of _ = end

abbrev pub read_text : Option Json → Option Text
read_text (some (str s)) = some s
read_text _ = none

abbrev pub read_bool : Option Json → Option Bool
read_bool (some (bool b)) = some b
read_bool _ = none

abbrev pub read_num : Option Json → Option ℤ
read_num (some (num n)) = some n
read_num _ = none

abbrev natural : Option ℤ → Option ℕ
natural (some (pos n)) = some n
natural _ = none

abbrev pub read_type : Text → Option NodeType
read_type t =
    if text_eq t (text "shell")
    then some shell
    else if text_eq t (text "download")
    then some download
    else if text_eq t (text "notify")
    then some notify
    else if text_eq t (text "variable")
    then some variable
    else none

infixl 5 ◌>>=◌
abbrev ◌>>=◌ {ℓ κ} : {A : Type ℓ} {B : Type κ} → Option A → (A → Option B) → Option B
none >>= f = none
some a >>= f = f a

-- An array, where every item can be read.
unfoldable pub read_items {ℓ} : {A : Type ℓ} → (Json → Option A) → Items → Option (List A)
read_items read nil = some []
read_items read (cons j js) = do some ((← read j) ∷ (← read_items read js))

abbrev pub read_list {ℓ} : {A : Type ℓ} → (Json → Option A) → Option Json → Option (List A)
read_list read (some (arr js)) = read_items read js
read_list read _ = none

abbrev pub read_var : Json → Option ScriptVar
read_var j = do
  k ← read_text (prop (text "key") (members_of j))
  v ← read_text (prop (text "value") (members_of j))
  some (record { key = k; value = v })

abbrev pub read_position : Option Json → Option Position
read_position none = none
read_position (some j) = do
  x ← read_num (prop (text "x") (members_of j))
  y ← read_num (prop (text "y") (members_of j))
  some (record { x = x; y = y })

-- The optional fields of the data are those that are left out where they are undefined.
abbrev pub read_data : Option Json → Option ScriptNodeData
read_data none = none
read_data (some j) = do
  label ← read_text (prop (text "label") (members_of j))
  some (record {
    label = label;
    command = read_text (prop (text "command") (members_of j));
    powershell = read_bool (prop (text "powershell") (members_of j));
    timeout_seconds = natural (read_num (prop (text "timeout_seconds") (members_of j)));
    url = read_text (prop (text "url") (members_of j));
    destination = read_text (prop (text "destination") (members_of j));
    message = read_text (prop (text "message") (members_of j));
    variables = read_list read_var (prop (text "variables") (members_of j));
  })

unfoldable pub read_node : Json → Option ScriptNode
unfolding prop read_items
read_node j = do
  id ← read_text (prop (text "id") (members_of j))
  type_name ← read_text (prop (text "type") (members_of j))
  type ← read_type type_name
  position ← read_position (prop (text "position") (members_of j))
  data' ← read_data (prop (text "data") (members_of j))
  some (record { id = id; type = type; position = position; node_data = data' })

unfoldable pub read_edge : Json → Option ScriptEdge
unfolding prop
read_edge j = do
  id ← read_text (prop (text "id") (members_of j))
  source ← read_text (prop (text "source") (members_of j))
  target ← read_text (prop (text "target") (members_of j))
  some (record { id = id; source = source; target = target })

unfoldable pub read_definition : Json → Option ScriptDefinition
unfolding prop read_items read_node read_edge
read_definition j = do
  nodes ← read_list read_node (prop (text "nodes") (members_of j))
  edges ← read_list read_edge (prop (text "edges") (members_of j))
  some (record { nodes = nodes; edges = edges })

read_items-map {ℓ} :
    {A : Type ℓ} (read : Json → Option A) (print : A → Json)
    → ((a : A) → read (print a) ≡ some a)
    → (xs : List A) → read_items read (items (map print xs)) ≡ some xs
unfolding read_items
read_items-map read print back [] = refl
read_items-map read print back (x ∷ xs) = rw (back x, read_items-map read print back xs)

read_edge-edge_json : (e : ScriptEdge) → read_edge (edge_json e) ≡ some e
unfolding read_edge prop object members text_eq
read_edge-edge_json e = refl

read_var-var_json : (v : ScriptVar) → read_var (var_json v) ≡ some v
unfolding prop object members text_eq
read_var-var_json v = refl

read_type-type_text : (t : NodeType) → read_type (type_text t) ≡ some t
unfolding text_eq
read_type-type_text shell = refl
read_type-type_text download = refl
read_type-type_text notify = refl
read_type-type_text variable = refl

abbrev pub pick {ℓ} : {A : Type ℓ} → Bool → Option A → Option A → Option A
pick true (some a) rest = some a
pick b o rest = rest

prop-member :
    (k : Text) (m : Text × Option Json) (ms : List (Text × Option Json))
    → prop k (members (m ∷ ms)) ≡ pick (text_eq m.0 k) m.1 (prop k (members ms))
unfolding prop members
prop-member k (j, none) ms = ground arith
prop-member k (j, some v) ms = ground arith

optional_parts : (k : Text) (o : Option Text) → optional_field k o ≡ (k, Option.map str o)
optional_parts k none = refl
optional_parts k (some s) = refl

powershell_parts : (o : Option Bool) → powershell_field o ≡ (text "powershell", Option.map bool o)
powershell_parts none = refl
powershell_parts (some s) = refl

timeout_parts :
    (o : Option ℕ) → timeout_field o ≡ (text "timeout_seconds", Option.map (λ n. num (pos n)) o)
timeout_parts none = refl
timeout_parts (some s) = refl

vars_parts :
    (o : Option (List ScriptVar))
    → vars_field o ≡ (text "variables", Option.map (λ vs. arr (items (map var_json vs))) o)
vars_parts none = refl
vars_parts (some s) = refl

members_of-object : (ms : List (Text × Option Json)) → members_of (object ms) ≡ members ms
unfolding object
members_of-object ms = refl

prop-nil : (k : Text) → prop k (members []) ≡ none
unfolding prop members
prop-nil k = refl

picked_text : (o : Option Text) → read_text (pick true (Option.map str o) none) ≡ o
picked_text none = refl
picked_text (some s) = refl

picked_bool : (o : Option Bool) → read_bool (pick true (Option.map bool o) none) ≡ o
picked_bool none = refl
picked_bool (some b) = refl

picked_natural :
    (o : Option ℕ) → natural (read_num (pick true (Option.map (λ n. num (pos n)) o) none)) ≡ o
picked_natural none = refl
picked_natural (some n) = refl

picked_vars :
    (o : Option (List ScriptVar))
    → read_list read_var (pick true (Option.map (λ vs. arr (items (map var_json vs))) o) none) ≡ o
picked_vars none = refl
picked_vars (some vs) = read_items-map read_var var_json read_var-var_json vs

ruleset read_members = (
  members_of-object, optional_parts, powershell_parts, timeout_parts, vars_parts, prop-member,
  prop-nil, picked_text, picked_bool, picked_natural, picked_vars,
)

read_data-data_json : (d : ScriptNodeData) → read_data (some (data_json d)) ≡ some d
unfolding text_eq
read_data-data_json d = simp (read_members)

read_node-node_json : (n : ScriptNode) → read_node (node_json n) ≡ some n
unfolding read_node text_eq
read_node-node_json n = simp (read_members, read_type-type_text n.type)

pub read_definition-definition_json :
    (d : ScriptDefinition) → read_definition (definition_json d) ≡ some d
unfolding read_definition definition_json text_eq
read_definition-definition_json d = simp (
  read_members,
  read_items-map read_node node_json read_node-node_json d.nodes,
  read_items-map read_edge edge_json read_edge-edge_json d.edges,
)
