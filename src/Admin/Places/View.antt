-- ===== src/Admin/Places/View.antt =====
-- What `BranchesPage` (branches/page.tsx) and `TagsPage` (tags/page.tsx) draw.
use rustdesk_plus.Admin.Buttons.{Submit, submit_button, toggle_label}
use rustdesk_plus.Admin.Places.{BranchesPage, TagsPage}
use rustdesk_plus.Admin.Places.Forms.{
  BranchRow, PlacesTab, TabbedPlaces, branch_rows, branches_tab, tag_line, tags_tab,
}
use rustdesk_plus.Api.Types.{Branch}
use rustdesk_plus.Common.{Bool, List, Option, [], if◌then◌else◌, map, none, some, ◌∷◌}
use rustdesk_plus.Common.Text.{Text, text, text_eq}

unfoldable pub preset_colors : List Text
preset_colors =
    text "#3b82f6"
    ∷ text "#10b981"
    ∷ text "#f59e0b"
    ∷ text "#ef4444"
    ∷ text "#8b5cf6"
    ∷ text "#06b6d4"
    ∷ text "#f97316"
    ∷ text "#84cc16"
    ∷ text "#ec4899"
    ∷ text "#6b7280"
    ∷ []

pub record Swatch : Type 0 where
  pub color : Text
  pub chosen : Bool

unfoldable pub swatch : Text → Text → Swatch
unfolding text_eq
swatch chosen c = record { color = c; chosen = text_eq chosen c }

unfoldable pub swatches : Text → List Swatch
unfolding preset_colors swatch
swatches chosen = map (swatch chosen) preset_colors

pub record TagFormView : Type 0 where
  pub name : Text
  pub colors : List Swatch
  pub send : Submit

unfoldable pub tag_form_view : Text → Text → Bool → TagFormView
unfolding swatches
tag_form_view name chosen saving = record {
  name = name;
  colors = swatches chosen;
  send = submit_button saving (text "Criar tag");
}

abbrev branch_option : Branch → Text × Text
branch_option b = (b.id, b.name)

-- The options of the parent, the first one for none.
unfoldable pub parent_options : List Branch → List (Text × Text)
parent_options bs = ([], text "Nenhuma") ∷ map branch_option bs

pub record BranchFormView : Type 0 where
  pub name : Text
  pub parent : Text
  pub parents : List (Text × Text)
  pub send : Submit

unfoldable pub branch_form_view : BranchesPage → BranchFormView
unfolding parent_options
branch_form_view p = record {
  name = p.new_branch_name;
  parent = p.new_parent_id;
  parents = parent_options p.branches;
  send = submit_button p.saving_branch (text "Salvar");
}

unfoldable pub places_tab_label : PlacesTab → Text
places_tab_label branches_tab = text "Filiais"
places_tab_label tags_tab = text "Tags"

unfoldable pub places_toggle : TabbedPlaces → Text
places_toggle v = elim v.tab [
  | branches_tab ↦ toggle_label v.page.show_branch_form (text "+ Nova filial")
  | tags_tab ↦ toggle_label v.page.show_tag_form (text "+ Nova tag")
]

-- Below the tabs and the error: the form, where it is shown, and the list.
pub data PlacesBody : Type 0 where
  branches_body : Option BranchFormView → List BranchRow → PlacesBody
  tags_body : Option TagFormView → List (Text × Text × Text) → PlacesBody

module _ (locale_date : Text → Text) where
  unfoldable pub places_body : TabbedPlaces → PlacesBody
  unfolding branch_form_view branch_rows tag_form_view tag_line
  places_body v = elim v.tab [
    | branches_tab ↦
        branches_body (if v.page.show_branch_form then some (branch_form_view v.page) else none)
          (branch_rows locale_date v.page.branches)
    | tags_tab ↦
        tags_body
          (if v.page.show_tag_form
            then some (tag_form_view v.page.new_tag_name v.page.new_tag_color v.page.saving_tag)
            else none)
          (map (tag_line locale_date) v.page.tags)
  ]

  -- `TagsPage`: the label of its button, its form with the error, which is shown there only, and
  -- the list.
  unfoldable pub own_tags_view :
      TagsPage → Text × Option (TagFormView × Option Text) × List (Text × Text × Text)
  unfolding tag_form_view tag_line
  own_tags_view p = (
    toggle_label p.show_form (text "+ Nova tag"),
    if p.show_form then some (tag_form_view p.name p.color p.saving, p.error) else none,
    map (tag_line locale_date) p.tags,
  )
