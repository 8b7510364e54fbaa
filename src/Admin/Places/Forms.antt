-- ===== src/Admin/Places/Forms.antt =====
-- The tabs, forms and lists of `BranchesPage` (branches/page.tsx), and the rest of `TagsPage`
-- (tags/page.tsx).
use rustdesk_plus.Admin.Places.{BranchesPage, TagsPage, loaded_or}
use rustdesk_plus.Api.Admin.{delete_tag}
use rustdesk_plus.Api.Http.{Call, Result, ok, thrown}
use rustdesk_plus.Api.Types.{Branch, Tag}
use rustdesk_plus.Common.{
  Bool, List, Option, false, find?, if◌then◌else◌, map, none, not, some, ◌++◌,
}
use rustdesk_plus.Common.Text.{Text, text, text_eq}

pub data PlacesTab : Type 0 where
  branches_tab tags_tab : PlacesTab

pub data PlacesEvent : Type 0 where
  tab_clicked : PlacesTab → PlacesEvent
  branch_form_toggled tag_form_toggled : PlacesEvent
  branch_name_typed parent_picked tag_name_typed color_picked : Text → PlacesEvent
  branches_answered : List Branch → PlacesEvent
  tags_answered : List Tag → PlacesEvent

-- The page with its open tab.
pub record TabbedPlaces : Type 0 where
  pub tab : PlacesTab
  pub page : BranchesPage

unfoldable pub places_step : TabbedPlaces → PlacesEvent → TabbedPlaces
places_step v (tab_clicked t) = record { tab = t; page = record v.page { error = none } }
places_step v branch_form_toggled = record v {
  page = record v.page { show_branch_form = not v.page.show_branch_form };
}
places_step v tag_form_toggled = record v {
  page = record v.page { show_tag_form = not v.page.show_tag_form };
}
places_step v (branch_name_typed s) = record v { page = record v.page { new_branch_name = s } }
places_step v (parent_picked id) = record v { page = record v.page { new_parent_id = id } }
places_step v (tag_name_typed s) = record v { page = record v.page { new_tag_name = s } }
places_step v (color_picked c) = record v { page = record v.page { new_tag_color = c } }
places_step v (branches_answered bs) = record v { page = record v.page { branches = bs } }
places_step v (tags_answered ts) = record v { page = record v.page { tags = ts } }

abbrev is_parent_of : Option Text → Branch → Bool
is_parent_of none b = false
is_parent_of (some id) b = text_eq b.id id

abbrev parent_name : Option Branch → Text
parent_name none = text "—"
parent_name (some b) = b.name

pub record BranchRow : Type 0 where
  pub name : Text
  pub parent : Text
  pub made : Text

module _ (locale_date : Text → Text) where
  unfoldable pub branch_row : List Branch → Branch → BranchRow
  unfolding text_eq
  branch_row bs b = record {
    name = b.name;
    parent = parent_name (find? (is_parent_of b.parent_id) bs);
    made = locale_date b.created_at;
  }

  -- The table of the branches; no row stands for the line that there is none.
  unfoldable pub branch_rows : List Branch → List BranchRow
  unfolding branch_row
  branch_rows bs = map (branch_row bs) bs

  unfoldable pub tag_line : Tag → Text × Text × Text
  tag_line t = (t.name, t.color, text "Criada em " ++ locale_date t.created_at)

-- `onDelete` of `TagsPage` with the list that is loaded again: neither failure is shown.
unfoldable pub on_delete_own_tag : Bool → Text → Option Call
unfolding delete_tag
on_delete_own_tag confirmed id = if confirmed then some (delete_tag id) else none

unfoldable pub on_own_tag_deleted : Result Bool → Result (List Tag) → TagsPage → TagsPage
on_own_tag_deleted (thrown message) again p = p
on_own_tag_deleted (ok answer) again p = record p { tags = loaded_or again p.tags }

unfoldable pub toggle_own_form : TagsPage → TagsPage
toggle_own_form p = record p { show_form = not p.show_form }

unfoldable pub type_own_name : Text → TagsPage → TagsPage
type_own_name s p = record p { name = s }

unfoldable pub pick_own_color : Text → TagsPage → TagsPage
pick_own_color c p = record p { color = c }
