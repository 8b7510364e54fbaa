-- ===== src/Admin/Places.antt =====
-- `BranchesPage` (branches/page.tsx), with its branches and tags, and `TagsPage` (tags/page.tsx).
pub mod Forms
pub mod View
use rustdesk_plus.Api.Admin.{create_branch, create_tag, delete_branch, delete_tag}
use rustdesk_plus.Api.Http.{Call, Result, ok, thrown}
use rustdesk_plus.Api.Types.{Branch, Tag}
use rustdesk_plus.Common.{
  Bool, List, Option, [], false, if◌then◌else◌, is_empty, none, some, true, ◌∷◌,
}
use rustdesk_plus.Common.Text.{Text, text, trim}

abbrev pub first_color : Text
first_color = text "#3b82f6"

pub record BranchesPage : Type 0 where
  pub branches : List Branch
  pub show_branch_form : Bool
  pub new_branch_name : Text
  pub new_parent_id : Text
  pub saving_branch : Bool
  pub tags : List Tag
  pub show_tag_form : Bool
  pub new_tag_name : Text
  pub new_tag_color : Text
  pub saving_tag : Bool
  pub error : Option Text

abbrev pub or_undefined : Text → Option Text
or_undefined [] = none
or_undefined (c ∷ s) = some (c ∷ s)

-- `onCreateBranch` up to its await, and its rest with the answer and the branches loaded again.
unfoldable pub on_create_branch : BranchesPage → BranchesPage × Call
unfolding create_branch trim
on_create_branch p = (
  record p { saving_branch = true; error = none },
  create_branch (trim p.new_branch_name) (or_undefined p.new_parent_id),
)

unfoldable pub on_branch_created :
    Result Branch → Result (List Branch) → BranchesPage → BranchesPage
on_branch_created (thrown message) again p = record p {
  error = some message;
  saving_branch = false;
}
on_branch_created (ok b) (ok bs) p = record p {
  new_branch_name = [];
  new_parent_id = [];
  show_branch_form = false;
  branches = bs;
  saving_branch = false;
}
on_branch_created (ok b) (thrown message) p = record p {
  new_branch_name = [];
  new_parent_id = [];
  show_branch_form = false;
  error = some message;
  saving_branch = false;
}

unfoldable pub on_delete_branch : Bool → Text → BranchesPage → BranchesPage × Option Call
unfolding delete_branch
on_delete_branch confirmed id p =
    if confirmed then (record p { error = none }, some (delete_branch id)) else (p, none)

-- `onCreateTag` up to its await, and its rest.
unfoldable pub on_create_tag : BranchesPage → BranchesPage × Option Call
unfolding create_tag trim
on_create_tag p = if is_empty (trim p.new_tag_name) then (p, none) else (
  record p { saving_tag = true; error = none },
  some (create_tag (trim p.new_tag_name) p.new_tag_color),
)

unfoldable pub on_tag_created : Result Tag → Result (List Tag) → BranchesPage → BranchesPage
on_tag_created (thrown message) again p = record p { error = some message; saving_tag = false }
on_tag_created (ok t) (ok ts) p = record p {
  new_tag_name = [];
  new_tag_color = first_color;
  show_tag_form = false;
  tags = ts;
  saving_tag = false;
}
on_tag_created (ok t) (thrown message) p = record p {
  new_tag_name = [];
  new_tag_color = first_color;
  show_tag_form = false;
  error = some message;
  saving_tag = false;
}

unfoldable pub on_delete_tag : Bool → Text → Option Call
unfolding delete_tag
on_delete_tag confirmed id = if confirmed then some (delete_tag id) else none

-- The rest of `onDeleteBranch` and of `onDeleteTag`, with the list loaded again.
unfoldable pub on_branch_deleted : Result Bool → Result (List Branch) → BranchesPage → BranchesPage
on_branch_deleted (thrown message) again p = record p { error = some message }
on_branch_deleted (ok answer) (thrown message) p = record p { error = some message }
on_branch_deleted (ok answer) (ok bs) p = record p { branches = bs }

unfoldable pub on_tag_deleted : Result Bool → Result (List Tag) → BranchesPage → BranchesPage
on_tag_deleted (thrown message) again p = record p { error = some message }
on_tag_deleted (ok answer) (thrown message) p = record p { error = some message }
on_tag_deleted (ok answer) (ok ts) p = record p { tags = ts }

pub record TagsPage : Type 0 where
  pub tags : List Tag
  pub show_form : Bool
  pub name : Text
  pub color : Text
  pub saving : Bool
  pub error : Option Text

-- `onSubmit` of `TagsPage` up to its await, and its rest; a failure of `load` is ignored.
unfoldable pub on_submit_tag : TagsPage → TagsPage × Option Call
unfolding create_tag trim
on_submit_tag p =
    if is_empty (trim p.name)
    then (p, none)
    else (record p { saving = true; error = none }, some (create_tag (trim p.name) p.color))

abbrev pub loaded_or : Result (List Tag) → List Tag → List Tag
loaded_or (ok ts) old = ts
loaded_or (thrown message) old = old

unfoldable pub on_tag_saved : Result Tag → Result (List Tag) → TagsPage → TagsPage
on_tag_saved (thrown message) again p = record p { error = some message; saving = false }
on_tag_saved (ok t) again p = record p {
  name = [];
  color = first_color;
  show_form = false;
  tags = loaded_or again p.tags;
  saving = false;
}
