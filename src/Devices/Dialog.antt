-- ===== src/Devices/Dialog.antt =====
-- The dialog of a device, and the buttons of its cards (devices/page.tsx). A handler is the calls
-- that it makes and what it does once they are answered.
use rustdesk_plus.Api.DeviceCalls.{
  add_device_tag, delete_device, patch_device, purge_device, remove_device_tag, restore_device,
  set_device_branch, toggle_favorite,
}
use rustdesk_plus.Api.Http.{Call}
use rustdesk_plus.Api.Types.{Device, Tag}
use rustdesk_plus.Common.{
  Bool, Bool-cases, List, Option, [], arith, false, filter, if◌then◌else◌, inl, inr, none, not,
  or_default, some, true, ◌++◌, ◌∷◌, ◌≡◌,
}
use rustdesk_plus.Common.Text.{Text, includes, present, text_eq, trim}
use rustdesk_plus.Common.Text.Equality.{text_eq_refl, text_eq→eq}
use rustdesk_plus.Common.Text.Members.{differs, includes-append_one, includes-filter-differs}

-- The hooks of `DeviceModal`; `device_tag_ids` is a set, in the order of insertion.
pub record Dialog : Type 0 where
  pub alias : Text
  pub description : Text
  pub branch_id : Text
  pub saving : Bool
  pub all_tags : List Tag
  pub device_tag_ids : List Text

unfoldable pub open_dialog : Device → Dialog
open_dialog d = record {
  alias = or_default d.alias [];
  description = or_default d.description [];
  branch_id = or_default d.branch_id [];
  saving = false;
  all_tags = [];
  device_tag_ids = [];
}

-- `new Set([...prev, id])`
unfoldable pub add_id : Text → List Text → List Text
unfolding includes
add_id id ids = if includes id ids then ids else ids ++ id ∷ []

unfoldable pub set_of : List Tag → List Text → List Text
unfolding add_id
set_of [] ids = ids
set_of (t ∷ ts) ids = set_of ts (add_id t.id ids)

-- The answers of `listTags` and `listDeviceTags`
unfoldable pub on_tags : List Tag → List Tag → Dialog → Dialog
unfolding set_of
on_tags tags mine w = record w { all_tags = tags; device_tag_ids = set_of mine [] }

-- `onToggleTag`: the call, and the set once it is answered. `seen` is the dialog at the click.
unfoldable pub toggle_call : Text → Text → Dialog → Call
unfolding includes
toggle_call device_id tag_id seen =
    if includes tag_id seen.device_tag_ids
    then remove_device_tag device_id tag_id
    else add_device_tag device_id tag_id

unfoldable pub on_toggled : Text → Dialog → Dialog → Dialog
unfolding includes add_id
on_toggled tag_id seen w =
    if includes tag_id seen.device_tag_ids
    then record w { device_tag_ids = filter (differs tag_id) w.device_tag_ids }
    else record w { device_tag_ids = add_id tag_id w.device_tag_ids }

-- `branchId || null`
abbrev branch_or_null : Text → Option Text
branch_or_null [] = none
branch_or_null (c ∷ s) = some (c ∷ s)

abbrev pub patch_call : Text → Dialog → Call
patch_call device_id w = patch_device device_id (some (trim w.alias)) (some (trim w.description))

abbrev pub branch_call : Text → Dialog → Call
branch_call device_id w = set_device_branch device_id (branch_or_null w.branch_id)

-- `onSave` of the device up to its first await
unfoldable pub start_save : Dialog → Dialog
start_save w = record w { saving = true }

-- The rest of `onSave`, where `succeeds` tells which calls do and nothing is typed meanwhile: the
-- dialog after it, the calls that were made with what the dialog says at the click, and whether the
-- list is loaded again and the dialog closed.
module _ (succeeds : Call → Bool) (device_id : Text) where
  unfoldable pub on_save : Dialog → Dialog × List Call × Bool
  unfolding trim start_save
  on_save w =
      let after = record (start_save w) { saving = false } in
      if succeeds (patch_call device_id w)
      then (
        after,
        patch_call device_id w ∷ branch_call device_id w ∷ [],
        succeeds (branch_call device_id w),
      )
      else (after, patch_call device_id w ∷ [], false)

-- `onFavorite`, `onDelete` and `onRestore`, `onPurge` of the cards, where `confirmed` is the
-- answer to the question; each loads the list again once its call has succeeded.
unfoldable pub on_favorite : Device → List Call
on_favorite d = toggle_favorite d.id ∷ []

unfoldable pub on_delete : Bool → Device → List Call
on_delete confirmed d = if confirmed then delete_device d.id ∷ [] else []

unfoldable pub on_restore : Device → List Call
on_restore d = restore_device d.id ∷ []

unfoldable pub on_purge : Bool → Device → List Call
on_purge confirmed d = if confirmed then purge_device d.id ∷ [] else []

-- A click on a tag adds it to the device where it was missing and removes it otherwise; once the
-- call is answered exactly that tag has changed in the dialog.
pub on_toggled_lem :
    (device_id tag_id other_id : Text) (w : Dialog)
    → let after = on_toggled tag_id w w in
      (toggle_call device_id tag_id w ≡ (
        if includes tag_id after.device_tag_ids
        then add_device_tag device_id tag_id
        else remove_device_tag device_id tag_id))
      × (includes other_id after.device_tag_ids ≡ (
          if text_eq tag_id other_id
          then not (includes other_id w.device_tag_ids)
          else includes other_id w.device_tag_ids))
unfolding toggle_call on_toggled
on_toggled_lem device_id tag_id other_id w = elim (Bool-cases (includes tag_id w.device_tag_ids)) [
  | inl present ↦ rw present (
    rw (includes-filter-differs tag_id tag_id w.device_tag_ids, text_eq_refl tag_id),
    ground (
      arith,
      text_eq→eq tag_id other_id,
      includes-filter-differs tag_id other_id w.device_tag_ids,
    ),
  )
  | inr missing ↦ rw missing (
    rw (includes-append_one tag_id tag_id w.device_tag_ids, missing, text_eq_refl tag_id),
    ground
        (arith, text_eq→eq tag_id other_id, includes-append_one tag_id other_id w.device_tag_ids),
  )
]
