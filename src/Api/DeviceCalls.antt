-- ===== src/Api/DeviceCalls.antt =====
-- The calls of api.ts for devices, their tags and commands.
use rustdesk_plus.Api.Admin.{
  delete_call, field, get_call, nullable_field, optional_field, post_call, send_call,
}
use rustdesk_plus.Api.Http.{Call, Items, Json, arr, bool, cons, nil, patch, post, str}
use rustdesk_plus.Api.Types.{ExecBody}
use rustdesk_plus.Common.{List, Option, [], map, none, some, ◌++◌, ◌∷◌}
use rustdesk_plus.Common.Text.{Text, text}

abbrev device_path : Text → Text → Text
device_path id rest = text "/admin/devices/" ++ id ++ rest

unfoldable pub get_device : Text → Call
get_device id = get_call (device_path id [])

unfoldable pub delete_device : Text → Call
delete_device id = delete_call (device_path id [])

unfoldable pub restore_device : Text → Call
restore_device id = post_call (device_path id (text "/restore"))

unfoldable pub purge_device : Text → Call
purge_device id = delete_call (device_path id (text "/purge"))

unfoldable pub patch_device : Text → Option Text → Option Text → Call
patch_device id alias description =
    send_call patch (device_path id [])
      (optional_field (text "alias") alias ∷ optional_field (text "description") description ∷ [])

unfoldable pub set_device_branch : Text → Option Text → Call
set_device_branch id branch_id =
    send_call post (device_path id (text "/branch"))
      (nullable_field (text "branch_id") branch_id ∷ [])

unfoldable pub toggle_favorite : Text → Call
toggle_favorite id = post_call (device_path id (text "/favorite"))

unfoldable pub get_stats : Call
get_stats = get_call (text "/admin/stats")

unfoldable pub register_connection_launch : Text → Call
register_connection_launch id = post_call (device_path id (text "/connect"))

unfoldable pub list_device_tags : Text → Call
list_device_tags id = get_call (device_path id (text "/tags"))

unfoldable pub add_device_tag : Text → Text → Call
add_device_tag id tag_id =
    send_call post (device_path id (text "/tags")) (field (text "tag_id") tag_id ∷ [])

unfoldable pub remove_device_tag : Text → Text → Call
remove_device_tag id tag_id = delete_call (device_path id (text "/tags/" ++ tag_id))

unfoldable pub get_all_device_tags : Call
get_all_device_tags = get_call (text "/admin/device-tags")

abbrev pub items : List Json → Items
items [] = nil
items (j ∷ js) = cons j (items js)

abbrev pub texts_field : Text → Option (List Text) → Text × Option Json
texts_field k none = (k, none)
texts_field k (some ts) = (k, some (arr (items (map str ts))))

unfoldable pub exec_command : ExecBody → Call
exec_command b = send_call post (text "/admin/exec") (
    field (text "cmd") b.cmd
    ∷ (text "powershell", some (bool b.powershell))
    ∷ texts_field (text "targets") b.targets
    ∷ optional_field (text "tag_id") b.tag_id
    ∷ [])

unfoldable pub get_exec_results : Text → Call
get_exec_results job_id = get_call (text "/admin/exec/" ++ job_id)
