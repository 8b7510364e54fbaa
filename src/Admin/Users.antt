-- ===== src/Admin/Users.antt =====
-- `UsersPage` (users/page.tsx).
pub mod Form
pub mod View
use rustdesk_plus.Api.Admin.{create_user, delete_user, reset_user_password}
use rustdesk_plus.Api.Http.{Call, Result, ok, thrown}
use rustdesk_plus.Api.Types.{User}
use rustdesk_plus.Common.{Bool, List, Option, [], false, if◌then◌else◌, none, some, true}
use rustdesk_plus.Common.Text.{Text, text, trim}

pub record UserForm : Type 0 where
  pub email : Text
  pub password : Text
  pub name : Text
  pub role : Text

pub record UsersPage : Type 0 where
  pub users : List User
  pub error : Option Text
  pub show_form : Bool
  pub form : UserForm
  pub saving : Bool
  pub password_user : Option User
  pub new_password : Text

abbrev pub empty_form : UserForm
empty_form = record { email = []; password = []; name = []; role = text "operator" }

unfoldable pub on_users : Result (List User) → UsersPage → UsersPage
on_users (ok us) p = record p { users = us }
on_users (thrown message) p = record p { error = some message }

-- `onSubmit` up to its await, and its rest with the users loaded again.
unfoldable pub on_submit_user : UsersPage → UsersPage × Call
unfolding create_user trim
on_submit_user p = (
  record p { saving = true; error = none },
  create_user (trim p.form.email) p.form.password (trim p.form.name) p.form.role,
)

unfoldable pub on_user_created : Result User → Result (List User) → UsersPage → UsersPage
unfolding on_users
on_user_created (ok u) again p =
    record (on_users again (record p { form = empty_form; show_form = false })) { saving = false }
on_user_created (thrown message) again p = record p { error = some message; saving = false }

unfoldable pub on_delete_user : Bool → Text → UsersPage → UsersPage × Option Call
unfolding delete_user
on_delete_user confirmed id p =
    if confirmed then (record p { error = none }, some (delete_user id)) else (p, none)

-- Its rest with the users loaded again.
unfoldable pub on_user_deleted : Result Bool → Result (List User) → UsersPage → UsersPage
unfolding on_users
on_user_deleted (ok answer) again p = on_users again p
on_user_deleted (thrown message) again p = record p { error = some message }

-- `onResetPassword` up to its await, and its rest.
unfoldable pub on_reset_password : UsersPage → UsersPage × Option Call
unfolding reset_user_password
on_reset_password p = elim p.password_user [
  | none ↦ (p, none)
  | some u ↦
      (record p { saving = true; error = none }, some (reset_user_password u.id p.new_password))
]

unfoldable pub on_password_reset : Result Bool → UsersPage → UsersPage
on_password_reset (ok u) p = record p { password_user = none; new_password = []; saving = false }
on_password_reset (thrown message) p = record p { error = some message; saving = false }
