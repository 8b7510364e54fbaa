-- ===== src/Admin/Users/Form.antt =====
-- The form, the list and the dialog of `UsersPage` (users/page.tsx). `locale_date` is
-- `toLocaleDateString` of a time of the server.
use rustdesk_plus.Admin.Users.{UsersPage}
use rustdesk_plus.Api.Types.{Role, User}
use rustdesk_plus.Common.{[], if◌then◌else◌, length, none, not, some, ℕ, ◌++◌, ◌==◌}
use rustdesk_plus.Common.Text.{Text, decimal, text}

pub data UserField : Type 0 where
  email_field password_field name_field role_field : UserField

-- `setField`
unfoldable pub set_field : UserField → Text → UsersPage → UsersPage
set_field email_field v p = record p { form = record p.form { email = v } }
set_field password_field v p = record p { form = record p.form { password = v } }
set_field name_field v p = record p { form = record p.form { name = v } }
set_field role_field v p = record p { form = record p.form { role = v } }

unfoldable pub toggle_user_form : UsersPage → UsersPage
toggle_user_form p = record p { show_form = not p.show_form }

-- The buttons "Redefinir senha" and "Cancelar", and the field of the password.
unfoldable pub ask_password : User → UsersPage → UsersPage
ask_password u p = record p { password_user = some u; new_password = [] }

unfoldable pub type_password : Text → UsersPage → UsersPage
type_password s p = record p { new_password = s }

unfoldable pub cancel_password : UsersPage → UsersPage
cancel_password p = record p { password_user = none; new_password = [] }

abbrev pub many : ℕ → Text
many n = if n == 1 then [] else text "s"

-- The line below the title
unfoldable pub users_line : UsersPage → Text
unfolding decimal
users_line p =
    let n = length p.users in decimal n ++ text " usuário" ++ many n ++ text " cadastrado" ++ many n

pub record UserRow : Type 0 where
  pub name : Text
  pub email : Text
  pub role : Role
  pub made : Text

module _ (locale_date : Text → Text) where
  unfoldable pub user_row : User → UserRow
  user_row u = record {
    name = u.name;
    email = u.email;
    role = u.role;
    made = locale_date u.created_at;
  }
