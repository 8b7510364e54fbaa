-- ===== src/Admin/Users/View.antt =====
-- What `UsersPage` draws (users/page.tsx).
use rustdesk_plus.Admin.Buttons.{Submit, submit_button, toggle_label}
use rustdesk_plus.Admin.Users.{UserForm, UsersPage}
use rustdesk_plus.Admin.Users.Form.{UserRow, user_row, users_line}
use rustdesk_plus.Api.Types.{User}
use rustdesk_plus.Common.{List, Option, [], if◌then◌else◌, is_empty, map, none, some, ◌++◌, ◌∷◌}
use rustdesk_plus.Common.Text.{Text, text}

unfoldable pub roles : List Text
roles = text "admin" ∷ text "operator" ∷ text "viewer" ∷ []

pub record UserFormView : Type 0 where
  pub values : UserForm
  pub options : List Text
  pub send : Submit

unfoldable pub user_form_view : UsersPage → UserFormView
unfolding roles
user_form_view p = record {
  values = p.form;
  options = roles;
  send = submit_button p.saving (text "Salvar");
}

pub record PasswordView : Type 0 where
  pub who : Text
  pub value : Text
  pub send : Submit

abbrev pub password_view_of : UsersPage → User → PasswordView
password_view_of p u = record {
  who = u.name ++ text " · " ++ u.email;
  value = p.new_password;
  send = submit_button p.saving (text "Salvar nova senha");
}

unfoldable pub password_view : UsersPage → Option PasswordView
password_view p = elim p.password_user [ none ↦ none | some u ↦ some (password_view_of p u) ]

pub record UsersView : Type 0 where
  pub line : Text
  pub toggle : Text
  pub user_form : Option UserFormView
  pub error : Option Text
  pub password_form : Option PasswordView
  pub rows : List UserRow
  pub note : Option Text

module _ (locale_date : Text → Text) where
  unfoldable pub users_view : UsersPage → UsersView
  unfolding users_line user_form_view password_view user_row
  users_view p = record {
    line = users_line p;
    toggle = toggle_label p.show_form (text "+ Novo usuário");
    user_form = if p.show_form then some (user_form_view p) else none;
    error = p.error;
    password_form = password_view p;
    rows = map (user_row locale_date) p.users;
    note = if is_empty p.users then some (text "Nenhum usuário cadastrado.") else none;
  }
