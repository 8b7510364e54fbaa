-- ===== src/Shell/Entry.antt =====
-- What a login leaves (login/page.tsx).
use rustdesk_plus.Api.Http.{ok}
use rustdesk_plus.Api.Session.{Browser, get_stored_user, get_token, set_stored_user, set_token}
use rustdesk_plus.Common.{[], false, inr, refl, some, true, ◌≡◌, ◌≢◌}
use rustdesk_plus.Common.Text.{starts_with, text, text_eq}
use rustdesk_plus.Shell.Access.{guard_lem, id_given}
use rustdesk_plus.Shell.Guard.{admitted, free_pages, guard, is_free, is_under}
use rustdesk_plus.Shell.Login.{LoginPage, LoginReply, on_login}

abbrev logged_in : LoginReply → Browser → Browser
logged_in r b = record b { token = some r.token; user = some r.user }

on_login_ok :
    (r : LoginReply) (p : LoginPage) (b : Browser)
    → b.window ≡ true
    → r.token ≢ []
    → on_login (ok r) p b ≡ (record p { loading = false }, logged_in r b, some (text "/dashboard"))
unfolding on_login set_token set_stored_user
on_login_ok r p b w n = rw (w, id_given r.token n)

dashboard_free : is_free (text "/dashboard") ≡ true
unfolding is_free free_pages is_under text_eq starts_with
dashboard_free = refl

-- In a browser a login, or the first setup, that succeeds with a token leads to the dashboard,
-- to which the guard admits any user; the user and the token are kept, and the button is usable again.
pub on_login_lem :
    (r : LoginReply) (p : LoginPage) (b : Browser)
    → b.window ≡ true
    → r.token ≢ []
    → let (after, kept, path) = on_login (ok r) p b in
      (after.loading ≡ false)
      × (path ≡ some (text "/dashboard"))
      × (guard kept (text "/dashboard") ≡ admitted)
      × (get_stored_user kept ≡ some r.user)
      × (get_token kept ≡ some r.token)
unfolding get_stored_user get_token
on_login_lem r p b w n = rw (on_login_ok r p b w n) (
  refl,
  refl,
  (guard_lem (logged_in r b) (text "/dashboard") w).1.1
      (id_given r.token n, inr (inr dashboard_free)),
  rw w,
  rw w,
)
