-- ===== src/Shell/Frame.antt =====
-- What the frame of the protected pages draws (layout.tsx): the links, the user and the banner.
use rustdesk_plus.Api.Types.{Role, SetupStatus, User, admin, operator, super_admin, viewer}
use rustdesk_plus.Common.{
  Bool, Bool-cases, List, Option, [], all, arith, false, if◌then◌else◌, inl, inr, map, none, not,
  or_default, refl, some, true, ◌&&◌, ◌||◌, ◌∷◌, ◌≡◌,
}
use rustdesk_plus.Common.Text.{Text, includes, starts_with, text, text_eq, truthy}
use rustdesk_plus.Common.Text.Equality.{text_eq→eq}
use rustdesk_plus.Shell.Guard.{Layout, is_super}
use rustdesk_plus.Shell.Menu.{all_nav_items, nav_items, super_admin_nav_items, visible_nav_items}

-- The answer of `getSetupStatus`
unfoldable pub on_agent : SetupStatus → Layout → Layout
on_agent s l = record l { agent_enabled = or_default s.agent_enabled false }

unfoldable pub is_active : Text → Text → Bool
unfolding text_eq starts_with
is_active path href =
    text_eq path href || (not (text_eq href (text "/dashboard")) && starts_with href path)

abbrev role_text : Role → Text
role_text super_admin = text "Super Admin"
role_text admin = text "admin"
role_text operator = text "operator"
role_text viewer = text "viewer"

pub record FrameView : Type 0 where
  pub links : List (Text × Bool)
  pub user_name : Option Text
  pub user_role : Option Text
  pub banner : Option Text

abbrev user_name_of : Option User → Option Text
user_name_of none = none
user_name_of (some u) = some u.name

abbrev user_role_of : Option User → Option Text
user_role_of none = none
user_role_of (some u) = some (role_text u.role)

-- Nothing is drawn until a first page is admitted.
unfoldable pub frame_view : Option User → Text → Layout → Option FrameView
unfolding visible_nav_items is_active
frame_view user path l =
    if not l.ready
    then none
    else some (record {
      links =
          map (λ href. (href, is_active path href))
            (visible_nav_items l.agent_enabled (is_super user) l.active_tenant_name);
      user_name = user_name_of user;
      user_role = user_role_of user;
      banner = if is_super user && truthy l.active_tenant_name then l.active_tenant_name else none;
    })

starts_with_refl : (s : Text) → starts_with s s ≡ true
unfolding starts_with
starts_with_refl [] = refl
starts_with_refl (c ∷ s) = ground (arith, starts_with_refl s)

starts_with_chain :
    (h k s : Text)
    → starts_with h s ≡ true
    → starts_with k s ≡ true
    → (starts_with h k || starts_with k h) ≡ true
unfolding starts_with
starts_with_chain [] k s a b = refl
starts_with_chain (c ∷ h) [] s a b = ground arith
starts_with_chain (c ∷ h) (d ∷ k) [] a b = cc
starts_with_chain (c ∷ h) (d ∷ k) (e ∷ s) a b = ground (arith, starts_with_chain h k s)

is_active-starts : (path href : Text) → is_active path href ≡ true → starts_with href path ≡ true
unfolding is_active
is_active-starts path href h = elim (Bool-cases (text_eq path href)) [
  | inl same ↦ rw (text_eq→eq path href same) (starts_with_refl href)
  | inr under ↦ ground arith
]

abbrev is_apart : Text → Text → Bool
is_apart h k = text_eq h k || not (starts_with h k || starts_with k h)

abbrev all_apart : List Text → Bool
all_apart xs = all (λ h. all (is_apart h) xs) xs

all-includes :
    (f : Text → Bool) (x : Text) (xs : List Text)
    → all f xs ≡ true
    → includes x xs ≡ true
    → f x ≡ true
unfolding includes
all-includes f x [] a h = cc
all-includes f x (y ∷ xs) a h = ground (arith, text_eq→eq y x, all-includes f x xs)

all_nav_items-apart :
    (super : Bool) (name : Option Text) → all_apart (all_nav_items super name) ≡ true
unfolding all_nav_items nav_items super_admin_nav_items text_eq starts_with
all_nav_items-apart false name = refl
all_nav_items-apart true none = refl
all_nav_items-apart true (some []) = refl
all_nav_items-apart true (some (c ∷ s)) = refl

-- On any page at most one link of the menu is drawn as the active one.
pub is_active_unique :
    (super : Bool) (name : Option Text) (path h k : Text)
    → includes h (all_nav_items super name) ≡ true
    → includes k (all_nav_items super name) ≡ true
    → is_active path h ≡ true
    → is_active path k ≡ true
    → h ≡ k
is_active_unique super name path h k in_h in_k a b =
    let items = all_nav_items super name in
    let row =
      all-includes (λ x. all (is_apart x) items) h items (all_nav_items-apart super name) in_h in
    let apart = all-includes (is_apart h) k items row in_k in
    let chain =
      starts_with_chain h k path (is_active-starts path h a) (is_active-starts path k b) in
    text_eq→eq h k (ground arith)
