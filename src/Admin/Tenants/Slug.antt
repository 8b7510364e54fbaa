-- ===== src/Admin/Tenants/Slug.antt =====
-- The slug that `slugify` of tenants/page.tsx makes of a name.
use rustdesk_plus.Admin.Tenants.{all-slugify, dash_spaces, is_slug_char, slugify}
use rustdesk_plus.Common.{[], all, arith, false, filter_of_all, refl, sym, true, ℕ, ◌↔◌, ◌∷◌, ◌≡◌}
use rustdesk_plus.Common.Text.{Text, is_space, lower_unit, to_lower}

lower_unit_slug : (c : ℕ) → is_slug_char c ≡ true → lower_unit c ≡ c ∷ []
unfolding lower_unit
lower_unit_slug c h = ground arith

to_lower_slug : (s : Text) → all is_slug_char s ≡ true → to_lower s ≡ s
unfolding to_lower
to_lower_slug [] h = refl
to_lower_slug (c ∷ s) h = ground (arith, lower_unit_slug c, to_lower_slug s)

is_space_slug : (c : ℕ) → is_slug_char c ≡ true → is_space c ≡ false
unfolding is_space
is_space_slug c h = ground arith

dash_spaces_slug : (s : Text) → all is_slug_char s ≡ true → dash_spaces false s ≡ s
unfolding dash_spaces
dash_spaces_slug [] h = refl
dash_spaces_slug (c ∷ s) h = ground (arith, is_space_slug c, dash_spaces_slug s)

slugify_slug : (s : Text) → all is_slug_char s ≡ true → slugify s ≡ s
unfolding slugify
slugify_slug s h = rw (to_lower_slug s h, dash_spaces_slug s h) (filter_of_all is_slug_char s h)

-- What is made of a name has only small letters, digits and dashes, and nothing is changed by
-- making a slug of it again; a name is its own slug exactly if it has only those.
pub slugify_lem :
    (name : Text)
    → (all is_slug_char (slugify name) ≡ true)
      × (slugify (slugify name) ≡ slugify name)
      × ((slugify name ≡ name) ↔ (all is_slug_char name ≡ true))
slugify_lem name = (
  all-slugify name,
  slugify_slug (slugify name) (all-slugify name),
  (λ same. rw (sym same) (all-slugify name), slugify_slug name),
)
