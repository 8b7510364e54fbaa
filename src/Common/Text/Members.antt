-- ===== src/Common/Text/Members.antt =====
-- Texts that are taken out of a list, or put in.
use mathlib.Core.Bool.{Bool, false, not, ◌||◌}
use mathlib.Core.List.{List, [], ◌++◌, ◌∷◌}
use mathlib.Core.Path.{◌≡◌}
use native.Mathlib.Omega.{arith}
use rustdesk_plus.Common.Lists.{filter}
use rustdesk_plus.Common.Tests.{if◌then◌else◌}
use rustdesk_plus.Common.Text.{Text, includes, text_eq}
use rustdesk_plus.Common.Text.Equality.{text_eq_refl, text_eq_sym, text_eq→eq}

abbrev pub differs : Text → Text → Bool
differs u v = not (text_eq v u)

pub includes-filter-differs :
    (u v : Text) (xs : List Text)
    → includes v (filter (differs u) xs) ≡ (if text_eq u v then false else includes v xs)
unfolding includes
includes-filter-differs u v [] = ground arith
includes-filter-differs u v (x ∷ xs) = ground (
  arith,
  text_eq→eq x u,
  text_eq→eq x v,
  text_eq_sym u v,
  text_eq_refl u,
  includes-filter-differs u v xs,
)

pub includes-append_one :
    (u v : Text) (xs : List Text) → includes v (xs ++ u ∷ []) ≡ (includes v xs || text_eq u v)
unfolding includes
includes-append_one u v [] = ground arith
includes-append_one u v (x ∷ xs) = ground (arith, includes-append_one u v xs)
