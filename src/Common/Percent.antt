-- ===== src/Common/Percent.antt =====
-- Percent encoding, as in `encodeURIComponent` and `URLSearchParams`: the bytes of UTF-8, those of
-- the safe set as they are.
pub mod Decode
pub mod Form
pub mod Query
use mathlib.Core.Option
use Prim.Native.Nat.{ℕ, ◌%◌, ◌*◌, ◌+◌, ◌-◌, ◌/◌, ◌<◌}
use mathlib.Core.Bool.{Bool, true, ◌&&◌, ◌||◌}
use mathlib.Core.List.{List, [], map, ◌++◌, ◌∷◌}
use mathlib.Core.Logic.{inl, inr}
use mathlib.Core.Option.{Option, none, some}
use mathlib.Core.Path.{refl, ◌≡◌}
use native.Mathlib.Omega.{arith}
use rustdesk_plus.Common.Lists.{All, all}
use rustdesk_plus.Common.Tests.{Bool-cases, if◌then◌else◌, leb, ltb, ◌==◌}
use rustdesk_plus.Common.Text.{Text, text}

abbrev pub hex_digit : ℕ → ℕ
hex_digit n = if ltb n 10 then b'0' + n else b'A' + (n - 10)

abbrev pub percent : ℕ
percent = 37

unfoldable pub percent_byte : ℕ → Text
percent_byte byte = percent ∷ hex_digit (byte / 16) ∷ hex_digit (byte % 16) ∷ []

abbrev pub is_high : ℕ → Bool
is_high c = leb 0xD800 c && leb c 0xDBFF

abbrev pub is_low : ℕ → Bool
is_low c = leb 0xDC00 c && leb c 0xDFFF

abbrev pub continuation : ℕ → ℕ
continuation c = 128 + c % 64

-- The bytes of a code point.
unfoldable pub utf8 : ℕ → List ℕ
utf8 c =
    if ltb c 0x80
    then c ∷ []
    else if ltb c 0x800
    then (192 + c / 64) ∷ continuation c ∷ []
    else if ltb c 0x10000
    then (224 + c / 4096) ∷ continuation (c / 64) ∷ continuation c ∷ []
    else (240 + c / 262144) ∷ continuation (c / 4096) ∷ continuation (c / 64) ∷ continuation c ∷ []

-- The code points of a text; a surrogate without its other half is `none`.
unfoldable pub code_points : Text → List (Option ℕ)
code_points [] = []
code_points (c ∷ []) = (if is_high c || is_low c then none else some c) ∷ []
code_points (c ∷ d ∷ s) =
    let paired = code_points s in
    let single = code_points (d ∷ s) in
    if is_high c && is_low d
    then some (0x10000 + (c - 0xD800) * 1024 + (d - 0xDC00)) ∷ paired
    else (if is_high c || is_low c then none else some c) ∷ single

abbrev pub is_alphanumeric : ℕ → Bool
is_alphanumeric c = leb b'a' c && leb c b'z' || leb b'A' c && leb c b'Z' || leb b'0' c && leb c b'9'

module _ (safe : ℕ → Bool) where
  unfoldable pub encode_bytes : List ℕ → Text
  unfolding percent_byte
  encode_bytes [] = []
  encode_bytes (b ∷ bs) = (if safe b then b ∷ [] else percent_byte b) ++ encode_bytes bs

-- The characters that `encodeURIComponent` leaves: letters, digits and - _ . ! ~ * ' ( )
unfoldable pub is_component_safe : ℕ → Bool
is_component_safe c =
    is_alphanumeric c
    || c == 45
    || c == 95
    || c == 46
    || c == 33
    || c == 126
    || c == 42
    || c == 39
    || c == 40
    || c == 41

-- `encodeURIComponent`; `none` where it throws.
unfoldable pub encode_points : List (Option ℕ) → Option Text
unfolding encode_bytes is_component_safe utf8
encode_points [] = some []
encode_points (none ∷ cs) = none
encode_points (some c ∷ cs) =
    Option.map (λ s. encode_bytes is_component_safe (utf8 c) ++ s) (encode_points cs)

unfoldable pub encode_component : Text → Option Text
unfolding encode_points code_points
encode_component s = encode_points (code_points s)

-- The characters that `URLSearchParams` leaves: letters, digits and * - . _
unfoldable pub is_form_safe : ℕ → Bool
is_form_safe c = is_alphanumeric c || c == 42 || c == 45 || c == 46 || c == 95

-- A value of a query: a space is a plus, a lone surrogate the replacement character.
unfoldable pub encode_form_points : List (Option ℕ) → Text
unfolding encode_bytes is_form_safe utf8
encode_form_points [] = []
encode_form_points (none ∷ cs) = encode_bytes is_form_safe (utf8 0xFFFD) ++ encode_form_points cs
encode_form_points (some c ∷ cs) =
    (if c == 32 then 43 ∷ [] else encode_bytes is_form_safe (utf8 c)) ++ encode_form_points cs

unfoldable pub encode_form : Text → Text
unfolding encode_form_points code_points
encode_form s = encode_form_points (code_points s)

-- `params.toString()`
unfoldable pub query_string : List (Text × Text) → Text
unfolding encode_form
query_string [] = []
query_string ((k, v) ∷ []) = encode_form k ++ text "=" ++ encode_form v
query_string ((k, v) ∷ p ∷ ps) =
    encode_form k ++ text "=" ++ encode_form v ++ text "&" ++ query_string (p ∷ ps)

-- What is left of the safe characters, and of a percent sign and two digits.
abbrev pub is_kept : (ℕ → Bool) → ℕ → Bool
is_kept safe c = safe c || c == percent

abbrev pub is_component_char : ℕ → Bool
is_component_char = is_kept is_component_safe

hex_digit-alphanumeric : (n : ℕ) → n < 16 → is_alphanumeric (hex_digit n) ≡ true
hex_digit-alphanumeric n h = ground arith

abbrev pub IsByte : ℕ → Type 0
IsByte b = b < 256

pub utf8-bytes : (c : ℕ) → c < 1114112 → All IsByte (utf8 c)
unfolding utf8
utf8-bytes c h = ground arith

-- Where the letters and digits are safe.
module _ (safe : ℕ → Bool) (alnum : (c : ℕ) → is_alphanumeric c ≡ true → safe c ≡ true) where
  safe-is_kept : (c : ℕ) → safe c ≡ true → is_kept safe c ≡ true
  safe-is_kept c h = rw h refl

  percent-is_kept : is_kept safe percent ≡ true
  percent-is_kept = ground arith

  hex_digit-is_kept : (n : ℕ) → n < 16 → is_kept safe (hex_digit n) ≡ true
  hex_digit-is_kept n h =
      safe-is_kept (hex_digit n) (alnum (hex_digit n) (hex_digit-alphanumeric n h))

  pub encode_bytes-is_kept :
      (bs : List ℕ) → All IsByte bs → all (is_kept safe) (encode_bytes safe bs) ≡ true
  unfolding encode_bytes percent_byte
  encode_bytes-is_kept [] h = refl
  encode_bytes-is_kept (b ∷ bs) h = elim (Bool-cases (safe b)) [
    | inl kept ↦ rw (kept, safe-is_kept b kept, encode_bytes-is_kept bs h.1)
    | inr other ↦ rw (
      other,
      percent-is_kept,
      hex_digit-is_kept (b / 16) (omega (arith, h.0)),
      hex_digit-is_kept (b % 16) (omega arith),
      encode_bytes-is_kept bs h.1,
    )
  ]

component_safe-alphanumeric : (c : ℕ) → is_alphanumeric c ≡ true → is_component_safe c ≡ true
unfolding is_component_safe
component_safe-alphanumeric c h = ground arith

pub all-append :
    {A : Type 0} (p : A → Bool) (xs ys : List A) → all p (xs ++ ys) ≡ (all p xs && all p ys)
all-append p [] ys = refl
all-append p (x ∷ xs) ys = ground (arith, all-append p xs ys)

-- Below the surrogates.
abbrev pub IsPlain : ℕ → Type 0
IsPlain c = c < 0xD800

pub code_points-plain : (s : Text) → All IsPlain s → code_points s ≡ map some s
unfolding code_points
code_points-plain [] h = refl
code_points-plain (c ∷ []) h = ground arith
code_points-plain (c ∷ d ∷ s) h = ground (arith, code_points-plain (d ∷ s) h.1)

encode_points-plain :
    (s : Text)
    → All IsPlain s
    → (t : Text) × (encode_points (map some s) ≡ some t) × (all is_component_char t ≡ true)
unfolding encode_points
encode_points-plain [] h = ([], refl, refl)
encode_points-plain (c ∷ s) h =
    let (t, e, k) = encode_points-plain s h.1 in
    (
      encode_bytes is_component_safe (utf8 c) ++ t,
      rw e,
      rw (
        all-append is_component_char (encode_bytes is_component_safe (utf8 c)) t,
        k,
        encode_bytes-is_kept is_component_safe component_safe-alphanumeric (utf8 c)
            (utf8-bytes c (omega (arith, h.0))),
      ),
    )

-- A text without surrogates can be encoded, into safe characters, percent signs and digits.
pub encode_component-chars :
    (s : Text)
    → All IsPlain s
    → (t : Text) × (encode_component s ≡ some t) × (all is_component_char t ≡ true)
unfolding encode_component
encode_component-chars s h = rw (code_points-plain s h) (encode_points-plain s h)
