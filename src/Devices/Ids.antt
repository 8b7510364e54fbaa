-- ===== src/Devices/Ids.antt =====
-- RustDesk ids and the start of a connection (devices/page.tsx).
use mathlib.Core.Option
use rustdesk_plus.Api.Http.{plain}
use rustdesk_plus.Common.{
  All, All-mono, Bool, Bool-cases, List, Option, [], all, arith, filter, if◌then◌else◌, inl, inr,
  is_empty, leb, none, not, refl, some, true, ℕ, ◌&&◌, ◌++◌, ◌==◌, ◌∷◌, ◌≡◌,
}
use rustdesk_plus.Common.Percent.{
  IsPlain, encode_component, encode_component-chars, is_component_char,
}
use rustdesk_plus.Common.Percent.Decode.{
  IsUnit, decode-encode_component, decode_component, to_units,
}
use rustdesk_plus.Common.Text.{Text, or_text, text, trim, truthy}

abbrev pub is_digit : ℕ → Bool
is_digit c = leb b'0' c && leb c b'9'

abbrev pub space : ℕ
space = 32

-- `id.replace(/(\d{3})(?=\d)/g, "$1 ")`: three digits before another one get a space behind them,
-- and the search goes on after them.
unfoldable pub fmt_id : Text → Text
fmt_id [] = []
fmt_id (a ∷ []) = a ∷ []
fmt_id (a ∷ b ∷ []) = a ∷ b ∷ []
fmt_id (a ∷ b ∷ c ∷ []) = a ∷ b ∷ c ∷ []
fmt_id (a ∷ b ∷ c ∷ d ∷ s) =
    let behind = fmt_id (d ∷ s) in
    let one_on = fmt_id (b ∷ c ∷ d ∷ s) in
    if is_digit a && is_digit b && is_digit c && is_digit d
    then a ∷ b ∷ c ∷ space ∷ behind
    else a ∷ one_on

-- `/^\d+$/.test(id.trim())`
unfoldable pub is_numeric_id : Text → Bool
unfolding trim
is_numeric_id id = not (is_empty (trim id)) && all is_digit (trim id)

-- What `connectDevice` does outside the page: it reports the launch, whose failure is ignored, and
-- opens an address.
pub data ConnectAction : Type 0 where
  register_launch : Text → ConnectAction
  open_window : Text → ConnectAction

-- The address, where the password can be encoded.
unfoldable pub connect_uri : Text → Option Text → Option Text
unfolding encode_component
connect_uri rustdesk_id password =
    if truthy password
    then Option.map (λ p. text "rustdesk://" ++ rustdesk_id ++ text "?password=" ++ p)
        (encode_component (or_text password []))
    else some (text "rustdesk://" ++ rustdesk_id)

abbrev opened : Option Text → List ConnectAction
opened none = []
opened (some uri) = open_window uri ∷ []

unfoldable pub connect_device : Text → Text → Option Text → List ConnectAction
unfolding is_numeric_id connect_uri
connect_device device_id rustdesk_id password =
    if is_numeric_id rustdesk_id
    then register_launch device_id ∷ opened (connect_uri rustdesk_id password)
    else []

abbrev pub is_no_space : ℕ → Bool
is_no_space c = not (c == space)

-- The id that is shown is the id, with spaces only added.
pub filter-fmt_id : (id : Text) → filter is_no_space (fmt_id id) ≡ filter is_no_space id
unfolding fmt_id
filter-fmt_id [] = refl
filter-fmt_id (a ∷ []) = refl
filter-fmt_id (a ∷ b ∷ []) = refl
filter-fmt_id (a ∷ b ∷ c ∷ []) = refl
filter-fmt_id (a ∷ b ∷ c ∷ d ∷ s) =
    elim (Bool-cases (is_digit a && is_digit b && is_digit c && is_digit d)) [
      | inl group ↦ rw (group, filter-fmt_id (d ∷ s))
      | inr single ↦ rw (single, filter-fmt_id (b ∷ c ∷ d ∷ s))
    ]

connect_uri_given :
    (rustdesk_id : Text) (c : ℕ) (s : Text) {t : Text}
    → encode_component (c ∷ s) ≡ some t
    → connect_uri rustdesk_id (some (c ∷ s))
      ≡ some (text "rustdesk://" ++ rustdesk_id ++ text "?password=" ++ t)
unfolding connect_uri
connect_uri_given rustdesk_id c s e = rw e

IsPlain-IsUnit : (c : ℕ) → IsPlain c → IsUnit c
IsPlain-IsUnit c h = omega (arith, h)

-- A connection to a device whose id is a number is reported and then opened, with the password as
-- the only parameter: it is encoded, nothing of it can end the parameter, and decoding it gives
-- the password again. The password has a character and no surrogates.
pub connect_device-password :
    (device_id rustdesk_id : Text) (c : ℕ) (s : Text)
    → is_numeric_id rustdesk_id ≡ true
    → All IsPlain (c ∷ s)
    → (t : Text) × (connect_device device_id rustdesk_id (some (c ∷ s))
        ≡ register_launch device_id
          ∷ open_window (text "rustdesk://" ++ rustdesk_id ++ text "?password=" ++ t)
          ∷ [])
      × (all is_component_char t ≡ true)
      × (to_units (decode_component t) ≡ c ∷ s)
unfolding connect_device
connect_device-password device_id rustdesk_id c s numeric plain =
    let (t, e, chars) = encode_component-chars (c ∷ s) plain in
    let units = All-mono IsPlain-IsUnit (c ∷ s) plain in
    (
      t,
      rw (numeric, connect_uri_given rustdesk_id c s e),
      chars,
      decode-encode_component (c ∷ s) t units e,
    )
