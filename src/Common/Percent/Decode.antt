-- ===== src/Common/Percent/Decode.antt =====
-- Percent decoding and UTF-8, as a reader of a URI does it, against `encodeURIComponent`.
use Prim.Native.Nat.{suc, zero, ℕ, ◌%◌, ◌*◌, ◌+◌, ◌-◌, ◌/◌, ◌<◌}
use mathlib.Core.Bool.{Bool, false, true, ◌&&◌, ◌||◌}
use mathlib.Core.List.{List, [], map, ◌++◌, ◌∷◌}
use mathlib.Core.Logic.{inl, inr}
use mathlib.Core.Option.{Option, none, some, some-injective}
use mathlib.Core.Path.{ap, refl, sym, ◌∙◌, ◌≡◌}
use native.Mathlib.Omega.{arith}
use rustdesk_plus.Common.Lists.{All}
use rustdesk_plus.Common.Percent.{
  IsByte, code_points, encode_bytes, encode_component, encode_points, hex_digit, is_component_safe,
  is_high, is_low, percent, percent_byte, utf8, utf8-bytes,
}
use rustdesk_plus.Common.Tests.{Bool-cases, Option-cases, if◌then◌else◌, ltb, ◌==◌}
use rustdesk_plus.Common.Text.{Text}

abbrev pub hex_value : ℕ → ℕ
hex_value c = if ltb c 58 then c - b'0' else c - 55

unfoldable pub unpercent : Text → List ℕ
unpercent [] = []
unpercent (c ∷ []) = c ∷ []
unpercent (c ∷ d ∷ []) = c ∷ d ∷ []
unpercent (c ∷ d ∷ e ∷ s) = elim (c == percent) [
  | true ↦ (hex_value d * 16 + hex_value e) ∷ unpercent s
  | false ↦ c ∷ unpercent (d ∷ e ∷ s)
]

-- How many bytes follow the first one of a code point above 127, and what that one adds.
abbrev pub following : ℕ → ℕ
following b = if ltb b 224 then 1 else if ltb b 240 then 2 else 3

abbrev pub lead : ℕ → ℕ
lead b = if ltb b 224 then b - 192 else if ltb b 240 then b - 224 else b - 240

-- The code points, where `k` bytes are still to come of one whose first bytes gave `acc`.
unfoldable pub read_utf8 : ℕ → ℕ → List ℕ → List ℕ
read_utf8 k acc [] = []
read_utf8 zero acc (b ∷ bs) = elim (ltb b 128) [
  | true ↦ b ∷ read_utf8 0 0 bs
  | false ↦ read_utf8 (following b) (lead b) bs
]
read_utf8 (suc zero) acc (b ∷ bs) = (acc * 64 + (b - 128)) ∷ read_utf8 0 0 bs
read_utf8 (suc (suc k)) acc (b ∷ bs) = read_utf8 (suc k) (acc * 64 + (b - 128)) bs

-- `decodeURIComponent`, as code points, on what `encodeURIComponent` gives.
unfoldable pub decode_component : Text → List ℕ
unfolding unpercent read_utf8
decode_component t = read_utf8 0 0 (unpercent t)

hex_value-hex_digit : (n : ℕ) → n < 16 → hex_value (hex_digit n) ≡ n
hex_value-hex_digit n h = ground arith

pub unpercent_plain :
    (c : ℕ) (s : Text) → (c == percent) ≡ false → unpercent (c ∷ s) ≡ c ∷ unpercent s
unfolding unpercent
unpercent_plain c [] h = refl
unpercent_plain c (d ∷ []) h = refl
unpercent_plain c (d ∷ e ∷ s) h = ground arith

component_safe-percent : (c : ℕ) → is_component_safe c ≡ true → (c == percent) ≡ false
unfolding is_component_safe
component_safe-percent c h = ground arith

unpercent-percent_byte :
    (b : ℕ) (s : Text) → b < 256 → unpercent (percent_byte b ++ s) ≡ b ∷ unpercent s
unfolding unpercent percent_byte
unpercent-percent_byte b s h =
    let high = hex_value-hex_digit (b / 16) (omega (arith, h)) in
    let low = hex_value-hex_digit (b % 16) (omega arith) in
    rw (high, low) (ap (λ c. c ∷ unpercent s) (omega arith))

-- Bytes that are encoded are read back, before anything, where the percent sign is not safe.
pub unpercent-encode_bytes :
    (safe : ℕ → Bool)
    → ((c : ℕ) → safe c ≡ true → (c == percent) ≡ false)
    → (bs : List ℕ) (s : Text) → All IsByte bs
    → unpercent (encode_bytes safe bs ++ s) ≡ bs ++ unpercent s
unfolding encode_bytes
unpercent-encode_bytes safe not_percent [] s h = refl
unpercent-encode_bytes safe not_percent (b ∷ bs) s h = elim (Bool-cases (safe b)) [
  | inl kept ↦ rw kept (
      unpercent_plain b _ (not_percent b kept)
      ∙ ap (λ r. b ∷ r) (unpercent-encode_bytes safe not_percent bs s h.1))
  | inr other ↦ rw other (
      unpercent-percent_byte b _ h.0
      ∙ ap (λ r. b ∷ r) (unpercent-encode_bytes safe not_percent bs s h.1))
]

-- Below the end of Unicode.
abbrev pub IsPoint : ℕ → Type 0
IsPoint c = c < 1114112

pub read_utf8-utf8 :
    (c : ℕ) (bs : List ℕ) → IsPoint c → read_utf8 0 0 (utf8 c ++ bs) ≡ c ∷ read_utf8 0 0 bs
unfolding read_utf8 utf8
read_utf8-utf8 c bs h = ground arith

abbrev pub IsPointOrNone : Option ℕ → Type 0
IsPointOrNone none = Unit
IsPointOrNone (some c) = IsPoint c

-- A unit of UTF-16, as the texts of the program have them.
abbrev pub IsUnit : ℕ → Type 0
IsUnit c = c < 65536

paired-IsPoint :
    (c d : ℕ)
    → (is_high c && is_low d) ≡ true
    → IsPoint (0x10000 + (c - 0xD800) * 1024 + (d - 0xDC00))
paired-IsPoint c d h = ground arith

single-IsPoint : (c : ℕ) → IsUnit c → IsPointOrNone (if is_high c || is_low c then none else some c)
single-IsPoint c h = ground arith

pub code_points-IsPoint : (s : Text) → All IsUnit s → All IsPointOrNone (code_points s)
unfolding code_points
code_points-IsPoint [] h = tt
code_points-IsPoint (c ∷ []) h = ground arith
code_points-IsPoint (c ∷ d ∷ s) h = elim (Bool-cases (is_high c && is_low d)) [
  | inl pair ↦ rw pair (paired-IsPoint c d pair, code_points-IsPoint s h.1.1)
  | inr single ↦ rw single (single-IsPoint c h.0, code_points-IsPoint (d ∷ s) h.1)
]

unfoldable pub to_units : List ℕ → Text
to_units [] = []
to_units (c ∷ cs) =
    let rest = to_units cs in
    if ltb c 0x10000
    then c ∷ rest
    else (0xD800 + (c - 0x10000) / 1024) ∷ (0xDC00 + (c - 0x10000) % 1024) ∷ rest

pub to_units-code_points :
    (s : Text) (cs : List ℕ) → All IsUnit s → code_points s ≡ map some cs → to_units cs ≡ s
unfolding code_points to_units
to_units-code_points [] [] h e = refl
to_units-code_points [] (c ∷ cs) h e = ground arith
to_units-code_points (c ∷ []) [] h e = ground arith
to_units-code_points (c ∷ []) (p ∷ []) h e = ground arith
to_units-code_points (c ∷ []) (p ∷ q ∷ cs) h e = ground arith
to_units-code_points (c ∷ d ∷ s) [] h e = ground arith
to_units-code_points (c ∷ d ∷ s) (p ∷ cs) h e =
    ground (arith, to_units-code_points s cs h.1.1, to_units-code_points (d ∷ s) cs h.1)

decode-encode_bytes :
    (c : ℕ) (t : Text)
    → IsPoint c
    → decode_component (encode_bytes is_component_safe (utf8 c) ++ t) ≡ c ∷ decode_component t
unfolding decode_component
decode-encode_bytes c t h =
    rw (unpercent-encode_bytes is_component_safe component_safe-percent (utf8 c) t (utf8-bytes c h))
      (read_utf8-utf8 c (unpercent t) h)

decode-nil : decode_component [] ≡ []
unfolding decode_component
decode-nil = refl

decode-encode_points :
    (cs : List (Option ℕ)) (t : Text)
    → All IsPointOrNone cs
    → encode_points cs ≡ some t
    → map some (decode_component t) ≡ cs
unfolding encode_points
decode-encode_points [] t h e = cc (some-injective _ _ e, decode-nil)
decode-encode_points (none ∷ cs) t h e = ground arith
decode-encode_points (some c ∷ cs) t h e = elim (Option-cases (encode_points cs)) [
  | inl fails ↦ absurd (ground arith)
  | inr (u, succeeds) ↦
      let whole = some-injective _ _ (rw succeeds at e) in
      ap (map some) (ap decode_component (sym whole) ∙ decode-encode_bytes c u h.0)
      ∙ ap (λ r. some c ∷ r) (decode-encode_points cs u h.1 succeeds)
]

-- Whatever text is encoded, decoding gives it back.
pub decode-encode_component :
    (s t : Text) → All IsUnit s → encode_component s ≡ some t → to_units (decode_component t) ≡ s
unfolding encode_component
decode-encode_component s t h e =
    to_units-code_points s (decode_component t) h
      (sym (decode-encode_points (code_points s) t (code_points-IsPoint s h) e))
