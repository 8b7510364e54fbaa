-- ===== src/Common/Percent/Form.antt =====
-- A query as the server reads it, against the text of `URLSearchParams`.
use Prim.Native.Nat.{ℕ}
use mathlib.Core.Bool.{Bool, false, true, ◌||◌}
use mathlib.Core.List.{List, [], map, ◌++◌, ◌∷◌}
use mathlib.Core.Logic.{inl, inr}
use mathlib.Core.Option.{Option, none, some}
use mathlib.Core.Path.{ap, refl, ◌∙◌, ◌≡◌}
use native.Mathlib.Omega.{arith}
use rustdesk_plus.Common.Lists.{All, all, all_mono}
use rustdesk_plus.Common.Percent.{
  IsByte, all-append, code_points, encode_bytes, encode_bytes-is_kept, encode_form,
  encode_form_points, is_alphanumeric, is_form_safe, is_kept, percent, utf8, utf8-bytes,
}
use rustdesk_plus.Common.Percent.Decode.{
  IsPoint, IsPointOrNone, IsUnit, code_points-IsPoint, read_utf8, read_utf8-utf8, to_units,
  to_units-code_points, unpercent, unpercent-encode_bytes, unpercent_plain,
}
use rustdesk_plus.Common.Tests.{Bool-cases, if◌then◌else◌, ◌==◌}
use rustdesk_plus.Common.Text.{Text}

abbrev pub plus : ℕ
plus = 43

abbrev pub unplus : Text → Text
unplus [] = []
unplus (c ∷ s) = (if c == plus then 32 else c) ∷ unplus s

-- The code points of a value of a form.
unfoldable pub decode_form : Text → List ℕ
unfolding unpercent read_utf8
decode_form t = read_utf8 0 0 (unpercent (unplus t))

abbrev pub is_form_char : ℕ → Bool
is_form_char c = is_kept is_form_safe c || c == plus

form_safe-alphanumeric : (c : ℕ) → is_alphanumeric c ≡ true → is_form_safe c ≡ true
unfolding is_form_safe
form_safe-alphanumeric c h = ground arith

form_safe-percent : (c : ℕ) → is_form_safe c ≡ true → (c == percent) ≡ false
unfolding is_form_safe
form_safe-percent c h = ground arith

kept-plus : (c : ℕ) → is_kept is_form_safe c ≡ true → (c == plus) ≡ false
unfolding is_form_safe
kept-plus c h = ground arith

unplus_kept : (s t : Text) → all (is_kept is_form_safe) s ≡ true → unplus (s ++ t) ≡ s ++ unplus t
unplus_kept [] t h = refl
unplus_kept (c ∷ s) t h = ground (arith, kept-plus c, unplus_kept s t)

-- Bytes that are encoded are read back, before anything.
unplus-encode_bytes :
    (bs : List ℕ) (t : Text)
    → All IsByte bs
    → unpercent (unplus (encode_bytes is_form_safe bs ++ t)) ≡ bs ++ unpercent (unplus t)
unplus-encode_bytes bs t h =
    let kept = encode_bytes-is_kept is_form_safe form_safe-alphanumeric bs h in
    rw (unplus_kept (encode_bytes is_form_safe bs) t kept)
      (unpercent-encode_bytes is_form_safe form_safe-percent bs (unplus t) h)

-- What the browser sends for a lone surrogate.
abbrev pub scalar : Option ℕ → ℕ
scalar none = 0xFFFD
scalar (some c) = c

decode_form-point :
    (c : ℕ) (t : Text)
    → IsPoint c
    → decode_form (encode_bytes is_form_safe (utf8 c) ++ t) ≡ c ∷ decode_form t
unfolding decode_form
decode_form-point c t h =
    rw (unplus-encode_bytes (utf8 c) t (utf8-bytes c h)) (read_utf8-utf8 c (unpercent (unplus t)) h)

decode_form-space : (t : Text) → decode_form (plus ∷ t) ≡ 32 ∷ decode_form t
unfolding decode_form read_utf8
decode_form-space t = ap (read_utf8 0 0) (unpercent_plain 32 (unplus t) refl)

decode_form-nil : decode_form [] ≡ []
unfolding decode_form
decode_form-nil = refl

blank_eq : (c : ℕ) → (c == 32) ≡ true → 32 ≡ c
blank_eq c h = ground arith

decode-encode_form_points :
    (cs : List (Option ℕ))
    → All IsPointOrNone cs
    → decode_form (encode_form_points cs) ≡ map scalar cs
unfolding encode_form_points
decode-encode_form_points [] h = decode_form-nil
decode-encode_form_points (none ∷ cs) h =
    decode_form-point 0xFFFD _ (omega arith)
    ∙ ap (λ r. 0xFFFD ∷ r) (decode-encode_form_points cs h.1)
decode-encode_form_points (some c ∷ cs) h = elim (Bool-cases (c == 32)) [
  | inl blank ↦ rw blank (
      decode_form-space _
      ∙ ap (λ k. k ∷ decode_form (encode_form_points cs)) (blank_eq c blank)
      ∙ ap (λ r. c ∷ r) (decode-encode_form_points cs h.1))
  | inr other ↦
      rw other (decode_form-point c _ h.0 ∙ ap (λ r. c ∷ r) (decode-encode_form_points cs h.1))
]

-- No lone surrogate.
abbrev pub is_present : Option ℕ → Bool
is_present none = false
is_present (some c) = true

abbrev pub is_unicode : Text → Bool
is_unicode s = all is_present (code_points s)

present_scalar : (cs : List (Option ℕ)) → all is_present cs ≡ true → cs ≡ map some (map scalar cs)
present_scalar [] h = refl
present_scalar (none ∷ cs) h = ground arith
present_scalar (some c ∷ cs) h = ap (λ r. some c ∷ r) (present_scalar cs h)

-- A text without lone surrogates that is encoded in a query is read back.
pub decode-encode_form :
    (s : Text) → All IsUnit s → is_unicode s ≡ true → to_units (decode_form (encode_form s)) ≡ s
unfolding encode_form
decode-encode_form s units unicode =
    ap to_units (decode-encode_form_points (code_points s) (code_points-IsPoint s units))
    ∙ to_units-code_points s (map scalar (code_points s)) units
        (present_scalar (code_points s) unicode)

kept-is_form_char : (c : ℕ) → is_kept is_form_safe c ≡ true → is_form_char c ≡ true
kept-is_form_char c h = rw h refl

encode_bytes-is_form_char :
    (c : ℕ) → IsPoint c → all is_form_char (encode_bytes is_form_safe (utf8 c)) ≡ true
encode_bytes-is_form_char c h =
    all_mono (is_kept is_form_safe) is_form_char kept-is_form_char _
      (encode_bytes-is_kept is_form_safe form_safe-alphanumeric (utf8 c) (utf8-bytes c h))

encode_form_points-chars :
    (cs : List (Option ℕ)) → All IsPointOrNone cs → all is_form_char (encode_form_points cs) ≡ true
unfolding encode_form_points
encode_form_points-chars [] h = refl
encode_form_points-chars (none ∷ cs) h =
    rw
      (
        all-append is_form_char (encode_bytes is_form_safe (utf8 0xFFFD)) (encode_form_points cs),
        encode_bytes-is_form_char 0xFFFD (omega arith),
        encode_form_points-chars cs h.1,
      )
      refl
encode_form_points-chars (some c ∷ cs) h = elim (Bool-cases (c == 32)) [
  | inl blank ↦ rw (blank, encode_form_points-chars cs h.1) refl
  | inr other ↦
      rw
        (
          other,
          all-append is_form_char (encode_bytes is_form_safe (utf8 c)) (encode_form_points cs),
          encode_bytes-is_form_char c h.0,
          encode_form_points-chars cs h.1,
        )
        refl
]

-- An encoded text holds letters, digits, percent signs, plus signs and * - . _
pub encode_form-chars : (s : Text) → All IsUnit s → all is_form_char (encode_form s) ≡ true
unfolding encode_form
encode_form-chars s h = encode_form_points-chars (code_points s) (code_points-IsPoint s h)
