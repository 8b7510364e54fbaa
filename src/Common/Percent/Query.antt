-- ===== src/Common/Percent/Query.antt =====
-- The parameters of a query, as the server reads them.
use mathlib.Core.Bool.{Bool, false, true}
use mathlib.Core.List.{List, [], append_assoc, map, ◌++◌, ◌∷◌}
use mathlib.Core.Path.{ap, refl, ◌∙◌, ◌≡◌}
use mathlib.Core.Option.{some}
use native.Mathlib.Omega.{arith}
use Prim.Native.Nat.{ℕ}
use rustdesk_plus.Common.Lists.{All, all, all_mono}
use rustdesk_plus.Common.Percent.{
  all-append, IsPlain, code_points-plain, encode_form, is_form_safe, query_string,
}
use rustdesk_plus.Common.Percent.Decode.{IsUnit, to_units}
use rustdesk_plus.Common.Percent.Form.{
  decode-encode_form, decode_form, encode_form-chars, is_form_char, is_present, is_unicode,
}
use rustdesk_plus.Common.Tests.{ltb, if◌then◌else◌, ◌==◌}
use rustdesk_plus.Common.Text.{Text, text}

abbrev on_first : ℕ → List Text → List Text
on_first c [] = (c ∷ []) ∷ []
on_first c (w ∷ ws) = (c ∷ w) ∷ ws

-- The pieces between the separators.
unfoldable pub split : ℕ → Text → List Text
split sep [] = [] ∷ []
split sep (c ∷ s) = let rest = split sep s in if c == sep then [] ∷ rest else on_first c rest

-- A text before the first equals sign, and behind it.
unfoldable pub name_value : Text → Text × Text
name_value [] = ([], [])
name_value (c ∷ s) = let rest = name_value s in if c == b'=' then ([], s) else (c ∷ rest.0, rest.1)

abbrev read_text : Text → Text
read_text s = to_units (decode_form s)

abbrev read_piece : Text → Text × Text
read_piece s = let (k, v) = name_value s in (read_text k, read_text v)

-- Empty pieces are no parameters.
abbrev read_pieces : List Text → List (Text × Text)
read_pieces [] = []
read_pieces ([] ∷ ws) = read_pieces ws
read_pieces ((c ∷ w) ∷ ws) = read_piece (c ∷ w) ∷ read_pieces ws

unfoldable pub read_query : Text → List (Text × Text)
unfolding split name_value decode_form to_units
read_query q = read_pieces (split b'&' q)

abbrev avoids : ℕ → ℕ → Bool
avoids sep c = if c == sep then false else true

split_piece :
    (sep : ℕ) (s t : Text) → all (avoids sep) s ≡ true → split sep (s ++ sep ∷ t) ≡ s ∷ split sep t
unfolding split
split_piece sep [] t h = ground arith
split_piece sep (c ∷ s) t h = ground (arith, split_piece sep s t)

split_last : (sep : ℕ) (s : Text) → all (avoids sep) s ≡ true → split sep s ≡ s ∷ []
unfolding split
split_last sep [] h = refl
split_last sep (c ∷ s) h = ground (arith, split_last sep s)

name_value_lem : (s t : Text) → all (avoids b'=') s ≡ true → name_value (s ++ b'=' ∷ t) ≡ (s, t)
unfolding name_value
name_value_lem [] t h = refl
name_value_lem (c ∷ s) t h = ground (arith, name_value_lem s t)

pub record IsSent (s : Text) : Type 0 where
  pub units : All IsUnit s
  pub unicode : is_unicode s ≡ true

abbrev pub AreSent : Text × Text → Type 0
AreSent (k, v) = IsSent k × IsSent v

read_text-encode_form : (s : Text) → IsSent s → read_text (encode_form s) ≡ s
read_text-encode_form s h = decode-encode_form s h.units h.unicode

form_char-no_equals : (c : ℕ) → is_form_char c ≡ true → avoids b'=' c ≡ true
unfolding is_form_safe
form_char-no_equals c h = ground arith

form_char-no_ampersand : (c : ℕ) → is_form_char c ≡ true → avoids b'&' c ≡ true
unfolding is_form_safe
form_char-no_ampersand c h = ground arith

no_equals : (s : Text) → IsSent s → all (avoids b'=') (encode_form s) ≡ true
no_equals s h =
    all_mono is_form_char (avoids b'=') form_char-no_equals _ (encode_form-chars s h.units)

no_ampersand : (s : Text) → IsSent s → all (avoids b'&') (encode_form s) ≡ true
no_ampersand s h =
    all_mono is_form_char (avoids b'&') form_char-no_ampersand _ (encode_form-chars s h.units)

abbrev piece : Text × Text → Text
piece (k, v) = encode_form k ++ b'=' ∷ encode_form v

spread : (p : Text × Text) → encode_form p.0 ++ text "=" ++ encode_form p.1 ≡ piece p
spread (k, v) = append_assoc (encode_form k) (text "=") (encode_form v)

read_piece_lem : (p : Text × Text) → AreSent p → read_piece (piece p) ≡ p
read_piece_lem (k, v) (hk, hv) =
    rw
      (
        name_value_lem (encode_form k) (encode_form v) (no_equals k hk),
        read_text-encode_form k hk,
        read_text-encode_form v hv,
      )
      refl

piece_no_ampersand : (p : Text × Text) → AreSent p → all (avoids b'&') (piece p) ≡ true
piece_no_ampersand (k, v) (hk, hv) =
    rw
      (
        all-append (avoids b'&') (encode_form k) (b'=' ∷ encode_form v),
        no_ampersand k hk,
        no_ampersand v hv,
      )
      refl

read_pieces_cons :
    (s t : Text) (ws : List Text)
    → read_pieces ((s ++ b'=' ∷ t) ∷ ws) ≡ read_piece (s ++ b'=' ∷ t) ∷ read_pieces ws
read_pieces_cons [] t ws = refl
read_pieces_cons (c ∷ s) t ws = refl

read_pieces_next :
    (p : Text × Text) (ws : List Text) → AreSent p → read_pieces (piece p ∷ ws) ≡ p ∷ read_pieces ws
read_pieces_next (k, v) ws h =
    read_pieces_cons (encode_form k) (encode_form v) ws
    ∙ ap (λ q. q ∷ read_pieces ws) (read_piece_lem (k, v) h)

-- A query is read back, if its texts have no lone surrogates.
pub read_query-query_string :
    (ps : List (Text × Text)) → All AreSent ps → read_query (query_string ps) ≡ ps
unfolding query_string read_query
read_query-query_string [] h = refl
read_query-query_string (p ∷ []) h =
    ap read_query (spread p)
    ∙ ap read_pieces (split_last b'&' (piece p) (piece_no_ampersand p h.0))
    ∙ read_pieces_next p [] h.0
read_query-query_string (p ∷ q ∷ ps) h =
    let rest = query_string (q ∷ ps) in
    ap read_query
      (ap (λ w. w ++ text "&" ++ rest) (spread p) ∙ append_assoc (piece p) (text "&") rest)
    ∙ ap read_pieces (split_piece b'&' (piece p) rest (piece_no_ampersand p h.0))
    ∙ read_pieces_next p (split b'&' rest) h.0
    ∙ ap (λ r. p ∷ r) (read_query-query_string (q ∷ ps) h.1)

-- Below 128.
abbrev pub is_ascii : ℕ → Bool
is_ascii c = ltb c 128

ascii-IsPlain : (s : Text) → all is_ascii s ≡ true → All IsPlain s
ascii-IsPlain [] h = tt
ascii-IsPlain (c ∷ s) h = ground (arith, ascii-IsPlain s)

plain-IsUnit : (s : Text) → All IsPlain s → All IsUnit s
plain-IsUnit [] h = tt
plain-IsUnit (c ∷ s) h = (omega (arith, h.0), plain-IsUnit s h.1)

present_some : (s : Text) → all is_present (map some s) ≡ true
present_some [] = refl
present_some (c ∷ s) = present_some s

pub ascii-IsSent : (s : Text) → all is_ascii s ≡ true → IsSent s
ascii-IsSent s h =
    let plain = ascii-IsPlain s h in
    record {
      units = plain-IsUnit s plain;
      unicode = rw (code_points-plain s plain) (present_some s);
    }
