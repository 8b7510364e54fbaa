-- ===== src/Common/Text.antt =====
-- Texts as lists of UTF-16 code units, and the string methods that the dashboard calls.
-- A literal of the source is the list of its code points: it is in the basic plane throughout.
pub mod Equality
pub mod Members
use Prim.Native.Char.{code}
use Prim.Native.Nat.{suc, zero, ℕ, ◌%◌, ◌+◌, ◌/◌}
use Prim.Native.String.{String}
use mathlib.Core.Bool.{Bool, false, true, ◌&&◌, ◌||◌}
use mathlib.Core.List.{List, [], ◌++◌, ◌∷◌}
use mathlib.Core.Option.{Option, none, some}
use rustdesk_plus.Common.Tests.{if◌then◌else◌, leb, ltb, ◌==◌}

abbrev pub Text : Type 0
Text = List ℕ

abbrev pub text : String → Text
text String.[] = []
text (String.◌∷◌ c s) = code c ∷ text s

-- `a === b`
unfoldable pub text_eq : Text → Text → Bool
text_eq [] [] = true
text_eq [] (d ∷ t) = false
text_eq (c ∷ s) [] = false
text_eq (c ∷ s) (d ∷ t) = c == d && text_eq s t

-- `xs.includes(x)`, of an array of texts
unfoldable pub includes : Text → List Text → Bool
unfolding text_eq
includes x [] = false
includes x (y ∷ ys) = text_eq y x || includes x ys

-- `x ? … : …` of a text or null: null and "" are falsy
abbrev pub truthy : Option Text → Bool
truthy none = false
truthy (some []) = false
truthy (some (c ∷ s)) = true

-- `a || b` of texts
abbrev pub or_else : Text → Text → Text
or_else [] t = t
or_else (c ∷ s) t = c ∷ s

-- `x || b` of a text or null
abbrev pub or_text : Option Text → Text → Text
or_text none t = t
or_text (some s) t = or_else s t

-- `s.startsWith(prefix)`, with the prefix first
unfoldable pub starts_with : Text → Text → Bool
starts_with [] s = true
starts_with (p ∷ ps) [] = false
starts_with (p ∷ ps) (c ∷ s) = p == c && starts_with ps s

-- `s.includes(t)`, with the part first
unfoldable pub contains : Text → Text → Bool
unfolding starts_with
contains t [] = starts_with t []
contains t (c ∷ s) = starts_with t (c ∷ s) || contains t s

-- `s.slice(n)`
unfoldable pub slice : ℕ → Text → Text
slice zero s = s
slice (suc n) [] = []
slice (suc n) (c ∷ s) = slice n s

-- The white space and line ends of ECMAScript, which `trim` and `\s` take.
unfoldable pub is_space : ℕ → Bool
is_space c =
    leb 9 c && leb c 13
    || c == 32
    || c == 0xA0
    || c == 0x1680
    || leb 0x2000 c && leb c 0x200A
    || c == 0x2028
    || c == 0x2029
    || c == 0x202F
    || c == 0x205F
    || c == 0x3000
    || c == 0xFEFF

unfoldable pub trim_start : Text → Text
unfolding is_space
trim_start [] = []
trim_start (c ∷ s) = if is_space c then trim_start s else c ∷ s

-- A unit in front of a trimmed text: white space stays only before something else.
unfoldable pub keep : ℕ → Text → Text
unfolding is_space
keep c [] = if is_space c then [] else c ∷ []
keep c (d ∷ s) = c ∷ d ∷ s

unfoldable pub trim_end : Text → Text
unfolding keep
trim_end [] = []
trim_end (c ∷ s) = keep c (trim_end s)

unfoldable pub trim : Text → Text
unfolding trim_start trim_end
trim s = trim_end (trim_start s)

abbrev pub line_feed : ℕ
line_feed = 10

abbrev pub carriage_return : ℕ
carriage_return = 13

-- A unit in front of the first line.
abbrev pub push_first : ℕ → List Text → List Text
push_first c [] = (c ∷ []) ∷ []
push_first c (l ∷ ls) = (c ∷ l) ∷ ls

abbrev pub next_is_line_feed : Text → Bool
next_is_line_feed [] = false
next_is_line_feed (c ∷ s) = c == line_feed

-- `s.split(/\r?\n/)`: a line feed ends a line, and takes a carriage return before it along.
unfoldable pub split_lines : Text → List Text
split_lines [] = [] ∷ []
split_lines (c ∷ s) =
    let rest = split_lines s in
    if c == line_feed
    then [] ∷ rest
    else if c == carriage_return && next_is_line_feed s
    then rest
    else push_first c rest

-- `lines.join(sep)`
unfoldable pub join : Text → List Text → Text
join sep [] = []
join sep (l ∷ []) = l
join sep (l ∷ k ∷ ls) = l ++ (sep ++ join sep (k ∷ ls))

-- `toLowerCase`. Outside ASCII the code only asks which ASCII letters come out: the Kelvin sign
-- gives k, the capital I with a dot gives i and a combining dot, and no other letter gives one.
unfoldable pub lower_unit : ℕ → Text
lower_unit c =
    if leb b'A' c && leb c b'Z'
    then (c + 32) ∷ []
    else if c == 0x212A
    then b'k' ∷ []
    else if c == 0x130
    then b'i' ∷ 0x307 ∷ []
    else c ∷ []

unfoldable pub to_lower : Text → Text
unfolding lower_unit
to_lower [] = []
to_lower (c ∷ s) = lower_unit c ++ to_lower s

-- The decimal digits of a number, before `acc`. A number has at most as many digits as it says.
unfoldable pub digits_before : ℕ → ℕ → Text → Text
digits_before zero n acc = acc
digits_before (suc fuel) n acc =
    let rest = digits_before fuel (n / 10) ((b'0' + n % 10) ∷ acc) in
    if ltb n 10 then (b'0' + n) ∷ acc else rest

-- `String(n)`, and a number in a template
unfoldable pub decimal : ℕ → Text
unfolding digits_before
decimal n = digits_before (suc n) n []

-- The present values of a list, in order.
unfoldable pub present {ℓ} : {A : Type ℓ} → List (Option A) → List A
present [] = []
present (none ∷ xs) = present xs
present (some x ∷ xs) = x ∷ present xs
