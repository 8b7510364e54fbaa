-- ===== src/Terminal/Output/Extract.antt =====
-- What `extractCwd` reads and `stripSentinel` hides (terminal/page.tsx).
use mathlib.Core.List.{reverse, reverse-append, reverse-cons}
use rustdesk_plus.Common.{
  All, All-filter, Bool, Bool-cases, List, [], any, any-append, ap, append_assoc, arith, false,
  filter, inl, inr, length, none, refl, some, true, ℕ, ◌&&◌, ◌++◌, ◌+◌, ◌==◌, ◌∙◌, ◌∷◌, ◌≡◌, ◌≢◌,
}
use rustdesk_plus.Common.Text.{
  Text, carriage_return, join, line_feed, next_is_line_feed, push_first, slice, split_lines,
  starts_with, trim, trim_end,
}
use rustdesk_plus.Terminal.Output.{
  cwd_sentinel, extract_cwd, extract_from, is_unmarked, marker, strip_sentinel,
}
use rustdesk_plus.Terminal.Output.Marked.{
  NoLineEnd, any-split_lines, behind_line_feed, has_line, has_line-trim_end,
}

abbrev pub is_marked : Text → Bool
is_marked = starts_with marker

extract_from-unmarked : (ls : List Text) → any is_marked ls ≡ false → extract_from ls ≡ none
unfolding extract_from
extract_from-unmarked [] h = refl
extract_from-unmarked (l ∷ ls) h = ground (arith, extract_from-unmarked ls)

any-reverse : (ls : List Text) → any is_marked (reverse ls) ≡ any is_marked ls
any-reverse [] = refl
any-reverse (l ∷ ls) = rw (reverse-cons, any-append is_marked) (ground (arith, any-reverse ls))

extract_cwd-unmarked : (s : Text) → any is_marked (split_lines s) ≡ false → extract_cwd s ≡ none
unfolding extract_cwd
extract_cwd-unmarked s h = extract_from-unmarked (reverse (split_lines s)) (rw any-reverse h)

-- Joining lines that hold no line feed makes no marked line.
abbrev NoLineFeed : Text → Type 0
NoLineFeed [] = Unit
NoLineFeed (c ∷ s) = (c ≢ line_feed) × NoLineFeed s

push_first-NoLineFeed :
    (c : ℕ) (ls : List Text) → c ≢ line_feed → All NoLineFeed ls → All NoLineFeed (push_first c ls)
push_first-NoLineFeed c [] n h = ((n, tt), tt)
push_first-NoLineFeed c (l ∷ ls) n h = ((n, h.0), h.1)

split_lines-NoLineFeed : (s : Text) → All NoLineFeed (split_lines s)
unfolding split_lines
split_lines-NoLineFeed [] = (tt, tt)
split_lines-NoLineFeed (c ∷ s) = elim (Bool-cases (c == line_feed)) [
  | inl ends ↦ rw ends (tt, split_lines-NoLineFeed s)
  | inr stays ↦ rw stays (elim (Bool-cases (c == carriage_return && next_is_line_feed s)) [
    | inl dropped ↦ rw dropped (split_lines-NoLineFeed s)
    | inr kept ↦
        rw kept (push_first-NoLineFeed c (split_lines s) (ground arith) (split_lines-NoLineFeed s))
  ])
]

behind-append_lines :
    (m l t : Text) → NoLineFeed l → behind_line_feed m (l ++ line_feed ∷ t) ≡ has_line m t
behind-append_lines m [] t h = ground arith
behind-append_lines m (c ∷ l) t h = ground (arith, behind-append_lines m l t h.1)

starts_with-append_line :
    (m l t : Text) → NoLineEnd m → starts_with m (l ++ line_feed ∷ t) ≡ starts_with m l
unfolding starts_with
starts_with-append_line [] l t h = refl
starts_with-append_line (d ∷ m) [] t h = ground arith
starts_with-append_line (d ∷ m) (c ∷ l) t h = ground (arith, starts_with-append_line m l t h.2)

behind-NoLineFeed : (m l : Text) → NoLineFeed l → behind_line_feed m l ≡ false
behind-NoLineFeed m [] h = refl
behind-NoLineFeed m (c ∷ l) h = ground (arith, behind-NoLineFeed m l h.1)

has_line-join :
    (d : ℕ) (m : Text) (ls : List Text)
    → NoLineEnd (d ∷ m)
    → All NoLineFeed ls
    → any (starts_with (d ∷ m)) ls ≡ false
    → has_line (d ∷ m) (join (line_feed ∷ []) ls) ≡ false
unfolding join
has_line-join d m [] h k a = unfold starts_with in refl
has_line-join d m (l ∷ []) h k a = ground (arith, behind-NoLineFeed (d ∷ m) l k.0)
has_line-join d m (l ∷ l' ∷ ls) h k a = ground (
  arith,
  starts_with-append_line (d ∷ m) l (join (line_feed ∷ []) (l' ∷ ls)) h,
  behind-append_lines (d ∷ m) l (join (line_feed ∷ []) (l' ∷ ls)) k.0,
  has_line-join d m (l' ∷ ls) h k.1,
)

any-filter_unmarked : (ls : List Text) → any is_marked (filter is_unmarked ls) ≡ false
any-filter_unmarked [] = refl
any-filter_unmarked (l ∷ ls) = ground (arith, any-filter_unmarked ls)

marker-NoLineEnd : NoLineEnd marker
unfolding marker
marker-NoLineEnd = ground arith

-- The text that is shown holds no marked line: no directory can be read from it any more.
pub extract_cwd-strip_sentinel : (output : Text) → extract_cwd (strip_sentinel output) ≡ none
unfolding strip_sentinel marker
extract_cwd-strip_sentinel output =
    let shown = join (line_feed ∷ []) (filter is_unmarked (split_lines output)) in
    extract_cwd-unmarked (trim_end shown) (
      any-split_lines _ _ marker-NoLineEnd (trim_end shown)
      ∙ has_line-trim_end marker shown (
          has_line-join _ _ (filter is_unmarked (split_lines output)) marker-NoLineEnd
            (All-filter NoLineFeed is_unmarked (split_lines output) (split_lines-NoLineFeed output))
            (any-filter_unmarked (split_lines output))))

-- Splitting at a line feed: the lines before it, and at least one, then those after it.
split_at :
    (a b : Text)
    → (l : Text) × (ls : List Text) × (split_lines (a ++ line_feed ∷ b) ≡ (l ∷ ls) ++ split_lines b)
unfolding split_lines
split_at [] b = ([], [], refl)
split_at (c ∷ a) b =
    let (l, ls, e) = split_at a b in
    elim (Bool-cases (c == line_feed)) [
      | inl ends ↦ ([], l ∷ ls, rw (ends, e))
      | inr stays ↦
          elim (Bool-cases (c == carriage_return && next_is_line_feed (a ++ line_feed ∷ b))) [
            | inl dropped ↦ (l, ls, rw (stays, dropped, e))
            | inr kept ↦ (c ∷ l, ls, rw (stays, kept, e))
          ]
    ]

split_lines-line : (l t : Text) → NoLineEnd l → split_lines (l ++ line_feed ∷ t) ≡ l ∷ split_lines t
unfolding split_lines
split_lines-line [] t h = refl
split_lines-line (c ∷ l) t h = rw (split_lines-line l t h.2) (ground arith)

extract_from-marked :
    (xs : List Text) (l : Text) (ys : List Text)
    → any is_marked xs ≡ false
    → starts_with marker l ≡ true
    → extract_from (xs ++ l ∷ ys) ≡ some (trim (slice (length cwd_sentinel + 1) l))
unfolding extract_from
extract_from-marked [] l ys h k = rw k
extract_from-marked (x ∷ xs) l ys h k = ground (arith, extract_from-marked xs l ys)

extract_from-last_marked :
    (ls : List Text) (l : Text) (xs : List Text)
    → any is_marked xs ≡ false
    → starts_with marker l ≡ true
    → extract_from (reverse (ls ++ l ∷ xs)) ≡ some (trim (slice (length cwd_sentinel + 1) l))
extract_from-last_marked ls l xs h k =
    rw (reverse-append, reverse-cons, append_assoc)
      (extract_from-marked (reverse xs) l (reverse ls) (rw any-reverse h) k)

marked_line :
    (dir : Text)
    → (starts_with marker (marker ++ dir) ≡ true)
      × (slice (length cwd_sentinel + 1) (marker ++ dir) ≡ dir)
unfolding marker starts_with slice
marked_line dir = (refl, refl)

NoLineEnd-append : (m l : Text) → NoLineEnd m → NoLineEnd l → NoLineEnd (m ++ l)
NoLineEnd-append [] l h k = k
NoLineEnd-append (c ∷ m) l h k = (h.0, h.1, NoLineEnd-append m l h.2 k)

-- Behind whatever a command prints, the marked line gives the directory, trimmed, if the line ends
-- where the directory does and no line after it is marked.
pub extract_cwd-marked :
    (before dir after : Text)
    → NoLineEnd dir
    → any is_marked (split_lines after) ≡ false
    → extract_cwd (before ++ line_feed ∷ ((marker ++ dir) ++ line_feed ∷ after)) ≡ some (trim dir)
unfolding extract_cwd
extract_cwd-marked before dir after h k =
    let (l, ls, e) = split_at before ((marker ++ dir) ++ line_feed ∷ after) in
    let line =
      split_lines-line (marker ++ dir) after (NoLineEnd-append marker dir marker-NoLineEnd h) in
    ap (λ (x : List Text). extract_from (reverse x))
      (e ∙ ap (λ (x : List Text). (l ∷ ls) ++ x) line)
    ∙ extract_from-last_marked (l ∷ ls) (marker ++ dir) (split_lines after) k (marked_line dir).0
    ∙ ap (λ (x : Text). some (trim x)) (marked_line dir).1
