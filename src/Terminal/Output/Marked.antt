-- ===== src/Terminal/Output/Marked.antt =====
-- Reading the directory back, and hiding the marked lines.
use rustdesk_plus.Common.{
  Bool, Bool-cases, List, [], any, ap, append-nil, append_assoc, arith, false, inl, inr, refl, sym,
  true, ℕ, ◌&&◌, ◌++◌, ◌==◌, ◌||◌, ◌∙◌, ◌∷◌, ◌≡◌, ◌≢◌,
}
use rustdesk_plus.Common.Text.{
  Text, carriage_return, is_space, keep, line_feed, push_first, split_lines, starts_with, trim_end,
}

-- Whether a line of the text begins with `m`: at the start, or behind a line feed.
abbrev pub behind_line_feed : Text → Text → Bool
behind_line_feed m [] = false
behind_line_feed m (c ∷ s) = c == line_feed && starts_with m s || behind_line_feed m s

abbrev pub has_line : Text → Text → Bool
has_line m s = starts_with m s || behind_line_feed m s

-- `m` is not empty and holds no line end.
abbrev pub NoLineEnd : Text → Type 0
NoLineEnd [] = Unit
NoLineEnd (c ∷ m) = (c ≢ line_feed) × (c ≢ carriage_return) × NoLineEnd m

abbrev first : List Text → Text
first [] = []
first (l ∷ ls) = l

abbrev later : List Text → List Text
later [] = []
later (l ∷ ls) = ls

first-push_first : (c : ℕ) (ls : List Text) → first (push_first c ls) ≡ c ∷ first ls
first-push_first c [] = refl
first-push_first c (l ∷ ls) = refl

later-push_first : (c : ℕ) (ls : List Text) → later (push_first c ls) ≡ later ls
later-push_first c [] = refl
later-push_first c (l ∷ ls) = refl

starts_with-eq : (m s t : Text) → s ≡ t → starts_with m s ≡ starts_with m t
starts_with-eq m s t e = rw e

-- The prefixes here are `d ∷ m`, without a line end.
module _ (d : ℕ) (m : Text) (clean : NoLineEnd (d ∷ m)) where
  starts_with-first :
      (ps s : Text) → NoLineEnd ps → starts_with ps (first (split_lines s)) ≡ starts_with ps s
  unfolding starts_with split_lines
  starts_with-first [] s h = refl
  starts_with-first (p ∷ ps) [] h = refl
  starts_with-first (p ∷ ps) (c ∷ s) h = ground (
    arith,
    first-push_first c (split_lines s),
    starts_with-first ps s h.2,
    starts_with-first (p ∷ ps) s h,
  )

  any-first :
      (ls : List Text)
      → any (starts_with (d ∷ m)) ls
        ≡ (starts_with (d ∷ m) (first ls) || any (starts_with (d ∷ m)) (later ls))
  unfolding starts_with
  any-first [] = refl
  any-first (l ∷ ls) = refl

  any-later :
      (s : Text) → any (starts_with (d ∷ m)) (later (split_lines s)) ≡ behind_line_feed (d ∷ m) s
  unfolding split_lines
  any-later [] = refl
  any-later (c ∷ s) = ground (
    arith,
    later-push_first c (split_lines s),
    any-first (split_lines s),
    starts_with-first (d ∷ m) s clean,
    any-later s,
  )

  -- Some line begins with the prefix exactly if the text has it at the start of a line.
  pub any-split_lines : (s : Text) → any (starts_with (d ∷ m)) (split_lines s) ≡ has_line (d ∷ m) s
  any-split_lines s =
      ground (arith, any-first (split_lines s), starts_with-first (d ∷ m) s clean, any-later s)

starts_with-append : (m s t : Text) → starts_with m s ≡ true → starts_with m (s ++ t) ≡ true
unfolding starts_with
starts_with-append [] s t h = refl
starts_with-append (d ∷ m) [] t h = cc
starts_with-append (d ∷ m) (c ∷ s) t h = ground (arith, starts_with-append m s t)

behind-append : (m s t : Text) → behind_line_feed m s ≡ true → behind_line_feed m (s ++ t) ≡ true
behind-append m [] t h = cc
behind-append m (c ∷ s) t h = ground (arith, starts_with-append m s t, behind-append m s t)

has_line-append : (m s t : Text) → has_line m (s ++ t) ≡ false → has_line m s ≡ false
has_line-append m s t h = ground (arith, starts_with-append m s t, behind-append m s t)

-- What `trimEnd` leaves is a beginning of the text.
keep-append : (c : ℕ) (s : Text) → (t : Text) × (c ∷ s ≡ keep c s ++ t)
unfolding keep
keep-append c [] = elim (Bool-cases (is_space c)) [
  | inl space ↦ (c ∷ [], rw space)
  | inr printed ↦ ([], rw printed)
]
keep-append c (d ∷ s) = ([], sym (append-nil (c ∷ d ∷ s)))

trim_end-append : (s : Text) → (t : Text) × (s ≡ trim_end s ++ t)
unfolding trim_end
trim_end-append [] = ([], refl)
trim_end-append (c ∷ s) =
    let (t, e) = trim_end-append s in
    let (u, f) = keep-append c (trim_end s) in
    (
      u ++ t,
      ap (λ (x : Text). c ∷ x) e
          ∙ ap (λ (x : Text). x ++ t) f
          ∙ append_assoc (keep c (trim_end s)) u t,
    )

pub has_line-trim_end : (m s : Text) → has_line m s ≡ false → has_line m (trim_end s) ≡ false
has_line-trim_end m s h =
    let (t, e) = trim_end-append s in has_line-append m (trim_end s) t (rw e at h)
