-- ===== src/Terminal/Events/Single.antt =====
-- At most one command of the terminal runs, as long as the identifiers of the commands differ.
pub mod Steps
pub mod Reach
use rustdesk_plus.Common.{
  All, All-intro, List, [], any, arith, false, filter, is_some, length, none, refl, true, ℕ, ◌∷◌,
  ◌≡◌, ◌≤◌, ◌⊎◌,
}
use rustdesk_plus.Common.Dict.{erase, insert, lookup, lookup-erase, lookup-insert}
use rustdesk_plus.Common.Text.{Text, includes, text_eq}
use rustdesk_plus.Common.Text.Equality.{text_eq_sym, text_eq→eq}
use rustdesk_plus.Common.Text.Members.{includes-filter-differs}
use rustdesk_plus.Terminal.Events.Tracking.{Timely, World, answered, failed, sent, without}
use rustdesk_plus.Terminal.Page.{HistoryEntry, Page, has_job_id, is_running, update_entries}
use rustdesk_plus.Terminal.Run.{placeholder_id}

-- No entry, no launch and no poll has this identifier.
abbrev pub IsFresh : Text → World → Type 0
IsFresh id w =
    (any (has_job_id id) w.page.history ≡ false)
    × (includes id w.pending ≡ false)
    × (lookup id w.page.polls ≡ none)

-- What is asked of a step: the time of a launch names it alone, an answer belongs to a launch that
-- waits for it, and the server names each command anew.
abbrev pub Distinct : {w v : World} → Timely w v → Type 0
Distinct {w} (sent now l e) = IsFresh (placeholder_id now) w
Distinct {w} (answered iso i l r) = (includes l.placeholder w.pending ≡ true) × IsFresh r.job_id w
Distinct {w} (failed iso l m) = includes l.placeholder w.pending ≡ true
Distinct _ = Unit

pub data Orderly (w : World) : World → Type 0 where
  at_first : Orderly w w
  go_on : {u v : World} → Orderly w u → (t : Timely u v) → Distinct t → Orderly w v

abbrev pub running_count : Page → ℕ
running_count p = length (filter is_running p.history)

-- An entry that waits for an answer, or is polled, runs.
abbrev pub Active : List (Text × ℕ) → List Text → HistoryEntry → Type 0
Active polls ps e =
    ((includes e.job_id ps ≡ true) ⊎ (is_some (lookup e.job_id polls) ≡ true)) → e.running ≡ true

abbrev pub Apart : List (Text × ℕ) → List Text → Type 0
Apart polls ps = (id : Text) → includes id ps ≡ true → lookup id polls ≡ none

pub record IsSingle (w : World) : Type 0 where
  pub one : running_count w.page ≤ 1
  pub active : All (Active w.page.polls w.pending) w.page.history
  pub apart : Apart w.page.polls w.pending

-- A round of `update_entries` that starts nothing.
pub length-update_entries :
    (id : Text) (f : HistoryEntry → HistoryEntry) (es : List HistoryEntry)
    → All (λ e. text_eq e.job_id id ≡ true → (f e).running ≡ true → e.running ≡ true) es
    → length (filter is_running (update_entries id f es)) ≤ length (filter is_running es)
unfolding update_entries
length-update_entries id f [] h = omega arith
length-update_entries id f (e ∷ es) (p, h) = ground (arith, p, length-update_entries id f es h)

pub idle_count :
    (es : List HistoryEntry) → any is_running es ≡ false → length (filter is_running es) ≡ 0
idle_count [] h = refl
idle_count (e ∷ es) h = ground (arith, idle_count es)

pub All-other_ids :
    (id : Text) (es : List HistoryEntry)
    → any (has_job_id id) es ≡ false
    → All (λ e. text_eq e.job_id id ≡ false) es
All-other_ids id [] h = tt
All-other_ids id (e ∷ es) h = ground (arith, All-other_ids id es)

pub All-both :
    {P Q R : HistoryEntry → Type 0}
    → ((e : HistoryEntry) → P e → Q e → R e)
    → (es : List HistoryEntry) → All P es
    → All Q es
    → All R es
All-both g [] h k = tt
All-both g (e ∷ es) (p, h) (q, k) = (g e p q, All-both g es h k)

pub includes-without_other :
    (ph id : Text) (ps : List Text)
    → includes id (without ph ps) ≡ true
    → (includes id ps ≡ true) × (text_eq ph id ≡ false)
includes-without_other ph id ps h = ground (arith, includes-filter-differs ph id ps)

-- What a step does to an entry that is active.
module _ (polls : List (Text × ℕ)) (ps : List Text) where
  pub Active-sent :
      (ph : Text) (e : HistoryEntry)
      → Active polls ps e
      → text_eq e.job_id ph ≡ false
      → Active polls (ph ∷ ps) e
  unfolding includes
  Active-sent ph e h n = λ a. ground (arith, h, text_eq_sym ph e.job_id)

  pub Active-without :
      (ph : Text) (e : HistoryEntry) → Active polls ps e → Active polls (without ph ps) e
  Active-without ph e h = λ a. ground (arith, h, includes-without_other ph e.job_id ps)

  pub Active-insert :
      (id : Text) (i : ℕ) (e : HistoryEntry)
      → Active polls ps e
      → text_eq e.job_id id ≡ false
      → Active (insert id i polls) ps e
  Active-insert id i e h n =
      λ a. ground (arith, h, lookup-insert id e.job_id i polls, text_eq_sym id e.job_id)

  pub Active-erase :
      (id : Text) (e : HistoryEntry) → Active polls ps e → Active (erase id polls) ps e
  Active-erase id e h = λ a. ground (arith, h, lookup-erase id e.job_id polls)

  pub Active-idle :
      (e : HistoryEntry)
      → includes e.job_id ps ≡ false
      → lookup e.job_id polls ≡ none
      → Active polls ps e
  Active-idle e n m = λ a. ground arith

  pub Apart-without : (ph : Text) → Apart polls ps → Apart polls (without ph ps)
  Apart-without ph h id m = h id (includes-without_other ph id ps m).0

  pub Apart-insert :
      (id : Text) (i : ℕ) → includes id ps ≡ false → Apart polls ps → Apart (insert id i polls) ps
  Apart-insert id i n h x m = ground (arith, h x m, lookup-insert id x i polls, text_eq→eq id x)

  pub Apart-erase : (id : Text) → Apart polls ps → Apart (erase id polls) ps
  Apart-erase id h x m = ground (arith, h x m, lookup-erase id x polls)

  pub Apart-sent : (ph : Text) → lookup ph polls ≡ none → Apart polls ps → Apart polls (ph ∷ ps)
  unfolding includes
  Apart-sent ph n h x m = ground (arith, h x, text_eq→eq ph x)

-- A round of `update_entries` in which what runs afterwards ran before.
module _ (id : Text) (f : HistoryEntry → HistoryEntry) (w : World) (h : IsSingle w) where
  pub one_updated :
      All (λ e. text_eq e.job_id id ≡ true → (f e).running ≡ true → e.running ≡ true) w.page.history
      → length (filter is_running (update_entries id f w.page.history)) ≤ 1
  one_updated k = omega (arith, h.one, length-update_entries id f w.page.history k)

  pub one_stopped :
      ((e : HistoryEntry) → (f e).running ≡ false)
      → length (filter is_running (update_entries id f w.page.history)) ≤ 1
  one_stopped stops = one_updated (All-intro _ (λ e _ r. ground (arith, stops e)) w.page.history)
