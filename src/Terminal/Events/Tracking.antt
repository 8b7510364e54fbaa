-- ===== src/Terminal/Events/Tracking.antt =====
-- Every running command has somebody who will end it, as long as replies come in time.
use rustdesk_plus.Api.Types.{ExecJobResult, ExecReply}
use rustdesk_plus.Common.{
  All, All-append, All-mono, Bool, Bool-cases, List, [], arith, false, filter, inl, inr, is_some,
  none, not, some, true, ℕ, ◌==◌, ◌∷◌, ◌≡◌, ◌⊎◌,
}
use rustdesk_plus.Common.Dict.{erase, insert, lookup, lookup-erase, lookup-insert}
use rustdesk_plus.Common.Text.{Text, includes, text_eq}
use rustdesk_plus.Common.Text.Equality.{text_eq_refl, text_eq→eq}
use rustdesk_plus.Common.Text.Members.{differs}
use rustdesk_plus.Terminal.Events.{
  Event, enter, exec_answered, exec_failed, poll_answered, step, time_up,
}
use rustdesk_plus.Terminal.Page.{HistoryEntry, Page, update_entries}
use rustdesk_plus.Terminal.Poll.{all_done, on_poll, on_timeout}
use rustdesk_plus.Terminal.Run.{Launch, launched, on_exec, on_exec_error, placeholder_id, run}

-- The page, and the placeholders of the launches that the server has not answered.
pub record World : Type 0 where
  pub page : Page
  pub pending : List Text

abbrev other_than : Text → Text → Bool
other_than id x = not (text_eq x id)

abbrev pub without : Text → List Text → List Text
without id = filter (other_than id)

abbrev pub is_quiet : Event → Bool
is_quiet (enter now) = false
is_quiet (exec_answered iso i l r) = false
is_quiet (exec_failed iso l m) = false
is_quiet (poll_answered id r) = false
is_quiet (time_up id) = false
is_quiet e = true

-- One step of the page, where a reply of a poll finds its poll alive.
pub data Timely (w : World) : World → Type 0 where
  sent :
      (now : ℕ) (l : Launch)
      → (run now w.page).1 ≡ some l
      → Timely w (record { page = (run now w.page).0; pending = l.placeholder ∷ w.pending })
  refused :
      (now : ℕ) → (run now w.page).1 ≡ none → Timely w (record w { page = (run now w.page).0 })
  answered :
      (iso : Text) (i : ℕ) (l : Launch) (r : ExecReply)
      → Timely w
          (record { page = on_exec iso i l r w.page; pending = without l.placeholder w.pending })
  failed :
      (iso : Text) (l : Launch) (m : Text)
      → Timely w (record {
        page = on_exec_error iso l m w.page;
        pending = without l.placeholder w.pending;
      })
  polled :
      (id : Text) (r : ExecJobResult)
      → is_some (lookup id w.page.polls) ≡ true
      → Timely w (record w { page = on_poll id r w.page })
  timed_out : (id : Text) → Timely w (record w { page = on_timeout id w.page })
  other : (e : Event) → is_quiet e ≡ true → Timely w (record w { page = step w.page e })

abbrev pub HasEnd : List (Text × ℕ) → List Text → HistoryEntry → Type 0
HasEnd polls pending e =
    e.running ≡ true → (includes e.job_id pending ≡ true) ⊎ (is_some (lookup e.job_id polls) ≡ true)

-- Each running entry waits for the answer to its launch, or is polled.
abbrev pub IsTracked : World → Type 0
IsTracked w = All (HasEnd w.page.polls w.pending) w.page.history

-- One round of `update_entries`, for what holds of every entry before and after.
pub All-update_entries :
    {P Q : HistoryEntry → Type 0} (id : Text) (f : HistoryEntry → HistoryEntry)
    → ((e : HistoryEntry) → text_eq e.job_id id ≡ true → P e → Q (f e))
    → ((e : HistoryEntry) → text_eq e.job_id id ≡ false → P e → Q e)
    → (es : List HistoryEntry) → All P es
    → All Q (update_entries id f es)
unfolding update_entries
All-update_entries {P} {Q} id f hit miss [] h = tt
All-update_entries {P} {Q} id f hit miss (e ∷ es) (p, h) = elim (Bool-cases (text_eq e.job_id id)) [
  | inl same ↦ rw same (hit e same p, All-update_entries id f hit miss es h)
  | inr differs ↦ rw differs (miss e differs p, All-update_entries id f hit miss es h)
]

includes-without :
    (x id : Text) (xs : List Text)
    → text_eq x id ≡ false
    → includes x xs ≡ true
    → includes x (without id xs) ≡ true
unfolding includes
includes-without x id [] n h = cc
includes-without x id (y ∷ xs) n h = ground (arith, text_eq→eq y x, includes-without x id xs n)

-- What a step does to the end that an entry has.
module _ (polls : List (Text × ℕ)) (pending : List Text) where
  HasEnd-sent :
      (ph : Text) (e : HistoryEntry) → HasEnd polls pending e → HasEnd polls (ph ∷ pending) e
  unfolding includes
  HasEnd-sent ph e h = λ r. ground (arith, h r)

  HasEnd-without :
      (ph : Text) (e : HistoryEntry)
      → text_eq e.job_id ph ≡ false
      → HasEnd polls pending e
      → HasEnd polls (without ph pending) e
  HasEnd-without ph e n h = λ r. ground (arith, h r, includes-without e.job_id ph pending n)

  HasEnd-insert :
      (id : Text) (i : ℕ) (e : HistoryEntry)
      → HasEnd polls pending e
      → HasEnd (insert id i polls) pending e
  HasEnd-insert id i e h = λ r. ground (arith, h r, lookup-insert id e.job_id i polls)

  HasEnd-erase :
      (id : Text) (e : HistoryEntry)
      → text_eq e.job_id id ≡ false
      → HasEnd polls pending e
      → HasEnd (erase id polls) pending e
  HasEnd-erase id e n h = λ r.
      ground (arith, h r, lookup-erase id e.job_id polls, text_eq→eq id e.job_id, text_eq_refl id)

pub launched-IsTracked :
    (now : ℕ) (p : Page) (s : Text) (pending : List Text)
    → All (HasEnd p.polls pending) p.history
    → All (HasEnd p.polls (placeholder_id now ∷ pending)) (launched now p s).history
unfolding launched includes
launched-IsTracked now p s pending h =
    All-append (HasEnd p.polls (placeholder_id now ∷ pending)) p.history _
      (All-mono (HasEnd-sent p.polls pending (placeholder_id now)) p.history h)
      ((λ r. inl (rw (text_eq_refl (placeholder_id now)))), tt)

pub on_exec-IsTracked :
    (iso : Text) (i : ℕ) (l : Launch) (r : ExecReply) (p : Page) (pending : List Text)
    → All (HasEnd p.polls pending) p.history
    → IsTracked (record { page = on_exec iso i l r p; pending = without l.placeholder pending })
unfolding on_exec
on_exec-IsTracked iso i l r p pending h = elim (Bool-cases (r.sent == 0)) [
  | inl none_sent ↦ rw none_sent (
      All-update_entries l.placeholder _ (λ e _ _ k. cc)
        (λ e n k. HasEnd-without p.polls pending l.placeholder e n k) p.history h)
  | inr some_sent ↦ rw some_sent (
      All-update_entries l.placeholder _ (λ e _ _ k. inr (rw (lookup-insert, text_eq_refl)))
        (λ e n k.
          HasEnd-insert p.polls (without l.placeholder pending) r.job_id i e
            (HasEnd-without p.polls pending l.placeholder e n k))
        p.history h)
]

pub on_exec_error-IsTracked :
    (iso : Text) (l : Launch) (m : Text) (p : Page) (pending : List Text)
    → All (HasEnd p.polls pending) p.history
    → IsTracked (record { page = on_exec_error iso l m p; pending = without l.placeholder pending })
unfolding on_exec_error
on_exec_error-IsTracked iso l m p pending h =
    All-update_entries l.placeholder _ (λ e _ _ k. cc)
      (λ e n k. HasEnd-without p.polls pending l.placeholder e n k) p.history h

pub on_poll-IsTracked :
    (id : Text) (r : ExecJobResult) (p : Page) (pending : List Text)
    → is_some (lookup id p.polls) ≡ true
    → All (HasEnd p.polls pending) p.history
    → IsTracked (record { page = on_poll id r p; pending = pending })
unfolding on_poll
on_poll-IsTracked id r p pending alive h = elim (Bool-cases (all_done r)) [
  | inl finished ↦ rw finished (
      All-update_entries id _ (λ e _ _ k. cc) (λ e n k. HasEnd-erase p.polls pending id e n k)
        p.history h)
  | inr unfinished ↦ rw unfinished (
      All-update_entries id _ (λ e same _ k. inr (rw (text_eq→eq e.job_id id same) alive))
        (λ e n k. k) p.history h)
]

pub on_timeout-IsTracked :
    (id : Text) (p : Page) (pending : List Text)
    → All (HasEnd p.polls pending) p.history
    → IsTracked (record { page = on_timeout id p; pending = pending })
unfolding on_timeout
on_timeout-IsTracked id p pending h = elim (Bool-cases (is_some (lookup id p.polls))) [
  | inl alive ↦ rw alive (
      All-update_entries id _ (λ e _ _ k. cc) (λ e n k. HasEnd-erase p.polls pending id e n k)
        p.history h)
  | inr gone ↦ rw gone h
]
