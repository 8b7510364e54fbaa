-- ===== src/Terminal/Events/Single/Steps.antt =====
-- The steps of the terminal page keep that at most one command runs.
use rustdesk_plus.Api.Types.{ExecJobResult, ExecReply}
use rustdesk_plus.Common.{
  All-append, All-intro, All-mono, Bool-cases, List, arith, false, filter-append, inl, inr, is_some,
  length-append, refl, true, ℕ, ◌==◌, ◌∷◌, ◌≡◌,
}
use rustdesk_plus.Common.Dict.{erase, insert, lookup, lookup-erase}
use rustdesk_plus.Common.Text.{Text, includes, text_eq}
use rustdesk_plus.Common.Text.Equality.{text_eq_refl, text_eq→eq}
use rustdesk_plus.Terminal.Events.Single.{
  Active, Active-erase, Active-insert, Active-sent, Active-without, All-both, All-other_ids,
  Apart-erase, Apart-insert, Apart-sent, Apart-without, IsFresh, IsSingle, idle_count,
  includes-without_other, one_stopped, one_updated,
}
use rustdesk_plus.Terminal.Events.Tracking.{All-update_entries, World, without}
use rustdesk_plus.Terminal.Page.{HistoryEntry, Page, any_running, is_running, update_entries}
use rustdesk_plus.Terminal.Poll.{all_done, on_poll, on_timeout}
use rustdesk_plus.Terminal.Run.{Launch, launched, on_exec, on_exec_error, placeholder_id}

pub launched-IsSingle :
    (now : ℕ) (w : World) (s : Text)
    → any_running w.page ≡ false
    → IsFresh (placeholder_id now) w
    → IsSingle w
    → IsSingle (record { page = launched now w.page s; pending = placeholder_id now ∷ w.pending })
unfolding launched any_running
launched-IsSingle now w s idle (unused, unsent, unpolled) h =
    let ph = placeholder_id now in
    record {
      one =
          rw (filter-append is_running w.page.history, length-append)
            (omega (arith, idle_count w.page.history idle));
      active =
          All-append (Active w.page.polls (ph ∷ w.pending)) w.page.history _
            (All-both (Active-sent w.page.polls w.pending ph) w.page.history h.active
              (All-other_ids ph w.page.history unused))
            ((λ a. refl), tt);
      apart = Apart-sent w.page.polls w.pending ph unpolled h.apart;
    }

pub on_exec-IsSingle :
    (iso : Text) (i : ℕ) (l : Launch) (r : ExecReply) (w : World)
    → includes l.placeholder w.pending ≡ true
    → IsFresh r.job_id w
    → IsSingle w
    → IsSingle
        (record { page = on_exec iso i l r w.page; pending = without l.placeholder w.pending })
unfolding on_exec
on_exec-IsSingle iso i l r w waits (unused, unsent, unpolled) h = elim (Bool-cases (r.sent == 0)) [
  | inl none_sent ↦ rw none_sent (record {
    one = one_stopped l.placeholder _ w h (λ e. refl);
    active =
        All-update_entries l.placeholder _
          (λ e _ _ a. ground (arith, includes-without_other l.placeholder r.job_id w.pending))
          (λ e _ a. Active-without w.page.polls w.pending l.placeholder e a) w.page.history
          h.active;
    apart = Apart-without w.page.polls w.pending l.placeholder h.apart;
  })
  | inr some_sent ↦ rw some_sent (record {
    one = one_updated l.placeholder _ w h (All-intro _ (λ e _ r. r) w.page.history);
    active =
        All-update_entries
          {P = λ e. Active w.page.polls w.pending e × (text_eq e.job_id r.job_id ≡ false)}
          l.placeholder _
          (λ e same k a. k.0 (inl (rw (text_eq→eq e.job_id l.placeholder same) waits)))
          (λ e _ k.
            Active-insert w.page.polls (without l.placeholder w.pending) r.job_id i e
              (Active-without w.page.polls w.pending l.placeholder e k.0) k.1)
          w.page.history
          (All-both (λ e a n. (a, n)) w.page.history h.active
            (All-other_ids r.job_id w.page.history unused));
    apart =
        Apart-without (insert r.job_id i w.page.polls) w.pending l.placeholder
          (Apart-insert w.page.polls w.pending r.job_id i unsent h.apart);
  })
]

pub on_exec_error-IsSingle :
    (iso : Text) (l : Launch) (m : Text) (w : World)
    → includes l.placeholder w.pending ≡ true
    → IsSingle w
    → IsSingle
        (record { page = on_exec_error iso l m w.page; pending = without l.placeholder w.pending })
unfolding on_exec_error
on_exec_error-IsSingle iso l m w waits h = record {
  one = one_stopped l.placeholder _ w h (λ e. refl);
  active =
      All-update_entries l.placeholder _
        (λ e same _ a. ground (
          arith,
          includes-without_other l.placeholder e.job_id w.pending,
          text_eq→eq e.job_id l.placeholder,
          text_eq_refl l.placeholder,
          h.apart l.placeholder,
        ))
        (λ e _ a. Active-without w.page.polls w.pending l.placeholder e a) w.page.history h.active;
  apart = Apart-without w.page.polls w.pending l.placeholder h.apart;
}

-- A job that has ended: its entries are stopped, and its poll is over.
ended-IsSingle :
    (id : Text) (f : HistoryEntry → HistoryEntry) (p : Page) (w : World)
    → ((e : HistoryEntry) → (f e).running ≡ false)
    → ((e : HistoryEntry) → (f e).job_id ≡ e.job_id)
    → is_some (lookup id w.page.polls) ≡ true
    → (p.history ≡ update_entries id f w.page.history) × (p.polls ≡ erase id w.page.polls)
    → IsSingle w
    → IsSingle (record { page = p; pending = w.pending })
ended-IsSingle id f p w stops keeps alive (history, polls) h = record {
  one = rw history (one_stopped id f w h stops);
  active =
      rw (history, polls)
        (All-update_entries id f
          (λ e same _ a. ground (
            arith,
            keeps e,
            text_eq→eq e.job_id id,
            text_eq_refl id,
            h.apart id,
            lookup-erase id id w.page.polls,
          ))
          (λ e _ a. Active-erase w.page.polls w.pending id e a) w.page.history h.active);
  apart = rw polls (Apart-erase w.page.polls w.pending id h.apart);
}

-- A polled job runs.
Active-runs :
    (id : Text) (polls : List (Text × ℕ)) (ps : List Text) (e : HistoryEntry)
    → is_some (lookup id polls) ≡ true
    → Active polls ps e
    → text_eq e.job_id id ≡ true
    → e.running ≡ true
Active-runs id polls ps e alive a same = a (inr (rw (text_eq→eq e.job_id id same) alive))

pub on_poll-IsSingle :
    (id : Text) (r : ExecJobResult) (w : World)
    → is_some (lookup id w.page.polls) ≡ true
    → IsSingle w
    → IsSingle (record w { page = on_poll id r w.page })
unfolding on_poll
on_poll-IsSingle id r w alive h = elim (Bool-cases (all_done r)) [
  | inl finished ↦
      rw finished (ended-IsSingle id _ _ w (λ e. refl) (λ e. refl) alive (refl, refl) h)
  | inr unfinished ↦ rw unfinished (record {
    one = one_updated id _ w h (
        All-mono (λ e a same _. Active-runs id w.page.polls w.pending e alive a same) w.page.history
          h.active);
    active = All-update_entries id _ (λ e _ _ _. refl) (λ e _ a. a) w.page.history h.active;
    apart = h.apart;
  })
]

pub on_timeout-IsSingle :
    (id : Text) (w : World) → IsSingle w → IsSingle (record w { page = on_timeout id w.page })
unfolding on_timeout
on_timeout-IsSingle id w h = elim (Bool-cases (is_some (lookup id w.page.polls))) [
  | inl alive ↦ rw alive (ended-IsSingle id _ _ w (λ e. refl) (λ e. refl) alive (refl, refl) h)
  | inr gone ↦ rw gone h
]
