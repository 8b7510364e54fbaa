-- ===== src/Terminal/Events/Settles.antt =====
-- Every command of the terminal ends: the answers to the launches and the time limits are enough.
use rustdesk_plus.Api.Types.{ExecReply}
use rustdesk_plus.Common.{
  All, All-mono, Bool-cases, List, [], any, arith, false, inl, inr, is_some, refl, true, ℕ, ◌∷◌,
  ◌≡◌,
}
use rustdesk_plus.Common.Dict.{lookup, lookup-erase}
use rustdesk_plus.Common.Text.{Text, includes}
use rustdesk_plus.Common.Text.Equality.{text_eq→eq}
use rustdesk_plus.Common.Text.Members.{includes-filter-differs}
use rustdesk_plus.Terminal.Events.{Event, exec_answered, exec_failed, step, steps, time_up}
use rustdesk_plus.Terminal.Events.Tracking.{
  HasEnd, IsTracked, on_exec-IsTracked, on_exec_error-IsTracked, on_timeout-IsTracked, without,
}
use rustdesk_plus.Terminal.Page.{HistoryEntry, Page, any_running, is_running}
use rustdesk_plus.Terminal.Poll.{on_timeout}
use rustdesk_plus.Terminal.Run.{Launch, on_exec, on_exec_error}

-- The events are an answer, or a failure, of each launch that waits for one.
pub data AnswersAll : List Text → List Event → Type 0 where
  nothing_pending : AnswersAll [] []
  answer_next :
      {ps : List Text} {es : List Event} (iso : Text) (i : ℕ) (l : Launch) (r : ExecReply)
      → AnswersAll ps es
      → AnswersAll (l.placeholder ∷ ps) (exec_answered iso i l r ∷ es)
  failure_next :
      {ps : List Text} {es : List Event} (iso : Text) (l : Launch) (m : Text)
      → AnswersAll ps es
      → AnswersAll (l.placeholder ∷ ps) (exec_failed iso l m ∷ es)

-- The time limit of each job that is polled.
abbrev pub limits : List (Text × ℕ) → List Event
limits [] = []
limits ((id, i) ∷ polls) = time_up id ∷ limits polls

includes-answered :
    (x ph : Text) (ps : List Text) → includes x (without ph (ph ∷ ps)) ≡ true → includes x ps ≡ true
unfolding includes
includes-answered x ph ps h =
    ground (arith, text_eq→eq ph x, includes-filter-differs ph x (ph ∷ ps))

-- An entry that ends among fewer launches ends among more.
HasEnd-mono :
    (polls : List (Text × ℕ)) (ps qs : List Text)
    → ((x : Text) → includes x ps ≡ true → includes x qs ≡ true)
    → (e : HistoryEntry) → HasEnd polls ps e
    → HasEnd polls qs e
HasEnd-mono polls ps qs sub e h =
    λ r. elim (h r) [ inl waits ↦ inl (sub e.job_id waits) | inr alive ↦ inr alive ]

answered-IsTracked :
    (ph : Text) (ps : List Text) (p : Page)
    → IsTracked (record { page = p; pending = without ph (ph ∷ ps) })
    → IsTracked (record { page = p; pending = ps })
answered-IsTracked ph ps p =
    All-mono (HasEnd-mono p.polls (without ph (ph ∷ ps)) ps (λ x. includes-answered x ph ps))
      p.history

AnswersAll-IsTracked :
    {ps : List Text} {es : List Event}
    → AnswersAll ps es
    → (p : Page) → IsTracked (record { page = p; pending = ps })
    → IsTracked (record { page = steps p es; pending = [] })
unfolding steps step
AnswersAll-IsTracked nothing_pending p h = h
AnswersAll-IsTracked (answer_next {ps} {es} iso i l r rest) p h =
    AnswersAll-IsTracked rest (on_exec iso i l r p) (
      answered-IsTracked l.placeholder ps (on_exec iso i l r p)
        (on_exec-IsTracked iso i l r p (l.placeholder ∷ ps) h))
AnswersAll-IsTracked (failure_next {ps} {es} iso l m rest) p h =
    AnswersAll-IsTracked rest (on_exec_error iso l m p) (
      answered-IsTracked l.placeholder ps (on_exec_error iso l m p)
        (on_exec_error-IsTracked iso l m p (l.placeholder ∷ ps) h))

-- Each job that is polled is among those whose limits are still to come.
Awaits : List (Text × ℕ) → List (Text × ℕ) → Type 0
Awaits polls limited =
    (id : Text) → is_some (lookup id polls) ≡ true → is_some (lookup id limited) ≡ true

Awaits-on_timeout :
    (id : Text) (i : ℕ) (limited : List (Text × ℕ)) (p : Page)
    → Awaits p.polls ((id, i) ∷ limited)
    → Awaits (on_timeout id p).polls limited
unfolding Awaits on_timeout lookup
Awaits-on_timeout id i limited p h = elim (Bool-cases (is_some (lookup id p.polls))) [
  | inl found ↦ rw found (λ x alive. ground (arith, lookup-erase id x p.polls, h x))
  | inr ended ↦ rw ended (λ x alive. ground (arith, text_eq→eq id x, h x alive))
]

all_stopped :
    (polls : List (Text × ℕ)) (es : List HistoryEntry)
    → Awaits polls []
    → All (HasEnd polls []) es
    → any is_running es ≡ false
unfolding Awaits lookup includes
all_stopped polls [] a h = refl
all_stopped polls (e ∷ es) a h = ground (arith, h.0, a e.job_id, all_stopped polls es a h.1)

limits_stop :
    (limited : List (Text × ℕ)) (p : Page)
    → Awaits p.polls limited
    → IsTracked (record { page = p; pending = [] })
    → any_running (steps p (limits limited)) ≡ false
unfolding steps step any_running
limits_stop [] p a h = all_stopped p.polls p.history a h
limits_stop ((id, i) ∷ limited) p a h =
    limits_stop limited (on_timeout id p) (Awaits-on_timeout id i limited p a)
      (on_timeout-IsTracked id p [] h)

-- From any page whose running entries wait for an answer or are polled: once every launch is
-- answered, whatever the answers are, or has failed, and the time of each job that is polled then
-- is up, nothing runs, without any answer of a poll.
pub AnswersAll-settles :
    {ps : List Text} {es : List Event} (p : Page)
    → IsTracked (record { page = p; pending = ps })
    → AnswersAll ps es
    → let answered = steps p es in any_running (steps answered (limits answered.polls)) ≡ false
unfolding Awaits
AnswersAll-settles {es} p h a =
    limits_stop (steps p es).polls (steps p es) (λ x alive. alive) (AnswersAll-IsTracked a p h)
