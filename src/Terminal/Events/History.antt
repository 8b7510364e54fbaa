-- ===== src/Terminal/Events/History.antt =====
-- The command history: at most fifty commands, and an index that stays within them.
use rustdesk_plus.Api.Types.{ExecJobResult, ExecReply}
use rustdesk_plus.Common.{
  List, [], arith, get_elem?, length, length-take, lt-length_of_get_elem?, some, ℕ, ◌+◌, ◌<◌, ◌∷◌,
  ◌≡◌, ◌≤◌,
}
use rustdesk_plus.Common.Int.{neg_part, pos, pos_part, sub_ℕ, ℤ}
use rustdesk_plus.Common.Text.{Text, trim}
use rustdesk_plus.Terminal.Events.{
  Event, arrow_down, arrow_up, enter, exec_answered, exec_failed, poll_answered, step, steps,
  tenant_picked, time_up, typed,
}
use rustdesk_plus.Terminal.Keys.{newer, older, recalled}
use rustdesk_plus.Terminal.Page.{Page}
use rustdesk_plus.Terminal.Poll.{on_poll, on_timeout}
use rustdesk_plus.Terminal.Run.{Launch, launched, on_exec, run}

-- The index is -1 or that of a stored command.
pub record IsValid (p : Page) : Type 0 where
  pub bounded : length p.cmd_history ≤ 50
  pub above : neg_part p.cmd_history_idx ≤ 1
  pub below : pos_part p.cmd_history_idx + 1 ≤ length p.cmd_history + neg_part p.cmd_history_idx

older-IsValid : (p : Page) → IsValid p → IsValid (older p)
unfolding older
older-IsValid p v = ground arith

newer-IsValid : (p : Page) → IsValid p → IsValid (newer p)
unfolding newer
newer-IsValid p v = ground arith

launched-IsValid : (now : ℕ) (p : Page) (s : Text) → IsValid (launched now p s)
unfolding launched
launched-IsValid now p s = ground (arith, length-take 49 p.cmd_history)

run-IsValid : (now : ℕ) (p : Page) → IsValid p → IsValid (run now p).0
unfolding run
run-IsValid now p v = ground (arith, launched-IsValid now p (trim p.cmd))

on_exec-IsValid :
    (iso : Text) (i : ℕ) (l : Launch) (r : ExecReply) (p : Page)
    → IsValid p
    → IsValid (on_exec iso i l r p)
unfolding on_exec
on_exec-IsValid iso i l r p v = ground arith

on_poll-IsValid : (id : Text) (r : ExecJobResult) (p : Page) → IsValid p → IsValid (on_poll id r p)
unfolding on_poll
on_poll-IsValid id r p v = ground arith

on_timeout-IsValid : (id : Text) (p : Page) → IsValid p → IsValid (on_timeout id p)
unfolding on_timeout
on_timeout-IsValid id p v = ground arith

step-IsValid : (p : Page) (e : Event) → IsValid p → IsValid (step p e)
unfolding step
step-IsValid p arrow_up v = older-IsValid p v
step-IsValid p arrow_down v = newer-IsValid p v
step-IsValid p (enter now) v = run-IsValid now p v
step-IsValid p (exec_answered iso i l r) v = on_exec-IsValid iso i l r p v
step-IsValid p (poll_answered id r) v = on_poll-IsValid id r p v
step-IsValid p (time_up id) v = on_timeout-IsValid id p v
step-IsValid p (typed s) v = ground arith
step-IsValid p (exec_failed iso l m) v = ground arith
step-IsValid p (tenant_picked id b) v = ground arith
step-IsValid p _ v = ground arith

-- Whatever happens on the page, at most fifty commands are kept, and the index is -1 or that of a
-- stored command, if both are so at first.
pub steps-IsValid : (p : Page) (es : List Event) → IsValid p → IsValid (steps p es)
unfolding steps
steps-IsValid p [] v = v
steps-IsValid p (e ∷ es) v = steps-IsValid (step p e) es (step-IsValid p e v)

older_next :
    (p : Page) (n : ℕ)
    → p.cmd_history_idx ≡ sub_ℕ n 1
    → n < length p.cmd_history
    → (older p).cmd_history_idx ≡ pos n
unfolding older
older_next p n e h = ground arith

newer_next : (p : Page) (n : ℕ) → p.cmd_history_idx ≡ pos n → (newer p).cmd_history_idx ≡ sub_ℕ n 1
unfolding newer
newer_next p n e = ground arith

older_cmd :
    (p : Page) (n : ℕ) {s : Text}
    → (older p).cmd_history_idx ≡ pos n
    → get_elem? p.cmd_history n ≡ some s
    → (older p).cmd ≡ s
unfolding older
older_cmd p n e h = rw (e, h)

newer_cmd :
    (p : Page) {i : ℤ}
    → (newer (older p)).cmd_history_idx ≡ i
    → (newer (older p)).cmd ≡ recalled p.cmd_history i
unfolding newer older
newer_cmd p e = rw e

-- Where the index is n - 1 and the command n is stored, counted from the last one given, ArrowUp
-- shows that command and moves the index to it; ArrowDown after it takes the index back to n - 1
-- and shows what stands there, or an empty line at -1.
pub older-newer :
    (p : Page) (n : ℕ) (s : Text)
    → p.cmd_history_idx ≡ sub_ℕ n 1
    → get_elem? p.cmd_history n ≡ some s
    → ((older p).cmd ≡ s)
      × ((older p).cmd_history_idx ≡ pos n)
      × ((newer (older p)).cmd_history_idx ≡ sub_ℕ n 1)
      × ((newer (older p)).cmd ≡ recalled p.cmd_history (sub_ℕ n 1))
older-newer p n s e h =
    let here = older_next p n e (lt-length_of_get_elem? p.cmd_history n h) in
    let back = newer_next (older p) n here in (older_cmd p n here h, here, back, newer_cmd p back)
