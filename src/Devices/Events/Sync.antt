-- ===== src/Devices/Events/Sync.antt =====
-- The devices page with the calls of `load` that are under way (devices/page.tsx).
use mathlib.Core.Option.{some-injective}
use rustdesk_plus.Api.Queries.{ListFilter}
use rustdesk_plus.Api.Types.{Branch, Device, DeviceTagRow}
use rustdesk_plus.Common.{
  Bool, List, Option, Option-cases, [], ap, append-nil, arith, if◌then◌else◌, inl, inr, none, refl,
  some, sym, ℕ, ◌++◌, ◌∙◌, ◌∷◌, ◌≡◌, ◌≢◌,
}
use rustdesk_plus.Common.Text.{Text}
use rustdesk_plus.Devices.Events.{DevicesEvent, dialog_refreshed, handle, refreshes, request_of}
use rustdesk_plus.Devices.Events.Reloads.{request_of_lem}
use rustdesk_plus.Devices.Load.{DevicesPage, SortKey, arrange, filter_of, on_loaded}

-- What a call of `load` works with: the query and the order of its drawing.
pub record Query : Type 0 where
  pub asks : ListFilter
  pub key : SortKey

abbrev pub query_of_page : DevicesPage → Query
query_of_page p = record { asks = filter_of p; key = p.sort_key }

-- The page, the calls that are not answered yet in the order in which they were made, and the call
-- whose answer is drawn with the devices that it brought.
pub record Loads : Type 0 where
  pub page : DevicesPage
  pub pending : List Query
  pub drawn : Query
  pub answer : List Device

-- A handler runs, the interval of ten seconds does, or the next call is answered. A button of a
-- card, or of a dialog that was closed meanwhile, calls `onRefresh` once its own call is answered:
-- `button_refreshes` has the page as it was drawn when the button was pressed, whose `load` it is.
pub data LoadEvent : Type 0 where
  acts : DevicesEvent → LoadEvent
  button_refreshes : DevicesPage → LoadEvent
  interval_runs : LoadEvent
  next_answered : List Device → List Branch → List DeviceTagRow → LoadEvent

abbrev calls_for : SortKey → Option ListFilter → List Query
calls_for k none = []
calls_for k (some f) = record { asks = f; key = k } ∷ []

-- The order of the drawing whose `load` an event calls: the handler's own or the next one.
unfoldable pub key_of : DevicesPage → DevicesEvent → SortKey
unfolding handle
key_of p e = if refreshes e then p.sort_key else (handle p e).sort_key

unfoldable pub load_of : DevicesPage → DevicesEvent → List Query
unfolding request_of key_of
load_of p e = calls_for (key_of p e) (request_of p e)

-- The page when it opens: its first call is made, and the list is empty.
unfoldable pub at_opening : DevicesPage → Loads
at_opening p = record {
  page = p;
  pending = query_of_page p ∷ [];
  drawn = query_of_page p;
  answer = [];
}

-- The last call that was made.
abbrev pub newest : Query → List Query → Query
newest q [] = q
newest q (r ∷ rs) = newest r rs

newest-append : (q r : Query) (qs : List Query) → newest q (qs ++ r ∷ []) ≡ r
newest-append q r [] = refl
newest-append q r (s ∷ qs) = newest-append s r qs

module _ (locale_before : Text → Text → Bool) (time_of : Option Text → ℕ) where
  unfoldable pub take_answer :
      List Query → List Device → List Branch → List DeviceTagRow → Loads → Loads
  unfolding on_loaded
  take_answer [] d b found t = t
  take_answer (q ∷ qs) d b found t = record {
    page = on_loaded locale_before time_of q.key d b found t.page;
    pending = qs;
    drawn = q;
    answer = d;
  }

  -- Answers come in the order of the calls; none fails.
  unfoldable pub load_step : Loads → LoadEvent → Loads
  unfolding handle load_of take_answer
  load_step t (acts e) = record t {
    page = handle t.page e;
    pending = t.pending ++ load_of t.page e;
  }
  load_step t (button_refreshes seen) = record t { pending = t.pending ++ query_of_page seen ∷ [] }
  load_step t interval_runs = record t { pending = t.pending ++ query_of_page t.page ∷ [] }
  load_step t (next_answered d b found) = take_answer t.pending d b found t

  unfoldable pub load_steps : Loads → List LoadEvent → Loads
  unfolding load_step
  load_steps t [] = t
  load_steps t (e ∷ es) = load_steps (load_step t e) es

  -- An event calls `load` for what the page says now.
  abbrev pub IsCurrent : Loads → LoadEvent → Type 0
  IsCurrent t (button_refreshes seen) = query_of_page seen ≡ query_of_page t.page
  IsCurrent t (acts e) = Unit
  IsCurrent t interval_runs = Unit
  IsCurrent t (next_answered d b found) = Unit

  -- So does each event of a run.
  abbrev pub AllCurrent : Loads → List LoadEvent → Type 0
  AllCurrent t [] = Unit
  AllCurrent t (e ∷ es) = IsCurrent t e × AllCurrent (load_step t e) es

  -- The last call is for what the page says, and the devices are those of the call that is drawn.
  pub record InSync (t : Loads) : Type 0 where
    pub current : newest t.drawn t.pending ≡ query_of_page t.page
    pub listed : t.page.devices ≡ arrange locale_before time_of t.drawn.key t.answer

handle-devices : (p : DevicesPage) (e : DevicesEvent) → (handle p e).devices ≡ p.devices
unfolding handle
handle-devices p e = ground arith

key_of_lem : (p : DevicesPage) (e : DevicesEvent) → key_of p e ≡ (handle p e).sort_key
unfolding key_of handle
key_of_lem p e = ground arith

asked_now :
    (p : DevicesPage) (e : DevicesEvent) (f : ListFilter)
    → request_of p e ≡ some f
    → f ≡ filter_of (handle p e)
unfolding request_of
asked_now p dialog_refreshed f h = sym (some-injective _ _ h)
asked_now p e f h = ground (arith, some-injective f (filter_of (handle p e)))

-- An event that calls nothing keeps the query.
silent_keeps :
    (p : DevicesPage) (e : DevicesEvent)
    → request_of p e ≡ none
    → query_of_page p ≡ query_of_page (handle p e)
silent_keeps p e h = elim (request_of_lem p e) [
  | inl (same, order) ↦ cc
  | inr asks ↦ absurd (ground (arith, h, asks))
]

same_query :
    (f : ListFilter) (p : DevicesPage) (k : SortKey)
    → f ≡ filter_of p
    → k ≡ p.sort_key
    → record { asks = f; key = k } ≡ query_of_page p
same_query f p k h e = rw (h, e) refl

newest-load_of :
    (p : DevicesPage) (e : DevicesEvent) (q : Query) (qs : List Query)
    → newest q qs ≡ query_of_page p
    → newest q (qs ++ load_of p e) ≡ query_of_page (handle p e)
unfolding load_of
newest-load_of p e q qs h = elim (Option-cases (request_of p e)) [
  | inl silent ↦
      ap (λ r. newest q (qs ++ calls_for (key_of p e) r)) silent
      ∙ ap (newest q) (append-nil qs)
      ∙ h
      ∙ silent_keeps p e silent
  | inr (f, asks) ↦
      ap (λ r. newest q (qs ++ calls_for (key_of p e) r)) asks
      ∙ newest-append q _ qs
      ∙ same_query f (handle p e) (key_of p e) (asked_now p e f asks) (key_of_lem p e)
]

module _ (locale_before : Text → Text → Bool) (time_of : Option Text → ℕ) where
  take_answer-InSync :
      (ps : List Query) (d : List Device) (b : List Branch) (found : List DeviceTagRow) (t : Loads)
      → newest t.drawn ps ≡ query_of_page t.page
      → InSync locale_before time_of t
      → InSync locale_before time_of (take_answer locale_before time_of ps d b found t)
  unfolding take_answer on_loaded filter_of
  take_answer-InSync [] d b found t e h = h
  take_answer-InSync (q ∷ qs) d b found t e h = record { current = e; listed = refl }

  load_step-InSync :
      (t : Loads) (e : LoadEvent)
      → IsCurrent locale_before time_of t e
      → InSync locale_before time_of t
      → InSync locale_before time_of (load_step locale_before time_of t e)
  unfolding load_step
  load_step-InSync t (acts e) k h = record {
    current = newest-load_of t.page e t.drawn t.pending h.current;
    listed = handle-devices t.page e ∙ h.listed;
  }
  load_step-InSync t (button_refreshes seen) k h = record {
    current = newest-append t.drawn (query_of_page seen) t.pending ∙ k;
    listed = h.listed;
  }
  load_step-InSync t interval_runs k h = record {
    current = newest-append t.drawn (query_of_page t.page) t.pending;
    listed = h.listed;
  }
  load_step-InSync t (next_answered d b found) k h =
      take_answer-InSync t.pending d b found t h.current h

  -- It is in step with its calls from the start.
  pub at_opening-InSync :
      (p : DevicesPage) → p.devices ≡ [] → InSync locale_before time_of (at_opening p)
  unfolding at_opening arrange
  at_opening-InSync p h = record { current = refl; listed = h }

  load_steps-InSync :
      (t : Loads) (es : List LoadEvent)
      → AllCurrent locale_before time_of t es
      → InSync locale_before time_of t
      → InSync locale_before time_of (load_steps locale_before time_of t es)
  unfolding load_steps
  load_steps-InSync t [] k h = h
  load_steps-InSync t (e ∷ es) k h =
      load_steps-InSync (load_step locale_before time_of t e) es k.1 (load_step-InSync t e k.0 h)

  -- As long as the answers come in the order of the calls, none fails, and each button that loads
  -- the list after its own call does so for the query and the order that the page has by then:
  -- whatever handlers run, once nothing is under way the list is that of an answer to the query of
  -- the page as it is now, in the order that is chosen now, if the page is in step with its calls at
  -- first.
  pub load_steps-settled :
      (t : Loads) (es : List LoadEvent)
      → AllCurrent locale_before time_of t es
      → InSync locale_before time_of t
      → (load_steps locale_before time_of t es).pending ≡ []
      → let after = load_steps locale_before time_of t es in
        (after.drawn.asks ≡ filter_of after.page)
        × (after.page.devices ≡ arrange locale_before time_of after.page.sort_key after.answer)
  load_steps-settled t es k h settled =
      let after = load_steps locale_before time_of t es in
      let sync = load_steps-InSync t es k h in
      let now = ap (newest after.drawn) (sym settled) ∙ sync.current in
      (
        ap (λ q. q.asks) now,
        sync.listed ∙ ap (λ q. arrange locale_before time_of q.key after.answer) now,
      )

  -- A page in step with its calls: where a button calls `load` after its own call, and the filters
  -- or the order were changed since it was pressed, the last call is not for what the page says.
  stale_button :
      (t : Loads) (seen : DevicesPage)
      → query_of_page seen ≢ query_of_page t.page
      → ¬ InSync locale_before time_of (load_step locale_before time_of t (button_refreshes seen))
  unfolding load_step
  stale_button t seen n h =
      n (sym (newest-append t.drawn (query_of_page seen) t.pending) ∙ h.current)
