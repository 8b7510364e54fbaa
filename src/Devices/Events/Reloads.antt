-- ===== src/Devices/Events/Reloads.antt =====
-- When the list of the devices is asked for again, and what is drawn until the answer
-- (devices/page.tsx).
use rustdesk_plus.Common.{Bool, Bool-cases, arith, false, inl, inr, refl, some, sym, true, ◌≡◌, ◌⊎◌}
use rustdesk_plus.Common.Text.{text_eq}
use rustdesk_plus.Common.Text.Equality.{text_eq→eq}
use rustdesk_plus.Devices.Events.{
  DevicesEvent, bool_eq, dialog_refreshed, filter_eq, handle, request_of, same_deps, sort_eq,
}
use rustdesk_plus.Devices.Load.{
  DevicesPage, Filter, SortKey, all_devices, by_branch, by_last_seen, by_name, by_status, favorites,
  filter_of, offline, online,
}

abbrev SameQuery : DevicesPage → DevicesPage → Type 0
SameQuery p q = (filter_of q ≡ filter_of p) × (q.sort_key ≡ p.sort_key)

filter_eq→eq : (f g : Filter) → filter_eq f g ≡ true → f ≡ g
filter_eq→eq all_devices all_devices h = refl
filter_eq→eq online online h = refl
filter_eq→eq offline offline h = refl
filter_eq→eq favorites favorites h = refl
filter_eq→eq f g h = ground arith

sort_eq→eq : (k l : SortKey) → sort_eq k l ≡ true → k ≡ l
sort_eq→eq by_name by_name h = refl
sort_eq→eq by_status by_status h = refl
sort_eq→eq by_last_seen by_last_seen h = refl
sort_eq→eq by_branch by_branch h = refl
sort_eq→eq f g h = ground arith

bool_eq→eq : (a b : Bool) → bool_eq a b ≡ true → a ≡ b
bool_eq→eq true b h = sym h
bool_eq→eq false b h = ground arith

same_deps-parts :
    (p q : DevicesPage)
    → same_deps p q ≡ true
    → (text_eq p.branch_filter q.branch_filter ≡ true)
      × (text_eq p.search q.search ≡ true)
      × (filter_eq p.status_filter q.status_filter ≡ true)
      × (sort_eq p.sort_key q.sort_key ≡ true)
      × (bool_eq p.show_trash q.show_trash ≡ true)
unfolding same_deps
same_deps-parts p q h = ground arith

same_deps-SameQuery : (p q : DevicesPage) → same_deps p q ≡ true → SameQuery p q
unfolding filter_of
same_deps-SameQuery p q h =
    let (branch, search, status, key, trash) = same_deps-parts p q h in
    rw
      (
        sym (text_eq→eq p.branch_filter q.branch_filter branch),
        sym (text_eq→eq p.search q.search search),
        sym (filter_eq→eq p.status_filter q.status_filter status),
        sym (bool_eq→eq p.show_trash q.show_trash trash),
        sym (sort_eq→eq p.sort_key q.sort_key key),
      )
      (refl, refl)

-- After every event the list is asked for as the page now says, or neither the query nor the order
-- has changed.
pub request_of_lem :
    (p : DevicesPage) (e : DevicesEvent)
    → ((filter_of (handle p e) ≡ filter_of p) × ((handle p e).sort_key ≡ p.sort_key))
      ⊎ (request_of p e ≡ some (filter_of (handle p e)))
unfolding request_of filter_of
request_of_lem p dialog_refreshed = inl (refl, refl)
request_of_lem p e = elim (Bool-cases (same_deps p (handle p e))) [
  | inl same ↦ inl (same_deps-SameQuery p (handle p e) same)
  | inr changed ↦ inr (ground arith)
]
