-- ===== src/Devices/Load/Order.antt =====
-- The order in which the devices are shown.
use mathlib.Core.List.Perm
use mathlib.Core.List.{Perm}
use rustdesk_plus.Api.Types.{Device}
use rustdesk_plus.Common.{
  Bool, Bool-cases, List, Option, arith, filter, filter-append, inl, inr, leb, not, or_default,
  true, ℕ, ◌++◌, ◌∙◌, ◌≡◌, ◌⊎◌,
}
use rustdesk_plus.Common.Sort.{
  IsSorted, IsTotal, IsTransitive, filter-IsSorted, sort, sort-IsSorted, sort-Perm, sort-true_first,
}
use rustdesk_plus.Common.Text.{Text, text}
use rustdesk_plus.Devices.Load.{
  SortKey, arrange, before_by, by_branch, by_last_seen, by_name, by_status, favorites_first,
  is_online,
}
use rustdesk_plus.Devices.Show.{display_name}

abbrev pub is_favorite : Device → Bool
is_favorite d = d.favorite

abbrev pub other_device : Device → Bool
other_device d = not d.favorite

abbrev pub is_offline : Device → Bool
is_offline d = not d.online

pub leb_total : (m n : ℕ) → (leb m n ≡ true) ⊎ (leb n m ≡ true)
leb_total m n = elim (Bool-cases (leb m n)) [
  | inl first ↦ inl first
  | inr second ↦ inr (ground arith)
]

module _ (locale_before : Text → Text → Bool) (time_of : Option Text → ℕ) where
  arrange-split :
      (key : SortKey) (ds : List Device)
      → let sorted = sort (before_by locale_before time_of key) ds in
        arrange locale_before time_of key ds
        ≡ filter is_favorite sorted ++ filter other_device sorted
  unfolding arrange favorites_first
  arrange-split key ds = sort-true_first is_favorite (sort (before_by locale_before time_of key) ds)

  -- All devices that the server sent are shown, each as often as it was sent.
  arrange-Perm : (key : SortKey) (ds : List Device) → Perm (arrange locale_before time_of key ds) ds
  unfolding arrange
  arrange-Perm key ds =
      Perm.trans (sort-Perm _ (sort (before_by locale_before time_of key) ds))
        (sort-Perm (before_by locale_before time_of key) ds)

  -- The comparators of the first sort compare any two devices and are transitive, if the
  -- comparison of names is.
  before_by-IsTotal :
      (key : SortKey) → IsTotal locale_before → IsTotal (before_by locale_before time_of key)
  unfolding before_by
  before_by-IsTotal by_name total a b = total (display_name a) (display_name b)
  before_by-IsTotal by_status total a b = elim (Bool-cases a.online) [
    | inl first ↦ inl (ground arith)
    | inr second ↦ inr (ground arith)
  ]
  before_by-IsTotal by_last_seen total a b =
      leb_total (time_of b.last_seen_at) (time_of a.last_seen_at)
  before_by-IsTotal by_branch total a b =
      total (or_default a.branch_id (text "zzz")) (or_default b.branch_id (text "zzz"))

  before_by-IsTransitive :
      (key : SortKey)
      → IsTransitive locale_before
      → IsTransitive (before_by locale_before time_of key)
  unfolding before_by
  before_by-IsTransitive by_name step a b c h k =
      step (display_name a) (display_name b) (display_name c) h k
  before_by-IsTransitive by_status step a b c h k = ground arith
  before_by-IsTransitive by_last_seen step a b c h k = ground arith
  before_by-IsTransitive by_branch step a b c h k =
      step (or_default a.branch_id (text "zzz")) (or_default b.branch_id (text "zzz"))
        (or_default c.branch_id (text "zzz")) h k

  -- The devices that are shown are those that the server sent, each as often; the favorites come
  -- first, and both parts are in the order of the chosen key, if the comparison of names compares
  -- any two texts and is transitive.
  pub arrange_lem :
      (key : SortKey) (ds : List Device)
      → IsTotal locale_before
      → IsTransitive locale_before
      → let sorted = sort (before_by locale_before time_of key) ds in
        let favorites = filter is_favorite sorted in
        let rest = filter other_device sorted in
        (arrange locale_before time_of key ds ≡ favorites ++ rest)
        × Perm (arrange locale_before time_of key ds) ds
        × IsSorted (before_by locale_before time_of key) favorites
        × IsSorted (before_by locale_before time_of key) rest
  arrange_lem key ds total step =
      let ordered =
        sort-IsSorted (before_by locale_before time_of key) (before_by-IsTotal key total)
          (before_by-IsTransitive key step) ds in
      (
        arrange-split key ds,
        arrange-Perm key ds,
        filter-IsSorted _ is_favorite (sort (before_by locale_before time_of key) ds) ordered,
        filter-IsSorted _ other_device (sort (before_by locale_before time_of key) ds) ordered,
      )

  by_status-split :
      (ds : List Device)
      → sort (before_by locale_before time_of by_status) ds
        ≡ filter is_online ds ++ filter is_offline ds
  unfolding before_by
  by_status-split ds = sort-true_first is_online ds

  -- By status: the favorites that are online, those that are offline, the others that are online,
  -- those that are offline, each group in the order of the server.
  pub arrange-by_status :
      (ds : List Device)
      → arrange locale_before time_of by_status ds
        ≡ (filter is_favorite (filter is_online ds) ++ filter is_favorite (filter is_offline ds))
          ++ (filter other_device (filter is_online ds)
              ++ filter other_device (filter is_offline ds))
  arrange-by_status ds =
      arrange-split by_status ds
      ∙ rw (
        by_status-split ds,
        filter-append is_favorite (filter is_online ds) (filter is_offline ds),
        filter-append other_device (filter is_online ds) (filter is_offline ds),
      )
