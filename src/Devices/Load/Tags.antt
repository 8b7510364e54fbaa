-- ===== src/Devices/Load/Tags.antt =====
-- The tags that a card shows.
use rustdesk_plus.Api.Types.{DeviceTagRow, Tag}
use rustdesk_plus.Common.{
  Bool, Bool-cases, List, [], append-nil, append_assoc, arith, filter, if◌then◌else◌, inl, inr, map,
  or_default, sym, ◌++◌, ◌∷◌, ◌≡◌,
}
use rustdesk_plus.Common.Dict.{lookup, lookup-insert}
use rustdesk_plus.Common.Text.{Text, text_eq}
use rustdesk_plus.Common.Text.Equality.{text_eq→eq}
use rustdesk_plus.Devices.Load.{push_row, push_rows, tag_map, tag_of_row}

abbrev pub is_row_of : Text → DeviceTagRow → Bool
is_row_of id r = text_eq r.device_id id

lookup-push_row :
    (id : Text) (r : DeviceTagRow) (m : List (Text × List Tag))
    → or_default (lookup id (push_row r m)) [] ≡ (
        if is_row_of id r
        then or_default (lookup id m) [] ++ tag_of_row r ∷ []
        else or_default (lookup id m) [])
unfolding push_row
lookup-push_row id r m = ground (
  arith,
  text_eq→eq r.device_id id,
  lookup-insert r.device_id id (or_default (lookup r.device_id m) [] ++ tag_of_row r ∷ []) m,
)

lookup-push_rows :
    (id : Text) (rs : List DeviceTagRow) (m : List (Text × List Tag))
    → or_default (lookup id (push_rows rs m)) []
      ≡ or_default (lookup id m) [] ++ map tag_of_row (filter (is_row_of id) rs)
unfolding push_rows
lookup-push_rows id [] m = sym (append-nil (or_default (lookup id m) []))
lookup-push_rows id (r ∷ rs) m = elim (Bool-cases (is_row_of id r)) [
  | inl own ↦
      rw (lookup-push_rows id rs (push_row r m), lookup-push_row id r m, own)
        (append_assoc (or_default (lookup id m) []) (tag_of_row r ∷ [])
          (map tag_of_row (filter (is_row_of id) rs)))
  | inr foreign ↦ rw (lookup-push_rows id rs (push_row r m), lookup-push_row id r m, foreign)
]

-- The tags that the page keeps for a device, which its card shows, are those of the rows of the
-- device, in the order of the rows.
pub lookup-tag_map :
    (id : Text) (rs : List DeviceTagRow)
    → or_default (lookup id (tag_map rs)) [] ≡ map tag_of_row (filter (is_row_of id) rs)
unfolding tag_map lookup
lookup-tag_map id rs = lookup-push_rows id rs []
