-- ===== src/Devices/Show.antt =====
-- What the cards of the devices show (devices/page.tsx).
use rustdesk_plus.Api.Types.{Device}
use rustdesk_plus.Common.{
  Option, [], if◌then◌else◌, none, some, suc, zero, ℕ, ◌%◌, ◌++◌, ◌/◌, ◌||◌, ◌∷◌,
}
use rustdesk_plus.Common.Int.{negsuc, pos, ℤ}
use rustdesk_plus.Common.Text.{Text, contains, decimal, or_text, text, to_lower}

abbrev pub hour : ℕ
hour = 3600000

abbrev pub minute : ℕ
minute = 60000

abbrev minutes_part : ℕ → Text
minutes_part zero = []
minutes_part (suc m) = text " " ++ decimal (suc m) ++ text "min"

abbrev pub hours_and : ℕ → ℕ → Text
hours_and zero zero = text "Online agora"
hours_and zero (suc m) = text "Online há " ++ decimal (suc m) ++ text "min"
hours_and (suc h) m = text "Online há " ++ decimal (suc h) ++ text "h" ++ minutes_part m

-- The milliseconds as whole hours and minutes.
abbrev pub hours_of : ℕ → ℕ
hours_of ms = ms / hour

abbrev pub minutes_of : ℕ → ℕ
minutes_of ms = ms % hour / minute

-- A time before now, by the clock of the browser, or ahead of it, or none (`NaN`): neither of the
-- last two is greater than 0, nor are its hours and minutes.
unfoldable pub online_text : Option ℤ → Text
unfolding decimal
online_text none = text "Online agora"
online_text (some (negsuc n)) = text "Online agora"
online_text (some (pos ms)) = hours_and (hours_of ms) (minutes_of ms)

-- `fmtOnlineSince`, where `elapsed` is `Date.now() - new Date(since).getTime()`.
unfoldable pub fmt_online_since : (Text → Option ℤ) → Option Text → Option Text
unfolding online_text
fmt_online_since elapsed none = none
fmt_online_since elapsed (some []) = none
fmt_online_since elapsed (some (c ∷ since)) = some (online_text (elapsed (c ∷ since)))

pub data Os : Type 0 where
  windows linux mac other : Os

abbrev os_of_lower : Text → Os
os_of_lower l =
    if contains (text "windows") l
    then windows
    else if contains (text "linux") l || contains (text "ubuntu") l || contains (text "debian") l
    then linux
    else if contains (text "mac") l || contains (text "darwin") l
    then mac
    else other

unfoldable pub detect_os : Option Text → Os
unfolding to_lower contains
detect_os none = other
detect_os (some []) = other
detect_os (some (c ∷ os)) = os_of_lower (to_lower (c ∷ os))

-- `device.alias || device.hostname || device.rustdesk_id`
unfoldable pub display_name : Device → Text
display_name d = or_text d.alias (or_text d.hostname d.rustdesk_id)
