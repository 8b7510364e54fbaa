-- ===== src/Tests/DeviceLoads.antt =====
-- The calls of `load` of the devices page at concrete inputs.
use rustdesk_plus.Common.{List, [], false, none, refl, some, true, ◌∷◌, ◌≡◌}
use rustdesk_plus.Common.Percent.Query.{ascii-IsSent}
use rustdesk_plus.Common.Text.{text, text_eq}
use rustdesk_plus.Devices.Events.{handle, request_of, same_deps, search_typed}
use rustdesk_plus.Devices.Events.Sync.{
  AllCurrent, LoadEvent, acts, at_opening, at_opening-InSync, button_refreshes, key_of, load_of,
  load_step, load_steps, load_steps-settled, next_answered, take_answer,
}
use rustdesk_plus.Devices.Load.{DevicesPage, arrange, filter_of}
use rustdesk_plus.Devices.Load.Asked.{asked, load-asked}
use rustdesk_plus.Tests.Devices.{device_of, four, no_time, page, shorter}

-- What is typed would set another parameter if it were not encoded.
abbrev sly : DevicesPage
sly = record page { search = text "a&deleted=true"; branch_filter = text "b 1" }

load-asked_example :
    (asked sly (text "search") ≡ some (text "a&deleted=true"))
    × (asked sly (text "deleted") ≡ none)
    × (asked sly (text "branch_id") ≡ some (text "b 1"))
    × (asked sly (text "online") ≡ none)
    × (asked sly (text "favorite") ≡ none)
load-asked_example =
    load-asked sly (ascii-IsSent sly.search refl) (ascii-IsSent sly.branch_filter refl)

abbrev first_page : DevicesPage
first_page = record page { devices = [] }

-- The page when a button of a card is pressed.
abbrev typed_page : DevicesPage
typed_page = record first_page { search = text "a" }

abbrev typed_and_answered : List LoadEvent
typed_and_answered =
    acts (search_typed (text "a"))
    ∷ next_answered four [] []
    ∷ button_refreshes typed_page
    ∷ next_answered four [] []
    ∷ next_answered (device_of (text "a") false true ∷ []) [] []
    ∷ []

all_answered : (load_steps shorter no_time (at_opening first_page) typed_and_answered).pending ≡ []
unfolding at_opening load_steps load_step load_of key_of request_of same_deps handle take_answer
    text_eq
all_answered = refl

current : AllCurrent shorter no_time (at_opening first_page) typed_and_answered
unfolding at_opening load_step load_of key_of request_of same_deps handle take_answer text_eq
current = (tt, (tt, (refl, (tt, (tt, tt)))))

load_steps-settled_example :
    let after = load_steps shorter no_time (at_opening first_page) typed_and_answered in
    (after.drawn.asks ≡ filter_of after.page)
    × (after.page.devices ≡ arrange shorter no_time after.page.sort_key after.answer)
load_steps-settled_example =
    load_steps-settled shorter no_time (at_opening first_page) typed_and_answered current
      (at_opening-InSync shorter no_time first_page refl) all_answered
