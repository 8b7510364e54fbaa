-- ===== src/Devices/Load/Asked.antt =====
-- What the server reads in the request of `load` (devices/page.tsx with listDevices of api.ts).
use mathlib.Core.Option
use mathlib.Core.Option.{Option, none, some}
use rustdesk_plus.Api.Queries.{ListFilter, bool_text, list_devices, params_of, text_param}
use rustdesk_plus.Api.Queries.Sent.{
  bool_param-AreSent, sent_params, sent_params-list_devices, text_param-AreSent,
}
use rustdesk_plus.Common.{
  All, All-append, Bool-cases, [], all, arith, if◌then◌else◌, inl, inr, refl, true, ◌∷◌, ◌≡◌,
}
use rustdesk_plus.Common.Dict.{lookup}
use rustdesk_plus.Common.Percent.Query.{AreSent, IsSent, ascii-IsSent, is_ascii}
use rustdesk_plus.Common.Text.{Text, text}
use rustdesk_plus.Devices.Load.{DevicesPage, favorite_of, filter_of, given, online_of}

given-AreSent : (k s : Text) → IsSent k → IsSent s → All AreSent (text_param k (given s))
given-AreSent k [] hk hs = tt
given-AreSent k (c ∷ s) hk hs = text_param-AreSent k (c ∷ s) hk hs

key : (s : Text) → all is_ascii s ≡ true → IsSent s
key = ascii-IsSent

params_of-AreSent :
    (f : ListFilter)
    → All AreSent (text_param (text "branch_id") f.branch_id)
    → All AreSent (text_param (text "search") f.search)
    → All AreSent (params_of f)
unfolding params_of
params_of-AreSent f hb hs =
    All-append AreSent _ _
      (All-append AreSent _ _
        (All-append AreSent _ _ (All-append AreSent _ _ hb hs)
          (bool_param-AreSent (text "online") f.online (key _ refl)))
        (bool_param-AreSent (text "favorite") f.favorite (key _ refl)))
      (bool_param-AreSent (text "deleted") f.deleted (key _ refl))

filter_of-AreSent :
    (p : DevicesPage)
    → IsSent p.search
    → IsSent p.branch_filter
    → All AreSent (params_of (filter_of p))
unfolding filter_of
filter_of-AreSent p hs hb =
    let search = given-AreSent (text "search") p.search (key _ refl) hs in
    let branch = given-AreSent (text "branch_id") p.branch_filter (key _ refl) hb in
    elim (Bool-cases p.show_trash) [
      | inl trash ↦ params_of-AreSent (filter_of p) (rw trash tt) (rw trash search)
      | inr live ↦ params_of-AreSent (filter_of p) (rw live branch) (rw live search)
    ]

search_lem : (p : DevicesPage) → lookup (text "search") (params_of (filter_of p)) ≡ given p.search
unfolding params_of filter_of lookup
search_lem p = ground arith

branch_lem :
    (p : DevicesPage)
    → lookup (text "branch_id") (params_of (filter_of p))
      ≡ (if p.show_trash then none else given p.branch_filter)
unfolding params_of filter_of lookup
branch_lem p = ground arith

deleted_lem :
    (p : DevicesPage)
    → lookup (text "deleted") (params_of (filter_of p))
      ≡ (if p.show_trash then some (text "true") else none)
unfolding params_of filter_of lookup
deleted_lem p = ground arith

online_lem :
    (p : DevicesPage)
    → lookup (text "online") (params_of (filter_of p))
      ≡ (if p.show_trash then none else Option.map bool_text (online_of p.status_filter))
unfolding params_of filter_of lookup
online_lem p = ground arith

favorite_lem :
    (p : DevicesPage)
    → lookup (text "favorite") (params_of (filter_of p))
      ≡ (if p.show_trash then none else Option.map bool_text (favorite_of p.status_filter))
unfolding params_of filter_of lookup
favorite_lem p = ground arith

-- The value of a parameter, as the server reads it in the request of `load`.
abbrev pub asked : DevicesPage → Text → Option Text
asked p k = lookup k (sent_params (list_devices (filter_of p)))

-- Of the five parameters of `listDevices` the server reads in the request of a page the search that
-- was typed, where there is one, and besides it in the trash only that the deleted devices are asked
-- for, elsewhere only the branch and the state that are picked, where they are. The search and the
-- branch are texts of units of UTF-16 without lone surrogates.
pub load-asked :
    (p : DevicesPage)
    → IsSent p.search
    → IsSent p.branch_filter
    → (asked p (text "search") ≡ given p.search)
      × (asked p (text "deleted") ≡ (if p.show_trash then some (text "true") else none))
      × (asked p (text "branch_id") ≡ (if p.show_trash then none else given p.branch_filter))
      × (asked p (text "online")
          ≡ (if p.show_trash then none else Option.map bool_text (online_of p.status_filter)))
      × (asked p (text "favorite")
          ≡ (if p.show_trash then none else Option.map bool_text (favorite_of p.status_filter)))
load-asked p hs hb =
    rw (sent_params-list_devices (filter_of p) (filter_of-AreSent p hs hb))
      (search_lem p, deleted_lem p, branch_lem p, online_lem p, favorite_lem p)
