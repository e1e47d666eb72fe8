-- ===== src/Dates/Tests.antt =====
-- `parse_date` and `whole_days` at dates that can be checked by hand.
use cobalt_dingo.Prelude.{◌≡◌, refl, ◌*◌, some, none}
use cobalt_dingo.Prelude.Int.{pos, negsuc}
use cobalt_dingo.Dates.{parse_date, whole_days, ns_per_day}

parse_some : parse_date "2026-09-14" ≡ some (pos (739872 * ns_per_day))
unfolding parse_date
parse_some = refl

parse_start : parse_date "0001-01-01" ≡ some (pos 0)
unfolding parse_date
parse_start = refl

parse_leap : parse_date "2024-02-29" ≡ some (pos (738944 * ns_per_day))
unfolding parse_date
parse_leap = refl

parse_refused :
    (parse_date "2026-02-29" ≡ none)
    × (parse_date "2026-9-14" ≡ none)
    × (parse_date "2026-09-14T00:00" ≡ none)
    × (parse_date "" ≡ none)
unfolding parse_date
parse_refused = (refl, refl, refl, refl)

whole_days_sign : (whole_days (pos 172799999999999) ≡ pos 1) × (whole_days (negsuc 0) ≡ pos 0)
unfolding whole_days
whole_days_sign = (refl, refl)
