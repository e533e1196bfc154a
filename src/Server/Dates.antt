-- ===== src/Server/Dates.antt =====
-- `iso8601_now` of server/src/namespace.rs, of the seconds since the epoch. What is computed in `u64`
-- wraps around where it can.
pub mod Calendar
use fs.Base.{
  ℕ, zero, suc, [], ◌∷◌, ◌+◌, ◌*◌, ◌-◌, ◌/◌, ◌%◌, ◌^◌, ◌++◌, ltb, leb, if◌then◌else◌, nat_eq,
  length, Text, chars,
}
use fs.Base.Decimal.{decimal}

abbrev pub u64_sub : ℕ → ℕ → ℕ
u64_sub a b = (a + 2 ^ 64 - b) % 2 ^ 64

unfoldable pub year_of_era : ℕ → ℕ
year_of_era doe = (doe - doe / 1461 + doe / 36524 - doe / 146096) / 365

-- The year, the month and the day, from the year and the day of the year that begin in March.
unfoldable pub from_march : ℕ → ℕ → ℕ × ℕ × ℕ
from_march y doy =
    let mp = (5 * doy + 2) % 2 ^ 64 / 153 in
    let d = (u64_sub doy ((153 * mp + 2) % 2 ^ 64 / 5) + 1) % 2 ^ 64 in
    let m = if ltb mp 10 then mp + 3 else mp - 9 in ((if leb m 2 then y + 1 else y), m, d)

-- The date so many days after the epoch.
unfoldable pub date : ℕ → ℕ × ℕ × ℕ
unfolding from_march year_of_era
date days =
    let z = days + 719468 in
    let era = z / 146097 in
    let doe = z - era * 146097 in
    let yoe = year_of_era doe in
    from_march (yoe + era * 400) (u64_sub doe (365 * yoe + yoe / 4 - yoe / 100))

-- `{n:02}` and `{n:04}`
abbrev zeros : ℕ → Text
zeros zero = []
zeros (suc n) = b'0' ∷ zeros n

unfoldable pub padded : ℕ → ℕ → Text
unfolding decimal
padded width n = zeros (width - length (decimal n)) ++ decimal n

unfoldable pub timestamp : ℕ × ℕ × ℕ → ℕ → Text
unfolding padded
timestamp (y, m, d) time_of_day =
    padded 4 y
    ++ chars "-"
    ++ padded 2 m
    ++ chars "-"
    ++ padded 2 d
    ++ chars "T"
    ++ padded 2 (time_of_day / 3600)
    ++ chars ":"
    ++ padded 2 (time_of_day % 3600 / 60)
    ++ chars ":"
    ++ padded 2 (time_of_day % 60)
    ++ chars "Z"

unfoldable pub iso8601 : ℕ → Text
unfolding date timestamp
iso8601 secs = timestamp (date (secs / 86400)) (secs % 86400)
