-- ===== src/Server/Dates/Calendar.antt =====
-- The calendar that `iso8601_now` of server/src/namespace.rs follows: years and months counted day by
-- day from the epoch.
use fs.Base.{
  ℕ, zero, suc, ◌+◌, ◌*◌, ◌-◌, ◌/◌, ◌%◌, ◌^◌, ◌≤◌, ◌<◌, ◌≡◌, ◌∙◌, ap, refl, arith, Bool, ◌&&◌, ◌||◌,
  not, if◌then◌else◌, eqb, nat_eq, ltb, leb,
}
use fs.Server.Dates.{u64_sub, year_of_era, from_march, date, timestamp, iso8601}

abbrev pub is_leap : ℕ → Bool
is_leap y = (eqb (y % 4) 0) && (not (eqb (y % 100) 0) || eqb (y % 400) 0)

abbrev pub year_length : ℕ → ℕ
year_length y = if is_leap y then 366 else 365

-- The days from the epoch to the first day of the year `1970 + n`.
abbrev pub years_days : ℕ → ℕ
years_days zero = 0
years_days (suc n) = years_days n + year_length (1970 + n)

pub data Month : Type 0 where
  january : Month
  february : Month
  march : Month
  april : Month
  may : Month
  june : Month
  july : Month
  august : Month
  september : Month
  october : Month
  november : Month
  december : Month

abbrev pub number : Month → ℕ
number january = 1
number february = 2
number march = 3
number april = 4
number may = 5
number june = 6
number july = 7
number august = 8
number september = 9
number october = 10
number november = 11
number december = 12

-- The days of a month in every year: the last of February in a leap year is not among them.
abbrev pub month_length : Month → ℕ
month_length january = 31
month_length february = 28
month_length march = 31
month_length april = 30
month_length may = 31
month_length june = 30
month_length july = 31
month_length august = 31
month_length september = 30
month_length october = 31
month_length november = 30
month_length december = 31

unfoldable pub leap_day : ℕ → ℕ
leap_day y = if is_leap y then 1 else 0

-- The days of the year `y` before the month.
abbrev pub months_days : ℕ → Month → ℕ
months_days y january = 0
months_days y february = 31
months_days y march = 59 + leap_day y
months_days y april = 90 + leap_day y
months_days y may = 120 + leap_day y
months_days y june = 151 + leap_day y
months_days y july = 181 + leap_day y
months_days y august = 212 + leap_day y
months_days y september = 243 + leap_day y
months_days y october = 273 + leap_day y
months_days y november = 304 + leap_day y
months_days y december = 334 + leap_day y

-- The days from the epoch to a day of the year `1970 + n`.
abbrev pub day_number : ℕ → Month → ℕ → ℕ
day_number n month day = years_days n + months_days (1970 + n) month + (day - 1)

years_days_closed :
    (n : ℕ)
    → years_days n + 719162 + (1969 + n) / 100
      ≡ 365 * (1969 + n) + (1969 + n) / 4 + (1969 + n) / 400
years_days_closed zero = refl
years_days_closed (suc n) = ground (arith, years_days_closed n)

year_of_era_lem :
    (yoe doy : ℕ)
    → yoe < 400
    → doy < 365
    → year_of_era (365 * yoe + yoe / 4 - yoe / 100 + doy) ≡ yoe
unfolding year_of_era
year_of_era_lem yoe doy h k = omega arith

-- The number of a month that begins in March with 0.
abbrev shown : ℕ → ℕ
shown mp = if ltb mp 10 then mp + 3 else mp - 9

from_march_lem :
    (y mp day : ℕ)
    → 1 ≤ day
    → (153 * mp + 2) / 5 + day < 366
    → (5 * ((153 * mp + 2) / 5 + (day - 1)) + 2) / 153 ≡ mp
    → from_march y ((153 * mp + 2) / 5 + (day - 1))
      ≡ ((if leb (shown mp) 2 then y + 1 else y), shown mp, day)
unfolding from_march
from_march_lem y mp day one k e =
    let doy = (153 * mp + 2) / 5 + (day - 1) in
    let a : (5 * doy + 2) % 2 ^ 64 / 153 ≡ mp = omega arith in
    let b : (u64_sub doy ((153 * mp + 2) % 2 ^ 64 / 5) + 1) % 2 ^ 64 ≡ day = omega arith in
    rw (from_march, a, b) refl

leap_day_lem :
    (n : ℕ)
    → leap_day (1970 + n) + (1969 + n) / 4 + (1969 + n) / 400 + (1970 + n) / 100
      ≡ (1970 + n) / 4 + (1970 + n) / 400 + (1969 + n) / 100
unfolding leap_day
leap_day_lem n = ground arith

date_lem :
    (days y doy : ℕ)
    → doy < 365
    → days + 719468 ≡ y / 400 * 146097 + (365 * (y % 400) + y % 400 / 4 - y % 400 / 100 + doy)
    → date days ≡ from_march y doy
unfolding date
date_lem days y doy k e =
    let yoe = y % 400 in
    let doe = 365 * yoe + yoe / 4 - yoe / 100 + doy in
    let a : (days + 719468) / 146097 ≡ y / 400 = omega arith in
    let b : days + 719468 - y / 400 * 146097 ≡ doe = omega arith in
    let c : u64_sub doe (365 * yoe + yoe / 4 - yoe / 100) ≡ doy = omega arith in
    let f : yoe + y / 400 * 400 ≡ y = omega arith in
    rw (date, a, b, year_of_era_lem yoe doy (omega arith) k, c, f) refl

in_month :
    (days y mp day : ℕ)
    → 1 ≤ day
    → (153 * mp + 2) / 5 + day < 366
    → (5 * ((153 * mp + 2) / 5 + (day - 1)) + 2) / 153 ≡ mp
    → days + 719468
      ≡ y / 400 * 146097
        + (365 * (y % 400) + y % 400 / 4 - y % 400 / 100 + ((153 * mp + 2) / 5 + (day - 1)))
    → date days ≡ ((if leb (shown mp) 2 then y + 1 else y), shown mp, day)
in_month days y mp day one k e f =
    date_lem days y ((153 * mp + 2) / 5 + (day - 1)) (omega arith) f
    ∙ from_march_lem y mp day one k e

-- The months before March belong to the year that began in the March before.
in_spring :
    (n : ℕ) (month : Month) (mp day : ℕ)
    → 1 ≤ day
    → (153 * mp + 2) / 5 + day < 366
    → (5 * ((153 * mp + 2) / 5 + (day - 1)) + 2) / 153 ≡ mp
    → months_days (1970 + n) month + 306 ≡ (153 * mp + 2) / 5
    → date (day_number n month day)
      ≡ ((if leb (shown mp) 2 then 1969 + n + 1 else 1969 + n), shown mp, day)
in_spring n month mp day one k e f =
    let c = years_days_closed n in
    in_month (day_number n month day) (1969 + n) mp day one k e (omega arith)

in_autumn :
    (n : ℕ) (month : Month) (mp day : ℕ)
    → 1 ≤ day
    → (153 * mp + 2) / 5 + day < 366
    → (5 * ((153 * mp + 2) / 5 + (day - 1)) + 2) / 153 ≡ mp
    → months_days (1970 + n) month ≡ (153 * mp + 2) / 5 + 59 + leap_day (1970 + n)
    → date (day_number n month day)
      ≡ ((if leb (shown mp) 2 then 1970 + n + 1 else 1970 + n), shown mp, day)
in_autumn n month mp day one k e f =
    let c = years_days_closed n in
    let l = leap_day_lem n in
    in_month (day_number n month day) (1970 + n) mp day one k e (omega arith)

-- A day that every year has is dated as the calendar does.
pub date-day_number :
    (n : ℕ) (month : Month) (day : ℕ)
    → 1 ≤ day
    → day ≤ month_length month
    → date (day_number n month day) ≡ (1970 + n, number month, day)
date-day_number n january day h k =
    in_spring n january 10 day h (omega arith) (omega arith) (omega arith)
    ∙ ap (λ y. (y, 1, day)) (omega arith)
date-day_number n february day h k =
    in_spring n february 11 day h (omega arith) (omega arith) (omega arith)
    ∙ ap (λ y. (y, 2, day)) (omega arith)
date-day_number n march day h k =
    in_autumn n march 0 day h (omega arith) (omega arith) (omega arith)
date-day_number n april day h k =
    in_autumn n april 1 day h (omega arith) (omega arith) (omega arith)
date-day_number n may day h k = in_autumn n may 2 day h (omega arith) (omega arith) (omega arith)
date-day_number n june day h k = in_autumn n june 3 day h (omega arith) (omega arith) (omega arith)
date-day_number n july day h k = in_autumn n july 4 day h (omega arith) (omega arith) (omega arith)
date-day_number n august day h k =
    in_autumn n august 5 day h (omega arith) (omega arith) (omega arith)
date-day_number n september day h k =
    in_autumn n september 6 day h (omega arith) (omega arith) (omega arith)
date-day_number n october day h k =
    in_autumn n october 7 day h (omega arith) (omega arith) (omega arith)
date-day_number n november day h k =
    in_autumn n november 8 day h (omega arith) (omega arith) (omega arith)
date-day_number n december day h k =
    in_autumn n december 9 day h (omega arith) (omega arith) (omega arith)

-- The timestamp of any second of a day of the calendar, from 1970 on, is of this day and of the time of
-- the day, for each day but the last of February in a leap year.
pub iso8601-day_number :
    (n : ℕ) (month : Month) (day time : ℕ)
    → 1 ≤ day
    → day ≤ month_length month
    → time < 86400
    → iso8601 (day_number n month day * 86400 + time) ≡ timestamp (1970 + n, number month, day) time
unfolding iso8601
iso8601-day_number n month day time h k t =
    let d : (day_number n month day * 86400 + time) / 86400 ≡ day_number n month day =
      omega arith in
    let r : (day_number n month day * 86400 + time) % 86400 ≡ time = omega arith in
    let number_of_day = day_number n month day in
    ap (λ q. timestamp (date q) ((number_of_day * 86400 + time) % 86400)) d
    ∙ ap (λ q. timestamp (date number_of_day) q) r
    ∙ ap (λ q. timestamp q time) (date-day_number n month day h k)
