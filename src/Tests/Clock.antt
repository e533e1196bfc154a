-- ===== src/Tests/Clock.antt =====
-- A few timestamps of server/src/namespace.rs.
use fs.Base.{◌≡◌, refl, ◌+◌, ◌*◌, arith, chars}
use fs.Server.Dates.{date, iso8601, timestamp}
use fs.Server.Dates.Calendar.{march, day_number, iso8601-day_number}

epoch : iso8601 0 ≡ chars "1970-01-01T00:00:00Z"
unfolding iso8601
epoch = refl

-- The first of March of 2024 at eight, and the day before, a leap day, of which the day of the year
-- falls below 0.
spring : iso8601 (19783 * 86400 + 28800) ≡ chars "2024-03-01T08:00:00Z"
unfolding iso8601
spring = refl

leap_day_2024 : date 19782 ≡ (2024, 120566954730127779, 14757395258967641303)
unfolding date
leap_day_2024 = refl

iso8601-day_number_example :
    iso8601 (day_number 54 march 1 * 86400 + 28800) ≡ timestamp (2024, 3, 1) 28800
iso8601-day_number_example =
    iso8601-day_number 54 march 1 28800 (omega arith) (omega arith) (omega arith)
