-- ===== src/Call/Dostime.antt =====
-- ax25apps/call/dostime.c: times as MS-DOS keeps them and as YAPP sends them. `none` is undefined
-- behaviour: a shift of a negative year, an index of -1 and an `int` that overflows.
mod Tests
pub mod Text
pub mod RoundTrip
use linuxax.Prelude.{
  ℕ, zero, suc, ◌+◌, ◌-◌, ◌*◌, ◌/◌, ◌%◌, ◌^◌, Bool, true, false, not, ◌&&◌, ◌||◌, List, [], ◌∷◌,
  Option, none, some, ◌==◌, ltb, leb, if◌then◌else◌, get_or,
}
use linuxax.Ipd.Frame.{◌>>=◌}

-- `day_n`
abbrev pub day_n : List ℕ
day_n = 0 ∷ 31 ∷ 59 ∷ 90 ∷ 120 ∷ 151 ∷ 181 ∷ 212 ∷ 243 ∷ 273 ∷ 304 ∷ 334 ∷ 0 ∷ 0 ∷ 0 ∷ 0 ∷ []

-- An `int` that is not too large.
pub int_of : ℕ → Option ℕ
int_of n = if ltb n (2 ^ 31) then some n else none

unfoldable pub date_dos2unix : (time date : ℕ) → Option ℕ
unfolding int_of
date_dos2unix time date =
    let month = date / 32 % 16 in
    let year = date / 512 in
    let leap : ℕ = if (year % 4 == 0) && ltb (month - 1) 2 then 1 else 0 in
    let days = date % 32 + get_or day_n (month - 1) 0 + year / 4 + year * 365 + 3653 - 1 - leap in
    if month == 0
    then none
    else int_of (time % 32 * 2 + 60 * (time / 32 % 64) + time / 2048 * 3600 + 86400 * days)

-- The loop over the months, with `left` rounds to go.
unfoldable pub find_month : (left month nl_day : ℕ) → ℕ
find_month zero month nl_day = month
find_month (suc left) month nl_day =
    let later = find_month left (month + 1) nl_day in
    if ltb nl_day (get_or day_n month 0) then month else later

-- The year of a day since 1980, and the day in that year.
unfoldable pub year_of : ℕ → ℕ
year_of day =
    let year = day / 365 in if ltb day ((year + 3) / 4 + 365 * year) then year - 1 else year

-- The month from 1 on, and the day counted without the leap day.
unfoldable pub month_of : (year day : ℕ) → ℕ × ℕ
month_of year day =
    let nl_day = if not (year % 4 == 0) || leb day 59 then day else day - 1 in
    if (day == 59) && (year % 4 == 0) then (2, day) else (find_month 12 0 nl_day, nl_day)

-- The time and the date.
unfoldable pub date_unix2dos : ℕ → Option (ℕ × ℕ)
unfolding year_of month_of
date_unix2dos unix_date =
    let time = unix_date % 60 / 2 + unix_date / 60 % 60 * 32 + unix_date / 3600 % 24 * 2048 in
    let day = unix_date / 86400 - 3652 in
    let year = year_of day in
    let (month, nl_day) = month_of year (day - ((year + 3) / 4 + 365 * year)) in
    let date = nl_day - get_or day_n (month - 1) 0 + 1 + month * 32 + year * 512 in
    if ltb (unix_date / 86400) 3652 then none else some (time % 2 ^ 16, date % 2 ^ 16)
