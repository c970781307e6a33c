-- ===== src/Call/Dostime/RoundTrip.antt =====
-- A time that is written as MS-DOS keeps it, read again.
use linuxax.Prelude.{
  ℕ, ◌+◌, ◌-◌, ◌*◌, ◌/◌, ◌%◌, ◌^◌, ◌≤◌, ◌<◌, ◌≡◌, refl, ap, ◌∙◌, Bool, true, false, ◌&&◌, some,
  ◌==◌, ltb, lt→ltb, leb, if◌then◌else◌, get_or, arith, Bool-cases, inl, inr, ◌⊎◌,
}
use linuxax.Prelude.Bits.{all_below, all_below_sound}
use linuxax.Call.Dostime.{
  day_n, int_of, date_dos2unix, find_month, year_of, month_of, date_unix2dos,
}

-- The first day of a year since 1980.
abbrev start : ℕ → ℕ
start year = (year + 3) / 4 + 365 * year

year_of_bounds :
    (day : ℕ) → day < 47000 → (start (year_of day) ≤ day) × (day < start (year_of day + 1))
unfolding year_of
year_of_bounds day h = ground arith

-- A month from 1 to 12, whose first day is at most 30 days before, and February or one before it
-- exactly for the days before March.
abbrev good_month : ℕ → ℕ → Bool
good_month nl_day m =
    let first = get_or day_n (m - 1) 0 in
    leb 1 m
    && leb m 12
    && leb first nl_day
    && leb nl_day (first + 30)
    && (if leb m 2 then ltb nl_day 59 else leb 59 nl_day)

months : all_below 365 (λ nl_day. good_month nl_day (find_month 12 0 nl_day)) ≡ true
unfolding all_below find_month
months = refl

record IsMonth (nl_day m : ℕ) : Type 0 where
  from_1 : 1 ≤ m
  to_12 : m ≤ 12
  first : get_or day_n (m - 1) 0 ≤ nl_day
  last : nl_day ≤ get_or day_n (m - 1) 0 + 30
  winter : ((m ≤ 2) × (nl_day < 59)) ⊎ ((2 < m) × (59 ≤ nl_day))

good_month-IsMonth :
    (nl_day m first : ℕ)
    → (leb 1 m
        && leb m 12
        && leb first nl_day
        && leb nl_day (first + 30)
        && (if leb m 2 then ltb nl_day 59 else leb 59 nl_day))
      ≡ true
    → (1 ≤ m)
      × (m ≤ 12)
      × (first ≤ nl_day)
      × (nl_day ≤ first + 30)
      × (((m ≤ 2) × (nl_day < 59)) ⊎ ((2 < m) × (59 ≤ nl_day)))
good_month-IsMonth nl_day m first e = ground arith

find_month-IsMonth : (nl_day : ℕ) → nl_day < 365 → IsMonth nl_day (find_month 12 0 nl_day)
find_month-IsMonth nl_day h =
    let m = find_month 12 0 nl_day in
    let (a, b, c, d, e) =
      good_month-IsMonth nl_day m (get_or day_n (m - 1) 0)
        (all_below_sound 365 (λ n. good_month n (find_month 12 0 n)) nl_day h months) in
    record { from_1 = a; to_12 = b; first = c; last = d; winter = e }

-- The month and the day of a year are those that make up its days again.
record IsDate (year day m nl_day : ℕ) : Type 0 where
  from_1 : 1 ≤ m
  to_12 : m ≤ 12
  first : get_or day_n (m - 1) 0 ≤ nl_day
  last : nl_day ≤ get_or day_n (m - 1) 0 + 30
  total :
      nl_day
        + 1
        + year / 4
        + year * 365
        + 3653
        - 1
        - (if (year % 4 == 0) && ltb (m - 1) 2 then 1 else 0)
      ≡ start year + day + 3652

and_false : (b : Bool) → (b && false) ≡ false
and_false true = refl
and_false false = refl

month_of-IsDate :
    (year day : ℕ)
    → start year + day < start (year + 1)
    → let (m, nl_day) = month_of year day in IsDate year day m nl_day
unfolding month_of
month_of-IsDate year day h = elim (Bool-cases (year % 4 == 0)) [
  | inr common ↦
      let of_month = find_month-IsMonth day (ground (arith, common)) in
      rw (common, and_false (day == 59))
        (record {
          from_1 = of_month.from_1;
          to_12 = of_month.to_12;
          first = of_month.first;
          last = of_month.last;
          total = ground (arith, common);
        })
  | inl leap ↦ elim (Bool-cases (day == 59)) [
    | inl leap_day ↦
        rw (leap, leap_day)
          (record {
            from_1 = omega arith;
            to_12 = omega arith;
            first = ground (arith, leap_day);
            last = ground (arith, leap_day);
            total = ground (arith, leap);
          })
    | inr other ↦ elim (Bool-cases (leb day 59)) [
      | inl before ↦
          let of_month = find_month-IsMonth day (ground (arith, before)) in
          let winter : find_month 12 0 day ≤ 2 = ground (arith, of_month.winter, before, other) in
          rw (leap, other, before)
            (record {
              from_1 = of_month.from_1;
              to_12 = of_month.to_12;
              first = of_month.first;
              last = of_month.last;
              total = ground (arith, leap, winter, of_month.from_1);
            })
      | inr after ↦
          let of_month = find_month-IsMonth (day - 1) (ground (arith, after, leap)) in
          let spring : 2 < find_month 12 0 (day - 1) =
            ground (arith, of_month.winter, after, other) in
          rw (leap, other, after)
            (record {
              from_1 = of_month.from_1;
              to_12 = of_month.to_12;
              first = of_month.first;
              last = of_month.last;
              total = ground (arith, leap, spring, after);
            })
    ]
  ]
]

-- The fields of a date that is packed into 16 bits.
packed_date :
    (dd m year : ℕ)
    → dd ≤ 31
    → m ≤ 12
    → year < 128
    → let date = (dd + m * 32 + year * 512) % 2 ^ 16 in
      (date % 32 ≡ dd) × (date / 32 % 16 ≡ m) × (date / 512 ≡ year)
packed_date dd m year h k l = (omega arith, omega arith, omega arith)

packed_time :
    (s m h : ℕ)
    → s ≤ 29
    → m ≤ 59
    → h ≤ 23
    → let time = (s + m * 32 + h * 2048) % 2 ^ 16 in
      (time % 32 ≡ s) × (time / 32 % 64 ≡ m) × (time / 2048 ≡ h)
packed_time s m h a b c = (omega arith, omega arith, omega arith)

seconds :
    (t : ℕ)
    → t % 60 / 2 * 2 + 60 * (t / 60 % 60) + t / 3600 % 24 * 3600 + 86400 * (t / 86400) ≡ t - t % 2
seconds t = omega arith

-- The days since 1970 that a date stands for.
days_again :
    (year m nl_day day : ℕ)
    → IsDate year day m nl_day
    → nl_day
        - get_or day_n (m - 1) 0
        + 1
        + get_or day_n (m - 1) 0
        + year / 4
        + year * 365
        + 3653
        - 1
        - (if (year % 4 == 0) && ltb (m - 1) 2 then 1 else 0)
      ≡ start year + day + 3652
days_again year m nl_day day d = omega (arith, d.first, d.total)

-- What is read of the packed fields.
unpacked :
    (s mi h dd m year : ℕ)
    → (s ≤ 29) × (mi ≤ 59) × (h ≤ 23)
    → (dd ≤ 31) × (1 ≤ m) × (m ≤ 12) × (year < 128)
    → date_dos2unix ((s + mi * 32 + h * 2048) % 2 ^ 16) ((dd + m * 32 + year * 512) % 2 ^ 16)
      ≡ int_of (
          s * 2
          + 60 * mi
          + h * 3600
          + 86400
            * (dd
                + get_or day_n (m - 1) 0
                + year / 4
                + year * 365
                + 3653
                - 1
                - (if (year % 4 == 0) && ltb (m - 1) 2 then 1 else 0)))
unfolding date_dos2unix
unpacked s mi h dd m year (a, b, c) (d, e, f, g) =
    let time = packed_time s mi h a b c in
    let date = packed_date dd m year d f g in
    let named : (m == 0) ≡ false = ground (arith, e) in
    rw (time.0, time.1, time.2, date.0, date.1, date.2, named) refl

int_of-lt : (n k : ℕ) → n ≡ k → k < 2 ^ 31 → int_of n ≡ some k
unfolding int_of
int_of-lt n k e h = let small : ltb n (2 ^ 31) ≡ true = lt→ltb _ _ (omega arith) in rw (small, e)

pub record IsPacked (t : ℕ) : Type 0 where
  pub time : ℕ
  pub date : ℕ
  pub packed : date_unix2dos t ≡ some (time, date)
  pub time_fits : time < 2 ^ 16
  pub date_fits : date < 2 ^ 16
  pub again : date_dos2unix time date ≡ some (t - t % 2)

-- From 1980 to where the seconds leave 31 bits.
pub date_unix2dos-IsPacked : (t : ℕ) → 315532800 ≤ t → t < 2 ^ 31 → IsPacked t
unfolding date_unix2dos
date_unix2dos-IsPacked t since before =
    let day = t / 86400 - 3652 in
    let year = year_of day in
    let left = day - start year in
    let (m, nl_day) = month_of year left in
    let dd = nl_day - get_or day_n (m - 1) 0 + 1 in
    let recent : ltb (t / 86400) 3652 ≡ false = ground arith in
    let bounds = year_of_bounds day (omega arith) in
    let is_date = month_of-IsDate year left (omega (arith, bounds)) in
    let years : year < 128 = omega (arith, bounds) in
    let days = days_again year m nl_day left is_date in
    record {
      time = (t % 60 / 2 + t / 60 % 60 * 32 + t / 3600 % 24 * 2048) % 2 ^ 16;
      date = (dd + m * 32 + year * 512) % 2 ^ 16;
      packed = rw recent refl;
      time_fits = omega arith;
      date_fits = omega arith;
      again =
          unpacked (t % 60 / 2) (t / 60 % 60) (t / 3600 % 24) dd m year
            (omega arith, omega arith, omega arith)
            (omega (arith, is_date.last), is_date.from_1, is_date.to_12, years)
          ∙ int_of-lt _ (t - t % 2)
              (ap (λ n. t % 60 / 2 * 2 + 60 * (t / 60 % 60) + t / 3600 % 24 * 3600 + 86400 * n)
                  (days ∙ omega (arith, bounds))
                ∙ seconds t)
              (omega arith);
    }
