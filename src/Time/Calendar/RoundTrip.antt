-- ===== src/Time/Calendar/RoundTrip.antt =====
-- A time is a date and a time of day in one way.
use litemq.Prelude.{
  ℕ, zero, suc, ◌+◌, ◌-◌, ◌*◌, ◌/◌, ◌%◌, ◌^◌, ◌<◌, ◌≤◌, ◌≡◌, refl, ap, sym, ◌∙◌, inl, inr, Bool,
  true, false, Bool-cases, if◌then◌else◌, ltb, ltb→lt, lt→ltb, ◌==◌, List, [], ◌∷◌, get_or, length,
  All, arith,
}
use litemq.Time.Calendar.{
  Tm, later_months, days, is_leap, gm_to_days, gm_to_time, lower_bound, split_years, time_to_gm,
  normalize,
}

-- The entry before the bound is below the value.
pub lower_bound-below :
    (x : ℕ) (xs : List ℕ) (t : ℕ) → x < t → get_or (x ∷ xs) (lower_bound xs t) 0 < t
lower_bound-below x [] t k = k
lower_bound-below x (y ∷ ys) t k = elim (Bool-cases (ltb y t)) [
  | inl e ↦ rw e (lower_bound-below y ys t (ltb→lt y t e))
  | inr e ↦ rw e k
]

-- What `split_years` finds for a day of a period of four years.
pub split_years_lem :
    (r : ℕ)
    → r < 1461
    → let (more, yday, leap) = split_years r in
      (more < 4) × (yday < 366) × (r ≡ more * 365 + (more + 1) / 4 + yday) × ((more == 2) ≡ leap)
unfolding split_years
split_years_lem r k = ground arith

is_leap-period : (q more : ℕ) → more < 4 → is_leap (q * 4 + more) ≡ (more == 2)
is_leap-period q more k = ground arith

-- The days of a date that lies `more` years and `yday` days into period `q`.
gm_to_days-period :
    (q more yday : ℕ) (et : Tm)
    → more < 4
    → et.tm_year ≡ q * 4 + more + 70
    → et.tm_mon ≡ lower_bound (later_months (more == 2)) (yday + 1)
    → et.tm_mday ≡ yday + 1 - get_or (days (more == 2)) et.tm_mon 0
    → gm_to_days et ≡ q * 1461 + (more * 365 + (more + 1) / 4 + yday)
unfolding gm_to_days
gm_to_days-period q more yday et k y m d =
    let years : et.tm_year - 70 ≡ q * 4 + more = omega arith in
    let below = lower_bound-below 0 (later_months (more == 2)) (yday + 1) (omega arith) in
    let leap : is_leap (et.tm_year - 70) ≡ (more == 2) =
      ap is_leap years ∙ is_leap-period q more k in
    let entry = ap (λ b. get_or (days b) et.tm_mon 0) leap in
    let same = ap (λ n. get_or (days (more == 2)) n 0) m in
    omega (arith, years, d, entry, same, below)

-- The first second of a period of four years that ends behind the last year of an `int`.
abbrev pub end_of_years : ℕ
end_of_years = 536870894 * 1461 * 86400

-- Before it `tm_year` is the year.
pub tm_year-exact :
    (t more : ℕ)
    → t < end_of_years
    → more < 4
    → (t / 60 / 60 / 24 / 1461 * 4 + more + 70) % 2 ^ 32 ≡ t / 60 / 60 / 24 / 1461 * 4 + more + 70
tm_year-exact t more k m = omega (arith, k, m)

pub gm_to_days-time_to_gm :
    (t : ℕ) → t < end_of_years → gm_to_days (time_to_gm t) ≡ t / 60 / 60 / 24
unfolding time_to_gm
gm_to_days-time_to_gm t small =
    let day = t / 60 / 60 / 24 in
    let s = split_years_lem (day % 1461) (omega arith) in
    let (more, yday, leap) = split_years (day % 1461) in
    gm_to_days-period (day / 1461) more yday (time_to_gm t) s.0 (tm_year-exact t more small s.0)
      (ap (λ b. lower_bound (later_months b) (yday + 1)) (sym s.3))
      (ap (λ b. yday + 1 - get_or (days b) (time_to_gm t).tm_mon 0) (sym s.3))
    ∙ omega (arith, s.2)

-- Splitting a time from 1970 on, before the last years whose number fits into the `int` of `tm_year`,
-- into a date and a time of day, and putting it together again, gives the same time.
pub gm_to_time-time_to_gm : (t : ℕ) → t < end_of_years → gm_to_time (time_to_gm t) ≡ t
unfolding gm_to_time time_to_gm
gm_to_time-time_to_gm t small = omega (arith, gm_to_days-time_to_gm t small)

abbrev IsAscending : ℕ → List ℕ → Type 0
IsAscending x [] = Unit {0}
IsAscending x (y ∷ ys) = (x ≤ y) × IsAscending y ys

first-le :
    (x : ℕ) (xs : List ℕ) (i : ℕ) → IsAscending x xs → i ≤ length xs → x ≤ get_or (x ∷ xs) i 0
first-le x xs zero a k = omega arith
first-le x [] (suc i) a k = absurd (omega arith)
first-le x (y ∷ ys) (suc i) a k = omega (arith, a.0, first-le y ys i a.1 (omega arith))

-- In an ascending table the bound of a value is the entry that it lies behind.
lower_bound-at :
    (x : ℕ) (xs : List ℕ) (t last i : ℕ)
    → IsAscending x xs
    → i ≤ length xs
    → get_or (x ∷ xs) i 0 < t
    → t ≤ get_or xs i last
    → lower_bound xs t ≡ i
lower_bound-at x [] t last zero a k l m = refl
lower_bound-at x [] t last (suc i) a k l m = absurd (omega arith)
lower_bound-at x (y ∷ ys) t last zero a k l m = let no : ltb y t ≡ false = ground arith in rw no
lower_bound-at x (y ∷ ys) t last (suc i) a k l m =
    let past : ltb y t ≡ true = lt→ltb y t (omega (arith, first-le y ys i a.1)) in
    rw past (ap suc (lower_bound-at y ys t last i a.1 (omega arith) l m))

abbrev pub year_length : Bool → ℕ
year_length leap = if leap then 366 else 365

-- A date and a time of day in the calendar of `DAYS`, from 1970 on, with the year as an `int`.
pub record IsDate (et : Tm) : Type 0 where
  pub from_1970 : 70 ≤ et.tm_year
  pub int_year : et.tm_year < 2 ^ 31
  pub month : et.tm_mon < 12
  pub first_day : 1 ≤ et.tm_mday
  pub last_day :
      let leap = is_leap (et.tm_year - 70) in
      get_or (days leap) et.tm_mon 0 + et.tm_mday
      ≤ get_or (later_months leap) et.tm_mon (year_length leap)
  pub hour : et.tm_hour < 24
  pub minute : et.tm_min < 60
  pub second : et.tm_sec < 60

table-IsAscending :
    (leap : Bool) → IsAscending 0 (later_months leap) × (length (later_months leap) ≡ 11)
table-IsAscending true = omega arith
table-IsAscending false = omega arith

get_or-le : (n : ℕ) (xs : List ℕ) (i : ℕ) → All (λ x. x ≤ n) xs → get_or xs i n ≤ n
get_or-le n [] i a = omega arith
get_or-le n (x ∷ xs) zero a = a.0
get_or-le n (x ∷ xs) (suc i) a = get_or-le n xs i a.1

month_end-le :
    (leap : Bool) (i : ℕ) → get_or (later_months leap) i (year_length leap) ≤ year_length leap
month_end-le true i = get_or-le 366 (later_months true) i (omega arith)
month_end-le false i = get_or-le 365 (later_months false) i (omega arith)

split_years-at :
    (k yday : ℕ)
    → k < 4
    → yday < year_length (k == 2)
    → split_years (k * 365 + (k + 1) / 4 + yday) ≡ (k, yday, (k == 2))
unfolding split_years
split_years-at zero yday k l = ground arith
split_years-at (suc zero) yday k l = ground arith
split_years-at (suc (suc zero)) yday k l = ground arith
split_years-at (suc (suc (suc zero))) yday k l = ground arith
split_years-at (suc (suc (suc (suc n)))) yday k l = absurd (omega arith)

in_period : (k yday : ℕ) → k < 4 → yday < year_length (k == 2) → k * 365 + (k + 1) / 4 + yday < 1461
in_period k yday l m = ground arith

-- The date that `time_to_gm` finds, by the day and its place in the period of four years.
time_to_gm-date :
    (t day more yday : ℕ) (leap : Bool)
    → t / 60 / 60 / 24 ≡ day
    → split_years (day % 1461) ≡ (more, yday, leap)
    → let e = time_to_gm t in
      (e.tm_year ≡ (day / 1461 * 4 + more + 70) % 2 ^ 32)
      × (e.tm_mon ≡ lower_bound (later_months leap) (yday + 1))
      × (e.tm_mday ≡ yday + 1 - get_or (days leap) (lower_bound (later_months leap) (yday + 1)) 0)
      × (e.tm_yday ≡ yday)
unfolding time_to_gm
time_to_gm-date t day more yday leap d s = rw (d, s) (refl, refl, refl, refl)

abbrev day_of_year : Tm → ℕ
day_of_year et = get_or (days (is_leap (et.tm_year - 70))) et.tm_mon 0 + et.tm_mday - 1

-- Putting a date from 1970 on, with a year that fits into the `int` of `tm_year`, and a time of day
-- together, and splitting the time again, gives back the year, the month, the day, the hour, the minute and the second, and the day of the year
-- that the date is. So `normalize` leaves such a date alone.
pub normalize-date :
    (et : Tm)
    → IsDate et
    → let e = normalize et in
      (e.tm_year ≡ et.tm_year)
      × (e.tm_mon ≡ et.tm_mon)
      × (e.tm_mday ≡ et.tm_mday)
      × (e.tm_hour ≡ et.tm_hour)
      × (e.tm_min ≡ et.tm_min)
      × (e.tm_sec ≡ et.tm_sec)
      × (e.tm_yday ≡ day_of_year et)
unfolding normalize gm_to_time time_to_gm gm_to_days
normalize-date et v =
    let years = et.tm_year - 70 in
    let k = years % 4 in
    let leap = is_leap years in
    let yday = day_of_year et in
    let day = years / 4 * 1461 + (k * 365 + (k + 1) / 4 + yday) in
    let t = gm_to_time et in
    let table = table-IsAscending leap in
    let in_year : yday < year_length leap =
      omega (arith, v.first_day, v.last_day, month_end-le leap et.tm_mon) in
    let place = split_years-at k yday (omega arith) in_year in
    let bound : year_length leap ≤ 366 = ground arith in
    let days_found : t / 60 / 60 / 24 ≡ day =
      omega (arith, v.hour, v.minute, v.second, v.first_day) in
    let small = in_period k yday (omega arith) in_year in
    let rest : day % 1461 ≡ k * 365 + (k + 1) / 4 + yday = omega (arith, small) in
    let quotient : day / 1461 ≡ years / 4 = omega (arith, small) in
    let date = time_to_gm-date t day k yday leap days_found (ap split_years rest ∙ place) in
    let mon : lower_bound (later_months leap) (yday + 1) ≡ et.tm_mon =
      lower_bound-at 0 (later_months leap) (yday + 1) (year_length leap) et.tm_mon table.0
        (omega (arith, table.1, v.month)) (omega (arith, v.first_day))
        (omega (arith, v.first_day, v.last_day)) in
    let entry = ap (λ n. get_or (days leap) n 0) mon in
    (
      omega (arith, date.0, quotient, v.from_1970, v.int_year),
      date.1 ∙ mon,
      omega (arith, date.2, entry, v.first_day),
      omega (arith, v.hour, v.minute, v.second),
      omega (arith, v.hour, v.minute, v.second),
      omega (arith, v.hour, v.minute, v.second),
      date.3,
    )
