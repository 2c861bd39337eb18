-- ===== src/Time/Calendar/Bounds.antt =====
-- The bounds of the fields that `time_to_gm` gives.
use litemq.Prelude.{
  ℕ, ◌+◌, ◌-◌, ◌/◌, ◌%◌, ◌<◌, ◌≤◌, ◌≡◌, ◌≢◌, ◌⊎◌, inl, inr, Bool, true, false, Bool-cases, ltb,
  List, [], ◌∷◌, get_or, length, arith,
}
use litemq.Time.Calendar.{Tm, later_months, days, lower_bound, split_years, time_to_gm}
use litemq.Time.Calendar.RoundTrip.{
  end_of_years, tm_year-exact, lower_bound-below, split_years_lem, year_length,
}

-- No entry is more than 31 above the one before it, and neither is a value above the last one.
abbrev IsClose : ℕ → List ℕ → ℕ → Type 0
IsClose x [] t = t ≤ x + 31
IsClose x (y ∷ ys) t = (y ≤ x + 31) × IsClose y ys t

lower_bound-close :
    (x : ℕ) (xs : List ℕ) (t : ℕ) → IsClose x xs t → t ≤ get_or (x ∷ xs) (lower_bound xs t) 0 + 31
lower_bound-close x [] t c = c
lower_bound-close x (y ∷ ys) t (h, c) = elim (Bool-cases (ltb y t)) [
  | inl e ↦ rw e (lower_bound-close y ys t c)
  | inr e ↦ rw e (ground (arith, h, e))
]

lower_bound-length : (xs : List ℕ) (t : ℕ) → lower_bound xs t ≤ length xs
lower_bound-length [] t = omega arith
lower_bound-length (x ∷ xs) t = elim (Bool-cases (ltb x t)) [
  | inl e ↦ rw e (omega (arith, lower_bound-length xs t))
  | inr e ↦ rw e (omega arith)
]

split_years-year_length : (r : ℕ) → r < 1461 → (split_years r).1 < year_length (split_years r).2
unfolding split_years
split_years-year_length r h = ground arith

split_years_half : (r : ℕ) → r < 730 → (split_years r).0 ≤ 1
unfolding split_years
split_years_half r h = ground arith

month_and_day :
    (leap : Bool) (yday : ℕ)
    → yday < year_length leap
    → let mon = lower_bound (later_months leap) (yday + 1) in
      (mon < 12)
      × (1 ≤ yday + 1 - get_or (days leap) mon 0)
      × (yday + 1 - get_or (days leap) mon 0 ≤ 31)
month_and_day true yday h =
    let below = lower_bound-below 0 (later_months true) (yday + 1) (omega arith) in
    let close = lower_bound-close 0 (later_months true) (yday + 1) (omega (arith, h)) in
    (
      omega (arith, lower_bound-length (later_months true) (yday + 1)),
      omega (arith, below),
      omega (arith, close),
    )
month_and_day false yday h =
    let below = lower_bound-below 0 (later_months false) (yday + 1) (omega arith) in
    let close = lower_bound-close 0 (later_months false) (yday + 1) (omega (arith, h)) in
    (
      omega (arith, lower_bound-length (later_months false) (yday + 1)),
      omega (arith, below),
      omega (arith, close),
    )

-- The last second of the year 9999, where every fourth year has 366 days.
abbrev pub end_of_9999 : ℕ
end_of_9999 = 253407484800

pub record IsInRange (et : Tm) : Type 0 where
  pub month : et.tm_mon < 12
  pub first_day : 1 ≤ et.tm_mday
  pub last_day : et.tm_mday ≤ 31
  pub hour : et.tm_hour < 24
  pub minute : et.tm_min < 60
  pub second : et.tm_sec < 60
  pub from_1970 : 70 ≤ et.tm_year

pub time_to_gm-IsInRange : (t : ℕ) → t < end_of_years → IsInRange (time_to_gm t)
unfolding time_to_gm
time_to_gm-IsInRange t small =
    let day = t / 60 / 60 / 24 in
    let split = split_years_lem (day % 1461) (omega arith) in
    let (more, yday, leap) = split_years (day % 1461) in
    let place = month_and_day leap yday (split_years-year_length (day % 1461) (omega arith)) in
    record {
      month = place.0;
      first_day = place.1;
      last_day = place.2;
      hour = omega arith;
      minute = omega arith;
      second = omega arith;
      from_1970 = omega (arith, tm_year-exact t more small split.0);
    }

pub time_to_gm-four_digits : (t : ℕ) → t < end_of_9999 → (time_to_gm t).tm_year + 1900 < 10000
unfolding time_to_gm
time_to_gm-four_digits t h =
    let day = t / 60 / 60 / 24 in
    let r = day % 1461 in
    let split = split_years_lem r (omega arith) in
    let last : day / 1461 ≡ 2007 → r < 730 = λ e. omega (arith, h, e) in
    elim (ℕ-cases (day / 1461)) [
      | inl e ↦ omega (arith, e, split_years_half r (last e))
      | inr e ↦ omega (arith, h, e, split.0)
    ]
  where
    ℕ-cases : (n : ℕ) → (n ≡ 2007) ⊎ (n ≢ 2007)
    ℕ-cases n = ground arith
