-- ===== src/Time/Calendar.antt =====
-- gears/Time.cpp, `gm_to_time` and `time_to_gm`, and the fields of gears/Time.hpp's ExtendedTime.
-- The model is of times from 1970 on, where `time_t` and the fields of `tm` are not negative, with
-- `std::lower_bound` as the first position whose entry is not below the value. The years are a
-- `long`, which becomes the `int` of `tm_year` by its bit pattern.
pub mod RoundTrip
pub mod Bounds
use litemq.Prelude.{
  ℕ, suc, ◌+◌, ◌-◌, ◌*◌, ◌/◌, ◌%◌, ◌^◌, Bool, true, false, if◌then◌else◌, ltb, leb, ◌==◌, List, [],
  ◌∷◌, get_or,
}

-- `tm`
pub record Tm : Type 0 where
  pub tm_sec : ℕ
  pub tm_min : ℕ
  pub tm_hour : ℕ
  pub tm_mday : ℕ
  pub tm_mon : ℕ
  pub tm_year : ℕ
  pub tm_wday : ℕ
  pub tm_yday : ℕ

-- `DAYS[0]` and `DAYS[1]` behind their first entry
abbrev pub later_months : Bool → List ℕ
later_months false = 31 ∷ 59 ∷ 90 ∷ 120 ∷ 151 ∷ 181 ∷ 212 ∷ 243 ∷ 273 ∷ 304 ∷ 334 ∷ []
later_months true = 31 ∷ 60 ∷ 91 ∷ 121 ∷ 152 ∷ 182 ∷ 213 ∷ 244 ∷ 274 ∷ 305 ∷ 335 ∷ []

abbrev pub days : Bool → List ℕ
days leap = 0 ∷ later_months leap

-- `(YEARS & 3) == 2`
abbrev pub is_leap : ℕ → Bool
is_leap years = years % 4 == 2

unfoldable pub gm_to_days : Tm → ℕ
gm_to_days et =
    let years = et.tm_year - 70 in
    years * 365 + (years + 1) / 4 + get_or (days (is_leap years)) et.tm_mon 0 + et.tm_mday - 1

unfoldable pub gm_to_time : Tm → ℕ
unfolding gm_to_days
gm_to_time et = gm_to_days et * 86400 + et.tm_hour * 3600 + et.tm_min * 60 + et.tm_sec

abbrev pub lower_bound : List ℕ → ℕ → ℕ
lower_bound [] t = 0
lower_bound (x ∷ xs) t = if ltb x t then suc (lower_bound xs t) else 0

-- Within four years: the years to add, the day of the year, and whether it is a leap year.
unfoldable pub split_years : ℕ → ℕ × ℕ × Bool
split_years time =
    if leb 365 time
    then if leb (365 * 2) time
      then if leb (365 * 3 + 1) time
        then (3, time - (365 * 3 + 1), false)
        else (2, time - 365 * 2, true)
      else (1, time - 365, false)
    else (0, time, false)

unfoldable pub time_to_gm : ℕ → Tm
unfolding split_years
time_to_gm time =
    let day = time / 60 / 60 / 24 in
    let (more, yday, leap) = split_years (day % (4 * 365 + 1)) in
    let mon = lower_bound (later_months leap) (yday + 1) in
    record {
      tm_sec = time % 60;
      tm_min = time / 60 % 60;
      tm_hour = time / 60 / 60 % 24;
      tm_mday = yday + 1 - get_or (days leap) mon 0;
      tm_mon = mon;
      tm_year = (day / (4 * 365 + 1) * 4 + more + 70) % 2 ^ 32;
      tm_wday = (day + 4) % 7;
      tm_yday = yday;
    }

-- `ExtendedTime::normalize` in GMT, and the constructor from the parts of a date and a time
unfoldable pub normalize : Tm → Tm
unfolding time_to_gm gm_to_time
normalize et = time_to_gm (gm_to_time et)

unfoldable pub make_extended : ℕ → ℕ → ℕ → ℕ → ℕ → ℕ → Tm
unfolding normalize
make_extended year month day hour min sec = normalize (record {
  tm_sec = sec;
  tm_min = min;
  tm_hour = hour;
  tm_mday = day;
  tm_mon = month - 1;
  tm_year = year - 1900;
  tm_wday = 0;
  tm_yday = 0;
})
