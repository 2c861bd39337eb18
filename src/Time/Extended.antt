-- ===== src/Time/Extended.antt =====
-- gears/Time.hpp and gears/Time.cpp, ExtendedTime: a broken-down time with microseconds, and the
-- names of the days and of the months. `mktime` of the C library is a parameter: the time that it
-- returns for a local time, and the `tm_gmtoff` that it sets.
use litemq.Prelude.{ℕ, Bool, true, if◌then◌else◌, List, [], ◌∷◌, codes}
use litemq.Prelude.Int.{ℤ, pos}
use litemq.Time.{Time, set}
use litemq.Time.Calendar.{Tm, gm_to_time, time_to_gm}

pub record ExtendedTime : Type 0 where
  pub tm : Tm
  pub tm_usec : ℕ
  pub is_gmt : Bool

abbrev pub Mktime : Type 0
Mktime = Tm → ℤ × ℤ

-- the constructor from seconds, in GMT
unfoldable pub of_seconds : ℕ → ℕ → ExtendedTime
unfolding time_to_gm
of_seconds sec usec = record { tm = time_to_gm sec; tm_usec = usec; is_gmt = true }

unfoldable pub to_time : Mktime → ExtendedTime → Time
unfolding set gm_to_time
to_time mktime et =
    let sec = if et.is_gmt then pos (gm_to_time et.tm) else (mktime et.tm).0 in
    set sec (pos et.tm_usec)

unfoldable pub get_time : ExtendedTime → ExtendedTime
get_time et = record et {
  tm = record et.tm { tm_mday = 0; tm_mon = 0; tm_wday = 0; tm_yday = 0; tm_year = 0 };
}

unfoldable pub set_time : ExtendedTime → ExtendedTime → ExtendedTime
set_time time et = record et {
  tm = record et.tm { tm_hour = time.tm.tm_hour; tm_min = time.tm.tm_min; tm_sec = time.tm.tm_sec };
  tm_usec = time.tm_usec;
}

unfoldable pub get_date : ExtendedTime → ExtendedTime
get_date et = record et { tm = record et.tm { tm_hour = 0; tm_min = 0; tm_sec = 0 }; tm_usec = 0 }

unfoldable pub set_date : ExtendedTime → ExtendedTime → ExtendedTime
set_date time et = record et {
  tm = record et.tm {
    tm_mday = time.tm.tm_mday;
    tm_mon = time.tm.tm_mon;
    tm_year = time.tm.tm_year;
  };
}

-- `DAYS_`, `DAYS_FULL_`, `MONTHS_` and `MONTHS_FULL_`
abbrev pub day_names : List (List ℕ)
day_names =
    codes "Sun"
    ∷ codes "Mon"
    ∷ codes "Tue"
    ∷ codes "Wed"
    ∷ codes "Thu"
    ∷ codes "Fri"
    ∷ codes "Sat"
    ∷ []

abbrev pub day_names_full : List (List ℕ)
day_names_full =
    codes "Sunday"
    ∷ codes "Monday"
    ∷ codes "Tuesday"
    ∷ codes "Wednesday"
    ∷ codes "Thursday"
    ∷ codes "Friday"
    ∷ codes "Saturday"
    ∷ []

abbrev pub month_names : List (List ℕ)
month_names =
    codes "Jan"
    ∷ codes "Feb"
    ∷ codes "Mar"
    ∷ codes "Apr"
    ∷ codes "May"
    ∷ codes "Jun"
    ∷ codes "Jul"
    ∷ codes "Aug"
    ∷ codes "Sep"
    ∷ codes "Oct"
    ∷ codes "Nov"
    ∷ codes "Dec"
    ∷ []

abbrev pub month_names_full : List (List ℕ)
month_names_full =
    codes "January"
    ∷ codes "February"
    ∷ codes "March"
    ∷ codes "April"
    ∷ codes "May"
    ∷ codes "June"
    ∷ codes "July"
    ∷ codes "August"
    ∷ codes "September"
    ∷ codes "October"
    ∷ codes "November"
    ∷ codes "December"
    ∷ []
