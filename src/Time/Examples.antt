-- ===== src/Time/Examples.antt =====
-- Tests of gears/Time.hpp and gears/Time.cpp and the theorems at concrete times.
use litemq.Prelude.{◌≡◌, refl, arith}
use litemq.Prelude.Int.{pos, negsuc, ◌+ℤ◌, ◌-ℤ◌, ◌*ℤ◌}
use litemq.Time.{Time, IsNormal, add, sub, mul, microseconds}
use litemq.Time.Arithmetic.{add-sub_lem}
use litemq.Time.Scaling.{microseconds-mul}
use litemq.Time.Calendar.{Tm, gm_to_time, time_to_gm, normalize}
use litemq.Time.Calendar.RoundTrip.{IsDate, gm_to_time-time_to_gm, normalize-date}

-- 1.7 s, -0.4 s
abbrev late : Time
late = record { tv_sec = pos 1; tv_usec = pos 700000 }

abbrev before_zero : Time
before_zero = record { tv_sec = negsuc 0; tv_usec = pos 600000 }

late-IsNormal : IsNormal late
late-IsNormal = omega arith

before_zero-IsNormal : IsNormal before_zero
before_zero-IsNormal = omega arith

add-sub_lem_example :
    (microseconds (add late before_zero) ≡ microseconds late +ℤ microseconds before_zero)
    × (microseconds (sub late before_zero) ≡ microseconds late -ℤ microseconds before_zero)
    × IsNormal (add late before_zero)
    × IsNormal (sub late before_zero)
add-sub_lem_example = add-sub_lem late before_zero late-IsNormal before_zero-IsNormal

microseconds-mul_example :
    microseconds (mul before_zero (negsuc 2)) ≡ microseconds before_zero *ℤ negsuc 2
microseconds-mul_example = microseconds-mul before_zero (negsuc 2) before_zero-IsNormal

sum_carries : add late before_zero ≡ record { tv_sec = pos 1; tv_usec = pos 300000 }
unfolding add ◌+ℤ◌ ◌-ℤ◌
sum_carries = refl

-- 29 February 2016, 12:30:15
abbrev leap_day : Tm
leap_day = record {
  tm_sec = 15;
  tm_min = 30;
  tm_hour = 12;
  tm_mday = 29;
  tm_mon = 1;
  tm_year = 116;
  tm_wday = 1;
  tm_yday = 59;
}

leap_day_time : (gm_to_time leap_day ≡ 1456749015) × (time_to_gm 1456749015 ≡ leap_day)
unfolding gm_to_time time_to_gm
leap_day_time = (refl, refl)

leap_day-IsDate : IsDate leap_day
leap_day-IsDate = omega arith

gm_to_time-time_to_gm_example : gm_to_time (time_to_gm 1456749015) ≡ 1456749015
gm_to_time-time_to_gm_example = gm_to_time-time_to_gm 1456749015 (omega arith)

normalize-date_example :
    let e = normalize leap_day in
    (e.tm_year ≡ 116)
    × (e.tm_mon ≡ 1)
    × (e.tm_mday ≡ 29)
    × (e.tm_hour ≡ 12)
    × (e.tm_min ≡ 30)
    × (e.tm_sec ≡ 15)
    × (e.tm_yday ≡ 59)
normalize-date_example = normalize-date leap_day leap_day-IsDate
