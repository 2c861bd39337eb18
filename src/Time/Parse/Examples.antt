-- ===== src/Time/Parse/Examples.antt =====
-- Tests of `to_str_` and `from_str_` of gears/Time.cpp, and the theorems at concrete times.
use litemq.Prelude.{
  ℕ, ◌≤◌, ◌≡◌, inl, inr, refl, true, false, none, some, List, [], ◌∷◌, ◌++◌, codes, arith,
}
use litemq.Prelude.Int.{pos, negsuc}
use litemq.Time.{set}
use litemq.Time.Extended.{ExtendedTime, Mktime, of_seconds, get_time, set_time, get_date, set_date}
use litemq.Time.Format.{to_str, gm_ft, gm_f}
use litemq.Time.Format.Bounds.{nested, to_str-nested}
use litemq.Time.Parse.{ParseError, from_str, set_ft, set_f}
use litemq.Time.Parse.Parts.{Field, Part, number, literal, IsShown, copied, text}
use litemq.Time.Parse.RoundTrip.{from_str-to_str, set_ft-gm_ft}

-- An hour behind GMT.
abbrev mktime : Mktime
mktime tm = (pos 3600, negsuc 3599)

-- 1970-03-02, a Monday, 03:04:05.000006
abbrev monday : ExtendedTime
monday = record {
  tm = record {
    tm_sec = 5;
    tm_min = 4;
    tm_hour = 3;
    tm_mday = 2;
    tm_mon = 2;
    tm_year = 70;
    tm_wday = 1;
    tm_yday = 60;
  };
  tm_usec = 6;
  is_gmt = false;
}

monday-IsShown : IsShown monday
monday-IsShown = omega arith

names_test :
    to_str mktime monday 40 (codes "%A %e %b %k%%%z") ≡ some (codes "Monday  2 Mar 3%-0100")
unfolding to_str
names_test = refl

too_long_test : to_str mktime monday 9 (codes "%F") ≡ none
unfolding to_str
too_long_test = refl

unfinished_test : to_str mktime monday 9 (codes "%") ≡ none
unfolding to_str
unfinished_test = refl

-- Calls inside calls would write the format itself.
to_str-nested_example :
    (to_str mktime monday 10 (codes "%F")
      ≡ nested (λ room format. some format) 2 mktime monday 10 (codes "%F"))
    × (10 ≤ 10)
unfolding to_str
to_str-nested_example = to_str-nested (λ room format. some format) mktime monday 10 (codes "%F")

-- "%H:%M.%q"
abbrev clock : List Part
clock =
    number Field.hour ∷ literal b':' ∷ number Field.minute ∷ literal b'.' ∷ number Field.micros ∷ []

from_str-to_str_example :
    (str : List ℕ) × (to_str mktime monday 12 (codes "%H:%M.%q") ≡ some str)
    × (from_str true (codes "%H:%M.%q") (str ++ codes " h") (of_seconds 0 0)
        ≡ inr (copied clock monday (of_seconds 0 0)))
unfolding text
from_str-to_str_example =
    from_str-to_str mktime clock monday (of_seconds 0 0) 12 (codes " h") (ground arith)
      monday-IsShown (omega arith)

set_ft-gm_ft_example :
    ((str : List ℕ) × (gm_ft mktime 951782399 7 ≡ some str)
      × (set_ft mktime (str ++ []) true ≡ inr (set (pos 951782399) (pos 0))))
    × ((str : List ℕ) × (gm_f mktime 951782399 7 ≡ some str)
        × (set_f mktime (str ++ []) true ≡ inr (set (pos 951696000) (pos 0))))
set_ft-gm_ft_example = set_ft-gm_ft mktime 951782399 7 [] (omega arith) (omega arith)

-- Without `strict`, a day of one digit and more spaces are read; and "%e" does not read the space
-- that `to_str_` writes for it.
lenient_test : set_ft mktime (codes "1970-1-2   0:0:7") false ≡ inr (set (pos 86407) (pos 0))
unfolding set_ft set
lenient_test = refl

spaced_day_test : from_str false (codes "%e") (codes " 2") (of_seconds 0 0) ≡ inl ParseError.no_day
unfolding from_str
spaced_day_test = refl

trailing_test :
    from_str true (codes "%d") (codes "31x") monday
    ≡ inr (record monday { tm = record monday.tm { tm_mday = 31 } })
unfolding from_str
trailing_test = refl

month_test :
    from_str true (codes "%b-%a") (codes "mAy-tuesday") monday
    ≡ inr (record monday { tm = record monday.tm { tm_mon = 4 } })
unfolding from_str
month_test = refl

parts_test : set_date (get_date monday) (set_time (get_time monday) monday) ≡ monday
unfolding set_date get_date set_time get_time
parts_test = refl
