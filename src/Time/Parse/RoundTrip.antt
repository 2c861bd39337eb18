-- ===== src/Time/Parse/RoundTrip.antt =====
-- What `to_str_` writes is read by `from_str_`, and what `gm_ft` writes by `set_ft`.
use litemq.Prelude.{
  ℕ, ◌+◌, ◌*◌, ◌/◌, ◌≤◌, ◌<◌, ◌≡◌, inr, refl, ap, ◌∙◌, Bool, true, some, List, [], ◌∷◌, ◌++◌,
  length, All, codes, arith,
}
use litemq.Prelude.Int.{pos}
use litemq.Time.{usec_max, set}
use litemq.Time.Extended.{ExtendedTime, Mktime}
use litemq.Time.Format.{◌>>=◌, nonempty, convert, to_str_loop, to_str_within, to_str, gm_f, gm_ft}
use litemq.Time.Parse.{from_str, set_from, set_f, set_ft}
use litemq.Time.Extended.{of_seconds, to_time}
use litemq.Time.Calendar.{gm_to_days, gm_to_time, time_to_gm}
use litemq.Time.Calendar.RoundTrip.{gm_to_days-time_to_gm, gm_to_time-time_to_gm}
use litemq.Time.Calendar.Bounds.{end_of_9999, time_to_gm-IsInRange, time_to_gm-four_digits}
use litemq.Time.Parse.Parts.{Field, Part, literal, number, pattern, text, IsPart, IsShown, copied}
use litemq.Time.Parse.Reading.{from_str-text}
use litemq.Time.Parse.Writing.{
  to_str_within-text, to_str-text, to_str_loop-date, to_str_loop-date_and_time,
}

-- For a format of literal characters, "%%" and the conversions of numbers %d, %H, %m, %M, %q, %S
-- and %Y, and a time with its fields in their bounds and a year from 1970 to 9999: where the buffer
-- is as long as the text, `to_str_` succeeds; and in strict mode `from_str_` reads what it wrote,
-- with anything behind it, and sets exactly the fields that the format has to those of the time.
pub from_str-to_str :
    (mktime : Mktime) (parts : List Part) (et old : ExtendedTime) (room : ℕ) (rest : List ℕ)
    → All IsPart parts
    → IsShown et
    → length (text parts et) ≤ room
    → (str : List ℕ) × (to_str mktime et room (pattern parts) ≡ some str)
      × (from_str true (pattern parts) (str ++ rest) old ≡ inr (copied parts et old))
from_str-to_str mktime parts et old room rest a v h =
    (text parts et, to_str-text mktime et room parts a h, from_str-text parts et old rest a v)

abbrev date_parts : List Part
date_parts =
    number Field.year ∷ literal b'-' ∷ number Field.month ∷ literal b'-' ∷ number Field.day ∷ []

abbrev time_parts : List Part
time_parts =
    number Field.hour ∷ literal b':' ∷ number Field.minute ∷ literal b':' ∷ number Field.second ∷ []

abbrev date_and_time : List Part
date_and_time =
    number Field.year
    ∷ literal b'-'
    ∷ number Field.month
    ∷ literal b'-'
    ∷ number Field.day
    ∷ literal b' '
    ∷ time_parts

of_seconds-IsShown :
    (sec micros : ℕ) → sec < end_of_9999 → micros < usec_max → IsShown (of_seconds sec micros)
unfolding of_seconds
of_seconds-IsShown sec micros h k =
    let v = time_to_gm-IsInRange sec (omega (arith, h)) in
    record {
      first_day = v.first_day;
      last_day = v.last_day;
      hours = v.hour;
      months = v.month;
      minutes = v.minute;
      microseconds = k;
      seconds = v.second;
      from_1970 = v.from_1970;
      four_digits = time_to_gm-four_digits sec h;
    }

gm_ft-to_str_within :
    (mktime : Mktime) (sec micros : ℕ)
    → gm_ft mktime sec micros
      ≡ (to_str_within 2 mktime (of_seconds sec micros) 256 (codes "%F %T") >>= nonempty)
unfolding gm_ft
gm_ft-to_str_within mktime sec micros = refl

gm_f-to_str_within :
    (mktime : Mktime) (sec micros : ℕ)
    → gm_f mktime sec micros
      ≡ (to_str_within 2 mktime (of_seconds sec micros) 256 (codes "%F") >>= nonempty)
unfolding gm_f
gm_f-to_str_within mktime sec micros = refl

inner_date :
    (mktime : Mktime) (et : ExtendedTime)
    → (to_str_within 1 mktime et 256 (codes "%Y-%m-%d") >>= nonempty) ≡ some (text date_parts et)
unfolding text
inner_date mktime et =
    ap (λ o. o >>= nonempty)
      (to_str_within-text 0 mktime et 256 date_parts ground arith omega arith)

inner_time :
    (mktime : Mktime) (et : ExtendedTime)
    → (to_str_within 1 mktime et 245 (codes "%H:%M:%S") >>= nonempty) ≡ some (text time_parts et)
unfolding text
inner_time mktime et =
    ap (λ o. o >>= nonempty)
      (to_str_within-text 0 mktime et 245 time_parts ground arith omega arith)

outer :
    (mktime : Mktime) (et : ExtendedTime) (format : List ℕ)
    → to_str_within 2 mktime et 256 format
      ≡ to_str_loop (λ n. convert mktime (to_str_within 1 mktime et) et n 256) 0 256 format
unfolding to_str_within
outer mktime et format = refl

text-date_and_time :
    (et : ExtendedTime)
    → text date_parts et ++ (b' ' ∷ (text time_parts et ++ [])) ≡ text date_and_time et
unfolding text
text-date_and_time et = refl

text-IsNonempty :
    (et : ExtendedTime)
    → (nonempty (text date_and_time et) ≡ some (text date_and_time et))
      × (nonempty (text date_parts et ++ []) ≡ some (text date_parts et))
      × (length (text date_parts et) ≡ 10)
unfolding text
text-IsNonempty et = (refl, refl, refl)

gm_ft-text :
    (mktime : Mktime) (sec micros : ℕ)
    → gm_ft mktime sec micros ≡ some (text date_and_time (of_seconds sec micros))
gm_ft-text mktime sec micros =
    let et = of_seconds sec micros in
    rw
      (
        gm_ft-to_str_within mktime sec micros,
        outer mktime et (codes "%F %T"),
        to_str_loop-date_and_time mktime (to_str_within 1 mktime et) et (text date_parts et)
            (text time_parts et) (inner_date mktime et) (text-IsNonempty et).2
            (inner_time mktime et),
        text-date_and_time et,
      )
      (text-IsNonempty et).0

gm_f-text :
    (mktime : Mktime) (sec micros : ℕ)
    → gm_f mktime sec micros ≡ some (text date_parts (of_seconds sec micros))
gm_f-text mktime sec micros =
    let et = of_seconds sec micros in
    rw
      (
        gm_f-to_str_within mktime sec micros,
        outer mktime et (codes "%F"),
        to_str_loop-date mktime (to_str_within 1 mktime et) et (text date_parts et)
            (inner_date mktime et),
      )
      (text-IsNonempty et).1

set_from-parsed :
    (mktime : Mktime) (value format : List ℕ) (strict : Bool) (et : ExtendedTime)
    → from_str strict format value (of_seconds 0 0) ≡ inr et
    → set_from mktime value format strict ≡ inr (to_time mktime et)
unfolding set_from
set_from-parsed mktime value format strict et h = rw (set_from, h) refl

date_and_time-to_time :
    (mktime : Mktime) (sec micros : ℕ)
    → sec < end_of_9999
    → to_time mktime (copied date_and_time (of_seconds sec micros) (of_seconds 0 0))
      ≡ set (pos sec) (pos 0)
unfolding to_time of_seconds gm_to_time gm_to_days
date_and_time-to_time mktime sec micros h =
    ap (λ n. set (pos n) (pos 0)) (gm_to_time-time_to_gm sec (omega (arith, h)))

date-to_time :
    (mktime : Mktime) (sec micros : ℕ)
    → sec < end_of_9999
    → to_time mktime (copied date_parts (of_seconds sec micros) (of_seconds 0 0))
      ≡ set (pos (sec / 86400 * 86400)) (pos 0)
unfolding to_time of_seconds gm_to_time gm_to_days
date-to_time mktime sec micros h =
    let days = gm_to_days-time_to_gm sec (omega (arith, h)) in
    let seconds : gm_to_days (time_to_gm sec) * 86400 + 0 * 3600 + 0 * 60 + 0
        ≡ sec / 86400 * 86400 =
      omega (arith, days) in
    ap (λ n. set (pos n) (pos 0)) seconds

set_ft-text :
    (mktime : Mktime) (sec micros : ℕ) (rest : List ℕ)
    → sec < end_of_9999
    → micros < usec_max
    → set_ft mktime (text date_and_time (of_seconds sec micros) ++ rest) true
      ≡ inr (set (pos sec) (pos 0))
unfolding set_ft
set_ft-text mktime sec micros rest h k =
    let et = of_seconds sec micros in
    let v = of_seconds-IsShown sec micros h k in
    set_from-parsed mktime (text date_and_time et ++ rest) (codes "%Y-%m-%d %H:%M:%S") true
      (copied date_and_time et (of_seconds 0 0))
      (from_str-text date_and_time et (of_seconds 0 0) rest ground arith v)
    ∙ ap (λ t. inr t) (date_and_time-to_time mktime sec micros h)

set_f-text :
    (mktime : Mktime) (sec micros : ℕ) (rest : List ℕ)
    → sec < end_of_9999
    → micros < usec_max
    → set_f mktime (text date_parts (of_seconds sec micros) ++ rest) true
      ≡ inr (set (pos (sec / 86400 * 86400)) (pos 0))
unfolding set_f
set_f-text mktime sec micros rest h k =
    let et = of_seconds sec micros in
    let v = of_seconds-IsShown sec micros h k in
    set_from-parsed mktime (text date_parts et ++ rest) (codes "%Y-%m-%d") true
      (copied date_parts et (of_seconds 0 0))
      (from_str-text date_parts et (of_seconds 0 0) rest ground arith v)
    ∙ ap (λ t. inr t) (date-to_time mktime sec micros h)

-- For a time from 1970 on, up to the end of the year 9999 of `DAYS`, with its microseconds below a
-- second: `gm_ft` writes a text, and `set_ft` in strict mode reads it, with anything behind it, as
-- the time without its microseconds. And `set_f` reads what `gm_f` writes as the start of the day.
pub set_ft-gm_ft :
    (mktime : Mktime) (sec micros : ℕ) (rest : List ℕ)
    → sec < end_of_9999
    → micros < usec_max
    → ((str : List ℕ) × (gm_ft mktime sec micros ≡ some str)
        × (set_ft mktime (str ++ rest) true ≡ inr (set (pos sec) (pos 0))))
      × ((str : List ℕ) × (gm_f mktime sec micros ≡ some str)
          × (set_f mktime (str ++ rest) true ≡ inr (set (pos (sec / 86400 * 86400)) (pos 0))))
set_ft-gm_ft mktime sec micros rest h k =
    let et = of_seconds sec micros in
    (
      (text date_and_time et, gm_ft-text mktime sec micros, set_ft-text mktime sec micros rest h k),
      (text date_parts et, gm_f-text mktime sec micros, set_f-text mktime sec micros rest h k),
    )
