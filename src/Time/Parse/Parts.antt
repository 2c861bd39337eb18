-- ===== src/Time/Parse/Parts.antt =====
-- Formats of numbers and characters, and the texts that stand for a time in them.
use litemq.Prelude.{ℕ, ◌+◌, ◌≤◌, ◌<◌, ◌≢◌, List, [], ◌∷◌, ◌++◌}
use litemq.Time.{usec_max}
use litemq.Time.Extended.{ExtendedTime}
use litemq.Time.Format.{padded}

-- The conversions of a number that both functions know, and the parts of a format.
pub data Field : Type 0 where
  day hour month minute micros second year : Field

pub data Part : Type 0 where
  literal : ℕ → Part
  percent : Part
  number : Field → Part

abbrev pub letter : Field → ℕ
letter Field.day = b'd'
letter Field.hour = b'H'
letter Field.month = b'm'
letter Field.minute = b'M'
letter Field.micros = b'q'
letter Field.second = b'S'
letter Field.year = b'Y'

abbrev pub width : Field → ℕ
width Field.micros = 6
width Field.year = 4
width _ = 2

abbrev pub shown : Field → ExtendedTime → ℕ
shown Field.day et = et.tm.tm_mday
shown Field.hour et = et.tm.tm_hour
shown Field.month et = et.tm.tm_mon + 1
shown Field.minute et = et.tm.tm_min
shown Field.micros et = et.tm_usec
shown Field.second et = et.tm.tm_sec
shown Field.year et = et.tm.tm_year + 1900

-- The format that consists of some parts, and the text that stands for a time in it.
abbrev pub pattern : List Part → List ℕ
pattern [] = []
pattern (literal c ∷ parts) = c ∷ pattern parts
pattern (percent ∷ parts) = b'%' ∷ b'%' ∷ pattern parts
pattern (number f ∷ parts) = b'%' ∷ letter f ∷ pattern parts

unfoldable pub text : List Part → ExtendedTime → List ℕ
unfolding padded
text [] et = []
text (literal c ∷ parts) et = c ∷ text parts et
text (percent ∷ parts) et = b'%' ∷ text parts et
text (number f ∷ parts) et = padded (width f) (shown f et) ++ text parts et

abbrev pub IsPart : Part → Type 0
IsPart (literal c) = c ≢ b'%'
IsPart percent = Unit {0}
IsPart (number f) = Unit {0}

-- A time whose fields are in the bounds that `from_str_` sets, in a year of four digits.
pub record IsShown (et : ExtendedTime) : Type 0 where
  pub first_day : 1 ≤ et.tm.tm_mday
  pub last_day : et.tm.tm_mday ≤ 31
  pub hours : et.tm.tm_hour < 24
  pub months : et.tm.tm_mon < 12
  pub minutes : et.tm.tm_min < 60
  pub microseconds : et.tm_usec < usec_max
  pub seconds : et.tm.tm_sec < 60
  pub from_1970 : 70 ≤ et.tm.tm_year
  pub four_digits : et.tm.tm_year + 1900 < 10000

-- a time with some fields of another one
abbrev pub put : Field → ExtendedTime → ExtendedTime → ExtendedTime
put Field.day et old = record old { tm = record old.tm { tm_mday = et.tm.tm_mday } }
put Field.hour et old = record old { tm = record old.tm { tm_hour = et.tm.tm_hour } }
put Field.month et old = record old { tm = record old.tm { tm_mon = et.tm.tm_mon } }
put Field.minute et old = record old { tm = record old.tm { tm_min = et.tm.tm_min } }
put Field.micros et old = record old { tm_usec = et.tm_usec }
put Field.second et old = record old { tm = record old.tm { tm_sec = et.tm.tm_sec } }
put Field.year et old = record old { tm = record old.tm { tm_year = et.tm.tm_year } }

abbrev pub copied : List Part → ExtendedTime → ExtendedTime → ExtendedTime
copied [] et old = old
copied (number f ∷ parts) et old = copied parts et (put f et old)
copied (_ ∷ parts) et old = copied parts et old
