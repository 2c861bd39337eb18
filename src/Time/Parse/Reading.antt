-- ===== src/Time/Parse/Reading.antt =====
-- `from_str_` of a text that stands for a time in a format.
use litemq.Prelude.{
  ℕ, ◌+◌, ◌-◌, ◌^◌, ◌≤◌, ◌<◌, ◌≡◌, ◌≢◌, inr, refl, ap, ◌∙◌, Bool, true, false, ◌||◌, ltb, leb, ◌==◌,
  List, [], ◌∷◌, ◌++◌, append_assoc, All, arith,
}
use litemq.Time.{usec_max}
use litemq.Time.Extended.{ExtendedTime}
use litemq.Time.Format.{padded}
use litemq.Time.Parse.{
  ParseError, parse_field, parse_character, number_unless, parsed_then, from_str,
}
use litemq.Time.Parse.Digits.{read_number-padded}
use litemq.Time.Parse.Parts.{
  Field, Part, literal, percent, number, letter, width, shown, pattern, text, IsPart, IsShown, put,
  copied,
}

pub ==_other : (a b : ℕ) → a ≢ b → (a == b) ≡ false
==_other a b h = ground arith

put_number :
    (strict_width : ℕ) (is_refused : ℕ → Bool) (n : ℕ) (rest : List ℕ) (error : ParseError)
    (make : ℕ → ExtendedTime)
    → 1 ≤ strict_width
    → n < 10 ^ strict_width
    → is_refused n ≡ false
    → number_unless strict_width is_refused true (padded strict_width n ++ rest) error make
      ≡ inr (make n, rest)
put_number k is_refused n rest error make h l e =
    rw (number_unless, read_number-padded k n rest h l, e) refl

parse_field-padded :
    (f : Field) (et old : ExtendedTime) (rest : List ℕ)
    → IsShown et
    → parse_field true (letter f) (padded (width f) (shown f et) ++ rest) old
      ≡ inr (put f et old, rest)
unfolding parse_field
parse_field-padded Field.day et old rest v =
    put_number 2 (λ n. ltb n 1 || ltb 31 n) et.tm.tm_mday rest ParseError.no_day
      (λ n. record old { tm = record old.tm { tm_mday = n } }) (omega arith)
      (omega (arith, v.last_day)) (ground (arith, v.first_day, v.last_day))
parse_field-padded Field.hour et old rest v =
    put_number 2 (λ n. ltb 23 n) et.tm.tm_hour rest ParseError.no_hours
      (λ n. record old { tm = record old.tm { tm_hour = n } }) (omega arith)
      (omega (arith, v.hours)) (ground (arith, v.hours))
parse_field-padded Field.month et old rest v =
    let one_less : et.tm.tm_mon + 1 - 1 ≡ et.tm.tm_mon = omega arith in
    put_number 2 (λ n. ltb n 1 || ltb 12 n) (et.tm.tm_mon + 1) rest ParseError.no_month
      (λ n. record old { tm = record old.tm { tm_mon = n - 1 } }) (omega arith)
      (omega (arith, v.months)) (ground (arith, v.months))
    ∙ ap (λ m. inr (record old { tm = record old.tm { tm_mon = m } }, rest)) one_less
parse_field-padded Field.minute et old rest v =
    put_number 2 (λ n. ltb 59 n) et.tm.tm_min rest ParseError.no_minutes
      (λ n. record old { tm = record old.tm { tm_min = n } }) (omega arith)
      (omega (arith, v.minutes)) (ground (arith, v.minutes))
parse_field-padded Field.micros et old rest v =
    put_number 6 (λ n. leb usec_max n) et.tm_usec rest ParseError.no_microseconds
      (λ n. record old { tm_usec = n }) (omega arith) (omega (arith, v.microseconds))
      (ground (arith, v.microseconds))
parse_field-padded Field.second et old rest v =
    put_number 2 (λ n. ltb 59 n) et.tm.tm_sec rest ParseError.no_seconds
      (λ n. record old { tm = record old.tm { tm_sec = n } }) (omega arith)
      (omega (arith, v.seconds)) (ground (arith, v.seconds))
parse_field-padded Field.year et old rest v =
    let from_1900 : et.tm.tm_year + 1900 - 1900 ≡ et.tm.tm_year = omega arith in
    put_number 4 (λ n. ltb n 1970) (et.tm.tm_year + 1900) rest ParseError.no_year
      (λ n. record old { tm = record old.tm { tm_year = n - 1900 } }) (omega arith)
      (omega (arith, v.four_digits)) (ground (arith, v.from_1970))
    ∙ ap (λ m. inr (record old { tm = record old.tm { tm_year = m } }, rest)) from_1900

parse_character-same :
    (c : ℕ) (rest : List ℕ) (et : ExtendedTime)
    → parse_character true c (c ∷ rest) et ≡ inr (et, rest)
unfolding parse_character
parse_character-same c rest et = let e : (c == c) ≡ true = ground arith in rw e refl

from_str-character :
    (strict : Bool) (c : ℕ) (format src : List ℕ) (et : ExtendedTime)
    → c ≢ b'%'
    → from_str strict (c ∷ format) src et
      ≡ parsed_then (parse_character strict c src et) (from_str strict format)
unfolding from_str
from_str-character strict c [] src et h = rw (==_other c b'%' h) refl
from_str-character strict c (d ∷ format) src et h = rw (==_other c b'%' h) refl

from_str-nil :
    (strict : Bool) (src : List ℕ) (et : ExtendedTime) → from_str strict [] src et ≡ inr et
unfolding from_str
from_str-nil strict src et = refl

from_str-specifier :
    (strict : Bool) (d : ℕ) (format src : List ℕ) (et : ExtendedTime)
    → from_str strict (b'%' ∷ d ∷ format) src et
      ≡ parsed_then (parse_field strict d src et) (from_str strict format)
unfolding from_str
from_str-specifier strict d format src et = refl

parse_field-percent :
    (rest : List ℕ) (et : ExtendedTime) → parse_field true b'%' (b'%' ∷ rest) et ≡ inr (et, rest)
unfolding parse_field
parse_field-percent rest et = refl

-- Text that stands for a time in a format of numbers and characters is read, in strict mode, and
-- gives the fields of that time that the format has.
pub from_str-text :
    (parts : List Part) (et old : ExtendedTime) (rest : List ℕ)
    → All IsPart parts
    → IsShown et
    → from_str true (pattern parts) (text parts et ++ rest) old ≡ inr (copied parts et old)
unfolding text
from_str-text [] et old rest a v = from_str-nil true rest old
from_str-text (literal c ∷ parts) et old rest (h, a) v =
    from_str-character true c (pattern parts) (c ∷ (text parts et ++ rest)) old h
    ∙ ap (λ p. parsed_then p (from_str true (pattern parts)))
        (parse_character-same c (text parts et ++ rest) old)
    ∙ from_str-text parts et old rest a v
from_str-text (percent ∷ parts) et old rest (_, a) v =
    from_str-specifier true b'%' (pattern parts) (b'%' ∷ (text parts et ++ rest)) old
    ∙ ap (λ p. parsed_then p (from_str true (pattern parts)))
        (parse_field-percent (text parts et ++ rest) old)
    ∙ from_str-text parts et old rest a v
from_str-text (number f ∷ parts) et old rest (_, a) v =
    let str = padded (width f) (shown f et) in
    ap (λ src. from_str true (b'%' ∷ letter f ∷ pattern parts) src old)
      (append_assoc str (text parts et) rest)
    ∙ from_str-specifier true (letter f) (pattern parts) (str ++ (text parts et ++ rest)) old
    ∙ ap (λ p. parsed_then p (from_str true (pattern parts)))
        (parse_field-padded f et old (text parts et ++ rest) v)
    ∙ from_str-text parts et (put f et old) rest a v
