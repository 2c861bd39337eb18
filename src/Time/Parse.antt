-- ===== src/Time/Parse.antt =====
-- gears/Time.cpp, `ExtendedTime::from_str_`, and the setters of gears/Time.hpp that call it: a time
-- from a string in a format. The rest of the string stands for `v_str` and `v_size`.
mod Digits
pub mod Parts
mod Reading
mod Writing
pub mod RoundTrip
mod Examples
use litemq.Prelude.{
  ℕ, zero, suc, ◌+◌, ◌-◌, ◌*◌, Bool, true, false, not, ◌&&◌, ◌||◌, if◌then◌else◌, ltb, leb, ◌==◌,
  min, ◌⊎◌, inl, inr, Option, none, some, List, [], ◌∷◌, length, drop, codes,
}
use litemq.Prelude.Int.{pos}
use litemq.Ascii.Caseless.{start}
use litemq.Time.{Time, usec_max}
use litemq.Time.Calendar.{Tm}
use litemq.Time.Extended.{
  ExtendedTime, Mktime, of_seconds, to_time, day_names, day_names_full, month_names,
  month_names_full,
}

-- `Ascii::NUMBER` and `Ascii::SPACE`
abbrev pub is_number : ℕ → Bool
is_number c = leb b'0' c && leb c b'9'

abbrev pub is_space : ℕ → Bool
is_space c = c == b' ' || (leb 9 c && leb c 13)

-- `check_name`: the rest of the string behind a name
unfoldable pub check_name : List ℕ → List ℕ → Option (List ℕ)
unfolding start
check_name src name = if start false name src then some (drop (length name) src) else none

unfoldable pub check_names : List ℕ → List ℕ → List ℕ → Option (List ℕ)
unfolding check_name
check_names src first second = elim (check_name src first) [
  | some rest ↦ some rest
  | none ↦ check_name src second
]

-- the loop that tries the names of the days, or of the months, in their order
unfoldable pub find_name : ℕ → List ℕ → List (List ℕ) → List (List ℕ) → Option (ℕ × List ℕ)
unfolding check_names
find_name i src (full ∷ fulls) (short ∷ shorts) =
    let more = find_name (suc i) src fulls shorts in
    elim (check_names src full short) [ some rest ↦ some (i, rest) | none ↦ more ]
find_name i src fulls shorts = none

-- the loop of `read_number`: what is left of the digits to read, the number, and the rest
unfoldable pub read_digits : ℕ → ℕ → List ℕ → ℕ × ℕ × List ℕ
read_digits zero number src = (0, number, src)
read_digits (suc left) number [] = (suc left, number, [])
read_digits (suc left) number (c ∷ src) =
    let more = read_digits left (number * 10 + (c - b'0')) src in
    if is_number c then more else (suc left, number, c ∷ src)

unfoldable pub read_number : ℕ → Bool → List ℕ → Option (ℕ × List ℕ)
unfolding read_digits
read_number digits strict [] = none
read_number digits strict (c ∷ src) =
    let (left, number, rest) = read_digits (min digits (length (c ∷ src))) 0 (c ∷ src) in
    if not (is_number c) || (strict && ltb (length (c ∷ src)) digits)
    then none
    else if not strict || left == 0
    then some (number, rest)
    else none

-- the messages of `from_str_`
pub data ParseError : Type 0 where
  no_percent no_weekday no_month_name no_day no_hours no_month : ParseError
  no_minutes no_microseconds no_seconds no_year unknown_specifier no_character : ParseError

abbrev pub Parsed : Type 0
Parsed = ParseError ⊎ (ExtendedTime × List ℕ)

-- A number that is read, unless it is out of its bounds.
abbrev pub number_unless : ℕ → (ℕ → Bool) → Bool → List ℕ → ParseError → (ℕ → ExtendedTime) → Parsed
number_unless digits is_refused strict src error put = elim (read_number digits strict src) [
  | none ↦ inl error
  | some (number, rest) ↦ if is_refused number then inl error else inr (put number, rest)
]

-- one case of `switch`
unfoldable pub parse_field : Bool → ℕ → List ℕ → ExtendedTime → Parsed
unfolding read_number find_name
parse_field strict c src et =
    let tm = et.tm in
    let put_tm : Tm → ExtendedTime = λ changed. record et { tm = changed } in
    if c == b'%'
    then take_percent src
    else if c == b'a' || c == b'A'
    then elim (find_name 0 src day_names_full day_names) [
      | none ↦ inl ParseError.no_weekday
      | some (_, rest) ↦ inr (et, rest)
    ]
    else if c == b'b' || c == b'B' || c == b'h'
    then elim (find_name 0 src month_names_full month_names) [
      | none ↦ inl ParseError.no_month_name
      | some (m, rest) ↦ inr (put_tm (record tm { tm_mon = m }), rest)
    ]
    else if c == b'd' || c == b'e'
    then number_unless 2 (λ n. ltb n 1 || ltb 31 n) strict src ParseError.no_day
        (λ n. put_tm (record tm { tm_mday = n }))
    else if c == b'H'
    then number_unless 2 (λ n. ltb 23 n) strict src ParseError.no_hours
        (λ n. put_tm (record tm { tm_hour = n }))
    else if c == b'm'
    then number_unless 2 (λ n. ltb n 1 || ltb 12 n) strict src ParseError.no_month
        (λ n. put_tm (record tm { tm_mon = n - 1 }))
    else if c == b'M'
    then number_unless 2 (λ n. ltb 59 n) strict src ParseError.no_minutes
        (λ n. put_tm (record tm { tm_min = n }))
    else if c == b'q'
    then number_unless 6 (λ n. leb usec_max n) strict src ParseError.no_microseconds
        (λ n. record et { tm_usec = n })
    else if c == b'S'
    then number_unless 2 (λ n. ltb 59 n) strict src ParseError.no_seconds
        (λ n. put_tm (record tm { tm_sec = n }))
    else if c == b'Y'
    then number_unless 4 (λ n. ltb n 1970) strict src ParseError.no_year
        (λ n. put_tm (record tm { tm_year = n - 1900 }))
    else inl ParseError.unknown_specifier
  where
    take_percent : List ℕ → Parsed
    take_percent [] = inl ParseError.no_percent
    take_percent (c ∷ rest) = if c == b'%' then inr (et, rest) else inl ParseError.no_percent

abbrev skip_spaces : List ℕ → List ℕ
skip_spaces [] = []
skip_spaces (c ∷ src) = let more = skip_spaces src in if is_space c then more else c ∷ src

-- a character of the format that is no '%'
unfoldable pub parse_character : Bool → ℕ → List ℕ → ExtendedTime → Parsed
parse_character strict c src et =
    if not strict && is_space c then inr (et, skip_spaces src) else take_character src
  where
    take_character : List ℕ → Parsed
    take_character [] = inl ParseError.no_character
    take_character (d ∷ rest) = if d == c then inr (et, rest) else inl ParseError.no_character

abbrev pub parsed_then :
    Parsed → (List ℕ → ExtendedTime → ParseError ⊎ ExtendedTime) → ParseError ⊎ ExtendedTime
parsed_then (inl error) more = inl error
parsed_then (inr (et, rest)) more = more rest et

-- The format comes first. What is left of the string at the end is not looked at.
unfoldable pub from_str : Bool → List ℕ → List ℕ → ExtendedTime → ParseError ⊎ ExtendedTime
unfolding parse_field parse_character
from_str strict [] src et = inr et
from_str strict (c ∷ []) src et =
    if c == b'%'
    then inl ParseError.unknown_specifier
    else parsed_then (parse_character strict c src et) (from_str strict [])
from_str strict (c ∷ d ∷ format) src et =
    let converted = parsed_then (parse_field strict d src et) (from_str strict format) in
    let copied = parsed_then (parse_character strict c src et) (from_str strict (d ∷ format)) in
    if c == b'%' then converted else copied

-- `Time::set` from a string, `set_f` and `set_ft`
unfoldable pub set_from : Mktime → List ℕ → List ℕ → Bool → ParseError ⊎ Time
unfolding from_str to_time of_seconds
set_from mktime value format strict = elim (from_str strict format value (of_seconds 0 0)) [
  | inl error ↦ inl error
  | inr et ↦ inr (to_time mktime et)
]

unfoldable pub set_f : Mktime → List ℕ → Bool → ParseError ⊎ Time
unfolding set_from
set_f mktime value strict = set_from mktime value (codes "%Y-%m-%d") strict

unfoldable pub set_ft : Mktime → List ℕ → Bool → ParseError ⊎ Time
unfolding set_from
set_ft mktime value strict = set_from mktime value (codes "%Y-%m-%d %H:%M:%S") strict
