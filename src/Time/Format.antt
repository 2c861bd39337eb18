-- ===== src/Time/Format.antt =====
-- gears/Time.cpp, `ExtendedTime::to_str_` and `format`: a time in a format with conversion
-- specifiers. What is written to the buffer is a list, and `none` stands for the returned 0. The
-- fields of the time are not negative.
pub mod Fits
pub mod Bounds
use litemq.Prelude.{
  ℕ, zero, suc, ◌+◌, ◌-◌, ◌*◌, ◌/◌, ◌%◌, ◌^◌, Bool, true, false, ◌&&◌, if◌then◌else◌, ltb, ◌==◌,
  Option, none, some, List, [], ◌∷◌, ◌++◌, length, get_elem?, codes,
}
use litemq.Prelude.Int.{ℤ, pos, negsuc, pos_part, neg_part, eqb_ℤ, ltb_ℤ}
use litemq.Strings.Numbers.{IntegerType, int_to_str}
use litemq.Time.Extended.{
  ExtendedTime, Mktime, of_seconds, to_time, day_names, day_names_full, month_names,
  month_names_full,
}

-- the conversion specifiers that `switch` names
pub data Specifier : Type 0 where
  percent day_name full_day_name month_name full_month_name : Specifier
  day spaced_day date hour bare_hour month minute micros epoch second time year zone : Specifier

unfoldable pub specifier : ℕ → Option Specifier
specifier c =
    if c == b'%'
    then some Specifier.percent
    else if c == b'a'
    then some Specifier.day_name
    else if c == b'A'
    then some Specifier.full_day_name
    else if c == b'b'
    then some Specifier.month_name
    else if c == b'h'
    then some Specifier.month_name
    else if c == b'B'
    then some Specifier.full_month_name
    else if c == b'd'
    then some Specifier.day
    else if c == b'e'
    then some Specifier.spaced_day
    else if c == b'F'
    then some Specifier.date
    else if c == b'H'
    then some Specifier.hour
    else if c == b'k'
    then some Specifier.bare_hour
    else if c == b'm'
    then some Specifier.month
    else if c == b'M'
    then some Specifier.minute
    else if c == b'q'
    then some Specifier.micros
    else if c == b's'
    then some Specifier.epoch
    else if c == b'S'
    then some Specifier.second
    else if c == b'T'
    then some Specifier.time
    else if c == b'Y'
    then some Specifier.year
    else if c == b'z'
    then some Specifier.zone
    else none

infixl 5 ◌>>=◌
abbrev pub ◌>>=◌ : {A B : Type 0} → Option A → (A → Option B) → Option B
none >>= f = none
(some a) >>= f = f a

-- `add_str`, and the writing of a single character, behind `size` characters of `length`
unfoldable pub add_str : ℕ → ℕ → List ℕ → Option (List ℕ)
add_str size room src = if ltb room (size + length src) then none else some src

unfoldable pub add_char : ℕ → ℕ → ℕ → Option (List ℕ)
add_char size room c = if room == size then none else some (c ∷ [])

-- the characters of `buf` in `add_num<SIZE>`, which is filled from its end
unfoldable pub padded : ℕ → ℕ → List ℕ
padded zero number = []
padded (suc digits) number = padded digits (number / 10) ++ ((number % 10 + b'0') ∷ [])

abbrev add_padded : ℕ → ℕ → ℕ → ℕ → Option (List ℕ)
add_padded size room digits number = add_str size room (padded digits number)

abbrev pub prepend : List ℕ → Option (List ℕ) → Option (List ℕ)
prepend written none = none
prepend written (some str) = some (written ++ str)

abbrev pub nonempty : List ℕ → Option (List ℕ)
nonempty [] = none
nonempty (c ∷ str) = some (c ∷ str)

-- `add_num` without a size: `int` and `time_t` are of 32 and of 64 bits.
abbrev pub int : IntegerType
int = record { is_signed = true; digits = 31; digits10 = 9 }

abbrev pub time_t : IntegerType
time_t = record { is_signed = true; digits = 63; digits10 = 18 }

unfoldable pub add_num : ℕ → ℕ → IntegerType → ℤ → Option (List ℕ)
unfolding int_to_str add_str
add_num size room t number = nonempty (int_to_str t number 64) >>= add_str size room

-- one case of `switch`, with the function that `to_str_` calls for "%F" and "%T"
unfoldable pub convert :
    Mktime → (ℕ → List ℕ → Option (List ℕ)) → ExtendedTime → ℕ → ℕ → Specifier → Option (List ℕ)
unfolding add_str add_char padded add_num to_time
convert mktime inner et size room Specifier.percent = add_char size room b'%'
convert mktime inner et size room Specifier.day_name =
    get_elem? day_names et.tm.tm_wday >>= add_str size room
convert mktime inner et size room Specifier.full_day_name =
    get_elem? day_names_full et.tm.tm_wday >>= add_str size room
convert mktime inner et size room Specifier.month_name =
    get_elem? month_names et.tm.tm_mon >>= add_str size room
convert mktime inner et size room Specifier.full_month_name =
    get_elem? month_names_full et.tm.tm_mon >>= add_str size room
convert mktime inner et size room Specifier.day = add_padded size room 2 et.tm.tm_mday
convert mktime inner et size room Specifier.spaced_day =
    let t = et.tm.tm_mday / 10 in
    let first = if t == 0 then b' ' else (t + b'0') % 256 in
    add_str size room (first ∷ (et.tm.tm_mday % 10 + b'0') ∷ [])
convert mktime inner et size room Specifier.date =
    inner (room - size) (codes "%Y-%m-%d") >>= nonempty
convert mktime inner et size room Specifier.hour = add_padded size room 2 et.tm.tm_hour
convert mktime inner et size room Specifier.bare_hour = add_num size room int (pos et.tm.tm_hour)
convert mktime inner et size room Specifier.month = add_padded size room 2 (et.tm.tm_mon + 1)
convert mktime inner et size room Specifier.minute = add_padded size room 2 et.tm.tm_min
convert mktime inner et size room Specifier.micros = add_padded size room 6 et.tm_usec
convert mktime inner et size room Specifier.epoch =
    add_num size room time_t (to_time mktime et).tv_sec
convert mktime inner et size room Specifier.second = add_padded size room 2 et.tm.tm_sec
convert mktime inner et size room Specifier.time =
    inner (room - size) (codes "%H:%M:%S") >>= nonempty
convert mktime inner et size room Specifier.year = add_padded size room 4 (et.tm.tm_year + 1900)
convert mktime inner et size room Specifier.zone =
    let (result, diff) = mktime et.tm in
    let minutes = (pos_part diff + neg_part diff) / 60 in
    let sign = if ltb_ℤ diff (pos 0) then b'-' else b'+' in
    let local = add_str size room (sign ∷ []) >>= (λ written.
      prepend written (add_padded (size + 1) room 4 (minutes / 60 * 100 + minutes % 60))) in
    if et.is_gmt
    then add_str size room (codes "+0000")
    else if eqb_ℤ result (negsuc 0)
    then none
    else local

-- The loop over the format, from its next character on: what is written from there on.
unfoldable pub to_str_loop : (ℕ → Specifier → Option (List ℕ)) → ℕ → ℕ → List ℕ → Option (List ℕ)
unfolding specifier add_char
to_str_loop converted size room [] = some []
to_str_loop converted size room (c ∷ []) = if c == b'%' then none else add_char size room c
to_str_loop converted size room (c ∷ d ∷ format) =
    let conversion =
      specifier d
      >>= converted size
      >>= (λ str. prepend str (to_str_loop converted (size + length str) room format)) in
    let copied = to_str_loop converted (suc size) room (d ∷ format) in
    if c == b'%' then conversion else add_char size room c >>= (λ str. prepend str copied)

-- `to_str_`, with a bound on how deep it calls itself, and what it writes: `none` is its failure, and
-- the bound of `to_str` is never met. The code returns the number of characters, and 0 also where it
-- fails: the same as for nothing written, which its callers take for a failure (`nonempty`).
unfoldable pub to_str_within : ℕ → Mktime → ExtendedTime → ℕ → List ℕ → Option (List ℕ)
unfolding convert to_str_loop
to_str_within zero mktime et room format = none
to_str_within (suc depth) mktime et room format =
    to_str_loop (λ size. convert mktime (to_str_within depth mktime et) et size room) 0 room format

unfoldable pub to_str : Mktime → ExtendedTime → ℕ → List ℕ → Option (List ℕ)
unfolding to_str_within
to_str = to_str_within 2

-- `ExtendedTime::format`, where nothing written is an exception, and what `Time` does with it
unfoldable pub format : Mktime → ExtendedTime → List ℕ → Option (List ℕ)
unfolding to_str
format mktime et fmt = to_str mktime et 256 fmt >>= nonempty

unfoldable pub gm_f : Mktime → ℕ → ℕ → Option (List ℕ)
unfolding format of_seconds
gm_f mktime sec usec = format mktime (of_seconds sec usec) (codes "%F")

unfoldable pub gm_ft : Mktime → ℕ → ℕ → Option (List ℕ)
unfolding format of_seconds
gm_ft mktime sec usec = format mktime (of_seconds sec usec) (codes "%F %T")
