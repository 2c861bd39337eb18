-- ===== src/Strings/Numbers.antt =====
-- gears/StringManip.hpp: `str_to_int` and `int_to_str` for any type of integers. An `Integer` that
-- the code steps through is kept as its sign and its size, with no wrapping around.
pub mod Parsing
pub mod Printing
use litemq.Prelude.{
  ℕ, zero, suc, ◌+◌, ◌-◌, ◌*◌, ◌/◌, ◌%◌, ◌^◌, Bool, true, false, not, ◌&&◌, ◌||◌, if◌then◌else◌,
  ltb, ◌==◌, List, [], ◌∷◌, ◌++◌, length,
}
use litemq.Prelude.Int.{ℤ, pos, negsuc}

-- `std::numeric_limits<Integer>`: a type with `digits` bits besides the sign
pub record IntegerType : Type 0 where
  pub is_signed : Bool
  pub digits : ℕ
  pub digits10 : ℕ

abbrev pub max_value : IntegerType → ℕ
max_value t = 2 ^ t.digits - 1

abbrev pub minus : ℕ → ℤ
minus zero = pos 0
minus (suc n) = negsuc n

abbrev pub with_sign : Bool → ℕ → ℤ
with_sign negative n = if negative then minus n else pos n

-- `static_cast<unsigned char>(*src) - static_cast<unsigned char>('0')` as an `unsigned char`
abbrev pub digit_value : ℕ → ℕ
digit_value c = (c + 256 - b'0') % 256

-- `max() - LIMIT * 10`, and `-(min() + LIMIT * 10)`
abbrev pub last_digit : IntegerType → Bool → ℕ
last_digit t negative =
    let rest = max_value t - max_value t / 10 * 10 in if negative then rest + 1 else rest

-- The two loops, which differ in the sign of `value`: the result and `value` at the end.
unfoldable pub add_digits : IntegerType → Bool → ℕ → List ℕ → Bool × ℕ
add_digits t negative value [] = (true, value)
add_digits t negative value (c ∷ src) =
    let ch = digit_value c in
    let limit = max_value t / 10 in
    let more = add_digits t negative (value * 10 + ch) src in
    if ltb 9 ch || ltb limit value || (value == limit && ltb (last_digit t negative) ch)
    then (false, value)
    else more

-- What follows a sign, or the whole string: it is not empty, or `value` is left alone.
unfoldable pub convert_digits : IntegerType → Bool → List ℕ → ℤ → Bool × ℤ
unfolding add_digits
convert_digits t negative [] value = (false, value)
convert_digits t negative (c ∷ src) value =
    let (ok, n) = add_digits t negative 0 (c ∷ src) in (ok, with_sign negative n)

unfoldable pub str_to_int : IntegerType → List ℕ → ℤ → Bool × ℤ
unfolding convert_digits
str_to_int t [] value = (false, value)
str_to_int t (c ∷ src) value =
    if c == b'-'
    then if t.is_signed then convert_digits t true src value else (false, value)
    else if c == b'+'
    then convert_digits t false src value
    else convert_digits t false (c ∷ src) value

-- The loop of `IntToStrSign::convert`, lowest digit first. As fuel serves a number above `value`.
unfoldable pub low_digits : ℕ → ℕ → List ℕ
low_digits zero value = []
low_digits (suc fuel) value =
    let rest = low_digits fuel (value / 10) in
    (b'0' + value % 10) ∷ (if value / 10 == 0 then [] else rest)

-- the loop that swaps the characters from both ends
unfoldable pub reverse : List ℕ → List ℕ
reverse [] = []
reverse (c ∷ str) = reverse str ++ (c ∷ [])

-- `IntToStrSign<Integer, false>::convert`
unfoldable pub convert_unsigned : ℕ → List ℕ
unfolding low_digits reverse
convert_unsigned value = reverse (low_digits (suc value) value)

-- `IntToStrSign<Integer, true>::convert`: the least value of the type is refused.
unfoldable pub convert_signed : IntegerType → ℤ → List ℕ
unfolding convert_unsigned
convert_signed t (pos n) = convert_unsigned n
convert_signed t (negsuc n) =
    if ltb (max_value t) (suc n) then [] else b'-' ∷ convert_unsigned (suc n)

-- What is written in front of the `\0`: nothing, and 0 is returned, where the buffer is short.
unfoldable pub int_to_str : IntegerType → ℤ → ℕ → List ℕ
unfolding convert_signed
int_to_str t value size = if ltb size (t.digits10 + 3) then [] else convert_signed t value
