-- ===== src/Strings/Numbers/Parsing.antt =====
-- When `str_to_int` accepts a string, and what it reads.
use litemq.Prelude.{
  ℕ, zero, suc, ◌+◌, ◌-◌, ◌*◌, ◌/◌, ◌%◌, ◌^◌, ◌≤◌, ◌<◌, ◌≡◌, ◌≢◌, inl, inr, refl, sym, ap, ◌∙◌,
  Bool, true, false, ◌&&◌, ◌||◌, if◌then◌else◌, ltb, leb, ◌==◌, Option, none, some, List, [], ◌∷◌,
  All, arith, Bool-cases,
}
use litemq.Prelude.Int.{ℤ}
use litemq.Strings.Numbers.{
  IntegerType, max_value, with_sign, digit_value, last_digit, add_digits, convert_digits,
  str_to_int,
}

-- The number that digits write after a number `value`, of any size.
unfoldable pub decimal : ℕ → List ℕ → Option ℕ
decimal value [] = some value
decimal value (c ∷ src) =
    let more = decimal (value * 10 + (c - b'0')) src in
    if leb b'0' c && leb c b'9' then more else none

-- the largest size of a number of either sign
abbrev pub bound : IntegerType → Bool → ℕ
bound t negative = if negative then max_value t + 1 else max_value t

-- a number that the type has
abbrev pub clipped : IntegerType → Bool → Option ℕ → Option ℕ
clipped t negative none = none
clipped t negative (some n) = if leb n (bound t negative) then some n else none

abbrev pub signed : Bool → Option ℕ → Option ℤ
signed negative none = none
signed negative (some n) = some (with_sign negative n)

-- A sign may stand in front of one digit or more; a type without negative numbers has no `-`.
abbrev pub numeral : IntegerType → Bool → List ℕ → Option ℤ
numeral t negative [] = none
numeral t negative (c ∷ src) = signed negative (clipped t negative (decimal 0 (c ∷ src)))

abbrev pub integer : IntegerType → List ℕ → Option ℤ
integer t [] = none
integer t (c ∷ src) =
    if c == b'-'
    then if t.is_signed then numeral t true src else none
    else if c == b'+'
    then numeral t false src
    else numeral t false (c ∷ src)

abbrev pub accepted : Bool × ℤ → Option ℤ
accepted (true, value) = some value
accepted (false, value) = none

abbrev pub IsChar : ℕ → Type 0
IsChar c = c < 256

power_mod : (n : ℕ) → 2 ^ n % 5 ≢ 0
power_mod zero h = absurd (omega (arith, h))
power_mod (suc n) h = power_mod n (omega (arith, h))

max_value_mod : (t : IntegerType) → max_value t % 10 ≢ 9
max_value_mod t h = power_mod t.digits (omega (arith, h))

-- the guard of the loops, and what it tells
abbrev too_large : IntegerType → Bool → ℕ → ℕ → Bool
too_large t negative value ch =
    ltb 9 ch
    || ltb (max_value t / 10) value
    || (value == max_value t / 10 && ltb (last_digit t negative) ch)

abbrev pub is_digit : ℕ → Bool
is_digit c = leb b'0' c && leb c b'9'

too_large_digit :
    (t : IntegerType) (negative : Bool) (value c : ℕ)
    → is_digit c ≡ true
    → too_large t negative value (digit_value c) ≡ true
    → bound t negative < value * 10 + (c - b'0')
too_large_digit t true value c d h = ground (arith, max_value_mod t)
too_large_digit t false value c d h = ground (arith, max_value_mod t)

not_too_large :
    (t : IntegerType) (negative : Bool) (value c : ℕ)
    → c < 256
    → too_large t negative value (digit_value c) ≡ false
    → (is_digit c ≡ true)
      × (digit_value c ≡ c - b'0')
      × (value * 10 + digit_value c ≤ bound t negative)
not_too_large t true value c lt h = ground (arith, max_value_mod t)
not_too_large t false value c lt h = ground (arith, max_value_mod t)

abbrev from_digits : Bool × ℕ → Option ℕ
from_digits (true, n) = some n
from_digits (false, n) = none

decimal_large :
    (t : IntegerType) (negative : Bool) (value : ℕ) (src : List ℕ)
    → bound t negative < value
    → clipped t negative (decimal value src) ≡ none
unfolding decimal
decimal_large t negative value [] h =
    let over : leb value (bound t negative) ≡ false = ground (arith, h) in rw over
decimal_large t negative value (c ∷ src) h = elim (Bool-cases (is_digit c)) [
  | inl d ↦ rw (d, decimal_large t negative (value * 10 + (c - b'0')) src (omega (arith, h)))
  | inr d ↦ rw d
]

add_digits-decimal :
    (t : IntegerType) (negative : Bool) (value : ℕ) (src : List ℕ)
    → All IsChar src
    → value ≤ bound t negative
    → from_digits (add_digits t negative value src) ≡ clipped t negative (decimal value src)
unfolding add_digits decimal
add_digits-decimal t negative value [] h le =
    let within : leb value (bound t negative) ≡ true = ground (arith, le) in rw within
add_digits-decimal t negative value (c ∷ src) (h, hs) le =
    elim (Bool-cases (too_large t negative value (digit_value c))) [
      | inl over ↦ elim (Bool-cases (is_digit c)) [
        | inl d ↦ rw (
          over,
          d,
          decimal_large t negative (value * 10 + (c - b'0')) src
              (too_large_digit t negative value c d over),
        )
        | inr d ↦ rw (over, d)
      ]
      | inr within ↦
          let (d, same, fit) = not_too_large t negative value c h within in
          rw (
            within,
            d,
            sym same,
            add_digits-decimal t negative (value * 10 + digit_value c) src hs fit,
          )
    ]

accepted-from_digits :
    (negative : Bool) (r : Bool × ℕ)
    → accepted (r.0, with_sign negative r.1) ≡ signed negative (from_digits r)
accepted-from_digits negative (true, n) = refl
accepted-from_digits negative (false, n) = refl

convert_digits-numeral :
    (t : IntegerType) (negative : Bool) (src : List ℕ) (value : ℤ)
    → All IsChar src
    → accepted (convert_digits t negative src value) ≡ numeral t negative src
unfolding convert_digits
convert_digits-numeral t negative [] value h = refl
convert_digits-numeral t negative (c ∷ src) value h =
    accepted-from_digits negative (add_digits t negative 0 (c ∷ src))
    ∙ ap (signed negative) (add_digits-decimal t negative 0 (c ∷ src) h (omega arith))

-- `str_to_int` for any type of integers accepts just the strings of a sign, where there is one, and
-- one decimal digit or more whose number the type has, and then it gives that number.
pub str_to_int-integer :
    (t : IntegerType) (src : List ℕ) (value : ℤ)
    → All IsChar src
    → accepted (str_to_int t src value) ≡ integer t src
unfolding str_to_int
str_to_int-integer t [] value h = refl
str_to_int-integer t (c ∷ src) value (h, hs) = elim (Bool-cases (c == b'-')) [
  | inl dash ↦ elim (Bool-cases t.is_signed) [
    | inl has_minus ↦ rw (dash, has_minus, convert_digits-numeral t true src value hs)
    | inr has_none ↦ rw (dash, has_none)
  ]
  | inr e ↦ elim (Bool-cases (c == b'+')) [
    | inl plus ↦ rw (e, plus, convert_digits-numeral t false src value hs)
    | inr f ↦ rw (e, f, convert_digits-numeral t false (c ∷ src) value (h, hs))
  ]
]
