-- ===== src/Strings/Numbers/Printing.antt =====
-- What `int_to_str` writes: it fits into its buffer, and `str_to_int` reads it back.
use litemq.Prelude.{
  ℕ, zero, suc, ◌+◌, ◌-◌, ◌*◌, ◌/◌, ◌^◌, ◌≤◌, ◌<◌, ◌≡◌, ◌⊎◌, inl, inr, refl, ap, ◌∙◌, Bool, true,
  false, ltb, leb, ◌==◌, Option, none, some, List, [], ◌∷◌, ◌++◌, length, length-append, All, arith,
  Bool-cases,
}
use litemq.Prelude.Int.{ℤ, pos, negsuc, pos_part}
use litemq.Strings.Numbers.{
  IntegerType, max_value, with_sign, str_to_int, low_digits, reverse, convert_unsigned,
  convert_signed, int_to_str,
}
use litemq.Strings.Numbers.Parsing.{
  decimal, is_digit, bound, clipped, signed, numeral, integer, accepted, IsChar, str_to_int-integer,
}

-- the number that digits write, lowest first
abbrev of_low : List ℕ → ℕ
of_low [] = 0
of_low (c ∷ cs) = c - b'0' + of_low cs * 10

abbrev pub IsDigit : ℕ → Type 0
IsDigit c = (b'0' ≤ c) × (c ≤ b'9')

of_low-low_digits : (fuel value : ℕ) → value < fuel → of_low (low_digits fuel value) ≡ value
unfolding low_digits
of_low-low_digits zero value h = absurd (omega (arith, h))
of_low-low_digits (suc fuel) value h = elim (Bool-cases (value / 10 == 0)) [
  | inl small ↦ rw small (ground (arith, small))
  | inr large ↦
      let less : value / 10 < fuel = ground (arith, large, h) in
      rw (large, of_low-low_digits fuel (value / 10) less) (omega arith)
]

low_digits-IsDigit : (fuel value : ℕ) → All IsDigit (low_digits fuel value)
unfolding low_digits
low_digits-IsDigit zero value = tt
low_digits-IsDigit (suc fuel) value = elim (Bool-cases (value / 10 == 0)) [
  | inl small ↦ rw small ((omega arith, omega arith), tt)
  | inr large ↦ rw large ((omega arith, omega arith), low_digits-IsDigit fuel (value / 10))
]

abbrev then_digit : ℕ → Option ℕ → Option ℕ
then_digit c none = none
then_digit c (some n) = some (n * 10 + (c - b'0'))

decimal-append :
    (value : ℕ) (cs : List ℕ) (c : ℕ)
    → IsDigit c
    → decimal value (cs ++ (c ∷ [])) ≡ then_digit c (decimal value cs)
unfolding decimal
decimal-append value [] c d = let digit : is_digit c ≡ true = ground (arith, d) in rw digit
decimal-append value (b ∷ cs) c d = elim (Bool-cases (is_digit b)) [
  | inl e ↦ rw (e, decimal-append (value * 10 + (b - b'0')) cs c d)
  | inr e ↦ rw e
]

decimal-reverse : (cs : List ℕ) → All IsDigit cs → decimal 0 (reverse cs) ≡ some (of_low cs)
unfolding reverse decimal
decimal-reverse [] h = refl
decimal-reverse (c ∷ cs) (d, ds) =
    rw (decimal-append 0 (reverse cs) c d, decimal-reverse cs ds) (ap some (omega arith))

decimal-convert_unsigned : (n : ℕ) → decimal 0 (convert_unsigned n) ≡ some n
unfolding convert_unsigned
decimal-convert_unsigned n =
    decimal-reverse (low_digits (suc n) n) (low_digits-IsDigit (suc n) n)
    ∙ ap some (of_low-low_digits (suc n) n (omega arith))

append-IsDigit : (cs : List ℕ) (c : ℕ) → All IsDigit cs → IsDigit c → All IsDigit (cs ++ (c ∷ []))
append-IsDigit [] c h d = (d, tt)
append-IsDigit (b ∷ cs) c (h, hs) d = (h, append-IsDigit cs c hs d)

reverse-IsDigit : (cs : List ℕ) → All IsDigit cs → All IsDigit (reverse cs)
unfolding reverse
reverse-IsDigit [] h = tt
reverse-IsDigit (c ∷ cs) (d, ds) = append-IsDigit (reverse cs) c (reverse-IsDigit cs ds) d

convert_unsigned-IsDigit : (n : ℕ) → All IsDigit (convert_unsigned n)
unfolding convert_unsigned
convert_unsigned-IsDigit n = reverse-IsDigit (low_digits (suc n) n) (low_digits-IsDigit (suc n) n)

length-reverse : (cs : List ℕ) → length (reverse cs) ≡ length cs
unfolding reverse
length-reverse [] = refl
length-reverse (c ∷ cs) = omega (arith, length-append {0} (reverse cs) (c ∷ []), length-reverse cs)

convert_unsigned_some : (n : ℕ) → 0 < length (convert_unsigned n)
unfolding convert_unsigned low_digits
convert_unsigned_some n = omega (arith, length-reverse (low_digits (suc n) n))

chars_of_digits : (cs : List ℕ) → All IsDigit cs → All IsChar cs
chars_of_digits [] h = tt
chars_of_digits (c ∷ cs) (d, ds) = (omega (arith, d), chars_of_digits cs ds)

numeral_of_digits :
    (t : IntegerType) (negative : Bool) (cs : List ℕ)
    → 0 < length cs
    → numeral t negative cs ≡ signed negative (clipped t negative (decimal 0 cs))
numeral_of_digits t negative [] h = absurd (omega (arith, h))
numeral_of_digits t negative (c ∷ cs) h = refl

integer_of_digits :
    (t : IntegerType) (cs : List ℕ) → All IsDigit cs → integer t cs ≡ numeral t false cs
integer_of_digits t [] h = refl
integer_of_digits t (c ∷ cs) (d, ds) =
    let no_minus : (c == b'-') ≡ false = ground (arith, d) in
    let no_plus : (c == b'+') ≡ false = ground (arith, d) in rw (no_minus, no_plus)

-- the values that are printed: all of the type but the least one with a sign
abbrev pub InRange : IntegerType → ℤ → Type 0
InRange t (pos n) = n ≤ max_value t
InRange t (negsuc n) = (t.is_signed ≡ true) × (suc n ≤ max_value t)

within_bound :
    (t : IntegerType) (negative : Bool) (n : ℕ) → n ≤ max_value t → leb n (bound t negative) ≡ true
within_bound t true n h = ground (arith, h)
within_bound t false n h = ground (arith, h)

numeral-convert_unsigned :
    (t : IntegerType) (negative : Bool) (n : ℕ)
    → n ≤ max_value t
    → numeral t negative (convert_unsigned n) ≡ some (with_sign negative n)
numeral-convert_unsigned t negative n h =
    let within : leb n (bound t negative) ≡ true = within_bound t negative n h in
    rw (
      numeral_of_digits t negative (convert_unsigned n) (convert_unsigned_some n),
      decimal-convert_unsigned n,
      within,
    )

convert_signed-IsChar : (t : IntegerType) (value : ℤ) → All IsChar (convert_signed t value)
unfolding convert_signed
convert_signed-IsChar t (pos n) = chars_of_digits (convert_unsigned n) (convert_unsigned-IsDigit n)
convert_signed-IsChar t (negsuc n) = elim (Bool-cases (ltb (max_value t) (suc n))) [
  | inl over ↦ rw over tt
  | inr within ↦
      rw within
        (omega arith, chars_of_digits (convert_unsigned (suc n)) (convert_unsigned-IsDigit (suc n)))
]

integer-convert_signed :
    (t : IntegerType) (value : ℤ)
    → InRange t value
    → integer t (convert_signed t value) ≡ some value
unfolding convert_signed
integer-convert_signed t (pos n) h =
    integer_of_digits t (convert_unsigned n) (convert_unsigned-IsDigit n)
    ∙ numeral-convert_unsigned t false n h
integer-convert_signed t (negsuc n) (has_minus, h) =
    let within : ltb (max_value t) (suc n) ≡ false = ground (arith, h) in
    rw (within, has_minus, numeral-convert_unsigned t true (suc n) h)

-- What `int_to_str` writes of a value into a buffer that is long enough for any value of the type,
-- `str_to_int` reads back, whatever type of integers it is. The least value of a type with a sign is
-- left out.
pub str_to_int-int_to_str :
    (t : IntegerType) (value before : ℤ) (size : ℕ)
    → InRange t value
    → t.digits10 + 3 ≤ size
    → accepted (str_to_int t (int_to_str t value size) before) ≡ some value
unfolding int_to_str
str_to_int-int_to_str t value before size h large =
    let long : ltb size (t.digits10 + 3) ≡ false = ground (arith, large) in
    rw (
      long,
      str_to_int-integer t (convert_signed t value) before (convert_signed-IsChar t value),
      integer-convert_signed t value h,
    )

-- `10 ^ (digits10 + 1)` is beyond the values of the type
abbrev pub IsType : IntegerType → Type 0
IsType t = 2 ^ t.digits ≤ 10 ^ suc t.digits10

length-low_digits : (k fuel value : ℕ) → value < 10 ^ suc k → length (low_digits fuel value) ≤ suc k
unfolding low_digits
length-low_digits k zero value h = omega arith
length-low_digits zero (suc fuel) value h =
    let small : (value / 10 == 0) ≡ true = ground (arith, h) in rw small (omega arith)
length-low_digits (suc k) (suc fuel) value h = elim (Bool-cases (value / 10 == 0)) [
  | inl small ↦ rw small (omega arith)
  | inr large ↦ rw large (omega (arith, length-low_digits k fuel (value / 10) (omega (arith, h))))
]

power_positive : (n : ℕ) → 0 < 2 ^ n
power_positive zero = omega arith
power_positive (suc n) = omega (arith, power_positive n)

length-convert_unsigned :
    (t : IntegerType) (n : ℕ)
    → IsType t
    → n ≤ max_value t
    → length (convert_unsigned n) ≤ suc t.digits10
unfolding convert_unsigned
length-convert_unsigned t n h le =
    let lt : n < 10 ^ suc t.digits10 = omega (arith, h, le, power_positive t.digits) in
    omega (arith, length-reverse (low_digits (suc n) n), length-low_digits t.digits10 (suc n) n lt)

length-convert_signed :
    (t : IntegerType) (value : ℤ)
    → IsType t
    → pos_part value ≤ max_value t
    → length (convert_signed t value) ≤ suc (suc t.digits10)
unfolding convert_signed
length-convert_signed t (pos n) h le = omega (arith, length-convert_unsigned t n h le)
length-convert_signed t (negsuc n) h le = elim (Bool-cases (ltb (max_value t) (suc n))) [
  | inl over ↦ rw over (omega arith)
  | inr within ↦
      let fit : suc n ≤ max_value t = ground (arith, within) in
      rw within (omega (arith, length-convert_unsigned t (suc n) h fit))
]

-- `int_to_str` never writes beyond its buffer: either it writes nothing, or what it writes for a
-- value of the type and the `\0` behind it fit into `size` characters.
length-int_to_str :
    (t : IntegerType) (value : ℤ) (size : ℕ)
    → IsType t
    → pos_part value ≤ max_value t
    → (int_to_str t value size ≡ []) ⊎ (suc (length (int_to_str t value size)) ≤ size)
unfolding int_to_str
length-int_to_str t value size h le = elim (Bool-cases (ltb size (t.digits10 + 3))) [
  | inl short ↦ rw short (inl refl)
  | inr long ↦
      let large : t.digits10 + 3 ≤ size = ground (arith, long) in
      rw long (inr (omega (arith, length-convert_signed t value h le, large)))
]
