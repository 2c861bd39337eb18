-- ===== src/Strings/Hex.antt =====
-- gears/StringManip.cpp: `hex_encode`, `hex_low_encode` and `hex_decode`.
pub mod Decoding
use Prim.Native.Nat.{bit_or}
use litemq.Prelude.{
  ℕ, zero, suc, ◌+◌, ◌-◌, ◌*◌, ◌/◌, ◌%◌, Bool, true, false, not, ◌&&◌, ◌||◌, if◌then◌else◌, leb,
  ◌==◌, Option, none, some, List, [], ◌∷◌, length, get_or,
}

abbrev pub hex_up_digits : List ℕ
hex_up_digits =
    b'0' ∷ b'1' ∷ b'2' ∷ b'3' ∷ b'4' ∷ b'5' ∷ b'6' ∷ b'7' ∷ b'8' ∷ b'9' ∷ b'A' ∷ b'B' ∷ b'C' ∷ b'D'
    ∷ b'E' ∷ b'F' ∷ []

abbrev pub hex_low_digits : List ℕ
hex_low_digits =
    b'0' ∷ b'1' ∷ b'2' ∷ b'3' ∷ b'4' ∷ b'5' ∷ b'6' ∷ b'7' ∷ b'8' ∷ b'9' ∷ b'a' ∷ b'b' ∷ b'c' ∷ b'd'
    ∷ b'e' ∷ b'f' ∷ []

-- the loop of `hex_encode_ex` over the bytes, two digits for each
unfoldable pub encode_bytes : List ℕ → List ℕ → List ℕ
encode_bytes hex_digits [] = []
encode_bytes hex_digits (b ∷ bytes) =
    get_or hex_digits (b / 16) 0 ∷ get_or hex_digits (b % 16) 0 ∷ encode_bytes hex_digits bytes

-- `hex_encode_ex` with `skip_leading_zeroes`, on bytes that is not empty: one digit `0` where all
-- bytes are zero, and one digit for a first byte below 16.
unfoldable pub encode_short : List ℕ → List ℕ → List ℕ
unfolding encode_bytes
encode_short hex_digits [] = b'0' ∷ []
encode_short hex_digits (b ∷ bytes) =
    let rest = encode_short hex_digits bytes in
    if b == 0
    then rest
    else if b / 16 == 0
    then get_or hex_digits b 0 ∷ encode_bytes hex_digits bytes
    else encode_bytes hex_digits (b ∷ bytes)

unfoldable pub hex_encode_ex : List ℕ → Bool → List ℕ → List ℕ
unfolding encode_bytes encode_short
hex_encode_ex [] skip_leading_zeroes hex_digits = []
hex_encode_ex (b ∷ bytes) true hex_digits = encode_short hex_digits (b ∷ bytes)
hex_encode_ex (b ∷ bytes) false hex_digits = encode_bytes hex_digits (b ∷ bytes)

unfoldable pub hex_encode : List ℕ → Bool → List ℕ
unfolding hex_encode_ex
hex_encode bytes skip_leading_zeroes = hex_encode_ex bytes skip_leading_zeroes hex_up_digits

unfoldable pub hex_low_encode : List ℕ → Bool → List ℕ
unfolding hex_encode_ex
hex_low_encode bytes skip_leading_zeroes = hex_encode_ex bytes skip_leading_zeroes hex_low_digits

-- `ch <= '9'` holds of a negative `char`, too; the result is an `unsigned char`.
unfoldable pub hex_to_int : ℕ → ℕ
hex_to_int ch = if leb ch b'9' || leb 128 ch then (ch + 256 - b'0') % 256 else (ch % 16 + 9) % 256

unfoldable pub hex_to_char : ℕ → ℕ → ℕ
unfolding hex_to_int
hex_to_char major minor = bit_or (hex_to_int major * 16) (hex_to_int minor) % 256

-- the loop of `hex_decode` over the pairs of digits; the number of digits is even
unfoldable pub decode_pairs : List ℕ → List ℕ
unfolding hex_to_char
decode_pairs [] = []
decode_pairs (a ∷ []) = []
decode_pairs (a ∷ b ∷ src) = hex_to_char a b ∷ decode_pairs src

unfoldable pub decode_digits : Bool → List ℕ → List ℕ
unfolding decode_pairs hex_to_int
decode_digits true (c ∷ src) = hex_to_int c ∷ decode_pairs src
decode_digits true [] = []
decode_digits false src = decode_pairs src

-- The bytes and their number, or the exception.
unfoldable pub hex_decode : List ℕ → Bool → Option (List ℕ × ℕ)
unfolding decode_digits
hex_decode src allow_odd_string =
    let odd_string = length src % 2 == 1 in
    if odd_string && not allow_odd_string
    then none
    else some (decode_digits odd_string src, (length src + 1) / 2)
