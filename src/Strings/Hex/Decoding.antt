-- ===== src/Strings/Hex/Decoding.antt =====
-- What `hex_decode` makes of the strings that `hex_encode` and `hex_low_encode` make.
use litemq.Prelude.{
  ℕ, zero, suc, ◌+◌, ◌*◌, ◌/◌, ◌%◌, ◌<◌, ◌≡◌, inl, inr, refl, Bool, true, false, if◌then◌else◌,
  ◌==◌, ==_iff, some, List, [], ◌∷◌, length, get_or, All, arith, Bool-cases,
}
use litemq.Strings.Hex.{
  hex_up_digits, hex_low_digits, encode_bytes, encode_short, hex_encode_ex, hex_encode,
  hex_low_encode, hex_to_int, hex_to_char, decode_pairs, decode_digits, hex_decode,
}

-- A property of bytes or of digits holds if it computes to `true` at each of them.
tabulated : (ℕ → Bool) → ℕ → Bool
tabulated test zero = true
tabulated test (suc last) = let rest = tabulated test last in if test last then rest else false

test_of_table :
    (test : ℕ → Bool) (size i : ℕ) → i < size → tabulated test size ≡ true → test i ≡ true
unfolding tabulated
test_of_table test zero i below table = absurd (omega (arith, below))
test_of_table test (suc last) i below table =
    ground (arith, below, table, test_of_table test last i)

-- the digits of either case
abbrev pub digits_of : Bool → List ℕ
digits_of low = if low then hex_low_digits else hex_up_digits

bytes_back : Bool → ℕ → Bool
unfolding hex_to_char
bytes_back low b =
    hex_to_char (get_or (digits_of low) (b / 16) 0) (get_or (digits_of low) (b % 16) 0) == b

bytes_back_table : (low : Bool) → tabulated (bytes_back low) 256 ≡ true
unfolding tabulated bytes_back
bytes_back_table true = refl
bytes_back_table false = refl

hex_to_char-get_or :
    (low : Bool) (b : ℕ)
    → b < 256
    → hex_to_char (get_or (digits_of low) (b / 16) 0) (get_or (digits_of low) (b % 16) 0) ≡ b
unfolding bytes_back
hex_to_char-get_or low b h =
    (==_iff _ b).0 (test_of_table (bytes_back low) 256 b h (bytes_back_table low))

digit_back : Bool → ℕ → Bool
unfolding hex_to_int
digit_back low b = hex_to_int (get_or (digits_of low) b 0) == b

digit_back_table : (low : Bool) → tabulated (digit_back low) 16 ≡ true
unfolding tabulated digit_back
digit_back_table true = refl
digit_back_table false = refl

hex_to_int-get_or : (low : Bool) (b : ℕ) → b < 16 → hex_to_int (get_or (digits_of low) b 0) ≡ b
unfolding digit_back
hex_to_int-get_or low b h =
    (==_iff _ b).0 (test_of_table (digit_back low) 16 b h (digit_back_table low))

abbrev pub IsByte : ℕ → Type 0
IsByte b = b < 256

decode_pairs-encode_bytes :
    (low : Bool) (bytes : List ℕ)
    → All IsByte bytes
    → decode_pairs (encode_bytes (digits_of low) bytes) ≡ bytes
unfolding encode_bytes decode_pairs
decode_pairs-encode_bytes low [] h = refl
decode_pairs-encode_bytes low (b ∷ bytes) (h, hs) =
    rw (hex_to_char-get_or low b h, decode_pairs-encode_bytes low bytes hs)

length-encode_bytes :
    (low : Bool) (bytes : List ℕ) → length (encode_bytes (digits_of low) bytes) ≡ length bytes * 2
unfolding encode_bytes
length-encode_bytes low [] = refl
length-encode_bytes low (b ∷ bytes) = omega (arith, length-encode_bytes low bytes)

-- either of `hex_encode` and `hex_low_encode`
abbrev pub encode : Bool → List ℕ → Bool → List ℕ
encode low bytes skip_leading_zeroes =
    if low then hex_low_encode bytes skip_leading_zeroes else hex_encode bytes skip_leading_zeroes

hex_encode_ex_full :
    (bytes : List ℕ) (digits : List ℕ)
    → hex_encode_ex bytes false digits ≡ encode_bytes digits bytes
unfolding hex_encode_ex encode_bytes
hex_encode_ex_full [] digits = refl
hex_encode_ex_full (b ∷ bytes) digits = refl

encode_full :
    (low : Bool) (bytes : List ℕ) → encode low bytes false ≡ encode_bytes (digits_of low) bytes
unfolding hex_encode hex_low_encode
encode_full true bytes = hex_encode_ex_full bytes hex_low_digits
encode_full false bytes = hex_encode_ex_full bytes hex_up_digits

hex_decode_even :
    (src : List ℕ) (n : ℕ) (allow : Bool)
    → length src ≡ n * 2
    → hex_decode src allow ≡ some (decode_pairs src, n)
unfolding hex_decode decode_digits
hex_decode_even src n allow h =
    let even : (length src % 2 == 1) ≡ false = ground (arith, h) in
    let half : (length src + 1) / 2 ≡ n = omega (arith, h) in rw (even, half)

hex_decode-encode_bytes :
    (low allow : Bool) (bytes : List ℕ)
    → All IsByte bytes
    → hex_decode (encode_bytes (digits_of low) bytes) allow ≡ some (bytes, length bytes)
hex_decode-encode_bytes low allow bytes h = rw (
  hex_decode_even (encode_bytes (digits_of low) bytes) (length bytes) allow
      (length-encode_bytes low bytes),
  decode_pairs-encode_bytes low bytes h,
)

-- Decoding what bytes were encoded to, in either case of the digits and without leaving out zeroes,
-- gives the bytes and their number, whether odd strings are allowed or not.
pub hex_decode-hex_encode :
    (low allow : Bool) (bytes : List ℕ)
    → All IsByte bytes
    → hex_decode (encode low bytes false) allow ≡ some (bytes, length bytes)
hex_decode-hex_encode low allow bytes h =
    rw (encode_full low bytes, hex_decode-encode_bytes low allow bytes h)

-- the bytes without the zeroes in front, but for one if there are no others
abbrev pub without_zeroes : List ℕ → List ℕ
without_zeroes [] = 0 ∷ []
without_zeroes (b ∷ bytes) = if b == 0 then without_zeroes bytes else b ∷ bytes

hex_decode_odd :
    (c : ℕ) (src : List ℕ) (n : ℕ)
    → length src ≡ n * 2
    → hex_decode (c ∷ src) true ≡ some (hex_to_int c ∷ decode_pairs src, suc n)
unfolding hex_decode decode_digits
hex_decode_odd c src n h =
    let odd : (suc (length src) % 2 == 1) ≡ true = ground (arith, h) in
    let half : (suc (length src) + 1) / 2 ≡ suc n = omega (arith, h) in rw (odd, half)

hex_decode-zero : hex_decode (b'0' ∷ []) true ≡ some (0 ∷ [], 1)
unfolding hex_decode
hex_decode-zero = refl

hex_decode-encode_short :
    (low : Bool) (bytes : List ℕ)
    → All IsByte bytes
    → hex_decode (encode_short (digits_of low) bytes) true
      ≡ some (without_zeroes bytes, length (without_zeroes bytes))
unfolding encode_short
hex_decode-encode_short low [] h = hex_decode-zero
hex_decode-encode_short low (b ∷ bytes) (h, hs) = elim (Bool-cases (b == 0)) [
  | inl zero_byte ↦ rw (zero_byte, hex_decode-encode_short low bytes hs)
  | inr e ↦ elim (Bool-cases (b / 16 == 0)) [
    | inl small ↦
        let lt : b < 16 = ground (arith, small) in
        rw (
          e,
          small,
          hex_decode_odd (get_or (digits_of low) b 0) (encode_bytes (digits_of low) bytes)
              (length bytes) (length-encode_bytes low bytes),
          hex_to_int-get_or low b lt,
          decode_pairs-encode_bytes low bytes hs,
        )
    | inr large ↦ rw (e, large, hex_decode-encode_bytes low true (b ∷ bytes) (h, hs))
  ]
]

encode_skipping :
    (low : Bool) (b : ℕ) (bytes : List ℕ)
    → encode low (b ∷ bytes) true ≡ encode_short (digits_of low) (b ∷ bytes)
unfolding hex_encode hex_low_encode hex_encode_ex
encode_skipping true b bytes = refl
encode_skipping false b bytes = refl

-- Bytes that are encoded without the zeroes in front decode, where odd strings are allowed, to the
-- bytes without the zero bytes in front, or to one zero byte if all are zero.
hex_decode-hex_encode_skipping :
    (low : Bool) (b : ℕ) (bytes : List ℕ)
    → All IsByte (b ∷ bytes)
    → hex_decode (encode low (b ∷ bytes) true) true
      ≡ some (without_zeroes (b ∷ bytes), length (without_zeroes (b ∷ bytes)))
hex_decode-hex_encode_skipping low b bytes h =
    rw (encode_skipping low b bytes, hex_decode-encode_short low (b ∷ bytes) h)
