-- ===== src/Strings/Examples.antt =====
-- Tests of gears/StringManip, and the theorems at concrete strings.
use litemq.Prelude.{◌≡◌, refl, ℕ, true, false, some, none, List, [], ◌∷◌, ◌++◌, take, arith}
use litemq.Prelude.Int.{pos, negsuc}
use litemq.Strings.Hex.{hex_encode, hex_decode}
use litemq.Strings.Hex.Decoding.{encode, hex_decode-hex_encode}
use litemq.Strings.Numbers.{IntegerType, str_to_int, int_to_str}
use litemq.Strings.Concat.{
  Piece, c_string, sub_string, number, concat, texts, concat-texts, concat-number,
}
use litemq.Strings.Numbers.Parsing.{accepted, integer, str_to_int-integer}
use litemq.Strings.Numbers.Printing.{str_to_int-int_to_str}

abbrev some_bytes : List ℕ
some_bytes = 0 ∷ 10 ∷ 255 ∷ []

encode_test : hex_encode some_bytes false ≡ b'0' ∷ b'0' ∷ b'0' ∷ b'A' ∷ b'F' ∷ b'F' ∷ []
unfolding hex_encode
encode_test = refl

encode_short_test : hex_encode some_bytes true ≡ b'A' ∷ b'F' ∷ b'F' ∷ []
unfolding hex_encode
encode_short_test = refl

odd_test : hex_decode (b'A' ∷ b'F' ∷ b'F' ∷ []) false ≡ none
unfolding hex_decode
odd_test = refl

hex_decode-hex_encode_example :
    hex_decode (encode true some_bytes false) false ≡ some (some_bytes, 3)
hex_decode-hex_encode_example =
    hex_decode-hex_encode true false some_bytes (omega arith, (omega arith, (omega arith, tt)))

-- `int` and `unsigned char`
abbrev int : IntegerType
int = record { is_signed = true; digits = 31; digits10 = 9 }

abbrev unsigned_char : IntegerType
unsigned_char = record { is_signed = false; digits = 8; digits10 = 2 }

abbrev minus_120 : List ℕ
minus_120 = b'-' ∷ b'1' ∷ b'2' ∷ b'0' ∷ []

parse_test : str_to_int int minus_120 (pos 7) ≡ (true, negsuc 119)
unfolding str_to_int
parse_test = refl

overflow_test : str_to_int unsigned_char (b'2' ∷ b'5' ∷ b'6' ∷ []) (pos 7) ≡ (false, pos 25)
unfolding str_to_int
overflow_test = refl

print_test : int_to_str int (negsuc 119) 12 ≡ minus_120
unfolding int_to_str
print_test = refl

str_to_int-integer_example : accepted (str_to_int int minus_120 (pos 7)) ≡ integer int minus_120
str_to_int-integer_example =
    str_to_int-integer int minus_120 (pos 7)
      (omega arith, (omega arith, (omega arith, (omega arith, tt))))

str_to_int-int_to_str_example :
    accepted (str_to_int int (int_to_str int (negsuc 119) 12) (pos 7)) ≡ some (negsuc 119)
str_to_int-int_to_str_example =
    str_to_int-int_to_str int (negsuc 119) (pos 7) 12 (refl, omega arith) (omega arith)

-- "ab", then "cd"
abbrev two_strings : List Piece
two_strings = c_string (b'a' ∷ b'b' ∷ []) ∷ sub_string (b'c' ∷ b'd' ∷ []) ∷ []

concat_test : concat 4 two_strings ≡ b'a' ∷ b'b' ∷ b'c' ∷ 0 ∷ []
unfolding concat
concat_test = refl

concat-texts_example : concat 4 two_strings ≡ take 3 (texts two_strings) ++ (0 ∷ [])
concat-texts_example = concat-texts 4 two_strings (omega arith) (refl, (refl, tt))

int_printed : int_to_str int (negsuc 119) 20 ≡ (b'-' ∷ b'1' ∷ b'2' ∷ []) ++ (b'0' ∷ [])
unfolding int_to_str
int_printed = refl

concat-number_example :
    concat 20 (number int (negsuc 119) ∷ two_strings)
    ≡ (b'-' ∷ b'1' ∷ b'2' ∷ []) ++ concat 17 two_strings
concat-number_example =
    concat-number 20 int (negsuc 119) (b'-' ∷ b'1' ∷ b'2' ∷ []) b'0' two_strings int_printed
      (omega arith)
