-- ===== src/SubString.antt =====
-- gears/SubString.hpp and gears/SubString.tpp, BasicSubString over `char` with its default checker:
-- a pointer into an array of characters, and a length. The array stands in the substring as the
-- list of its characters, and the pointer is a position in it. `none` stands for an exception, or,
-- in `find`, for undefined behaviour. Characters are compared as `unsigned char`.
pub mod View
pub mod Comparing
pub mod Searching
mod Examples
use litemq.Prelude.{
  ℕ, zero, suc, ◌+◌, ◌-◌, ◌^◌, min, Bool, true, false, not, ◌||◌, if◌then◌else◌, ltb, leb, ◌==◌,
  Option, none, some, List, [], ◌∷◌, ◌++◌, length, get_elem?, get_or, take, drop, sub64,
}
use litemq.Prelude.Int.{ℤ, pos, negsuc}

pub record BasicSubString : Type 0 where
  pub memory : List ℕ
  pub is_null : Bool
  pub begin : ℕ
  pub len : ℕ

abbrev pub npos : ℕ
npos = 2 ^ 64 - 1

-- the characters from `begin_ + pos` on
abbrev pub chars_from : BasicSubString → ℕ → List ℕ
chars_from s p = drop (s.begin + p) s.memory

-- `CharTraits::compare` of the first `n` characters at two pointers
unfoldable pub compare_chars : ℕ → List ℕ → List ℕ → ℤ
compare_chars zero xs ys = pos 0
compare_chars (suc n) [] ys = pos 0
compare_chars (suc n) (x ∷ xs) [] = pos 0
compare_chars (suc n) (x ∷ xs) (y ∷ ys) =
    let more = compare_chars n xs ys in if x == y then more else if ltb x y then negsuc 0 else pos 1

abbrev pub is_zero : ℤ → Bool
is_zero (pos zero) = true
is_zero _ = false

-- `CheckerRough::check_position`, as whether it lets a position pass
unfoldable pub check_position : ℕ → ℕ → Bool
check_position length position = leb position length

-- `begin_plus_position_`: the position in the array
unfoldable pub begin_plus_position : ℕ → BasicSubString → Option ℕ
unfolding check_position
begin_plus_position position s =
    if check_position s.len position then some (s.begin + position) else none

unfoldable pub get_available_length : ℕ → ℕ → BasicSubString → ℕ
get_available_length position count s = min count (sub64 s.len position)

-- The constructor from a string, and the one without arguments; `clear`
unfoldable pub of_string : List ℕ → BasicSubString
of_string str = record { memory = str; is_null = false; begin = 0; len = length str }

unfoldable pub empty_string : BasicSubString
empty_string = record { memory = []; is_null = true; begin = 0; len = 0 }

unfoldable pub clear : BasicSubString → BasicSubString
clear s = record s { is_null = true; begin = 0; len = 0 }

-- `substr`, and `assign` of a part of a substring
unfoldable pub at_position : BasicSubString → ℕ → Option ℕ → Option BasicSubString
at_position s len none = none
at_position s len (some begin) = some (record s { begin = begin; len = len })

unfoldable pub substr : ℕ → ℕ → BasicSubString → Option BasicSubString
unfolding begin_plus_position get_available_length at_position
substr position count s =
    at_position s (get_available_length position count s) (begin_plus_position position s)

-- `at` and `operator []`
unfoldable pub char_at : BasicSubString → Option ℕ → Option ℕ
char_at s none = none
char_at s (some i) = get_elem? s.memory i

unfoldable pub at : ℕ → BasicSubString → Option ℕ
unfolding begin_plus_position char_at
at position s = char_at s (begin_plus_position position s)

unfoldable pub erase_front : ℕ → BasicSubString → BasicSubString
erase_front count s =
    let n = min count s.len in
    if s.is_null then s else record s { begin = s.begin + n; len = s.len - n }

unfoldable pub erase_back : ℕ → BasicSubString → BasicSubString
erase_back count s = if s.is_null then s else record s { len = s.len - min count s.len }

-- `compare` with a substring
unfoldable pub compare : BasicSubString → BasicSubString → ℤ
unfolding compare_chars
compare s t =
    let result = compare_chars (min s.len t.len) (chars_from s 0) (chars_from t 0) in
    if is_zero result
    then if s.len == t.len then pos 0 else if ltb s.len t.len then negsuc 0 else pos 1
    else result

-- `compare` and `equal` with a C string, given by its characters without the `\0`: the loop over
-- `n` characters from the pointer on
unfoldable pub compare_loop : ℕ → List ℕ → List ℕ → ℤ
compare_loop zero xs [] = pos 0
compare_loop zero xs (c ∷ str) = negsuc 0
compare_loop (suc n) xs [] = negsuc 0
compare_loop (suc n) [] (c ∷ str) = pos 0
compare_loop (suc n) (x ∷ xs) (c ∷ str) =
    let more = compare_loop n xs str in if x == c then more else if ltb x c then negsuc 0 else pos 1

unfoldable pub compare_c_string : BasicSubString → List ℕ → ℤ
unfolding compare_loop
compare_c_string s str = compare_loop s.len (chars_from s 0) str

unfoldable pub equal_loop : ℕ → List ℕ → List ℕ → Bool
equal_loop zero xs [] = true
equal_loop zero xs (c ∷ str) = false
equal_loop (suc n) xs [] = false
equal_loop (suc n) [] (c ∷ str) = false
equal_loop (suc n) (x ∷ xs) (c ∷ str) =
    let more = equal_loop n xs str in if x == c then more else false

unfoldable pub equal_c_string : BasicSubString → List ℕ → Bool
unfolding equal_loop
equal_c_string s str = equal_loop s.len (chars_from s 0) str

unfoldable pub equal : BasicSubString → BasicSubString → Bool
unfolding compare_chars
equal s t =
    if t.len == s.len
    then is_zero (compare_chars s.len (chars_from s 0) (chars_from t 0))
    else false

-- `operator <` between a substring and a C string, from either side
unfoldable pub lt_c_string : BasicSubString → List ℕ → Bool
unfolding compare_c_string
lt_c_string s str = elim (compare_c_string s str) [ negsuc _ ↦ true | pos _ ↦ false ]

unfoldable pub c_string_lt : List ℕ → BasicSubString → Bool
unfolding lt_c_string
c_string_lt str s = not (lt_c_string s str)

-- `Traits::find` in `n` characters, as an index
unfoldable pub find_loop : ℕ → List ℕ → ℕ → Option ℕ
find_loop zero xs ch = none
find_loop (suc n) [] ch = none
find_loop (suc n) (x ∷ xs) ch =
    let more = find_loop n xs ch in
    if x == ch then some 0 else elim more [ none ↦ none | some i ↦ some (suc i) ]

abbrev pub or_npos : ℕ → Option ℕ → ℕ
or_npos offset none = npos
or_npos offset (some i) = offset + i

unfoldable pub find_char : ℕ → ℕ → BasicSubString → ℕ
unfolding find_loop
find_char ch position s =
    if ltb position s.len
    then or_npos position (find_loop (s.len - position) (chars_from s position) ch)
    else npos

-- `std::search` in `n` characters for `m` others, as an index
unfoldable pub search : ℕ → List ℕ → ℕ → List ℕ → Option ℕ
unfolding compare_chars
search zero xs m ys = none
search (suc n) xs m ys =
    let more = search n (drop 1 xs) m ys in
    if leb m (suc n)
    then if is_zero (compare_chars m xs ys)
      then some 0
      else elim more [ none ↦ none | some i ↦ some (suc i) ]
    else none

-- `find` of a substring. Behind the end the pointers given to `std::search` are in the wrong order.
unfoldable pub find : BasicSubString → ℕ → BasicSubString → Option ℕ
unfolding get_available_length search
find str position s =
    let length = get_available_length position s.len s in
    if str.len == 0
    then some (if leb s.len position then npos else 0)
    else if ltb length str.len
    then some npos
    else if ltb s.len position
    then none
    else some (
        or_npos position
          (search (s.len - position) (chars_from s position) str.len (chars_from str 0)))

-- the loop of `rfind` of a character, from a position down
unfoldable pub rfind_loop : ℕ → ℕ → BasicSubString → ℕ
rfind_loop zero ch s = if get_or s.memory s.begin 0 == ch then 0 else npos
rfind_loop (suc i) ch s =
    let more = rfind_loop i ch s in
    if get_or s.memory (s.begin + suc i) 0 == ch then suc i else more

unfoldable pub rfind_char : ℕ → ℕ → BasicSubString → ℕ
unfolding rfind_loop
rfind_char ch position s = if s.len == 0 then npos else rfind_loop (min (s.len - 1) position) ch s

-- the loop of `rfind` of a substring, from a position down
unfoldable pub rfind_string_loop : ℕ → BasicSubString → BasicSubString → ℕ
unfolding compare_chars
rfind_string_loop zero str s =
    if is_zero (compare_chars str.len (chars_from s 0) (chars_from str 0)) then 0 else npos
rfind_string_loop (suc i) str s =
    let more = rfind_string_loop i str s in
    if is_zero (compare_chars str.len (chars_from s (suc i)) (chars_from str 0))
    then suc i
    else more

unfoldable pub rfind : BasicSubString → ℕ → BasicSubString → ℕ
unfolding rfind_string_loop
rfind str position s =
    let start = min position s.len in
    if ltb s.len str.len
    then npos
    else if str.len == 0
    then start
    else rfind_string_loop (min start (s.len - str.len)) str s
