-- ===== src/Ascii.antt =====
-- gears/AsciiStringManip.hpp and gears/AsciiStringManip.cpp: letters of either case, sets of
-- characters and searches for them, `flatten`, and strings without regard to case. A character is a
-- byte; a pointer into a string is the list of the characters from there on, or an index.
pub mod Flattening
pub mod Ranges
pub mod Caseless
mod Examples
use litemq.Prelude.{
  ℕ, zero, suc, ◌+◌, ◌-◌, ◌*◌, ◌%◌, Bool, true, false, not, ◌&&◌, ◌||◌, if◌then◌else◌, leb, ltb,
  ◌==◌, min, Option, none, some, List, [], ◌∷◌, ◌++◌, map, length, take,
}
use litemq.SubString.{is_zero}
use litemq.Prelude.Int.{ℤ, pos, negsuc, ◌-ℤ◌}

-- `ASCII_TOLOWER_TABLE` and `ASCII_TOUPPER_TABLE`
unfoldable pub to_lower : ℕ → ℕ
to_lower c = if leb b'A' c && leb c b'Z' then c + 32 else c

unfoldable pub to_upper : ℕ → ℕ
to_upper c = if leb b'a' c && leb c b'z' then c - 32 else c

-- `table_` of `CharTable`
abbrev pub CharTable : Type 0
CharTable = ℕ → Bool

abbrev pub marked : ℕ → CharTable → CharTable
marked c table x = if x == c then true else table x

-- The loop `for (char ch = last; ; ch++)`, where `ch` wraps around, with a bound on its rounds.
unfoldable pub mark_range : ℕ → ℕ → ℕ → CharTable → Option CharTable
mark_range zero ch till table = none
mark_range (suc rounds) ch till table =
    let more = mark_range rounds ((ch + 1) % 256) till (marked ch table) in
    if ch == till then some (marked ch table) else more

-- The loop of the constructor of `CharTable` from a string.
abbrev pub then_table : (CharTable → Option CharTable) → Option CharTable → Option CharTable
then_table more none = none
then_table more (some table) = more table

unfoldable pub mark_string : ℕ → List ℕ → CharTable → Option CharTable
unfolding mark_range
mark_string last [] table = some table
mark_string last (c ∷ []) table = some (marked c table)
mark_string last (c ∷ d ∷ str) table =
    let ranged = then_table (mark_string d str) (mark_range 256 last d table) in
    let single = mark_string c (d ∷ str) (marked c table) in
    if c == b'-' && not (last == 0) then ranged else single

unfoldable pub char_table : List ℕ → Bool → Option CharTable
unfolding mark_string
char_table str check_zero = mark_string 0 str (λ c. if c == 0 then check_zero else false)

-- the constructors from two and from three tables
unfoldable pub either_table : CharTable → CharTable → CharTable
either_table first second c = first c || second c

unfoldable pub any_table : CharTable → CharTable → CharTable → CharTable
any_table first second third c = first c || second c || third c

-- `Category::empty`: from `CHAR_MIN` to `CHAR_MAX` are 256 characters.
unfoldable pub none_below : ℕ → CharTable → Bool
none_below zero is_owned = true
none_below (suc n) is_owned = let rest = none_below n is_owned in if is_owned n then false else rest

unfoldable pub empty : CharTable → Bool
unfolding none_below
empty is_owned = none_below 256 is_owned

-- `find_owned` and `find_nonowned` in a string up to its end: the rest of the string from there on
unfoldable pub find_owned : CharTable → List ℕ → List ℕ
find_owned is_owned [] = []
find_owned is_owned (c ∷ str) =
    let more = find_owned is_owned str in if is_owned c then c ∷ str else more

unfoldable pub find_nonowned : CharTable → List ℕ → List ℕ
find_nonowned is_owned [] = []
find_nonowned is_owned (c ∷ str) =
    let more = find_nonowned is_owned str in if is_owned c then more else c ∷ str

-- `rfind_owned` and `rfind_nonowned`: the index in the first `n` characters, or `n`
unfoldable pub rfind_loop : ℕ → ℕ → CharTable → List ℕ → ℕ
rfind_loop not_found zero test str = not_found
rfind_loop not_found (suc n) test str =
    let more = rfind_loop not_found n test str in if test (char_or n str) then n else more
  where
    char_or : ℕ → List ℕ → ℕ
    char_or i [] = 0
    char_or zero (c ∷ str) = c
    char_or (suc i) (c ∷ str) = char_or i str

unfoldable pub rfind_owned : CharTable → ℕ → List ℕ → ℕ
unfolding rfind_loop
rfind_owned is_owned position str = rfind_loop position position is_owned str

unfoldable pub rfind_nonowned : CharTable → ℕ → List ℕ → ℕ
unfolding rfind_loop
rfind_nonowned is_owned position str = rfind_loop position position (λ c. not (is_owned c)) str

-- the characters in front of the rest of a string
abbrev pub before : List ℕ → List ℕ → List ℕ
before str rest = take (length str - length rest) str

-- `flatten`, with a bound on the rounds of its loop: what was written to `dest`.
unfoldable pub flatten_loop : ℕ → List ℕ → CharTable → List ℕ → Option (List ℕ)
unfolding find_owned find_nonowned
flatten_loop rounds replacement to_replace [] = some []
flatten_loop zero replacement to_replace (c ∷ str) = none
flatten_loop (suc rounds) replacement to_replace (c ∷ str) =
    let current = find_owned to_replace (c ∷ str) in
    let more = flatten_loop rounds replacement to_replace (find_nonowned to_replace current) in
    let copied = before (c ∷ str) current in
    elim current [
      | [] ↦ some copied
      | _ ∷ _ ↦ elim more [ none ↦ none | some out ↦ some (copied ++ (replacement ++ out)) ]
    ]

-- the size that `dest` is given first
unfoldable pub flatten_room : List ℕ → List ℕ → ℕ
flatten_room replacement str =
    length str * (if length replacement == 0 then 1 else length replacement)

unfoldable pub flatten : List ℕ → CharTable → List ℕ → Option (List ℕ)
unfolding flatten_loop
flatten replacement to_replace str = flatten_loop (length str) replacement to_replace str

-- The strings of `compare_caseless`, `equal_caseless` and `Caseless` are given by their characters,
-- and `shared` says that their pointers are the same. A character as a number is signed.
abbrev pub signed : ℕ → ℤ
signed c = if ltb c 128 then pos c else pos c -ℤ pos 256

abbrev pub by_length : ℕ → ℕ → ℤ
by_length m n = if m == n then pos 0 else if ltb m n then negsuc 0 else pos 1

-- The loop of `compare_caseless`, for as many rounds as the shorter string has characters.
unfoldable pub compare_loop : List ℕ → List ℕ → ℤ
unfolding to_lower
compare_loop [] str2 = pos 0
compare_loop (c ∷ str1) [] = pos 0
compare_loop (c ∷ str1) (d ∷ str2) =
    let more = compare_loop str1 str2 in
    let result = signed (to_lower c) -ℤ signed (to_lower d) in
    if is_zero result then more else result

unfoldable pub compare_caseless : Bool → List ℕ → List ℕ → ℤ
unfolding compare_loop
compare_caseless shared str1 str2 =
    let len = min (length str1) (length str2) in
    let result = compare_loop str1 str2 in
    if shared || len == 0
    then by_length (length str1) (length str2)
    else if is_zero result && not (length str1 == length str2)
    then by_length (length str1) (length str2)
    else result

-- `equal_caseless` with the length of the second string, and without it, where the list of `str2`
-- ends at its null character
unfoldable pub equal_loop : List ℕ → List ℕ → Bool
unfolding to_lower
equal_loop [] str2 = true
equal_loop (c ∷ str1) [] = true
equal_loop (c ∷ str1) (d ∷ str2) =
    let more = equal_loop str1 str2 in if to_lower c == to_lower d then more else false

unfoldable pub equal_caseless : Bool → List ℕ → List ℕ → Bool
unfolding equal_loop
equal_caseless shared str1 str2 =
    if not (length str1 == length str2)
    then false
    else if shared || length str1 == 0
    then true
    else equal_loop str1 str2

unfoldable pub equal_caseless_c_string : List ℕ → List ℕ → Bool
unfolding to_lower
equal_caseless_c_string [] str2 = length str2 == 0
equal_caseless_c_string (c ∷ str1) [] = false
equal_caseless_c_string (c ∷ str1) (d ∷ str2) =
    let more = equal_caseless_c_string str1 str2 in
    if not (to_lower d == to_lower c) then false else more
