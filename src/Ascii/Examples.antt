-- ===== src/Ascii/Examples.antt =====
-- Tests of gears/AsciiStringManip.hpp and .cpp, and the theorems at concrete strings.
use litemq.Prelude.{
  ℕ, ◌≤◌, ◌<◌, ◌≡◌, ◌||◌, ◌&&◌, ◌==◌, refl, true, false, some, List, [], ◌∷◌, arith,
}
use litemq.Prelude.Int.{negsuc, ◌-ℤ◌}
use litemq.SubString.{is_zero}
use litemq.Ascii.{
  CharTable, to_lower, to_upper, char_table, empty, either_table, any_table, find_owned,
  rfind_owned, rfind_nonowned, flatten_room, flatten, compare_caseless, equal_caseless,
  equal_caseless_c_string,
}
use litemq.Ascii.Flattening.{flatten-flatten_room}
use litemq.Ascii.Ranges.{Item, has, char_table-written}
use litemq.Ascii.Caseless.{compare, equal, start}
use litemq.Ascii.Caseless.Agreement.{compare-compare_caseless_lem}

abbrev space : CharTable
space c = c == b' '

abbrev words : List ℕ
words = b' ' ∷ b'a' ∷ b' ' ∷ b' ' ∷ b'b' ∷ []

abbrev dash : List ℕ
dash = b'-' ∷ b'-' ∷ []

flatten-flatten_room_example :
    (flatten dash space words ≡ some (b'-' ∷ b'-' ∷ b'a' ∷ b'-' ∷ b'-' ∷ b'b' ∷ []))
    × (6 ≤ flatten_room dash words)
flatten-flatten_room_example = flatten-flatten_room dash space words

-- "_a-f"
abbrev letters : List Item
letters = Item.one b'_' ∷ Item.range b'a' b'f' ∷ []

char_table-written_example :
    (made : CharTable) × (char_table (b'_' ∷ b'a' ∷ b'-' ∷ b'f' ∷ []) false ≡ some made)
    × ((x : ℕ) → x < 256 → made x ≡ (has letters x || (x == 0 && false)))
char_table-written_example = char_table-written letters false ground arith

upper_test : to_upper b'z' ≡ b'Z'
unfolding to_upper
upper_test = refl

owned_test : find_owned space words ≡ words
unfolding find_owned
owned_test = refl

rfind_test : rfind_owned space 5 words ≡ 3
unfolding rfind_owned
rfind_test = refl

rfind_nonowned_test : rfind_nonowned space 1 words ≡ 1
unfolding rfind_nonowned
rfind_nonowned_test = refl

empty_test : empty (λ c. false) ≡ true
unfolding empty
empty_test = refl

not_empty_test : empty (either_table space (any_table space space space)) ≡ false
unfolding empty either_table any_table
not_empty_test = refl

abbrev host : List ℕ
host = b'H' ∷ b'o' ∷ []

abbrev hosts : List ℕ
hosts = b'h' ∷ b'O' ∷ b'S' ∷ []

shorter_test : compare_caseless false host hosts ≡ negsuc 0
unfolding compare_caseless ◌-ℤ◌
shorter_test = refl

compare-compare_caseless_lem_example :
    (compare false host hosts ≡ compare_caseless false host hosts)
    × (is_zero (compare_caseless false host hosts) ≡ false)
    × (equal false host hosts ≡ false)
    × (equal_caseless false host hosts ≡ false)
    × (equal_caseless_c_string host hosts ≡ false)
    × (start false host hosts ≡ true)
unfolding to_lower
compare-compare_caseless_lem_example =
    compare-compare_caseless_lem false host hosts (λ e. ground arith) ground arith ground arith
