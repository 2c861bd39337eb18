-- ===== src/SubString/Examples.antt =====
-- Tests of gears/SubString.tpp, and the theorems at concrete substrings.
use litemq.Prelude.{
  ℕ, ◌≤◌, ◌<◌, ◌≡◌, ◌⊎◌, inl, refl, true, false, if◌then◌else◌, none, some, [], ◌∷◌, arith,
}
use litemq.Prelude.Int.{negsuc}
use litemq.SubString.{
  BasicSubString, npos, of_string, at, substr, compare, equal, is_zero, compare_c_string,
  c_string_lt, find_char, rfind_char, find, rfind,
}
use litemq.SubString.View.{
  IsValid, view, AllValid, view_of, front, back, part, run, run_list, run-view,
}
use litemq.SubString.Comparing.{lex, extends, compare-equal_lem, compare_c_string-view}
use litemq.SubString.Searching.{occurs, find_lem}

-- "abab", and its part "ab" from the second character on, before the last one
abbrev abab : BasicSubString
abab = record { memory = b'a' ∷ b'b' ∷ b'a' ∷ b'b' ∷ []; is_null = false; begin = 0; len = 4 }

abbrev ba : BasicSubString
ba = record { memory = b'a' ∷ b'b' ∷ b'a' ∷ b'b' ∷ []; is_null = false; begin = 1; len = 2 }

abab-IsValid : IsValid abab
abab-IsValid = record { inside = omega arith; fits = omega arith; null = inl refl }

ba-IsValid : IsValid ba
ba-IsValid = record { inside = omega arith; fits = omega arith; null = inl refl }

part_test : substr 1 2 abab ≡ some ba
unfolding substr
part_test = refl

behind_test : substr 5 1 abab ≡ none
unfolding substr
behind_test = refl

end_test : at 2 ba ≡ some b'b'
unfolding at
end_test = refl

find_char_test : find_char b'b' 2 abab ≡ 3
unfolding find_char
find_char_test = refl

rfind_char_test : rfind_char b'a' 1 abab ≡ 0
unfolding rfind_char
rfind_char_test = refl

rfind_test : rfind ba 9 abab ≡ 1
unfolding rfind
rfind_test = refl

empty_test : find (of_string []) 2 abab ≡ some 0
unfolding find of_string
empty_test = refl

longer_test : compare_c_string abab (b'a' ∷ b'b' ∷ []) ≡ negsuc 0
unfolding compare_c_string
longer_test = refl

equal_test : c_string_lt (b'b' ∷ b'a' ∷ []) ba ≡ true
unfolding c_string_lt
equal_test = refl

run-view_example :
    AllValid (run (front 1 ∷ back 1 ∷ part 1 5 ∷ []) (some abab))
    × (view_of (run (front 1 ∷ back 1 ∷ part 1 5 ∷ []) (some abab))
        ≡ run_list (front 1 ∷ back 1 ∷ part 1 5 ∷ []) (view_of (some abab)))
run-view_example = run-view (front 1 ∷ back 1 ∷ part 1 5 ∷ []) (some abab) abab-IsValid

compare-equal_lem_example :
    (compare abab ba ≡ lex (view abab) (view ba))
    × (equal abab ba ≡ is_zero (lex (view abab) (view ba)))
compare-equal_lem_example = compare-equal_lem abab ba abab-IsValid ba-IsValid

compare_c_string-view_example : compare_c_string abab (b'a' ∷ b'b' ∷ []) ≡ (
    if extends (view abab) (b'a' ∷ b'b' ∷ []) then negsuc 0 else lex (view abab) (b'a' ∷ b'b' ∷ []))
compare_c_string-view_example = compare_c_string-view abab (b'a' ∷ b'b' ∷ []) abab-IsValid

find_lem_example :
    (r : ℕ) × (find ba 0 abab ≡ some r)
    × (((r ≡ npos) × (occurs (view abab) (view ba) 0 ≡ false))
        ⊎ ((0 ≤ r)
            × (r < 4)
            × (occurs (view abab) (view ba) r ≡ true)
            × ((r ≤ 0) ⊎ (occurs (view abab) (view ba) 0 ≡ false))))
find_lem_example =
    find_lem ba 0 abab 0 abab-IsValid ba-IsValid (omega arith) (omega arith) (omega arith)
