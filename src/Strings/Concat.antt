-- ===== src/Strings/Concat.antt =====
-- gears/StringManip.hpp: `append` and `concat`, which put strings and integers into a buffer of
-- characters. The buffer is the list of the characters that were written from its front on.
use litemq.Prelude.{
  ℕ, zero, suc, ◌-◌, ◌≤◌, ◌<◌, ◌≡◌, inl, inr, refl, sym, ap, ◌∙◌, Bool, true, false, if◌then◌else◌,
  ltb, leb, List, [], ◌∷◌, ◌++◌, append_assoc, length, length-append, take, take_all, All, arith,
  Bool-cases,
}
use litemq.Prelude.Int.{ℤ}
use litemq.Strings.Numbers.{IntegerType, int_to_str}

-- what `append` is called for: a C string, a `SubString` or `std::string`, or an integer
pub data Piece : Type 0 where
  c_string : List ℕ → Piece
  sub_string : List ℕ → Piece
  number : IntegerType → ℤ → Piece

-- `strlcpy` of a string without `\0` in it: what it writes, and what it returns
unfoldable pub strlcpy : List ℕ → ℕ → List ℕ × ℕ
strlcpy src size = (if ltb 0 size then take (size - 1) src ++ (0 ∷ []) else [], length src)

-- the end of `append` of an integer, by what `int_to_str` gives
unfoldable pub append_number : List ℕ → ℕ → List ℕ × ℕ
append_number [] size = (0 ∷ [], size)
append_number (c ∷ cs) size = ((c ∷ cs) ++ (0 ∷ []), length (c ∷ cs) - 1)

unfoldable pub append : ℕ → Piece → List ℕ × ℕ
unfolding strlcpy append_number
append size (c_string str) =
    let (written, n) = strlcpy str size in (written, if ltb n size then n else size)
append size (sub_string str) =
    if leb size (length str) then (take (size - 1) str ++ (0 ∷ []), size) else (str, length str)
append size (number t value) = append_number (int_to_str t value size) size

unfoldable pub concat : ℕ → List Piece → List ℕ
unfolding append
concat size [] = 0 ∷ []
concat size (f ∷ args) =
    let (written, n) = append size f in
    let more = concat (size - n) args in if ltb n size then take n written ++ more else written

-- the characters of strings, one behind the other
abbrev pub text : Piece → List ℕ
text (c_string str) = str
text (sub_string str) = str
text (number t value) = []

abbrev pub texts : List Piece → List ℕ
texts [] = []
texts (f ∷ args) = text f ++ texts args

abbrev is_string : Piece → Bool
is_string (number t value) = false
is_string _ = true

abbrev pub IsString : Piece → Type 0
IsString f = is_string f ≡ true

take_more :
    (n : ℕ) (xs ys : List ℕ) → length xs ≤ n → take n (xs ++ ys) ≡ xs ++ take (n - length xs) ys
take_more n [] ys h = ap (λ k. take k ys) (omega arith)
take_more zero (x ∷ xs) ys h = absurd (omega (arith, h))
take_more (suc n) (x ∷ xs) ys h =
    let same : suc n - suc (length xs) ≡ n - length xs = omega arith in
    rw same (ap (◌∷◌ x) (take_more n xs ys (omega (arith, h))))

take_less : (n : ℕ) (xs ys : List ℕ) → n ≤ length xs → take n (xs ++ ys) ≡ take n xs
take_less zero xs ys h = refl
take_less (suc n) [] ys h = absurd (omega (arith, h))
take_less (suc n) (x ∷ xs) ys h = ap (◌∷◌ x) (take_less n xs ys (omega (arith, h)))

take_front : (xs ys : List ℕ) → take (length xs) (xs ++ ys) ≡ xs
take_front [] ys = refl
take_front (x ∷ xs) ys = ap (◌∷◌ x) (take_front xs ys)

-- a string that fits, with the rest behind it
joined_fit :
    (size : ℕ) (str more : List ℕ)
    → length str < size
    → str ++ (take (size - length str - 1) more ++ (0 ∷ []))
      ≡ take (size - 1) (str ++ more) ++ (0 ∷ [])
joined_fit size str more h =
    let same : size - length str - 1 ≡ size - 1 - length str = omega (arith, h) in
    rw (same, take_more (size - 1) str more (omega (arith, h)))
      (sym (append_assoc str (take (size - 1 - length str) more) (0 ∷ [])))

concat-c_string :
    (size : ℕ) (str : List ℕ) (args : List Piece)
    → 0 < size
    → concat size (c_string str ∷ args) ≡ (
        if ltb (length str) size
        then str ++ concat (size - length str) args
        else take (size - 1) str ++ (0 ∷ []))
unfolding concat
concat-c_string size str args h =
    let positive : ltb 0 size ≡ true = ground (arith, h) in
    elim (Bool-cases (ltb (length str) size)) [
      | inl short ↦
          let le : length str ≤ size - 1 = ground (arith, short) in
          rw (positive, short, short, take_all (size - 1) str le, take_front str (0 ∷ []))
      | inr long ↦ let same : ltb size size ≡ false = ground arith in rw (positive, long, same)
    ]

concat-sub_string :
    (size : ℕ) (str : List ℕ) (args : List Piece)
    → 0 < size
    → concat size (sub_string str ∷ args) ≡ (
        if ltb (length str) size
        then str ++ concat (size - length str) args
        else take (size - 1) str ++ (0 ∷ []))
unfolding concat
concat-sub_string size str args h = elim (Bool-cases (ltb (length str) size)) [
  | inl short ↦
      let fit : leb size (length str) ≡ false = ground (arith, short) in
      rw (fit, short, take_all (length str) str (omega arith))
  | inr long ↦
      let over : leb size (length str) ≡ true = ground (arith, long) in
      let same : ltb size size ≡ false = ground arith in rw (long, over, same)
]

-- what both kinds of strings come to
joined :
    (size : ℕ) (str more rest : List ℕ)
    → (length str < size → rest ≡ take (size - length str - 1) more ++ (0 ∷ []))
    → (if ltb (length str) size then str ++ rest else take (size - 1) str ++ (0 ∷ []))
      ≡ take (size - 1) (str ++ more) ++ (0 ∷ [])
joined size str more rest e = elim (Bool-cases (ltb (length str) size)) [
  | inl short ↦
      let lt : length str < size = ground (arith, short) in
      rw (short, e lt) (joined_fit size str more lt)
  | inr long ↦
      let le : size - 1 ≤ length str = ground (arith, long) in
      rw (long, take_less (size - 1) str more le)
]

take_nothing : (n : ℕ) → ◌≡◌ {A = List ℕ} (0 ∷ []) (take n [] ++ (0 ∷ []))
take_nothing zero = refl
take_nothing (suc n) = refl

-- `concat` of strings fills a buffer that is not empty with as much of them, one behind the other,
-- as it has room for, and ends them with a `\0`.
pub concat-texts :
    (size : ℕ) (args : List Piece)
    → 0 < size
    → All IsString args
    → concat size args ≡ take (size - 1) (texts args) ++ (0 ∷ [])
unfolding concat
concat-texts size [] h k = take_nothing (size - 1)
concat-texts size (c_string str ∷ args) h (k, ks) =
    concat-c_string size str args h
    ∙ joined size str (texts args) (concat (size - length str) args)
        (λ lt. concat-texts (size - length str) args (omega (arith, lt)) ks)
concat-texts size (sub_string str ∷ args) h (k, ks) =
    concat-sub_string size str args h
    ∙ joined size str (texts args) (concat (size - length str) args)
        (λ lt. concat-texts (size - length str) args (omega (arith, lt)) ks)
concat-texts size (number t value ∷ args) h (k, ks) = absurd (ground (arith, k))

append_number_last :
    (cs : List ℕ) (c size : ℕ)
    → append_number (cs ++ (c ∷ [])) size ≡ ((cs ++ (c ∷ [])) ++ (0 ∷ []), length cs)
unfolding append_number
append_number_last [] c size = refl
append_number_last (b ∷ cs) c size =
    let one : suc (length (cs ++ (c ∷ []))) - 1 ≡ suc (length cs) =
      omega (arith, length-append {0} cs (c ∷ [])) in
    rw one

-- An integer loses its last digit when something follows it: `append` takes one off the number of
-- characters that `int_to_str` returns, which does not count the `\0`.
pub concat-number :
    (size : ℕ) (t : IntegerType) (value : ℤ) (cs : List ℕ) (c : ℕ) (args : List Piece)
    → int_to_str t value size ≡ cs ++ (c ∷ [])
    → length cs < size
    → concat size (number t value ∷ args) ≡ cs ++ concat (size - length cs) args
unfolding concat
concat-number size t value cs c args h lt =
    let short : ltb (length cs) size ≡ true = ground (arith, lt) in
    rw (
      h,
      append_number_last cs c size,
      short,
      append_assoc cs (c ∷ []) (0 ∷ []),
      take_front cs (c ∷ 0 ∷ []),
    )
