-- ===== src/SubString/Comparing.antt =====
-- `compare` and `equal`, and the comparison with a C string.
use litemq.Prelude.{
  ℕ, zero, suc, ◌≤◌, min, ◌≡◌, refl, sym, ap, ◌∙◌, ap₂, inl, inr, Bool, true, false, if◌then◌else◌,
  ltb, ◌==◌, List, [], ◌∷◌, length, length-drop, take, drop, arith, Bool-cases,
}
use litemq.Prelude.Int.{ℤ, pos, negsuc}
use litemq.SubString.{
  BasicSubString, chars_from, compare_chars, is_zero, compare, equal, compare_loop,
  compare_c_string,
}
use litemq.SubString.View.{IsValid, view}

-- the order of words in a dictionary, as -1, 0 or 1
abbrev pub lex : List ℕ → List ℕ → ℤ
lex [] [] = pos 0
lex [] (y ∷ ys) = negsuc 0
lex (x ∷ xs) [] = pos 1
lex (x ∷ xs) (y ∷ ys) = if x == y then lex xs ys else if ltb x y then negsuc 0 else pos 1

-- what `compare` makes of the result for the common length
abbrev by_length : ℕ → ℕ → ℤ → ℤ
by_length a b result =
    if is_zero result then if a == b then pos 0 else if ltb a b then negsuc 0 else pos 1 else result

by_length-suc : (a b : ℕ) (result : ℤ) → by_length (suc a) (suc b) result ≡ by_length a b result
by_length-suc a b result = ground arith

pub chars_from_begin : (s : BasicSubString) → chars_from s 0 ≡ drop s.begin s.memory
chars_from_begin s = ap (λ i. drop i s.memory) (omega arith)

compare_chars-lex :
    (a b : ℕ) (xs ys : List ℕ)
    → a ≤ length xs
    → b ≤ length ys
    → by_length a b (compare_chars (min a b) xs ys) ≡ lex (take a xs) (take b ys)
unfolding compare_chars
compare_chars-lex zero zero xs ys h k = refl
compare_chars-lex zero (suc b) xs [] h k = absurd (omega (arith, k))
compare_chars-lex zero (suc b) xs (y ∷ ys) h k =
    let m : min zero (suc b) ≡ zero = omega arith in rw m (ground arith)
compare_chars-lex (suc a) zero [] ys h k = absurd (omega (arith, h))
compare_chars-lex (suc a) zero (x ∷ xs) ys h k =
    let m : min (suc a) zero ≡ zero = omega arith in rw m (ground arith)
compare_chars-lex (suc a) (suc b) [] ys h k = absurd (omega (arith, h))
compare_chars-lex (suc a) (suc b) (x ∷ xs) [] h k = absurd (omega (arith, k))
compare_chars-lex (suc a) (suc b) (x ∷ xs) (y ∷ ys) h k =
    let m : min (suc a) (suc b) ≡ suc (min a b) = omega arith in
    let rest = compare_chars-lex a b xs ys (omega (arith, h)) (omega (arith, k)) in
    elim (Bool-cases (x == y)) [
      | inl e ↦ rw (m, e) (by_length-suc a b (compare_chars (min a b) xs ys) ∙ rest)
      | inr e ↦ elim (Bool-cases (ltb x y)) [ inl f ↦ rw (m, e, f) | inr f ↦ rw (m, e, f) ]
    ]

compare-view : (s t : BasicSubString) → IsValid s → IsValid t → compare s t ≡ lex (view s) (view t)
unfolding compare
compare-view s t v w =
    ap₂ (λ xs ys. by_length s.len t.len (compare_chars (min s.len t.len) xs ys))
      (chars_from_begin s) (chars_from_begin t)
    ∙ compare_chars-lex s.len t.len (drop s.begin s.memory) (drop t.begin t.memory)
        (omega (arith, length-drop {0} s.begin s.memory, v.inside))
        (omega (arith, length-drop {0} t.begin t.memory, w.inside))

is_zero-by_length :
    (a b : ℕ) (result : ℤ)
    → (if b == a then is_zero result else false) ≡ is_zero (by_length a b result)
is_zero-by_length a b (pos zero) = ground arith
is_zero-by_length a b (pos (suc n)) = ground arith
is_zero-by_length a b (negsuc n) = ground arith

equal_chars :
    (a b : ℕ) (xs ys : List ℕ)
    → (if b == a then is_zero (compare_chars a xs ys) else false)
      ≡ is_zero (by_length a b (compare_chars (min a b) xs ys))
equal_chars a b xs ys = elim (Bool-cases (b == a)) [
  | inl e ↦
      let same : min a b ≡ a = ground (arith, e) in
      rw same (is_zero-by_length a b (compare_chars a xs ys))
  | inr e ↦ rw e (
      ap (λ p. if p then is_zero (compare_chars (min a b) xs ys) else false) (sym e)
      ∙ is_zero-by_length a b (compare_chars (min a b) xs ys))
]

equal-compare : (s t : BasicSubString) → equal s t ≡ is_zero (compare s t)
unfolding equal compare
equal-compare s t = equal_chars s.len t.len (chars_from s 0) (chars_from t 0)

-- `compare` of substrings that lie within their arrays is the order of their characters as in a
-- dictionary, and `equal` holds just where `compare` finds no difference.
pub compare-equal_lem :
    (s t : BasicSubString)
    → IsValid s
    → IsValid t
    → (compare s t ≡ lex (view s) (view t)) × (equal s t ≡ is_zero (lex (view s) (view t)))
compare-equal_lem s t v w =
    (compare-view s t v w, equal-compare s t ∙ ap is_zero (compare-view s t v w))

-- whether a list goes on behind another one that it begins with
abbrev pub extends : List ℕ → List ℕ → Bool
extends [] str = false
extends (x ∷ xs) [] = true
extends (x ∷ xs) (c ∷ str) = if x == c then extends xs str else false

compare_loop-lex :
    (n : ℕ) (xs str : List ℕ)
    → n ≤ length xs
    → compare_loop n xs str ≡ (if extends (take n xs) str then negsuc 0 else lex (take n xs) str)
unfolding compare_loop
compare_loop-lex zero xs [] h = refl
compare_loop-lex zero xs (c ∷ str) h = refl
compare_loop-lex (suc n) [] str h = absurd (omega (arith, h))
compare_loop-lex (suc n) (x ∷ xs) [] h = refl
compare_loop-lex (suc n) (x ∷ xs) (c ∷ str) h = elim (Bool-cases (x == c)) [
  | inl e ↦ rw e (compare_loop-lex n xs str (omega (arith, h)))
  | inr e ↦ rw e
]

-- `compare` with a C string is the order of a dictionary but for a substring that goes on behind
-- all the characters of the C string: that is told to come before it.
pub compare_c_string-view :
    (s : BasicSubString) (str : List ℕ)
    → IsValid s
    → compare_c_string s str ≡ (if extends (view s) str then negsuc 0 else lex (view s) str)
unfolding compare_c_string
compare_c_string-view s str v =
    ap (λ xs. compare_loop s.len xs str) (chars_from_begin s)
    ∙ compare_loop-lex s.len (drop s.begin s.memory) str
        (omega (arith, length-drop {0} s.begin s.memory, v.inside))
