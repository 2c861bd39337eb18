-- ===== src/Ascii/Caseless/Agreement.antt =====
-- What the operations without regard to case have to do with each other.
use litemq.Prelude.{
  ℕ, zero, suc, ◌≤◌, ◌≡◌, inl, inr, refl, sym, ap, subst, ◌∙◌, Bool, true, false, not, ◌&&◌,
  if◌then◌else◌, ◌==◌, min, List, [], ◌∷◌, map, length, take, length-take, All, Bool-cases, arith,
}
use litemq.Prelude.Int.{ℤ, pos, negsuc}
use litemq.SubString.{is_zero}
use litemq.SubString.Searching.{starts}
use litemq.Ascii.{
  to_lower, by_length, compare_loop, compare_caseless, equal_caseless, equal_caseless_c_string,
}
use litemq.Ascii.Caseless.{compare, equal, start}
use litemq.Ascii.Caseless.Same.{
  same, IsShared, IsByte, is_zero-compare_loop, equal_loop-same, same-length, is_zero→pos,
  by_length_same, by_length_other, same-shared, same-nil, same_sym,
}

equal_caseless-same :
    (shared : Bool) (xs ys : List ℕ)
    → IsShared shared xs ys
    → equal_caseless shared xs ys ≡ same (map to_lower xs) (map to_lower ys)
unfolding equal_caseless
equal_caseless-same shared xs ys h = elim (Bool-cases (length xs == length ys)) [
  | inl e ↦
      let k : length xs ≡ length ys = ground arith in
      elim (Bool-cases shared) [
        | inl f ↦ rw (e, f) (sym (same-shared xs ys (λ _. h f) k))
        | inr f ↦ elim (Bool-cases (length xs == 0)) [
          | inl g ↦ rw (e, f, g) (sym (same-nil xs ys (ground arith) (ground arith)))
          | inr g ↦ rw (e, f, g) (equal_loop-same xs ys k)
        ]
      ]
  | inr e ↦ rw e (sym (same-length xs ys e))
]

equal-equal_caseless :
    (shared : Bool) (xs ys : List ℕ) → equal shared xs ys ≡ equal_caseless shared ys xs
unfolding equal equal_caseless
equal-equal_caseless shared xs ys = refl

compare-compare_caseless :
    (shared : Bool) (xs ys : List ℕ) → compare shared xs ys ≡ compare_caseless shared xs ys
unfolding compare compare_caseless
compare-compare_caseless shared xs ys = elim (Bool-cases shared) [
  | inl e ↦ rw e refl
  | inr e ↦ elim (Bool-cases (min (length xs) (length ys) == 0)) [
    | inl f ↦ rw (e, f) refl
    | inr f ↦ elim (Bool-cases (is_zero (compare_loop xs ys))) [
      | inl g ↦ elim (Bool-cases (length xs == length ys)) [
        | inl k ↦ rw (e, f, g, k) (sym (is_zero→pos (compare_loop xs ys) g))
        | inr k ↦ rw (e, f, g, k) refl
      ]
      | inr g ↦ rw (e, f, g) refl
    ]
  ]
]

chosen :
    (shared none_left : Bool) (x y : ℤ)
    → is_zero y ≡ false
    → is_zero (if not shared && not none_left && not (is_zero x) then x else y) ≡ false
chosen true none_left x y h = h
chosen false true x y h = h
chosen false false (pos zero) y h = h
chosen false false (pos (suc n)) y h = refl
chosen false false (negsuc n) y h = refl

is_zero-compare :
    (shared : Bool) (xs ys : List ℕ)
    → IsShared shared xs ys
    → All IsByte xs
    → All IsByte ys
    → is_zero (compare shared xs ys) ≡ same (map to_lower xs) (map to_lower ys)
unfolding compare
is_zero-compare shared xs ys h p q = elim (Bool-cases (length xs == length ys)) [
  | inl e ↦
      let k : length xs ≡ length ys = ground arith in
      let loop : is_zero (compare_loop xs ys) ≡ same (map to_lower xs) (map to_lower ys) =
        is_zero-compare_loop xs ys p q ∙ equal_loop-same xs ys k in
      elim (Bool-cases shared) [
        | inl f ↦
            rw (f, by_length_same (length xs) (length ys) e) (sym (same-shared xs ys (λ _. h f) k))
        | inr f ↦ elim (Bool-cases (min (length xs) (length ys) == 0)) [
          | inl g ↦
              rw (f, g, by_length_same (length xs) (length ys) e)
                (sym (same-nil xs ys (ground arith) (ground arith)))
          | inr g ↦ elim (Bool-cases (is_zero (compare_loop xs ys))) [
            | inl z ↦ rw (f, g, z, by_length_same (length xs) (length ys) e) (sym z ∙ loop)
            | inr z ↦ rw (f, g, z) loop
          ]
        ]
      ]
  | inr e ↦ rw (same-length xs ys e) (
      chosen shared (min (length xs) (length ys) == 0) (compare_loop xs ys)
        (by_length (length xs) (length ys)) (by_length_other (length xs) (length ys) e))
]

equal_caseless_c_string-same :
    (xs ys : List ℕ) → equal_caseless_c_string xs ys ≡ same (map to_lower xs) (map to_lower ys)
unfolding equal_caseless_c_string
equal_caseless_c_string-same [] [] = refl
equal_caseless_c_string-same [] (d ∷ ys) = ground arith
equal_caseless_c_string-same (c ∷ xs) [] = refl
equal_caseless_c_string-same (c ∷ xs) (d ∷ ys) =
    let e : (to_lower d == to_lower c) ≡ (to_lower c == to_lower d) = ground arith in
    elim (Bool-cases (to_lower c == to_lower d)) [
      | inl f ↦ rw (e, f) (equal_caseless_c_string-same xs ys)
      | inr f ↦ rw (e, f) refl
    ]

same-starts :
    (xs ys : List ℕ)
    → same (map to_lower (take (length xs) ys)) (map to_lower xs)
      ≡ starts (map to_lower ys) (map to_lower xs)
same-starts [] ys = refl
same-starts (c ∷ xs) [] = refl
same-starts (c ∷ xs) (d ∷ ys) =
    ap (λ b. if to_lower d == to_lower c then b else false) (same-starts xs ys)

equal-same :
    (shared : Bool) (xs ys : List ℕ)
    → IsShared shared xs ys
    → equal shared xs ys ≡ same (map to_lower xs) (map to_lower ys)
equal-same shared xs ys h =
    let commuted : min (length xs) (length ys) ≡ min (length ys) (length xs) = omega arith in
    let swapped : IsShared shared ys xs =
      λ s. subst (λ k. take k ys ≡ take k xs) commuted (sym (h s)) in
    equal-equal_caseless shared xs ys
    ∙ equal_caseless-same shared ys xs swapped
    ∙ same_sym (map to_lower ys) (map to_lower xs)

take-take : (k n : ℕ) (xs : List ℕ) → k ≤ n → take k (take n xs) ≡ take k xs
take-take zero n xs h = refl
take-take (suc k) zero xs h = absurd (omega (arith, h))
take-take (suc k) (suc n) [] h = refl
take-take (suc k) (suc n) (c ∷ xs) h = ap (λ ys. c ∷ ys) (take-take k n xs (omega (arith, h)))

start-starts :
    (shared : Bool) (xs ys : List ℕ)
    → IsShared shared xs ys
    → start shared xs ys ≡ starts (map to_lower ys) (map to_lower xs)
unfolding start
start-starts shared xs ys h =
    let n = length xs in
    let m = length ys in
    let short : min n (length (take n ys)) ≡ min n m = omega (arith, length-take {0} n ys) in
    let cut : take (min n m) (take n ys) ≡ take (min n m) ys =
      take-take (min n m) n ys (omega arith) in
    let shared_still : IsShared shared xs (take n ys) =
      λ s. subst (λ k. take k xs ≡ take k (take n ys)) (sym short) (h s ∙ sym cut) in
    equal-same shared xs (take n ys) shared_still
    ∙ same_sym (map to_lower xs) (map to_lower (take n ys))
    ∙ same-starts xs ys

-- For strings of bytes, if strings with one pointer have the same characters up to the end of the
-- shorter one: `compare` of `Caseless` gives what `compare_caseless` gives, which is zero exactly
-- where the strings have the same letters and other characters when each letter is taken as a
-- lower-case one. That is also what `equal` of `Caseless` and both functions `equal_caseless` tell;
-- and `start` tells whether a string starts with the string of the `Caseless`.
pub compare-compare_caseless_lem :
    (shared : Bool) (self str : List ℕ)
    → IsShared shared self str
    → All IsByte self
    → All IsByte str
    → let alike = same (map to_lower self) (map to_lower str) in
      (compare shared self str ≡ compare_caseless shared self str)
      × (is_zero (compare_caseless shared self str) ≡ alike)
      × (equal shared self str ≡ alike)
      × (equal_caseless shared self str ≡ alike)
      × (equal_caseless_c_string self str ≡ alike)
      × (start shared self str ≡ starts (map to_lower str) (map to_lower self))
unfolding start
compare-compare_caseless_lem shared self str h p q =
    let e = compare-compare_caseless shared self str in
    (
      e,
      sym (ap is_zero e) ∙ is_zero-compare shared self str h p q,
      equal-same shared self str h,
      equal_caseless-same shared self str h,
      equal_caseless_c_string-same self str,
      start-starts shared self str h,
    )
