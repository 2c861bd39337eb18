-- ===== src/Ascii/Caseless/Same.antt =====
-- Strings that are the same without regard to case, and the loops that compare them.
use litemq.Prelude.{
  ℕ, zero, suc, ◌<◌, ◌≡◌, inl, inr, refl, sym, ap, ◌∙◌, Bool, true, false, if◌then◌else◌, ltb, ◌==◌,
  min, List, [], ◌∷◌, map, length, take, take_all, All, Bool-cases, arith,
}
use litemq.Prelude.Int.{ℤ, pos, negsuc, ◌-ℤ◌, sub_ℕ}
use litemq.SubString.{is_zero}
use litemq.Ascii.{to_lower, signed, by_length, compare_loop, equal_loop}

-- whether two lists are the same
abbrev pub same : List ℕ → List ℕ → Bool
same [] [] = true
same [] (d ∷ ys) = false
same (c ∷ xs) [] = false
same (c ∷ xs) (d ∷ ys) = if c == d then same xs ys else false

-- Two strings with one pointer have the same characters up to the end of the shorter one.
abbrev pub IsShared : Bool → List ℕ → List ℕ → Type 0
IsShared shared xs ys =
    let len = min (length xs) (length ys) in shared ≡ true → take len xs ≡ take len ys

abbrev pub IsByte : ℕ → Type 0
IsByte c = c < 256

is_zero-sub : (a b : ℕ) → is_zero (sub_ℕ a b) ≡ (a == b)
is_zero-sub a b = ground arith

is_zero-signed : (c d : ℕ) → c < 256 → d < 256 → is_zero (signed c -ℤ signed d) ≡ (c == d)
unfolding ◌-ℤ◌
is_zero-signed c d h k = elim (Bool-cases (ltb c 128)) [
  | inl e ↦ elim (Bool-cases (ltb d 128)) [
    | inl f ↦ rw (e, f) (ground arith)
    | inr f ↦ rw (e, f) (ground arith)
  ]
  | inr e ↦ elim (Bool-cases (ltb d 128)) [
    | inl f ↦ rw (e, f) (ground arith)
    | inr f ↦ rw (e, f) (ground arith)
  ]
]

to_lower-IsByte : (c : ℕ) → c < 256 → to_lower c < 256
unfolding to_lower
to_lower-IsByte c h = ground arith

pub is_zero-compare_loop :
    (xs ys : List ℕ)
    → All IsByte xs
    → All IsByte ys
    → is_zero (compare_loop xs ys) ≡ equal_loop xs ys
unfolding compare_loop equal_loop
is_zero-compare_loop [] ys p q = refl
is_zero-compare_loop (c ∷ xs) [] p q = refl
is_zero-compare_loop (c ∷ xs) (d ∷ ys) (h, p) (k, q) =
    let zero_iff =
      is_zero-signed (to_lower c) (to_lower d) (to_lower-IsByte c h) (to_lower-IsByte d k) in
    elim (Bool-cases (to_lower c == to_lower d)) [
      | inl e ↦ rw (zero_iff, e) (is_zero-compare_loop xs ys p q)
      | inr e ↦ rw (zero_iff, e) (zero_iff ∙ e)
    ]

pub equal_loop-same :
    (xs ys : List ℕ)
    → length xs ≡ length ys
    → equal_loop xs ys ≡ same (map to_lower xs) (map to_lower ys)
unfolding equal_loop
equal_loop-same [] [] h = refl
equal_loop-same [] (d ∷ ys) h = absurd (omega (arith, h))
equal_loop-same (c ∷ xs) [] h = absurd (omega (arith, h))
equal_loop-same (c ∷ xs) (d ∷ ys) h =
    ap (λ b. if to_lower c == to_lower d then b else false)
      (equal_loop-same xs ys (omega (arith, h)))

pub same-length :
    (xs ys : List ℕ)
    → (length xs == length ys) ≡ false
    → same (map to_lower xs) (map to_lower ys) ≡ false
same-length [] [] h = absurd (ground arith)
same-length [] (d ∷ ys) h = refl
same-length (c ∷ xs) [] h = refl
same-length (c ∷ xs) (d ∷ ys) h =
    let rest = same-length xs ys (ground arith) in
    elim (Bool-cases (to_lower c == to_lower d)) [ inl e ↦ rw (e, rest) refl | inr e ↦ rw e refl ]

same_refl : (xs : List ℕ) → same xs xs ≡ true
same_refl [] = refl
same_refl (c ∷ xs) = let e : (c == c) ≡ true = ground arith in rw (e, same_refl xs) refl

pub is_zero→pos : (z : ℤ) → is_zero z ≡ true → z ≡ pos 0
is_zero→pos (pos zero) h = refl
is_zero→pos (pos (suc n)) h = ground arith
is_zero→pos (negsuc n) h = ground arith

pub by_length_same : (m n : ℕ) → (m == n) ≡ true → by_length m n ≡ pos 0
by_length_same m n h = ground arith

pub by_length_other : (m n : ℕ) → (m == n) ≡ false → is_zero (by_length m n) ≡ false
by_length_other m n h = ground arith

take-same : (xs ys : List ℕ) → length xs ≡ length ys → take (min (length xs) (length ys)) xs ≡ xs
take-same xs ys h = take_all (min (length xs) (length ys)) xs (omega (arith, h))

pub same-shared :
    (xs ys : List ℕ)
    → IsShared true xs ys
    → length xs ≡ length ys
    → same (map to_lower xs) (map to_lower ys) ≡ true
same-shared xs ys h k =
    let e : take (min (length xs) (length ys)) ys ≡ ys =
      take_all (min (length xs) (length ys)) ys (omega (arith, k)) in
    let f : xs ≡ ys = sym (take-same xs ys k) ∙ h refl ∙ e in rw f (same_refl (map to_lower ys))

pub same-nil :
    (xs ys : List ℕ)
    → length xs ≡ 0
    → length ys ≡ 0
    → same (map to_lower xs) (map to_lower ys) ≡ true
same-nil [] [] h k = refl
same-nil [] (d ∷ ys) h k = absurd (omega (arith, k))
same-nil (c ∷ xs) ys h k = absurd (omega (arith, h))

pub same_sym : (xs ys : List ℕ) → same xs ys ≡ same ys xs
same_sym [] [] = refl
same_sym [] (d ∷ ys) = refl
same_sym (c ∷ xs) [] = refl
same_sym (c ∷ xs) (d ∷ ys) =
    let e : (c == d) ≡ (d == c) = ground arith in rw (e, same_sym xs ys) refl
