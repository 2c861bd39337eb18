-- ===== src/Ascii/Flattening.antt =====
-- `flatten` of gears/AsciiStringManip.hpp, its rounds and the size it gives to `dest`.
use litemq.Prelude.{
  ℕ, zero, suc, ◌-◌, ◌*◌, ◌≤◌, ◌<◌, ◌≡◌, ◌⊎◌, inl, inr, refl, ap, subst, Bool, true, false,
  if◌then◌else◌, ◌==◌, some, List, [], ◌∷◌, ◌++◌, length, length-append, take, append-nil,
  Bool-cases, arith,
}
use litemq.Ascii.{CharTable, find_owned, find_nonowned, before, flatten_loop, flatten_room, flatten}

-- A string in which each run of characters of the table is one replacement. The flag says that the
-- character in front is of the table.
abbrev pub collapsed : List ℕ → CharTable → Bool → List ℕ → List ℕ
collapsed replacement to_replace inside [] = []
collapsed replacement to_replace inside (c ∷ str) =
    let run = collapsed replacement to_replace true str in
    let rest = collapsed replacement to_replace false str in
    if to_replace c then (if inside then run else replacement ++ run) else c ∷ rest

abbrev replaced : List ℕ → CharTable → List ℕ → List ℕ
replaced replacement to_replace [] = []
replaced replacement to_replace (c ∷ str) = replacement ++ collapsed replacement to_replace true str

take-minus_self : (n : ℕ) (xs : List ℕ) → take (n - n) xs ≡ []
take-minus_self n xs = let e : n - n ≡ 0 = omega arith in ap (λ k. take k xs) e

find_owned_shorter : (t : CharTable) (str : List ℕ) → length (find_owned t str) ≤ length str
unfolding find_owned
find_owned_shorter t [] = omega arith
find_owned_shorter t (c ∷ str) = elim (Bool-cases (t c)) [
  | inl e ↦ rw e (omega arith)
  | inr e ↦ rw e (omega (arith, find_owned_shorter t str))
]

find_nonowned_shorter : (t : CharTable) (str : List ℕ) → length (find_nonowned t str) ≤ length str
unfolding find_nonowned
find_nonowned_shorter t [] = omega arith
find_nonowned_shorter t (c ∷ str) = elim (Bool-cases (t c)) [
  | inl e ↦ rw e (omega (arith, find_nonowned_shorter t str))
  | inr e ↦ rw e (omega arith)
]

before-cons :
    (c : ℕ) (str rest : List ℕ)
    → length rest ≤ length str
    → before (c ∷ str) rest ≡ c ∷ before str rest
before-cons c str rest h =
    let e : suc (length str) - length rest ≡ suc (length str - length rest) = omega (arith, h) in
    ap (λ k. take k (c ∷ str)) e

collapsed_split :
    (r : List ℕ) (t : CharTable) (str : List ℕ)
    → collapsed r t false str ≡ before str (find_owned t str) ++ replaced r t (find_owned t str)
unfolding find_owned
collapsed_split r t [] = refl
collapsed_split r t (c ∷ str) = elim (Bool-cases (t c)) [
  | inl e ↦ rw (e, take-minus_self (suc (length str)) (c ∷ str)) refl
  | inr e ↦
      rw (e, before-cons c str (find_owned t str) (find_owned_shorter t str))
        (ap (λ xs. c ∷ xs) (collapsed_split r t str))
]

collapsed_run :
    (r : List ℕ) (t : CharTable) (str : List ℕ)
    → collapsed r t true str ≡ collapsed r t false (find_nonowned t str)
unfolding find_nonowned
collapsed_run r t [] = refl
collapsed_run r t (c ∷ str) = elim (Bool-cases (t c)) [
  | inl e ↦ rw e (collapsed_run r t str)
  | inr e ↦ rw (e, e) refl
]

replaced_run :
    (r : List ℕ) (t : CharTable) (c : ℕ) (xs : List ℕ)
    → t c ≡ true
    → replaced r t (c ∷ xs) ≡ r ++ collapsed r t false (find_nonowned t (c ∷ xs))
unfolding find_nonowned
replaced_run r t c xs e = rw e (ap (λ ys. r ++ ys) (collapsed_run r t xs))

-- what a search finds: nothing, or the rest of the string from a character of the table on
find_owned-cases :
    (t : CharTable) (str : List ℕ)
    → (find_owned t str ≡ [])
      ⊎ ((c : ℕ) × (xs : List ℕ) × (find_owned t str ≡ c ∷ xs) × (t c ≡ true))
unfolding find_owned
find_owned-cases t [] = inl refl
find_owned-cases t (c ∷ str) = elim (Bool-cases (t c)) [
  | inl e ↦ inr (c, str, (rw e refl), e)
  | inr e ↦ rw e (find_owned-cases t str)
]

find_nonowned_lt :
    (t : CharTable) (c : ℕ) (xs : List ℕ)
    → t c ≡ true
    → length (find_nonowned t (c ∷ xs)) < suc (length xs)
unfolding find_nonowned
find_nonowned_lt t c xs e = rw e (omega (arith, find_nonowned_shorter t xs))

flatten_loop_lem :
    (rounds : ℕ) (r : List ℕ) (t : CharTable) (str : List ℕ)
    → length str ≤ rounds
    → flatten_loop rounds r t str ≡ some (collapsed r t false str)
unfolding flatten_loop
flatten_loop_lem rounds r t [] h = refl
flatten_loop_lem zero r t (c ∷ str) h = absurd (omega (arith, h))
flatten_loop_lem (suc rounds) r t (c ∷ str) h = elim (find_owned-cases t (c ∷ str)) [
  | inl e ↦
      rw (flatten_loop, e, collapsed_split r t (c ∷ str), e, append-nil (before (c ∷ str) [])) refl
  | inr (d, xs, e, f) ↦
      let fewer : length (d ∷ xs) ≤ suc rounds =
        subst (λ ys. length ys ≤ suc rounds) e (omega (arith, h, find_owned_shorter t (c ∷ str))) in
      rw
        (
          flatten_loop,
          e,
          collapsed_split r t (c ∷ str),
          e,
          replaced_run r t d xs f,
          flatten_loop_lem rounds r t (find_nonowned t (d ∷ xs))
              (omega (arith, fewer, find_nonowned_lt t d xs f)),
          e,
        )
        refl
]

abbrev per_character : ℕ → ℕ
per_character n = if n == 0 then 1 else n

per_character_enough : (n : ℕ) → (n ≤ per_character n) × (1 ≤ per_character n)
per_character_enough n = ground arith

length-collapsed :
    (r : List ℕ) (t : CharTable) (inside : Bool) (str : List ℕ) (m : ℕ)
    → length r ≤ m
    → 1 ≤ m
    → length (collapsed r t inside str) ≤ length str * m
length-collapsed r t inside [] m h k = omega arith
length-collapsed r t inside (c ∷ str) m h k =
    let run = length-collapsed r t true str m h k in
    let rest = length-collapsed r t false str m h k in
    elim (Bool-cases (t c)) [
      | inl e ↦ elim (Bool-cases inside) [
        | inl f ↦ rw (e, f) (omega (arith, run, k))
        | inr f ↦ rw (e, f, length-append r (collapsed r t true str)) (omega (arith, run, h))
      ]
      | inr e ↦ rw e (omega (arith, rest, k))
    ]

-- `flatten` always ends with a result: each run of characters of the table is replaced by one
-- replacement, and the other characters stay, in their order. What it writes fits in the size that
-- it gives to `dest` first.
pub flatten-flatten_room :
    (r : List ℕ) (t : CharTable) (str : List ℕ)
    → (flatten r t str ≡ some (collapsed r t false str))
      × (length (collapsed r t false str) ≤ flatten_room r str)
unfolding flatten flatten_room
flatten-flatten_room r t str =
    let (enough, positive) = per_character_enough (length r) in
    (
      flatten_loop_lem (length str) r t str (omega arith),
      length-collapsed r t false str (per_character (length r)) enough positive,
    )
