-- ===== src/Poller/Cleaner/Releasing.antt =====
-- The flags and the count of the cleaner while no round has ended.
use litemq.Prelude.{
  ℕ, suc, zero, ◌+◌, ◌<◌, ◌≤◌, ◌≡◌, ◌≢◌, refl, ap, List, [], ◌∷◌, length, get_or, set,
  if◌then◌else◌, ◌==◌, arith,
}
use litemq.Poller.Cleaner.{
  Release, idle, checked, raised, lowering, lowered, reverting, reverted, zeros, all_idle,
}

-- The flag that a thread has where it stands.
abbrev pub Fits : Release → ℕ → Type 0
Fits idle x = x ≤ 1
Fits checked x = x ≡ 0
Fits raised x = x ≡ 1
Fits _ x = x < 0

-- What the thread adds to the count: 1 until it has taken it off.
abbrev pub weight : Release → ℕ → ℕ
weight raised x = 1
weight _ x = if x == 0 then 1 else 0

abbrev pub FitsAll : List ℕ → List Release → Type 0
FitsAll [] [] = Unit {0}
FitsAll (x ∷ xs) (pc ∷ pcs) = Fits pc x × FitsAll xs pcs
FitsAll _ _ = ⊥

abbrev pub weights : List ℕ → List Release → ℕ
weights (x ∷ xs) (pc ∷ pcs) = weight pc x + weights xs pcs
weights _ _ = 0

pub FitsAll-at :
    (xs : List ℕ) (pcs : List Release) (i : ℕ)
    → FitsAll xs pcs
    → Fits (get_or pcs i idle) (get_or xs i 0)
FitsAll-at [] [] i f = omega arith
FitsAll-at (x ∷ xs) [] i f = absurd f
FitsAll-at [] (pc ∷ pcs) i f = absurd f
FitsAll-at (x ∷ xs) (pc ∷ pcs) zero f = f.0
FitsAll-at (x ∷ xs) (pc ∷ pcs) (suc i) f = FitsAll-at xs pcs i f.1

-- A thread that has a place moves to another with another flag.
pub FitsAll-set :
    (xs : List ℕ) (pcs : List Release) (i y : ℕ) (q : Release)
    → FitsAll xs pcs
    → i < length xs
    → Fits q y
    → FitsAll (set xs i y) (set pcs i q)
      × (weights (set xs i y) (set pcs i q) + weight (get_or pcs i idle) (get_or xs i 0)
          ≡ weights xs pcs + weight q y)
FitsAll-set [] [] i y q f k g = absurd (omega arith)
FitsAll-set (x ∷ xs) [] i y q f k g = absurd f
FitsAll-set [] (pc ∷ pcs) i y q f k g = absurd f
FitsAll-set (x ∷ xs) (pc ∷ pcs) zero y q f k g = ((g, f.1), omega arith)
FitsAll-set (x ∷ xs) (pc ∷ pcs) (suc i) y q f k g =
    let rest = FitsAll-set xs pcs i y q f.1 (omega arith) g in
    ((f.0, rest.0), omega (arith, rest.1))

weight-le :
    (xs : List ℕ) (pcs : List Release) (i : ℕ)
    → FitsAll xs pcs
    → i < length xs
    → weight (get_or pcs i idle) (get_or xs i 0) ≤ weights xs pcs
weight-le [] [] i f k = absurd (omega arith)
weight-le (x ∷ xs) [] i f k = absurd f
weight-le [] (pc ∷ pcs) i f k = absurd f
weight-le (x ∷ xs) (pc ∷ pcs) zero f k = omega arith
weight-le (x ∷ xs) (pc ∷ pcs) (suc i) f k = omega (arith, weight-le xs pcs i f.1 (omega arith))

-- Two threads add up.
pub weight_two :
    (xs : List ℕ) (pcs : List Release) (i j : ℕ)
    → FitsAll xs pcs
    → i ≢ j
    → i < length xs
    → j < length xs
    → weight (get_or pcs i idle) (get_or xs i 0) + weight (get_or pcs j idle) (get_or xs j 0)
      ≤ weights xs pcs
weight_two [] [] i j f n k l = absurd (omega arith)
weight_two (x ∷ xs) [] i j f n k l = absurd f
weight_two [] (pc ∷ pcs) i j f n k l = absurd f
weight_two (x ∷ xs) (pc ∷ pcs) zero zero f n k l = absurd (n refl)
weight_two (x ∷ xs) (pc ∷ pcs) zero (suc j) f n k l =
    omega (arith, weight-le xs pcs j f.1 (omega arith))
weight_two (x ∷ xs) (pc ∷ pcs) (suc i) zero f n k l =
    omega (arith, weight-le xs pcs i f.1 (omega arith))
weight_two (x ∷ xs) (pc ∷ pcs) (suc i) (suc j) f n k l =
    omega (arith, weight_two xs pcs i j f.1 (λ e. n (ap suc e)) (omega arith) (omega arith))

pub weights-le : (xs : List ℕ) (pcs : List Release) → weights xs pcs ≤ length xs
weights-le [] pcs = omega arith
weights-le (x ∷ xs) [] = omega arith
weights-le (x ∷ xs) (pc ∷ pcs) = omega (arith, weight-one pc, weights-le xs pcs)
  where
    weight-one : (pc : Release) → weight pc x ≤ 1
    weight-one idle = ground arith
    weight-one checked = ground arith
    weight-one raised = omega arith
    weight-one (lowering it) = ground arith
    weight-one (lowered it) = ground arith
    weight-one reverting = ground arith
    weight-one reverted = ground arith

module _ {ℓ} {A : Type ℓ} where
  pub get_or-set_ne :
      (xs : List A) (i j : ℕ) (v d : A) → i ≢ j → get_or (set xs i v) j d ≡ get_or xs j d
  get_or-set_ne [] i j v d k = refl
  get_or-set_ne (x ∷ xs) zero zero v d k = absurd (k refl)
  get_or-set_ne (x ∷ xs) zero (suc j) v d k = refl
  get_or-set_ne (x ∷ xs) (suc i) zero v d k = refl
  get_or-set_ne (x ∷ xs) (suc i) (suc j) v d k = get_or-set_ne xs i j v d (λ e. k (ap suc e))

pub zeros-all_idle :
    (n : ℕ)
    → FitsAll (zeros n) (all_idle n)
      × (weights (zeros n) (all_idle n) ≡ n)
      × (length (zeros n) ≡ n)
      × ((j : ℕ) → (get_or (zeros n) j 0 ≡ 0) × (get_or (all_idle n) j idle ≡ idle))
unfolding zeros all_idle
zeros-all_idle zero = (tt, refl, refl, λ j. (refl, refl))
zeros-all_idle (suc n) =
    let rest = zeros-all_idle n in
    ((omega arith, rest.0), omega (arith, rest.1), ap suc rest.2, at rest.3)
  where
    at :
        ((j : ℕ) → (get_or (zeros n) j 0 ≡ 0) × (get_or (all_idle n) j idle ≡ idle))
        → (j : ℕ) → (get_or (zeros (suc n)) j 0 ≡ 0) × (get_or (all_idle (suc n)) j idle ≡ idle)
    at rest zero = (refl, refl)
    at rest (suc j) = rest j
