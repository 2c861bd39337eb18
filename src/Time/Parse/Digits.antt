-- ===== src/Time/Parse/Digits.antt =====
-- The numbers of a fixed number of digits: what `add_num` writes is what `read_number` reads.
use litemq.Prelude.{
  ℕ, zero, suc, ◌+◌, ◌-◌, ◌*◌, ◌/◌, ◌%◌, ◌^◌, ◌≤◌, ◌<◌, ◌≡◌, ◌≢◌, inl, inr, refl, sym, ap, subst,
  ◌∙◌, true, false, ltb, min, some, List, [], ◌∷◌, ◌++◌, append_assoc, length, length-append,
  Bool-cases, arith,
}
use litemq.Time.Format.{padded}
use litemq.Time.Parse.{is_number, read_digits, read_number}

digit_IsNumber : (n : ℕ) → is_number (n % 10 + b'0') ≡ true
digit_IsNumber n = ground arith

power_suc : (k : ℕ) → 10 ^ suc k ≡ 10 * 10 ^ k
power_suc k = omega arith

times_power_suc : (a k : ℕ) → a * 10 ^ suc k ≡ 10 * (a * 10 ^ k)
times_power_suc a k = rw (power_suc k) (exchanged a (10 ^ k))
  where
    exchanged : (a p : ℕ) → a * (10 * p) ≡ 10 * (a * p)
    exchanged a p = omega arith

read_digits-padded :
    (k j acc n : ℕ) (rest : List ℕ)
    → n < 10 ^ k
    → read_digits (k + j) acc (padded k n ++ rest) ≡ read_digits j (acc * 10 ^ k + n) rest
unfolding read_digits padded
read_digits-padded zero j acc n rest h =
    let same : acc ≡ acc * 10 ^ zero + n = omega (arith, h) in
    let none_read : zero + j ≡ j = omega arith in rw none_read (ap (λ a. read_digits j a rest) same)
read_digits-padded (suc k) j acc n rest h =
    let d = n % 10 + b'0' in
    let swap : suc k + j ≡ k + suc j = omega arith in
    let value : (acc * 10 ^ k + n / 10) * 10 + (d - b'0') ≡ acc * 10 ^ suc k + n =
      omega (arith, times_power_suc acc k) in
    let step : read_digits (suc j) (acc * 10 ^ k + n / 10) (d ∷ rest)
        ≡ read_digits j (acc * 10 ^ suc k + n) rest =
      rw (digit_IsNumber n, value) refl in
    rw (swap, append_assoc (padded k (n / 10)) (d ∷ []) rest)
      (read_digits-padded k (suc j) acc (n / 10) (d ∷ rest) (omega (arith, h, power_suc k)) ∙ step)

pub length-padded : (k n : ℕ) → length (padded k n) ≡ k
unfolding padded
length-padded zero n = refl
length-padded (suc k) n =
    omega
      (arith, length-append (padded k (n / 10)) ((n % 10 + b'0') ∷ []), length-padded k (n / 10))

-- A number whose digits are read, where as many characters are left.
read_number-read_digits :
    (k n : ℕ) (src rest : List ℕ)
    → 1 ≤ k
    → k ≤ length src
    → read_digits k 0 src ≡ (0, n, rest)
    → read_number k true src ≡ some (n, rest)
unfolding read_number read_digits
read_number-read_digits k n [] rest h l e = absurd (omega (arith, h, l))
read_number-read_digits zero n (c ∷ src) rest h l e = absurd (omega (arith, h))
read_number-read_digits (suc k) n (c ∷ src) rest h l e =
    let least : min (suc k) (length (c ∷ src)) ≡ suc k = omega (arith, l) in
    let enough : ltb (length (c ∷ src)) (suc k) ≡ false = not_ltb (length (c ∷ src)) (suc k) l in
    elim (Bool-cases (is_number c)) [
      | inl f ↦ rw (least, e, enough, f) refl
      | inr f ↦ absurd (refused k c src n rest f e)
    ]
  where
    not_ltb : (a b : ℕ) → b ≤ a → ltb a b ≡ false
    not_ltb a b h = ground arith

    refused :
        (k c : ℕ) (src : List ℕ) (n : ℕ) (rest : List ℕ)
        → is_number c ≡ false
        → read_digits (suc k) 0 (c ∷ src) ≢ (0, n, rest)
    refused k c src n rest f e =
        let stuck : read_digits (suc k) 0 (c ∷ src) ≡ (suc k, 0, c ∷ src) = rw f refl in
        let none_left : suc k ≡ 0 = ap (λ r. r.0) (sym stuck ∙ e) in omega (arith, none_left)

pub read_number-padded :
    (k n : ℕ) (rest : List ℕ)
    → 1 ≤ k
    → n < 10 ^ k
    → read_number k true (padded k n ++ rest) ≡ some (n, rest)
unfolding read_digits
read_number-padded k n rest h l =
    let whole : k + 0 ≡ k = omega arith in
    let read : read_digits k 0 (padded k n ++ rest) ≡ (0, 0 * 10 ^ k + n, rest) =
      subst (λ m. read_digits m 0 (padded k n ++ rest) ≡ (0, 0 * 10 ^ k + n, rest)) whole
        (read_digits-padded k 0 0 n rest l) in
    let value : 0 * 10 ^ k + n ≡ n = omega arith in
    read_number-read_digits k n (padded k n ++ rest) rest h
      (omega (arith, length-append (padded k n) rest, length-padded k n))
      (read ∙ ap (λ m. (0, m, rest)) value)
