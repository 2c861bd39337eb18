-- ===== src/Time/Scaling.antt =====
-- The product of a time and an `int`, gears/Time.hpp.
use litemq.Prelude.{
  ℕ, zero, suc, ◌+◌, ◌-◌, ◌*◌, ◌/◌, ◌%◌, ◌≡◌, refl, ap, sym, ◌∙◌, Bool, true, false, arith,
}
use litemq.Prelude.Int.{ℤ, pos, negsuc, ◌*ℤ◌, ◌+ℤ◌, ◌-ℤ◌, ltb_ℤ, int_laws, tdiv_ℤ, tmod_ℤ}
use litemq.Time.{
  Time, IsNormal, negate, set, abs_time, abs_int, with_sign, mul, mul_helper, microseconds,
  usec_max,
}
use litemq.Time.Arithmetic.{microseconds-negate}

pos-mul : (a b : ℕ) → pos a *ℤ pos b ≡ pos (a * b)
unfolding ◌*ℤ◌
pos-mul a b = ground arith

pos-add : (a b : ℕ) → pos a +ℤ pos b ≡ pos (a + b)
unfolding ◌+ℤ◌
pos-add a b = ground arith

microseconds-set_pos : (s u : ℕ) → microseconds (set (pos s) (pos u)) ≡ pos (s * usec_max + u)
unfolding microseconds set
microseconds-set_pos s u = rw (pos-mul s usec_max, pos-add (s * usec_max) u)

mul_helper_pos :
    (s u n : ℕ)
    → mul_helper (set (pos s) (pos u)) (pos n)
      ≡ set (pos (s * n + u * n / usec_max)) (pos (u * n % usec_max))
unfolding mul_helper set tdiv_ℤ tmod_ℤ
mul_helper_pos s u n = rw (pos-mul s n, pos-mul u n, pos-add (s * n) (u * n / usec_max))

microseconds-mul_helper :
    (s u n : ℕ)
    → microseconds (mul_helper (set (pos s) (pos u)) (pos n))
      ≡ microseconds (set (pos s) (pos u)) *ℤ pos n
microseconds-mul_helper s u n =
    ap microseconds (mul_helper_pos s u n)
    ∙ microseconds-set_pos (s * n + u * n / usec_max) (u * n % usec_max)
    ∙ ap pos (scaled s u n)
    ∙ sym (pos-mul (s * usec_max + u) n)
    ∙ ap (λ x. x *ℤ pos n) (sym (microseconds-set_pos s u))
  where
    scaled :
        (s u n : ℕ)
        → (s * n + u * n / usec_max) * usec_max + u * n % usec_max ≡ (s * usec_max + u) * n
    scaled s u n = omega arith

neg-mul : (a b : ℤ) → (pos 0 -ℤ a) *ℤ b ≡ pos 0 -ℤ a *ℤ b
unfolding ◌*ℤ◌ ◌-ℤ◌
neg-mul a b = ground arith

mul-negsuc : (a : ℤ) (n : ℕ) → a *ℤ negsuc n ≡ pos 0 -ℤ a *ℤ pos (suc n)
unfolding ◌*ℤ◌ ◌-ℤ◌
mul-negsuc a n = ground arith

neg-neg : (a : ℤ) → pos 0 -ℤ (pos 0 -ℤ a) ≡ a
neg-neg a = omega int_laws

-- The absolute value has no negative part.
abs_time_pos :
    (s u : ℤ) → IsNormal (set s u) → (a : ℕ) × (b : ℕ) × (abs_time (set s u) ≡ set (pos a) (pos b))
unfolding abs_time set ◌-ℤ◌
abs_time_pos (pos s) (pos u) n = (s, u, ground arith)
abs_time_pos (negsuc s) (pos zero) n = (suc s, 0, ground arith)
abs_time_pos (negsuc s) (pos (suc u)) n = (s, usec_max - suc u, ground arith)
abs_time_pos (pos s) (negsuc u) n = absurd (omega (arith, n.not_negative))
abs_time_pos (negsuc s) (negsuc u) n = absurd (omega (arith, n.not_negative))

mul_helper-abs_time :
    (t : Time) (n : ℕ)
    → IsNormal t
    → microseconds (mul_helper (abs_time t) (pos n)) ≡ microseconds (abs_time t) *ℤ pos n
unfolding set
mul_helper-abs_time t n v =
    let (a, b, e) = abs_time_pos t.tv_sec t.tv_usec v in
    ap (λ x. microseconds (mul_helper x (pos n))) e
    ∙ microseconds-mul_helper a b n
    ∙ ap (λ x. microseconds x *ℤ pos n) (sym e)

abs_time-same : (t : Time) → ltb_ℤ t.tv_sec (pos 0) ≡ false → abs_time t ≡ t
unfolding abs_time
abs_time-same t e = rw e

abs_time-negate : (t : Time) → ltb_ℤ t.tv_sec (pos 0) ≡ true → abs_time t ≡ negate t
unfolding abs_time
abs_time-negate t e = rw e

not_negative : (n : ℕ) → ltb_ℤ (pos n) (pos 0) ≡ false
not_negative n = ground arith

negative : (n : ℕ) → ltb_ℤ (negsuc n) (pos 0) ≡ true
negative n = ground arith

-- By the signs of the time and the multiplier.
microseconds-with_sign :
    (t : Time) (m : ℤ) (below : Bool)
    → IsNormal t
    → ltb_ℤ t.tv_sec (pos 0) ≡ below
    → microseconds (with_sign below (ltb_ℤ m (pos 0)) (mul_helper (abs_time t) (abs_int m)))
      ≡ microseconds t *ℤ m
unfolding with_sign
microseconds-with_sign t (pos n) false v e =
    rw (not_negative n)
      (mul_helper-abs_time t n v ∙ ap (λ x. microseconds x *ℤ pos n) (abs_time-same t e))
microseconds-with_sign t (negsuc n) false v e = rw (negative n) (
    microseconds-negate (mul_helper (abs_time t) (pos (suc n)))
    ∙ ap (λ x. pos 0 -ℤ x)
        (mul_helper-abs_time t (suc n) v
          ∙ ap (λ x. microseconds x *ℤ pos (suc n)) (abs_time-same t e))
    ∙ sym (mul-negsuc (microseconds t) n))
microseconds-with_sign t (pos n) true v e =
    let signed = microseconds (abs_time t) in
    let flip : signed ≡ pos 0 -ℤ microseconds t =
      ap microseconds (abs_time-negate t e) ∙ microseconds-negate t in
    rw (not_negative n) (
      microseconds-negate (mul_helper (abs_time t) (pos n))
      ∙ ap (λ x. pos 0 -ℤ x)
          (mul_helper-abs_time t n v ∙ ap (λ x. x *ℤ pos n) flip ∙ neg-mul (microseconds t) (pos n))
      ∙ neg-neg (microseconds t *ℤ pos n))
microseconds-with_sign t (negsuc n) true v e =
    let flip : microseconds (abs_time t) ≡ pos 0 -ℤ microseconds t =
      ap microseconds (abs_time-negate t e) ∙ microseconds-negate t in
    rw (negative n) (
      mul_helper-abs_time t (suc n) v
      ∙ ap (λ x. x *ℤ pos (suc n)) flip
      ∙ neg-mul (microseconds t) (pos (suc n))
      ∙ sym (mul-negsuc (microseconds t) n))

-- A normalised time multiplied by an integer of either sign has the product of the microseconds.
pub microseconds-mul :
    (t : Time) (m : ℤ) → IsNormal t → microseconds (mul t m) ≡ microseconds t *ℤ m
unfolding mul
microseconds-mul t m v = microseconds-with_sign t m (ltb_ℤ t.tv_sec (pos 0)) v refl
