-- ===== src/Time/Arithmetic.antt =====
-- The arithmetic of gears/Time.hpp against sums and differences of microseconds.
use litemq.Prelude.{◌≡◌, inl, inr, Bool-cases, ==_iff, arith}
use litemq.Prelude.Int.{pos, ◌+ℤ◌, ◌-ℤ◌, ltb_ℤ, eqb_ℤ, int_laws}
use litemq.Time.{Time, IsNormal, add, sub, negate, set, microseconds, usec_max}
use litemq.Time.Order.{microseconds_parts}

-- A branch that sets normalised fields has the value that its two parts give.
module _ (a b : Time) where
  microseconds-add_sum :
      microseconds (set (a.tv_sec +ℤ b.tv_sec) (a.tv_usec +ℤ b.tv_usec))
      ≡ microseconds a +ℤ microseconds b
  unfolding set
  microseconds-add_sum = omega (int_laws, microseconds_parts)

  microseconds-add_carry :
      microseconds (set (a.tv_sec +ℤ b.tv_sec +ℤ pos 1) (a.tv_usec +ℤ b.tv_usec -ℤ pos usec_max))
      ≡ microseconds a +ℤ microseconds b
  unfolding set
  microseconds-add_carry = omega (int_laws, microseconds_parts)

  microseconds-sub_difference :
      microseconds (set (a.tv_sec -ℤ b.tv_sec) (a.tv_usec -ℤ b.tv_usec))
      ≡ microseconds a -ℤ microseconds b
  unfolding set
  microseconds-sub_difference = omega (int_laws, microseconds_parts)

  microseconds-sub_borrow :
      microseconds (set (a.tv_sec -ℤ b.tv_sec -ℤ pos 1) (pos usec_max +ℤ a.tv_usec -ℤ b.tv_usec))
      ≡ microseconds a -ℤ microseconds b
  unfolding set
  microseconds-sub_borrow = omega (int_laws, microseconds_parts)

add-IsNormal : (a b : Time) → IsNormal a → IsNormal b → IsNormal (add a b)
unfolding add ◌+ℤ◌ ◌-ℤ◌
add-IsNormal a b na nb = ground arith

sub-IsNormal : (a b : Time) → IsNormal a → IsNormal b → IsNormal (sub a b)
unfolding sub ◌+ℤ◌ ◌-ℤ◌
sub-IsNormal a b na nb = ground arith

-- For normalised times `operator +` and `operator -` on two times are the sum and the difference
-- of the microseconds, and their results are normalised.
pub add-sub_lem :
    (a b : Time)
    → IsNormal a
    → IsNormal b
    → (microseconds (add a b) ≡ microseconds a +ℤ microseconds b)
      × (microseconds (sub a b) ≡ microseconds a -ℤ microseconds b)
      × IsNormal (add a b)
      × IsNormal (sub a b)
unfolding add sub
add-sub_lem a b na nb = (
  elim (Bool-cases (ltb_ℤ (a.tv_usec +ℤ b.tv_usec) (pos usec_max))) [
    | inl e ↦ rw e (microseconds-add_sum a b)
    | inr e ↦ rw e (microseconds-add_carry a b)
  ],
  elim (Bool-cases (ltb_ℤ a.tv_usec b.tv_usec)) [
    | inl e ↦ rw e (microseconds-sub_borrow a b)
    | inr e ↦ rw e (microseconds-sub_difference a b)
  ],
  add-IsNormal a b na nb,
  sub-IsNormal a b na nb,
)

negate-IsNormal : (t : Time) → IsNormal t → IsNormal (negate t)
unfolding negate ◌-ℤ◌
negate-IsNormal t n = ground arith

pub microseconds-negate : (t : Time) → microseconds (negate t) ≡ pos 0 -ℤ microseconds t
unfolding negate
microseconds-negate t = elim (Bool-cases (eqb_ℤ t.tv_usec (pos 0))) [
  | inl e ↦ let z = (==_iff _ _).0 e in rw e (omega (int_laws, microseconds_parts, z))
  | inr e ↦ rw e (omega (int_laws, microseconds_parts))
]

-- `-t` of a normalised time is the opposite number of microseconds, and normalised.
negate_lem :
    (t : Time)
    → IsNormal t
    → (microseconds (negate t) ≡ pos 0 -ℤ microseconds t) × IsNormal (negate t)
negate_lem t n = (microseconds-negate t, negate-IsNormal t n)
