-- ===== src/Time/Order.antt =====
-- The order of gears/Time.hpp is the order of the microseconds.
use litemq.Prelude.{◌+◌, ◌*◌, ◌≡◌, true, false, arith}
use litemq.Prelude.Int.{ℤ, pos, pos_part, neg_part, ◌*ℤ◌, ltb_ℤ, +ℤ_parts}
use litemq.Time.{Time, IsNormal, lt, le, microseconds}

pub scale_parts :
    (a : ℤ)
    → (pos_part (a *ℤ pos 1000000) ≡ pos_part a * 1000000)
      × (neg_part (a *ℤ pos 1000000) ≡ neg_part a * 1000000)
unfolding ◌*ℤ◌
scale_parts a = ground arith

pub microseconds_parts :
    (t : Time)
    → pos_part (microseconds t) + neg_part t.tv_sec * 1000000 + neg_part t.tv_usec
      ≡ neg_part (microseconds t) + pos_part t.tv_sec * 1000000 + pos_part t.tv_usec
unfolding microseconds
microseconds_parts t =
    omega (arith, scale_parts t.tv_sec, +ℤ_parts (t.tv_sec *ℤ pos 1000000) t.tv_usec)

-- `operator <` compares normalised times by their microseconds.
lt-microseconds :
    (a b : Time) → IsNormal a → IsNormal b → lt a b ≡ ltb_ℤ (microseconds a) (microseconds b)
unfolding lt
lt-microseconds a b na nb = ground (arith, microseconds_parts a, microseconds_parts b)

pub le_refl : (a : Time) → le a a ≡ true
unfolding le lt
le_refl a = ground arith

pub le_trans : (a b c : Time) → le a b ≡ true → le b c ≡ true → le a c ≡ true
unfolding le lt
le_trans a b c h k = ground arith

pub le_total : (a b : Time) → le a b ≡ false → le b a ≡ true
unfolding le lt
le_total a b h = ground arith
