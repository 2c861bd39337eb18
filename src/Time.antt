-- ===== src/Time.antt =====
-- gears/Time.hpp: the class Time (a `timeval`), its order and its arithmetic. Seconds and
-- microseconds are signed and exact: overflow of `time_t` is undefined in the source.
pub mod Order
pub mod Arithmetic
pub mod Scaling
pub mod Calendar
pub mod Extended
pub mod Format
pub mod Parse
mod Examples
use litemq.Prelude.{ℕ, suc, ◌<◌, ◌≡◌, Bool, true, false, not, ◌&&◌, ◌||◌, if◌then◌else◌}
use litemq.Prelude.Int.{
  ℤ, pos, negsuc, pos_part, neg_part, ltb_ℤ, eqb_ℤ, ◌+ℤ◌, ◌-ℤ◌, ◌*ℤ◌, tdiv_ℤ, tmod_ℤ,
}

pub record Time : Type 0 where
  pub tv_sec : ℤ
  pub tv_usec : ℤ

abbrev pub usec_max : ℕ
usec_max = 1000000

abbrev pub zero_time : Time
zero_time = record { tv_sec = pos 0; tv_usec = pos 0 }

-- The class comment: the microseconds are a fraction of a second.
pub record IsNormal (t : Time) : Type 0 where
  pub not_negative : neg_part t.tv_usec ≡ 0
  pub below_second : pos_part t.tv_usec < usec_max

-- `operator ==`, `!=`, `<`, `>`, `<=`, `>=`
unfoldable pub eq : Time → Time → Bool
eq a b = eqb_ℤ a.tv_sec b.tv_sec && eqb_ℤ a.tv_usec b.tv_usec

unfoldable pub ne : Time → Time → Bool
unfolding eq
ne a b = not (eq a b)

unfoldable pub lt : Time → Time → Bool
lt a b = ltb_ℤ a.tv_sec b.tv_sec || (eqb_ℤ a.tv_sec b.tv_sec && ltb_ℤ a.tv_usec b.tv_usec)

unfoldable pub gt : Time → Time → Bool
unfolding lt
gt a b = lt b a

unfoldable pub le : Time → Time → Bool
unfolding lt
le a b = not (lt b a)

unfoldable pub ge : Time → Time → Bool
unfolding lt
ge a b = not (lt a b)

-- `Time::microseconds`
unfoldable pub microseconds : Time → ℤ
microseconds t = t.tv_sec *ℤ pos usec_max +ℤ t.tv_usec

-- `Time::set`
unfoldable pub set : ℤ → ℤ → Time
set sec usec = record { tv_sec = sec; tv_usec = usec }

unfoldable pub negate : Time → Time
unfolding set
negate t =
    if eqb_ℤ t.tv_usec (pos 0)
    then set (pos 0 -ℤ t.tv_sec) (pos 0)
    else set (pos 0 -ℤ t.tv_sec -ℤ pos 1) (pos usec_max -ℤ t.tv_usec)

unfoldable pub abs_time : Time → Time
unfolding negate
abs_time t = if ltb_ℤ t.tv_sec (pos 0) then negate t else t

unfoldable pub add : Time → Time → Time
unfolding set
add a b =
    if ltb_ℤ (a.tv_usec +ℤ b.tv_usec) (pos usec_max)
    then set (a.tv_sec +ℤ b.tv_sec) (a.tv_usec +ℤ b.tv_usec)
    else set (a.tv_sec +ℤ b.tv_sec +ℤ pos 1) (a.tv_usec +ℤ b.tv_usec -ℤ pos usec_max)

unfoldable pub add_seconds : Time → ℤ → Time
unfolding set
add_seconds t s = set (t.tv_sec +ℤ s) t.tv_usec

unfoldable pub sub : Time → Time → Time
unfolding set
sub a b =
    if ltb_ℤ a.tv_usec b.tv_usec
    then set (a.tv_sec -ℤ b.tv_sec -ℤ pos 1) (pos usec_max +ℤ a.tv_usec -ℤ b.tv_usec)
    else set (a.tv_sec -ℤ b.tv_sec) (a.tv_usec -ℤ b.tv_usec)

unfoldable pub sub_seconds : Time → ℤ → Time
unfolding set
sub_seconds t s = set (t.tv_sec -ℤ s) t.tv_usec

-- `Helper::abs`
abbrev pub abs_int : ℤ → ℤ
abs_int (pos n) = pos n
abs_int (negsuc n) = pos (suc n)

-- `Helper::mul`
unfoldable pub mul_helper : Time → ℤ → Time
unfolding set
mul_helper t m =
    set (t.tv_sec *ℤ m +ℤ tdiv_ℤ (t.tv_usec *ℤ m) usec_max) (tmod_ℤ (t.tv_usec *ℤ m) usec_max)

-- `(tv.tv_sec < 0) == (multiplier < 0) ? result : -result`
unfoldable pub with_sign : Bool → Bool → Time → Time
unfolding negate
with_sign true true t = t
with_sign false false t = t
with_sign _ _ t = negate t

-- `operator *`
unfoldable pub mul : Time → ℤ → Time
unfolding mul_helper abs_time with_sign
mul t m = with_sign (ltb_ℤ t.tv_sec (pos 0)) (ltb_ℤ m (pos 0)) (mul_helper (abs_time t) (abs_int m))

-- `Time::Print` and `Time::print`
pub record Print : Type 0 where
  pub sign : ℤ
  pub integer_part : ℤ
  pub fractional_part : ℤ

unfoldable pub print : Time → Print
print t =
    if ltb_ℤ (pos 0) t.tv_sec
    then record { sign = pos 1; integer_part = t.tv_sec; fractional_part = t.tv_usec }
    else if eqb_ℤ t.tv_sec (pos 0)
    then if eqb_ℤ t.tv_usec (pos 0)
      then record { sign = pos 0; integer_part = pos 0; fractional_part = pos 0 }
      else record { sign = pos 1; integer_part = pos 0; fractional_part = t.tv_usec }
    else if eqb_ℤ t.tv_usec (pos 0)
    then record { sign = negsuc 0; integer_part = pos 0 -ℤ t.tv_sec; fractional_part = pos 0 }
    else record {
      sign = negsuc 0;
      integer_part = pos 0 -ℤ t.tv_sec -ℤ pos 1;
      fractional_part = pos usec_max -ℤ t.tv_usec;
    }
