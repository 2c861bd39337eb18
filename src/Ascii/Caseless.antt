-- ===== src/Ascii/Caseless.antt =====
-- `Caseless` of gears/AsciiStringManip.hpp, whose string is `self`.
pub mod Same
pub mod Agreement
use litemq.Prelude.{
  ℕ, zero, suc, ◌≤◌, ◌<◌, ◌≡◌, inl, inr, refl, sym, ap, subst, ◌∙◌, Bool, true, false, not, ◌&&◌,
  ◌||◌, if◌then◌else◌, ltb, ◌==◌, min, List, [], ◌∷◌, map, length, take, length-take, take_all, All,
  Bool-cases, arith,
}
use litemq.Prelude.Int.{ℤ, pos, negsuc, ◌-ℤ◌, sub_ℕ}
use litemq.SubString.{is_zero}
use litemq.SubString.Searching.{starts}
use litemq.Ascii.{
  to_lower, signed, by_length, compare_loop, compare_caseless, equal_loop, equal_caseless,
  equal_caseless_c_string,
}

unfoldable pub compare : Bool → List ℕ → List ℕ → ℤ
unfolding compare_loop
compare shared self str =
    let result = compare_loop self str in
    if not shared && not (min (length self) (length str) == 0) && not (is_zero result)
    then result
    else by_length (length self) (length str)

unfoldable pub equal : Bool → List ℕ → List ℕ → Bool
unfolding equal_loop
equal shared self str =
    if not (length str == length self)
    then false
    else if shared || length str == 0
    then true
    else equal_loop str self

unfoldable pub start : Bool → List ℕ → List ℕ → Bool
unfolding equal
start shared self str = equal shared self (take (length self) str)
