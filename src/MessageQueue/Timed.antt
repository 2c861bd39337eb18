-- ===== src/MessageQueue/Timed.antt =====
-- `timed_messages_`: the multimap keeps its keys in order, so that `upper_bound` cuts it into the
-- entries that are due and the others.
use litemq.Prelude.{
  ◌≡◌, refl, sym, ap, inl, inr, Bool, true, not, Bool-cases, List, [], ◌∷◌, map, All, All-map,
  select, select-All, select_none, arith,
}
use litemq.Time.{Time, lt, le}
use litemq.MessageQueue.{Holder, due, after}

abbrev pub Entry : Type 0
Entry = Time × Holder

abbrev pub IsSorted : List Entry → Type 0
IsSorted [] = Unit {0}
IsSorted ((t, h) ∷ rest) = All (λ e. le t e.0 ≡ true) rest × IsSorted rest

abbrev pub is_due : Time → Entry → Bool
is_due time e = not (lt time e.0)

lt_of_lt_of_le : (s t u : Time) → lt s t ≡ true → le t u ≡ true → lt s u ≡ true
unfolding le lt
lt_of_lt_of_le s t u h k = ground arith

-- `upper_bound` gives the entries that are not later than the time, and those that are.
pub due-select :
    (time : Time) (m : List Entry)
    → IsSorted m
    → (due time m ≡ map (λ e. e.1) (select (is_due time) m))
      × (after time m ≡ select (λ e. lt time e.0) m)
unfolding due after
due-select time [] s = (refl, refl)
due-select time ((t, h) ∷ m) s = elim (Bool-cases (lt time t)) [
  | inl e ↦
      let later : All (λ (x : Entry). lt time x.0 ≡ true) m =
        All-map _ _ (λ x k. lt_of_lt_of_le time t x.0 e k) m s.0 in
      rw e (
        ap (map (λ (x : Entry). x.1))
            (sym (select_none (is_due time) m (All-map _ _ (λ x k. ap not k) m later))),
        ap (◌∷◌ (t, h)) (sym (select-All (λ x. lt time x.0) m later)),
      )
  | inr e ↦ let rest = due-select time m s.1 in rw e (ap (◌∷◌ h) rest.0, rest.1)
]
