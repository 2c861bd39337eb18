-- ===== src/ActiveObject/Calls.antt =====
-- The calls that the loops over the children of a composite make, in their order.
use litemq.Prelude.{
  ℕ, ◌≡◌, refl, sym, ap, ◌∙◌, inl, inr, arith, Bool, true, false, if◌then◌else◌, ◌==◌, ==_iff,
  Option, none, some, List, [], ◌∷◌, ◌++◌, append-nil, append_assoc, map, Bool-cases, subst,
}
use litemq.ActiveObject.{
  ActiveState, not_active, active, deactivating, Hook, deactivate_hook, wait_hook, Objects, called,
  deactivate_at, deactivate, wait_at, wait, and_also, then_more, wait_for_some, deactivate_one,
  deactivate_each,
}
use litemq.ActiveObject.Changes.{mem}

abbrev pub IsDistinct : List ℕ → Type 0
IsDistinct [] = Unit {0}
IsDistinct (c ∷ cs) = (mem c cs ≡ false) × IsDistinct cs

abbrev pub AllActive : List ℕ → Objects → Type 0
AllActive cs s = (id : ℕ) → mem id cs ≡ true → s.states id ≡ active

abbrev pub each : Hook → List ℕ → List (ℕ × Hook)
each hook cs = map (λ c. (c, hook)) cs

-- the calls that a run has made, where it returns
abbrev pub Called : List (ℕ × Hook) → Option (Bool × Objects) → Type 0
Called calls none = Unit {0}
Called calls (some (ok, t)) = t.calls ≡ calls

and_also-Called :
    (calls : List (ℕ × Hook)) (ok : Bool) (run : Option (Bool × Objects))
    → Called calls run
    → Called calls (and_also ok run)
unfolding and_also
and_also-Called calls ok none h = tt
and_also-Called calls ok (some (rest, t)) h = h

wait_at-Called :
    (state : ActiveState) (c : ℕ) (s : Objects)
    → Called (s.calls ++ ((c, wait_hook) ∷ [])) (wait_at state c s)
unfolding wait_at
wait_at-Called active c s = tt
wait_at-Called deactivating c s = elim (Bool-cases (s.throws (called c wait_hook s).calls)) [
  | inl e ↦ rw e refl
  | inr e ↦ rw e refl
]
wait_at-Called not_active c s = elim (Bool-cases (s.throws (called c wait_hook s).calls)) [
  | inl e ↦ rw e refl
  | inr e ↦ rw e refl
]

then_more-Called :
    (calls first : List (ℕ × Hook)) (more : Objects → Option (Bool × Objects))
    (run : Option (Bool × Objects))
    → Called first run
    → ((t : Objects) → t.calls ≡ first → Called calls (more t))
    → Called calls (then_more more run)
unfolding then_more
then_more-Called calls first more none h k = tt
then_more-Called calls first more (some (ok, t)) h k = and_also-Called calls ok (more t) (k t h)

pub wait_for_some-Called :
    (cs : List ℕ) (s : Objects) → Called (s.calls ++ each wait_hook cs) (wait_for_some cs s)
unfolding wait_for_some wait
wait_for_some-Called [] s = sym (append-nil s.calls)
wait_for_some-Called (c ∷ cs) s =
    then_more-Called (s.calls ++ each wait_hook (c ∷ cs)) (s.calls ++ ((c, wait_hook) ∷ []))
      (wait_for_some cs) (wait_at (s.states c) c s) (wait_at-Called (s.states c) c s)
      (λ t e.
        subst (λ calls. Called calls (wait_for_some cs t))
          (ap (λ calls. calls ++ each wait_hook cs) e
            ∙ append_assoc s.calls ((c, wait_hook) ∷ []) (each wait_hook cs))
          (wait_for_some-Called cs t))

deactivate_one-async : (c : ℕ) (s : Objects) → deactivate_one false c s ≡ some (deactivate c s)
unfolding deactivate_one
deactivate_one-async c s = elim (Bool-cases (deactivate c s).0) [
  | inl e ↦ rw e (ap (λ ok. some (ok, (deactivate c s).1)) (sym e))
  | inr e ↦ rw e (ap (λ ok. some (ok, (deactivate c s).1)) (sym e))
]

-- an active object that is deactivated is called, and no other one changes
deactivate-calls :
    (c : ℕ) (s : Objects)
    → s.states c ≡ active
    → (deactivate c s).1.calls ≡ s.calls ++ ((c, deactivate_hook) ∷ [])
unfolding deactivate deactivate_at
deactivate-calls c s e = elim (Bool-cases (s.throws (s.calls ++ ((c, deactivate_hook) ∷ [])))) [
  | inl k ↦ rw (e, k)
  | inr k ↦ rw (e, k)
]

deactivate-states :
    (c id : ℕ) (s : Objects)
    → s.states c ≡ active
    → (id == c) ≡ false
    → (deactivate c s).1.states id ≡ s.states id
unfolding deactivate deactivate_at
deactivate-states c id s e other =
    elim (Bool-cases (s.throws (s.calls ++ ((c, deactivate_hook) ∷ [])))) [
      | inl k ↦ rw (e, k, other)
      | inr k ↦ rw (e, k, other)
    ]

AllActive-tail :
    (c : ℕ) (cs : List ℕ) (s : Objects)
    → AllActive (c ∷ cs) s
    → mem c cs ≡ false
    → AllActive cs (deactivate c s).1
AllActive-tail c cs s h fresh id k =
    let first : s.states c ≡ active = at_first in
    elim (Bool-cases (id == c)) [
      | inl same ↦
          let bad : false ≡ true =
            sym fresh ∙ ap (λ i. mem i cs) (sym ((==_iff id c).0 same)) ∙ k in
          absurd (ground (arith, bad))
      | inr other ↦
          deactivate-states c id s first other
          ∙ h id (ap (λ p. if p then true else mem id cs) other ∙ k)
    ]
  where
    at_first : s.states c ≡ active
    at_first =
        let same : (c == c) ≡ true = ground arith in
        h c (ap (λ p. if p then true else mem c cs) same)

pub deactivate_each-Called :
    (cs : List ℕ) (s : Objects)
    → AllActive cs s
    → IsDistinct cs
    → Called (s.calls ++ each deactivate_hook cs) (deactivate_each false cs s)
unfolding deactivate_each then_more
deactivate_each-Called [] s h d = sym (append-nil s.calls)
deactivate_each-Called (c ∷ cs) s h (fresh, d) =
    let t : Objects = (deactivate c s).1 in
    rw (deactivate_one-async c s) (
      and_also-Called (s.calls ++ each deactivate_hook (c ∷ cs)) (deactivate c s).0
        (deactivate_each false cs t)
        (subst (λ calls. Called calls (deactivate_each false cs t))
          (ap (λ calls. calls ++ each deactivate_hook cs) (deactivate-calls c s first)
            ∙ append_assoc s.calls ((c, deactivate_hook) ∷ []) (each deactivate_hook cs))
          (deactivate_each-Called cs t (AllActive-tail c cs s h fresh) d)))
  where
    first : s.states c ≡ active
    first =
        let same : (c == c) ≡ true = ground arith in
        h c (ap (λ p. if p then true else mem c cs) same)
