-- ===== src/ActiveObject/Stopping.antt =====
-- What `deactivate_object` and `wait_object` come to where none of the calls throws.
use litemq.Prelude.{
  ℕ, ◌≡◌, ◌≢◌, refl, sym, ap, ◌∙◌, subst, arith, Bool, true, false, if◌then◌else◌, ◌==◌, Option,
  some, List, [], ◌∷◌, ◌++◌,
}
use litemq.ActiveObject.{
  CompositeActiveObject, reversed, deactivate_object, wait_object, ActiveState, not_active, active,
  deactivating, Hook, deactivate_hook, wait_hook, Objects, with_state, called, deactivate_at,
  deactivate, wait_at, wait, then_more, wait_for_some, deactivate_one, deactivate_each, wait_if,
  stop_each,
}
use litemq.ActiveObject.Changes.{
  mem, lower, rest, Went, one_state, same_state, Went-cons, rest_twice, rest-lower, Went-then,
  Went-change, lowered, lowered_twice, lower_not_active, at_head, NoneActive, NoneActive-tail,
  NoneActive-lowered,
}

pub record IsQuiet (throws : List (ℕ × Hook) → Bool) : Type 0 where
  pub deactivates :
      (calls : List (ℕ × Hook)) (c : ℕ) → throws (calls ++ ((c, deactivate_hook) ∷ [])) ≡ false
  pub waits : (calls : List (ℕ × Hook)) (c : ℕ) → throws (calls ++ ((c, wait_hook) ∷ [])) ≡ false

abbrev pub Goes : (ActiveState → ActiveState) → List ℕ → Objects → Option (Bool × Objects) → Type 0
Goes f cs s run = (t : Objects) × (run ≡ some (true, t)) × Went f cs s t

deactivate_at-quiet :
    (state : ActiveState) (c : ℕ) (s : Objects)
    → IsQuiet s.throws
    → s.states c ≡ state
    → (t : Objects) × (deactivate_at state c s ≡ (true, t)) × Went lower (c ∷ []) s t
unfolding deactivate_at
deactivate_at-quiet active c s q e = (
  called c deactivate_hook (with_state c deactivating s),
  rw (q.deactivates s.calls c),
  record { states = one_state lower c s deactivating (sym (ap lower e)); throws = refl },
)
deactivate_at-quiet deactivating c s q e =
    (s, refl, record { states = same_state lower c s (e ∙ sym (ap lower e)); throws = refl })
deactivate_at-quiet not_active c s q e =
    (s, refl, record { states = same_state lower c s (e ∙ sym (ap lower e)); throws = refl })

wait_at-quiet :
    (state : ActiveState) (c : ℕ) (s : Objects)
    → IsQuiet s.throws
    → s.states c ≡ state
    → state ≢ active
    → Goes rest (c ∷ []) s (wait_at state c s)
unfolding wait_at
wait_at-quiet active c s q e h = absurd (h refl)
wait_at-quiet deactivating c s q e h = (
  with_state c not_active (called c wait_hook s),
  rw (q.waits s.calls c),
  record { states = one_state rest c s not_active (sym (ap rest e)); throws = refl },
)
wait_at-quiet not_active c s q e h = (
  called c wait_hook s,
  rw (q.waits s.calls c),
  record { states = same_state rest c s (e ∙ sym (ap rest e)); throws = refl },
)

deactivate-quiet :
    (c : ℕ) (s : Objects)
    → IsQuiet s.throws
    → (t : Objects) × (deactivate c s ≡ (true, t)) × Went lower (c ∷ []) s t
unfolding deactivate
deactivate-quiet c s q = deactivate_at-quiet (s.states c) c s q refl

wait-quiet :
    (c : ℕ) (s : Objects) → IsQuiet s.throws → s.states c ≢ active → Goes rest (c ∷ []) s (wait c s)
unfolding wait
wait-quiet c s q h = wait_at-quiet (s.states c) c s q refl h

deactivate_one-quiet :
    (synchronous : Bool) (c : ℕ) (s : Objects)
    → IsQuiet s.throws
    → Goes (lowered synchronous) (c ∷ []) s (deactivate_one synchronous c s)
unfolding deactivate_one
deactivate_one-quiet false c s q = let (t, e, went) = deactivate-quiet c s q in (t, rw e, went)
deactivate_one-quiet true c s q =
    let (t, e, went) = deactivate-quiet c s q in
    let down : t.states c ≢ active =
      λ k. lower_not_active (s.states c) (sym (at_head lower c s t went) ∙ k) in
    let (u, e', went') = wait-quiet c t (subst IsQuiet (sym went.throws) q) down in
    (
      u,
      rw (e, e'),
      Went-change (λ state. rest (lower state)) (lowered true) (c ∷ []) s u rest-lower
          (Went-then lower rest (c ∷ []) s t u went went'),
    )

deactivate_each-quiet :
    (synchronous : Bool) (cs : List ℕ) (s : Objects)
    → IsQuiet s.throws
    → Goes (lowered synchronous) cs s (deactivate_each synchronous cs s)
unfolding deactivate_each then_more
deactivate_each-quiet synchronous [] s q = (s, refl, record { states = λ id. refl; throws = refl })
deactivate_each-quiet synchronous (c ∷ cs) s q =
    let (t, e, went) = deactivate_one-quiet synchronous c s q in
    let (u, e', went') =
      deactivate_each-quiet synchronous cs t (subst IsQuiet (sym went.throws) q) in
    (
      u,
      rw (e, e'),
      Went-cons (lowered synchronous) c cs s t u (lowered_twice synchronous) went went',
    )

wait_for_some-quiet :
    (cs : List ℕ) (s : Objects)
    → IsQuiet s.throws
    → NoneActive cs s
    → Goes rest cs s (wait_for_some cs s)
unfolding wait_for_some then_more
wait_for_some-quiet [] s q h = (s, refl, record { states = λ id. refl; throws = refl })
wait_for_some-quiet (c ∷ cs) s q h =
    let same : (c == c) ≡ true = ground arith in
    let (t, e, went) = wait-quiet c s q (h c (ap (λ p. if p then true else mem c cs) same)) in
    let (u, e', went') =
      wait_for_some-quiet cs t (subst IsQuiet (sym went.throws) q)
        (NoneActive-tail c cs s t h went) in
    (u, rw (e, e'), Went-cons rest c cs s t u rest_twice went went')

rest-lowered :
    (synchronous : Bool) (state : ActiveState) → rest (lowered synchronous state) ≡ not_active
rest-lowered true state = refl
rest-lowered false state = rest-lower state

-- Objects that are stopped, whatever their states: the calls return, those in the list are not
-- active, and no other object is touched.
pub stop_each-quiet :
    (synchronous : Bool) (cs : List ℕ) (s : Objects)
    → IsQuiet s.throws
    → Goes (λ state. not_active) cs s (stop_each synchronous cs s)
unfolding stop_each wait_if
stop_each-quiet synchronous cs s q =
    let (t, e, went) = deactivate_each-quiet synchronous cs s q in
    let (u, e', went') =
      wait_for_some-quiet cs t (subst IsQuiet (sym went.throws) q)
        (NoneActive-lowered synchronous cs s t went) in
    (
      u,
      rw (e, e'),
      Went-change (λ state. rest (lowered synchronous state)) (λ state. not_active) cs s u
          (rest-lowered synchronous) (Went-then (lowered synchronous) rest cs s t u went went'),
    )

mem-append :
    (id c : ℕ) (cs : List ℕ) → mem id (cs ++ (c ∷ [])) ≡ (if id == c then true else mem id cs)
mem-append id c [] = refl
mem-append id c (b ∷ cs) =
    swap (id == b) (id == c) (mem id cs) (mem id (cs ++ (c ∷ []))) (mem-append id c cs)
  where
    swap :
        (p q x y : Bool)
        → y ≡ (if q then true else x)
        → (if p then true else y) ≡ (if q then true else (if p then true else x))
    swap true true x y h = refl
    swap true false x y h = refl
    swap false q x y h = h

mem-reversed : (id : ℕ) (cs : List ℕ) → mem id (reversed cs) ≡ mem id cs
mem-reversed id [] = refl
mem-reversed id (c ∷ cs) = rw (mem-append id c (reversed cs), mem-reversed id cs)

-- An active composite of which no call throws: `deactivate_object` and then `wait_object` return,
-- whatever the states of its children are, and leave it and each of its children not active.
pub wait_object-deactivate_object :
    (c : CompositeActiveObject) (id : ℕ)
    → IsQuiet c.objects.throws
    → c.state ≡ active
    → mem id c.child_objects ≡ true
    → (d e : CompositeActiveObject) × (deactivate_object c ≡ some (true, d))
      × (wait_object d ≡ some (true, e))
      × (e.state ≡ not_active)
      × (e.objects.states id ≡ not_active)
unfolding deactivate_object wait_object
wait_object-deactivate_object c id q a child =
    let cs : List ℕ = reversed c.child_objects in
    let (t, e, went) = deactivate_each-quiet c.synchronous cs c.objects q in
    let (u, e', went') =
      wait_for_some-quiet cs t (subst IsQuiet (sym went.throws) q)
        (NoneActive-lowered c.synchronous cs c.objects t went) in
    let all : Went (λ state. not_active) cs c.objects u =
      Went-change (λ state. rest (lowered c.synchronous state)) (λ state. not_active) cs c.objects u
        (rest-lowered c.synchronous)
        (Went-then (lowered c.synchronous) rest cs c.objects t u went went') in
    let d : CompositeActiveObject = record c { state = deactivating; objects = t } in
    (
      d,
      record d { state = not_active; objects = u },
      rw (a, e),
      rw e',
      refl,
      all.states id
          ∙ ap (λ p. if p then not_active else c.objects.states id)
              (mem-reversed id c.child_objects ∙ child),
    )
