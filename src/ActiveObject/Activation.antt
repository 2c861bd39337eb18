-- ===== src/ActiveObject/Activation.antt =====
-- What `activate_object` of a composite comes to, and `deactivate_object` and `wait_object` after it.
use litemq.Prelude.{
  ℕ, ◌≡◌, ◌⊎◌, refl, sym, ap, ◌∙◌, subst, inl, inr, arith, Bool, true, false, if◌then◌else◌, ◌==◌,
  some, List, [], ◌∷◌, Bool-cases,
}
use litemq.ActiveObject.{
  ActiveState, not_active, active, deactivating, activate_hook, Objects, called, activate_at,
  activate, activate_each, stop_each, CompositeActiveObject, with_failure, activate_children,
  with_objects, activate_object,
}
use litemq.ActiveObject.Changes.{mem}
use litemq.ActiveObject.Stopping.{IsQuiet, stop_each-quiet}

-- where an object stands in the loop: among those activated, or not active
abbrev IsSettled : ℕ → List ℕ → Objects → Type 0
IsSettled id done s = (mem id done ≡ true) ⊎ (s.states id ≡ not_active)

activate-throws :
    (state : ActiveState) (c : ℕ) (s : Objects) → (activate_at state c s).1.throws ≡ s.throws
unfolding activate_at
activate-throws active c s = refl
activate-throws deactivating c s = refl
activate-throws not_active c s = elim (Bool-cases (s.throws (called c activate_hook s).calls)) [
  | inl e ↦ rw e
  | inr e ↦ rw e
]

activate-IsSettled :
    (state : ActiveState) (id c : ℕ) (done : List ℕ) (s : Objects)
    → IsSettled id done s
    → IsSettled id (if (activate_at state c s).0 then c ∷ done else done) (activate_at state c s).1
unfolding activate_at
activate-IsSettled active id c done s h = h
activate-IsSettled deactivating id c done s h = h
activate-IsSettled not_active id c done s h =
    elim (Bool-cases (s.throws (called c activate_hook s).calls)) [
      | inl e ↦ rw e h
      | inr e ↦ rw e (more (id == c) h)
    ]
  where
    more :
        (p : Bool)
        → IsSettled id done s
        → ((if p then true else mem id done) ≡ true)
          ⊎ ((if p then active else s.states id) ≡ not_active)
    more true h = inl refl
    more false h = h

activate-active :
    (state : ActiveState) (id c : ℕ) (s : Objects)
    → ((id == c) ≡ true) ⊎ (s.states id ≡ active)
    → (activate_at state c s).0 ≡ true
    → (activate_at state c s).1.states id ≡ active
unfolding activate_at
activate-active active id c s h ok = ground (arith, ok)
activate-active deactivating id c s h ok = ground (arith, ok)
activate-active not_active id c s h ok =
    elim (Bool-cases (s.throws (called c activate_hook s).calls)) [
      | inl e ↦ let bad : false ≡ true = rw e at ok in absurd (ground (arith, bad))
      | inr e ↦ rw e (more (id == c) h)
    ]
  where
    more :
        (p : Bool)
        → (p ≡ true) ⊎ (s.states id ≡ active)
        → (if p then active else s.states id) ≡ active
    more true h = refl
    more false (inl k) = ground (arith, k)
    more false (inr k) = k

activate_each-throws :
    (done cs : List ℕ) (s : Objects) → (activate_each done cs s).2.throws ≡ s.throws
unfolding activate_each activate
activate_each-throws done [] s = refl
activate_each-throws done (c ∷ cs) s =
    let first = activate-throws (s.states c) c s in
    elim (Bool-cases (activate_at (s.states c) c s).0) [
      | inl e ↦ rw e (activate_each-throws (c ∷ done) cs (activate_at (s.states c) c s).1 ∙ first)
      | inr e ↦ rw e first
    ]

activate_each-IsSettled :
    (id : ℕ) (done cs : List ℕ) (s : Objects)
    → IsSettled id done s
    → IsSettled id (activate_each done cs s).1 (activate_each done cs s).2
unfolding activate_each activate
activate_each-IsSettled id done [] s h = h
activate_each-IsSettled id done (c ∷ cs) s h =
    let first = activate-IsSettled (s.states c) id c done s h in
    elim (Bool-cases (activate_at (s.states c) c s).0) [
      | inl e ↦ rw e (
          activate_each-IsSettled id (c ∷ done) cs (activate_at (s.states c) c s).1 (rw e at first))
      | inr e ↦ rw e (rw e at first)
    ]

activate_each-active :
    (id : ℕ) (done cs : List ℕ) (s : Objects)
    → (mem id cs ≡ true) ⊎ (s.states id ≡ active)
    → (activate_each done cs s).0 ≡ true
    → (activate_each done cs s).2.states id ≡ active
unfolding activate_each activate
activate_each-active id done [] s (inl k) ok = absurd (ground (arith, k))
activate_each-active id done [] s (inr k) ok = k
activate_each-active id done (c ∷ cs) s h ok = elim (Bool-cases (activate_at (s.states c) c s).0) [
  | inl e ↦ rw e (
      activate_each-active id (c ∷ done) cs (activate_at (s.states c) c s).1
        (on_head (id == c) h (λ k. activate-active (s.states c) id c s k e)) (rw e at ok))
  | inr e ↦ let bad : false ≡ true = rw e at ok in absurd (ground (arith, bad))
]
  where
    on_head :
        {P : Type 0} (p : Bool)
        → ((if p then true else mem id cs) ≡ true) ⊎ (s.states id ≡ active)
        → ((p ≡ true) ⊎ (s.states id ≡ active) → P)
        → (mem id cs ≡ true) ⊎ P
    on_head true h k = inr (k (inl refl))
    on_head false (inl h) k = inl h
    on_head false (inr h) k = inr (k (inr h))

settled_stops :
    (p : Bool) (state : ActiveState)
    → (p ≡ true) ⊎ (state ≡ not_active)
    → (if p then not_active else state) ≡ not_active
settled_stops true state h = refl
settled_stops false state (inl k) = ground (arith, k)
settled_stops false state (inr k) = k

activate_object_idle :
    (c : CompositeActiveObject)
    → c.state ≡ not_active
    → activate_object c
      ≡ with_objects c
          (λ ok. if ok then active else not_active)
          (activate_children c.synchronous (activate_each [] c.child_objects c.objects))
unfolding activate_object
activate_object_idle c idle = rw idle

activate_children_done :
    (synchronous : Bool) (r : Bool × List ℕ × Objects)
    → r.0 ≡ true
    → activate_children synchronous r ≡ some (true, r.2)
unfolding activate_children
activate_children_done synchronous (true, done, s) e = refl
activate_children_done synchronous (false, done, s) e = ground (arith, e)

activate_children_failed :
    (synchronous : Bool) (r : Bool × List ℕ × Objects) (u : Objects)
    → r.0 ≡ false
    → stop_each synchronous r.1 r.2 ≡ some (true, u)
    → activate_children synchronous r ≡ some (false, u)
unfolding activate_children with_failure
activate_children_failed synchronous (true, done, s) u e run = ground (arith, e)
activate_children_failed synchronous (false, done, s) u e run = rw run

-- All or nothing: `activate_object` of a composite that is not active, where deactivating and
-- waiting do not throw, returns; either it and each child that was not active are active then, or
-- an exception went out, and it and each such child are not active, as before.
pub activate_object_all :
    (c : CompositeActiveObject) (id : ℕ)
    → IsQuiet c.objects.throws
    → c.state ≡ not_active
    → mem id c.child_objects ≡ true
    → c.objects.states id ≡ not_active
    → (ok : Bool) × (d : CompositeActiveObject) × (activate_object c ≡ some (ok, d))
      × (d.state ≡ (if ok then active else not_active))
      × (d.objects.states id ≡ (if ok then active else not_active))
activate_object_all c id q idle child before =
    let r = activate_each [] c.child_objects c.objects in
    elim (Bool-cases r.0) [
      | inl e ↦ (
        true,
        record c { state = active; objects = r.2 },
        activate_object_idle c idle
            ∙ ap (with_objects c (λ ok. if ok then active else not_active))
                (activate_children_done c.synchronous r e),
        refl,
        activate_each-active id [] c.child_objects c.objects (inl child) e,
      )
      | inr e ↦
          let still = activate_each-throws [] c.child_objects c.objects in
          let (u, run, went) =
            stop_each-quiet c.synchronous r.1 r.2 (subst IsQuiet (sym still) q) in
          (
            false,
            record c { state = not_active; objects = u },
            activate_object_idle c idle
                ∙ ap (with_objects c (λ ok. if ok then active else not_active))
                    (activate_children_failed c.synchronous r u e run),
            refl,
            went.states id
                ∙ settled_stops (mem id r.1) (r.2.states id)
                    (activate_each-IsSettled id [] c.child_objects c.objects (inr before)),
          )
    ]
