-- ===== src/ActiveObject/Order.antt =====
-- The order in which a composite calls its children.
use litemq.Prelude.{
  ℕ, ◌≡◌, refl, sym, ap, ap₂, ◌∙◌, arith, Bool, false, if◌then◌else◌, Option, none, some, List,
  ◌++◌,
}
use litemq.ActiveObject.{
  ActiveState, not_active, active, deactivating, Hook, deactivate_hook, wait_hook, Objects,
  wait_for_some, deactivate_each, CompositeActiveObject, reversed, with_objects, deactivate_object,
  wait_object,
}
use litemq.ActiveObject.Calls.{
  IsDistinct, AllActive, each, Called, wait_for_some-Called, deactivate_each-Called,
}

abbrev calls_of : List (ℕ × Hook) → Option (Bool × CompositeActiveObject) → List (ℕ × Hook)
calls_of calls none = calls
calls_of calls (some (ok, c)) = c.objects.calls

abbrev children_of : List ℕ → Option (Bool × CompositeActiveObject) → List ℕ
children_of cs none = cs
children_of cs (some (ok, c)) = c.child_objects

Called-some :
    (calls : List (ℕ × Hook)) (c d : CompositeActiveObject) (ok : Bool) (state : Bool → ActiveState)
    (run : Option (Bool × Objects))
    → Called calls run
    → with_objects c state run ≡ some (ok, d)
    → d.objects.calls ≡ calls
Called-some calls c d ok state none h e = absurd (ground arith)
Called-some calls c d ok state (some (ok', t)) h e = sym (ap (calls_of calls) e) ∙ h

children-some :
    (c d : CompositeActiveObject) (ok : Bool) (state : Bool → ActiveState)
    (run : Option (Bool × Objects))
    → with_objects c state run ≡ some (ok, d)
    → d.child_objects ≡ c.child_objects
children-some c d ok state none e = absurd (ground arith)
children-some c d ok state (some (ok', t)) e = sym (ap (children_of c.child_objects) e)

deactivate_object_active :
    (c : CompositeActiveObject)
    → c.state ≡ active
    → deactivate_object c
      ≡ with_objects c
          (λ ok. if ok then deactivating else active)
          (deactivate_each c.synchronous (reversed c.child_objects) c.objects)
unfolding deactivate_object
deactivate_object_active c a = rw a

wait_object_active : (c : CompositeActiveObject) → c.state ≡ active → wait_object c ≡ none
unfolding wait_object
wait_object_active c a = rw a

wait_object_deactivating :
    (c : CompositeActiveObject)
    → c.state ≡ deactivating
    → wait_object c
      ≡ with_objects c
          (λ ok. if ok then not_active else deactivating)
          (wait_for_some (reversed c.child_objects) c.objects)
unfolding wait_object
wait_object_deactivating c a = rw a

wait_object_not_active :
    (c : CompositeActiveObject)
    → c.state ≡ not_active
    → wait_object c
      ≡ with_objects c (λ ok. not_active) (wait_for_some (reversed c.child_objects) c.objects)
unfolding wait_object
wait_object_not_active c a = rw a

wait_object-each :
    (state : ActiveState) (d e : CompositeActiveObject) (ok : Bool)
    → d.state ≡ state
    → wait_object d ≡ some (ok, e)
    → e.objects.calls ≡ d.objects.calls ++ each wait_hook (reversed d.child_objects)
wait_object-each active d e ok a run =
    let bad : none ≡ some (ok, e) = sym (wait_object_active d a) ∙ run in
    absurd (ground (arith, bad))
wait_object-each deactivating d e ok a run =
    Called-some (d.objects.calls ++ each wait_hook (reversed d.child_objects)) d e ok
      (λ ok. if ok then not_active else deactivating)
      (wait_for_some (reversed d.child_objects) d.objects)
      (wait_for_some-Called (reversed d.child_objects) d.objects)
      (sym (wait_object_deactivating d a) ∙ run)
wait_object-each not_active d e ok a run =
    Called-some (d.objects.calls ++ each wait_hook (reversed d.child_objects)) d e ok
      (λ ok. not_active) (wait_for_some (reversed d.child_objects) d.objects)
      (wait_for_some-Called (reversed d.child_objects) d.objects)
      (sym (wait_object_not_active d a) ∙ run)

-- A composite that does not wait at once, active with all its children, which are different: once
-- `deactivate_object` and `wait_object` have returned or thrown, the children were deactivated from
-- the last to the first, and then waited for from the last to the first, and called no more.
pub wait_object-calls :
    (c d e : CompositeActiveObject) (ok ok' : Bool)
    → c.state ≡ active
    → c.synchronous ≡ false
    → IsDistinct (reversed c.child_objects)
    → AllActive (reversed c.child_objects) c.objects
    → deactivate_object c ≡ some (ok, d)
    → wait_object d ≡ some (ok', e)
    → e.objects.calls
      ≡ (c.objects.calls ++ each deactivate_hook (reversed c.child_objects))
        ++ each wait_hook (reversed c.child_objects)
wait_object-calls c d e ok ok' a async distinct h run run' =
    let cs : List ℕ = reversed c.child_objects in
    let first = sym (deactivate_object_active c a) ∙ run in
    let each_run = deactivate_each c.synchronous cs c.objects in
    let logged : Called (c.objects.calls ++ each deactivate_hook cs) each_run =
      rw async (deactivate_each-Called cs c.objects h distinct) in
    let stopped : d.objects.calls ≡ c.objects.calls ++ each deactivate_hook cs =
      Called-some (c.objects.calls ++ each deactivate_hook cs) c d ok
        (λ ok. if ok then deactivating else active) each_run logged first in
    let children =
      children-some c d ok (λ ok. if ok then deactivating else active) each_run first in
    wait_object-each d.state d e ok' refl run'
    ∙ ap₂ (λ calls cs. calls ++ each wait_hook (reversed cs)) stopped children
