-- ===== src/ActiveObject/Examples.antt =====
-- Tests of gears/CompositeActiveObject.hpp, and the theorems at two children.
use litemq.Prelude.{
  ℕ, ◌≡◌, refl, Bool, true, false, ◌==◌, Option, some, List, [], ◌∷◌, if◌then◌else◌, ◌++◌,
}
use litemq.ActiveObject.{
  ActiveState, not_active, active, Hook, activate_hook, deactivate_hook, wait_hook, Objects,
  CompositeActiveObject, activate_object, deactivate_object, wait_object, clear_children,
}
use litemq.ActiveObject.Calls.{each}
use litemq.ActiveObject.Order.{wait_object-calls}
use litemq.ActiveObject.Stopping.{IsQuiet, wait_object-deactivate_object}
use litemq.ActiveObject.Activation.{activate_object_all}

-- The activation of the second child throws.
abbrev throws_at : ℕ × Hook → Bool
throws_at (c, activate_hook) = c == 2
throws_at (c, _) = false

abbrev second_throws : List (ℕ × Hook) → Bool
second_throws [] = false
second_throws (call ∷ []) = throws_at call
second_throws (call ∷ next ∷ calls) = second_throws (next ∷ calls)

second_throws-append :
    (calls : List (ℕ × Hook)) (call : ℕ × Hook)
    → second_throws (calls ++ (call ∷ [])) ≡ throws_at call
second_throws-append [] call = refl
second_throws-append (first ∷ []) call = refl
second_throws-append (first ∷ next ∷ calls) call = second_throws-append (next ∷ calls) call

abbrev objects_at : ActiveState → (List (ℕ × Hook) → Bool) → Objects
objects_at state throws = record { states = λ id. state; calls = []; throws = throws }

abbrev none_throws : List (ℕ × Hook) → Bool
none_throws calls = false

abbrev two_children : ActiveState → (List (ℕ × Hook) → Bool) → CompositeActiveObject
two_children state throws = record {
  state = state;
  synchronous = false;
  child_objects = 1 ∷ 2 ∷ [];
  objects = objects_at state throws;
}

abbrev calls_of : Option (Bool × CompositeActiveObject) → List (ℕ × Hook)
calls_of (some (ok, c)) = c.objects.calls
calls_of _ = []

-- The first child is stopped when the second throws.
rollback_test :
    calls_of (activate_object (two_children not_active second_throws))
    ≡ (1, activate_hook) ∷ (2, activate_hook) ∷ (1, deactivate_hook) ∷ (1, wait_hook) ∷ []
unfolding activate_object
rollback_test = refl

clear_test :
    calls_of (clear_children (two_children active none_throws))
    ≡ (2, deactivate_hook) ∷ (1, deactivate_hook) ∷ (2, wait_hook) ∷ (1, wait_hook) ∷ []
unfolding clear_children
clear_test = refl

second_throws-IsQuiet : IsQuiet second_throws
second_throws-IsQuiet = record {
  deactivates = λ calls c. second_throws-append calls (c, deactivate_hook);
  waits = λ calls c. second_throws-append calls (c, wait_hook);
}

activate_object_all_example :
    (ok : Bool) × (d : CompositeActiveObject) × (activate_object
        (two_children not_active second_throws)
      ≡ some (ok, d))
    × (d.state ≡ (if ok then active else not_active))
    × (d.objects.states 1 ≡ (if ok then active else not_active))
activate_object_all_example =
    activate_object_all (two_children not_active second_throws) 1 second_throws-IsQuiet refl refl
      refl

wait_object-deactivate_object_example :
    (d e : CompositeActiveObject) × (deactivate_object (two_children active none_throws)
      ≡ some (true, d))
    × (wait_object d ≡ some (true, e))
    × (e.state ≡ not_active)
    × (e.objects.states 2 ≡ not_active)
wait_object-deactivate_object_example =
    wait_object-deactivate_object (two_children active none_throws) 2
      (record { deactivates = λ calls c. refl; waits = λ calls c. refl }) refl refl

abbrev after_run : Option (Bool × CompositeActiveObject) → CompositeActiveObject
after_run (some (ok, c)) = c
after_run _ = two_children not_active none_throws

abbrev running : CompositeActiveObject
running = two_children active none_throws

stopping : CompositeActiveObject
unfolding deactivate_object
stopping = after_run (deactivate_object running)

stopped : CompositeActiveObject
unfolding wait_object stopping
stopped = after_run (wait_object stopping)

deactivate_test : deactivate_object running ≡ some (true, stopping)
unfolding deactivate_object stopping
deactivate_test = refl

wait_test : wait_object stopping ≡ some (true, stopped)
unfolding wait_object stopping stopped
wait_test = refl

wait_object-calls_example :
    stopped.objects.calls ≡ ([] ++ each deactivate_hook (2 ∷ 1 ∷ [])) ++ each wait_hook (2 ∷ 1 ∷ [])
wait_object-calls_example =
    wait_object-calls running stopping stopped true true refl refl (refl, (refl, tt)) (λ id k. refl)
      deactivate_test wait_test
