-- ===== src/ActiveObject/Threads/Examples.antt =====
-- Tests of ActiveObjectCommonImpl of gears/ActiveObject.cpp, and its theorem at a concrete object.
use litemq.Prelude.{◌≡◌, refl, true, false, none, some, [], ◌∷◌, arith}
use litemq.ThreadRunner.Threads.{at_rest}
use litemq.ActiveObject.Threads.{
  ActiveObjectCommonImpl, make_object, activate_object, deactivate_object, wait_object, is_active,
}
use litemq.ActiveObject.Threads.Cycle.{resting, stopping, wait_object-activate_object}

wait_object-activate_object_example :
    (o : ActiveObjectCommonImpl) × (activate_object (true ∷ true ∷ []) [] (resting 2 0 0 0)
      ≡ some (true, o))
    × (is_active o ≡ true)
    × (is_active (deactivate_object o) ≡ false)
    × (wait_object true (true ∷ true ∷ []) (deactivate_object o) ≡ some (true, resting 2 0 2 1))
wait_object-activate_object_example =
    wait_object-activate_object 2 0 0 0 [] [] (true ∷ true ∷ []) (omega arith) (omega arith) refl

-- Waiting once more ends the deactivation.
again_test : wait_object true [] (stopping 0 1 (at_rest 2 2)) ≡ some (true, resting 2 0 2 1)
unfolding wait_object
again_test = refl

no_threads_test : make_object 0 0 ≡ none
unfolding make_object
no_threads_test = refl

made_test : make_object 2 1 ≡ some (resting 2 1 0 0)
unfolding make_object
made_test = refl
