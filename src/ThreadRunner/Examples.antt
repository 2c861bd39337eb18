-- ===== src/ThreadRunner/Examples.antt =====
-- Tests of gears/ThreadRunner.cpp, and the theorems at a concrete runner.
use litemq.Prelude.{◌≡◌, refl, true, false, none, some, [], ◌∷◌, arith}
use litemq.Prelude.Int.{pos}
use litemq.ThreadRunner.{
  ThreadRunner, make_runner, start, start_one, wait_for_completion, started, already_started,
  failed,
}
use litemq.ThreadRunner.Threads.{at_rest, with_threads}
use litemq.ThreadRunner.Starting.{wait_for_completion-start, start-failed}

wait_for_completion-start_example :
    (let_go_runner : ThreadRunner) × (start 2 (true ∷ true ∷ []) [] (at_rest 3 0)
      ≡ some (started, let_go_runner))
    × (wait_for_completion true (true ∷ true ∷ []) let_go_runner ≡ some (true, at_rest 3 2))
wait_for_completion-start_example =
    wait_for_completion-start 2 3 0 [] [] (true ∷ true ∷ []) (omega arith) (omega arith) refl

start-failed_example :
    start 0 (true ∷ false ∷ []) (true ∷ []) (at_rest 3 4) ≡ some (failed, at_rest 3 4)
start-failed_example = start-failed 0 3 4 1 [] (true ∷ []) (omega arith) (omega arith)

first_failed_test :
    start 0 (false ∷ []) [] (make_runner 3) ≡ some (failed, with_threads 3 0 (pos 0) 1)
unfolding start make_runner
first_failed_test = refl

-- A thread that `start_one` creates in front of `start` is not let go: joining it waits forever, and
-- `start` takes the runner for started.
abbrev one : ThreadRunner
one = (start_one true (make_runner 3)).1

one_waits_test : wait_for_completion true (true ∷ []) one ≡ none
unfolding start_one make_runner wait_for_completion
one_waits_test = refl

one_started_test : start 0 (true ∷ []) [] one ≡ some (already_started, one)
unfolding start_one make_runner start
one_started_test = refl
