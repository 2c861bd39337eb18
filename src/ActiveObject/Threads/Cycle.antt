-- ===== src/ActiveObject/Threads/Cycle.antt =====
-- An object that is activated, deactivated and waited for.
use litemq.Prelude.{ℕ, ◌+◌, ◌≤◌, ◌≡◌, refl, ap, ◌∙◌, Bool, true, false, some, List, length}
use litemq.ActiveObject.{not_active, active, deactivating}
use litemq.ThreadRunner.{ThreadRunner, to_create, start, wait_for_completion}
use litemq.ThreadRunner.Threads.{at_rest, all_ok, successes}
use litemq.ThreadRunner.Starting.{wait_for_completion-start}
use litemq.ActiveObject.Threads.{
  ActiveObjectCommonImpl, activated, activate_object, deactivate_object, completed, wait_object,
  is_active,
}

-- An object with a job of `jobs` threads that none of them does, `works` of them having done it.
abbrev pub resting : ℕ → ℕ → ℕ → ℕ → ActiveObjectCommonImpl
resting jobs start_threads works terminations = record {
  active_state = not_active;
  terminating = false;
  terminations = terminations;
  start_threads = start_threads;
  thread_runner = at_rest jobs works;
}

-- the same object after `deactivate_object`, with some runner
abbrev pub stopping : ℕ → ℕ → ThreadRunner → ActiveObjectCommonImpl
stopping start_threads terminations r = record {
  active_state = deactivating;
  terminating = true;
  terminations = terminations;
  start_threads = start_threads;
  thread_runner = r;
}

wait_object-completed :
    (joins : List Bool) (start_threads terminations : ℕ) (r : ThreadRunner)
    → let o = stopping start_threads terminations r in
      wait_object true joins o ≡ completed o (wait_for_completion true joins r)
unfolding wait_object
wait_object-completed joins start_threads terminations r = refl

activate_object-activated :
    (creates joins : List Bool) (jobs start_threads works terminations : ℕ)
    → let o = resting jobs start_threads works terminations in
      activate_object creates joins o
      ≡ activated o (start start_threads creates joins (at_rest jobs works))
unfolding activate_object
activate_object-activated creates joins jobs start_threads works terminations = refl

completed_by :
    (jobs start_threads works terminations : ℕ) (r : ThreadRunner)
    → completed (stopping start_threads terminations r) (some (true, at_rest jobs works))
      ≡ some (true, resting jobs start_threads works terminations)
unfolding completed
completed_by jobs start_threads works terminations r = refl

-- An object that is not active, for whose `n` threads `pthread_create` succeeds: `activate_object`
-- makes it active; `deactivate_object` then tells its job once to terminate; and if the job ends and
-- no join fails, `wait_object` returns, each of the threads having done the job once, and the object
-- is as before and can be activated again.
pub wait_object-activate_object :
    (jobs start_threads works terminations : ℕ) (creates joins later_joins : List Bool)
    → let n = to_create start_threads (at_rest jobs works) in
      1 ≤ n
      → n ≤ length later_joins
      → all_ok n later_joins ≡ true
      → (o : ActiveObjectCommonImpl) × (activate_object
            (successes n creates)
            joins
            (resting jobs start_threads works terminations)
          ≡ some (true, o))
        × (is_active o ≡ true)
        × (is_active (deactivate_object o) ≡ false)
        × (wait_object true later_joins (deactivate_object o)
            ≡ some (true, resting jobs start_threads (works + n) (terminations + 1)))
unfolding activated deactivate_object is_active
wait_object-activate_object jobs start_threads works terminations creates joins later_joins h k o =
    let n = to_create start_threads (at_rest jobs works) in
    let (r, begun, done) =
      wait_for_completion-start start_threads jobs works creates joins later_joins h k o in
    (
      record {
        active_state = active;
        terminating = false;
        terminations = terminations;
        start_threads = start_threads;
        thread_runner = r;
      },
      activate_object-activated (successes n creates) joins jobs start_threads works terminations
          ∙ ap (activated (resting jobs start_threads works terminations)) begun,
      refl,
      refl,
      wait_object-completed later_joins start_threads (terminations + 1) r
          ∙ ap (completed (stopping start_threads (terminations + 1) r)) done
          ∙ completed_by jobs start_threads (works + n) (terminations + 1) r,
    )
