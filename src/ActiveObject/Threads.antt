-- ===== src/ActiveObject/Threads.antt =====
-- gears/ActiveObject.hpp and .cpp, ActiveObjectCommonImpl: an active object whose job is done by the
-- threads of a ThreadRunner. An operation under `work_mutex_` is one step. A result of `false` is an
-- exception; `none` stands for what it does in ThreadRunner.
pub mod Cycle
mod Examples
use litemq.Prelude.{ℕ, suc, ◌+◌, Bool, true, false, if◌then◌else◌, ◌==◌, Option, none, some, List}
use litemq.ActiveObject.{ActiveState, not_active, active, deactivating}
use litemq.ThreadRunner.{
  ThreadRunner, make_runner, Started, started, already_started, failed, start, wait_for_completion,
}

-- `SingleJob` stands in its object: `terminating_`, and the calls of its virtual `terminate`.
pub record ActiveObjectCommonImpl : Type 0 where
  pub active_state : ActiveState
  pub terminating : Bool
  pub terminations : ℕ
  pub start_threads : ℕ
  pub thread_runner : ThreadRunner

unfoldable pub make_object : ℕ → ℕ → Option ActiveObjectCommonImpl
unfolding make_runner
make_object threads_number start_threads =
    if threads_number == 0
    then none
    else some (record {
      active_state = not_active;
      terminating = false;
      terminations = 0;
      start_threads = start_threads;
      thread_runner = make_runner threads_number;
    })

-- `SingleJob::make_terminate` and `terminated`
unfoldable pub make_terminate : ActiveObjectCommonImpl → ActiveObjectCommonImpl
make_terminate o = record o { terminating = true; terminations = o.terminations + 1 }

unfoldable pub terminated : ActiveObjectCommonImpl → ActiveObjectCommonImpl
terminated o = record o { terminating = false }

-- the end of `activate_object`, by what `start` gave
unfoldable pub activated :
    ActiveObjectCommonImpl
    → Option (Started × ThreadRunner)
    → Option (Bool × ActiveObjectCommonImpl)
activated o none = none
activated o (some (started, r)) = some (true, record o { active_state = active; thread_runner = r })
activated o (some (_, r)) = some (false, record o { active_state = not_active; thread_runner = r })

unfoldable pub activate_at :
    ActiveState
    → List Bool
    → List Bool
    → ActiveObjectCommonImpl
    → Option (Bool × ActiveObjectCommonImpl)
unfolding activated start
activate_at not_active creates joins o =
    activated o (start o.start_threads creates joins o.thread_runner)
activate_at _ creates joins o = some (false, o)

unfoldable pub activate_object :
    List Bool → List Bool → ActiveObjectCommonImpl → Option (Bool × ActiveObjectCommonImpl)
unfolding activate_at
activate_object creates joins o = activate_at o.active_state creates joins o

unfoldable pub deactivate_at : ActiveState → ActiveObjectCommonImpl → ActiveObjectCommonImpl
unfolding make_terminate
deactivate_at active o = make_terminate (record o { active_state = deactivating })
deactivate_at _ o = o

unfoldable pub deactivate_object : ActiveObjectCommonImpl → ActiveObjectCommonImpl
unfolding deactivate_at
deactivate_object o = deactivate_at o.active_state o

-- the last part of `wait_object`
abbrev settled : ActiveState → ActiveState
settled deactivating = not_active
settled state = state

-- `wait_object`, by what `wait_for_completion` gave
unfoldable pub completed :
    ActiveObjectCommonImpl → Option (Bool × ThreadRunner) → Option (Bool × ActiveObjectCommonImpl)
unfolding terminated
completed o none = none
completed o (some (true, r)) =
    some (true, terminated (record o { active_state = settled o.active_state; thread_runner = r }))
completed o (some (false, r)) = some (false, record o { thread_runner = r })

unfoldable pub wait_at :
    ActiveState → Bool → List Bool → ActiveObjectCommonImpl → Option (Bool × ActiveObjectCommonImpl)
unfolding completed wait_for_completion
wait_at not_active ends joins o = some (true, o)
wait_at _ ends joins o = completed o (wait_for_completion ends joins o.thread_runner)

unfoldable pub wait_object :
    Bool → List Bool → ActiveObjectCommonImpl → Option (Bool × ActiveObjectCommonImpl)
unfolding wait_at
wait_object ends joins o = wait_at o.active_state ends joins o

unfoldable pub is_active : ActiveObjectCommonImpl → Bool
is_active o = elim o.active_state [ active ↦ true | _ ↦ false ]
