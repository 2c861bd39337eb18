-- ===== src/ThreadRunner/Starting.antt =====
-- What `start` does where all threads are created, and where one is not; and `wait_for_completion`.
use litemq.Prelude.{
  ℕ, zero, suc, ◌+◌, ◌≤◌, ◌<◌, ◌≡◌, refl, ap, ◌∙◌, Bool, true, false, if◌then◌else◌, ◌==◌, none,
  some, List, ◌∷◌, length, arith,
}
use litemq.Prelude.Int.{ℤ, pos, negsuc}
use litemq.ThreadRunner.{
  ThreadRunner, running, join_each, complete, wait_for_completion, start_each, started, failed,
  after_failure, fail_start, let_go, to_create, start,
}
use litemq.ThreadRunner.Threads.{
  at_rest, with_threads, all_ok, successes, start_each-successes, start_each-failure,
  join_each-works, join_each-failed,
}

start-start_each :
    (to_start jobs works : ℕ) (creates joins : List Bool)
    → start to_start creates joins (at_rest jobs works)
      ≡ let_go joins
          (start_each (to_create to_start (at_rest jobs works)) creates (at_rest jobs works))
unfolding start
start-start_each to_start jobs works creates joins = refl

fail_start-none :
    (jobs works : ℕ) (joins : List Bool)
    → fail_start joins (with_threads jobs works (pos 0) 0)
      ≡ some (failed, with_threads jobs works (pos 0) 1)
unfolding fail_start
fail_start-none jobs works joins = refl

suc_positive : (m : ℕ) → (suc m == 0) ≡ false
suc_positive m = ground arith

waited :
    (m : ℕ) (joins : List Bool) (r : ThreadRunner)
    → running r.number_running ≡ suc m
    → wait_for_completion true joins r ≡ complete (join_each (suc m) true joins r)
unfolding wait_for_completion
waited m joins r h = rw (h, suc_positive m) refl

failed_or_aborted :
    (ok : Bool) (r : ThreadRunner)
    → after_failure (some (ok, r)) ≡ (if ok then some (failed, r) else none)
failed_or_aborted true r = refl
failed_or_aborted false r = refl

fail_start-wait_for_completion :
    (jobs works k : ℕ) (joins : List Bool)
    → fail_start joins (with_threads jobs works (pos (suc k)) 0)
      ≡ after_failure (wait_for_completion true joins (with_threads jobs works (negsuc k) 1))
unfolding fail_start
fail_start-wait_for_completion jobs works k joins = refl

complete_opened :
    (ok : Bool) (jobs works : ℕ) (n : ℤ)
    → complete (some (ok, with_threads jobs works n 1)) ≡ some (ok, at_rest jobs works)
unfolding complete
complete_opened ok jobs works n = refl

fail_start-some :
    (jobs works k : ℕ) (joins : List Bool)
    → suc k ≤ length joins
    → fail_start joins (with_threads jobs works (pos (suc k)) 0)
      ≡ (if all_ok (suc k) joins then some (failed, at_rest jobs works) else none)
fail_start-some jobs works k joins h =
    let one_more : 0 + suc k ≡ suc k = omega arith in
    fail_start-wait_for_completion jobs works k joins
    ∙ ap after_failure (
        waited k joins (with_threads jobs works (negsuc k) 1) one_more
        ∙ ap complete (join_each-failed (suc k) jobs works k joins h)
        ∙ complete_opened (all_ok (suc k) joins) jobs works (negsuc k))
    ∙ failed_or_aborted (all_ok (suc k) joins) (at_rest jobs works)

fail_start_lem :
    (jobs works created : ℕ) (joins : List Bool)
    → created ≤ length joins
    → fail_start joins (with_threads jobs works (pos created) 0) ≡ (
        if created == 0
        then some (failed, with_threads jobs works (pos 0) 1)
        else if all_ok created joins
        then some (failed, at_rest jobs works)
        else none)
fail_start_lem jobs works zero joins h = fail_start-none jobs works joins
fail_start_lem jobs works (suc k) joins h =
    rw (suc_positive k) (fail_start-some jobs works k joins h)

wait_for_completion-works :
    (n jobs works : ℕ) (joins : List Bool)
    → 1 ≤ n
    → n ≤ length joins
    → all_ok n joins ≡ true
    → wait_for_completion true joins (with_threads jobs works (pos n) 1)
      ≡ some (true, at_rest jobs (works + n))
wait_for_completion-works zero jobs works joins h k o = absurd (omega (arith, h))
wait_for_completion-works (suc m) jobs works joins h k o =
    let one_more : suc m + 0 ≡ suc m = omega arith in
    waited m joins (with_threads jobs works (pos (suc m)) 1) one_more
    ∙ ap complete (join_each-works (suc m) jobs works m joins k o)
    ∙ complete_opened true jobs (works + suc m) (pos (suc m))

start-successes :
    (to_start jobs works : ℕ) (creates joins : List Bool)
    → let n = to_create to_start (at_rest jobs works) in
      start to_start (successes n creates) joins (at_rest jobs works)
      ≡ some (started, with_threads jobs works (pos n) 1)
start-successes to_start jobs works creates joins =
    let n = to_create to_start (at_rest jobs works) in
    let same : 0 + n ≡ n = omega arith in
    start-start_each to_start jobs works (successes n creates) joins
    ∙ ap (let_go joins) (start_each-successes n jobs works 0 0 creates)
    ∙ ap (λ m. some (started, with_threads jobs works (pos m) 1)) same

-- `start` creates `n` threads, all those asked for, or all jobs' where none or too many are asked
-- for. If they are all created, they are let go; and then `wait_for_completion`, if the jobs end and
-- no join fails, joins all of them, each having done its job once, and leaves the runner as before,
-- ready for the next `start`.
pub wait_for_completion-start :
    (to_start jobs works : ℕ) (creates joins later_joins : List Bool)
    → let n = to_create to_start (at_rest jobs works) in
      1 ≤ n
      → n ≤ length later_joins
      → all_ok n later_joins ≡ true
      → (let_go_runner : ThreadRunner) × (start to_start
            (successes n creates)
            joins
            (at_rest jobs works)
          ≡ some (started, let_go_runner))
        × (wait_for_completion true later_joins let_go_runner
            ≡ some (true, at_rest jobs (works + n)))
wait_for_completion-start to_start jobs works creates joins later_joins h k o =
    let n = to_create to_start (at_rest jobs works) in
    (
      with_threads jobs works (pos n) 1,
      start-successes to_start jobs works creates joins,
      wait_for_completion-works n jobs works later_joins h k o,
    )

-- If the creation of a thread fails behind `created` others, fewer than `n`, no thread does its job,
-- and `start` throws; it leaves the runner as before, except where it was the first thread: then the
-- semaphore stays open. If a join fails, the program aborts.
pub start-failed :
    (to_start jobs works created : ℕ) (creates joins : List Bool)
    → created < to_create to_start (at_rest jobs works)
    → created ≤ length joins
    → start to_start (successes created (false ∷ creates)) joins (at_rest jobs works) ≡ (
        if created == 0
        then some (failed, with_threads jobs works (pos 0) 1)
        else if all_ok created joins
        then some (failed, at_rest jobs works)
        else none)
start-failed to_start jobs works created creates joins h k =
    let n = to_create to_start (at_rest jobs works) in
    let same : 0 + created ≡ created = omega arith in
    start-start_each to_start jobs works (successes created (false ∷ creates)) joins
    ∙ ap (let_go joins) (start_each-failure n created jobs works 0 0 creates h)
    ∙ ap (λ m. fail_start joins (with_threads jobs works (pos m) 0)) same
    ∙ fail_start_lem jobs works created joins k
