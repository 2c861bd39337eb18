-- ===== src/ThreadRunner.antt =====
-- gears/ThreadRunner.hpp and .cpp, ThreadRunner: threads that are created, let go together, and
-- joined. What `pthread_create` and `pthread_join` answer are lists of arguments, and `none` stands
-- for a call that waits forever, for abort(), and for a list that is too short. A thread is run where
-- it is joined: from `start` on until then `number_running_` keeps its sign, which is all that the
-- thread looks at. What a thread does that a failed join left running is not modelled.
pub mod Threads
pub mod Starting
mod Examples
use litemq.Prelude.{
  ℕ, zero, suc, ◌+◌, ◌-◌, Bool, true, false, not, ◌&&◌, ◌||◌, if◌then◌else◌, ltb, ◌==◌, Option,
  none, some, List, [], ◌∷◌,
}
use litemq.Prelude.Int.{ℤ, pos, negsuc, pos_part, neg_part}

pub record ThreadRunner : Type 0 where
  pub number_of_jobs : ℕ
  pub number_running : ℤ
  pub start_semaphore : ℕ
  pub works : ℕ  -- calls of `job.work()`

unfoldable pub make_runner : ℕ → ThreadRunner
make_runner number_of_jobs = record {
  number_of_jobs = number_of_jobs;
  number_running = pos 0;
  start_semaphore = 0;
  works = 0;
}

-- `abs(number_running_)`, and `number_running_ > 0`
abbrev pub running : ℤ → ℕ
running n = pos_part n + neg_part n

abbrev pub is_positive : ℤ → Bool
is_positive n = ltb 0 (pos_part n)

-- `thread_func_`: whether `job.work()` ends is an argument.
unfoldable pub thread_func : Bool → ThreadRunner → Option ThreadRunner
thread_func ends r =
    if r.start_semaphore == 0
    then none
    else if not (is_positive r.number_running)
    then some r
    else if ends
    then some (record r { works = r.works + 1 })
    else none

-- the loop of `wait_for_completion` over `n` threads: whether no join failed, and the runner
abbrev pub then_joined :
    (ThreadRunner → Option (Bool × ThreadRunner))
    → Option ThreadRunner
    → Option (Bool × ThreadRunner)
then_joined more none = none
then_joined more (some r) = more r

abbrev pub with_result : Bool → Option (Bool × ThreadRunner) → Option (Bool × ThreadRunner)
with_result ok none = none
with_result ok (some (rest_ok, r)) = some (ok && rest_ok, r)

-- A thread that `pthread_join` fails for is not waited for: it is not run.
abbrev pub joined : Bool → Bool → ThreadRunner → Option ThreadRunner
joined true ends r = thread_func ends r
joined false ends r = some r

unfoldable pub join_each : ℕ → Bool → List Bool → ThreadRunner → Option (Bool × ThreadRunner)
unfolding thread_func
join_each zero ends joins r = some (true, r)
join_each (suc n) ends [] r = none
join_each (suc n) ends (ok ∷ joins) r =
    with_result ok (then_joined (join_each n ends joins) (joined ok ends r))

-- the end of `wait_for_completion`: false is the exception
unfoldable pub complete : Option (Bool × ThreadRunner) → Option (Bool × ThreadRunner)
complete none = none
complete (some (ok, r)) =
    if r.start_semaphore == 0
    then none
    else some (ok, record r { start_semaphore = r.start_semaphore - 1; number_running = pos 0 })

unfoldable pub wait_for_completion : Bool → List Bool → ThreadRunner → Option (Bool × ThreadRunner)
unfolding join_each complete
wait_for_completion ends joins r =
    if running r.number_running == 0
    then some (true, r)
    else complete (join_each (running r.number_running) ends joins r)

-- `start_one_thread_`, by what `pthread_create` answers
unfoldable pub start_one_thread : Bool → ThreadRunner → Bool × ThreadRunner
start_one_thread ok r =
    let more = record r { number_running = pos (pos_part r.number_running + 1) } in
    if ok then (true, more) else (false, r)

-- the loop of `start`, for as many threads as are missing: whether all were created
unfoldable pub start_each : ℕ → List Bool → ThreadRunner → Option (Bool × ThreadRunner)
unfolding start_one_thread
start_each zero creates r = some (true, r)
start_each (suc n) [] r = none
start_each (suc n) (ok ∷ creates) r =
    let (created, after) = start_one_thread ok r in
    let more = start_each n creates after in if created then more else some (false, after)

pub data Started : Type 0 where
  started : Started
  already_started : Started
  failed : Started

abbrev pub minus : ℕ → ℤ
minus zero = pos 0
minus (suc n) = negsuc n

-- the handler of an exception in `start`
abbrev pub after_failure : Option (Bool × ThreadRunner) → Option (Started × ThreadRunner)
after_failure none = none
after_failure (some (true, r)) = some (failed, r)
after_failure (some (false, r)) = none

unfoldable pub fail_start : List Bool → ThreadRunner → Option (Started × ThreadRunner)
unfolding wait_for_completion
fail_start joins r = after_failure (
    wait_for_completion true joins (record r {
      number_running = minus (pos_part r.number_running);
      start_semaphore = r.start_semaphore + 1;
    }))

abbrev pub let_go : List Bool → Option (Bool × ThreadRunner) → Option (Started × ThreadRunner)
let_go joins none = none
let_go joins (some (true, r)) = some (started, record r { start_semaphore = r.start_semaphore + 1 })
let_go joins (some (false, r)) = fail_start joins r

abbrev pub to_create : ℕ → ThreadRunner → ℕ
to_create to_start r =
    if to_start == 0 || ltb r.number_of_jobs to_start then r.number_of_jobs else to_start

unfoldable pub start : ℕ → List Bool → List Bool → ThreadRunner → Option (Started × ThreadRunner)
unfolding start_each fail_start
start to_start creates joins r =
    let created = let_go joins (start_each (to_create to_start r) creates r) in
    if not (running r.number_running == 0) then some (already_started, r) else created

-- `start_one`: `failed` is the exception of `pthread_create`.
unfoldable pub start_one : Bool → ThreadRunner → Started × ThreadRunner
unfolding start_one_thread
start_one ok r =
    let (created, after) = start_one_thread ok r in
    if pos_part r.number_running == r.number_of_jobs
    then (already_started, r)
    else (if created then started else failed, after)
