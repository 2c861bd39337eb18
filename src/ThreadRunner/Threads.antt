-- ===== src/ThreadRunner/Threads.antt =====
-- The loops of `start` and `wait_for_completion` of gears/ThreadRunner.cpp.
use litemq.Prelude.{
  ℕ, zero, suc, ◌+◌, ◌≤◌, ◌<◌, ◌≡◌, refl, ap, ◌∙◌, Bool, true, false, ◌&&◌, ltb, some, List, [],
  ◌∷◌, length, arith,
}
use litemq.Prelude.Int.{ℤ, pos, negsuc}
use litemq.ThreadRunner.{
  ThreadRunner, thread_func, joined, then_joined, with_result, join_each, start_each,
}

-- A runner of some jobs with none of its threads, and one with `n` threads, let go or not.
abbrev pub at_rest : ℕ → ℕ → ThreadRunner
at_rest jobs works = record {
  number_of_jobs = jobs;
  number_running = pos 0;
  start_semaphore = 0;
  works = works;
}

abbrev pub with_threads : ℕ → ℕ → ℤ → ℕ → ThreadRunner
with_threads jobs works n semaphore = record {
  number_of_jobs = jobs;
  number_running = n;
  start_semaphore = semaphore;
  works = works;
}

-- whether none of `n` calls failed
abbrev pub all_ok : ℕ → List Bool → Bool
all_ok zero results = true
all_ok (suc n) [] = true
all_ok (suc n) (ok ∷ results) = ok && all_ok n results

abbrev pub successes : ℕ → List Bool → List Bool
successes zero more = more
successes (suc n) more = true ∷ successes n more

pub start_each-successes :
    (n jobs works k semaphore : ℕ) (creates : List Bool)
    → start_each n (successes n creates) (with_threads jobs works (pos k) semaphore)
      ≡ some (true, with_threads jobs works (pos (k + n)) semaphore)
unfolding start_each
start_each-successes zero jobs works k semaphore creates =
    let same : k ≡ k + 0 = omega arith in
    ap (λ m. some (true, with_threads jobs works (pos m) semaphore)) same
start_each-successes (suc n) jobs works k semaphore creates =
    let next : k + 1 + n ≡ k + suc n = omega arith in
    start_each-successes n jobs works (k + 1) semaphore creates
    ∙ ap (λ m. some (true, with_threads jobs works (pos m) semaphore)) next

pub start_each-failure :
    (n created jobs works k semaphore : ℕ) (creates : List Bool)
    → created < n
    → start_each n (successes created (false ∷ creates)) (with_threads jobs works (pos k) semaphore)
      ≡ some (false, with_threads jobs works (pos (k + created)) semaphore)
unfolding start_each
start_each-failure zero created jobs works k semaphore creates h = absurd (omega (arith, h))
start_each-failure (suc n) zero jobs works k semaphore creates h =
    let same : k ≡ k + 0 = omega arith in
    ap (λ m. some (false, with_threads jobs works (pos m) semaphore)) same
start_each-failure (suc n) (suc created) jobs works k semaphore creates h =
    let next : k + 1 + created ≡ k + suc created = omega arith in
    start_each-failure n created jobs works (k + 1) semaphore creates (omega (arith, h))
    ∙ ap (λ m. some (false, with_threads jobs works (pos m) semaphore)) next

thread_func-works :
    (jobs works k : ℕ)
    → thread_func true (with_threads jobs works (pos (suc k)) 1)
      ≡ some (with_threads jobs (works + 1) (pos (suc k)) 1)
unfolding thread_func
thread_func-works jobs works k =
    let positive : ltb 0 (suc k) ≡ true = ground arith in rw positive refl

thread_func-failed :
    (jobs works k : ℕ)
    → thread_func true (with_threads jobs works (negsuc k) 1)
      ≡ some (with_threads jobs works (negsuc k) 1)
unfolding thread_func
thread_func-failed jobs works k = refl

-- Threads that were let go work, if the runner is running and each join waits.
pub join_each-works :
    (n jobs works k : ℕ) (joins : List Bool)
    → n ≤ length joins
    → all_ok n joins ≡ true
    → join_each n true joins (with_threads jobs works (pos (suc k)) 1)
      ≡ some (true, with_threads jobs (works + n) (pos (suc k)) 1)
unfolding join_each
join_each-works zero jobs works k joins h o =
    let same : works ≡ works + 0 = omega arith in
    ap (λ w. some (true, with_threads jobs w (pos (suc k)) 1)) same
join_each-works (suc n) jobs works k [] h o = absurd (omega (arith, h))
join_each-works (suc n) jobs works k (false ∷ joins) h o = absurd (ground (arith, o))
join_each-works (suc n) jobs works k (true ∷ joins) h o =
    let next : works + 1 + n ≡ works + suc n = omega arith in
    ap (λ r. with_result true (then_joined (join_each n true joins) r))
      (thread_func-works jobs works k)
    ∙ ap (with_result true) (join_each-works n jobs (works + 1) k joins (omega (arith, h)) o)
    ∙ ap (λ w. some (true, with_threads jobs w (pos (suc k)) 1)) next

joined-failed :
    (ok : Bool) (jobs works k : ℕ)
    → joined ok true (with_threads jobs works (negsuc k) 1)
      ≡ some (with_threads jobs works (negsuc k) 1)
joined-failed true jobs works k = thread_func-failed jobs works k
joined-failed false jobs works k = refl

pub join_each-failed :
    (n jobs works k : ℕ) (joins : List Bool)
    → n ≤ length joins
    → join_each n true joins (with_threads jobs works (negsuc k) 1)
      ≡ some (all_ok n joins, with_threads jobs works (negsuc k) 1)
unfolding join_each
join_each-failed zero jobs works k joins h = refl
join_each-failed (suc n) jobs works k [] h = absurd (omega (arith, h))
join_each-failed (suc n) jobs works k (ok ∷ joins) h =
    ap (λ o. with_result ok (then_joined (join_each n true joins) o))
      (joined-failed ok jobs works k)
    ∙ ap (with_result ok) (join_each-failed n jobs works k joins (omega (arith, h)))
