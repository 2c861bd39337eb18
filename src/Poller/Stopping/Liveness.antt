-- ===== src/Poller/Stopping/Liveness.antt =====
-- Every thread of a poller stops after `deactivate_object`.
use litemq.Prelude.{
  ℕ, zero, suc, ◌+◌, ◌*◌, ◌≤◌, ◌≡◌, ◌⊎◌, inl, inr, refl, sym, ap, ap₂, subst, ◌∙◌, Bool, true,
  false, if◌then◌else◌, ltb, List, [], ◌∷◌, ◌++◌, All, get_elem?, set, some, Bool-cases, arith,
}
use mathlib.Core.Option.{some-injective}
use litemq.Poller.Holder.{DescriptorHandlerHolder, make_holder}
use litemq.Poller.Stopping.{
  StopPipe, stop, stop_times, handle_alone, any_stops, Phase, waiting, notified, returned, Stopping,
  moved, after_events, handled, Step, wait, handle, leave, Run, here, next, waiting_threads,
  deactivated,
}

-- Sums over the threads
abbrev pub total : (Phase → ℕ) → List Phase → ℕ
total f [] = 0
total f (p ∷ ps) = f p + total f ps

total-set :
    (f : Phase → ℕ) (ps : List Phase) (i : ℕ) (old new : Phase)
    → get_elem? ps i ≡ some old
    → total f (set ps i new) + f old ≡ total f ps + f new
total-set f [] i old new h = absurd (ground arith)
total-set f (p ∷ ps) zero old new h =
    let same : f p ≡ f old = ap f (some-injective p old h) in omega (arith, same)
total-set f (p ∷ ps) (suc i) old new h = omega (arith, total-set f ps i old new h)

abbrev steps_left : Phase → ℕ
steps_left waiting = 2
steps_left notified = 1
steps_left returned = 0

abbrev pub is_notified : Phase → ℕ
is_notified notified = 1
is_notified _ = 0

abbrev arms : Bool → ℕ
arms true = 1
arms false = 0

-- The pipe after `stop`, and the holder of the pipe, whose `write()` was called or not.
abbrev stopped_pipe : ℕ → StopPipe
stopped_pipe m = record { is_stopped = true; messages = suc m }

abbrev pipe_holder : Bool → DescriptorHandlerHolder
pipe_holder handle_write = record (make_holder 0) { handle_write = handle_write }

handle_alone-stopped :
    (m : ℕ) (w : Bool)
    → handle_alone (stopped_pipe m) (pipe_holder w)
      ≡ (true, stopped_pipe m, pipe_holder false, true)
unfolding handle_alone make_holder
handle_alone-stopped m true = refl
handle_alone-stopped m false = refl

-- `k` steps after the call of `deactivate_object`, with `n` threads
record IsStopping (n k : ℕ) (s : Stopping) : Type 0 where
  messages : ℕ
  pipe : s.pipe ≡ stopped_pipe messages
  handle_write : Bool
  holder : s.holder ≡ pipe_holder handle_write
  exclusive : total is_notified s.threads + arms s.is_armed ≡ 1
  bounded : k + total steps_left s.threads ≤ 2 * n

any_stops-append : (front behind : List Bool) → any_stops (front ++ (true ∷ behind)) ≡ true
unfolding any_stops
any_stops-append [] behind = refl
any_stops-append (true ∷ front) behind = refl
any_stops-append (false ∷ front) behind = any_stops-append front behind

-- the state after a thread handled its events, by what the call for the pipe gave
abbrev Outcome : Type 0
Outcome = Bool × StopPipe × DescriptorHandlerHolder × Bool

abbrev afterwards : ℕ → List Bool → List Bool → List Phase → Outcome → Stopping
afterwards i front behind threads outcome = record {
  pipe = outcome.1;
  holder = outcome.2;
  is_armed = outcome.3;
  threads = set threads i (after_events (front ++ (outcome.0 ∷ behind)));
}

handled-afterwards :
    (i : ℕ) (front behind : List Bool) (s : Stopping)
    → handled i front behind s ≡ afterwards i front behind s.threads (handle_alone s.pipe s.holder)
unfolding handled
handled-afterwards i front behind s = refl

handled-stopped :
    (i m : ℕ) (w : Bool) (front behind : List Bool) (s : Stopping)
    → s.pipe ≡ stopped_pipe m
    → s.holder ≡ pipe_holder w
    → handled i front behind s ≡ record {
      pipe = stopped_pipe m;
      holder = pipe_holder false;
      is_armed = true;
      threads = set s.threads i returned;
    }
handled-stopped i m w front behind s p h =
    handled-afterwards i front behind s
    ∙ ap (afterwards i front behind s.threads) (ap₂ handle_alone p h ∙ handle_alone-stopped m w)
    ∙ ap
        (λ b. record {
          pipe = stopped_pipe m;
          holder = pipe_holder false;
          is_armed = true;
          threads = set s.threads i (if b then returned else waiting);
        })
        (any_stops-append front behind)

Step-IsStopping : (n k : ℕ) (s t : Stopping) → IsStopping n k s → Step s t → IsStopping n (suc k) t
unfolding any_stops
Step-IsStopping n k s t v (wait i e armed some_data) =
    let left = total-set steps_left s.threads i waiting notified e in
    let count = total-set is_notified s.threads i waiting notified e in
    let was_armed = ap arms armed in
    record {
      messages = v.messages;
      pipe = v.pipe;
      handle_write = v.handle_write;
      holder = v.holder;
      exclusive = omega (arith, count, v.exclusive, was_armed);
      bounded = omega (arith, left, v.bounded);
    }
Step-IsStopping n k s t v (leave i events e stops) =
    let left = total-set steps_left s.threads i waiting returned e in
    let count = total-set is_notified s.threads i waiting returned e in
    record {
      messages = v.messages;
      pipe = v.pipe;
      handle_write = v.handle_write;
      holder = v.holder;
      exclusive = omega (arith, count, v.exclusive);
      bounded = omega (arith, left, v.bounded);
    }
Step-IsStopping n k s t v (handle i front behind e) =
    let left = total-set steps_left s.threads i notified returned e in
    let count = total-set is_notified s.threads i notified returned e in
    subst (IsStopping n (suc k))
      (sym (handled-stopped i v.messages v.handle_write front behind s v.pipe v.holder))
      (record {
        messages = v.messages;
        pipe = refl;
        handle_write = false;
        holder = refl;
        exclusive = omega (arith, count, v.exclusive);
        bounded = omega (arith, left, v.bounded);
      })

stop_times-suc : (n : ℕ) → stop_times (suc n) ≡ stopped_pipe n
unfolding stop_times
stop_times-suc zero = refl
stop_times-suc (suc n) =
    let one_more : suc n + 1 ≡ suc (suc n) = omega arith in
    ap stop (stop_times-suc n) ∙ ap (λ m. record { is_stopped = true; messages = m }) one_more

waiting_threads-total :
    (n : ℕ)
    → (total is_notified (waiting_threads n) ≡ 0) × (total steps_left (waiting_threads n) ≡ 2 * n)
waiting_threads-total zero = omega arith
waiting_threads-total (suc n) =
    let rest = waiting_threads-total n in (omega (arith, rest.0), omega (arith, rest.1))

deactivated-IsStopping : (more n : ℕ) → IsStopping n 0 (deactivated more n)
unfolding deactivated
deactivated-IsStopping more n =
    let sums = waiting_threads-total n in
    record {
      messages = more;
      pipe = stop_times-suc more;
      handle_write = true;
      holder = refl;
      exclusive = omega (arith, sums.0);
      bounded = omega (arith, sums.1);
    }

Run-IsStopping :
    (n : ℕ) (s : Stopping)
    → IsStopping n 0 s
    → (k : ℕ) (t : Stopping) → Run s k t
    → IsStopping n k t
Run-IsStopping n s v k t here = v
Run-IsStopping n s v k t (next {n = m} {t = u} run step) =
    Step-IsStopping n m u t (Run-IsStopping n s v m u run) step

find_notified :
    (ps : List Phase) → 1 ≤ total is_notified ps → (i : ℕ) × (get_elem? ps i ≡ some notified)
find_notified [] h = absurd (omega (arith, h))
find_notified (notified ∷ ps) h = (0, refl)
find_notified (waiting ∷ ps) h = let (i, e) = find_notified ps (omega (arith, h)) in (suc i, e)
find_notified (returned ∷ ps) h = let (i, e) = find_notified ps (omega (arith, h)) in (suc i, e)

find_running :
    (ps : List Phase)
    → (All (λ p. p ≡ returned) ps)
      ⊎ ((i : ℕ) × ((get_elem? ps i ≡ some waiting) ⊎ (get_elem? ps i ≡ some notified)))
find_running [] = inl omega arith
find_running (waiting ∷ ps) = inr (0, inl refl)
find_running (notified ∷ ps) = inr (0, inr refl)
find_running (returned ∷ ps) = elim (find_running ps) [
  | inl done ↦ inl (refl, done)
  | inr (i, e) ↦ inr (suc i, e)
]

some_message : (m : ℕ) → ltb 0 (suc m) ≡ true
some_message m = ground arith

progress :
    (n k : ℕ) (s : Stopping)
    → IsStopping n k s
    → ((t : Stopping) × Step s t) ⊎ All (λ p. p ≡ returned) s.threads
progress n k s v = elim (find_running s.threads) [
  | inl done ↦ inr done
  | inr (i, inr e) ↦ inl (handled i [] [] s, handle i [] [] e)
  | inr (i, inl e) ↦ elim (Bool-cases s.is_armed) [
    | inl armed ↦
        let some_data : ltb 0 s.pipe.messages ≡ true =
          ap (λ p. ltb 0 p.messages) v.pipe ∙ some_message v.messages in
        inl (record (moved s i notified) { is_armed = false }, wait i e armed some_data)
    | inr disarmed ↦
        let (j, f) = find_notified s.threads (omega (arith, v.exclusive, ap arms disarmed)) in
        inl (handled j [] [] s, handle j [] [] f)
  ]
]

-- After `deactivate_object`, called once or more often, for `n` threads that wait: whatever order
-- the threads move in, and whatever other events they get, there are at most 2 n steps; at most one
-- thread at a time handles the pipe; and some thread can move, or all threads have returned.
pub Run-returned :
    (more n k : ℕ) (t : Stopping)
    → Run (deactivated more n) k t
    → (k ≤ 2 * n)
      × (total is_notified t.threads ≤ 1)
      × (((u : Stopping) × Step t u) ⊎ All (λ p. p ≡ returned) t.threads)
Run-returned more n k t run =
    let v = Run-IsStopping n (deactivated more n) (deactivated-IsStopping more n) k t run in
    (omega (arith, v.bounded), omega (arith, v.exclusive), progress n k t v)
