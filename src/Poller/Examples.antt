-- ===== src/Poller/Examples.antt =====
-- Tests of litemq/DescriptorHandlerPoller.cpp and the theorems at concrete states.
use litemq.Prelude.{
  ℕ, ◌≤◌, ◌≡◌, ◌⊎◌, refl, true, false, ◌||◌, ◌&&◌, some, List, [], ◌∷◌, ◌++◌, get_elem?, arith,
}
use litemq.Poller.Holder.{
  DescriptorHandlerHolder, make_holder, has, both, close_read_handle, close_write_handle, call_if,
  handle_round, is_closed,
}
use litemq.Poller.Holder.Flags.{handle_round-closed}
use litemq.Poller.Cleaner.{
  idle, DescriptorHandlerCleaner, zeros, stands, make_cleaner, push, release_step,
}
use litemq.Poller.Cleaner.Safety.{
  HasLists, Event, pushes, steps, run, run-cleared, make_cleaner-IsUnreleased,
}
use litemq.Poller.Cleaner.Ending.{alone, alone-ends}
use litemq.Poller.Handling.{
  Handling, tried, handling, after_round, leaving, faulted, enter, begin, read_handler,
  write_handler, go_on, leave, Reach, here, next, start, moved, with_count,
}
use litemq.Poller.Handling.Counts.{count_handling, holding}
use litemq.Poller.Handling.Exclusion.{Reach-exclusive, Reach-answered}
use litemq.Poller.Handling.Rearming.{Reach-faulted}

abbrev new_holder : DescriptorHandlerHolder
new_holder = record {
  descriptor_handler = some 5;
  handle_read = true;
  handle_write = true;
  read_closed = false;
  write_closed = false;
  handle_in_progress = 0;
  handling_finished = false;
}

handle_round-closed_example :
    let h1 = (call_if true close_read_handle new_holder).1 in
    let h2 = (handle_round close_read_handle close_write_handle new_holder).1 in
    (h2.read_closed ≡ (
      (false || (true && has close_read_handle close_read_handle))
      || (h1.handle_write && has close_write_handle close_read_handle)))
    × (h2.write_closed ≡ (
        (false || (true && has close_read_handle close_write_handle))
        || (h1.handle_write && has close_write_handle close_write_handle)))
handle_round-closed_example = handle_round-closed close_read_handle close_write_handle new_holder

-- Two threads; thread 1 does not release, and the holder 7 that thread 0 pushed is kept.
abbrev events : List Event
events = pushes 7 ∷ steps 0 ∷ steps 0 ∷ pushes 8 ∷ steps 0 ∷ steps 0 ∷ []

run-cleared_example : HasLists [] [] ([] ++ (7 ∷ 8 ∷ [])) (run events (make_cleaner 2))
run-cleared_example =
    run-cleared events 2 1 [] [] [] (make_cleaner 2)
      (make_cleaner-IsUnreleased 2 1 (omega arith) (omega arith)).0
      (make_cleaner-IsUnreleased 2 1 (omega arith) (omega arith)).1 (omega arith)

-- A call of `release` by each of two threads, that of thread 1 with the end of the round.
abbrev both_release : List Event
both_release =
    steps 0
    ∷ steps 0
    ∷ steps 0
    ∷ steps 1
    ∷ steps 1
    ∷ steps 1
    ∷ steps 1
    ∷ steps 1
    ∷ steps 1
    ∷ steps 1
    ∷ steps 1
    ∷ []

-- Two rounds in which both threads release let a holder go.
cleared_after_two_rounds :
    (run (pushes 7 ∷ (both_release ++ both_release)) (make_cleaner 2)).cleared ≡ 7 ∷ []
unfolding run make_cleaner push release_step
cleared_after_two_rounds = refl

-- Thread 0 of two has released, the holder 5 is free, and 7 is a candidate.
abbrev last_to_release : DescriptorHandlerCleaner
last_to_release = record {
  release_array = 1 ∷ 0 ∷ [];
  unreleased_count = 1;
  free = 5 ∷ [];
  free_candidates = 7 ∷ [];
  cleared = [];
  releases = idle ∷ idle ∷ [];
}

alone-ends_example :
    (k : ℕ) × (stands 1 (alone 1 k last_to_release) ≡ idle)
    × ((alone 1 k last_to_release).cleared ≡ 5 ∷ [])
    × ((alone 1 k last_to_release).free ≡ 7 ∷ [])
    × ((alone 1 k last_to_release).free_candidates ≡ [])
    × ((alone 1 k last_to_release).release_array ≡ zeros 2)
    × ((alone 1 k last_to_release).unreleased_count ≡ 2)
alone-ends_example =
    alone-ends 1 2 last_to_release (omega arith) (record {
      outside = refl;
      unset = refl;
      others = refl;
      counted = refl;
      in_range = omega arith;
    })

-- Threads 0 and 2 have released, and thread 1 ends the round: it lowers the flag of thread 0.
abbrev ending : DescriptorHandlerCleaner
ending =
    run
      (steps 0 ∷ steps 0 ∷ steps 0 ∷ steps 2 ∷ steps 2 ∷ steps 2 ∷ steps 1 ∷ steps 1 ∷ steps 1 ∷ [])
      (make_cleaner 3)

-- Before it goes on, thread 0 pushes the holder 7, releases again and ends the next round; and only
-- then thread 1 goes on, and lets 7 go, which neither it nor thread 2 has released.
abbrev overlapping : DescriptorHandlerCleaner
overlapping =
    run
      (steps 1
        ∷ steps 1
        ∷ pushes 7
        ∷ steps 0
        ∷ steps 0
        ∷ steps 0
        ∷ steps 0
        ∷ steps 0
        ∷ steps 0
        ∷ steps 0
        ∷ steps 0
        ∷ steps 0
        ∷ steps 0
        ∷ steps 1
        ∷ steps 1
        ∷ steps 1
        ∷ [])
      ending

overlapping_rounds :
    (overlapping.cleared ≡ 7 ∷ []) × (overlapping.release_array ≡ 0 ∷ 4294967295 ∷ 4294967295 ∷ [])
unfolding run make_cleaner push release_step
overlapping_rounds = (refl, refl)

-- Thread 0 gets an event, and thread 1 another while thread 0 handles the first.
abbrev s0 : Handling
s0 = start 9 5 2

abbrev s1 : Handling
s1 = record (moved s0 0 (tried 0)) {
  holder = with_count s0.holder 1;
  entered = 1;
  is_pending = true;
}

abbrev s2 : Handling
s2 = moved s1 0 (handling false false)

abbrev s3 : Handling
s3 = record (moved s2 1 (tried 1)) { holder = with_count s2.holder 2; entered = 2 }

reached : Reach s0 s3
unfolding start
reached = next (next (next here 0 (enter refl)) 0 (begin refl refl refl)) 1 (enter refl)

Reach-exclusive_example :
    (count_handling s3.threads ≤ 1)
    × ((s3.holder.handling_finished ≡ false) ⊎ (count_handling s3.threads ≡ 0))
unfolding start
Reach-exclusive_example = Reach-exclusive 9 5 2 s3 reached (omega arith)

-- Thread 0 alone gets an event, handles it in one round and leaves.
abbrev counted : DescriptorHandlerHolder
counted = with_count s0.holder 1

abbrev t5 : Handling
t5 = record (moved s2 0 (after_round false true)) {
  holder = (handle_round 0 0 counted).1;
  rounds = 1;
  is_pending = false;
}

abbrev t6 : Handling
t6 = record (moved t5 0 (leaving false true)) { holder = with_count (handle_round 0 0 counted).1 0 }

one_round : Reach s0 t6
unfolding start is_closed handle_round
one_round =
    let entered = next (next here 0 (enter refl)) 0 (begin refl refl refl) in
    let round = next (next entered 0 (read_handler 0 refl)) 0 (write_handler 0 refl) in
    next (next round 0 (go_on refl refl)) 0 (leave refl refl)

Reach-answered_example :
    (t6.rounds ≡ t6.entered) × (t6.is_pending ≡ false) × (holding t6.threads ≡ 0)
unfolding start handle_round
Reach-answered_example = Reach-answered 9 5 2 t6 one_round (omega arith) refl refl

-- The first round keeps all flags, and the second closes both directions.
Reach-faulted_example :
    (s : Handling) × Reach (start 9 5 2) s
    × (s.holder.handling_finished ≡ true)
    × (get_elem? s.threads 0 ≡ some faulted)
unfolding is_closed handle_round make_holder
Reach-faulted_example =
    Reach-faulted 9 5 0 0 0 (both close_read_handle close_write_handle) 0 refl refl
