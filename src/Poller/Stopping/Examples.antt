-- ===== src/Poller/Stopping/Examples.antt =====
-- Tests of StopPipeDescriptorHandler of litemq/DescriptorHandlerPoller.cpp, and the theorem on the
-- threads that it stops at a concrete run.
use litemq.Prelude.{◌≤◌, ◌≡◌, ◌⊎◌, refl, false, [], ◌∷◌, All}
use litemq.Poller.Stopping.{
  make_pipe, read, waiting, notified, returned, Stopping, moved, handled, Step, wait, handle, Run,
  here, next, deactivated,
}
use litemq.Poller.Stopping.Liveness.{total, is_notified, Run-returned}

abbrev s0 : Stopping
s0 = deactivated 0 2

abbrev s1 : Stopping
s1 = record (moved s0 1 notified) { is_armed = false }

abbrev s2 : Stopping
s2 = handled 1 [] (false ∷ []) s1

one_stopped : Run s0 2 s2
unfolding deactivated
one_stopped = next (next here (wait 1 refl refl refl)) (handle 1 [] (false ∷ []) refl)

Run-returned_example :
    (2 ≤ 4)
    × (total is_notified s2.threads ≤ 1)
    × (((u : Stopping) × Step s2 u) ⊎ All (λ p. p ≡ returned) s2.threads)
Run-returned_example = Run-returned 0 2 2 s2 one_stopped

threads_test : s2.threads ≡ waiting ∷ returned ∷ []
unfolding handled deactivated
threads_test = refl

empty_test : read make_pipe ≡ (8, make_pipe)
unfolding read
empty_test = refl

passed_on_test : read (record make_pipe { messages = 1 }) ≡ (72, record make_pipe { messages = 1 })
unfolding read
passed_on_test = refl
