-- ===== src/Poller/Handling/Exclusion.antt =====
-- One thread at a time handles a holder, none after the last round, and every event is handled.
use litemq.Prelude.{ℕ, ◌^◌, ◌<◌, ◌≤◌, ◌≡◌, ◌⊎◌, inl, inr, false, arith}
use litemq.Poller.Handling.{Handling, Reach, start}
use litemq.Poller.Handling.Counts.{holds, count, count_handling, holding, count_handling-le}
use litemq.Poller.Handling.Invariant.{Inv, start-Inv, Reach-Inv}

-- However the threads interleave, as long as `handle_` was entered fewer than 2 ^ 31 times: at
-- most one thread is between the calls of the handler, and none once the handling has finished.
pub Reach-exclusive :
    (address handler n : ℕ) (s : Handling)
    → Reach (start address handler n) s
    → s.entered < 2 ^ 31
    → (count_handling s.threads ≤ 1)
      × ((s.holder.handling_finished ≡ false) ⊎ (count_handling s.threads ≡ 0))
Reach-exclusive address handler n s r k = bounds (Reach-Inv (start-Inv address handler n) r k)
  where
    bounds :
        Inv s
        → (count_handling s.threads ≤ 1)
          × ((s.holder.handling_finished ≡ false) ⊎ (count_handling s.threads ≡ 0))
    bounds (inl o) = (ground (arith, o.one_holder, count_handling-le s.threads), inl o.unfinished)
    bounds (inr c) = (
      omega (arith, count_handling-le s.threads, c.no_holder),
      inr (omega (arith, count_handling-le s.threads, c.no_holder)),
    )

-- No event is lost, as long as `handle_` was entered fewer than 2 ^ 31 times: when no entry is
-- counted any more and the handling goes on, as many rounds of calls of the handler have ended as
-- there were entries, the last of them began after the last entry, and no thread is in a round.
pub Reach-answered :
    (address handler n : ℕ) (s : Handling)
    → Reach (start address handler n) s
    → s.entered < 2 ^ 31
    → s.holder.handling_finished ≡ false
    → s.holder.handle_in_progress ≡ 0
    → (s.rounds ≡ s.entered) × (s.is_pending ≡ false) × (holding s.threads ≡ 0)
Reach-answered address handler n s r k f z = answer (Reach-Inv (start-Inv address handler n) r k)
  where
    answer : Inv s → (s.rounds ≡ s.entered) × (s.is_pending ≡ false) × (holding s.threads ≡ 0)
    answer (inl o) =
        let idle : count holds s.threads ≡ 0 = ground (arith, o.one_holder) in
        (
          omega (arith, o.counted, idle, count_handling-le s.threads),
          ground (arith, o.noticed),
          idle,
        )
    answer (inr c) = absurd (ground (arith, c.finished))
