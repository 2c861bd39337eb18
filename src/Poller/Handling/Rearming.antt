-- ===== src/Poller/Handling/Rearming.antt =====
-- The re-arming behind the loop of `handle_`: `rearm_fd` is not taken back when a later round
-- closes.
use litemq.Prelude.{
  ℕ, suc, zero, ap, ◌||◌, Bool, List, [], ◌∷◌, set, arith, ◌≡◌, refl, ◌∙◌, true, false, some, none,
  get_elem?, dec32, slt32,
}
use litemq.Poller.Holder.{
  DescriptorHandlerHolder, make_holder, reset_descriptor_handler, call_if, handle_round, is_closed,
}
use litemq.Poller.Handling.{
  Handling, Pc, marked, deleted, told, forgotten, left_to_cleaner, handling, read_called, called,
  after_round, finishing, leaving, faulted, moved, enter, begin, read_handler, write_handler, go_on,
  close, finish, again, rearm_null, Reach, here, next, finish_at, with_count, start,
  outside_threads,
}
use litemq.Poller.Handling.Invariant.{call_if-frame}

-- The holder after the first round of thread 0, which thread 1 has told of another event by then,
-- and the holder after the second.
abbrev pub after_first : ℕ → ℕ → ℕ → DescriptorHandlerHolder
after_first handler on_read on_write =
    (handle_round on_read on_write (with_count (make_holder handler) 2)).1

abbrev pub after_second : DescriptorHandlerHolder → ℕ → ℕ → DescriptorHandlerHolder
after_second h on_read on_write =
    (handle_round on_read on_write (with_count h (dec32 h.handle_in_progress))).1

after_first-counts :
    (handler on_read on_write : ℕ) → (after_first handler on_read on_write).handle_in_progress ≡ 2
unfolding handle_round
after_first-counts handler on_read on_write =
    let h = with_count (make_holder handler) 2 in
    let h1 = (call_if h.handle_read on_read h).1 in
    (call_if-frame h1.handle_write on_write h1).0 ∙ (call_if-frame h.handle_read on_read h).0

get_elem?-set_self :
    (pcs : List Pc) (i : ℕ) (old new : Pc)
    → get_elem? pcs i ≡ some old
    → get_elem? (set pcs i new) i ≡ some new
get_elem?-set_self [] i old new e = absurd (ground arith)
get_elem?-set_self (pc ∷ pcs) zero old new e = refl
get_elem?-set_self (pc ∷ pcs) (suc i) old new e = get_elem?-set_self pcs i old new e

abbrev Faults : Handling → ℕ → Type 0
Faults s i =
    (u : Handling) × Reach s u
    × (u.holder.handling_finished ≡ true)
    × (get_elem? u.threads i ≡ some faulted)

module _ (s : Handling) (i : ℕ) (stop : Bool) where
  forgotten-Faults :
      (t : Handling)
      → Reach s t
      → get_elem? t.threads i ≡ some (finishing forgotten stop true)
      → t.holder.handling_finished ≡ true
      → t.holder.descriptor_handler ≡ none
      → Faults s i
  unfolding finish_at
  forgotten-Faults t r e f d =
      let e1 =
        get_elem?-set_self t.threads i (finishing forgotten stop true)
          (finishing left_to_cleaner stop true) e in
      let t1 = finish_at forgotten stop true i t in
      let e2 =
        get_elem?-set_self t1.threads i (finishing left_to_cleaner stop true) (leaving stop true)
          e1 in
      let t2 = finish_at left_to_cleaner stop true i t1 in
      (
        moved t2 i faulted,
        next (next (next r i (finish e)) i (finish e1)) i (rearm_null e2 d),
        f,
        get_elem?-set_self t2.threads i (leaving stop true) faulted e2,
      )

  marked-Faults :
      (t : Handling)
      → Reach s t
      → get_elem? t.threads i ≡ some (finishing marked stop true)
      → t.holder.handling_finished ≡ true
      → Faults s i
  unfolding finish_at reset_descriptor_handler
  marked-Faults t r e f =
      let e1 =
        get_elem?-set_self t.threads i (finishing marked stop true) (finishing deleted stop true)
          e in
      let t1 = finish_at marked stop true i t in
      let e2 =
        get_elem?-set_self t1.threads i (finishing deleted stop true) (finishing told stop true)
          e1 in
      let t2 = finish_at deleted stop true i t1 in
      let e3 =
        get_elem?-set_self t2.threads i (finishing told stop true) (finishing forgotten stop true)
          e2 in
      forgotten-Faults (finish_at told stop true i t2)
        (next (next (next r i (finish e)) i (finish e1)) i (finish e2)) e3 f refl

  called-Faults :
      (t : Handling)
      → Reach s t
      → get_elem? t.threads i ≡ some (called stop true)
      → is_closed t.holder ≡ true
      → Faults s i
  called-Faults t r e c =
      marked-Faults _ (next r i (close e c))
        (get_elem?-set_self t.threads i (called stop true) (finishing marked stop true) e) refl

  -- the calls of a round
  round-Reach :
      (t : Handling) (rearm : Bool) (on_read on_write : ℕ)
      → Reach s t
      → get_elem? t.threads i ≡ some (handling stop rearm)
      → (u : Handling) × (stops : Bool) × Reach s u
        × (get_elem? u.threads i ≡ some (called stops rearm))
        × (u.holder ≡ (handle_round on_read on_write t.holder).1)
  unfolding handle_round
  round-Reach t rearm on_read on_write r e =
      let stops = stop || (call_if t.holder.handle_read on_read t.holder).0 in
      let e1 = get_elem?-set_self t.threads i (handling stop rearm) (read_called stops rearm) e in
      let r1 = next r i (read_handler on_read e) in
      (_, _, next r1 i (write_handler on_write e1), get_elem?-set_self _ i _ _ e1, refl)

  -- the end of a round when another thread has told of an event
  again-Reach :
      (t : Handling)
      → Reach s t
      → get_elem? t.threads i ≡ some (called stop false)
      → is_closed t.holder ≡ false
      → slt32 1 t.holder.handle_in_progress ≡ true
      → (u : Handling) × Reach s u
        × (get_elem? u.threads i ≡ some (handling stop true))
        × (u.holder ≡ with_count t.holder (dec32 t.holder.handle_in_progress))
  again-Reach t r e c m =
      let e1 = get_elem?-set_self t.threads i (called stop false) (after_round stop true) e in
      (_, next (next r i (go_on e c)) i (again e1 m), get_elem?-set_self _ i _ _ e1, refl)

begun-Reach :
    (address handler n : ℕ)
    → (u : Handling) × Reach (start address handler (suc (suc n))) u
      × (get_elem? u.threads 0 ≡ some (handling false false))
      × (u.holder ≡ with_count (make_holder handler) 2)
unfolding start outside_threads make_holder
begun-Reach address handler n =
    (_, next (next (next here 0 (enter refl)) 1 (enter refl)) 0 (begin refl refl refl), refl, refl)

-- Two threads get an event of a new holder. If the calls of the first round do not close both
-- directions, and those of the second round do, there is a run in which the thread that made them
-- ends the handling, and then reads through the null handler to re-arm it.
pub Reach-faulted :
    (address handler n first_read first_write second_read second_write : ℕ)
    → is_closed (after_first handler first_read first_write) ≡ false
    → is_closed (after_second (after_first handler first_read first_write) second_read second_write)
      ≡ true
    → (s : Handling) × Reach (start address handler (suc (suc n))) s
      × (s.holder.handling_finished ≡ true)
      × (get_elem? s.threads 0 ≡ some faulted)
Reach-faulted address handler n first_read first_write second_read second_write not_closed closed =
    let more : slt32 1 (after_first handler first_read first_write).handle_in_progress ≡ true =
      rw (after_first-counts handler first_read first_write) refl in
    let s = start address handler (suc (suc n)) in
    let (t, r, e, h) = begun-Reach address handler n in
    let (t1, stop, r1, e1, h1) = round-Reach s 0 false t false first_read first_write r e in
    let first =
      h1 ∙ ap (λ (x : DescriptorHandlerHolder). (handle_round first_read first_write x).1) h in
    let (t2, r2, e2, h2) =
      again-Reach s 0 stop t1 r1 e1 (ap is_closed first ∙ not_closed)
        (ap (λ (x : DescriptorHandlerHolder). slt32 1 x.handle_in_progress) first ∙ more) in
    let (t3, stop3, r3, e3, h3) = round-Reach s 0 stop t2 true second_read second_write r2 e2 in
    let second =
      h3
      ∙ ap (λ (x : DescriptorHandlerHolder). (handle_round second_read second_write x).1)
          (h2
            ∙ ap (λ (x : DescriptorHandlerHolder). with_count x (dec32 x.handle_in_progress))
                first) in
    called-Faults s 0 stop3 t3 r3 e3 (ap is_closed second ∙ closed)
