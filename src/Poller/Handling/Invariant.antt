-- ===== src/Poller/Handling/Invariant.antt =====
-- The invariant of the steps of `handle_`.
use litemq.Prelude.{
  ℕ, suc, zero, ◌+◌, ◌^◌, ◌<◌, ◌≤◌, ◌≡◌, ◌⊎◌, refl, ◌∙◌, inl, inr, Bool, true, false, ◌||◌,
  if◌then◌else◌, ◌==◌, arith,
}
use litemq.Poller.Holder.{
  DescriptorHandlerHolder, apply_state_modify, call_if, modify_read, modify_write,
}
use litemq.Poller.Handling.{
  Handling, marked, deleted, told, forgotten, left_to_cleaner, outside, tried, handling,
  read_called, called, after_round, finishing, leaving, faulted, Step, enter, skip, begin,
  read_handler, write_handler, go_on, close, finish, again, leave, rearm_handler, rearm_null,
  release_more, release_thread, Reach, here, next, finish_at, outside_threads, start,
}
use litemq.Poller.Handling.Counts.{
  holds, begun, made, count, count_handling-le, count-set, counts-set,
}

modify_read-frame :
    (m : ℕ) (h : DescriptorHandlerHolder)
    → ((modify_read m h).handle_in_progress ≡ h.handle_in_progress)
      × ((modify_read m h).handling_finished ≡ h.handling_finished)
      × ((modify_read m h).descriptor_handler ≡ h.descriptor_handler)
unfolding modify_read
modify_read-frame m h = ground arith

modify_write-frame :
    (m : ℕ) (h : DescriptorHandlerHolder)
    → ((modify_write m h).handle_in_progress ≡ h.handle_in_progress)
      × ((modify_write m h).handling_finished ≡ h.handling_finished)
      × ((modify_write m h).descriptor_handler ≡ h.descriptor_handler)
unfolding modify_write
modify_write-frame m h = ground arith

-- A call changes flags of the holder only.
pub call_if-frame :
    (armed : Bool) (m : ℕ) (h : DescriptorHandlerHolder)
    → ((call_if armed m h).1.handle_in_progress ≡ h.handle_in_progress)
      × ((call_if armed m h).1.handling_finished ≡ h.handling_finished)
      × ((call_if armed m h).1.descriptor_handler ≡ h.descriptor_handler)
unfolding call_if apply_state_modify
call_if-frame true m h =
    let r = modify_read-frame m h in
    let w = modify_write-frame m (modify_read m h) in (w.0 ∙ r.0, w.1 ∙ r.1, w.2 ∙ r.2)
call_if-frame false m h = (refl, refl, refl)

-- Before the last round every entry is counted but for those that a finished round answered, and
-- one thread holds the right just if there are such entries. An entry since the last round began
-- is counted beside the one that the round is for.
pub record Open (s : Handling) : Type 0 where
  pub unfinished : s.holder.handling_finished ≡ false
  pub counted : s.holder.handle_in_progress + s.rounds ≡ s.entered + count made s.threads
  pub bounded : s.holder.handle_in_progress ≤ s.entered
  pub one_holder : count holds s.threads ≡ (if s.holder.handle_in_progress == 0 then 0 else 1)
  pub noticed : (s.is_pending ≡ false) ⊎ (count begun s.threads + 1 ≤ s.holder.handle_in_progress)

-- After it no thread holds the right, and the count stays above 0.
pub record Closed (s : Handling) : Type 0 where
  pub finished : s.holder.handling_finished ≡ true
  pub bounded : s.holder.handle_in_progress ≤ s.entered
  pub positive : 0 < s.holder.handle_in_progress
  pub no_holder : count holds s.threads ≡ 0

abbrev pub Inv : Handling → Type 0
Inv s = Open s ⊎ Closed s

Step-Inv : (s : Handling) (i : ℕ) {t : Handling} → Step s i t → t.entered < 2 ^ 31 → Inv s → Inv t
unfolding finish_at
Step-Inv s i (enter e) k (inl o) = inl (
    let moves = counts-set s.threads i outside (tried s.holder.handle_in_progress) e in
    let begun = count_handling-le s.threads in ground (arith, moves, begun))
Step-Inv s i (enter e) k (inr c) = inr (
    let moves = counts-set s.threads i outside (tried s.holder.handle_in_progress) e in
    ground (arith, moves))
Step-Inv s i (skip {prev = p} e d) k (inl o) =
    inl (
      let moves = counts-set s.threads i (tried p) (leaving false false) e in ground (arith, moves))
Step-Inv s i (skip {prev = p} e d) k (inr c) =
    inr (
      let moves = counts-set s.threads i (tried p) (leaving false false) e in ground (arith, moves))
Step-Inv s i (begin {prev = p} e f z) k (inl o) =
    inl (
      let moves = counts-set s.threads i (tried p) (handling false false) e in
      ground (arith, moves))
Step-Inv s i (begin {prev = p} e f z) k (inr c) = absurd (ground arith)
Step-Inv s i (read_handler {stop = b} {rearm = r} on_read e) k (inl o) = inl (
    let stop = b || (call_if s.holder.handle_read on_read s.holder).0 in
    let moves = counts-set s.threads i (handling b r) (read_called stop r) e in
    ground (arith, moves, call_if-frame s.holder.handle_read on_read s.holder))
Step-Inv s i (read_handler {stop = b} {rearm = r} on_read e) k (inr c) =
    absurd (omega (arith, c.no_holder, count-set holds s.threads i (handling b r) outside e))
Step-Inv s i (write_handler {stop = b} {rearm = r} on_write e) k (inl o) = inl (
    let stop = b || (call_if s.holder.handle_write on_write s.holder).0 in
    let moves = counts-set s.threads i (read_called b r) (called stop r) e in
    ground (arith, moves, call_if-frame s.holder.handle_write on_write s.holder))
Step-Inv s i (write_handler {stop = b} {rearm = r} on_write e) k (inr c) =
    absurd (omega (arith, c.no_holder, count-set holds s.threads i (read_called b r) outside e))
Step-Inv s i (go_on {stop = b} {rearm = r} e f) k (inl o) = inl (
    let moves = counts-set s.threads i (called b r) (after_round b true) e in ground (arith, moves))
Step-Inv s i (go_on {stop = b} {rearm = r} e f) k (inr c) =
    absurd (omega (arith, c.no_holder, count-set holds s.threads i (called b r) outside e))
Step-Inv s i (close {stop = b} {rearm = r} e f) k (inl o) = inr (
    let moves = counts-set s.threads i (called b r) (finishing marked b r) e in
    ground (arith, moves))
Step-Inv s i (close {stop = b} {rearm = r} e f) k (inr c) =
    absurd (omega (arith, c.no_holder, count-set holds s.threads i (called b r) outside e))
Step-Inv s i (finish {stage = marked} {stop = b} {rearm = r} e) k (inl o) = inl (
    let moves = counts-set s.threads i (finishing marked b r) (finishing deleted b r) e in
    ground (arith, moves))
Step-Inv s i (finish {stage = marked} {stop = b} {rearm = r} e) k (inr c) = inr (
    let moves = counts-set s.threads i (finishing marked b r) (finishing deleted b r) e in
    ground (arith, moves))
Step-Inv s i (finish {stage = deleted} {stop = b} {rearm = r} e) k (inl o) = inl (
    let moves = counts-set s.threads i (finishing deleted b r) (finishing told b r) e in
    ground (arith, moves))
Step-Inv s i (finish {stage = deleted} {stop = b} {rearm = r} e) k (inr c) = inr (
    let moves = counts-set s.threads i (finishing deleted b r) (finishing told b r) e in
    ground (arith, moves))
Step-Inv s i (finish {stage = told} {stop = b} {rearm = r} e) k (inl o) = inl (
    let moves = counts-set s.threads i (finishing told b r) (finishing forgotten b r) e in
    ground (arith, moves))
Step-Inv s i (finish {stage = told} {stop = b} {rearm = r} e) k (inr c) = inr (
    let moves = counts-set s.threads i (finishing told b r) (finishing forgotten b r) e in
    ground (arith, moves))
Step-Inv s i (finish {stage = forgotten} {stop = b} {rearm = r} e) k (inl o) = inl (
    let moves =
      counts-set s.threads i (finishing forgotten b r) (finishing left_to_cleaner b r) e in
    ground (arith, moves))
Step-Inv s i (finish {stage = forgotten} {stop = b} {rearm = r} e) k (inr c) = inr (
    let moves =
      counts-set s.threads i (finishing forgotten b r) (finishing left_to_cleaner b r) e in
    ground (arith, moves))
Step-Inv s i (finish {stage = left_to_cleaner} {stop = b} {rearm = r} e) k (inl o) = inl (
    let moves = counts-set s.threads i (finishing left_to_cleaner b r) (leaving b r) e in
    ground (arith, moves))
Step-Inv s i (finish {stage = left_to_cleaner} {stop = b} {rearm = r} e) k (inr c) = inr (
    let moves = counts-set s.threads i (finishing left_to_cleaner b r) (leaving b r) e in
    ground (arith, moves))
Step-Inv s i (again {stop = b} {rearm = r} e m) k (inl o) =
    inl (
      let moves = counts-set s.threads i (after_round b r) (handling b r) e in
      ground (arith, moves))
Step-Inv s i (again {stop = b} {rearm = r} e m) k (inr c) =
    absurd (omega (arith, c.no_holder, count-set holds s.threads i (after_round b r) outside e))
Step-Inv s i (leave {stop = b} {rearm = r} e m) k (inl o) =
    inl (
      let moves = counts-set s.threads i (after_round b r) (leaving b r) e in ground (arith, moves))
Step-Inv s i (leave {stop = b} {rearm = r} e m) k (inr c) =
    absurd (omega (arith, c.no_holder, count-set holds s.threads i (after_round b r) outside e))
Step-Inv s i (rearm_handler {stop = b} e d) k (inl o) = inl (
    let moves = counts-set s.threads i (leaving b true) (leaving b false) e in
    ground (arith, moves))
Step-Inv s i (rearm_handler {stop = b} e d) k (inr c) = inr (
    let moves = counts-set s.threads i (leaving b true) (leaving b false) e in
    ground (arith, moves))
Step-Inv s i (rearm_null {stop = b} e d) k (inl o) =
    inl (let moves = counts-set s.threads i (leaving b true) faulted e in ground (arith, moves))
Step-Inv s i (rearm_null {stop = b} e d) k (inr c) =
    inr (let moves = counts-set s.threads i (leaving b true) faulted e in ground (arith, moves))
Step-Inv s i (release_more e d) k (inl o) = inl (ground arith)
Step-Inv s i (release_more e d) k (inr c) = inr (ground arith)
Step-Inv s i (release_thread {stop = b} e d) k (inl o) =
    inl (let moves = counts-set s.threads i (leaving b false) outside e in ground (arith, moves))
Step-Inv s i (release_thread {stop = b} e d) k (inr c) =
    inr (let moves = counts-set s.threads i (leaving b false) outside e in ground (arith, moves))

entered_mono : (s : Handling) (i : ℕ) {t : Handling} → Step s i t → s.entered ≤ t.entered
unfolding finish_at
entered_mono s i (enter e) = omega arith
entered_mono s i (skip e d) = omega arith
entered_mono s i (begin e f z) = omega arith
entered_mono s i (read_handler on_read e) = omega arith
entered_mono s i (write_handler on_write e) = omega arith
entered_mono s i (go_on e f) = omega arith
entered_mono s i (close e f) = omega arith
entered_mono s i (finish {stage = marked} e) = omega arith
entered_mono s i (finish {stage = deleted} e) = omega arith
entered_mono s i (finish {stage = told} e) = omega arith
entered_mono s i (finish {stage = forgotten} e) = omega arith
entered_mono s i (finish {stage = left_to_cleaner} e) = omega arith
entered_mono s i (again e m) = omega arith
entered_mono s i (leave e m) = omega arith
entered_mono s i (rearm_handler e d) = omega arith
entered_mono s i (rearm_null e d) = omega arith
entered_mono s i (release_more e d) = omega arith
entered_mono s i (release_thread e d) = omega arith

count-outside_threads :
    (n : ℕ)
    → (count holds (outside_threads n) ≡ 0)
      × (count begun (outside_threads n) ≡ 0)
      × (count made (outside_threads n) ≡ 0)
unfolding outside_threads
count-outside_threads zero = (refl, refl, refl)
count-outside_threads (suc n) =
    let rest = count-outside_threads n in
    (omega (arith, rest.0), omega (arith, rest.1), omega (arith, rest.2))

pub start-Inv : (address handler n : ℕ) → Inv (start address handler n)
unfolding start
start-Inv address handler n =
    let none = count-outside_threads n in
    inl (record {
      unfinished = refl;
      counted = omega (arith, none.2);
      bounded = omega arith;
      one_holder = none.0;
      noticed = inl refl;
    })

pub Reach-Inv : {s t : Handling} → Inv s → Reach s t → t.entered < 2 ^ 31 → Inv t
Reach-Inv v here k = v
Reach-Inv v (next {t = t} r i st) k =
    let before = entered_mono t i st in Step-Inv t i st k (Reach-Inv v r (omega arith))
