-- ===== src/Poller/Holder/Flags.antt =====
-- What the flags of a holder say after the changes that its handler asked for.
use litemq.Prelude.{
  ℕ, ◌≡◌, refl, ap, ◌∙◌, inl, inr, Bool, true, false, Bool-cases, ◌||◌, ◌&&◌, arith,
}
use litemq.Poller.Holder.{
  DescriptorHandlerHolder, has, close_read_handle, close_write_handle, apply_state_modify, call_if,
  modify_read, modify_write, handle_round,
}

read_part :
    (m : ℕ) (h : DescriptorHandlerHolder)
    → ((modify_read m h).read_closed ≡ (h.read_closed || has m close_read_handle))
      × ((modify_read m h).write_closed ≡ h.write_closed)
      × ((modify_read m h).handle_write ≡ h.handle_write)
unfolding modify_read
read_part m h = elim (Bool-cases (has m close_read_handle)) [
  | inl e ↦ rw e (ground arith)
  | inr e ↦ rw e (ground arith)
]

write_part :
    (m : ℕ) (h : DescriptorHandlerHolder)
    → ((modify_write m h).write_closed ≡ (h.write_closed || has m close_write_handle))
      × ((modify_write m h).read_closed ≡ h.read_closed)
unfolding modify_write
write_part m h = elim (Bool-cases (has m close_write_handle)) [
  | inl e ↦ rw e (ground arith)
  | inr e ↦ rw e (ground arith)
]

write_part-close :
    (m : ℕ) (h : DescriptorHandlerHolder)
    → has m close_write_handle ≡ true
    → modify_write m h ≡ record h { handle_read = false; write_closed = true }
unfolding modify_write
write_part-close m h e = rw e

-- A request to close writing does not stop the calls of `write`: it leaves `handle_write` as it
-- was, and clears `handle_read` instead, whatever is asked for reading.
apply_state_modify-close_write :
    (m : ℕ) (h : DescriptorHandlerHolder)
    → has m close_write_handle ≡ true
    → let h' = (apply_state_modify m h).1 in
      (h'.write_closed ≡ true) × (h'.handle_write ≡ h.handle_write) × (h'.handle_read ≡ false)
unfolding apply_state_modify
apply_state_modify-close_write m h e =
    rw (write_part-close m (modify_read m h) e) (refl, (read_part m h).2, refl)

pub apply_state_modify-closed :
    (m : ℕ) (h : DescriptorHandlerHolder)
    → let h' = (apply_state_modify m h).1 in
      (h'.read_closed ≡ (h.read_closed || has m close_read_handle))
      × (h'.write_closed ≡ (h.write_closed || has m close_write_handle))
unfolding apply_state_modify
apply_state_modify-closed m h =
    let r = read_part m h in
    let w = write_part m (modify_read m h) in (ground (arith, r, w), ground (arith, r, w))

call_if-closed :
    (armed : Bool) (m : ℕ) (h : DescriptorHandlerHolder)
    → let h' = (call_if armed m h).1 in
      (h'.read_closed ≡ (h.read_closed || (armed && has m close_read_handle)))
      × (h'.write_closed ≡ (h.write_closed || (armed && has m close_write_handle)))
unfolding call_if
call_if-closed true m h = apply_state_modify-closed m h
call_if-closed false m h = (or_false h.read_closed, or_false h.write_closed)
  where
    or_false : (b : Bool) → b ≡ (b || false)
    or_false true = refl
    or_false false = refl

-- In one round a direction is closed exactly if it was closed before, or a call that the flags let
-- the round make, of `read` first and then of `write`, asked to close it.
pub handle_round-closed :
    (on_read on_write : ℕ) (h : DescriptorHandlerHolder)
    → let h1 = (call_if h.handle_read on_read h).1 in
      let h2 = (handle_round on_read on_write h).1 in
      (h2.read_closed ≡ (
        (h.read_closed || (h.handle_read && has on_read close_read_handle))
        || (h1.handle_write && has on_write close_read_handle)))
      × (h2.write_closed ≡ (
          (h.write_closed || (h.handle_read && has on_read close_write_handle))
          || (h1.handle_write && has on_write close_write_handle)))
unfolding handle_round
handle_round-closed on_read on_write h =
    let h1 = (call_if h.handle_read on_read h).1 in
    let first = call_if-closed h.handle_read on_read h in
    let second = call_if-closed h1.handle_write on_write h1 in
    (
      second.0 ∙ ap (λ b. b || (h1.handle_write && has on_write close_read_handle)) first.0,
      second.1 ∙ ap (λ b. b || (h1.handle_write && has on_write close_write_handle)) first.1,
    )
