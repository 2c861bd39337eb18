-- ===== src/Poller/Holder.antt =====
-- litemq/DescriptorHandlerPoller.hpp and .cpp: the changes that a handler asks for
-- (`StateChange`), the holder of a handler, and how the poller applies the changes.
pub mod Flags
use Prim.Native.Nat.{bit_or}
use litemq.Prelude.{
  ℕ, ◌/◌, ◌%◌, Bool, true, false, ◌&&◌, ◌||◌, if◌then◌else◌, ◌==◌, Option, none, some, List, [],
  ◌∷◌, ◌++◌, map, add32,
}

-- `enum StateChange`
abbrev pub continue_handle : ℕ
continue_handle = 0

abbrev pub stop_read_handle : ℕ
stop_read_handle = 1

abbrev pub start_read_handle : ℕ
start_read_handle = 2

abbrev pub close_read_handle : ℕ
close_read_handle = 4

abbrev pub stop_write_handle : ℕ
stop_write_handle = 8

abbrev pub start_write_handle : ℕ
start_write_handle = 16

abbrev pub close_write_handle : ℕ
close_write_handle = 32

abbrev pub stop_processing : ℕ
stop_processing = 64

-- `a | b` of two flags
abbrev pub both : ℕ → ℕ → ℕ
both a b = bit_or a b

-- `state_modify & flag` as a condition, for a flag with one bit
abbrev pub has : ℕ → ℕ → Bool
has state_modify flag = state_modify / flag % 2 == 1

-- `DescriptorHandlerHolder`. Of its handler it has the address, unless it was reset.
pub record DescriptorHandlerHolder : Type 0 where
  pub descriptor_handler : Option ℕ
  pub handle_read : Bool
  pub handle_write : Bool
  pub read_closed : Bool
  pub write_closed : Bool
  pub handle_in_progress : ℕ
  pub handling_finished : Bool

unfoldable pub make_holder : ℕ → DescriptorHandlerHolder
make_holder handler = record {
  descriptor_handler = some handler;
  handle_read = true;
  handle_write = true;
  read_closed = false;
  write_closed = false;
  handle_in_progress = 0;
  handling_finished = false;
}

-- `reset_descriptor_handler`
unfoldable pub reset_descriptor_handler : DescriptorHandlerHolder → DescriptorHandlerHolder
reset_descriptor_handler h = record h { descriptor_handler = none }

-- `DescriptorHandler::link_holder_` and `unlink_holder_` on the addresses of the linked holders
unfoldable pub link_holder : ℕ → List ℕ → List ℕ
link_holder p [] = p ∷ []
link_holder p (x ∷ xs) = if x == p then x ∷ xs else x ∷ link_holder p xs

unfoldable pub unlink_holder : ℕ → List ℕ → List ℕ
unlink_holder p [] = []
unlink_holder p (x ∷ xs) = if x == p then xs else x ∷ unlink_holder p xs

-- The part of `apply_state_modify_` for reading, then the part for writing: in the source's words
-- the second begins with `res_handle_read = false` too.
unfoldable pub modify_read : ℕ → DescriptorHandlerHolder → DescriptorHandlerHolder
modify_read m h =
    if has m close_read_handle
    then record h { handle_read = false; read_closed = true }
    else if has m start_read_handle
    then record h { handle_read = true }
    else if has m stop_read_handle
    then record h { handle_read = false }
    else h

unfoldable pub modify_write : ℕ → DescriptorHandlerHolder → DescriptorHandlerHolder
modify_write m h =
    if has m close_write_handle
    then record h { handle_read = false; write_closed = true }
    else if has m start_write_handle
    then record h { handle_write = true }
    else if has m stop_write_handle
    then record h { handle_write = false }
    else h

unfoldable pub apply_state_modify : ℕ → DescriptorHandlerHolder → Bool × DescriptorHandlerHolder
unfolding modify_read modify_write
apply_state_modify m h = (has m stop_processing, modify_write m (modify_read m h))

-- One call of the handler in a round of `handle_`, if its flag is set, given what it returns:
-- whether to stop processing, and the holder.
unfoldable pub call_if : Bool → ℕ → DescriptorHandlerHolder → Bool × DescriptorHandlerHolder
unfolding apply_state_modify
call_if true returned h = apply_state_modify returned h
call_if false returned h = (false, h)

-- One round: `read()` and then `write()`, the flag of the second as the first left it.
unfoldable pub handle_round : ℕ → ℕ → DescriptorHandlerHolder → Bool × DescriptorHandlerHolder
unfolding call_if
handle_round on_read on_write h =
    let (stop_r, h1) = call_if h.handle_read on_read h in
    let (stop_w, h2) = call_if h1.handle_write on_write h1 in (stop_r || stop_w, h2)

unfoldable pub is_closed : DescriptorHandlerHolder → Bool
is_closed h = h.read_closed && h.write_closed
