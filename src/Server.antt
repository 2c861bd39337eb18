-- ===== src/Server.antt =====
-- src/Server/main.cpp, HashConnectionDescriptorHandler: a connection that answers each line.
-- Of `read_buf_` the model keeps the bytes in front of `read_buf_pos_`, which is their number; the
-- rest is only room for `::read`. An `iovec` is the bytes that it points at. What the system calls
-- return is a list of results, used up from its head.
pub mod Reading
pub mod Writing
pub mod Partial
mod Examples
use litemq.Prelude.{
  ℕ, zero, suc, ◌+◌, ◌<◌, min, Bool, true, false, ◌&&◌, if◌then◌else◌, ltb, leb, ◌==◌, Option, none,
  some, List, [], ◌∷◌, ◌++◌, length, take, drop, add64, sub64,
}
use litemq.Poller.Holder.{
  both, close_read_handle, close_write_handle, start_write_handle, stop_write_handle,
  continue_handle,
}

abbrev pub read_block_size : ℕ
read_block_size = 131072

abbrev pub shrink_read_size : ℕ
shrink_read_size = 65536

abbrev pub msg_maxiovlen : ℕ
msg_maxiovlen = 64

abbrev pub newline : ℕ
newline = 10

pub record HashConnection : Type 0 where
  pub read_processed_buf_pos : ℕ
  pub read_buf : List ℕ
  pub write_bufs : List (List ℕ)
  pub first_write_buf_pos : ℕ
  pub write_iovec_buf : List (List ℕ)
  pub msg_iovlen : ℕ

unfoldable pub make_connection : HashConnection
make_connection = record {
  read_processed_buf_pos = 0;
  read_buf = [];
  write_bufs = [];
  first_write_buf_pos = 0;
  write_iovec_buf = [];
  msg_iovlen = 0;
}

unfoldable pub error : ℕ
error = both close_read_handle close_write_handle

unfoldable pub add_write_buf : List ℕ → HashConnection → HashConnection
add_write_buf buf h =
    let iovecs = h.write_iovec_buf ++ (buf ∷ []) in
    record h {
      write_bufs = h.write_bufs ++ (buf ∷ []);
      write_iovec_buf = iovecs;
      msg_iovlen = min (length iovecs) msg_maxiovlen;
    }

-- seven digits 0 and the end of the line
abbrev pub answer : List ℕ
answer = b'0' ∷ b'0' ∷ b'0' ∷ b'0' ∷ b'0' ∷ b'0' ∷ b'0' ∷ newline ∷ []

-- The message is ignored.
unfoldable pub process_input_message : List ℕ → HashConnection → HashConnection
unfolding add_write_buf
process_input_message message h = add_write_buf answer h

-- The loop over the lines from `read_processed_buf_pos_`: `line` is what `std::find` has passed.
unfoldable pub process_lines : List ℕ → List ℕ → HashConnection → HashConnection
unfolding process_input_message
process_lines line [] h = h
process_lines line (c ∷ cs) h =
    let processed = process_input_message line h in
    process_lines (if c == newline then [] else line ++ (c ∷ [])) cs (
      if c == newline
      then record processed { read_processed_buf_pos = h.read_processed_buf_pos + length line + 1 }
      else h)

unfoldable pub shrink : HashConnection → HashConnection
shrink h =
    if ltb shrink_read_size h.read_processed_buf_pos
    then record h {
      read_buf = drop h.read_processed_buf_pos h.read_buf;
      read_processed_buf_pos = 0;
    }
    else h

-- one round of the loop of `read()`, in which some bytes were got
unfoldable pub receive : List ℕ → HashConnection → HashConnection
unfolding process_lines shrink
receive bytes h =
    let buf = h.read_buf ++ bytes in
    shrink (process_lines [] (drop h.read_processed_buf_pos buf) (record h { read_buf = buf }))

-- `::read`
pub data ReadResult : Type 0 where
  got : List ℕ → ReadResult
  would_block : ReadResult
  failed : ReadResult
  end_of_file : ReadResult

abbrev pub is_empty : List (List ℕ) → Bool
is_empty [] = true
is_empty (_ ∷ _) = false

-- `read()`; `none` if the results end before the loop does.
unfoldable pub read : List ReadResult → HashConnection → Option (ℕ × HashConnection)
unfolding receive error
read [] h = none
read (got bytes ∷ results) h = read results (receive bytes h)
read (would_block ∷ results) h =
    some (if is_empty h.write_bufs then stop_write_handle else start_write_handle, h)
read (failed ∷ results) h = some (error, h)
read (end_of_file ∷ results) h = some (
  both close_read_handle (if is_empty h.write_bufs then close_write_handle else start_write_handle),
  h,
)

-- The loop of `reconfigure_write_bufs_`, from the buffers at `sent_it`: what is left there, and
-- `sent_i`, `prev_cur_size` and `cur_size`.
unfoldable pub scan : ℕ → ℕ → ℕ → ℕ → List (List ℕ) → List (List ℕ) × ℕ × ℕ × ℕ
scan sent i prev cur [] = ([], i, prev, cur)
scan sent i prev cur (b ∷ []) =
    if leb cur sent then ([], suc i, prev, cur) else (b ∷ [], i, prev, cur)
scan sent i prev cur (b ∷ c ∷ rest) =
    let more = scan sent (suc i) cur (add64 cur (length c)) (c ∷ rest) in
    if leb cur sent then more else (b ∷ c ∷ rest, i, prev, cur)

-- the first `iovec` from `pos` on
unfoldable pub trim_first : ℕ → List (List ℕ) → List (List ℕ) → List (List ℕ)
trim_first pos (b ∷ bufs) (v ∷ iovecs) = drop pos b ∷ iovecs
trim_first pos _ iovecs = iovecs

abbrev pub first_size : List (List ℕ) → ℕ
first_size [] = 0
first_size (b ∷ bufs) = length b

-- `reconfigure_write_bufs_` behind its loop
unfoldable pub rebuild : ℕ → List (List ℕ) × ℕ × ℕ × ℕ → HashConnection → HashConnection
unfolding trim_first
rebuild sent (bufs, i, prev, cur) h =
    let kept = drop i h.write_iovec_buf in
    let partly = ltb sent cur && ltb prev sent in
    let pos = sub64 sent prev in
    let iovecs = if partly then trim_first pos bufs kept else kept in
    record h {
      write_bufs = bufs;
      first_write_buf_pos = if partly then pos else 0;
      write_iovec_buf = iovecs;
      msg_iovlen = min (length iovecs) msg_maxiovlen;
    }

unfoldable pub reconfigure_write_bufs : ℕ → HashConnection → HashConnection
unfolding scan rebuild
reconfigure_write_bufs sent h =
    let first = sub64 (first_size h.write_bufs) h.first_write_buf_pos in
    if ltb 0 sent then rebuild sent (scan sent 0 0 first h.write_bufs) h else h

-- `::sendmsg`
pub data SendResult : Type 0 where
  sent : ℕ → SendResult
  blocked : SendResult
  broken : SendResult

-- the loop of `write()`, with `write_bufs_.empty()`; `none` if the results end before it does
unfoldable pub write_while : List SendResult → HashConnection → Bool → Option (ℕ × HashConnection)
unfolding reconfigure_write_bufs error
write_while results h true = some (stop_write_handle, h)
write_while [] h false = none
write_while (sent zero ∷ results) h false = some (continue_handle, h)
write_while (sent (suc n) ∷ results) h false =
    let h' = reconfigure_write_bufs (suc n) h in write_while results h' (is_empty h'.write_bufs)
write_while (blocked ∷ results) h false = some (continue_handle, h)
write_while (broken ∷ results) h false = some (error, h)

unfoldable pub write : List SendResult → HashConnection → Option (ℕ × HashConnection)
unfolding write_while
write results h = write_while results h (is_empty h.write_bufs)
