-- ===== src/Connection.antt =====
-- litemq/Connection.cpp, Connection::SendDescriptorHandler: what a connection takes from the queue,
-- hands to `::sendmsg` and puts back. An `iovec` is what it points at. What `::sendmsg` returns is a
-- list of results, used up from its head; behind its end each call would block. `none` stands for
-- undefined behaviour: a null pointer that is read, or an iterator that leaves its list.
pub mod Sending
mod Examples
use litemq.Prelude.{
  ℕ, zero, suc, ◌-◌, ◌^◌, Bool, true, false, if◌then◌else◌, ltb, leb, min, Option, none, some, List,
  [], ◌∷◌, ◌++◌, length, drop, trunc32, add64, sub64,
}
use litemq.Poller.Holder.{
  both, continue_handle, start_read_handle, stop_write_handle, close_read_handle,
  close_write_handle,
}
use litemq.MessageQueue.{Holder, MessageQueue, size, need_to_send, pop, push_front}

abbrev pub msg_maxiovlen : ℕ
msg_maxiovlen = 64

-- a size in front of a message, from one of its bytes on, or the bytes of a message
pub data Iovec : Type 0 where
  size_buf : (value skip : ℕ) → Iovec
  message_bytes : (message : Holder) (skip len : ℕ) → Iovec

pub record SendDescriptorHandler : Type 0 where
  pub header_sent_size : ℕ
  pub partly_sent_message : Option Holder
  pub partly_sent_size : ℕ
  pub write_iovec_buf : List Iovec
  pub msg_iovlen : ℕ

-- what is left of the message that was sent in part
unfoldable pub partly_iovecs : SendDescriptorHandler → List Iovec
unfolding size
partly_iovecs s = elim s.partly_sent_message [
  | none ↦ []
  | some p ↦
      (if ltb s.header_sent_size 4 then size_buf (trunc32 (size p)) s.header_sent_size ∷ [] else [])
      ++ (message_bytes p s.partly_sent_size (sub64 (size p) s.partly_sent_size) ∷ [])
]

-- The loop of `fill_send_messages_`: the size in front of each message is that of the partly sent
-- message, which must not be null.
unfoldable pub message_iovecs : Option Holder → Holder → Option (List Iovec) → Option (List Iovec)
unfolding size
message_iovecs none h more = none
message_iovecs (some p) h none = none
message_iovecs (some p) h (some iovecs) =
    some (size_buf (trunc32 (size p)) 0 ∷ message_bytes h 0 (size h) ∷ iovecs)

unfoldable pub fill_messages : MessageQueue → Option Holder → List Holder → Option (List Iovec)
unfolding need_to_send message_iovecs
fill_messages q partly [] = some []
fill_messages q partly (h ∷ hs) =
    let more = fill_messages q partly hs in
    if need_to_send q h then message_iovecs partly h more else more

abbrev pub is_some_iovec : List Iovec → Bool
is_some_iovec [] = false
is_some_iovec (_ ∷ _) = true

unfoldable pub with_iovecs :
    SendDescriptorHandler → Option (List Iovec) → Option (Bool × SendDescriptorHandler)
unfolding partly_iovecs
with_iovecs s none = none
with_iovecs s (some more) =
    let iovecs = partly_iovecs s ++ more in
    some (
      is_some_iovec iovecs,
      record s { write_iovec_buf = iovecs; msg_iovlen = min (length iovecs) msg_maxiovlen },
    )

unfoldable pub fill_send_messages :
    MessageQueue → List Holder → SendDescriptorHandler → Option (Bool × SendDescriptorHandler)
unfolding fill_messages with_iovecs
fill_send_messages q hs s = with_iovecs s (fill_messages q s.partly_sent_message hs)

-- The part of `remove_sent_messages_` for the message that was sent in part, and what is unprocessed.
unfoldable pub remove_partly : Option Holder → ℕ → SendDescriptorHandler → ℕ × SendDescriptorHandler
unfolding size
remove_partly none unprocessed s = (unprocessed, s)
remove_partly (some p) unprocessed s =
    let left = sub64 (size p) s.partly_sent_size in
    if leb unprocessed left
    then (sub64 unprocessed left, record s { partly_sent_message = none; partly_sent_size = 0 })
    else (0, record s { partly_sent_size = add64 s.partly_sent_size unprocessed })

-- the loop of `remove_sent_messages_`: the messages that are kept
unfoldable pub remove_messages :
    MessageQueue → ℕ → List Holder → SendDescriptorHandler → List Holder × SendDescriptorHandler
unfolding size need_to_send
remove_messages q unprocessed [] s = ([], s)
remove_messages q unprocessed (h ∷ hs) s =
    let sent = remove_messages q (unprocessed - size h) hs s in
    let partly =
      remove_messages q 0 hs
        (record s { partly_sent_message = some h; partly_sent_size = unprocessed }) in
    let (kept, rest) = remove_messages q 0 hs s in
    if ltb 0 unprocessed
    then if leb (size h) unprocessed then sent else partly
    else if need_to_send q h
    then (h ∷ kept, rest)
    else (kept, rest)

unfoldable pub remove_sent_messages :
    MessageQueue → List Holder → ℕ → SendDescriptorHandler → List Holder × SendDescriptorHandler
unfolding remove_partly remove_messages
remove_sent_messages q hs sent_size s =
    let (unprocessed, removed) = remove_partly s.partly_sent_message sent_size s in
    remove_messages q unprocessed hs removed

-- `::sendmsg`
pub data SendmsgResult : Type 0 where
  sent_bytes : ℕ → SendmsgResult
  would_block : SendmsgResult
  send_failed : SendmsgResult

abbrev pub sent_size : SendmsgResult → ℕ
sent_size (sent_bytes n) = n
sent_size _ = 2 ^ 64 - 1

-- how a round of `write()` ends: the flags that it returns, or another round
abbrev pub verdict : SendmsgResult → Option ℕ
verdict (sent_bytes (suc n)) = none
verdict send_failed = some (both close_read_handle close_write_handle)
verdict _ = some continue_handle

abbrev pub next_result : List SendmsgResult → SendmsgResult
next_result [] = would_block
next_result (r ∷ _) = r

-- A round of `write()` behind `fill_send_messages_`: the next results, and how it went on.
pub record Round : Type 0 where
  pub ended : Option ℕ
  pub queue : MessageQueue
  pub handler : SendDescriptorHandler
  pub results : List SendmsgResult

-- The messages that were taken are let go if there is nothing to send.
unfoldable pub send_filled :
    MessageQueue → List Holder → List SendmsgResult → Bool → SendDescriptorHandler → Option Round
unfolding remove_sent_messages push_front
send_filled q taken results false s =
    some (record { ended = none; queue = q; handler = s; results = results })
send_filled q taken results true s =
    let result = next_result results in
    let (kept, removed) = remove_sent_messages q taken (sent_size result) s in
    some (record {
      ended = verdict result;
      queue = push_front kept q;
      handler = removed;
      results = drop 1 results;
    })

unfoldable pub send_if_filled :
    MessageQueue
    → List Holder
    → List SendmsgResult
    → Option (Bool × SendDescriptorHandler)
    → Option Round
unfolding send_filled
send_if_filled q taken results none = none
send_if_filled q taken results (some (filled, s)) = send_filled q taken results filled s

unfoldable pub send_popped :
    List SendmsgResult → SendDescriptorHandler → Option (List Holder × MessageQueue) → Option Round
unfolding fill_send_messages send_if_filled
send_popped results s none = none
send_popped results s (some ([], q)) = some (record {
  ended = some (both start_read_handle stop_write_handle);
  queue = q;
  handler = s;
  results = results;
})
send_popped results s (some (h ∷ hs, q)) =
    send_if_filled q (h ∷ hs) results (fill_send_messages q (h ∷ hs) s)

-- How `write()` ends: it returns flags, its behaviour is undefined, or it was cut off after a number
-- of rounds.
pub data Written : Type 0 where
  returned : (flags : ℕ) (queue : MessageQueue) → Written
  undefined : Written
  cut_off : Written

-- `write()`, with a bound on its rounds
unfoldable pub go_on :
    (MessageQueue → SendDescriptorHandler → List SendmsgResult → Written) → Option Round → Written
go_on again none = undefined
go_on again (some round) = elim round.ended [
  | none ↦ again round.queue round.handler round.results
  | some flags ↦ returned flags round.queue
]

unfoldable pub write : ℕ → MessageQueue → SendDescriptorHandler → List SendmsgResult → Written
unfolding send_popped go_on pop
write zero q s results = cut_off
write (suc rounds) q s results = go_on (write rounds) (send_popped results s (pop 16000 q))
