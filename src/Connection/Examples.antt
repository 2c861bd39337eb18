-- ===== src/Connection/Examples.antt =====
-- Tests of litemq/Connection.cpp, and the theorems at concrete messages.
use litemq.Prelude.{ℕ, ◌≡◌, refl, none, some, [], ◌∷◌, arith}
use litemq.Time.{zero_time}
use litemq.MessageQueue.{MessageBuffer, Holder, MessageQueue, need_to_send, pop}
use litemq.Poller.Cleaner.{zeros}
use litemq.Connection.{SendDescriptorHandler, sent_bytes, remove_sent_messages, write}
use litemq.Connection.Sending.{write-lost}

abbrev two_bytes : MessageBuffer
two_bytes = record { body = 7 ∷ 8 ∷ [] }

abbrev holder : ℕ → Holder
holder id = record {
  id = id;
  push_time = zero_time;
  expire_time = zero_time;
  request_id = 0;
  message = two_bytes;
}

-- two messages, each of which has expired `count` times
abbrev queue_of : ℕ → MessageQueue
queue_of count = record {
  max_size = 10;
  messages = holder 0 ∷ holder 1 ∷ [];
  timed_messages = [];
  message_count = 2;
  expired = λ _. count;
  fired = [];
  next_id = 2;
}

abbrev fresh_handler : SendDescriptorHandler
fresh_handler = record {
  header_sent_size = 0;
  partly_sent_message = none;
  partly_sent_size = 0;
  write_iovec_buf = [];
  msg_iovlen = 0;
}

-- A message that was not sent to its end is kept, and those behind it that count as to send go back.
remove_test : remove_sent_messages (queue_of 1) (holder 0 ∷ holder 1 ∷ []) 1 fresh_handler ≡ (
  holder 1 ∷ [],
  record fresh_handler { partly_sent_message = some (holder 0); partly_sent_size = 1 },
)
unfolding remove_sent_messages
remove_test = refl

-- A message of 15996 bytes, which has not expired, and one behind it.
abbrev long : Holder
long = record {
  id = 0;
  push_time = zero_time;
  expire_time = zero_time;
  request_id = 0;
  message = record { body = zeros 15996 };
}

abbrev long_queue : MessageQueue
long_queue = record (queue_of 0) { messages = long ∷ holder 1 ∷ [] }

write-lost_example :
    (write 3 long_queue fresh_handler (sent_bytes 6 ∷ [])
      ≡ write 2 (record long_queue { messages = holder 1 ∷ [] }) fresh_handler (sent_bytes 6 ∷ []))
    × (long ∷ holder 1 ∷ [] ≡ long_queue.messages)
unfolding need_to_send pop zeros
write-lost_example =
    write-lost 2 long_queue (record long_queue { messages = holder 1 ∷ [] }) fresh_handler
      (sent_bytes 6 ∷ []) (long ∷ []) (omega arith) refl refl (refl, tt)
