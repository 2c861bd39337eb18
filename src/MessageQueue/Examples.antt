-- ===== src/MessageQueue/Examples.antt =====
-- Tests of litemq/MessageQueue.hpp and the theorems at concrete queues.
use litemq.Prelude.{ℕ, ◌≡◌, refl, [], ◌∷◌, map, select, arith}
use litemq.Prelude.Int.{pos}
use litemq.Time.{Time, lt, le}
use litemq.MessageQueue.{MessageBuffer, Holder, MessageQueue, pop, push_front, due, clear_timeouted}
use litemq.MessageQueue.Timed.{Entry, is_due}
use litemq.MessageQueue.Holders.{IsValid}
use litemq.MessageQueue.Flow.{PopsQueue, pop-Pops, push_front-pop}
use litemq.MessageQueue.Expiry.{Settles, clear_timeouted_lem}

abbrev at_second : ℕ → Time
at_second n = record { tv_sec = pos n; tv_usec = pos 0 }

abbrev two_bytes : MessageBuffer
two_bytes = record { body = 7 ∷ 8 ∷ [] }

abbrev holder : ℕ → ℕ → Holder
holder id deadline = record {
  id = id;
  push_time = at_second 1;
  expire_time = at_second deadline;
  request_id = 0;
  message = two_bytes;
}

-- Three messages, of which the second has the earlier deadline.
abbrev sample : MessageQueue
sample = record {
  max_size = 10;
  messages = holder 0 9 ∷ holder 1 5 ∷ holder 2 20 ∷ [];
  timed_messages =
      (at_second 5, holder 1 5) ∷ (at_second 9, holder 0 9) ∷ (at_second 20, holder 2 20) ∷ [];
  message_count = 3;
  expired = λ _. 0;
  fired = [];
  next_id = 3;
}

sample-IsValid : IsValid sample
unfolding le lt
sample-IsValid = record {
  sorted = ((refl, (refl, tt)), ((refl, tt), (tt, tt)));
  fresh = omega arith;
  fresh_timed = omega arith;
  distinct = omega arith;
}

pop-Pops_example : PopsQueue 8 sample (pop 8 sample)
pop-Pops_example = pop-Pops 8 sample (omega arith)

push_front-pop_example :
    push_front (holder 0 9 ∷ holder 1 5 ∷ []) (record sample { messages = holder 2 20 ∷ [] })
    ≡ record sample { message_count = 5 }
unfolding pop
push_front-pop_example = push_front-pop 8 sample _ _ (omega arith) refl

-- At second 10 the first two deadlines have passed.
clear_timeouted_lem_example :
    let r = clear_timeouted (at_second 10) sample in
    (r.timed_messages ≡ select (λ (e : Entry). lt (at_second 10) e.0) sample.timed_messages)
    × (r.messages ≡ sample.messages)
    × Settles
        (map (λ (e : Entry). e.1) (select (is_due (at_second 10)) sample.timed_messages))
        sample
        r
unfolding due lt
clear_timeouted_lem_example = clear_timeouted_lem (at_second 10) sample sample-IsValid (omega arith)

fires_in_order : (clear_timeouted (at_second 10) sample).fired ≡ 1 ∷ 0 ∷ []
unfolding clear_timeouted lt
fires_in_order = refl
