-- ===== src/MessageQueue.antt =====
-- litemq/Message.hpp and litemq/MessageQueue.hpp: messages, their holders and the queue.
-- A `MessageHolder_var` is a `Holder`; its `id` stands for the address, and what the shared holders
-- keep mutable (`expired_`) stands in the queue's state under that address, as do the timeout
-- callbacks that have run. `message_count_` is the bit pattern of an `int`; `Gears::Time` values
-- that the code takes from the clock are arguments. The two `add`s are templates that no type makes
-- compile, and are not modelled.
pub mod Holders
pub mod Timed
pub mod Flow
pub mod Expiry
mod Examples
use litemq.Prelude.{
  ℕ, suc, ◌+◌, ◌<◌, Bool, true, false, if◌then◌else◌, ltb, leb, ◌==◌, Option, none, some, List, [],
  ◌∷◌, ◌++◌, map, length, take, drop, add32, dec32, slt32, sext64, trunc32, add64,
}
use litemq.Time.{Time, lt, zero_time}

-- `MessageBuffer`: the bytes of a message
pub record MessageBuffer : Type 0 where
  pub body : List ℕ

pub record Holder : Type 0 where
  pub id : ℕ
  pub push_time : Time
  pub expire_time : Time
  pub request_id : ℕ
  pub message : MessageBuffer

unfoldable pub buffer_size : MessageBuffer → ℕ
buffer_size m = length m.body

-- `MessageHolderImpl::size`
unfoldable pub size : Holder → ℕ
unfolding buffer_size
size h = buffer_size h.message

-- `MessageHolderImpl::plain_size`: with the four bytes of the header
unfoldable pub plain_size : Holder → ℕ
unfolding size
plain_size h = add64 (size h) 4

pub record MessageQueue : Type 0 where
  pub max_size : ℕ
  pub messages : List Holder
  pub timed_messages : List (Time × Holder)
  pub message_count : ℕ
  -- `expired_` of each holder
  pub expired : ℕ → ℕ
  -- the holders whose timeout callback has run, oldest first
  pub fired : List ℕ
  -- no holder has this or a later address
  pub next_id : ℕ

abbrev pub update : (ℕ → ℕ) → ℕ → ℕ → ℕ → ℕ
update f k v j = if j == k then v else f j

-- The constructor. It does not initialise `message_count_`: the first value is an argument.
unfoldable pub make_queue : ℕ → ℕ → MessageQueue
make_queue max_size count = record {
  max_size = max_size;
  messages = [];
  timed_messages = [];
  message_count = count;
  expired = λ _. 0;
  fired = [];
  next_id = 0;
}

-- `MessageHolder::need_to_send`
unfoldable pub need_to_send : MessageQueue → Holder → Bool
need_to_send q h = if q.expired h.id == 0 then false else true

-- `MessageHolderImpl::expire`
unfoldable pub expire : Holder → MessageQueue → Bool × MessageQueue
expire h q =
    let count = add32 (q.expired h.id) 1 in
    if count == 1
    then (true, record q { expired = update q.expired h.id count; fired = q.fired ++ (h.id ∷ []) })
    else (false, record q { expired = update q.expired h.id count })

-- the loop of `push_front` over the erased messages
unfoldable pub expire_each : List Holder → MessageQueue → MessageQueue
unfolding expire
expire_each [] q = q
expire_each (h ∷ hs) q = expire_each hs (expire h q).1

unfoldable pub push_front : List Holder → MessageQueue → MessageQueue
unfolding expire_each
push_front added q =
    let all = added ++ q.messages in
    let counted = record q { message_count = add32 q.message_count (trunc32 (length added)) } in
    if ltb q.max_size (length all)
    then expire_each (drop q.max_size all) (record counted { messages = take q.max_size all })
    else record counted { messages = all }

-- `timed_messages_.upper_bound(time)` as a split of the map
unfoldable pub due : Time → List (Time × Holder) → List Holder
due time [] = []
due time ((t, h) ∷ rest) = if lt time t then [] else h ∷ due time rest

unfoldable pub after : Time → List (Time × Holder) → List (Time × Holder)
after time [] = []
after time ((t, h) ∷ rest) = if lt time t then (t, h) ∷ rest else after time rest

-- one round of the loop of `clear_timeouted`, and the loop
unfoldable pub settle : Holder → MessageQueue → MessageQueue
unfolding expire
settle h q =
    let (first, expired) = expire h q in
    if first then record expired { message_count = dec32 expired.message_count } else expired

unfoldable pub expire_counted : List Holder → MessageQueue → MessageQueue
unfolding settle
expire_counted [] q = q
expire_counted (h ∷ hs) q = expire_counted hs (settle h q)

unfoldable pub clear_timeouted : Time → MessageQueue → MessageQueue
unfolding due after expire_counted
clear_timeouted time q =
    expire_counted (due time q.timed_messages)
      (record q { timed_messages = after time q.timed_messages })

-- The loop of `pop` from a running size: what is taken and what stays. Where no message makes the
-- size reach `send_size` the iterator stands at `end()`, and `++it` is undefined: `none`.
unfoldable pub take_or_stop :
    Bool
    → Holder
    → List Holder
    → Option (List Holder × List Holder)
    → Option (List Holder × List Holder)
take_or_stop true h hs more = some (h ∷ [], hs)
take_or_stop false h hs none = none
take_or_stop false h hs (some (taken, rest)) = some (h ∷ taken, rest)

unfoldable pub pop_from : ℕ → ℕ → List Holder → Option (List Holder × List Holder)
unfolding plain_size take_or_stop
pop_from send_size cur [] = none
pop_from send_size cur (h ∷ hs) =
    let cur' = add64 cur (plain_size h) in
    take_or_stop (leb send_size cur') h hs (pop_from send_size cur' hs)

unfoldable pub erase_taken :
    MessageQueue → Option (List Holder × List Holder) → Option (List Holder × MessageQueue)
erase_taken q none = none
erase_taken q (some (taken, rest)) = some (taken, record q { messages = rest })

unfoldable pub pop : ℕ → MessageQueue → Option (List Holder × MessageQueue)
unfolding pop_from erase_taken
pop send_size q = erase_taken q (pop_from send_size 0 q.messages)

unfoldable pub eldest_time : MessageQueue → Time
eldest_time q = elim q.messages [ [] ↦ zero_time | h ∷ _ ↦ h.push_time ]
