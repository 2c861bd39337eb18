-- ===== src/MessageQueue/Holders.antt =====
-- What the multimap and the addresses of the queue promise, and what `expire` leaves alone.
use litemq.Prelude.{ℕ, ◌<◌, ◌≡◌, ◌≢◌, ◌∙◌, List, [], ◌∷◌, All, arith}
use litemq.MessageQueue.{Holder, MessageQueue, expire, settle, expire_counted}
use litemq.MessageQueue.Timed.{Entry, IsSorted}

-- The timed entries are in the order of their deadlines, and every holder has an address that was
-- given out.
abbrev pub IsFresh : ℕ → List Holder → Type 0
IsFresh n = All λ h. h.id < n

abbrev pub IsFreshTimed : ℕ → List Entry → Type 0
IsFreshTimed n = All λ e. e.1.id < n

abbrev pub IsDistinct : List Entry → Type 0
IsDistinct [] = Unit {0}
IsDistinct ((t, h) ∷ rest) = All (λ e. e.1.id ≢ h.id) rest × IsDistinct rest

pub record IsValid (q : MessageQueue) : Type 0 where
  pub sorted : IsSorted q.timed_messages
  pub fresh : IsFresh q.next_id q.messages
  pub fresh_timed : IsFreshTimed q.next_id q.timed_messages
  pub distinct : IsDistinct q.timed_messages

-- The fields that `expire` does not touch.
pub record Frame (q r : MessageQueue) : Type 0 where
  pub max_size : r.max_size ≡ q.max_size
  pub messages : r.messages ≡ q.messages
  pub timed_messages : r.timed_messages ≡ q.timed_messages
  pub next_id : r.next_id ≡ q.next_id

expire-Frame : (h : Holder) (q : MessageQueue) → Frame q (expire h q).1
unfolding expire
expire-Frame h q = ground arith

settle-Frame : (h : Holder) (q : MessageQueue) → Frame q (settle h q)
unfolding settle expire
settle-Frame h q = ground arith

Frame-trans : {q r s : MessageQueue} → Frame q r → Frame r s → Frame q s
Frame-trans f g = record {
  max_size = g.max_size ∙ f.max_size;
  messages = g.messages ∙ f.messages;
  timed_messages = g.timed_messages ∙ f.timed_messages;
  next_id = g.next_id ∙ f.next_id;
}

pub expire_counted-Frame : (hs : List Holder) (q : MessageQueue) → Frame q (expire_counted hs q)
unfolding expire_counted
expire_counted-Frame [] q = ground arith
expire_counted-Frame (h ∷ hs) q =
    Frame-trans (settle-Frame h q) (expire_counted-Frame hs (settle h q))
