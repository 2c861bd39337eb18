-- ===== src/Connection/Sending.antt =====
-- What `write()` does with the messages that it takes from the queue.
use litemq.Prelude.{
  ℕ, suc, ◌^◌, ◌<◌, ◌≡◌, refl, sym, ap, ◌∙◌, subst, Bool, true, false, ◌&&◌, ◌||◌, inl, inr, Option,
  none, some, Bool-cases, List, [], ◌∷◌, ◌++◌, All, arith,
}
use litemq.MessageQueue.{Holder, MessageQueue, need_to_send, pop}
use litemq.MessageQueue.Flow.{total, PopsQueue, pop-Pops}
use litemq.Connection.{
  Iovec, SendDescriptorHandler, partly_iovecs, message_iovecs, fill_messages, with_iovecs,
  fill_send_messages, SendmsgResult, send_filled, send_if_filled, send_popped, go_on, write,
}

abbrev pub any_to_send : MessageQueue → List Holder → Bool
any_to_send q [] = false
any_to_send q (h ∷ hs) = need_to_send q h || any_to_send q hs

abbrev pub is_none {ℓ} : {A : Type ℓ} → Option A → Bool
is_none none = true
is_none (some _) = false

message_iovecs-is_none :
    (partly : Option Holder) (h : Holder) (more : Option (List Iovec))
    → is_none (message_iovecs partly h more) ≡ is_none partly || is_none more
unfolding message_iovecs
message_iovecs-is_none none h more = refl
message_iovecs-is_none (some p) h none = refl
message_iovecs-is_none (some p) h (some iovecs) = refl

fill_messages-is_none :
    (q : MessageQueue) (partly : Option Holder) (hs : List Holder)
    → is_none (fill_messages q partly hs) ≡ is_none partly && any_to_send q hs
unfolding fill_messages
fill_messages-is_none q none [] = refl
fill_messages-is_none q (some p) [] = refl
fill_messages-is_none q partly (h ∷ hs) = elim (Bool-cases (need_to_send q h)) [
  | inl e ↦ rw e (
      message_iovecs-is_none partly h (fill_messages q partly hs)
      ∙ ap (◌||◌ (is_none partly)) (fill_messages-is_none q partly hs)
      ∙ absorb (is_none partly) (any_to_send q hs))
  | inr e ↦ rw e (fill_messages-is_none q partly hs)
]
  where
    absorb : (p r : Bool) → (p || (p && r)) ≡ (p && true)
    absorb true r = refl
    absorb false r = refl

with_iovecs-is_none :
    (s : SendDescriptorHandler) (more : Option (List Iovec))
    → is_none (with_iovecs s more) ≡ is_none more
unfolding with_iovecs
with_iovecs-is_none s none = refl
with_iovecs-is_none s (some iovecs) = refl

-- `fill_send_messages_` reads through a null pointer exactly where no message was sent in part and
-- one of the messages at hand counts as one to send.
fill_send_messages-is_none :
    (q : MessageQueue) (hs : List Holder) (s : SendDescriptorHandler)
    → is_none (fill_send_messages q hs s) ≡ is_none s.partly_sent_message && any_to_send q hs
unfolding fill_send_messages
fill_send_messages-is_none q hs s =
    with_iovecs-is_none s (fill_messages q s.partly_sent_message hs)
    ∙ fill_messages-is_none q s.partly_sent_message hs

abbrev pub IsUnsent : MessageQueue → Holder → Type 0
IsUnsent q h = need_to_send q h ≡ false

fill_messages-unsent :
    (q : MessageQueue) (partly : Option Holder) (hs : List Holder)
    → All (IsUnsent q) hs
    → fill_messages q partly hs ≡ some []
unfolding fill_messages
fill_messages-unsent q partly [] h = refl
fill_messages-unsent q partly (h ∷ hs) (k, ks) = rw (k, fill_messages-unsent q partly hs ks)

partly_iovecs-none :
    (s : SendDescriptorHandler) → s.partly_sent_message ≡ none → partly_iovecs s ≡ []
unfolding partly_iovecs
partly_iovecs-none s e = rw e

fill_send_messages-unsent :
    (q : MessageQueue) (hs : List Holder) (s : SendDescriptorHandler)
    → s.partly_sent_message ≡ none
    → All (IsUnsent q) hs
    → fill_send_messages q hs s ≡ some (false, record s { write_iovec_buf = []; msg_iovlen = 0 })
unfolding fill_send_messages with_iovecs
fill_send_messages-unsent q hs s e h =
    rw (fill_messages-unsent q s.partly_sent_message hs h, partly_iovecs-none s e)

-- A round of `write()` that takes messages none of which counts as one to send, which those are
-- that have not expired, and that has none sent in part: it calls `::sendmsg` not at all, and the
-- messages are not put back, so that they are in no queue any more.
send_popped-unsent :
    (q : MessageQueue) (h : Holder) (hs : List Holder) (s : SendDescriptorHandler)
    (results : List SendmsgResult)
    → s.partly_sent_message ≡ none
    → All (IsUnsent q) (h ∷ hs)
    → send_popped results s (some (h ∷ hs, q))
      ≡ some (record {
        ended = none;
        queue = q;
        handler = record s { write_iovec_buf = []; msg_iovlen = 0 };
        results = results;
      })
unfolding send_popped send_if_filled send_filled
send_popped-unsent q h hs s results e k = rw (fill_send_messages-unsent q (h ∷ hs) s e k)

-- A queue that differs in its messages only counts the same ones as to send.
IsUnsent-still :
    (q r : MessageQueue) (hs : List Holder)
    → r ≡ record q { messages = r.messages }
    → All (IsUnsent q) hs
    → All (IsUnsent r) hs
unfolding need_to_send
IsUnsent-still q r hs e h = subst (λ v. All (IsUnsent v) hs) (sym e) h

-- A round of `write()` in which `pop` takes messages none of which counts as one to send, which those
-- are that have not expired, on a queue whose bytes fit into `unsigned long` and with no message sent
-- in part: the messages are lost. `write()` goes on with the rest of the queue, without them, and
-- with no call of `::sendmsg` made.
pub write-lost :
    (rounds : ℕ) (q r : MessageQueue) (s : SendDescriptorHandler) (results : List SendmsgResult)
    (taken : List Holder)
    → total q.messages < 2 ^ 64
    → pop 16000 q ≡ some (taken, r)
    → s.partly_sent_message ≡ none
    → All (IsUnsent q) taken
    → (write (suc rounds) q s results
        ≡ write rounds r (record s { write_iovec_buf = []; msg_iovlen = 0 }) results)
      × (taken ++ r.messages ≡ q.messages)
unfolding write go_on
write-lost rounds q r s results [] k e n h =
    absurd (omega (arith, (subst (PopsQueue 16000 q) e (pop-Pops 16000 q k)).1))
write-lost rounds q r s results (g ∷ gs) k e n h =
    let pops = subst (PopsQueue 16000 q) e (pop-Pops 16000 q k) in
    (
      ap (λ o. go_on (write rounds) (send_popped results s o)) e
          ∙ ap (go_on (write rounds))
              (send_popped-unsent r g gs s results n (IsUnsent-still q r (g ∷ gs) pops.4 h)),
      pops.0,
    )
