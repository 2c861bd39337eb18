-- ===== src/MessageQueue/Flow.antt =====
-- `pop` and `push_front`: what is taken from the front, and what comes back.
use litemq.Prelude.{
  ℕ, ◌+◌, ◌^◌, ◌<◌, ◌≤◌, ◌≡◌, refl, ap, subst, inl, inr, ◌⊎◌, Bool, true, false, List, [], ◌∷◌,
  ◌++◌, length, Option, none, some, leb, add32, trunc32, add64, arith,
}
use litemq.MessageQueue.{
  Holder, MessageQueue, plain_size, take_or_stop, pop_from, erase_taken, pop, push_front, size,
  buffer_size,
}

-- The bytes of a list of messages with their headers, added up without wrapping.
abbrev pub total : List Holder → ℕ
total [] = 0
total (h ∷ hs) = length h.message.body + 4 + total hs

abbrev pub total_but_last : List Holder → ℕ
total_but_last [] = 0
total_but_last (h ∷ []) = 0
total_but_last (h ∷ g ∷ hs) = length h.message.body + 4 + total_but_last (g ∷ hs)

abbrev Splits : List Holder → Option (List Holder × List Holder) → Type 0
Splits hs none = Unit {0}
Splits hs (some (taken, rest)) = taken ++ rest ≡ hs

take_or_stop-Splits :
    (b : Bool) (h : Holder) (hs : List Holder) (more : Option (List Holder × List Holder))
    → Splits hs more
    → Splits (h ∷ hs) (take_or_stop b h hs more)
unfolding take_or_stop
take_or_stop-Splits true h hs more s = refl
take_or_stop-Splits false h hs none s = tt
take_or_stop-Splits false h hs (some (taken, rest)) s = ap (◌∷◌ h) s

pop_from-Splits : (send cur : ℕ) (hs : List Holder) → Splits hs (pop_from send cur hs)
unfolding pop_from
pop_from-Splits send cur [] = tt
pop_from-Splits send cur (h ∷ hs) =
    take_or_stop-Splits (leb send (add64 cur (plain_size h))) h hs _
      (pop_from-Splits send (add64 cur (plain_size h)) hs)

pub pop_from-append :
    (send cur : ℕ) (hs taken rest : List Holder)
    → pop_from send cur hs ≡ some (taken, rest)
    → taken ++ rest ≡ hs
pop_from-append send cur hs taken rest e = subst (Splits hs) e (pop_from-Splits send cur hs)

-- What `pop` promises of a queue whose bytes fit into `unsigned long`: it takes from the front the
-- fewest messages, one at least, that bring the size up to `send`; it is undefined just where all
-- messages together stay below `send`, or where there is none.
abbrev pub Pops : ℕ → ℕ → List Holder → Option (List Holder × List Holder) → Type 0
Pops send cur hs none = (hs ≡ []) ⊎ (cur + total hs < send)
Pops send cur hs (some (taken, rest)) =
    (taken ++ rest ≡ hs)
    × (0 < length taken)
    × (send ≤ cur + total taken)
    × ((length taken ≡ 1) ⊎ (cur + total_but_last taken < send))

take_or_stop-Pops :
    (b : Bool) (send cur cur' : ℕ) (h : Holder) (hs : List Holder)
    (more : Option (List Holder × List Holder))
    → cur' ≡ cur + (length h.message.body + 4)
    → leb send cur' ≡ b
    → Pops send cur' hs more
    → Pops send cur (h ∷ hs) (take_or_stop b h hs more)
unfolding take_or_stop
take_or_stop-Pops true send cur cur' h hs more c l p = (refl, omega arith, ground arith, inl refl)
take_or_stop-Pops false send cur cur' h hs none c l (inl e) = inr (rw e (ground arith))
take_or_stop-Pops false send cur cur' h hs none c l (inr e) = inr (omega arith)
take_or_stop-Pops false send cur cur' h hs (some ([], rest)) c l p = absurd (omega (arith, p.1))
take_or_stop-Pops false send cur cur' h hs (some (g ∷ [], rest)) c l p =
    (ap (◌∷◌ h) p.0, omega arith, omega arith, inr (ground arith))
take_or_stop-Pops false send cur cur' h hs (some (g ∷ g' ∷ gs, rest)) c l p =
    (ap (◌∷◌ h) p.0, omega arith, omega arith, inr (ground arith))

pop_from-Pops :
    (send cur : ℕ) (hs : List Holder)
    → cur + total hs < 2 ^ 64
    → Pops send cur hs (pop_from send cur hs)
unfolding pop_from size buffer_size plain_size
pop_from-Pops send cur [] k = inl refl
pop_from-Pops send cur (h ∷ hs) k =
    let cur' = add64 cur (plain_size h) in
    let c : cur' ≡ cur + (length h.message.body + 4) = omega arith in
    take_or_stop-Pops (leb send cur') send cur cur' h hs (pop_from send cur' hs) c refl
      (pop_from-Pops send cur' hs (omega arith))

abbrev pub PopsQueue : ℕ → MessageQueue → Option (List Holder × MessageQueue) → Type 0
PopsQueue send q none = (q.messages ≡ []) ⊎ (total q.messages < send)
PopsQueue send q (some (taken, r)) =
    (taken ++ r.messages ≡ q.messages)
    × (0 < length taken)
    × (send ≤ total taken)
    × ((length taken ≡ 1) ⊎ (total_but_last taken < send))
    × (r ≡ record q { messages = r.messages })

erase_taken-Pops :
    (send : ℕ) (q : MessageQueue) (r : Option (List Holder × List Holder))
    → Pops send 0 q.messages r
    → PopsQueue send q (erase_taken q r)
unfolding erase_taken
erase_taken-Pops send q none (inl e) = inl e
erase_taken-Pops send q none (inr e) = inr (omega arith)
erase_taken-Pops send q (some (taken, rest)) (a, b, c, inl d) = (a, b, omega arith, inl d, refl)
erase_taken-Pops send q (some (taken, rest)) (a, b, c, inr d) =
    (a, b, omega arith, inr (omega arith), refl)

-- `pop` on a queue whose bytes fit into `unsigned long` takes from the front the fewest messages,
-- one at least, whose sizes with headers reach `send`, and changes nothing else; it is undefined
-- exactly where the queue is empty or all its messages together stay below `send`.
pub pop-Pops :
    (send : ℕ) (q : MessageQueue) → total q.messages < 2 ^ 64 → PopsQueue send q (pop send q)
unfolding pop
pop-Pops send q k = erase_taken-Pops send q _ (pop_from-Pops send 0 q.messages (omega arith))

pub erase_taken-eq-some :
    (q r : MessageQueue) (taken : List Holder) (o : Option (List Holder × List Holder))
    → erase_taken q o ≡ some (taken, r)
    → (o ≡ some (taken, r.messages)) × (r ≡ record q { messages = r.messages })
unfolding erase_taken
erase_taken-eq-some q r taken none e = absurd (ground arith)
erase_taken-eq-some q r taken (some (t, rest)) e = ground arith

-- What `pop` took goes back by `push_front`: if the queue did not exceed its maximum, the messages
-- are as before, and so is the rest but for `message_count_`, which has grown by the messages that
-- went back, since `pop` does not take them off.
pub push_front-pop :
    (send : ℕ) (q r : MessageQueue) (taken : List Holder)
    → length q.messages ≤ q.max_size
    → pop send q ≡ some (taken, r)
    → push_front taken r
      ≡ record q { message_count = add32 q.message_count (trunc32 (length taken)) }
unfolding pop push_front
push_front-pop send q r taken fits e =
    let x = erase_taken-eq-some q r taken _ e in
    let s = pop_from-append send 0 q.messages taken r.messages x.0 in rw x.1 (rw s (ground arith))
