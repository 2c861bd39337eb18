-- ===== src/MessageQueue/Expiry.antt =====
-- `clear_timeouted`: which messages expire, and that a timeout callback runs once.
use litemq.Prelude.{
  ℕ, ◌+◌, ◌-◌, ◌%◌, ◌^◌, ◌<◌, ◌≡◌, ◌≢◌, refl, ap, ap₂, sym, subst, ◌∙◌, inl, inr, Bool, true, false,
  Bool-cases, List, [], ◌∷◌, ◌++◌, append_assoc, append-nil, map, length, All, select, ◌==◌, add32,
  dec32, arith,
}
use native.Mathlib.Decide.{ℕ_discrete}
use litemq.Time.{Time, lt}
use litemq.MessageQueue.{
  Holder, MessageQueue, update, expire, settle, expire_counted, due, after, clear_timeouted,
}
use litemq.MessageQueue.Timed.{Entry, is_due, due-select}
use litemq.MessageQueue.Holders.{IsDistinct, IsValid, expire_counted-Frame}

abbrev pub unexpired : (ℕ → ℕ) → Holder → Bool
unexpired f h = f h.id == 0

-- `expired_` stays below its largest value.
abbrev pub IsRoomy : (ℕ → ℕ) → List Holder → Type 0
IsRoomy f = All λ h. f h.id < 2 ^ 32 - 1

abbrev pub Differ : List Holder → Type 0
Differ [] = Unit {0}
Differ (h ∷ hs) = All (λ g. g.id ≢ h.id) hs × Differ hs

settle-first :
    (h : Holder) (q : MessageQueue)
    → q.expired h.id < 2 ^ 32 - 1
    → q.expired h.id ≡ 0
    → settle h q ≡ record q {
      message_count = dec32 q.message_count;
      expired = update q.expired h.id (q.expired h.id + 1);
      fired = q.fired ++ (h.id ∷ []);
    }
unfolding settle expire
settle-first h q k e =
    let up : add32 (q.expired h.id) 1 ≡ q.expired h.id + 1 = omega arith in rw up (ground arith)

settle-again :
    (h : Holder) (q : MessageQueue)
    → q.expired h.id < 2 ^ 32 - 1
    → q.expired h.id ≢ 0
    → settle h q ≡ record q { expired = update q.expired h.id (q.expired h.id + 1) }
unfolding settle expire
settle-again h q k e =
    let up : add32 (q.expired h.id) 1 ≡ q.expired h.id + 1 = omega arith in rw up (ground arith)

-- Raising the count of one holder does not matter to the others.
select-update :
    (f : ℕ → ℕ) (i v : ℕ) (hs : List Holder)
    → All (λ g. g.id ≢ i) hs
    → select (unexpired (update f i v)) hs ≡ select (unexpired f) hs
select-update f i v [] d = refl
select-update f i v (g ∷ hs) d = ground (arith, select-update f i v hs d.1)

IsRoomy-update :
    (f : ℕ → ℕ) (i v : ℕ) (hs : List Holder)
    → All (λ g. g.id ≢ i) hs
    → IsRoomy f hs
    → IsRoomy (update f i v) hs
IsRoomy-update f i v [] d r = tt
IsRoomy-update f i v (g ∷ hs) d r = (ground arith, IsRoomy-update f i v hs d.1 r.1)

-- What the loop does to the callbacks and the count, with the holders that had not expired.
pub record Settles (hs : List Holder) (q r : MessageQueue) : Type 0 where
  pub fired : r.fired ≡ q.fired ++ map (λ h. h.id) (select (unexpired q.expired) hs)
  pub counted :
      (r.message_count + length (select (unexpired q.expired) hs)) % 2 ^ 32
      ≡ q.message_count % 2 ^ 32

module _ (h : Holder) (hs : List Holder) (q next r : MessageQueue)
    (rest : select (unexpired next.expired) hs ≡ select (unexpired q.expired) hs)
    (settled : Settles hs next r) where
  Settles-first :
      q.expired h.id ≡ 0
      → next.fired ≡ q.fired ++ (h.id ∷ [])
      → next.message_count ≡ dec32 q.message_count
      → Settles (h ∷ hs) q r
  Settles-first e f c =
      let hit : unexpired q.expired h ≡ true = ground arith in
      record {
        fired = rw hit (
            settled.fired
            ∙ ap₂ ◌++◌ f (ap (map (λ (g : Holder). g.id)) rest)
            ∙ append_assoc q.fired (h.id ∷ []) _);
        counted = rw hit (omega (arith, settled.counted, c, ap length rest));
      }

  Settles-again :
      q.expired h.id ≢ 0
      → next.fired ≡ q.fired
      → next.message_count ≡ q.message_count
      → Settles (h ∷ hs) q r
  Settles-again e f c =
      let miss : unexpired q.expired h ≡ false = ground arith in
      record {
        fired = rw miss (settled.fired ∙ ap₂ ◌++◌ f (ap (map (λ (g : Holder). g.id)) rest));
        counted = rw miss (omega (arith, settled.counted, c, ap length rest));
      }

expire_counted-Settles :
    (hs : List Holder) (q : MessageQueue)
    → Differ hs
    → IsRoomy q.expired hs
    → Settles hs q (expire_counted hs q)
unfolding expire_counted
expire_counted-Settles [] q d r = record {
  fired = sym (append-nil q.fired);
  counted = ground arith;
}
expire_counted-Settles (h ∷ hs) q d r =
    let count = q.expired h.id + 1 in
    let rest = select-update q.expired h.id count hs d.0 in
    let roomy = IsRoomy-update q.expired h.id count hs d.0 r.1 in
    elim (ℕ_discrete (q.expired h.id) 0) [
      | yes e ↦
          rw (settle-first h q r.0 e)
            (Settles-first h hs q _ _ rest (expire_counted-Settles hs _ d.1 roomy) e refl refl)
      | no e ↦
          rw (settle-again h q r.0 e)
            (Settles-again h hs q _ _ rest (expire_counted-Settles hs _ d.1 roomy) e refl refl)
    ]

due-Differ : (time : Time) (m : List Entry) → IsDistinct m → Differ (due time m)
unfolding due
due-Differ time [] d = tt
due-Differ time ((t, h) ∷ m) d = elim (Bool-cases (lt time t)) [
  | inl e ↦ rw e tt
  | inr e ↦ rw e (avoid h.id m d.0, due-Differ time m d.1)
]
  where
    avoid : (i : ℕ) (m : List Entry) → All (λ e. e.1.id ≢ i) m → All (λ g. g.id ≢ i) (due time m)
    avoid i [] a = tt
    avoid i ((t, h) ∷ m) a = elim (Bool-cases (lt time t)) [
      | inl e ↦ rw e tt
      | inr e ↦ rw e (a.0, avoid i m a.1)
    ]

-- `clear_timeouted` on a valid queue whose `expired_` counts are not at their largest value: the
-- entries later than `time` stay; of the others, in the order of their deadlines, just those that
-- had not expired before run their callbacks, each once, and are taken off `message_count_` (modulo
-- 2 ^ 32). The messages stay in the queue.
pub clear_timeouted_lem :
    (time : Time) (q : MessageQueue)
    → IsValid q
    → IsRoomy q.expired (due time q.timed_messages)
    → let old = map (λ (e : Entry). e.1) (select (is_due time) q.timed_messages) in
      let r = clear_timeouted time q in
      (r.timed_messages ≡ select (λ e. lt time e.0) q.timed_messages)
      × (r.messages ≡ q.messages)
      × Settles old q r
unfolding clear_timeouted
clear_timeouted_lem time q v room =
    let frame =
      expire_counted-Frame (due time q.timed_messages)
        (record q { timed_messages = after time q.timed_messages }) in
    let cut = due-select time q.timed_messages v.sorted in
    (
      frame.timed_messages ∙ cut.1,
      frame.messages,
      subst (λ hs. Settles hs q (clear_timeouted time q)) cut.0
          (let s =
              expire_counted-Settles (due time q.timed_messages)
                (record q { timed_messages = after time q.timed_messages })
                (due-Differ time q.timed_messages v.distinct) room in
            record { fired = s.fired; counted = s.counted }),
    )

due-after : (time : Time) (m : List Entry) → due time (after time m) ≡ []
unfolding due after
due-after time [] = refl
due-after time ((t, h) ∷ m) = ground (arith, due-after time m)

after-after : (time : Time) (m : List Entry) → after time (after time m) ≡ after time m
unfolding after
after-after time [] = refl
after-after time ((t, h) ∷ m) = ground (arith, after-after time m)

clear_timeouted-nothing :
    (time : Time) (q : MessageQueue)
    → due time q.timed_messages ≡ []
    → after time q.timed_messages ≡ q.timed_messages
    → clear_timeouted time q ≡ q
unfolding clear_timeouted expire_counted
clear_timeouted-nothing time q d a = rw d (ground (arith, a))

timed-clear_timeouted :
    (time : Time) (q : MessageQueue)
    → (clear_timeouted time q).timed_messages ≡ after time q.timed_messages
unfolding clear_timeouted
timed-clear_timeouted time q = (expire_counted-Frame (due time q.timed_messages) _).timed_messages

-- A second `clear_timeouted` at the same time changes nothing.
clear_timeouted_twice :
    (time : Time) (q : MessageQueue)
    → clear_timeouted time (clear_timeouted time q) ≡ clear_timeouted time q
clear_timeouted_twice time q =
    let kept = timed-clear_timeouted time q in
    clear_timeouted-nothing time (clear_timeouted time q)
      (ap (due time) kept ∙ due-after time q.timed_messages)
      (ap (after time) kept ∙ after-after time q.timed_messages ∙ sym kept)
