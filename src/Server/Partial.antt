-- ===== src/Server/Partial.antt =====
-- `reconfigure_write_bufs_` after a send that ended inside a buffer.
use litemq.Prelude.{
  ℕ, ◌+◌, ◌-◌, ◌^◌, ◌<◌, ◌≤◌, ◌≡◌, ◌⊎◌, refl, ap, ap₂, sym, ◌∙◌, inl, inr, true, ltb, lt→ltb, leb,
  List, [], ◌∷◌, ◌++◌, length, length-append, length-drop, drop, drop-append_ge, drop-append_le,
  add64, sub64, arith,
}
use litemq.Server.{HashConnection, scan, first_size, rebuild, trim_first, reconfigure_write_bufs}
use litemq.Server.Writing.{
  joined, Covers, IsCovered, pending, Outcome, all_sent, scan-Outcome, rebuild-pending,
}

-- The first buffer, the others, and where the first `iovec` begins.
record Parts (h : HashConnection) : Type 0 where
  first : List ℕ
  others : List (List ℕ)
  bufs : h.write_bufs ≡ first ∷ others
  iovecs : h.write_iovec_buf ≡ drop h.first_write_buf_pos first ∷ others
  inside : h.first_write_buf_pos ≤ length first

Covers-parts :
    (pos : ℕ) (bs vs : List (List ℕ))
    → Covers pos bs vs
    → 0 < length (joined vs)
    → (b : List ℕ) × (rest : List (List ℕ)) × (bs ≡ b ∷ rest)
      × (vs ≡ drop pos b ∷ rest)
      × (pos ≤ length b)
Covers-parts pos [] [] c k = absurd (omega arith)
Covers-parts pos [] (v ∷ vs) c k = absurd c
Covers-parts pos (b ∷ bs) [] c k = absurd c
Covers-parts pos (b ∷ bs) (v ∷ vs) c k = (b, bs, refl, ap₂ ◌∷◌ c.0 c.2, c.1)

parts : (h : HashConnection) → IsCovered h → 0 < length (pending h) → Parts h
parts h c k =
    let p = Covers-parts h.first_write_buf_pos h.write_bufs h.write_iovec_buf c k in
    record { first = p.0; others = p.1; bufs = p.2; iovecs = p.3; inside = p.4 }

-- The loop when the bytes sent reach the end of the first buffer.
scan_past :
    (sent cur : ℕ) (b : List ℕ) (bufs : List (List ℕ))
    → cur ≤ sent
    → sent ≤ cur + length (joined bufs)
    → cur + length (joined bufs) < 2 ^ 64
    → Outcome sent 1 cur bufs (scan sent 0 0 cur (b ∷ bufs))
unfolding scan
scan_past sent cur b [] k l m =
    let passed : leb cur sent ≡ true = ground arith in
    rw passed (all_sent (omega arith) k (omega arith))
scan_past sent cur b (d ∷ bufs) k l m =
    let size = length-append d (joined bufs) in
    let passed : leb cur sent ≡ true = ground arith in
    let sum : add64 cur (length d) ≡ cur + length d = omega arith in
    rw passed
      (scan-Outcome sent 1 cur (add64 cur (length d)) d bufs k sum (omega arith) (omega arith))

scan_stays :
    (sent cur : ℕ) (b : List ℕ) (bufs : List (List ℕ))
    → sent < cur
    → scan sent 0 0 cur (b ∷ bufs) ≡ (b ∷ bufs, 0, 0, cur)
unfolding scan
scan_stays sent cur b [] l = ground arith
scan_stays sent cur b (d ∷ bufs) l = ground arith

module _ (sent : ℕ) (h : HashConnection) (p : Parts h) (some_sent : 0 < sent)
    (within : sent ≤ length (pending h)) (small : length (joined h.write_bufs) < 2 ^ 64) where
  open p use {first, others, bufs, iovecs, inside}

  left_of_first : length (drop h.first_write_buf_pos first) ≡ length first - h.first_write_buf_pos
  left_of_first = length-drop h.first_write_buf_pos first

  pending_size : length (pending h) ≡ length first - h.first_write_buf_pos + length (joined others)
  pending_size =
      ap (λ (vs : List (List ℕ)). length (joined vs)) iovecs
      ∙ length-append (drop h.first_write_buf_pos first) (joined others)
      ∙ ap (λ (n : ℕ). n + length (joined others)) left_of_first

  bufs_size : length (joined h.write_bufs) ≡ length first + length (joined others)
  bufs_size =
      ap (λ (vs : List (List ℕ)). length (joined vs)) bufs ∙ length-append first (joined others)

  cur_size : sub64 (length first) h.first_write_buf_pos ≡ length first - h.first_write_buf_pos
  cur_size = omega (arith, inside, bufs_size, small)

  from_start :
      h.first_write_buf_pos ≡ 0
      → (pending (reconfigure_write_bufs sent h) ≡ drop sent (pending h))
        × IsCovered (reconfigure_write_bufs sent h)
  unfolding reconfigure_write_bufs
  from_start z =
      let yes_sent = lt→ltb 0 sent some_sent in
      let cur = length first - h.first_write_buf_pos in
      let whole : h.write_iovec_buf ≡ first ∷ others = iovecs ∙ ap (λ n. drop n first ∷ others) z in
      let o =
        scan-Outcome sent 0 0 cur first others (omega arith) (omega arith)
          (omega (arith, bufs_size, small)) (omega (arith, pending_size, within)) in
      let r =
        rebuild-pending sent 0 0 (first ∷ others) h
          (omega (arith, pending_size, within, bufs_size, small)) whole o in
      let all : sent - 0 ≡ sent = omega arith in
      rw (yes_sent, bufs, cur_size)
        (
          r.0
              ∙ ap (λ n. drop n (joined (first ∷ others))) all
              ∙ ap (λ vs. drop sent (joined vs)) (sym whole),
          r.1,
        )

  past_first :
      length first - h.first_write_buf_pos ≤ sent
      → (pending (reconfigure_write_bufs sent h) ≡ drop sent (pending h))
        × IsCovered (reconfigure_write_bufs sent h)
  unfolding reconfigure_write_bufs
  past_first past =
      let yes_sent = lt→ltb 0 sent some_sent in
      let cur = length first - h.first_write_buf_pos in
      let front = drop h.first_write_buf_pos first in
      let o =
        scan_past sent cur first others past (omega (arith, pending_size, within))
          (omega (arith, bufs_size, small)) in
      let r =
        rebuild-pending sent 1 cur others h (omega (arith, pending_size, within, bufs_size, small))
          (ap (drop 1) iovecs) o in
      let sum : sent ≡ length front + (sent - cur) = omega (arith, left_of_first) in
      let dropped : drop sent (pending h) ≡ drop (sent - cur) (joined others) =
        ap (λ (vs : List (List ℕ)). drop sent (joined vs)) iovecs
        ∙ ap (λ n. drop n (front ++ joined others)) sum
        ∙ drop-append_ge (sent - cur) front (joined others) in
      rw (yes_sent, bufs, cur_size) (r.0 ∙ sym dropped, r.1)

  inside_first :
      sent < length first - h.first_write_buf_pos
      → (pending (reconfigure_write_bufs sent h) ≡ drop sent (joined h.write_bufs))
        × IsCovered (reconfigure_write_bufs sent h)
  unfolding reconfigure_write_bufs rebuild trim_first
  inside_first l =
      let cur = length first - h.first_write_buf_pos in
      let yes_sent = lt→ltb 0 sent some_sent in
      let stays = scan_stays sent cur first others l in
      let partly : ltb sent cur ≡ true = lt→ltb sent cur l in
      let short : sent ≤ length first = omega arith in
      let pos : sub64 sent 0 ≡ sent = omega (arith, bufs_size, small) in
      rw (yes_sent, bufs, cur_size)
        (rw stays (
          rw (partly, yes_sent, iovecs, pos)
            (sym (drop-append_le sent first (joined others) short), (refl, short, refl))))

-- A send of `sent` bytes off the pending ones, when the first buffer was not begun or the bytes
-- reach its end: exactly the other pending bytes are left, and the `iovec`s cover the buffers again.
pub pending-reconfigure_write_bufs :
    (sent : ℕ) (h : HashConnection)
    → IsCovered h
    → 0 < sent
    → sent ≤ length (pending h)
    → length (joined h.write_bufs) < 2 ^ 64
    → (h.first_write_buf_pos ≡ 0) ⊎ (first_size h.write_bufs ≤ h.first_write_buf_pos + sent)
    → (pending (reconfigure_write_bufs sent h) ≡ drop sent (pending h))
      × IsCovered (reconfigure_write_bufs sent h)
pending-reconfigure_write_bufs sent h c k w s (inl z) =
    from_start sent h (parts h c (omega arith)) k w s z
pending-reconfigure_write_bufs sent h c k w s (inr past) =
    let p = parts h c (omega arith) in
    past_first sent h p k w s (omega (arith, ap first_size p.bufs))

-- A send that ends inside the first buffer leaves, whatever part of that buffer had been sent
-- before, all its bytes behind the first `sent`: the position is counted from the front of the
-- buffer, so that bytes which had been sent are pending again.
pub pending-reconfigure_inside :
    (sent : ℕ) (h : HashConnection)
    → IsCovered h
    → 0 < sent
    → sent ≤ length (pending h)
    → length (joined h.write_bufs) < 2 ^ 64
    → h.first_write_buf_pos + sent < first_size h.write_bufs
    → (pending (reconfigure_write_bufs sent h) ≡ drop sent (joined h.write_bufs))
      × IsCovered (reconfigure_write_bufs sent h)
pending-reconfigure_inside sent h c k w s l =
    let p = parts h c (omega arith) in
    inside_first sent h p k w s (omega (arith, ap first_size p.bufs))
