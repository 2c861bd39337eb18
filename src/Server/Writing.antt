-- ===== src/Server/Writing.antt =====
-- `reconfigure_write_bufs_`: which bytes are still to be sent.
use litemq.Prelude.{
  ℕ, suc, ◌+◌, ◌-◌, ◌^◌, ◌<◌, ◌≤◌, ◌≡◌, refl, ap, sym, ◌∙◌, inl, inr, true, false, Bool-cases, ltb,
  ltb→lt, lt→ltb, leb, leb→le, List, [], ◌∷◌, ◌++◌, length, length-append, drop, drop-append_ge,
  drop-append_le, drop_all, drop-drop, add64, sub64, arith,
}
use litemq.Server.{HashConnection, scan, trim_first, rebuild}

-- the bytes of some buffers
abbrev pub joined : List (List ℕ) → List ℕ
joined [] = []
joined (b ∷ bufs) = b ++ joined bufs

-- The `iovec`s cover the buffers, the first from the position on.
abbrev pub Covers : ℕ → List (List ℕ) → List (List ℕ) → Type 0
Covers pos [] [] = pos ≡ 0
Covers pos [] (v ∷ vs) = ⊥
Covers pos (b ∷ bs) [] = ⊥
Covers pos (b ∷ bs) (v ∷ vs) = (v ≡ drop pos b) × (pos ≤ length b) × (vs ≡ bs)

abbrev pub IsCovered : HashConnection → Type 0
IsCovered h = Covers h.first_write_buf_pos h.write_bufs h.write_iovec_buf

abbrev pub pending : HashConnection → List ℕ
pending h = joined h.write_iovec_buf

-- How the loop ends when it starts at whole buffers, `prev` bytes before the first of them: all
-- bytes are sent, or the cut falls into the buffer after the first `k`.
pub data Outcome (sent i prev : ℕ) (bufs : List (List ℕ)) : List (List ℕ) × ℕ × ℕ × ℕ → Type 0 where
  all_sent :
      {j p c : ℕ}
      → j ≡ i + length bufs
      → c ≤ sent
      → sent ≡ prev + length (joined bufs)
      → Outcome sent i prev bufs ([], j, p, c)
  cut :
      {b : List ℕ} {bs : List (List ℕ)} {j p c : ℕ} (k : ℕ)
      → j ≡ i + k
      → drop k bufs ≡ b ∷ bs
      → p ≤ sent
      → c ≡ p + length b
      → sent < c
      → drop (sent - prev) (joined bufs) ≡ drop (sent - p) (joined (b ∷ bs))
      → Outcome sent i prev bufs (b ∷ bs, j, p, c)

pass_first :
    (sent i prev cur : ℕ) (b d : List ℕ) (bufs : List (List ℕ)) {r : List (List ℕ) × ℕ × ℕ × ℕ}
    → cur ≡ prev + length b
    → cur ≤ sent
    → Outcome sent (suc i) cur (d ∷ bufs) r
    → Outcome sent i prev (b ∷ d ∷ bufs) r
pass_first sent i prev cur b d bufs e l (all_sent j c s) =
    all_sent (omega arith) c (omega (arith, length-append {0} b (joined (d ∷ bufs))))
pass_first sent i prev cur b d bufs e l (cut k j x y z w q) =
    let past : sent - prev ≡ length b + (sent - cur) = omega arith in
    cut (suc k) (omega arith) x y z w (
      ap (λ n. drop n (b ++ joined (d ∷ bufs))) past
      ∙ drop-append_ge (sent - cur) b (joined (d ∷ bufs))
      ∙ q)

pub scan-Outcome :
    (sent i prev cur : ℕ) (b : List ℕ) (bufs : List (List ℕ))
    → prev ≤ sent
    → cur ≡ prev + length b
    → cur + length (joined bufs) < 2 ^ 64
    → sent ≤ cur + length (joined bufs)
    → Outcome sent i prev (b ∷ bufs) (scan sent i prev cur (b ∷ bufs))
unfolding scan
scan-Outcome sent i prev cur b [] p c k l = elim (Bool-cases (leb cur sent)) [
  | inl e ↦ rw e (
      all_sent (omega arith) (ground arith)
        (omega (arith, length-append {0} b [], leb→le cur sent e)))
  | inr e ↦ rw e (cut 0 (omega arith) refl p c (ground arith) refl)
]
scan-Outcome sent i prev cur b (d ∷ bufs) p c k l = elim (Bool-cases (leb cur sent)) [
  | inl e ↦
      let size = length-append d (joined bufs) in
      let le = leb→le cur sent e in
      let sum : add64 cur (length d) ≡ cur + length d = omega arith in
      rw e (
        pass_first sent i prev cur b d bufs c le (
          scan-Outcome sent (suc i) cur (add64 cur (length d)) d bufs le sum (omega arith)
            (omega arith)))
  | inr e ↦ rw e (cut 0 (omega arith) refl p c (ground arith) refl)
]

-- The buffers and `iovec`s after a write, if those from the `i`-th on are whole.
pub rebuild-pending :
    (sent i prev : ℕ) (bufs : List (List ℕ)) (h : HashConnection) {r : List (List ℕ) × ℕ × ℕ × ℕ}
    → sent < 2 ^ 64
    → drop i h.write_iovec_buf ≡ bufs
    → Outcome sent i prev bufs r
    → (pending (rebuild sent r h) ≡ drop (sent - prev) (joined bufs)) × IsCovered (rebuild sent r h)
unfolding rebuild trim_first
rebuild-pending sent i prev bufs h small w (all_sent {j = j} {p = p} {c = c} e l t) =
    let gone : drop j h.write_iovec_buf ≡ [] =
      ap (λ n. drop n h.write_iovec_buf) e
      ∙ sym (drop-drop (length bufs) i h.write_iovec_buf)
      ∙ ap (drop (length bufs)) w
      ∙ drop_all (length bufs) bufs (omega arith) in
    let over : ltb sent c ≡ false = ground arith in
    rw over (rw gone (sym (drop_all (sent - prev) (joined bufs) (omega arith))), rw gone refl)
rebuild-pending sent i prev bufs h small w
      (cut {b = b} {bs = bs} {j = j} {p = p} {c = c} k e x y z l q) =
    let kept : drop j h.write_iovec_buf ≡ b ∷ bs =
      ap (λ n. drop n h.write_iovec_buf) e
      ∙ sym (drop-drop k i h.write_iovec_buf)
      ∙ ap (drop k) w
      ∙ x in
    let inside : ltb sent c ≡ true = lt→ltb sent c l in
    elim (Bool-cases (ltb p sent)) [
      | inl t ↦
          let pos : sub64 sent p ≡ sent - p = omega (arith, ltb→lt p sent t) in
          let short : sent - p ≤ length b = omega arith in
          rw (inside, t, kept, pos)
            (sym (drop-append_le (sent - p) b (joined bs) short) ∙ sym q, (refl, short, refl))
      | inr t ↦
          let whole : sent - p ≡ 0 = ground arith in
          rw (inside, t, kept)
            (sym (q ∙ ap (λ n. drop n (joined (b ∷ bs))) whole), (refl, omega arith, refl))
    ]
