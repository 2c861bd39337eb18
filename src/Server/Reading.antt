-- ===== src/Server/Reading.antt =====
-- `read()`: an answer for each line, however the bytes arrive.
use litemq.Prelude.{
  ℕ, zero, suc, ◌+◌, ◌≤◌, ◌≡◌, refl, ap, ap₂, sym, ◌∙◌, inl, inr, Bool, true, false, Bool-cases,
  if◌then◌else◌, ltb, ◌==◌, some, List, [], ◌∷◌, ◌++◌, append-nil, append_assoc, length,
  length-append, length-take, take, take-append-drop, drop, drop-append_ge, drop-append_le, arith,
}
use litemq.Poller.Holder.{
  both, close_read_handle, close_write_handle, start_write_handle, stop_write_handle,
}
use litemq.Server.{
  HashConnection, newline, answer, add_write_buf, process_input_message, process_lines, shrink,
  receive, ReadResult, got, would_block, failed, end_of_file, is_empty, read, shrink_read_size,
  error,
}
use litemq.Server.Writing.{joined}

abbrev pub newlines : List ℕ → ℕ
newlines [] = 0
newlines (c ∷ cs) = (if c == newline then 1 else 0) + newlines cs

abbrev pub answers : ℕ → List (List ℕ)
answers zero = []
answers (suc n) = answer ∷ answers n

newlines-append : (xs ys : List ℕ) → newlines (xs ++ ys) ≡ newlines xs + newlines ys
newlines-append [] ys = omega arith
newlines-append (x ∷ xs) ys = omega (arith, newlines-append xs ys)

answers-append : (m n : ℕ) → answers m ++ answers n ≡ answers (m + n)
answers-append zero n = ap answers (omega arith)
answers-append (suc m) n = ap (◌∷◌ answer) (answers-append m n) ∙ ap answers (shift m n)
  where
    shift : (m n : ℕ) → suc (m + n) ≡ suc m + n
    shift m n = omega arith

process_lines-answers :
    (line bytes : List ℕ) (h : HashConnection)
    → (process_lines line bytes h).write_bufs ≡ h.write_bufs ++ answers (newlines bytes)
unfolding process_lines process_input_message add_write_buf
process_lines-answers line [] h = sym (append-nil h.write_bufs)
process_lines-answers line (c ∷ cs) h = elim (Bool-cases (c == newline)) [
  | inl e ↦
      let more : suc (newlines cs) ≡ 1 + newlines cs = omega arith in
      rw (e, process_lines)
        (process_lines-answers [] cs _
          ∙ append_assoc h.write_bufs (answer ∷ []) (answers (newlines cs))
          ∙ ap (λ n. h.write_bufs ++ answers n) more)
  | inr e ↦
      let same : newlines cs ≡ 0 + newlines cs = omega arith in
      rw (e, process_lines)
        (process_lines-answers (line ++ (c ∷ [])) cs h ∙ ap (λ n. h.write_bufs ++ answers n) same)
]

-- The bytes from `read_processed_buf_pos_` on hold no whole line.
pub record IsProcessed (h : HashConnection) : Type 0 where
  pub within : h.read_processed_buf_pos ≤ length h.read_buf
  pub no_line : newlines (drop h.read_processed_buf_pos h.read_buf) ≡ 0

process_lines-IsProcessed :
    (line bytes seen : List ℕ) (h : HashConnection)
    → h.read_buf ≡ seen ++ (line ++ bytes)
    → h.read_processed_buf_pos ≡ length seen
    → newlines line ≡ 0
    → IsProcessed (process_lines line bytes h)
unfolding process_lines process_input_message add_write_buf
process_lines-IsProcessed line [] seen h b p n =
    let whole : h.read_buf ≡ seen ++ line = b ∙ ap (◌++◌ seen) (append-nil line) in
    let pos : h.read_processed_buf_pos ≡ length seen + 0 = omega (arith, p) in
    record {
      within = omega (arith, ap length whole, length-append {0} seen line, p);
      no_line = ap newlines (ap₂ drop pos whole ∙ drop-append_ge 0 seen line) ∙ n;
    }
process_lines-IsProcessed line (c ∷ cs) seen h b p n =
    let moved : h.read_buf ≡ (seen ++ (line ++ (c ∷ []))) ++ cs =
      b
      ∙ ap (◌++◌ seen) (sym (append_assoc line (c ∷ []) cs))
      ∙ sym (append_assoc seen (line ++ (c ∷ [])) cs) in
    elim (Bool-cases (c == newline)) [
      | inl e ↦
          rw (e, process_lines)
            (process_lines-IsProcessed [] cs (seen ++ (line ++ (c ∷ []))) _ moved
              (omega (
                arith,
                p,
                length-append {0} seen (line ++ (c ∷ [])),
                length-append {0} line (c ∷ []),
              ))
              refl)
      | inr e ↦
          rw (e, process_lines)
            (process_lines-IsProcessed (line ++ (c ∷ [])) cs seen h
              (b ∙ ap (◌++◌ seen) (sym (append_assoc line (c ∷ []) cs))) p
              (newlines-append line (c ∷ []) ∙ ground arith))
    ]

shrink-IsProcessed : (h : HashConnection) → IsProcessed h → IsProcessed (shrink h)
unfolding shrink
shrink-IsProcessed h i = elim (Bool-cases (ltb shrink_read_size h.read_processed_buf_pos)) [
  | inl e ↦ rw e (record { within = omega arith; no_line = i.no_line })
  | inr e ↦ rw e i
]

write_bufs-shrink : (h : HashConnection) → (shrink h).write_bufs ≡ h.write_bufs
unfolding shrink
write_bufs-shrink h = ground arith

seen_so_far :
    (pos : ℕ) (buf bytes : List ℕ)
    → pos ≤ length buf
    → buf ++ bytes ≡ take pos buf ++ ([] ++ drop pos (buf ++ bytes))
seen_so_far pos buf bytes k =
    ap (λ xs. xs ++ bytes) (sym (take-append-drop pos buf))
    ∙ append_assoc (take pos buf) (drop pos buf) bytes
    ∙ ap (◌++◌ (take pos buf)) (sym (drop-append_le pos buf bytes k))

-- The lines that new bytes complete, with the unfinished line in front of them.
receive_lem :
    (bytes : List ℕ) (h : HashConnection)
    → IsProcessed h
    → ((receive bytes h).write_bufs ≡ h.write_bufs ++ answers (newlines bytes))
      × IsProcessed (receive bytes h)
unfolding receive
receive_lem bytes h i =
    let pos = h.read_processed_buf_pos in
    let buf = h.read_buf ++ bytes in
    let fresh = record h { read_buf = buf } in
    let todo = drop pos buf in
    let count : newlines todo ≡ newlines bytes =
      ap newlines (drop-append_le pos h.read_buf bytes i.within)
      ∙ newlines-append (drop pos h.read_buf) bytes
      ∙ omega (arith, i.no_line) in
    (
      write_bufs-shrink (process_lines [] todo fresh)
          ∙ process_lines-answers [] todo fresh
          ∙ ap (λ n. h.write_bufs ++ answers n) count,
      shrink-IsProcessed (process_lines [] todo fresh) (
          process_lines-IsProcessed [] todo (take pos h.read_buf) fresh
            (seen_so_far pos h.read_buf bytes i.within)
            (omega (arith, length-take {0} pos h.read_buf, i.within)) refl),
    )

-- How the reading ends.
pub data Ending : Type 0 where
  blocks fails closes : Ending

abbrev pub ending : Ending → ReadResult
ending blocks = would_block
ending fails = failed
ending closes = end_of_file

-- chunks of bytes, and the end
abbrev pub arrivals : List (List ℕ) → Ending → List ReadResult
arrivals [] e = ending e ∷ []
arrivals (bytes ∷ chunks) e = got bytes ∷ arrivals chunks e

-- What `read()` asks for at the end, by whether there is nothing to write.
abbrev pub verdict : Ending → Bool → ℕ
verdict blocks true = stop_write_handle
verdict blocks false = start_write_handle
verdict fails _ = both close_read_handle close_write_handle
verdict closes true = both close_read_handle close_write_handle
verdict closes false = both close_read_handle start_write_handle

read-ending :
    (e : Ending) (h : HashConnection)
    → read (ending e ∷ []) h ≡ some (verdict e (is_empty h.write_bufs), h)
unfolding read error
read-ending blocks h = elim (Bool-cases (is_empty h.write_bufs)) [
  | inl t ↦ rw t refl
  | inr t ↦ rw t refl
]
read-ending fails h = refl
read-ending closes h = elim (Bool-cases (is_empty h.write_bufs)) [
  | inl t ↦ rw t refl
  | inr t ↦ rw t refl
]

-- `read()` on any chunks of bytes, and then no more: it returns, with one answer queued for each
-- end of a line in the bytes, however they were cut into chunks; no whole line is left unprocessed,
-- and it asks to write just if something is queued, or else to stop or close as the end says.
pub read-arrivals :
    (chunks : List (List ℕ)) (e : Ending) (h : HashConnection)
    → IsProcessed h
    → (h' : HashConnection) × (read (arrivals chunks e) h
        ≡ some (verdict e (is_empty h'.write_bufs), h'))
      × (h'.write_bufs ≡ h.write_bufs ++ answers (newlines (joined chunks)))
      × IsProcessed h'
unfolding read
read-arrivals [] e h i = (h, read-ending e h, sym (append-nil h.write_bufs), i)
read-arrivals (bytes ∷ chunks) e h i =
    let one = receive_lem bytes h i in
    let (h', r, w, p) = read-arrivals chunks e (receive bytes h) one.1 in
    (
      h',
      r,
      w
          ∙ ap (λ bs. bs ++ answers (newlines (joined chunks))) one.0
          ∙ append_assoc h.write_bufs (answers (newlines bytes))
              (answers (newlines (joined chunks)))
          ∙ ap (◌++◌ h.write_bufs) (
              answers-append (newlines bytes) (newlines (joined chunks))
              ∙ ap answers (sym (newlines-append bytes (joined chunks)))),
      p,
    )
