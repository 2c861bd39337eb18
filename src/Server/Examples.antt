-- ===== src/Server/Examples.antt =====
-- Tests of src/Server/main.cpp and the theorems at concrete connections.
use litemq.Prelude.{ℕ, ◌≡◌, refl, inl, some, List, [], ◌∷◌, ◌++◌, arith}
use litemq.Server.{HashConnection, answer, reconfigure_write_bufs, read, is_empty}
use litemq.Server.Writing.{joined, IsCovered, pending}
use litemq.Server.Partial.{pending-reconfigure_write_bufs, pending-reconfigure_inside}
use litemq.Server.Reading.{IsProcessed, blocks, arrivals, verdict, answers, newlines, read-arrivals}

abbrev two_answers : HashConnection
two_answers = record {
  read_processed_buf_pos = 0;
  read_buf = [];
  write_bufs = answer ∷ answer ∷ [];
  first_write_buf_pos = 0;
  write_iovec_buf = answer ∷ answer ∷ [];
  msg_iovlen = 2;
}

-- Five bytes of the first answer were sent.
abbrev begun : HashConnection
begun = record two_answers {
  first_write_buf_pos = 5;
  write_iovec_buf = (b'0' ∷ b'0' ∷ 10 ∷ []) ∷ answer ∷ [];
}

two_answers-IsCovered : IsCovered two_answers
two_answers-IsCovered = (refl, omega arith, refl)

begun-IsCovered : IsCovered begun
begun-IsCovered = (refl, omega arith, refl)

pending-reconfigure_write_bufs_example :
    (pending (reconfigure_write_bufs 10 two_answers) ≡ b'0' ∷ b'0' ∷ b'0' ∷ b'0' ∷ b'0' ∷ 10 ∷ [])
    × IsCovered (reconfigure_write_bufs 10 two_answers)
pending-reconfigure_write_bufs_example =
    pending-reconfigure_write_bufs 10 two_answers two_answers-IsCovered (omega arith) (omega arith)
      (omega arith) (inl refl)

-- After one more byte seven are pending again of an answer of which two should be.
pending-reconfigure_inside_example :
    (pending (reconfigure_write_bufs 1 begun)
      ≡ (b'0' ∷ b'0' ∷ b'0' ∷ b'0' ∷ b'0' ∷ b'0' ∷ 10 ∷ []) ++ answer)
    × IsCovered (reconfigure_write_bufs 1 begun)
pending-reconfigure_inside_example =
    pending-reconfigure_inside 1 begun begun-IsCovered (omega arith) (omega arith) (omega arith)
      (omega arith)

abbrev new_connection : HashConnection
new_connection = record two_answers { write_bufs = []; write_iovec_buf = []; msg_iovlen = 0 }

new_connection-IsProcessed : IsProcessed new_connection
new_connection-IsProcessed = record { within = omega arith; no_line = refl }

-- "a\nb" and then "c\n"
abbrev chunks : List (List ℕ)
chunks = (b'a' ∷ 10 ∷ b'b' ∷ []) ∷ (b'c' ∷ 10 ∷ []) ∷ []

read-arrivals_example :
    (h' : HashConnection) × (read (arrivals chunks blocks) new_connection
      ≡ some (verdict blocks (is_empty h'.write_bufs), h'))
    × (h'.write_bufs ≡ new_connection.write_bufs ++ answers (newlines (joined chunks)))
    × IsProcessed h'
read-arrivals_example = read-arrivals chunks blocks new_connection new_connection-IsProcessed
