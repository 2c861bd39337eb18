-- ===== src/Poller/Handling/Counts.antt =====
-- How many threads of `handle_` stand where.
use litemq.Prelude.{
  ℕ, suc, zero, ◌+◌, ◌≤◌, ◌≡◌, ap, some, List, [], ◌∷◌, get_elem?, set, if◌then◌else◌, ◌==◌, arith,
}
use mathlib.Core.Option.{some-injective}
use litemq.Poller.Handling.{
  Pc, outside, tried, handling, read_called, called, after_round, finishing, leaving, faulted,
}

-- A thread that holds the right to handle, or has just got it.
abbrev pub holds : Pc → ℕ
holds (tried prev) = if prev == 0 then 1 else 0
holds (handling stop rearm) = 1
holds (read_called stop rearm) = 1
holds (called stop rearm) = 1
holds (after_round stop rearm) = 1
holds _ = 0

-- A thread between the calls of the handler; one that has begun a round of calls; one that has
-- made the calls of its round.
abbrev pub handles : Pc → ℕ
handles (handling stop rearm) = 1
handles (read_called stop rearm) = 1
handles (called stop rearm) = 1
handles (after_round stop rearm) = 1
handles _ = 0

abbrev pub begun : Pc → ℕ
begun (read_called stop rearm) = 1
begun (called stop rearm) = 1
begun (after_round stop rearm) = 1
begun _ = 0

abbrev pub made : Pc → ℕ
made (called stop rearm) = 1
made (after_round stop rearm) = 1
made _ = 0

-- How many threads are so.
abbrev pub count : (Pc → ℕ) → List Pc → ℕ
count f [] = 0
count f (pc ∷ pcs) = f pc + count f pcs

abbrev pub holding : List Pc → ℕ
holding = count holds

abbrev pub count_handling : List Pc → ℕ
count_handling = count handles

handles-le : (pc : Pc) → (handles pc ≤ holds pc) × (begun pc ≤ handles pc) × (made pc ≤ handles pc)
handles-le outside = omega arith
handles-le (tried prev) = omega arith
handles-le (handling stop rearm) = omega arith
handles-le (read_called stop rearm) = omega arith
handles-le (called stop rearm) = omega arith
handles-le (after_round stop rearm) = omega arith
handles-le (finishing stage stop rearm) = omega arith
handles-le (leaving stop rearm) = omega arith
handles-le faulted = omega arith

pub count_handling-le :
    (pcs : List Pc)
    → (count handles pcs ≤ count holds pcs)
      × (count begun pcs ≤ count handles pcs)
      × (count made pcs ≤ count handles pcs)
count_handling-le [] = omega arith
count_handling-le (pc ∷ pcs) =
    let one = handles-le pc in
    let rest = count_handling-le pcs in
    (omega (arith, one.0, rest.0), omega (arith, one.1, rest.1), omega (arith, one.2, rest.2))

pub count-set :
    (f : Pc → ℕ) (pcs : List Pc) (i : ℕ) (old new : Pc)
    → get_elem? pcs i ≡ some old
    → count f (set pcs i new) + f old ≡ count f pcs + f new
count-set f [] i old new e = absurd (ground arith)
count-set f (pc ∷ pcs) zero old new e =
    let same : f pc ≡ f old = ap f (some-injective pc old e) in omega arith
count-set f (pc ∷ pcs) (suc i) old new e = omega (arith, count-set f pcs i old new e)

-- All three counts of it.
pub counts-set :
    (pcs : List Pc) (i : ℕ) (old new : Pc)
    → get_elem? pcs i ≡ some old
    → (count holds (set pcs i new) + holds old ≡ count holds pcs + holds new)
      × (count begun (set pcs i new) + begun old ≡ count begun pcs + begun new)
      × (count made (set pcs i new) + made old ≡ count made pcs + made new)
counts-set pcs i old new e = (
  count-set holds pcs i old new e,
  count-set begun pcs i old new e,
  count-set made pcs i old new e,
)
