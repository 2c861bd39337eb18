-- ===== src/Poller/Cleaner.antt =====
-- litemq/DescriptorHandlerPoller.cpp, DescriptorHandlerCleaner: a holder is meant to be let go when all
-- threads have called `release` since it was pushed. `push` is one step, under its lock; `release` is the
-- steps of one thread, each an operation on an atomic, or the block under both locks. The `int`
-- values are bit patterns, and holders are their numbers.
pub mod Releasing
pub mod Ending
pub mod Safety
use litemq.Prelude.{
  ℕ, suc, zero, Option, none, some, List, [], ◌∷◌, ◌++◌, get_elem?, get_or, set, length, ltb,
  if◌then◌else◌, ◌==◌, add32, dec32,
}

-- Where a thread stands in `release`; `idle` is outside of it.
pub data Release : Type 0 where
  idle : Release
  checked : Release  -- before `release_array_[id]++`
  raised : Release  -- before `unreleased_count_--`
  lowering : (it : ℕ) → Release  -- at the head of the loop
  lowered : (it : ℕ) → Release  -- before the `unreleased_count_ += 1` of the loop
  reverting : Release  -- before `release_array_[id]--`
  reverted : Release  -- before the last `unreleased_count_ += 1`

pub record DescriptorHandlerCleaner : Type 0 where
  pub release_array : List ℕ
  pub unreleased_count : ℕ
  pub free : List ℕ
  pub free_candidates : List ℕ
  -- what has been let go, oldest first
  pub cleared : List ℕ
  -- where the threads stand in `release`
  pub releases : List Release

-- `CopyableAtomicInt(0)` for each thread
unfoldable pub zeros : ℕ → List ℕ
zeros zero = []
zeros (suc n) = 0 ∷ zeros n

unfoldable pub all_idle : ℕ → List Release
all_idle zero = []
all_idle (suc n) = idle ∷ all_idle n

unfoldable pub make_cleaner : ℕ → DescriptorHandlerCleaner
unfolding zeros all_idle
make_cleaner threads = record {
  release_array = zeros threads;
  unreleased_count = threads;
  free = [];
  free_candidates = [];
  cleared = [];
  releases = all_idle threads;
}

unfoldable pub push : ℕ → DescriptorHandlerCleaner → DescriptorHandlerCleaner
push obj c = record c { free_candidates = c.free_candidates ++ (obj ∷ []) }

-- Thread `id` gets to `pc`, having set the flag of thread `it` and the count.
abbrev pub goes : ℕ → Release → ℕ → ℕ → ℕ → DescriptorHandlerCleaner → DescriptorHandlerCleaner
goes id pc it flag count c = record c {
  release_array = set c.release_array it flag;
  unreleased_count = count;
  releases = set c.releases id pc;
}

-- The block under the locks: the free ones are let go, and the candidates become free.
unfoldable pub swap_lists : ℕ → DescriptorHandlerCleaner → DescriptorHandlerCleaner
swap_lists id c = record c {
  free = c.free_candidates;
  free_candidates = [];
  cleared = c.cleared ++ c.free;
  releases = set c.releases id idle;
}

-- the next step of thread `id`, by where it stands: at `idle`, the first of a call
unfoldable pub release_at : Release → ℕ → DescriptorHandlerCleaner → DescriptorHandlerCleaner
unfolding swap_lists
release_at idle id c =
    let flag = get_or c.release_array id 0 in
    goes id (if flag == 0 then checked else idle) id flag c.unreleased_count c
release_at checked id c =
    let flag = get_or c.release_array id 0 in
    goes id (if flag == 0 then raised else reverting) id (add32 flag 1) c.unreleased_count c
release_at raised id c =
    let count = c.unreleased_count in
    goes id (if count == 1 then lowering 0 else idle) id (get_or c.release_array id 0) (dec32 count)
      c
release_at (lowering it) id c =
    let flag = get_or c.release_array it 0 in
    if ltb it (length c.release_array)
    then goes id (if flag == 1 then lowered it else lowering (suc it)) it (dec32 flag)
        c.unreleased_count c
    else swap_lists id c
release_at (lowered it) id c =
    goes id (lowering (suc it)) it (get_or c.release_array it 0) (add32 c.unreleased_count 1) c
release_at reverting id c =
    let flag = get_or c.release_array id 0 in
    goes id (if flag == 1 then reverted else idle) id (dec32 flag) c.unreleased_count c
release_at reverted id c =
    goes id idle id (get_or c.release_array id 0) (add32 c.unreleased_count 1) c

abbrev pub stands : ℕ → DescriptorHandlerCleaner → Release
stands id c = get_or c.releases id idle

unfoldable pub release_step : ℕ → DescriptorHandlerCleaner → DescriptorHandlerCleaner
unfolding release_at
release_step id c = release_at (stands id c) id c
