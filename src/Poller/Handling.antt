-- ===== src/Poller/Handling.antt =====
-- litemq/DescriptorHandlerPoller.cpp, `handle_`: the threads of a poller that got an event of one
-- holder. A step of one thread is one operation on what the threads share: an atomic one, a call of
-- the handler with the change of the holder's flags that it asks for, a call of epoll, a block under
-- a lock, or one of the steps of `release`. What the handler's `read()` and `write()` return, and
-- which thread moves, is left open.
pub mod Counts
pub mod Invariant
pub mod Exclusion
pub mod Rearming
use litemq.Prelude.{
  ℕ, suc, ◌+◌, ◌≡◌, ◌≢◌, ◌⊎◌, Bool, true, false, ◌||◌, Option, none, some, List, [], ◌∷◌, ◌++◌,
  get_elem?, set, add32, dec32, slt32,
}
use litemq.Poller.Holder.{
  DescriptorHandlerHolder, make_holder, reset_descriptor_handler, call_if, is_closed,
}
use litemq.Poller.Cleaner.{
  Release, idle, DescriptorHandlerCleaner, make_cleaner, push, stands, release_step,
}

-- What a thread that saw both directions closed has done: `handling_finished = 1`, `epoll_del_fd_`,
-- `stopped()`, `reset_descriptor_handler()`, and the push to the cleaner.
pub data Stage : Type 0 where
  marked : Stage
  deleted : Stage
  told : Stage
  forgotten : Stage
  left_to_cleaner : Stage

-- Where a thread stands in `handle_`, with its variables `stop_processing` and `rearm_fd`.
pub data Pc : Type 0 where
  outside : Pc
  tried : (prev_handle_in_progress : ℕ) → Pc  -- after `handle_in_progress++`
  handling : (stop rearm : Bool) → Pc  -- at the head of the loop, before `read()`
  read_called : (stop rearm : Bool) → Pc  -- before `write()`
  called : (stop rearm : Bool) → Pc  -- before the test of the closed directions
  after_round : (stop rearm : Bool) → Pc  -- before `handle_in_progress--`
  finishing : (stage : Stage) (stop rearm : Bool) → Pc
  leaving : (stop rearm : Bool) → Pc  -- behind the loop
  faulted : Pc  -- read through a null handler

-- the calls of `epoll_ctl` and of the handler's `stopped`
pub data Call : Type 0 where
  epoll_mod : (handle_read handle_write : Bool) → Call
  epoll_del : Call
  stopped : Call

pub record Handling : Type 0 where
  pub address : ℕ
  pub holder : DescriptorHandlerHolder
  pub cleaner : DescriptorHandlerCleaner
  -- whether `handlers_` has the handler
  pub is_listed : Bool
  pub calls : List Call
  pub threads : List Pc
  -- Observed: how often `handle_` was entered, how many rounds of calls have ended, and whether it
  -- was entered since the last of them began.
  pub entered : ℕ
  pub rounds : ℕ
  pub is_pending : Bool

abbrev pub moved : Handling → ℕ → Pc → Handling
moved s i pc = record s { threads = set s.threads i pc }

abbrev pub with_count : DescriptorHandlerHolder → ℕ → DescriptorHandlerHolder
with_count h n = record h { handle_in_progress = n }

-- The rest of the last round, by what is done: the handler is taken out of epoll, stopped and
-- forgotten, the holder is left to the cleaner, and `handlers_` loses the handler.
unfoldable pub finish_at : Stage → Bool → Bool → ℕ → Handling → Handling
unfolding reset_descriptor_handler
finish_at marked stop rearm i s = record (moved s i (finishing deleted stop rearm)) {
  calls = s.calls ++ (epoll_del ∷ []);
}
finish_at deleted stop rearm i s = record (moved s i (finishing told stop rearm)) {
  calls = s.calls ++ (stopped ∷ []);
}
finish_at told stop rearm i s = record (moved s i (finishing forgotten stop rearm)) {
  holder = reset_descriptor_handler s.holder;
}
finish_at forgotten stop rearm i s = record (moved s i (finishing left_to_cleaner stop rearm)) {
  cleaner = push s.address s.cleaner;
}
finish_at left_to_cleaner stop rearm i s = record (moved s i (leaving stop rearm)) {
  is_listed = false;
}

pub data Step (s : Handling) (i : ℕ) : Handling → Type 0 where
  enter :
      get_elem? s.threads i ≡ some outside
      → Step s i (record (moved s i (tried s.holder.handle_in_progress)) {
        holder = with_count s.holder (add32 s.holder.handle_in_progress 1);
        entered = s.entered + 1;
        is_pending = true;
      })
  skip :
      {prev : ℕ}
      → get_elem? s.threads i ≡ some (tried prev)
      → (s.holder.handling_finished ≡ true) ⊎ (prev ≢ 0)
      → Step s i (moved s i (leaving false false))
  begin :
      {prev : ℕ}
      → get_elem? s.threads i ≡ some (tried prev)
      → s.holder.handling_finished ≡ false
      → prev ≡ 0
      → Step s i (moved s i (handling false false))
  read_handler :
      {stop rearm : Bool} (on_read : ℕ)
      → get_elem? s.threads i ≡ some (handling stop rearm)
      → Step s i
          (record (moved s i
            (read_called (stop || (call_if s.holder.handle_read on_read s.holder).0) rearm)) {
              holder = (call_if s.holder.handle_read on_read s.holder).1;
              is_pending = false;
            })
  write_handler :
      {stop rearm : Bool} (on_write : ℕ)
      → get_elem? s.threads i ≡ some (read_called stop rearm)
      → Step s i
          (record (moved s i
            (called (stop || (call_if s.holder.handle_write on_write s.holder).0) rearm)) {
              holder = (call_if s.holder.handle_write on_write s.holder).1;
              rounds = s.rounds + 1;
            })
  go_on :
      {stop rearm : Bool}
      → get_elem? s.threads i ≡ some (called stop rearm)
      → is_closed s.holder ≡ false
      → Step s i (moved s i (after_round stop true))
  close :
      {stop rearm : Bool}
      → get_elem? s.threads i ≡ some (called stop rearm)
      → is_closed s.holder ≡ true
      → Step s i (record (moved s i (finishing marked stop rearm)) {
        holder = record s.holder { handling_finished = true };
      })
  finish :
      {stage : Stage} {stop rearm : Bool}
      → get_elem? s.threads i ≡ some (finishing stage stop rearm)
      → Step s i (finish_at stage stop rearm i s)
  again :
      {stop rearm : Bool}
      → get_elem? s.threads i ≡ some (after_round stop rearm)
      → slt32 1 s.holder.handle_in_progress ≡ true
      → Step s i (record (moved s i (handling stop rearm)) {
        holder = with_count s.holder (dec32 s.holder.handle_in_progress);
      })
  leave :
      {stop rearm : Bool}
      → get_elem? s.threads i ≡ some (after_round stop rearm)
      → slt32 1 s.holder.handle_in_progress ≡ false
      → Step s i (record (moved s i (leaving stop rearm)) {
        holder = with_count s.holder (dec32 s.holder.handle_in_progress);
      })
  rearm_handler :
      {stop : Bool} {handler : ℕ}
      → get_elem? s.threads i ≡ some (leaving stop true)
      → s.holder.descriptor_handler ≡ some handler
      → Step s i (record (moved s i (leaving stop false)) {
        calls = s.calls ++ (epoll_mod s.holder.handle_read s.holder.handle_write ∷ []);
      })
  rearm_null :
      {stop : Bool}
      → get_elem? s.threads i ≡ some (leaving stop true)
      → s.holder.descriptor_handler ≡ none
      → Step s i (moved s i faulted)
  release_more :
      {stop : Bool}
      → get_elem? s.threads i ≡ some (leaving stop false)
      → stands i (release_step i s.cleaner) ≢ idle
      → Step s i (record s { cleaner = release_step i s.cleaner })
  release_thread :
      {stop : Bool}
      → get_elem? s.threads i ≡ some (leaving stop false)
      → stands i (release_step i s.cleaner) ≡ idle
      → Step s i (record (moved s i outside) { cleaner = release_step i s.cleaner })

pub data Reach (s : Handling) : Handling → Type 0 where
  here : Reach s s
  next : {t u : Handling} → Reach s t → (i : ℕ) → Step t i u → Reach s u

unfoldable pub outside_threads : ℕ → List Pc
outside_threads ℕ.zero = []
outside_threads (suc n) = outside ∷ outside_threads n

-- A holder that was just added, and `n` threads.
unfoldable pub start : ℕ → ℕ → ℕ → Handling
unfolding outside_threads make_holder make_cleaner
start address handler n = record {
  address = address;
  holder = make_holder handler;
  cleaner = make_cleaner n;
  is_listed = true;
  calls = [];
  threads = outside_threads n;
  entered = 0;
  rounds = 0;
  is_pending = false;
}
