-- ===== src/Poller/Stopping.antt =====
-- litemq/DescriptorHandlerPoller.cpp, StopPipeDescriptorHandler and the end of `process_`: how the
-- threads of a poller stop. Writes of four bytes to the pipe are counted. A thread gets an event of
-- the pipe from `epoll_wait` if the descriptor is armed and has data, which disarms it
-- (EPOLLONESHOT); `epoll_ctl` with EPOLL_CTL_MOD arms it again. While it is disarmed only one thread
-- is in `handle_` for it, so its call of `handle_` is one step.
pub mod Liveness
mod Examples
use litemq.Prelude.{
  ℕ, zero, suc, ◌+◌, ◌≡◌, Bool, true, false, not, ◌&&◌, ◌||◌, if◌then◌else◌, ltb, ◌==◌, List, [],
  ◌∷◌, ◌++◌, get_elem?, set, Option, none, some,
}
use litemq.Poller.Holder.{
  DescriptorHandlerHolder, make_holder, stop_processing, stop_write_handle, both, handle_round,
  is_closed,
}

pub record StopPipe : Type 0 where
  pub is_stopped : Bool  -- `stopped_`
  pub messages : ℕ  -- written and not read

abbrev pub make_pipe : StopPipe
make_pipe = record { is_stopped = false; messages = 0 }

-- `stop_` and `stop`
unfoldable pub write_message : StopPipe → StopPipe
write_message p = record p { messages = p.messages + 1 }

unfoldable pub stop : StopPipe → StopPipe
unfolding write_message
stop p = write_message (record p { is_stopped = true })

-- `read()`: what it returns, and the pipe. An empty pipe is EAGAIN.
unfoldable pub read_pipe : ℕ → StopPipe → ℕ × StopPipe
unfolding write_message
read_pipe zero p = (stop_write_handle, p)
read_pipe (suc n) p =
    (both stop_processing stop_write_handle, write_message (record p { messages = n }))

unfoldable pub read : StopPipe → ℕ × StopPipe
unfolding read_pipe
read p = if p.is_stopped then (stop_processing, p) else read_pipe p.messages p

-- `write()`
unfoldable pub write : StopPipe → ℕ
write p = stop_write_handle

-- A call of `handle_` with no other thread in it: whether it tells the thread to stop, the pipe, the
-- holder, and whether the descriptor is armed again.
unfoldable pub handle_alone :
    StopPipe → DescriptorHandlerHolder → Bool × StopPipe × DescriptorHandlerHolder × Bool
unfolding read write handle_round is_closed
handle_alone p h =
    let (on_read, after) = read p in
    let (stops, holder) = handle_round on_read (write p) h in
    (stops, (if h.handle_read then after else p), holder, not (is_closed holder))

-- `stop |= handle_(...)` over the events of one `epoll_wait` in `process_`
unfoldable pub any_stops : List Bool → Bool
any_stops [] = false
any_stops (stops ∷ events) = let rest = any_stops events in stops || rest

-- Where a thread stands in `process_`.
pub data Phase : Type 0 where
  waiting : Phase
  notified : Phase  -- it got an event of the pipe
  returned : Phase

pub record Stopping : Type 0 where
  pub pipe : StopPipe
  pub holder : DescriptorHandlerHolder
  pub is_armed : Bool
  pub threads : List Phase

abbrev pub moved : Stopping → ℕ → Phase → Stopping
moved s i phase = record s { threads = set s.threads i phase }

abbrev pub after_events : List Bool → Phase
after_events events = if any_stops events then returned else waiting

-- the state after a thread handled its events, the pipe's between others
unfoldable pub handled : ℕ → List Bool → List Bool → Stopping → Stopping
unfolding handle_alone any_stops
handled i front behind s =
    let (stops, pipe, holder, armed) = handle_alone s.pipe s.holder in
    record {
      pipe = pipe;
      holder = holder;
      is_armed = armed;
      threads = set s.threads i (after_events (front ++ (stops ∷ behind)));
    }

-- `wait` and `handle` are about the pipe. The other events of the same `epoll_wait`, in front of
-- the pipe's and behind it, are given by what `handle_` returns for them. A thread can also return
-- for other events alone, by `leave`.
pub data Step (s : Stopping) : Stopping → Type 0 where
  wait :
      (i : ℕ)
      → get_elem? s.threads i ≡ some waiting
      → s.is_armed ≡ true
      → ltb 0 s.pipe.messages ≡ true
      → Step s (record (moved s i notified) { is_armed = false })
  handle :
      (i : ℕ) (front behind : List Bool)
      → get_elem? s.threads i ≡ some notified
      → Step s (handled i front behind s)
  leave :
      (i : ℕ) (events : List Bool)
      → get_elem? s.threads i ≡ some waiting
      → any_stops events ≡ true
      → Step s (moved s i returned)

pub data Run (s : Stopping) : ℕ → Stopping → Type 0 where
  here : Run s 0 s
  next : {n : ℕ} {t u : Stopping} → Run s n t → Step t u → Run s (suc n) u

-- `deactivate_object` of a poller with `n` threads that wait, after `more` earlier calls of it
abbrev pub waiting_threads : ℕ → List Phase
waiting_threads zero = []
waiting_threads (suc n) = waiting ∷ waiting_threads n

unfoldable pub stop_times : ℕ → StopPipe
unfolding stop
stop_times zero = make_pipe
stop_times (suc n) = stop (stop_times n)

unfoldable pub deactivated : ℕ → ℕ → Stopping
unfolding stop_times make_holder
deactivated more n = record {
  pipe = stop_times (suc more);
  holder = make_holder 0;
  is_armed = true;
  threads = waiting_threads n;
}
