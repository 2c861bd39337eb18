-- ===== src/Poller/Pool.antt =====
-- litemq/DescriptorHandlerPoller.hpp and .cpp: what a poller keeps of its handlers, its proxy, and
-- DescriptorHandlerPollerPool, which hands the handlers out to its pollers in turn. Handlers and
-- holders are given by their addresses; what `epoll_ctl` answers is an argument.
pub mod Turns
mod Examples
use litemq.Prelude.{
  ℕ, zero, suc, ◌+◌, Bool, true, false, not, if◌then◌else◌, ◌==◌, Option, none, some, List, [], ◌∷◌,
  ◌++◌, length, get_elem?, set,
}

-- The handlers that were added to a poller, with their holders, and the holders that epoll knows. The
-- poller's own handler of the stop pipe, which its constructor adds first, is Poller/Stopping's.
pub record DescriptorHandlerPoller : Type 0 where
  pub handlers : List (ℕ × ℕ)
  pub watched : List ℕ

abbrev pub make_poller : DescriptorHandlerPoller
make_poller = record { handlers = []; watched = [] }

unfoldable pub has_handler : ℕ → List (ℕ × ℕ) → Bool
has_handler handler [] = false
has_handler handler ((other, holder) ∷ handlers) =
    let more = has_handler handler handlers in if other == handler then true else more

-- a handler to add: its address, that of its new holder, and whether `epoll_ctl` succeeds
pub record Request : Type 0 where
  pub handler : ℕ
  pub holder : ℕ
  pub epoll_ok : Bool

-- `add`: false stands for the exception. A handler that is there already is not added again.
unfoldable pub add : Request → DescriptorHandlerPoller → Bool × DescriptorHandlerPoller
unfolding has_handler
add r p =
    let inserted = record p { handlers = p.handlers ++ ((r.handler, r.holder) ∷ []) } in
    let known = record inserted { watched = p.watched ++ (r.holder ∷ []) } in
    if has_handler r.handler p.handlers
    then (true, p)
    else if r.epoll_ok
    then (true, known)
    else (false, inserted)

-- `Proxy`, by the poller that it owns: `add` tells whether there is one.
unfoldable pub add_by_proxy :
    Request → Option DescriptorHandlerPoller → Bool × Option DescriptorHandlerPoller
unfolding add
add_by_proxy r none = (false, none)
add_by_proxy r (some p) = let (ok, after) = add r p in (ok, some after)

unfoldable pub detach : Option DescriptorHandlerPoller → Option DescriptorHandlerPoller
detach owner = none

-- `pollers_`, and the place of `poller_it_` in it
pub record DescriptorHandlerPollerPool : Type 0 where
  pub pollers : List DescriptorHandlerPoller
  pub poller_it : ℕ

abbrev pub empty_pollers : ℕ → List DescriptorHandlerPoller
empty_pollers zero = []
empty_pollers (suc n) = make_poller ∷ empty_pollers n

unfoldable pub make_pool : ℕ → DescriptorHandlerPollerPool
make_pool poller_num = record { pollers = empty_pollers poller_num; poller_it = 0 }

-- `add` of the pool. At the end of the list, where there is no poller, the behaviour is undefined.
unfoldable pub add_at :
    Request
    → DescriptorHandlerPollerPool
    → Option DescriptorHandlerPoller
    → Option (Bool × DescriptorHandlerPollerPool)
unfolding add
add_at r pool none = none
add_at r pool (some poller) =
    let it = pool.poller_it + 1 in
    let (ok, after) = add r poller in
    some (
      ok,
      record {
        pollers = set pool.pollers pool.poller_it after;
        poller_it = if it == length pool.pollers then 0 else it;
      },
    )

unfoldable pub add_to_pool :
    Request → DescriptorHandlerPollerPool → Option (Bool × DescriptorHandlerPollerPool)
unfolding add_at
add_to_pool r pool = add_at r pool (get_elem? pool.pollers pool.poller_it)

-- Calls of `add`, one after another, an exception or not.
unfoldable pub add_all :
    List Request → DescriptorHandlerPollerPool → Option DescriptorHandlerPollerPool
unfolding add_to_pool
add_all [] pool = some pool
add_all (r ∷ requests) pool = elim (add_to_pool r pool) [
  | none ↦ none
  | some (ok, after) ↦ add_all requests after
]

unfoldable pub add_each : List Request → DescriptorHandlerPoller → DescriptorHandlerPoller
unfolding add
add_each [] poller = poller
add_each (r ∷ requests) poller = add_each requests (add r poller).1
