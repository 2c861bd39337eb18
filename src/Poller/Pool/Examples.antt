-- ===== src/Poller/Pool/Examples.antt =====
-- Tests of DescriptorHandlerPollerPool of litemq/DescriptorHandlerPoller.cpp, and its theorem at a
-- concrete pool.
use litemq.Prelude.{ℕ, ◌≡◌, refl, true, false, none, some, List, [], ◌∷◌, get_elem?, arith}
use litemq.Poller.Pool.{
  make_poller, Request, add, add_by_proxy, detach, DescriptorHandlerPollerPool, make_pool, add_all,
  add_each,
}
use litemq.Poller.Pool.Turns.{add_all-every}

abbrev request : ℕ → Request
request n = record { handler = n; holder = n; epoll_ok = true }

abbrev requests : List Request
requests = request 5 ∷ request 6 ∷ request 7 ∷ request 8 ∷ request 9 ∷ []

add_all-every_example :
    (after : DescriptorHandlerPollerPool) × (add_all requests (make_pool 2) ≡ some after)
    × (get_elem? after.pollers 1 ≡ some (add_each (request 6 ∷ request 8 ∷ []) make_poller))
add_all-every_example = add_all-every 2 1 requests (omega arith)

no_pollers_test : add_all requests (make_pool 0) ≡ none
unfolding add_all make_pool
no_pollers_test = refl

-- A handler that epoll refuses stays with the poller, and is taken for added the next time.
refused_test :
    add (request 5) (add (record (request 5) { epoll_ok = false }) make_poller).1
    ≡ (true, record { handlers = (5, 5) ∷ []; watched = [] })
unfolding add
refused_test = refl

proxy_test : add_by_proxy (request 5) (detach (some make_poller)) ≡ (false, none)
unfolding add_by_proxy detach
proxy_test = refl
