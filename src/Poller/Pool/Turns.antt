-- ===== src/Poller/Pool/Turns.antt =====
-- The pool gives every poller its turn.
use litemq.Prelude.{
  ℕ, zero, suc, ◌+◌, ◌-◌, ◌<◌, ◌≡◌, ◌≢◌, ◌⊎◌, inl, inr, refl, sym, ap, subst, ◌∙◌, if◌then◌else◌,
  leb, ◌==◌, none, some, List, [], ◌∷◌, length, length-set, get_elem?, set, arith,
}
use mathlib.Core.Option.{some-injective}
use litemq.Poller.Pool.{
  DescriptorHandlerPoller, make_poller, Request, add, DescriptorHandlerPollerPool, empty_pollers,
  make_pool, add_to_pool, add_at, add_all, add_each,
}

-- Of a list, every `n`-th element, from the one behind the first `skip`.
abbrev pub every : ℕ → ℕ → List Request → List Request
every n skip [] = []
every n zero (r ∷ requests) = r ∷ every n (n - 1) requests
every n (suc skip) (r ∷ requests) = every n skip requests

-- how many other pollers have their turn before poller `j`, when it is the turn of poller `i` of `n`
abbrev turns : ℕ → ℕ → ℕ → ℕ
turns n i j = if leb i j then j - i else j + n - i

abbrev next_turn : ℕ → ℕ → ℕ
next_turn n i = if i + 1 == n then 0 else i + 1

next_turn-lt : (n i : ℕ) → i < n → next_turn n i < n
next_turn-lt n i h = ground arith

turns_self : (n i : ℕ) → i < n → (turns n i i ≡ 0) × (turns n (next_turn n i) i ≡ n - 1)
turns_self n i h = ground arith

turns_other : (n i j : ℕ) → i < n → j < n → i ≢ j → turns n i j ≡ suc (turns n (next_turn n i) j)
turns_other n i j h k e = ground arith

get_elem?-lt :
    (ps : List DescriptorHandlerPoller) (i : ℕ)
    → i < length ps
    → (p : DescriptorHandlerPoller) × (get_elem? ps i ≡ some p)
get_elem?-lt [] i h = absurd (omega (arith, h))
get_elem?-lt (p ∷ ps) zero h = (p, refl)
get_elem?-lt (p ∷ ps) (suc i) h = get_elem?-lt ps i (omega (arith, h))

get_elem?-set_self :
    (ps : List DescriptorHandlerPoller) (i : ℕ) (p : DescriptorHandlerPoller)
    → i < length ps
    → get_elem? (set ps i p) i ≡ some p
get_elem?-set_self [] i p h = absurd (omega (arith, h))
get_elem?-set_self (q ∷ ps) zero p h = refl
get_elem?-set_self (q ∷ ps) (suc i) p h = get_elem?-set_self ps i p (omega (arith, h))

get_elem?-set_other :
    (ps : List DescriptorHandlerPoller) (i j : ℕ) (p : DescriptorHandlerPoller)
    → i ≢ j
    → get_elem? (set ps i p) j ≡ get_elem? ps j
get_elem?-set_other [] i j p h = refl
get_elem?-set_other (q ∷ ps) zero zero p h = absurd (h refl)
get_elem?-set_other (q ∷ ps) zero (suc j) p h = refl
get_elem?-set_other (q ∷ ps) (suc i) zero p h = refl
get_elem?-set_other (q ∷ ps) (suc i) (suc j) p h = get_elem?-set_other ps i j p (λ e. h (ap suc e))

after_add :
    Request → DescriptorHandlerPollerPool → DescriptorHandlerPoller → DescriptorHandlerPollerPool
after_add r pool q = record {
  pollers = set pool.pollers pool.poller_it (add r q).1;
  poller_it = next_turn (length pool.pollers) pool.poller_it;
}

add_to_pool-after_add :
    (r : Request) (pool : DescriptorHandlerPollerPool) (q : DescriptorHandlerPoller)
    → get_elem? pool.pollers pool.poller_it ≡ some q
    → add_to_pool r pool ≡ some ((add r q).0, after_add r pool q)
unfolding add_to_pool after_add
add_to_pool-after_add r pool q e = ap (add_at r pool) e

add_all-after_add :
    (r : Request) (requests : List Request) (pool : DescriptorHandlerPollerPool)
    (q : DescriptorHandlerPoller)
    → get_elem? pool.pollers pool.poller_it ≡ some q
    → add_all (r ∷ requests) pool ≡ add_all requests (after_add r pool q)
unfolding add_all
add_all-after_add r requests pool q e =
    ap (λ o. elim o [ none ↦ none | some (ok, after) ↦ add_all requests after ])
      (add_to_pool-after_add r pool q e)

-- What poller `j` has after the first of some requests, and what is left of its turns.
turn_taken :
    (n i j : ℕ) (r : Request) (requests : List Request) (ps : List DescriptorHandlerPoller)
    (q p : DescriptorHandlerPoller)
    → length ps ≡ n
    → i < n
    → j < n
    → get_elem? ps i ≡ some q
    → get_elem? ps j ≡ some p
    → (p' : DescriptorHandlerPoller) × (get_elem? (set ps i (add r q).1) j ≡ some p')
      × (add_each (every n (turns n (next_turn n i) j) requests) p'
          ≡ add_each (every n (turns n i j) (r ∷ requests)) p)
unfolding add_each
turn_taken n i j r requests ps q p l h k e f = elim (ℕ-cases i j) [
  | inl same ↦
      let (now, later) = turns_self n i h in
      let q_is_p : q ≡ p = some-injective q p (sym e ∙ ap (get_elem? ps) same ∙ f) in
      (
        (add r q).1,
        ap (get_elem? (set ps i (add r q).1)) (sym same)
            ∙ get_elem?-set_self ps i (add r q).1 (omega (arith, l, h)),
        ap (λ m. add_each (every n m requests) (add r q).1)
              (subst (λ x. turns n (next_turn n i) x ≡ n - 1) same later)
            ∙ ap (λ x. add_each (every n (n - 1) requests) (add r x).1) q_is_p
            ∙ ap (λ m. add_each (every n m (r ∷ requests)) p)
                (sym (subst (λ x. turns n i x ≡ 0) same now)),
      )
  | inr other ↦ (
    p,
    get_elem?-set_other ps i j (add r q).1 other ∙ f,
    ap (λ m. add_each (every n m (r ∷ requests)) p) (sym (turns_other n i j h k other)),
  )
]
  where
    ℕ-cases : (i j : ℕ) → (i ≡ j) ⊎ (i ≢ j)
    ℕ-cases i j = ground arith

add_all-turns :
    (requests : List Request) (pool : DescriptorHandlerPollerPool) (n j : ℕ)
    (p : DescriptorHandlerPoller)
    → length pool.pollers ≡ n
    → pool.poller_it < n
    → j < n
    → get_elem? pool.pollers j ≡ some p
    → (after : DescriptorHandlerPollerPool) × (add_all requests pool ≡ some after)
      × (get_elem? after.pollers j
          ≡ some (add_each (every n (turns n pool.poller_it j) requests) p))
unfolding add_all add_each after_add
add_all-turns [] pool n j p l h k f = (pool, refl, f)
add_all-turns (r ∷ requests) pool n j p l h k f =
    let i = pool.poller_it in
    let (q, e) = get_elem?-lt pool.pollers i (omega (arith, l, h)) in
    let (p', g, same) = turn_taken n i j r requests pool.pollers q p l h k e f in
    let moved : next_turn (length pool.pollers) i ≡ next_turn n i = ap (λ m. next_turn m i) l in
    let (after, all, at_j) =
      add_all-turns requests (after_add r pool q) n j p' (length-set pool.pollers i (add r q).1 ∙ l)
        (subst (λ m. m < n) (sym moved) (next_turn-lt n i h)) k g in
    (
      after,
      add_all-after_add r requests pool q e ∙ all,
      at_j ∙ ap (λ m. some (add_each (every n (turns n m j) requests) p')) moved ∙ ap some same,
    )

length-empty_pollers : (n : ℕ) → length (empty_pollers n) ≡ n
length-empty_pollers zero = refl
length-empty_pollers (suc n) = omega (arith, length-empty_pollers n)

get_elem?-empty_pollers : (n j : ℕ) → j < n → get_elem? (empty_pollers n) j ≡ some make_poller
get_elem?-empty_pollers zero j h = absurd (omega (arith, h))
get_elem?-empty_pollers (suc n) zero h = refl
get_elem?-empty_pollers (suc n) (suc j) h = get_elem?-empty_pollers n j (omega (arith, h))

-- A new pool with at least one poller takes any handlers that are added, with the same outcome as
-- if each poller `j` were given, by itself, the handlers number `j`, `j + n`, `j + 2 n` and so on.
pub add_all-every :
    (n j : ℕ) (requests : List Request)
    → j < n
    → (after : DescriptorHandlerPollerPool) × (add_all requests (make_pool n) ≡ some after)
      × (get_elem? after.pollers j ≡ some (add_each (every n j requests) make_poller))
unfolding make_pool
add_all-every n j requests h =
    let first : turns n 0 j ≡ j = from_first n j in
    let (after, all, at_j) =
      add_all-turns requests (make_pool n) n j make_poller (length-empty_pollers n)
        (omega (arith, h)) h (get_elem?-empty_pollers n j h) in
    (after, all, at_j ∙ ap (λ m. some (add_each (every n m requests) make_poller)) first)
  where
    from_first : (n j : ℕ) → turns n 0 j ≡ j
    from_first n j = ground arith
