-- ===== src/Poller/Cleaner/Safety.antt =====
-- What the cleaner promises: nothing is let go while a thread has not released.
use litemq.Prelude.{
  ℕ, ◌+◌, ◌<◌, ◌≤◌, ◌≡◌, ◌≢◌, ◌^◌, refl, ap, ap₂, subst, sym, ◌∙◌, true, false, List, [], ◌∷◌, ◌++◌,
  append-nil, append_assoc, length, get_or, All, ◌==◌, add32, dec32, arith, length-set,
}
use native.Mathlib.Decide.{ℕ_discrete}
use litemq.Poller.Cleaner.{
  Release, idle, checked, raised, lowering, lowered, reverting, reverted, DescriptorHandlerCleaner,
  make_cleaner, push, goes, stands, release_at, release_step,
}
use litemq.Poller.Cleaner.Releasing.{
  Fits, weight, FitsAll, weights, FitsAll-at, FitsAll-set, weight_two, weights-le, get_or-set_ne,
  zeros-all_idle,
}

-- No round is at its end, and thread `j` has not begun to release.
pub record IsUnreleased (n j : ℕ) (c : DescriptorHandlerCleaner) : Type 0 where
  pub fits : FitsAll c.release_array c.releases
  pub counted : c.unreleased_count ≡ weights c.release_array c.releases
  pub size : length c.release_array ≡ n
  pub small : n < 2 ^ 31
  pub in_range : j < n
  pub outside : stands j c ≡ idle
  pub unset : get_or c.release_array j 0 ≡ 0

-- What is let go, what is free, and the candidates.
pub record HasLists (cleared free candidates : List ℕ) (c : DescriptorHandlerCleaner) : Type 0 where
  pub let_go : c.cleared ≡ cleared
  pub kept : c.free ≡ free
  pub waiting : c.free_candidates ≡ candidates

module _ (n j i : ℕ) (cleared free candidates : List ℕ) (c : DescriptorHandlerCleaner)
    (u : IsUnreleased n j c) (l : HasLists cleared free candidates c) (ne : i ≢ j) (k : i < n) where
  -- A thread that goes to a fitting place, and keeps the count right, keeps all of it.
  goes-IsUnreleased :
      (pc : Release) (flag count : ℕ)
      → Fits pc flag
      → count + weight (stands i c) (get_or c.release_array i 0)
        ≡ c.unreleased_count + weight pc flag
      → IsUnreleased n j (goes i pc i flag count c)
        × HasLists cleared free candidates (goes i pc i flag count c)
  goes-IsUnreleased pc flag count f w =
      let moved =
        FitsAll-set c.release_array c.releases i flag pc u.fits (omega (arith, u.size, k)) f in
      (
        record {
          fits = moved.0;
          counted = omega (arith, moved.1, u.counted);
          size = length-set c.release_array i flag ∙ u.size;
          small = u.small;
          in_range = u.in_range;
          outside = get_or-set_ne c.releases i j pc idle ne ∙ u.outside;
          unset = get_or-set_ne c.release_array i j flag 0 ne ∙ u.unset;
        },
        record { let_go = l.let_go; kept = l.kept; waiting = l.waiting },
      )

  Fits-at : (pc : Release) → stands i c ≡ pc → Fits pc (get_or c.release_array i 0)
  Fits-at pc e =
      subst (λ p. Fits p (get_or c.release_array i 0)) e
        (FitsAll-at c.release_array c.releases i u.fits)

  weight_at :
      (pc : Release)
      → stands i c ≡ pc
      → weight (stands i c) (get_or c.release_array i 0) ≡ weight pc (get_or c.release_array i 0)
  weight_at pc e = ap (λ p. weight p (get_or c.release_array i 0)) e

  two_left : stands i c ≡ raised → 2 ≤ c.unreleased_count
  two_left e =
      let both =
        weight_two c.release_array c.releases i j u.fits ne (omega (arith, u.size, k))
          (omega (arith, u.size, u.in_range)) in
      let mine = weight_at raised e in
      let other = ap₂ weight u.outside u.unset in omega (arith, both, mine, other, u.counted)

  release_at-IsUnreleased :
      (pc : Release)
      → stands i c ≡ pc
      → IsUnreleased n j (release_at pc i c) × HasLists cleared free candidates (release_at pc i c)
  unfolding release_at
  release_at-IsUnreleased idle e =
      let flag = get_or c.release_array i 0 in
      let fit = Fits-at idle e in
      let w = weight_at idle e in
      elim (ℕ_discrete flag 0) [
        | yes z ↦
            let test : (flag == 0) ≡ true = ground arith in
            rw test (goes-IsUnreleased checked flag c.unreleased_count z (omega (arith, w)))
        | no z ↦
            let test : (flag == 0) ≡ false = ground arith in
            rw test (goes-IsUnreleased idle flag c.unreleased_count fit (omega (arith, w)))
      ]
  release_at-IsUnreleased checked e =
      let flag = get_or c.release_array i 0 in
      let fit : flag ≡ 0 = Fits-at checked e in
      let w = weight_at checked e in
      let test : (flag == 0) ≡ true = ground arith in
      let one : add32 flag 1 ≡ 1 = omega (arith, fit) in
      let empty : weight checked flag ≡ 1 = ground arith in
      rw test
        (goes-IsUnreleased raised (add32 flag 1) c.unreleased_count one (omega (arith, w, empty)))
  release_at-IsUnreleased raised e =
      let flag = get_or c.release_array i 0 in
      let count = c.unreleased_count in
      let fit : flag ≡ 1 = Fits-at raised e in
      let w = weight_at raised e in
      let more = two_left e in
      let test : (count == 1) ≡ false = ground arith in
      let bound = weights-le c.release_array c.releases in
      let less : dec32 count + 1 ≡ count = omega (arith, more, bound, u.counted, u.size, u.small) in
      let full : weight idle flag ≡ 0 = ground arith in
      let done : Fits idle flag = omega (arith, fit) in
      rw test (goes-IsUnreleased idle flag (dec32 count) done (omega (arith, w, less, full)))
  release_at-IsUnreleased (lowering it) e = absurd (omega (arith, Fits-at (lowering it) e))
  release_at-IsUnreleased (lowered it) e = absurd (omega (arith, Fits-at (lowered it) e))
  release_at-IsUnreleased reverting e = absurd (omega (arith, Fits-at reverting e))
  release_at-IsUnreleased reverted e = absurd (omega (arith, Fits-at reverted e))

push-IsUnreleased :
    (n j obj : ℕ) (c : DescriptorHandlerCleaner)
    → IsUnreleased n j c
    → IsUnreleased n j (push obj c)
unfolding push
push-IsUnreleased n j obj c u = record {
  fits = u.fits;
  counted = u.counted;
  size = u.size;
  small = u.small;
  in_range = u.in_range;
  outside = u.outside;
  unset = u.unset;
}

-- What happens to the cleaner, in order: a push, and a step of a thread's `release`.
pub data Event : Type 0 where
  pushes : ℕ → Event
  steps : ℕ → Event

unfoldable pub run : List Event → DescriptorHandlerCleaner → DescriptorHandlerCleaner
unfolding push release_step
run [] c = c
run (pushes obj ∷ events) c = run events (push obj c)
run (steps id ∷ events) c = run events (release_step id c)

abbrev pub pushed : List Event → List ℕ
pushed [] = []
pushed (pushes obj ∷ events) = obj ∷ pushed events
pushed (steps id ∷ events) = pushed events

-- The event is a push, or a step of one of the `n` threads other than `j`.
abbrev pub Spares : ℕ → ℕ → Event → Type 0
Spares n j (pushes obj) = Unit {0}
Spares n j (steps id) = (id < n) × (id ≢ j)

push-HasLists :
    (obj : ℕ) (cleared free candidates : List ℕ) (c : DescriptorHandlerCleaner)
    → HasLists cleared free candidates c
    → HasLists cleared free (candidates ++ (obj ∷ [])) (push obj c)
unfolding push
push-HasLists obj cleared free candidates c l = record {
  let_go = l.let_go;
  kept = l.kept;
  waiting = ap (λ xs. xs ++ (obj ∷ [])) l.waiting;
}

-- While no round is at its end and one of the threads does not begin to release: however the
-- others' steps in `release` and the pushes follow one another, nothing is let go, what is free
-- stays so, and every holder that is pushed waits behind the candidates. So neither are let go
-- before every thread has begun to release.
pub run-cleared :
    (events : List Event) (n j : ℕ) (cleared free candidates : List ℕ)
    (c : DescriptorHandlerCleaner)
    → IsUnreleased n j c
    → HasLists cleared free candidates c
    → All (Spares n j) events
    → HasLists cleared free (candidates ++ pushed events) (run events c)
unfolding run
run-cleared [] n j cleared free candidates c u l a = record {
  let_go = l.let_go;
  kept = l.kept;
  waiting = l.waiting ∙ sym (append-nil candidates);
}
run-cleared (pushes obj ∷ events) n j cleared free candidates c u l a =
    subst (λ xs. HasLists cleared free xs (run events (push obj c)))
      (append_assoc candidates (obj ∷ []) (pushed events))
      (run-cleared events n j cleared free (candidates ++ (obj ∷ [])) (push obj c)
        (push-IsUnreleased n j obj c u) (push-HasLists obj cleared free candidates c l) a.1)
run-cleared (steps id ∷ events) n j cleared free candidates c u l a =
    let kept =
      release_at-IsUnreleased n j id cleared free candidates c u l a.0.1 a.0.0 (stands id c) refl in
    run-cleared events n j cleared free candidates (release_step id c) kept.0 kept.1 a.1

-- A new cleaner of `n` threads.
pub make_cleaner-IsUnreleased :
    (n j : ℕ)
    → j < n
    → n < 2 ^ 31
    → IsUnreleased n j (make_cleaner n) × HasLists [] [] [] (make_cleaner n)
unfolding make_cleaner
make_cleaner-IsUnreleased n j k l =
    let z = zeros-all_idle n in
    (
      record {
        fits = z.0;
        counted = sym z.1;
        size = z.2;
        small = l;
        in_range = k;
        outside = (z.3 j).1;
        unset = (z.3 j).0;
      },
      record { let_go = refl; kept = refl; waiting = refl },
    )
