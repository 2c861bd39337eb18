-- ===== src/Poller/Cleaner/Ending.antt =====
-- The end of a round that no other call of `release` overlaps.
use litemq.Prelude.{
  ℕ, suc, zero, ◌+◌, ◌<◌, ◌≡◌, ◌^◌, refl, ap, ap₂, subst, sym, ◌∙◌, true, false, List, [], ◌∷◌,
  ◌++◌, append-nil, length, get_or, set, ltb, add32, arith, length-set,
}
use litemq.Poller.Cleaner.{
  idle, checked, raised, lowering, lowered, DescriptorHandlerCleaner, zeros, goes, stands,
  swap_lists, release_at, release_step,
}

abbrev pub ones : ℕ → List ℕ
ones zero = []
ones (suc n) = 1 ∷ ones n

-- `k` steps of thread `id`, and of no other
abbrev pub alone : ℕ → ℕ → DescriptorHandlerCleaner → DescriptorHandlerCleaner
alone id zero c = c
alone id (suc k) c = alone id k (release_step id c)

module _ {ℓ} {A : Type ℓ} where
  set-get_or : (xs : List A) (i : ℕ) (d : A) → set xs i (get_or xs i d) ≡ xs
  set-get_or [] i d = refl
  set-get_or (x ∷ xs) zero d = refl
  set-get_or (x ∷ xs) (suc i) d = ap (◌∷◌ x) (set-get_or xs i d)

  set-set : (xs : List A) (i : ℕ) (v w : A) → set (set xs i v) i w ≡ set xs i w
  set-set [] i v w = refl
  set-set (x ∷ xs) zero v w = refl
  set-set (x ∷ xs) (suc i) v w = ap (◌∷◌ x) (set-set xs i v w)

  get_or-set : (xs : List A) (i : ℕ) (v d : A) → i < length xs → get_or (set xs i v) i d ≡ v
  get_or-set [] i v d k = absurd (omega arith)
  get_or-set (x ∷ xs) zero v d k = refl
  get_or-set (x ∷ xs) (suc i) v d k = get_or-set xs i v d (omega arith)

set-zeros :
    (n x y : ℕ) (ys : List ℕ)
    → (set (zeros n ++ (x ∷ ys)) n y ≡ zeros n ++ (y ∷ ys)) × (get_or (zeros n ++ (x ∷ ys)) n 0 ≡ x)
unfolding zeros
set-zeros zero x y ys = (refl, refl)
set-zeros (suc n) x y ys = let rest = set-zeros n x y ys in (ap (◌∷◌ 0) rest.0, rest.1)

zeros-last : (n : ℕ) (ys : List ℕ) → zeros n ++ (0 ∷ ys) ≡ zeros (suc n) ++ ys
unfolding zeros
zeros-last zero ys = refl
zeros-last (suc n) ys = ap (◌∷◌ 0) (zeros-last n ys)

length-zeros : (n : ℕ) (ys : List ℕ) → length (zeros n ++ ys) ≡ n + length ys
unfolding zeros
length-zeros zero ys = omega arith
length-zeros (suc n) ys = omega (arith, length-zeros n ys)

-- Thread `id` is in the loop, has lowered `it` flags, and has `m` before it.
record IsLowering (id it m : ℕ) (start c : DescriptorHandlerCleaner) : Type 0 where
  place : stands id c ≡ lowering it
  flags : c.release_array ≡ zeros it ++ ones m
  counted : c.unreleased_count ≡ it
  in_range : id < length c.releases
  let_go : c.cleared ≡ start.cleared
  kept : c.free ≡ start.free
  waiting : c.free_candidates ≡ start.free_candidates

release_step-lowering :
    (id it m : ℕ) (start c : DescriptorHandlerCleaner)
    → IsLowering id it (suc m) start c
    → release_step id c ≡ goes id (lowered it) it 0 c.unreleased_count c
unfolding release_step release_at
release_step-lowering id it m start c l =
    let flag : get_or c.release_array it 0 ≡ 1 =
      ap (λ xs. get_or xs it 0) l.flags ∙ (set-zeros it 1 0 (ones m)).1 in
    let long : length c.release_array ≡ it + suc (length (ones m)) =
      ap (λ (xs : List ℕ). length xs) l.flags ∙ length-zeros it (1 ∷ ones m) in
    let inside : ltb it (length c.release_array) ≡ true = ground arith in
    rw (l.place, inside, flag) refl

release_step-lowered :
    (id it : ℕ) (c : DescriptorHandlerCleaner)
    → stands id c ≡ lowered it
    → release_step id c
      ≡ goes id (lowering (suc it)) it (get_or c.release_array it 0) (add32 c.unreleased_count 1) c
unfolding release_step release_at
release_step-lowered id it c e = rw e refl

IsLowering-next :
    (id it m : ℕ) (start c : DescriptorHandlerCleaner)
    → it < 2 ^ 31
    → IsLowering id it (suc m) start c
    → IsLowering id (suc it) m start (release_step id (release_step id c))
IsLowering-next id it m start c k l =
    let c1 = goes id (lowered it) it 0 c.unreleased_count c in
    let first = release_step-lowering id it m start c l in
    let place = get_or-set c.releases id (lowered it) idle l.in_range in
    let second = release_step-lowered id it c1 place in
    let again : id < length (set c.releases id (lowered it)) =
      omega (arith, l.in_range, length-set c.releases id (lowered it)) in
    subst (IsLowering id (suc it) m start) (sym (ap (release_step id) first ∙ second)) (record {
      place = get_or-set c1.releases id (lowering (suc it)) idle again;
      flags =
          set-get_or c1.release_array it 0
          ∙ ap (λ xs. set xs it 0) l.flags
          ∙ (set-zeros it 1 0 (ones m)).0
          ∙ zeros-last it (ones m);
      counted = omega (arith, l.counted, k);
      in_range = omega (arith, again, length-set c1.releases id (lowering (suc it)));
      let_go = l.let_go;
      kept = l.kept;
      waiting = l.waiting;
    })

abbrev pub double : ℕ → ℕ
double zero = zero
double (suc m) = suc (suc (double m))

IsLowering-loop :
    (id m it : ℕ) (start c : DescriptorHandlerCleaner)
    → it + m < 2 ^ 31
    → IsLowering id it m start c
    → IsLowering id (it + m) 0 start (alone id (double m) c)
IsLowering-loop id zero it start c k l =
    let same : it ≡ it + 0 = omega arith in subst (λ n. IsLowering id n 0 start c) same l
IsLowering-loop id (suc m) it start c k l =
    let next : suc it + m ≡ it + suc m = omega arith in
    subst (λ n. IsLowering id n 0 start (alone id (double (suc m)) c)) next
      (IsLowering-loop id m (suc it) start (release_step id (release_step id c)) (omega arith)
        (IsLowering-next id it m start c (omega arith) l))

release_step-alone :
    (id k : ℕ) (c : DescriptorHandlerCleaner) → release_step id (alone id k c) ≡ alone id (suc k) c
release_step-alone id zero c = refl
release_step-alone id (suc k) c = release_step-alone id k (release_step id c)

-- behind the loop
release_step-swap_lists :
    (id n : ℕ) (start c : DescriptorHandlerCleaner)
    → IsLowering id n 0 start c
    → release_step id c ≡ swap_lists id c
unfolding release_step release_at
release_step-swap_lists id n start c l =
    let long : length c.release_array ≡ n + 0 =
      ap (λ (xs : List ℕ). length xs) l.flags ∙ length-zeros n [] in
    let past : ltb n (length c.release_array) ≡ false = ground arith in rw (l.place, past) refl

-- Thread `id` is the last of `n` that has not released, and no thread is in `release`.
pub record IsLast (id n : ℕ) (c : DescriptorHandlerCleaner) : Type 0 where
  pub outside : stands id c ≡ idle
  pub unset : get_or c.release_array id 0 ≡ 0
  pub others : set c.release_array id 1 ≡ ones n
  pub counted : c.unreleased_count ≡ 1
  pub in_range : id < length c.releases

get_or-set_zero : (xs : List ℕ) (i : ℕ) → get_or (set xs i 0) i 0 ≡ 0
get_or-set_zero [] i = refl
get_or-set_zero (x ∷ xs) zero = refl
get_or-set_zero (x ∷ xs) (suc i) = get_or-set_zero xs i

module _ (id : ℕ) (c : DescriptorHandlerCleaner) where
  release_step-idle :
      stands id c ≡ idle
      → get_or c.release_array id 0 ≡ 0
      → release_step id c ≡ goes id checked id 0 c.unreleased_count c
  unfolding release_step release_at
  release_step-idle e z = rw (e, z) refl

  release_step-checked :
      stands id c ≡ checked
      → get_or c.release_array id 0 ≡ 0
      → release_step id c ≡ goes id raised id 1 c.unreleased_count c
  unfolding release_step release_at
  release_step-checked e z = rw (e, z) refl

  release_step-raised :
      stands id c ≡ raised
      → c.unreleased_count ≡ 1
      → release_step id c ≡ goes id (lowering 0) id (get_or c.release_array id 0) 0 c
  unfolding release_step release_at
  release_step-raised e o = rw (e, o) refl

-- the test, the flag, and the count
raised-IsLowering :
    (id n : ℕ) (c : DescriptorHandlerCleaner)
    → IsLast id n c
    → IsLowering id 0 n c (release_step id (release_step id (release_step id c)))
unfolding zeros
raised-IsLowering id n c l =
    let c1 = goes id checked id 0 c.unreleased_count c in
    let c2 = goes id raised id 1 c.unreleased_count c1 in
    let c3 = goes id (lowering 0) id (get_or c2.release_array id 0) 0 c2 in
    let k1 : id < length c1.releases =
      omega (arith, l.in_range, length-set c.releases id checked) in
    let k2 : id < length c2.releases = omega (arith, k1, length-set c1.releases id raised) in
    let e1 = release_step-idle id c l.outside l.unset in
    let e2 =
      release_step-checked id c1 (get_or-set c.releases id checked idle l.in_range)
        (get_or-set_zero c.release_array id) in
    let e3 = release_step-raised id c2 (get_or-set c1.releases id raised idle k1) l.counted in
    let steps = ap (λ d. release_step id (release_step id d)) e1 ∙ ap (release_step id) e2 ∙ e3 in
    subst (IsLowering id 0 n c) (sym steps) (record {
      place = get_or-set c2.releases id (lowering 0) idle k2;
      flags = set-get_or c2.release_array id 0 ∙ set-set c.release_array id 0 1 ∙ l.others;
      counted = refl;
      in_range = omega (arith, k2, length-set c2.releases id (lowering 0));
      let_go = refl;
      kept = refl;
      waiting = refl;
    })

-- When all of the `n` threads but one have released and that one releases, with no other call of
-- `release` under way until it returns: the call ends, what was free is let go, the candidates become
-- free, and the next round begins with no thread released.
pub alone-ends :
    (id n : ℕ) (c : DescriptorHandlerCleaner)
    → n < 2 ^ 31
    → IsLast id n c
    → (k : ℕ) × (stands id (alone id k c) ≡ idle)
      × ((alone id k c).cleared ≡ c.cleared ++ c.free)
      × ((alone id k c).free ≡ c.free_candidates)
      × ((alone id k c).free_candidates ≡ [])
      × ((alone id k c).release_array ≡ zeros n)
      × ((alone id k c).unreleased_count ≡ n)
unfolding swap_lists
alone-ends id n c small last =
    let c3 = release_step id (release_step id (release_step id c)) in
    let l = IsLowering-loop id n 0 c c3 (omega arith) (raised-IsLowering id n c last) in
    let d = alone id (double n) c3 in
    let all : 0 + n ≡ n = omega arith in
    let ended =
      sym (release_step-alone id (double n) c3) ∙ release_step-swap_lists id (0 + n) c d l in
    (
      suc (suc (suc (suc (double n)))),
      ap (stands id) ended ∙ get_or-set d.releases id idle idle l.in_range,
      ap (λ (x : DescriptorHandlerCleaner). x.cleared) ended ∙ ap₂ ◌++◌ l.let_go l.kept,
      ap (λ (x : DescriptorHandlerCleaner). x.free) ended ∙ l.waiting,
      ap (λ (x : DescriptorHandlerCleaner). x.free_candidates) ended,
      ap (λ (x : DescriptorHandlerCleaner). x.release_array) ended
          ∙ l.flags
          ∙ append-nil (zeros (0 + n))
          ∙ ap zeros all,
      ap (λ (x : DescriptorHandlerCleaner). x.unreleased_count) ended ∙ l.counted ∙ all,
    )
