-- ===== src/SubString/Searching.antt =====
-- What `find` of a substring finds.
use litemq.Prelude.{
  ℕ, zero, suc, ◌+◌, ◌-◌, ◌≤◌, ◌<◌, min, ◌≡◌, ◌⊎◌, refl, sym, ap, ap₂, ◌∙◌, inl, inr, Bool, true,
  false, if◌then◌else◌, leb, ltb, ◌==◌, Option, none, some, List, [], ◌∷◌, length, length-take,
  length-drop, take, drop, drop-drop, drop-nil, sub64, arith, Bool-cases,
}
use litemq.SubString.{
  BasicSubString, npos, chars_from, compare_chars, is_zero, get_available_length, or_npos, search,
  find,
}
use litemq.SubString.Comparing.{chars_from_begin}
use litemq.SubString.View.{IsValid, view, length-view, drop-take}

-- whether a list begins with another one, and whether it has it at a position
abbrev pub starts : List ℕ → List ℕ → Bool
starts xs [] = true
starts [] (y ∷ ys) = false
starts (x ∷ xs) (y ∷ ys) = if x == y then starts xs ys else false

abbrev pub occurs : List ℕ → List ℕ → ℕ → Bool
occurs xs ys i = starts (drop i xs) ys

starts-short : (xs ys : List ℕ) → length xs < length ys → starts xs ys ≡ false
starts-short xs [] h = absurd (omega (arith, h))
starts-short [] (y ∷ ys) h = refl
starts-short (x ∷ xs) (y ∷ ys) h = elim (Bool-cases (x == y)) [
  | inl e ↦ rw e (starts-short xs ys (omega (arith, h)))
  | inr e ↦ rw e
]

starts-take : (n : ℕ) (xs ys : List ℕ) → length ys ≤ n → starts (take n xs) ys ≡ starts xs ys
starts-take zero xs [] h = refl
starts-take zero xs (y ∷ ys) h = absurd (omega (arith, h))
starts-take (suc n) [] ys h = refl
starts-take (suc n) (x ∷ xs) [] h = refl
starts-take (suc n) (x ∷ xs) (y ∷ ys) h = elim (Bool-cases (x == y)) [
  | inl e ↦ rw e (starts-take n xs ys (omega (arith, h)))
  | inr e ↦ rw e
]

compare_chars-starts :
    (m : ℕ) (xs ys : List ℕ)
    → m ≤ length xs
    → m ≤ length ys
    → is_zero (compare_chars m xs ys) ≡ starts xs (take m ys)
unfolding compare_chars
compare_chars-starts zero xs ys h k = refl
compare_chars-starts (suc m) [] ys h k = absurd (omega (arith, h))
compare_chars-starts (suc m) (x ∷ xs) [] h k = absurd (omega (arith, k))
compare_chars-starts (suc m) (x ∷ xs) (y ∷ ys) h k = elim (Bool-cases (x == y)) [
  | inl e ↦ rw e (compare_chars-starts m xs ys (omega (arith, h)) (omega (arith, k)))
  | inr e ↦ elim (Bool-cases (ltb x y)) [ inl f ↦ rw (e, f) | inr f ↦ rw (e, f) ]
]

-- the first position at which a list has another one
abbrev shifted : Option ℕ → Option ℕ
shifted none = none
shifted (some i) = some (suc i)

abbrev first : List ℕ → List ℕ → Option ℕ
first [] ys = none
first (x ∷ xs) ys = if starts (x ∷ xs) ys then some 0 else shifted (first xs ys)

first-short : (xs ys : List ℕ) → length xs < length ys → first xs ys ≡ none
first-short [] ys h = refl
first-short (x ∷ xs) ys h = rw (starts-short (x ∷ xs) ys h, first-short xs ys (omega (arith, h)))

search-first :
    (n m : ℕ) (xs ys : List ℕ)
    → n ≤ length xs
    → m ≤ length ys
    → search n xs m ys ≡ first (take n xs) (take m ys)
unfolding search
search-first zero m xs ys h k = refl
search-first (suc n) m [] ys h k = absurd (omega (arith, h))
search-first (suc n) m (x ∷ xs) ys h k = elim (Bool-cases (leb m (suc n))) [
  | inl e ↦
      let le : m ≤ suc n = ground (arith, e) in
      let here : is_zero (compare_chars m (x ∷ xs) ys)
          ≡ starts (take (suc n) (x ∷ xs)) (take m ys) =
        compare_chars-starts m (x ∷ xs) ys (omega (arith, le, h)) k
        ∙ sym
            (starts-take (suc n) (x ∷ xs) (take m ys) (omega (arith, length-take {0} m ys, le))) in
      rw (e, here, search-first n m xs ys (omega (arith, h)) k)
  | inr e ↦
      let over : suc n < m = ground (arith, e) in
      rw e (
        sym (
          first-short (take (suc n) (x ∷ xs)) (take m ys)
            (omega (arith, length-take {0} m ys, length-take {0} (suc n) (x ∷ xs), over, k))))
]

-- At the result the list is there, and at no position before it.
abbrev IsFirst : List ℕ → List ℕ → ℕ → Option ℕ → Type 0
IsFirst xs ys j none = occurs xs ys j ≡ false
IsFirst xs ys j (some i) =
    (occurs xs ys i ≡ true) × ((i ≤ j) ⊎ (occurs xs ys j ≡ false)) × (i < length xs)

shifted-IsFirst :
    (x : ℕ) (xs ys : List ℕ) (j : ℕ) (o : Option ℕ)
    → starts (x ∷ xs) ys ≡ false
    → IsFirst xs ys j o
    → IsFirst (x ∷ xs) ys (suc j) (shifted o)
shifted-IsFirst x xs ys j none e h = h
shifted-IsFirst x xs ys j (some i) e (h, inl k, l) = (h, inl (omega (arith, k)), omega (arith, l))
shifted-IsFirst x xs ys j (some i) e (h, inr k, l) = (h, inr k, omega (arith, l))

shifted-IsFirst_zero :
    (x : ℕ) (xs ys : List ℕ) (o : Option ℕ)
    → starts (x ∷ xs) ys ≡ false
    → IsFirst xs ys 0 o
    → IsFirst (x ∷ xs) ys 0 (shifted o)
shifted-IsFirst_zero x xs ys none e h = e
shifted-IsFirst_zero x xs ys (some i) e (h, k, l) = (h, inr e, omega (arith, l))

first-IsFirst : (xs ys : List ℕ) (j : ℕ) → 0 < length ys → IsFirst xs ys j (first xs ys)
first-IsFirst [] [] j h = absurd (omega (arith, h))
first-IsFirst [] (y ∷ ys) j h = ap (λ xs. starts xs (y ∷ ys)) (drop-nil j)
first-IsFirst (x ∷ xs) ys zero h = elim (Bool-cases (starts (x ∷ xs) ys)) [
  | inl e ↦ rw e (e, inl (omega arith), omega arith)
  | inr e ↦ rw e (shifted-IsFirst_zero x xs ys (first xs ys) e (first-IsFirst xs ys 0 h))
]
first-IsFirst (x ∷ xs) ys (suc j) h = elim (Bool-cases (starts (x ∷ xs) ys)) [
  | inl e ↦ rw e (e, inl (omega arith), omega arith)
  | inr e ↦ rw e (shifted-IsFirst x xs ys j (first xs ys) e (first-IsFirst xs ys j h))
]

-- what `find` gives for the first position behind `position`
find-first :
    (str : BasicSubString) (position : ℕ) (s : BasicSubString)
    → IsValid s
    → IsValid str
    → 0 < str.len
    → position ≤ s.len
    → find str position s ≡ some (or_npos position (first (drop position (view s)) (view str)))
unfolding find get_available_length
find-first str position s v w some_chars le =
    let available : min s.len (sub64 s.len position) ≡ s.len - position =
      omega (arith, v.inside, v.fits, le) in
    let nonempty : (str.len == 0) ≡ false = ground (arith, some_chars) in
    let not_behind : ltb s.len position ≡ false = ground (arith, le) in
    let rest : take (s.len - position) (chars_from s position) ≡ drop position (view s) =
      ap (take (s.len - position)) (sym (drop-drop position s.begin s.memory))
      ∙ sym (
          drop-take position s.len (s.len - position) (drop s.begin s.memory)
            (omega (arith, le))) in
    let whole : take str.len (chars_from str 0) ≡ view str =
      ap (take str.len) (chars_from_begin str) in
    let searched : search (s.len - position) (chars_from s position) str.len (chars_from str 0)
        ≡ first (drop position (view s)) (view str) =
      search-first (s.len - position) str.len (chars_from s position) (chars_from str 0)
        (omega (arith, v.inside, length-drop {0} (s.begin + position) s.memory))
        (omega (arith, w.inside, length-drop {0} (str.begin + 0) str.memory))
      ∙ ap₂ first rest whole in
    elim (Bool-cases (ltb (s.len - position) str.len)) [
      | inl e ↦
          let none_there : first (drop position (view s)) (view str) ≡ none =
            first-short (drop position (view s)) (view str) (
              ground (
                arith,
                e,
                length-drop {0} position (view s),
                length-view s v,
                length-view str w,
              )) in
          rw (available, nonempty, e, none_there)
      | inr e ↦ rw (available, nonempty, e, not_behind, searched)
    ]

-- `find` of a substring that is not empty, from a position inside: it gives `npos` where the
-- characters occur from there on nowhere, and otherwise a position from there on at which they
-- occur, and from there on at no position before it.
pub find_lem :
    (str : BasicSubString) (position : ℕ) (s : BasicSubString) (j : ℕ)
    → IsValid s
    → IsValid str
    → 0 < str.len
    → position ≤ s.len
    → position ≤ j
    → (r : ℕ) × (find str position s ≡ some r)
      × (((r ≡ npos) × (occurs (view s) (view str) j ≡ false))
          ⊎ ((position ≤ r)
              × (r < s.len)
              × (occurs (view s) (view str) r ≡ true)
              × ((r ≤ j) ⊎ (occurs (view s) (view str) j ≡ false))))
find_lem str position s j v w some_chars le after = (
  or_npos position o,
  find-first str position s v w some_chars le,
  outcome o (
      first-IsFirst (drop position (view s)) (view str) (j - position)
        (omega (arith, some_chars, length-view str w))),
)
  where
    o : Option ℕ
    o = first (drop position (view s)) (view str)

    at_offset :
        (k : ℕ)
        → occurs (drop position (view s)) (view str) k ≡ occurs (view s) (view str) (position + k)
    at_offset k = ap (λ xs. starts xs (view str)) (drop-drop k position (view s))

    at_j : occurs (drop position (view s)) (view str) (j - position) ≡ occurs (view s) (view str) j
    at_j = at_offset (j - position) ∙ ap (occurs (view s) (view str)) (omega (arith, after))

    outcome :
        (o : Option ℕ)
        → IsFirst (drop position (view s)) (view str) (j - position) o
        → ((or_npos position o ≡ npos) × (occurs (view s) (view str) j ≡ false))
          ⊎ ((position ≤ or_npos position o)
              × (or_npos position o < s.len)
              × (occurs (view s) (view str) (or_npos position o) ≡ true)
              × ((or_npos position o ≤ j) ⊎ (occurs (view s) (view str) j ≡ false)))
    outcome none h = inl (refl, sym at_j ∙ h)
    outcome (some i) (h, k, l) = inr (
      omega arith,
      omega (arith, l, length-drop {0} position (view s), length-view s v),
      sym (at_offset i) ∙ h,
      elim k [ inl a ↦ inl (omega (arith, a, after)) | inr b ↦ inr (sym at_j ∙ b) ],
    )
