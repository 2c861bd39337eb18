-- ===== src/SubString/View.antt =====
-- A substring as the list of its characters, and the operations that narrow it.
use litemq.Prelude.{
  ℕ, zero, suc, ◌+◌, ◌-◌, ◌^◌, ◌<◌, ◌≤◌, min, ◌≡◌, ◌⊎◌, refl, sym, ap, ap₂, ◌∙◌, inl, inr, Bool,
  true, false, if◌then◌else◌, leb, Option, none, some, List, [], ◌∷◌, length, length-take,
  length-drop, take, drop, drop-drop, take_all, drop_all, sub64, arith, Bool-cases,
}
use litemq.SubString.{
  BasicSubString, check_position, begin_plus_position, get_available_length, at_position, substr,
  erase_front, erase_back,
}

-- A substring lies within its array; one without an array is empty.
pub record IsValid (s : BasicSubString) : Type 0 where
  pub inside : s.begin + s.len ≤ length s.memory
  pub fits : length s.memory < 2 ^ 64
  pub null : (s.is_null ≡ false) ⊎ (s.len ≡ 0)

abbrev pub view : BasicSubString → List ℕ
view s = take s.len (drop s.begin s.memory)

pub length-view : (s : BasicSubString) → IsValid s → length (view s) ≡ s.len
length-view s v = omega (
  arith,
  length-take {0} s.len (drop s.begin s.memory),
  length-drop {0} s.begin s.memory,
  v.inside,
)

-- What a client does to a substring, and the same on a list.
pub data Edit : Type 0 where
  front : ℕ → Edit
  back : ℕ → Edit
  part : (position count : ℕ) → Edit

abbrev pub edit : Edit → BasicSubString → Option BasicSubString
edit (front n) s = some (erase_front n s)
edit (back n) s = some (erase_back n s)
edit (part position count) s = substr position count s

abbrev pub edit_list : Edit → List ℕ → Option (List ℕ)
edit_list (front n) xs = some (drop n xs)
edit_list (back n) xs = some (take (length xs - n) xs)
edit_list (part position count) xs =
    if leb position (length xs) then some (take count (drop position xs)) else none

take_less : (m n : ℕ) (xs : List ℕ) → m ≤ n → take m (take n xs) ≡ take m xs
take_less zero n xs h = refl
take_less (suc m) zero xs h = absurd (omega (arith, h))
take_less (suc m) (suc n) [] h = refl
take_less (suc m) (suc n) (x ∷ xs) h = ap (◌∷◌ x) (take_less m n xs (omega (arith, h)))

pub drop-take : (m n k : ℕ) (xs : List ℕ) → m + k ≡ n → drop m (take n xs) ≡ take k (drop m xs)
drop-take zero n k xs h = ap (λ i. take i xs) (omega (arith, h))
drop-take (suc m) zero k xs h = absurd (omega (arith, h))
drop-take (suc m) (suc n) k [] h = sym (take_all k [] (omega arith))
drop-take (suc m) (suc n) k (x ∷ xs) h = drop-take m n k xs (omega (arith, h))

-- the part from a position on, where it is inside
abbrev within : ℕ → ℕ → BasicSubString → BasicSubString
within position count s = record s { begin = s.begin + position; len = count }

within-IsValid :
    (position count : ℕ) (s : BasicSubString)
    → IsValid s
    → position + count ≤ s.len
    → IsValid (within position count s)
within-IsValid position count s v h = record {
  inside = omega (arith, v.inside, h);
  fits = v.fits;
  null = elim v.null [ inl e ↦ inl e | inr e ↦ inr (omega (arith, e, h)) ];
}

view-within :
    (position count : ℕ) (s : BasicSubString)
    → position + count ≤ s.len
    → view (within position count s) ≡ take count (drop position (view s))
view-within position count s h =
    let rest : ℕ = s.len - position in
    sym (
      ap (take count) (drop-take position s.len rest (drop s.begin s.memory) (omega (arith, h)))
      ∙ take_less count rest (drop position (drop s.begin s.memory)) (omega (arith, h))
      ∙ ap (take count) (drop-drop position s.begin s.memory))

-- What a call gives and what the list gives belong together: neither, or the same characters.
abbrev pub view_of : Option BasicSubString → Option (List ℕ)
view_of none = none
view_of (some s) = some (view s)

abbrev pub AllValid : Option BasicSubString → Type 0
AllValid none = Unit {0}
AllValid (some s) = IsValid s

-- An empty substring without an array stays as it is.
same_within :
    (s : BasicSubString) (begin count : ℕ)
    → s.begin ≡ begin
    → s.len ≡ count
    → s ≡ record s { begin = begin; len = count }
same_within s begin count e f = ap₂ (λ b l. record s { begin = b; len = l }) e f

null-len : (s : BasicSubString) → IsValid s → s.is_null ≡ true → s.len ≡ 0
null-len s v e = elim v.null [
  | inl f ↦ let bad : true ≡ false = sym e ∙ f in absurd (ground (arith, bad))
  | inr f ↦ f
]

unless : (b : Bool) (x y : BasicSubString) → (b ≡ true → x ≡ y) → (if b then x else y) ≡ y
unless true x y h = h refl
unless false x y h = refl

erase_front-within :
    (n : ℕ) (s : BasicSubString)
    → IsValid s
    → erase_front n s ≡ within (min n s.len) (s.len - min n s.len) s
unfolding erase_front
erase_front-within n s v = unless s.is_null s (within (min n s.len) (s.len - min n s.len) s) (λ e.
    same_within s (s.begin + min n s.len) (s.len - min n s.len) (omega (arith, null-len s v e))
      (omega (arith, null-len s v e)))

erase_back-within :
    (n : ℕ) (s : BasicSubString) → IsValid s → erase_back n s ≡ within 0 (s.len - min n s.len) s
unfolding erase_back
erase_back-within n s v =
    unless s.is_null s (record s { len = s.len - min n s.len })
      (λ e. same_within s s.begin (s.len - min n s.len) refl (omega (arith, null-len s v e)))
    ∙ same_within (record s { len = s.len - min n s.len }) (s.begin + 0) (s.len - min n s.len)
        (omega arith) refl

take-drop-min :
    (n len : ℕ) (xs : List ℕ)
    → length xs ≡ len
    → take (len - min n len) (drop (min n len) xs) ≡ drop n xs
take-drop-min n len xs h = elim (Bool-cases (leb n len)) [
  | inl e ↦
      let same : min n len ≡ n = ground (arith, e) in
      rw same (take_all (len - n) (drop n xs) (omega (arith, length-drop {0} n xs, h)))
  | inr e ↦
      let same : min n len ≡ len = ground (arith, e) in
      let none_left : len - len ≡ 0 = omega arith in
      rw (same, none_left) (sym (drop_all n xs (ground (arith, e, h))))
]

take-min : (count k : ℕ) (xs : List ℕ) → length xs ≡ k → take (min count k) xs ≡ take count xs
take-min count k xs h = elim (Bool-cases (leb count k)) [
  | inl e ↦ let same : min count k ≡ count = ground (arith, e) in rw same
  | inr e ↦
      let same : min count k ≡ k = ground (arith, e) in
      rw same (take_all k xs (omega (arith, h)) ∙ sym (take_all count xs (ground (arith, e, h))))
]

erase_front-view :
    (n : ℕ) (s : BasicSubString)
    → IsValid s
    → IsValid (erase_front n s) × (view (erase_front n s) ≡ drop n (view s))
erase_front-view n s v = rw (erase_front-within n s v) (
  within-IsValid (min n s.len) (s.len - min n s.len) s v (omega arith),
  view-within (min n s.len) (s.len - min n s.len) s (omega arith)
      ∙ take-drop-min n s.len (view s) (length-view s v),
)

erase_back-view :
    (n : ℕ) (s : BasicSubString)
    → IsValid s
    → IsValid (erase_back n s) × (view (erase_back n s) ≡ take (length (view s) - n) (view s))
erase_back-view n s v = rw (erase_back-within n s v) (
  within-IsValid 0 (s.len - min n s.len) s v (omega arith),
  view-within 0 (s.len - min n s.len) s (omega arith)
      ∙ ap (λ k. take k (view s)) (omega (arith, length-view s v)),
)

substr-view :
    (position count : ℕ) (s : BasicSubString)
    → IsValid s
    → AllValid (substr position count s)
      × (view_of (substr position count s) ≡ (
          if leb position (length (view s))
          then some (take count (drop position (view s)))
          else none))
unfolding substr begin_plus_position check_position get_available_length at_position
substr-view position count s v = elim (Bool-cases (leb position s.len)) [
  | inl e ↦
      let le : position ≤ s.len = ground (arith, e) in
      let available : sub64 s.len position ≡ s.len - position =
        omega (arith, v.inside, v.fits, le) in
      let fit : position + min count (s.len - position) ≤ s.len = omega (arith, le) in
      rw (e, available, length-view s v, e)
        (
          within-IsValid position (min count (s.len - position)) s v fit,
          ap some (
              view-within position (min count (s.len - position)) s fit
              ∙ take-min count (s.len - position) (drop position (view s))
                  (omega (arith, length-drop {0} position (view s), length-view s v))),
        )
  | inr e ↦ rw (e, length-view s v, e) (tt, refl)
]

edit-view :
    (e : Edit) (s : BasicSubString)
    → IsValid s
    → AllValid (edit e s) × (view_of (edit e s) ≡ edit_list e (view s))
edit-view (front n) s v = let (k, h) = erase_front-view n s v in (k, ap some h)
edit-view (back n) s v = let (k, h) = erase_back-view n s v in (k, ap some h)
edit-view (part position count) s v = substr-view position count s v

-- a sequence of calls, up to the first that throws
abbrev pub run : List Edit → Option BasicSubString → Option BasicSubString
run edits none = none
run [] (some s) = some s
run (e ∷ edits) (some s) = run edits (edit e s)

abbrev pub run_list : List Edit → Option (List ℕ) → Option (List ℕ)
run_list edits none = none
run_list [] (some xs) = some xs
run_list (e ∷ edits) (some xs) = run_list edits (edit_list e xs)

-- Substrings refine lists of characters: whatever a client does by `erase_front`, `erase_back` and
-- `substr` to a substring that lies within its array, in any order, gives the characters that the
-- same calls give on the list of its characters, or throws where these leave the list; and it stays
-- within its array.
pub run-view :
    (edits : List Edit) (s : Option BasicSubString)
    → AllValid s
    → AllValid (run edits s) × (view_of (run edits s) ≡ run_list edits (view_of s))
run-view edits none v = (tt, refl)
run-view [] (some s) v = (v, refl)
run-view (e ∷ edits) (some s) v =
    let (k, h) = edit-view e s v in
    let (l, i) = run-view edits (edit e s) k in (l, i ∙ ap (run_list edits) h)
