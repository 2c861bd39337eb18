-- ===== src/Ascii/Ranges.antt =====
-- The constructor of `CharTable` from a string: single characters, and ranges such as "0-9".
use litemq.Prelude.{
  ℕ, zero, suc, ◌+◌, ◌-◌, ◌%◌, ◌<◌, ◌≡◌, ◌≢◌, inl, inr, refl, ap, subst, ◌∙◌, Bool, true, false,
  ◌&&◌, ◌||◌, if◌then◌else◌, leb, ◌==◌, some, List, [], ◌∷◌, All, Bool-cases, arith,
}
use litemq.Ascii.{CharTable, marked, mark_range, mark_string, char_table}

-- how many times a character is raised by one, with the wrap-around, to get from `a` to `x`
abbrev pub steps : ℕ → ℕ → ℕ
steps a x = (x + 256 - a) % 256

abbrev pub is_between : ℕ → ℕ → ℕ → Bool
is_between a b x = leb (steps a x) (steps a b)

next : ℕ → ℕ
next a = (a + 1) % 256

steps-next : (a x : ℕ) → a < 256 → x < 256 → a ≢ x → steps a x ≡ suc (steps (next a) x)
unfolding next
steps-next a x h k e = omega arith

is_between-same : (a x : ℕ) → a < 256 → x < 256 → is_between a a x ≡ (x == a)
is_between-same a x h k = ground arith

is_between-next :
    (a b x : ℕ)
    → a < 256
    → b < 256
    → x < 256
    → a ≢ b
    → a ≢ x
    → is_between (next a) b x ≡ is_between a b x
is_between-next a b x h k l e f =
    let forth = steps-next a x h l f in let back = steps-next a b h k e in ground arith

is_between_first : (a b : ℕ) → a < 256 → is_between a b a ≡ true
is_between_first a b h = ground arith

-- whether a table has the characters for which a test holds, and those that another table has
AddsTo : CharTable → (ℕ → Bool) → CharTable → Type 0
AddsTo table test made = (x : ℕ) → x < 256 → made x ≡ (test x || table x)

or_true : (b : Bool) → (b || true) ≡ true
or_true true = refl
or_true false = refl

or_assoc : (a b c : Bool) → (a || (b || c)) ≡ ((a || b) || c)
or_assoc true b c = refl
or_assoc false b c = refl

marked_or : (a : ℕ) (table : CharTable) (x : ℕ) → marked a table x ≡ ((x == a) || table x)
marked_or a table x = elim (Bool-cases (x == a)) [ inl e ↦ rw e refl | inr e ↦ rw e refl ]

mark_range-AddsTo :
    (rounds a b : ℕ) (table : CharTable)
    → a < 256
    → b < 256
    → steps a b < rounds
    → (made : CharTable) × (mark_range rounds a b table ≡ some made)
      × AddsTo table (is_between a b) made
unfolding mark_range AddsTo next
mark_range-AddsTo zero a b table h k l = absurd (omega (arith, l))
mark_range-AddsTo (suc rounds) a b table h k l = elim (Bool-cases (a == b)) [
  | inl e ↦
      let same : a ≡ b = ground arith in
      (
        marked a table,
        (rw e refl),
        λ x r.
            subst (λ c. marked a table x ≡ (is_between a c x || table x)) same
              (rw (is_between-same a x h r) (marked_or a table x)),
      )
  | inr e ↦
      let other : a ≢ b = ground arith in
      let (made, f, adds) =
        mark_range-AddsTo rounds (next a) b (marked a table) (omega arith) k
          (omega (arith, l, steps-next a b h k other)) in
      (made, (rw e f), λ x r. adds x r ∙ widened a b table x h k r other)
]
  where
    widened :
        (a b : ℕ) (table : CharTable) (x : ℕ)
        → a < 256
        → b < 256
        → x < 256
        → a ≢ b
        → (is_between (next a) b x || marked a table x) ≡ (is_between a b x || table x)
    widened a b table x h k r e = elim (Bool-cases (x == a)) [
      | inl f ↦
          let same : a ≡ x = ground arith in
          let first : is_between a b x ≡ true =
            subst (λ c. is_between a b c ≡ true) same (is_between_first a b h) in
          rw (f, first) (or_true (is_between (next a) b x))
      | inr f ↦ rw (f, is_between-next a b x h k r e (ground arith)) refl
    ]

-- A set of characters, as it is written: a character, or the first and the last one of a range.
pub data Item : Type 0 where
  one : ℕ → Item
  range : ℕ → ℕ → Item

abbrev pub written : List Item → List ℕ
written [] = []
written (one c ∷ items) = c ∷ written items
written (range a b ∷ items) = a ∷ b'-' ∷ b ∷ written items

abbrev item_has : Item → ℕ → Bool
item_has (one c) x = x == c
item_has (range a b) x = is_between a b x

abbrev pub has : List Item → ℕ → Bool
has [] x = false
has (item ∷ items) x = has items x || item_has item x

-- Neither a single character nor the first one of a range is a dash, and no character is null.
abbrev pub IsWritable : Item → Type 0
IsWritable (one c) = (c < 256) × (c ≢ b'-') × (c ≢ 0)
IsWritable (range a b) = (a < 256) × (a ≢ b'-') × (a ≢ 0) × (b < 256) × (b ≢ 0)

==_other : (a b : ℕ) → a ≢ b → (a == b) ≡ false
==_other a b h = ground arith

mark_string_one :
    (last c : ℕ) (str : List ℕ) (table : CharTable)
    → c ≢ b'-'
    → mark_string last (c ∷ str) table ≡ mark_string c str (marked c table)
unfolding mark_string
mark_string_one last c [] table h = refl
mark_string_one last c (d ∷ str) table h = let e = ==_other c b'-' h in rw e refl

mark_string_dash :
    (a b : ℕ) (str : List ℕ) (table made : CharTable)
    → a ≢ 0
    → mark_range 256 a b table ≡ some made
    → mark_string a (b'-' ∷ b ∷ str) table ≡ mark_string b str made
unfolding mark_string
mark_string_dash a b str table made h k = let e = ==_other a 0 h in rw (e, k) refl

mark_string-AddsTo :
    (last : ℕ) (items : List Item) (table : CharTable)
    → All IsWritable items
    → (made : CharTable) × (mark_string last (written items) table ≡ some made)
      × AddsTo table (has items) made
unfolding mark_string AddsTo
mark_string-AddsTo last [] table h = (table, refl, λ x k. refl)
mark_string-AddsTo last (one c ∷ items) table ((_, h, _), g) =
    let (made, e, adds) = mark_string-AddsTo c items (marked c table) g in
    (
      made,
      mark_string_one last c (written items) table h ∙ e,
      λ x k.
          adds x k
          ∙ ap (λ b. has items x || b) (marked_or c table x)
          ∙ or_assoc (has items x) (x == c) (table x),
    )
mark_string-AddsTo last (range a b ∷ items) table ((k, h, z, l, _), g) =
    let (ranged, r, inside) = mark_range-AddsTo 256 a b (marked a table) k l (omega arith) in
    let (made, e, adds) = mark_string-AddsTo b items ranged g in
    (
      made,
      mark_string_one last a (b'-' ∷ b ∷ written items) table h
          ∙ mark_string_dash a b (written items) (marked a table) ranged z r
          ∙ e,
      λ x m.
          adds x m
          ∙ ap (λ c. has items x || c) (inside x m ∙ range_first a b table x k)
          ∙ or_assoc (has items x) (is_between a b x) (table x),
    )
  where
    range_first :
        (a b : ℕ) (table : CharTable) (x : ℕ)
        → a < 256
        → (is_between a b x || marked a table x) ≡ (is_between a b x || table x)
    range_first a b table x h = elim (Bool-cases (x == a)) [
      | inl f ↦
          let same : a ≡ x = ground arith in
          let first : is_between a b x ≡ true =
            subst (λ c. is_between a b c ≡ true) same (is_between_first a b h) in
          rw first refl
      | inr f ↦ rw f refl
    ]

-- For a set that is written as single characters and ranges, if no single character and no first
-- one of a range is a dash and none is null, the constructor ends, and the table has exactly the
-- characters of the set, besides the null character where `check_zero` asks for it. A range goes
-- from its first character up to its last one, and from 255 on to 0 where the last one is smaller.
pub char_table-written :
    (items : List Item) (check_zero : Bool)
    → All IsWritable items
    → (made : CharTable) × (char_table (written items) check_zero ≡ some made)
      × ((x : ℕ) → x < 256 → made x ≡ (has items x || (x == 0 && check_zero)))
unfolding char_table AddsTo
char_table-written items check_zero h =
    let (made, e, adds) =
      mark_string-AddsTo 0 items (λ c. if c == 0 then check_zero else false) h in
    (made, e, λ x k. adds x k ∙ ap (λ b. has items x || b) (zero_and check_zero x))
  where
    zero_and :
        (check_zero : Bool) (x : ℕ)
        → (if x == 0 then check_zero else false) ≡ (x == 0 && check_zero)
    zero_and check_zero x = elim (Bool-cases (x == 0)) [ inl e ↦ rw e refl | inr e ↦ rw e refl ]
