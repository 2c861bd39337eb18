-- ===== src/Time/Format/Fits.antt =====
-- What is written to a buffer fits in it.
use litemq.Prelude.{
  ℕ, suc, ◌+◌, ◌≤◌, ◌≡◌, refl, ap, subst, inl, inr, Bool, true, false, Bool-cases, if◌then◌else◌,
  ltb, ◌==◌, Option, none, some, List, [], ◌∷◌, length, length-append, arith,
}
use mathlib.Core.Option.{some-injective}
use litemq.Prelude.Int.{ℤ}
use litemq.Strings.Numbers.{IntegerType, int_to_str}
use litemq.Time.Format.{
  Specifier, specifier, ◌>>=◌, add_str, add_char, add_num, prepend, nonempty, to_str_loop,
}

-- what was written
abbrev pub written : Option (List ℕ) → List ℕ
written none = []
written (some out) = out

-- What is written behind `size` characters stays within `room`, if there was anything left.
abbrev pub Fits : ℕ → ℕ → Option (List ℕ) → Type 0
Fits size room o = size ≤ room → size + length (written o) ≤ room

pub none-Fits : (size room : ℕ) → Fits size room none
none-Fits size room h = omega (arith, h)

pub add_str-Fits : (size room : ℕ) (src : List ℕ) → Fits size room (add_str size room src)
unfolding add_str
add_str-Fits size room src h = elim (Bool-cases (ltb room (size + length src))) [
  | inl e ↦ rw e (omega (arith, h))
  | inr e ↦ rw e (ground arith)
]

pub add_char-Fits : (size room c : ℕ) → Fits size room (add_char size room c)
unfolding add_char
add_char-Fits size room c h = elim (Bool-cases (room == size)) [
  | inl e ↦ rw e (omega (arith, h))
  | inr e ↦ rw e (ground arith)
]

pub bind-Fits :
    {A : Type 0} (size room : ℕ) (o : Option A) (f : A → Option (List ℕ))
    → ((a : A) → Fits size room (f a))
    → Fits size room (o >>= f)
bind-Fits size room none f h = none-Fits size room
bind-Fits size room (some a) f h = h a

pub nonempty-Fits :
    (size room : ℕ) (o : Option (List ℕ)) → Fits size room o → Fits size room (o >>= nonempty)
nonempty-Fits size room none h = h
nonempty-Fits size room (some []) h = h
nonempty-Fits size room (some (c ∷ out)) h = h

prepend-Fits :
    (size room : ℕ) (str : List ℕ) (rest : Option (List ℕ))
    → size + length str ≤ room
    → Fits (size + length str) room rest
    → size + length (written (prepend str rest)) ≤ room
prepend-Fits size room str none h k = omega (arith, h)
prepend-Fits size room str (some out) h k = omega (arith, k h, length-append str out)

then_prepend-Fits :
    (size room : ℕ) (o : Option (List ℕ)) (rest : List ℕ → Option (List ℕ))
    → Fits size room o
    → ((str : List ℕ) → o ≡ some str → Fits (size + length str) room (rest str))
    → Fits size room (o >>= (λ str. prepend str (rest str)))
then_prepend-Fits size room none rest h k = h
then_prepend-Fits size room (some str) rest h k =
    λ l. prepend-Fits size room str (rest str) (h l) (k str refl)

behind :
    (size room c : ℕ) (str : List ℕ)
    → add_char size room c ≡ some str
    → suc size ≡ size + length str
unfolding add_char
behind size room c str h = elim (Bool-cases (room == size)) [
  | inl e ↦ absurd (cc (subst (λ b. (if b then none else some (c ∷ [])) ≡ some str) e h))
  | inr e ↦
      let one =
        some-injective (c ∷ []) str
          (subst (λ b. (if b then none else some (c ∷ [])) ≡ some str) e h) in
      omega (arith, ap length one)
]

pub to_str_loop-Fits :
    (converted : ℕ → Specifier → Option (List ℕ)) (room : ℕ)
    → ((size : ℕ) (s : Specifier) → Fits size room (converted size s))
    → (format : List ℕ) (size : ℕ) → Fits size room (to_str_loop converted size room format)
unfolding to_str_loop
to_str_loop-Fits converted room h [] size = λ l. omega (arith, l)
to_str_loop-Fits converted room h (c ∷ []) size = elim (Bool-cases (c == b'%')) [
  | inl e ↦ rw e (none-Fits size room)
  | inr e ↦ rw e (add_char-Fits size room c)
]
to_str_loop-Fits converted room h (c ∷ d ∷ format) size = elim (Bool-cases (c == b'%')) [
  | inl e ↦ rw e (
      then_prepend-Fits size room (specifier d >>= converted size)
        (λ str. to_str_loop converted (size + length str) room format)
        (bind-Fits size room (specifier d) (converted size) (h size))
        (λ str _. to_str_loop-Fits converted room h format (size + length str)))
  | inr e ↦ rw e (
      then_prepend-Fits size room (add_char size room c)
        (λ str. to_str_loop converted (suc size) room (d ∷ format)) (add_char-Fits size room c)
        (λ str o.
          subst (λ n. Fits n room (to_str_loop converted (suc size) room (d ∷ format)))
            (behind size room c str o) (to_str_loop-Fits converted room h (d ∷ format) (suc size))))
]

pub add_num-Fits :
    (size room : ℕ) (t : IntegerType) (n : ℤ) → Fits size room (add_num size room t n)
unfolding add_num
add_num-Fits size room t n =
    bind-Fits size room (nonempty (int_to_str t n 64)) (add_str size room) (add_str-Fits size room)

pub if-Fits :
    (size room : ℕ) (b : Bool) (o other : Option (List ℕ))
    → Fits size room o
    → Fits size room other
    → Fits size room (if b then o else other)
if-Fits size room true o other h k = h
if-Fits size room false o other h k = k

add_str-some : (size room : ℕ) (src str : List ℕ) → add_str size room src ≡ some str → src ≡ str
unfolding add_str
add_str-some size room src str h = elim (Bool-cases (ltb room (size + length src))) [
  | inl e ↦ absurd (cc (subst (λ b. (if b then none else some src) ≡ some str) e h))
  | inr e ↦ some-injective src str (subst (λ b. (if b then none else some src) ≡ some str) e h)
]

pub sign_and_number-Fits :
    (size room sign : ℕ) (src : List ℕ)
    → Fits size room
        (add_str size room (sign ∷ []) >>= (λ str. prepend str (add_str (size + 1) room src)))
sign_and_number-Fits size room sign src =
    then_prepend-Fits size room (add_str size room (sign ∷ [])) (λ _. add_str (size + 1) room src)
      (add_str-Fits size room (sign ∷ []))
      (λ str o.
        let e : size + 1 ≡ size + length str =
          omega (arith, ap length (add_str-some size room (sign ∷ []) str o)) in
        subst (λ n. Fits n room (add_str (size + 1) room src)) e (add_str-Fits (size + 1) room src))
