-- ===== src/Time/Parse/Writing.antt =====
-- `to_str_` in a format of numbers and characters.
use litemq.Prelude.{
  ℕ, suc, ◌+◌, ◌-◌, ◌≤◌, ◌<◌, ◌≡◌, ◌≢◌, inl, inr, refl, false, ltb, ◌==◌, Option, some, List, [],
  ◌∷◌, ◌++◌, length, length-append, All, Bool-cases, codes, arith,
}
use litemq.Time.Extended.{ExtendedTime, Mktime}
use litemq.Time.Format.{
  Specifier, specifier, ◌>>=◌, prepend, nonempty, add_str, add_char, padded, convert, to_str_loop,
  to_str_within, to_str,
}
use litemq.Time.Parse.Reading.{==_other}
use litemq.Time.Parse.Parts.{
  Field, Part, literal, percent, number, letter, width, shown, pattern, text, IsPart,
}

to_str_loop-character :
    (converted : ℕ → Specifier → Option (List ℕ)) (size room c : ℕ) (format : List ℕ)
    → c ≢ b'%'
    → to_str_loop converted size room (c ∷ format) ≡ (
        add_char size room c
        >>= (λ str. prepend str (to_str_loop converted (suc size) room format)))
unfolding to_str_loop add_char
to_str_loop-character converted size room c [] h = elim (Bool-cases (room == size)) [
  | inl e ↦ rw (==_other c b'%' h, e) refl
  | inr e ↦ rw (==_other c b'%' h, e) refl
]
to_str_loop-character converted size room c (d ∷ format) h = rw (==_other c b'%' h) refl

to_str_loop-specifier :
    (converted : ℕ → Specifier → Option (List ℕ)) (size room d : ℕ) (format : List ℕ)
    → to_str_loop converted size room (b'%' ∷ d ∷ format) ≡ (
        specifier d
        >>= converted size
        >>= (λ str. prepend str (to_str_loop converted (size + length str) room format)))
unfolding to_str_loop
to_str_loop-specifier converted size room d format = refl

to_str_loop-nil :
    (converted : ℕ → Specifier → Option (List ℕ)) (size room : ℕ)
    → to_str_loop converted size room [] ≡ some []
unfolding to_str_loop
to_str_loop-nil converted size room = refl

add_char-fits : (size room c : ℕ) → size < room → add_char size room c ≡ some (c ∷ [])
unfolding add_char
add_char-fits size room c h = let e : (room == size) ≡ false = ground arith in rw e refl

add_str-fits :
    (size room : ℕ) (src : List ℕ) → size + length src ≤ room → add_str size room src ≡ some src
unfolding add_str
add_str-fits size room src h =
    let e : ltb room (size + length src) ≡ false = ground arith in rw e refl

module _ (mktime : Mktime) (inner : ℕ → List ℕ → Option (List ℕ)) (et : ExtendedTime) where
  convert-number :
      (f : Field) (size room : ℕ)
      → (specifier (letter f) >>= convert mktime inner et size room)
        ≡ add_str size room (padded (width f) (shown f et))
  unfolding specifier convert
  convert-number Field.day size room = refl
  convert-number Field.hour size room = refl
  convert-number Field.month size room = refl
  convert-number Field.minute size room = refl
  convert-number Field.micros size room = refl
  convert-number Field.second size room = refl
  convert-number Field.year size room = refl

  convert-percent :
      (size room : ℕ)
      → (specifier b'%' >>= convert mktime inner et size room) ≡ add_char size room b'%'
  unfolding specifier convert
  convert-percent size room = refl

  to_str_loop-text :
      (parts : List Part) (size room : ℕ)
      → All IsPart parts
      → size + length (text parts et) ≤ room
      → to_str_loop (λ n. convert mktime inner et n room) size room (pattern parts)
        ≡ some (text parts et)
  unfolding text
  to_str_loop-text [] size room a h =
      to_str_loop-nil (λ n. convert mktime inner et n room) size room
  to_str_loop-text (literal c ∷ parts) size room (e, a) h =
      rw
        (
          to_str_loop-character (λ n. convert mktime inner et n room) size room c (pattern parts) e,
          add_char-fits size room c (omega (arith, h)),
          to_str_loop-text parts (suc size) room a (omega (arith, h)),
        )
        refl
  to_str_loop-text (percent ∷ parts) size room (_, a) h =
      rw
        (
          to_str_loop-specifier (λ n. convert mktime inner et n room) size room b'%'
              (pattern parts),
          convert-percent size room,
          add_char-fits size room b'%' (omega (arith, h)),
          to_str_loop-text parts (size + 1) room a (omega (arith, h)),
        )
        refl
  to_str_loop-text (number f ∷ parts) size room (_, a) h =
      let str = padded (width f) (shown f et) in
      let whole = length-append str (text parts et) in
      rw
        (
          to_str_loop-specifier (λ n. convert mktime inner et n room) size room (letter f)
              (pattern parts),
          convert-number f size room,
          add_str-fits size room str (omega (arith, h, whole)),
          to_str_loop-text parts (size + length str) room a (omega (arith, h, whole)),
        )
        refl

  convert-date :
      (size room : ℕ)
      → (specifier b'F' >>= convert mktime inner et size room)
        ≡ (inner (room - size) (codes "%Y-%m-%d") >>= nonempty)
  unfolding specifier convert
  convert-date size room = refl

  convert-time :
      (size room : ℕ)
      → (specifier b'T' >>= convert mktime inner et size room)
        ≡ (inner (room - size) (codes "%H:%M:%S") >>= nonempty)
  unfolding specifier convert
  convert-time size room = refl

  -- "%F %T", and "%F", where the inner calls succeed
  pub to_str_loop-date_and_time :
      (date time : List ℕ)
      → (inner 256 (codes "%Y-%m-%d") >>= nonempty) ≡ some date
      → length date ≡ 10
      → (inner 245 (codes "%H:%M:%S") >>= nonempty) ≡ some time
      → to_str_loop (λ n. convert mktime inner et n 256) 0 256 (codes "%F %T")
        ≡ some (date ++ (b' ' ∷ (time ++ [])))
  to_str_loop-date_and_time date time d n e =
      let conv = λ (n : ℕ). convert mktime inner et n 256 in
      let behind : 0 + length date ≡ 10 = omega (arith, n) in
      rw
        (
          to_str_loop-specifier conv 0 256 b'F' (codes " %T"),
          convert-date 0 256,
          d,
          behind,
          to_str_loop-character conv 10 256 b' ' (codes "%T") ground arith,
          add_char-fits 10 256 b' ' (omega arith),
          to_str_loop-specifier conv 11 256 b'T' [],
          convert-time 11 256,
          e,
          to_str_loop-nil conv (11 + length time) 256,
        )
        refl

  pub to_str_loop-date :
      (date : List ℕ)
      → (inner 256 (codes "%Y-%m-%d") >>= nonempty) ≡ some date
      → to_str_loop (λ n. convert mktime inner et n 256) 0 256 (codes "%F") ≡ some (date ++ [])
  to_str_loop-date date d =
      let conv = λ (n : ℕ). convert mktime inner et n 256 in
      rw
        (
          to_str_loop-specifier conv 0 256 b'F' [],
          convert-date 0 256,
          d,
          to_str_loop-nil conv (0 + length date) 256,
        )
        refl

pub to_str_within-text :
    (depth : ℕ) (mktime : Mktime) (et : ExtendedTime) (room : ℕ) (parts : List Part)
    → All IsPart parts
    → length (text parts et) ≤ room
    → to_str_within (suc depth) mktime et room (pattern parts) ≡ some (text parts et)
unfolding to_str_within
to_str_within-text depth mktime et room parts a h =
    to_str_loop-text mktime (to_str_within depth mktime et) et parts 0 room a (omega (arith, h))

pub to_str-text :
    (mktime : Mktime) (et : ExtendedTime) (room : ℕ) (parts : List Part)
    → All IsPart parts
    → length (text parts et) ≤ room
    → to_str mktime et room (pattern parts) ≡ some (text parts et)
unfolding to_str
to_str-text mktime et room parts a h = to_str_within-text 1 mktime et room parts a h
