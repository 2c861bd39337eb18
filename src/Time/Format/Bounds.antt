-- ===== src/Time/Format/Bounds.antt =====
-- `to_str_` ends and stays within the buffer.
use litemq.Prelude.{
  ℕ, zero, suc, ◌+◌, ◌-◌, ◌*◌, ◌/◌, ◌%◌, ◌≤◌, ◌≡◌, refl, ap, if◌then◌else◌, ◌==◌, Option, none,
  List, [], ◌∷◌, length, get_elem?, codes, arith,
}
use litemq.Prelude.Int.{pos, negsuc, pos_part, neg_part, eqb_ℤ, ltb_ℤ}
use litemq.Time.Extended.{
  ExtendedTime, Mktime, to_time, day_names, day_names_full, month_names, month_names_full,
}
use litemq.Time.Format.{
  int, time_t, Specifier, ◌>>=◌, add_str, padded, prepend, nonempty, convert, to_str_loop,
  to_str_within, to_str,
}
use litemq.Time.Format.Fits.{
  Fits, written, none-Fits, add_str-Fits, add_char-Fits, bind-Fits, nonempty-Fits, to_str_loop-Fits,
  add_num-Fits, if-Fits, sign_and_number-Fits,
}

module _ (mktime : Mktime) (inner : ℕ → List ℕ → Option (List ℕ)) (et : ExtendedTime) where
  inner-Fits :
      (size room : ℕ) (format : List ℕ)
      → Fits 0 (room - size) (inner (room - size) format)
      → Fits size room (inner (room - size) format)
  inner-Fits size room format h k = omega (arith, k, h (omega arith))

  convert-Fits :
      ((room : ℕ) (format : List ℕ) → Fits 0 room (inner room format))
      → (size room : ℕ) (s : Specifier) → Fits size room (convert mktime inner et size room s)
  unfolding convert
  convert-Fits h size room Specifier.percent = add_char-Fits size room b'%'
  convert-Fits h size room Specifier.day_name =
      bind-Fits size room (get_elem? day_names et.tm.tm_wday) (add_str size room)
        (add_str-Fits size room)
  convert-Fits h size room Specifier.full_day_name =
      bind-Fits size room (get_elem? day_names_full et.tm.tm_wday) (add_str size room)
        (add_str-Fits size room)
  convert-Fits h size room Specifier.month_name =
      bind-Fits size room (get_elem? month_names et.tm.tm_mon) (add_str size room)
        (add_str-Fits size room)
  convert-Fits h size room Specifier.full_month_name =
      bind-Fits size room (get_elem? month_names_full et.tm.tm_mon) (add_str size room)
        (add_str-Fits size room)
  convert-Fits h size room Specifier.date =
      nonempty-Fits size room (inner (room - size) (codes "%Y-%m-%d"))
        (inner-Fits size room (codes "%Y-%m-%d") (h (room - size) (codes "%Y-%m-%d")))
  convert-Fits h size room Specifier.time =
      nonempty-Fits size room (inner (room - size) (codes "%H:%M:%S"))
        (inner-Fits size room (codes "%H:%M:%S") (h (room - size) (codes "%H:%M:%S")))
  convert-Fits h size room Specifier.bare_hour = add_num-Fits size room int (pos et.tm.tm_hour)
  convert-Fits h size room Specifier.epoch =
      add_num-Fits size room time_t (to_time mktime et).tv_sec
  convert-Fits h size room Specifier.zone =
      let (result, diff) = mktime et.tm in
      let minutes = (pos_part diff + neg_part diff) / 60 in
      let sign = if ltb_ℤ diff (pos 0) then b'-' else b'+' in
      let src = padded 4 (minutes / 60 * 100 + minutes % 60) in
      let local =
        add_str size room (sign ∷ []) >>= (λ str. prepend str (add_str (size + 1) room src)) in
      if-Fits size room et.is_gmt (add_str size room (codes "+0000"))
        (if eqb_ℤ result (negsuc 0) then none else local) (add_str-Fits size room (codes "+0000"))
        (if-Fits size room (eqb_ℤ result (negsuc 0)) none local (none-Fits size room)
          (sign_and_number-Fits size room sign src))
  convert-Fits h size room Specifier.spaced_day =
      let t = et.tm.tm_mday / 10 in
      let first = if t == 0 then b' ' else (t + b'0') % 256 in
      add_str-Fits size room (first ∷ (et.tm.tm_mday % 10 + b'0') ∷ [])
  convert-Fits h size room Specifier.day = add_str-Fits size room (padded 2 et.tm.tm_mday)
  convert-Fits h size room Specifier.hour = add_str-Fits size room (padded 2 et.tm.tm_hour)
  convert-Fits h size room Specifier.month = add_str-Fits size room (padded 2 (et.tm.tm_mon + 1))
  convert-Fits h size room Specifier.minute = add_str-Fits size room (padded 2 et.tm.tm_min)
  convert-Fits h size room Specifier.micros = add_str-Fits size room (padded 6 et.tm_usec)
  convert-Fits h size room Specifier.second = add_str-Fits size room (padded 2 et.tm.tm_sec)
  convert-Fits h size room Specifier.year = add_str-Fits size room (padded 4 (et.tm.tm_year + 1900))

  convert-depth :
      (other : ℕ → List ℕ → Option (List ℕ))
      → ((room : ℕ) → inner room (codes "%Y-%m-%d") ≡ other room (codes "%Y-%m-%d"))
      → ((room : ℕ) → inner room (codes "%H:%M:%S") ≡ other room (codes "%H:%M:%S"))
      → (size room : ℕ) (s : Specifier)
      → convert mktime inner et size room s ≡ convert mktime other et size room s
  unfolding convert
  convert-depth other d t size room Specifier.date = ap (λ o. o >>= nonempty) (d (room - size))
  convert-depth other d t size room Specifier.time = ap (λ o. o >>= nonempty) (t (room - size))
  convert-depth other d t size room _ = refl

to_str_loop-same :
    (first second : ℕ → Specifier → Option (List ℕ)) (room : ℕ)
    → ((size : ℕ) (s : Specifier) → first size s ≡ second size s)
    → (size : ℕ) (format : List ℕ)
    → to_str_loop first size room format ≡ to_str_loop second size room format
to_str_loop-same first second room h size format =
    λ i. to_str_loop (λ n s. h n s i) size room format

to_str_within-Fits :
    (depth : ℕ) (mktime : Mktime) (et : ExtendedTime) (room : ℕ) (format : List ℕ)
    → Fits 0 room (to_str_within depth mktime et room format)
unfolding to_str_within
to_str_within-Fits zero mktime et room format = none-Fits 0 room
to_str_within-Fits (suc depth) mktime et room format =
    let inner = to_str_within depth mktime et in
    to_str_loop-Fits (λ size. convert mktime inner et size room) room
      (λ size. convert-Fits mktime inner et (to_str_within-Fits depth mktime et) size room) format 0

-- `to_str_`, where a call that is `depth` deep is made to `deepest` instead.
abbrev pub nested :
    (ℕ → List ℕ → Option (List ℕ)) → ℕ → Mktime → ExtendedTime → ℕ → List ℕ → Option (List ℕ)
nested deepest zero mktime et room format = deepest room format
nested deepest (suc depth) mktime et room format =
    to_str_loop (λ size. convert mktime (nested deepest depth mktime et) et size room) 0 room format

-- The calls that `to_str_` makes of itself end, for every format, time and size of the buffer: a
-- call inside a call is never made, since the result is the same whatever such a call would do.
-- And where it succeeds, what is written is no longer than the buffer.
pub to_str-nested :
    (deepest : ℕ → List ℕ → Option (List ℕ)) (mktime : Mktime) (et : ExtendedTime) (room : ℕ)
    (format : List ℕ)
    → (to_str mktime et room format ≡ nested deepest 2 mktime et room format)
      × (length (written (to_str mktime et room format)) ≤ room)
unfolding to_str to_str_within
to_str-nested deepest mktime et room format = (
  to_str_loop-same (λ n. convert mktime (to_str_within 1 mktime et) et n room)
      (λ n. convert mktime (nested deepest 1 mktime et) et n room) room
      (λ n.
        convert-depth mktime (to_str_within 1 mktime et) et (nested deepest 1 mktime et) (λ m. refl)
          (λ m. refl) n room)
      0 format,
  omega (arith, to_str_within-Fits 2 mktime et room format),
)
