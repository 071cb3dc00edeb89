-- ===== src/Diagnostics/Lines.antt =====
-- What `diag_append` of components/fido2/fido2.c leaves of the log.
use bluepass.Common.{
  ℕ, zero, suc, ◌+◌, ◌-◌, ◌<◌, ◌≡◌, refl, sym, ◌∙◌, true, false, ◌||◌, Option, none, some, List, [],
  ◌∷◌, ◌++◌, ltb, leb, ◌==◌, length, take, drop, length-append, take-append, drop-append, arith,
  Bool-cases, inl, inr,
}
use bluepass.Diagnostics.{Diag, diag_size, behind_newline, make_room, formatted, diag_append}

-- The end of a log from the start of one of its lines on.
pub data IsTail (xs : List ℕ) : List ℕ → Type 0 where
  whole : IsTail xs xs
  cut : (buf rest : List ℕ) → behind_newline buf ≡ some rest → IsTail xs rest → IsTail xs buf
  gone : (buf : List ℕ) → xs ≡ [] → IsTail xs buf

inside_line : (c : ℕ) (cs : List ℕ) → c == 10 ≡ false → behind_newline (c ∷ cs) ≡ behind_newline cs
unfolding behind_newline
inside_line c cs h = rw h refl

shorter : (buf rest : List ℕ) → behind_newline buf ≡ some rest → length rest < length buf
unfolding behind_newline
shorter [] rest h = absurd (ground (arith, h))
shorter (c ∷ cs) rest h = elim (Bool-cases (c == 10)) [
  | inl newline ↦ ground (arith, h, newline)
  | inr inside ↦ ground (arith, shorter cs rest (sym (inside_line c cs inside) ∙ h))
]

abbrev after_cut : ℕ → ℕ → Option (List ℕ) → List ℕ
after_cut fuel n m = elim m [ none ↦ [] | some rest ↦ make_room fuel n rest ]

room_left :
    (fuel n : ℕ) (buf : List ℕ)
    → leb diag_size (length buf + n) ≡ false
    → make_room (suc fuel) n buf ≡ buf
unfolding make_room
room_left fuel n buf h = rw h refl

no_room :
    (fuel n : ℕ) (buf : List ℕ)
    → leb diag_size (length buf + n) ≡ true
    → make_room (suc fuel) n buf ≡ after_cut fuel n (behind_newline buf)
unfolding make_room
no_room fuel n buf h = rw h refl

make_room_lem :
    (fuel n : ℕ) (buf : List ℕ)
    → length buf < fuel
    → n < diag_size
    → IsTail (make_room fuel n buf) buf × (length (make_room fuel n buf) + n < diag_size)
make_room_lem zero n buf h small = absurd (omega arith)
make_room_lem (suc fuel) n buf h small = elim (Bool-cases (leb diag_size (length buf + n))) [
  | inr room ↦ rw (room_left fuel n buf room) (whole, ground arith)
  | inl full ↦
      rw (no_room fuel n buf full)
        (cleared (λ rest less. make_room_lem fuel n rest less small) (behind_newline buf) refl)
]
  where
    cleared :
        ((rest : List ℕ)
          → length rest < fuel
          → IsTail (make_room fuel n rest) rest × (length (make_room fuel n rest) + n < diag_size))
        → (m : Option (List ℕ)) → behind_newline buf ≡ m
        → IsTail (after_cut fuel n m) buf × (length (after_cut fuel n m) + n < diag_size)
    cleared ih none e = (gone buf refl, omega arith)
    cleared ih (some rest) e =
        let less = shorter buf rest e in
        let (tail, fits) = ih rest (omega arith) in (cut buf rest e tail, fits)

-- A message of 1 to 159 characters is put behind the log whole; what is left of the log before it
-- is its end from the start of a line on, or nothing; and the buffer keeps room for the NUL.
pub diag_append_lem :
    (text stack : List ℕ) (d : Diag)
    → 0 < length text
    → length text < 160
    → let buf = (diag_append text stack d).diag_buf in
      let kept = length buf - length text in
      (length buf < diag_size) × (drop kept buf ≡ text) × IsTail (take kept buf) d.diag_buf
unfolding diag_append formatted
diag_append_lem text stack d some_text short =
    let room = make_room (suc (length d.diag_buf)) (length text) d.diag_buf in
    let (tail, fits) =
      make_room_lem (suc (length d.diag_buf)) (length text) d.diag_buf (omega arith)
        (omega arith) in
    let taken : (length text == 0) || leb diag_size (length text) ≡ false = ground arith in
    let whole_text : ltb (length text) 160 ≡ true = ground arith in
    let kept : length (room ++ text) - length text ≡ length room =
      ground (arith, length-append room text) in
    rw (taken, whole_text)
      (rw kept (
        ground (arith, fits, length-append room text),
        drop-append room text,
        rw (take-append room text) tail,
      ))
