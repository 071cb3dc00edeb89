-- ===== src/Cbor/Strings.antt =====
-- `cd_bstr` and `cd_tstr`: the bounds of what they return, and what the wrap of `size_t` does to
-- them and to `cd_skip`.
use bluepass.Common.{
  ℕ, zero, suc, ◌+◌, ◌%◌, ◌≤◌, ◌<◌, true, false, List, [], ◌∷◌, ◌++◌, ◌≡◌, refl, ap, ◌∙◌, some,
  none, Option, length, length-append, append_assoc, arith, drop, if◌then◌else◌, ltb, leb, le→leb,
}
use bluepass.Cbor.{
  CborDec, CborEnc, size_mod, cd_skip, cd_skip_loop, cd_advance, cd_str, cd_bstr, ce_bstr, ce_tv,
  ce_bytes, cd_init,
}
use bluepass.Cbor.Heads.{head, wrote, ce_tv-head, ce_bytes-wrote}
use bluepass.Cbor.Reading.{Unread, moved, Unread-moved, cd_item-head}
use bluepass.Cbor.Skip.{loop_step}

-- A string of `n` bytes is announced, and `bs` is what the message still holds.
module _ (mt n : ℕ) (d : CborDec) (bs junk : List ℕ) where
  str_item :
      mt < 8
      → n < size_mod
      → Unread d (head mt n ++ bs) junk
      → cd_str mt d ≡ (
          let d1 = moved d (length (head mt n)) in
          let p = (d1.pos + n) % size_mod in
          if ltb d1.len p
          then (none, record d1 { pos = p; err = true })
          else (some (drop d1.pos d1.buf, n), record d1 { pos = p }))
  unfolding cd_str
  str_item hm hn u = ground (arith, cd_item-head mt n d bs junk hm (omega arith) u, u.clean)

-- Without a wrap, `cd_bstr` gives the string exactly if the message holds all of it: the pointer
-- is to its bytes, and the decoder moves behind them. Otherwise it gives NULL and sets the error.
cd_bstr_exact :
    (n : ℕ) (d : CborDec) (bs junk : List ℕ)
    → d.len < size_mod
    → Unread d (head 2 n ++ bs) junk
    → d.pos + length (head 2 n) + n < size_mod
    → cd_bstr d ≡ (
        let d' = moved d (length (head 2 n) + n) in
        if leb n (length bs) then (some (bs ++ junk, n), d') else (none, record d' { err = true }))
unfolding cd_bstr
cd_bstr_exact n d bs junk small u fits =
    let hd = head 2 n in
    let u1 = Unread-moved d (length hd) hd bs junk refl u in
    let e = str_item 2 n d bs junk (omega arith) (omega arith) u in
    ground (arith, e, u1.memory, u1.extent)

read_back :
    (s bs junk : List ℕ)
    → length ((head 2 (length s) ++ s) ++ bs) < size_mod
    → let all = (head 2 (length s) ++ s) ++ bs in
      let d = cd_init (all ++ junk) (length all) in
      cd_bstr d
      ≡ (some (s ++ (bs ++ junk), length s), record d { pos = length (head 2 (length s) ++ s) })
read_back s bs junk small =
    let hd = head 2 (length s) in
    let all = (hd ++ s) ++ bs in
    let d = cd_init (all ++ junk) (length all) in
    let u : Unread d (hd ++ (s ++ bs)) junk = record {
      memory = ap (λ l. l ++ junk) (append_assoc hd s bs);
      extent = omega (arith, ap length (append_assoc hd s bs));
      clean = refl;
    } in
    let size = length-append hd s in
    let total = length-append (hd ++ s) bs in
    cd_bstr_exact (length s) d (s ++ bs) junk small u (omega (arith, size, total))
    ∙ ap
        (λ b.
          let d' = moved d (length hd + length s) in
          if b then (some ((s ++ bs) ++ junk, length s), d') else (none, record d' { err = true }))
        (le→leb (length s) (length (s ++ bs)) (omega (arith, length-append s bs)))
    ∙ ap (λ l. (some (l, length s), moved d (length hd + length s))) (append_assoc s bs junk)
    ∙ ap (λ p. (some (s ++ (bs ++ junk), length s), record d { pos = p })) (omega (arith, size))

-- What `ce_bstr` writes `cd_bstr` reads back, and it stops where the string ends.
cd_bstr-ce_bstr :
    (s bs junk : List ℕ) (e : CborEnc)
    → e.buf ≡ []
    → length (head 2 (length s) ++ s) ≤ e.cap
    → e.cap + length bs < size_mod
    → let e' = ce_bstr e s in
      let d = cd_init ((e'.buf ++ bs) ++ junk) (length (e'.buf ++ bs)) in
      (e'.err ≡ e.err)
      × (cd_bstr d ≡ (some (s ++ (bs ++ junk), length s), record d { pos = length e'.buf }))
unfolding ce_bstr
cd_bstr-ce_bstr s bs junk e empty fits small =
    let hd = head 2 (length s) in
    let size = length-append hd s in
    let w1 : ce_tv e 2 (length s) ≡ wrote e hd =
      ce_tv-head e 2 (length s) (omega arith) (omega (arith, ap length empty)) in
    let w2 : ce_bytes (wrote e hd) s ≡ wrote (wrote e hd) s =
      ce_bytes-wrote (wrote e hd) s (omega arith)
        (omega (arith, length-append e.buf hd, ap length empty)) in
    let e1 : ce_bstr e s ≡ wrote e (hd ++ s) =
      ap (λ x. ce_bytes x s) w1 ∙ w2 ∙ ap (λ b. record e { buf = b }) (append_assoc e.buf hd s) in
    rw (e1, empty) (refl, read_back s bs junk (omega (arith, length-append (hd ++ s) bs)))

-- The wrap: a string that is announced to end past 2^32 passes the bounds check, because the
-- position comes round to the front. The caller gets a pointer and a length that go past the end
-- of the message.
pub cd_bstr_overread :
    (n : ℕ) (d : CborDec) (bs junk : List ℕ)
    → d.len < size_mod
    → n < size_mod
    → Unread d (head 2 n ++ bs) junk
    → size_mod ≤ d.pos + length (head 2 n) + n
    → ((cd_bstr d).0 ≡ some (bs ++ junk, n)) × (length bs < n) × ((cd_bstr d).1.err ≡ false)
unfolding cd_bstr
cd_bstr_overread n d bs junk small hn u wraps =
    let hd = head 2 n in
    let u1 = Unread-moved d (length hd) hd bs junk refl u in
    let e = str_item 2 n d bs junk (omega arith) hn u in
    (
      ground (arith, e, u1.memory, u1.extent),
      omega (arith, u1.extent),
      ground (arith, e, u1.extent, u.clean),
    )

-- An array of two items whose first is a byte string of 2^32 - 6 bytes: the string's end wraps to
-- the array's head.
abbrev pub trap : List ℕ
trap = 0x82 ∷ 0x5a ∷ 0xff ∷ 0xff ∷ 0xff ∷ 0xfa ∷ []

trap_outer :
    (f : ℕ) (d : CborDec) (bs junk : List ℕ)
    → Unread d (trap ++ bs) junk
    → cd_skip (suc f) d ≡ cd_skip_loop (λ e. cd_skip f e) 2 (moved d 1)
unfolding cd_skip head
trap_outer f d bs junk u =
    rw (cd_item-head 4 2 d (drop 1 trap ++ bs) junk (omega arith) (omega arith) u) refl

-- The string's end is where the array began.
trap_back :
    (f : ℕ) (d : CborDec) (bs junk : List ℕ)
    → d.len < size_mod
    → Unread d (trap ++ bs) junk
    → cd_skip (suc f) (moved d 1) ≡ some d
unfolding cd_skip head cd_advance
trap_back f d bs junk small u =
    let d1 = moved d 1 in
    let u1 : Unread d1 (drop 1 trap ++ bs) junk =
      Unread-moved d 1 (0x82 ∷ []) (drop 1 trap ++ bs) junk refl u in
    rw (cd_item-head 2 0xffff_fffa d1 bs junk (omega arith) (omega arith) u1)
      (ground (arith, u.extent, u.clean))

loop_none :
    (skip : CborDec → Option CborDec) (n : ℕ) (d : CborDec)
    → d.err ≡ false
    → skip d ≡ none
    → cd_skip_loop skip (suc n) d ≡ none
unfolding cd_skip_loop
loop_none skip n d e f = ground arith

-- On these six bytes `cd_skip` calls itself without end, whatever follows them: no recursion depth
-- is enough.
pub cd_skip_diverges :
    (fuel : ℕ) (d : CborDec) (bs junk : List ℕ)
    → d.len < size_mod
    → Unread d (trap ++ bs) junk
    → cd_skip fuel d ≡ none
cd_skip_diverges zero d bs junk small u = unfold cd_skip in refl
cd_skip_diverges (suc zero) d bs junk small u =
    trap_outer 0 d bs junk u
    ∙ loop_none (λ e. cd_skip 0 e) 1 (moved d 1) u.clean (unfold cd_skip in refl)
cd_skip_diverges (suc (suc f)) d bs junk small u =
    trap_outer (suc f) d bs junk u
    ∙ loop_step (λ e. cd_skip (suc f) e) 1 (moved d 1) d u.clean (trap_back f d bs junk small u)
    ∙ loop_none (λ e. cd_skip (suc f) e) 0 d u.clean (cd_skip_diverges (suc f) d bs junk small u)
