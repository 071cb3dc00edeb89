-- ===== src/Cbor/Reading.antt =====
-- Reading from a decoder of fido2.c: what is still unread, and one item head at a time.
use bluepass.Common.{
  ℕ, zero, suc, ◌+◌, ◌*◌, ◌/◌, ◌%◌, ◌^◌, ◌≤◌, ◌<◌, ◌≡◌, refl, ap, ◌∙◌, sym, bit_or, false, List, [],
  ◌∷◌, ◌++◌, append_assoc, arith, length, length-append, drop, get_or, drop_add, get_or-drop,
  drop-append, bit_and_1f, bit_or_shift, bit_and,
}
use native.Mathlib.Nat.{div-div-eq-div-mul, div-le_self}
use native.Mathlib.Numerals.{towards_suc}
use bluepass.Cbor.{CborEnc, ce_tv, cd_init, CborDec, cd_byte, cd_be, cd_arg, cd_item}
use bluepass.Cbor.Heads.{
  ce_tv-head, length-head-le, be_bytes, head, info, width, info-lt, length-be_bytes,
}

-- `bs` is what the decoder has still to read, and `junk` is the memory behind it.
pub record Unread (d : CborDec) (bs junk : List ℕ) : Type 0 where
  pub memory : drop d.pos d.buf ≡ bs ++ junk
  pub extent : d.len ≡ d.pos + length bs
  pub clean : d.err ≡ false

abbrev pub moved : CborDec → ℕ → CborDec
moved d n = record d { pos = d.pos + n }

pub moved-moved : (d : CborDec) (m n k : ℕ) → m + n ≡ k → moved (moved d m) n ≡ moved d k
moved-moved d m n k e = ap (λ p. record d { pos = p }) (omega arith)

pub moved_zero : (d : CborDec) → moved d 0 ≡ d
moved_zero d = ap (λ p. record d { pos = p }) (omega arith)

pub Unread-moved :
    (d : CborDec) (n : ℕ) (xs bs junk : List ℕ)
    → n ≡ length xs
    → Unread d (xs ++ bs) junk
    → Unread (moved d n) bs junk
Unread-moved d n xs bs junk e u = record {
  memory =
      rw (e, drop_add d.pos (length xs) d.buf, u.memory, append_assoc xs bs junk)
        (drop-append xs (bs ++ junk));
  extent = omega (arith, u.extent, length-append xs bs);
  clean = u.clean;
}

pub cd_byte-moved :
    (d : CborDec) (b : ℕ) (bs junk : List ℕ) → Unread d (b ∷ bs) junk → cd_byte d ≡ (b, moved d 1)
unfolding cd_byte
cd_byte-moved d b bs junk u = ground (
  arith,
  get_or-drop d.buf d.pos 0 0,
  ap (λ l. get_or l 0 0) u.memory,
  ap (get_or d.buf) {x = d.pos + 0} {y = d.pos} (omega arith),
)

pow_eight : (n : ℕ) → 2 ^ (suc n * 8) ≡ 2 ^ (n * 8) * 256
pow_eight n =
    ap (λ k. 2 ^ k) {x = suc n * 8} {y = n * 8 + 8} (omega arith) ∙ simp towards_suc (omega arith)

next_prefix :
    (n w : ℕ)
    → w < 2 ^ 64
    → bit_or (w / 2 ^ (suc n * 8) * 2 ^ 8 % 2 ^ 64) (w / 2 ^ (n * 8) % 256) ≡ w / 2 ^ (n * 8)
next_prefix n w h =
    let q = w / 2 ^ (n * 8) in
    let up : w / 2 ^ (suc n * 8) ≡ q / 256 =
      ap (λ t. w / t) (pow_eight n) ∙ sym (div-div-eq-div-mul w (2 ^ (n * 8)) 256) in
    let small : q ≤ w = div-le_self w (2 ^ (n * 8)) in
    omega (
      arith,
      up,
      small,
      bit_or_shift 8 (q / 256) (q % 256) (omega arith),
      ap (λ t. bit_or (t * 256 % 2 ^ 64) (q % 256)) up,
      ap (λ t. bit_or t (q % 256)) {x = q / 256 * 256 % 2 ^ 64} {y = q / 256 * 256} (omega arith),
    )

cd_be-moved :
    (n w : ℕ) (d : CborDec) (bs junk : List ℕ)
    → w < 2 ^ 64
    → Unread d (be_bytes n w ++ bs) junk
    → cd_be n (w / 2 ^ (n * 8)) d ≡ (w, moved d n)
unfolding cd_be
cd_be-moved zero w d bs junk h u = (ground arith)
cd_be-moved (suc n) w d bs junk h u =
    rw (cd_byte-moved d (w / 2 ^ (n * 8) % 256) (be_bytes n w ++ bs) junk u, next_prefix n w h)
      (cd_be-moved n w (moved d 1) bs junk h
          (Unread-moved d 1 ((w / 2 ^ (n * 8) % 256) ∷ []) _ junk refl u)
        ∙ ap (λ e. (w, e)) (moved-moved d 1 n (suc n) (omega arith)))

-- With enough zeros before it the number has no prefix.
be_whole :
    (n w : ℕ) (d : CborDec) (bs junk : List ℕ)
    → w < 2 ^ 64
    → w / 2 ^ (n * 8) ≡ 0
    → Unread d (be_bytes n w ++ bs) junk
    → cd_be n 0 d ≡ (w, moved d n)
be_whole n w d bs junk h none u = rw none at (cd_be-moved n w d bs junk h u)

cd_arg-moved :
    (v : ℕ) (d : CborDec) (bs junk : List ℕ)
    → v < 2 ^ 64
    → Unread d (be_bytes (width v) v ++ bs) junk
    → cd_arg d (info v) ≡ (v, moved d (width v))
unfolding cd_arg
cd_arg-moved v d bs junk h u = ground (
  arith,
  cd_byte-moved d v bs junk,
  be_whole 2 v d bs junk h,
  be_whole 4 v d bs junk h,
  be_whole 8 v d bs junk h,
  moved_zero d,
)

-- Where the unread bytes begin with a head, `cd_item` gives its type and argument, and moves
-- behind it.
pub cd_item-head :
    (mt v : ℕ) (d : CborDec) (bs junk : List ℕ)
    → mt < 8
    → v < 2 ^ 64
    → Unread d (head mt v ++ bs) junk
    → cd_item d ≡ (record { major_type = mt; val = v }, moved d (length (head mt v)))
unfolding cd_item head
cd_item-head mt v d bs junk hm hv u =
    let b = mt * 32 + info v in
    let u' = Unread-moved d 1 (b ∷ []) (be_bytes (width v) v ++ bs) junk refl u in
    ground (
      arith,
      info-lt v,
      cd_byte-moved d b (be_bytes (width v) v ++ bs) junk u,
      bit_and_1f b,
      ap (cd_arg (moved d 1)) {x = bit_and b 31} {y = info v}
          (omega (arith, info-lt v, bit_and_1f b)),
      cd_arg-moved v (moved d 1) bs junk hv u',
      moved-moved d 1 (width v) (suc (width v)) (omega arith),
      length-be_bytes (width v) v,
    )

-- What `ce_tv` writes into an empty buffer `cd_item` reads back, with all of it consumed: the
-- encoder chooses the width of the argument, and each of the five is read.
cd_item-ce_tv :
    (mt v : ℕ) (e : CborEnc) (bs junk : List ℕ)
    → mt < 8
    → v < 2 ^ 64
    → e.buf ≡ []
    → 9 ≤ e.cap
    → let e' = ce_tv e mt v in
      let d = cd_init ((e'.buf ++ bs) ++ junk) (length (e'.buf ++ bs)) in
      (e'.err ≡ e.err)
      × (cd_item d ≡ (record { major_type = mt; val = v }, record d { pos = length e'.buf }))
cd_item-ce_tv mt v e bs junk hm hv empty room =
    let written = ce_tv-head e mt v hm (omega (arith, length-head-le mt v, ap length empty)) in
    let all = head mt v ++ bs in
    let d = cd_init (all ++ junk) (length all) in
    rw (written, empty)
      (
        refl,
        cd_item-head mt v d bs junk hm hv
              (record { memory = refl; extent = omega arith; clean = refl })
            ∙ ap (λ p. (record { major_type = mt; val = v }, record d { pos = p })) (omega arith),
      )
