-- ===== src/Cbor/Heads.antt =====
-- The head of a CBOR item, as RFC 8949 writes it, and what the encoder of fido2.c writes.
use bluepass.Common.{
  ℕ, zero, suc, ◌+◌, ◌*◌, ◌/◌, ◌%◌, ◌^◌, ◌≤◌, ◌<◌, ◌≡◌, refl, ap, ◌∙◌, sym, bit_or, List, [], ◌∷◌,
  ◌++◌, append_assoc, append-nil, arith, leb, le→leb, lt→ltb, if◌then◌else◌, length, length-append,
  bit_or_head,
}
use bluepass.Cbor.{CborEnc, size_mod, ce_byte, ce_bytes, ce_be, ce_tv}

-- `v` in `n` bytes, the high one first.
abbrev pub be_bytes : ℕ → ℕ → List ℕ
be_bytes zero v = []
be_bytes (suc n) v = (v / 2 ^ (n * 8) % 256) ∷ be_bytes n v

-- The low five bits of the first byte, and how many bytes of the argument follow it.
abbrev pub info : ℕ → ℕ
info v =
    if leb v 23
    then v
    else if leb v 0xff
    then 24
    else if leb v 0xffff
    then 25
    else if leb v 0xffff_ffff
    then 26
    else 27

abbrev pub width : ℕ → ℕ
width v =
    if leb v 23
    then 0
    else if leb v 0xff
    then 1
    else if leb v 0xffff
    then 2
    else if leb v 0xffff_ffff
    then 4
    else 8

-- The head of an item of major type `mt` with the argument `v`, in the shortest form.
unfoldable pub head : ℕ → ℕ → List ℕ
head mt v = (mt * 32 + info v) ∷ be_bytes (width v) v

pub length-be_bytes : (n v : ℕ) → length (be_bytes n v) ≡ n
length-be_bytes zero v = refl
length-be_bytes (suc n) v = ap suc (length-be_bytes n v)

width-le : (v : ℕ) → width v ≤ 8
width-le v = ground arith

pub length-head : (mt v : ℕ) → 0 < length (head mt v)
unfolding head
length-head mt v = omega arith

pub length-head-le : (mt v : ℕ) → length (head mt v) ≤ 9
unfolding head
length-head-le mt v = omega (arith, length-be_bytes (width v) v, width-le v)

pub info-lt : (v : ℕ) → info v < 32
info-lt v = ground arith

-- What an encoder becomes by writing `bs`.
abbrev pub wrote : CborEnc → List ℕ → CborEnc
wrote e bs = record e { buf = e.buf ++ bs }

pub ce_byte-wrote : (e : CborEnc) (b : ℕ) → length e.buf < e.cap → ce_byte e b ≡ wrote e (b ∷ [])
unfolding ce_byte
ce_byte-wrote e b h = rw (lt→ltb _ _ h)

pub ce_bytes-wrote :
    (e : CborEnc) (d : List ℕ)
    → e.cap < size_mod
    → length e.buf + length d ≤ e.cap
    → ce_bytes e d ≡ wrote e d
unfolding ce_bytes
ce_bytes-wrote e d c h = ground (arith, le→leb ((length e.buf + length d) % size_mod) e.cap)

wrote-wrote : (e : CborEnc) (xs ys : List ℕ) → wrote (wrote e xs) ys ≡ wrote e (xs ++ ys)
wrote-wrote e xs ys = ap (λ b. record e { buf = b }) (append_assoc e.buf xs ys)

ce_be-wrote :
    (n : ℕ) (e : CborEnc) (v : ℕ) → length e.buf + n ≤ e.cap → ce_be n e v ≡ wrote e (be_bytes n v)
unfolding ce_be
ce_be-wrote zero e v h = ap (λ b. record e { buf = b }) (sym (append-nil e.buf))
ce_be-wrote (suc n) e v h =
    let b = v / 2 ^ (n * 8) % 256 in
    rw (ce_byte-wrote e b (omega arith)) (
      ce_be-wrote n (wrote e (b ∷ [])) v (omega (arith, length-append e.buf (b ∷ [])))
      ∙ wrote-wrote e (b ∷ []) (be_bytes n v))

head_byte : (mt ai : ℕ) → mt < 8 → ai < 32 → bit_or (mt * 32 % 256) ai ≡ mt * 32 + ai
head_byte mt ai h k = omega (
  arith,
  bit_or_head (mt * 32 + ai) (omega arith),
  ap (λ t. bit_or t ai) {x = mt * 32 % 256} {y = (mt * 32 + ai) / 32 * 32} (omega arith),
  ap (bit_or ((mt * 32 + ai) / 32 * 32)) {x = ai} {y = (mt * 32 + ai) % 32} (omega arith),
)

long_head :
    (n ai : ℕ) (e : CborEnc) (mt v : ℕ)
    → mt < 8
    → ai < 32
    → length e.buf + suc n ≤ e.cap
    → ce_be n (ce_byte e (bit_or (mt * 32 % 256) ai)) v ≡ wrote e ((mt * 32 + ai) ∷ be_bytes n v)
long_head n ai e mt v h k fits =
    rw (head_byte mt ai h k, ce_byte-wrote e (mt * 32 + ai) (omega arith))
      (ce_be-wrote n (wrote e ((mt * 32 + ai) ∷ [])) v
          (omega (arith, length-append e.buf ((mt * 32 + ai) ∷ [])))
        ∙ wrote-wrote e ((mt * 32 + ai) ∷ []) (be_bytes n v))

ce_be-zero : (e : CborEnc) (v : ℕ) → ce_be 0 e v ≡ e
unfolding ce_be
ce_be-zero e v = refl

-- With room for it, `ce_tv` appends exactly the head of the item and sets no error.
pub ce_tv-head :
    (e : CborEnc) (mt v : ℕ)
    → mt < 8
    → length e.buf + length (head mt v) ≤ e.cap
    → ce_tv e mt v ≡ wrote e (head mt v)
unfolding ce_tv head
ce_tv-head e mt v h fits = ground (
  arith,
  long_head 0 v e mt v h,
  long_head 1 24 e mt v h,
  long_head 2 25 e mt v h,
  long_head 4 26 e mt v h,
  long_head 8 27 e mt v h,
  ce_be-zero (ce_byte e (bit_or (mt * 32 % 256) v)) v,
)
