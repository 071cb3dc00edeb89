-- ===== src/Cbor.antt =====
-- The CBOR encoder and decoder of components/fido2/fido2.c. `size_t` is the 32-bit one of the
-- ESP32-S3, so an addition to a position wraps at 2^32; the argument of an item is a uint64_t.
-- A byte buffer is the list of its bytes, and a pointer into one is the rest of the list.
pub mod Heads
pub mod Reading
pub mod Tree
pub mod Skip
pub mod Find
pub mod FindText
pub mod Strings
mod Tests
use bluepass.Common.{
  ℕ, zero, suc, ◌+◌, ◌-◌, ◌*◌, ◌/◌, ◌%◌, ◌^◌, bit_and, bit_or, Bool, true, false, ◌&&◌, ◌||◌,
  Option, none, some, List, [], ◌∷◌, ◌++◌, ltb, leb, ◌==◌, if◌then◌else◌, length, get_or, take,
  drop, bytes_eq,
}

-- `size_t` arithmetic wraps.
abbrev pub size_mod : ℕ
size_mod = 2 ^ 32

-- `cbor_enc_t`. `buf` is what has been written, so its length is the field `pos` of the source.
pub record CborEnc : Type 0 where
  pub buf : List ℕ
  pub cap : ℕ
  pub err : Bool

pub ce_init : ℕ → CborEnc
ce_init cap = record { buf = []; cap = cap; err = false }

pub ce_byte : CborEnc → ℕ → CborEnc
ce_byte e b =
    if ltb (length e.buf) e.cap
    then record e { buf = e.buf ++ (b ∷ []) }
    else record e { err = true }

pub ce_bytes : CborEnc → List ℕ → CborEnc
ce_bytes e d =
    if leb ((length e.buf + length d) % size_mod) e.cap
    then record e { buf = e.buf ++ d }
    else record e { err = true }

-- `for (int i = n - 1; i >= 0; i--) ce_byte(e, (uint8_t)(v >> (i * 8)))`
pub ce_be : ℕ → CborEnc → ℕ → CborEnc
ce_be zero e v = e
ce_be (suc i) e v = ce_be i (ce_byte e (v / 2 ^ (i * 8) % 256)) v

-- `mt <<= 5` on a `uint8_t`.
abbrev major : ℕ → ℕ
major mt = mt * 32 % 256

pub ce_tv : CborEnc → ℕ → ℕ → CborEnc
ce_tv e mt v =
    if leb v 23
    then ce_byte e (bit_or (major mt) (v % 256))
    else if leb v 0xff
    then ce_be 1 (ce_byte e (bit_or (major mt) 24)) v
    else if leb v 0xffff
    then ce_be 2 (ce_byte e (bit_or (major mt) 25)) v
    else if leb v 0xffff_ffff
    then ce_be 4 (ce_byte e (bit_or (major mt) 26)) v
    else ce_be 8 (ce_byte e (bit_or (major mt) 27)) v

pub ce_uint : CborEnc → ℕ → CborEnc
ce_uint e v = ce_tv e 0 v

-- The argument is `-1 - v` for the negative number `v` of the source.
pub ce_nint : CborEnc → ℕ → CborEnc
ce_nint e m = ce_tv e 1 m

pub ce_bstr : CborEnc → List ℕ → CborEnc
ce_bstr e d = ce_bytes (ce_tv e 2 (length d)) d

pub ce_tstr : CborEnc → List ℕ → CborEnc
ce_tstr e s = ce_bytes (ce_tv e 3 (length s)) s

pub ce_arr : CborEnc → ℕ → CborEnc
ce_arr e n = ce_tv e 4 n

pub ce_map : CborEnc → ℕ → CborEnc
ce_map e n = ce_tv e 5 n

pub ce_bool : CborEnc → Bool → CborEnc
ce_bool e b = ce_byte e (if b then 0xf5 else 0xf4)

-- `cbor_dec_t`. `buf` is the memory from `d->buf` on, which may go on behind the `len` bytes.
pub record CborDec : Type 0 where
  pub buf : List ℕ
  pub pos : ℕ
  pub len : ℕ
  pub err : Bool

abbrev pub cd_init : List ℕ → ℕ → CborDec
cd_init buf len = record { buf = buf; pos = 0; len = len; err = false }

-- `pos` stays below `len` where it grows, so `d->pos++` cannot wrap.
unfoldable pub cd_byte : CborDec → ℕ × CborDec
cd_byte d =
    if ltb d.pos d.len
    then (get_or d.buf d.pos 0, record d { pos = suc d.pos })
    else (0, record d { err = true })

-- `for (int i = 0; i < n; i++) v = (v << 8) | cd_byte(d)`
unfoldable pub cd_be : ℕ → ℕ → CborDec → ℕ × CborDec
cd_be zero v d = (v, d)
cd_be (suc n) v d = let (b, d') = cd_byte d in cd_be n (bit_or (v * 2 ^ 8 % 2 ^ 64) b) d'

unfoldable pub cd_arg : CborDec → ℕ → ℕ × CborDec
cd_arg d ai =
    if leb ai 23
    then (ai, d)
    else if ai == 24
    then cd_byte d
    else if ai == 25
    then cd_be 2 0 d
    else if ai == 26
    then cd_be 4 0 d
    else if ai == 27
    then cd_be 8 0 d
    else (0, record d { err = true })

-- `cd_item_t`
pub record CdItem : Type 0 where
  pub major_type : ℕ
  pub val : ℕ

unfoldable pub cd_item : CborDec → CdItem × CborDec
cd_item d =
    let (b, d1) = cd_byte d in
    let (v, d2) = cd_arg d1 (bit_and b 0x1f) in (record { major_type = b / 2 ^ 5; val = v }, d2)

-- `d->pos += n; if (d->pos > d->len) d->err = true;`
unfoldable pub cd_advance : ℕ → CborDec → CborDec
cd_advance n d =
    let pos' = (d.pos + n) % size_mod in record d { pos = pos'; err = d.err || ltb d.len pos' }

-- `for (i = 0; i < n && !d->err; i++) cd_skip(d)` over one call of `cd_skip`.
unfoldable pub cd_skip_loop : (CborDec → Option CborDec) → ℕ → CborDec → Option CborDec
cd_skip_loop skip zero d = some d
cd_skip_loop skip (suc n) d = elim d.err [
  | true ↦ some d
  | false ↦ elim (skip d) [ none ↦ none | some d' ↦ cd_skip_loop skip n d' ]
]

-- `cd_skip` calls itself, and its C stack is the fuel: `none` is a recursion deeper than that.
unfoldable pub cd_skip : ℕ → CborDec → Option CborDec
cd_skip zero d = none
cd_skip (suc fuel) d =
    let (it, d') = cd_item d in
    let n = it.val % size_mod in
    let inner = cd_skip_loop (λ e. cd_skip fuel e) in
    if it.major_type == 2 || it.major_type == 3
    then some (cd_advance n d')
    else if it.major_type == 4
    then inner n d'
    else if it.major_type == 5
    then inner (n * 2 % size_mod) d'
    else some d'

-- What a search in a map gives: the decoder set to the value, nothing, or a `cd_skip` that
-- recurs deeper than its fuel.
pub data Lookup : Type 0 where
  found : CborDec → Lookup
  absent : Lookup
  too_deep : Lookup

-- `cd_init(out, d.buf + d.pos, d.len - d.pos)`
unfoldable pub cd_sub : CborDec → CborDec
cd_sub d = cd_init (drop d.pos d.buf) ((d.len + size_mod - d.pos) % size_mod)

unfoldable pub cd_map_uint_loop : ℕ → ℕ → ℕ → CborDec → Lookup
cd_map_uint_loop fuel key zero d = absent
cd_map_uint_loop fuel key (suc n) d =
    let (k, d') = cd_item d in
    let rest : Lookup = elim (cd_skip fuel d') [
      | none ↦ too_deep
      | some e ↦ cd_map_uint_loop fuel key n e
    ] in
    if d.err
    then absent
    else if d'.err
    then absent
    else if (k.major_type == 0) && (k.val == key)
    then found (cd_sub d')
    else rest

unfoldable pub cd_map_uint : ℕ → List ℕ → ℕ → ℕ → Lookup
cd_map_uint fuel buf len key =
    let (m, d) = cd_item (cd_init buf len) in
    if d.err
    then absent
    else if m.major_type == 5
    then cd_map_uint_loop fuel key m.val d
    else absent

-- The key's bytes stand at the position behind its head.
abbrev key_here : List ℕ → CdItem → CborDec → Bool
key_here key k d =
    (k.major_type == 3)
    && (k.val == length key)
    && leb ((d.pos + length key) % size_mod) d.len
    && bytes_eq (take (length key) (drop d.pos d.buf)) key

unfoldable pub cd_map_tstr_loop : ℕ → List ℕ → ℕ → CborDec → Lookup
cd_map_tstr_loop fuel key zero d = absent
cd_map_tstr_loop fuel key (suc n) d =
    let (k, d') = cd_item d in
    let behind =
      if k.major_type == 3 then record d' { pos = (d'.pos + k.val) % size_mod } else d' in
    let rest : Lookup = elim (cd_skip fuel behind) [
      | none ↦ too_deep
      | some e ↦ cd_map_tstr_loop fuel key n e
    ] in
    if d.err
    then absent
    else if d'.err
    then absent
    else if key_here key k d'
    then found (cd_sub (record d' { pos = (d'.pos + length key) % size_mod }))
    else rest

unfoldable pub cd_map_tstr : ℕ → List ℕ → ℕ → List ℕ → Lookup
cd_map_tstr fuel buf len key =
    let (m, d) = cd_item (cd_init buf len) in
    if d.err
    then absent
    else if m.major_type == 5
    then cd_map_tstr_loop fuel key m.val d
    else absent

-- The pointer and the length of a string of one major type; `none` is NULL.
unfoldable pub cd_str : ℕ → CborDec → Option (List ℕ × ℕ) × CborDec
cd_str mt d =
    let (it, d') = cd_item d in
    let n = it.val % size_mod in
    let d2 = record d' { pos = (d'.pos + n) % size_mod } in
    if d'.err
    then (none, record d' { err = true })
    else if it.major_type == mt
    then (if ltb d2.len d2.pos
        then (none, record d2 { err = true })
        else (some (drop d'.pos d'.buf, n), d2))
    else (none, record d' { err = true })

unfoldable pub cd_bstr : CborDec → Option (List ℕ × ℕ) × CborDec
cd_bstr d = cd_str 2 d

unfoldable pub cd_tstr : CborDec → Option (List ℕ × ℕ) × CborDec
cd_tstr d = cd_str 3 d
