-- ===== src/Cbor/FindText.antt =====
-- `cd_map_tstr` finds the value of a text key in an encoded map.
use bluepass.Common.{
  ℕ, suc, ◌+◌, ◌%◌, ◌≤◌, ◌<◌, ◌^◌, Bool, true, false, List, [], ◌++◌, ◌≡◌, refl, sym, ap, ◌∙◌, some,
  none, Option, length, length-append, append_assoc, arith, if◌then◌else◌, ◌==◌, take, drop,
  take-append, bytes_eq, bytes_eq_iff, Bool-cases, inl, inr, ==_iff,
}
use bluepass.Cbor.{
  CborDec, CdItem, found, size_mod, cd_item, cd_skip, cd_sub, cd_map_tstr_loop, cd_map_tstr,
  key_here,
}
use bluepass.Cbor.Heads.{head}
use bluepass.Cbor.Reading.{Unread, moved, Unread-moved, cd_item-head}
use bluepass.Cbor.Tree.{
  Cbor, uint, nint, bstr, tstr, arr, map, simple, Entries, end, entry, encode, encode_entries,
  count_entries, IsWf, depth, depth_entries,
}
use bluepass.Cbor.Skip.{Unread-assoc, skip_tree}
use bluepass.Cbor.Find.{outcome, item_of, IntKey-item, cd_sub-Unread, map_head}

-- For `cd_map_tstr` the keys may be text, too.
abbrev pub TextKey : Cbor → Type 0
TextKey (uint v) = v < 2 ^ 64
TextKey (nint m) = m < 2 ^ 64
TextKey (simple v) = v < 24
TextKey (tstr s) = Unit {0}
TextKey (bstr b) = ⊥
TextKey (arr xs) = ⊥
TextKey (map es) = ⊥

abbrev pub TextKeys : Entries → Type 0
TextKeys end = Unit {0}
TextKeys (entry k v es) = TextKey k × IsWf v × TextKeys es

abbrev pub is_text : List ℕ → Cbor → Bool
is_text key (tstr s) = bytes_eq s key
is_text key k = false

-- The value of the first entry whose key is the text `key`, and the entries behind it.
abbrev pub find_text : List ℕ → Entries → Option (Cbor × Entries)
find_text key end = none
find_text key (entry k v es) = if is_text key k then some (v, es) else find_text key es

-- Behind a head: at the value, but for a text key at its bytes.
abbrev text_bytes : Cbor → List ℕ
text_bytes (tstr s) = s
text_bytes k = []

abbrev behind_key : CdItem → CborDec → CborDec
behind_key k d = if k.major_type == 3 then record d { pos = (d.pos + k.val) % size_mod } else d

tstr_loop_step :
    (fuel : ℕ) (key : List ℕ) (n : ℕ) (d d1 d2 d3 : CborDec) (it : CdItem)
    → d.err ≡ false
    → cd_item d ≡ (it, d1)
    → d1.err ≡ false
    → behind_key it d1 ≡ d2
    → cd_skip fuel d2 ≡ some d3
    → cd_map_tstr_loop fuel key (suc n) d ≡ (
        if key_here key it d1
        then found (cd_sub (record d1 { pos = (d1.pos + length key) % size_mod }))
        else cd_map_tstr_loop fuel key n d3)
unfolding cd_map_tstr_loop
tstr_loop_step fuel key n d d1 d2 d3 it clean item clean1 behind skip =
    rw (item, behind, skip, clean, clean1) refl

-- A text key that stands here is found by its bytes.
text_here :
    (key s : List ℕ) (d : CborDec) (bs junk : List ℕ)
    → d.len < size_mod
    → Unread d (s ++ bs) junk
    → key_here key (record { major_type = 3; val = length s }) d ≡ bytes_eq s key
text_here key s d bs junk small u = elim (Bool-cases (length s == length key)) [
  | inl same ↦
      let e : length s ≡ length key = (==_iff (length s) (length key)).0 same in
      let here : take (length key) (drop d.pos d.buf) ≡ s =
        ap (take (length key)) (u.memory ∙ append_assoc s bs junk)
        ∙ ap (λ n. take n (s ++ (bs ++ junk))) (sym e)
        ∙ take-append s (bs ++ junk) in
      ground (arith, same, e, here, u.extent, length-append s bs)
  | inr differ ↦
      let other : bytes_eq s key ≡ true → length s ≡ length key =
        λ h. ap length ((bytes_eq_iff s key).0 h) in
      ground (arith, other)
]

tstr_key_item :
    (key : List ℕ) (k v : Cbor) (d : CborDec) (bs junk : List ℕ)
    → TextKey k
    → d.len < size_mod
    → Unread d (encode k ++ bs) junk
    → (d1 : CborDec) × (cd_item d ≡ (item_of k, d1))
      × (d1.err ≡ false)
      × (behind_key (item_of k) d1 ≡ moved d (length (encode k)))
      × (key_here key (item_of k) d1 ≡ is_text key k)
unfolding encode
tstr_key_item key (tstr s) v d bs junk h small u =
    let hd = head 3 (length s) in
    let u1 = Unread-assoc d hd s bs junk u in
    let u2 = Unread-moved d (length hd) hd (s ++ bs) junk refl u1 in
    let short : length s < 2 ^ 64 = omega (arith, u2.extent, length-append s bs) in
    (
      moved d (length hd),
      cd_item-head 3 (length s) d (s ++ bs) junk (omega arith) short u1,
      u.clean,
      ap (λ p. record d { pos = p })
          (omega (arith, u2.extent, length-append s bs, length-append hd s)),
      text_here key s (moved d (length hd)) bs junk small u2,
    )
tstr_key_item key (uint n) v d bs junk h small u =
    (moved d (length (encode (uint n))), IntKey-item (uint n) d bs junk h u, u.clean, refl, refl)
tstr_key_item key (nint n) v d bs junk h small u =
    (moved d (length (encode (nint n))), IntKey-item (nint n) d bs junk h u, u.clean, refl, refl)
tstr_key_item key (simple n) v d bs junk h small u = (
  moved d (length (encode (simple n))),
  IntKey-item (simple n) d bs junk h u,
  u.clean,
  refl,
  refl,
)
tstr_key_item key (bstr b) v d bs junk h small u = absurd h
tstr_key_item key (arr b) v d bs junk h small u = absurd h
tstr_key_item key (map b) v d bs junk h small u = absurd h

-- Where the key is found, the decoder behind the key's bytes is the one behind the item.
found_here :
    (key : List ℕ) (k : Cbor) (d d1 : CborDec)
    → is_text key k ≡ true
    → behind_key (item_of k) d1 ≡ d
    → record d1 { pos = (d1.pos + length key) % size_mod } ≡ d
found_here key (tstr s) d d1 hit e =
    ap (λ n. record d1 { pos = (d1.pos + n) % size_mod })
      (sym (ap length ((bytes_eq_iff s key).0 hit)))
    ∙ e
found_here key (uint n) d d1 hit e = cc
found_here key (nint n) d d1 hit e = cc
found_here key (simple n) d d1 hit e = cc
found_here key (bstr n) d d1 hit e = cc
found_here key (arr n) d d1 hit e = cc
found_here key (map n) d d1 hit e = cc

tstr_loop :
    (es : Entries) (fuel : ℕ) (key : List ℕ) (d : CborDec) (bs junk : List ℕ)
    → depth_entries es ≤ fuel
    → TextKeys es
    → d.len < size_mod
    → Unread d (encode_entries es ++ bs) junk
    → cd_map_tstr_loop fuel key (count_entries es) d ≡ outcome (find_text key es) bs junk
unfolding encode depth
tstr_loop end fuel key d bs junk h w s u = unfold cd_map_tstr_loop in refl
tstr_loop (entry k v es) fuel key d bs junk h w s u =
    let tail = encode_entries es in
    let u1 = Unread-assoc d (encode k) (encode v ++ tail) bs junk u in
    let d2 = moved d (length (encode k)) in
    let u2 =
      Unread-moved d (length (encode k)) (encode k) ((encode v ++ tail) ++ bs) junk refl u1 in
    let u3 = Unread-assoc d2 (encode v) tail bs junk u2 in
    let d3 = moved d2 (length (encode v)) in
    let u4 = Unread-moved d2 (length (encode v)) (encode v) (tail ++ bs) junk refl u3 in
    let (d1, item, clean1, behind, here) =
      tstr_key_item key k v d ((encode v ++ tail) ++ bs) junk w.0 s u1 in
    tstr_loop_step fuel key (count_entries es) d d1 d2 d3 (item_of k) u.clean item clean1 behind
      (skip_tree v fuel d2 (tail ++ bs) junk (omega arith) w.1 s u3)
    ∙ rw here (elim (Bool-cases (is_text key k)) [
      | inl hit ↦
          rw
            (
              hit,
              found_here key k d2 d1 hit behind,
              cd_sub-Unread d2 (encode v ++ (tail ++ bs)) junk s u3,
            )
            refl
      | inr miss ↦ rw miss (tstr_loop es fuel key d3 bs junk (omega arith) w.2 s u4)
    ])

-- In the encoding of a map whose keys are all text strings, unsigned or negative integers or simple
-- values below 24 (`cd_map_tstr` goes out of step behind a key that is a byte string, an array or a
-- map), in a message shorter than 2^32 bytes, `cd_map_tstr` gives the decoder at the value of the
-- first entry with the text key, and `false` where no entry has it. The values are any items of the
-- model, encoded with definite lengths, and the recursion may go as deep as they nest. The bytes
-- behind the map do not matter.
pub cd_map_tstr-encode :
    (es : Entries) (fuel : ℕ) (key bs junk : List ℕ)
    → depth_entries es ≤ fuel
    → TextKeys es
    → length (encode (map es) ++ bs) < size_mod
    → cd_map_tstr fuel ((encode (map es) ++ bs) ++ junk) (length (encode (map es) ++ bs)) key
      ≡ outcome (find_text key es) bs junk
unfolding cd_map_tstr
cd_map_tstr-encode es fuel key bs junk h w s =
    let (item, u) = map_head es bs junk s in rw item (tstr_loop es fuel key _ bs junk h w s u)
