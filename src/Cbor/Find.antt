-- ===== src/Cbor/Find.antt =====
-- `cd_map_uint` and `cd_map_tstr` find the value of a key in an encoded map.
use bluepass.Common.{
  ℕ, suc, ◌≤◌, ◌<◌, ◌^◌, Bool, false, ◌&&◌, List, ◌++◌, ◌≡◌, refl, ◌∙◌, some, none, Option, length,
  length-append, arith, if◌then◌else◌, ◌==◌, Bool-cases, inl, inr,
}
use bluepass.Cbor.{
  CborDec, CdItem, Lookup, found, absent, size_mod, cd_init, cd_item, cd_skip, cd_sub,
  cd_map_uint_loop, cd_map_uint,
}
use bluepass.Cbor.Heads.{head}
use bluepass.Cbor.Reading.{Unread, moved, Unread-moved, cd_item-head}
use bluepass.Cbor.Tree.{
  Cbor, uint, nint, bstr, tstr, arr, map, simple, Entries, end, entry, encode, encode_entries,
  count_entries, count_entries-le, IsWf, depth, depth_entries,
}
use bluepass.Cbor.Skip.{Unread-assoc, skip_tree}

pub cd_sub-Unread :
    (d : CborDec) (xs junk : List ℕ)
    → d.len < size_mod
    → Unread d xs junk
    → cd_sub d ≡ cd_init (xs ++ junk) (length xs)
unfolding cd_sub
cd_sub-Unread d xs junk h u = ground (arith, u.memory, u.extent)

-- The decoder at the value `v`, with the entries `es` and the bytes `bs` behind it.
abbrev pub at_value : Cbor → Entries → List ℕ → List ℕ → CborDec
at_value v es bs junk =
    let unread = encode v ++ (encode_entries es ++ bs) in cd_init (unread ++ junk) (length unread)

-- What a search gives, from what it should find: the value and the entries behind it.
abbrev pub outcome : Option (Cbor × Entries) → List ℕ → List ℕ → Lookup
outcome none bs junk = absent
outcome (some (v, es)) bs junk = found (at_value v es bs junk)

-- Keys that are a head and nothing else.
abbrev pub IntKey : Cbor → Type 0
IntKey (uint v) = v < 2 ^ 64
IntKey (nint m) = m < 2 ^ 64
IntKey (simple v) = v < 24
IntKey k = ⊥

abbrev pub IntKeys : Entries → Type 0
IntKeys end = Unit {0}
IntKeys (entry k v es) = IntKey k × IsWf v × IntKeys es

abbrev pub item_of : Cbor → CdItem
item_of (uint v) = record { major_type = 0; val = v }
item_of (nint m) = record { major_type = 1; val = m }
item_of (bstr b) = record { major_type = 2; val = length b }
item_of (tstr s) = record { major_type = 3; val = length s }
item_of (simple v) = record { major_type = 7; val = v }
item_of (arr xs) = record { major_type = 4; val = 0 }
item_of (map es) = record { major_type = 5; val = 0 }

-- The value of the first entry whose key is the number `key`, and the entries behind it.
abbrev pub is_uint : ℕ → Cbor → Bool
is_uint key (uint v) = v == key
is_uint key k = false

abbrev pub find_uint : ℕ → Entries → Option (Cbor × Entries)
find_uint key end = none
find_uint key (entry k v es) = if is_uint key k then some (v, es) else find_uint key es

pub IntKey-item :
    (k : Cbor) (d : CborDec) (bs junk : List ℕ)
    → IntKey k
    → Unread d (encode k ++ bs) junk
    → cd_item d ≡ (item_of k, moved d (length (encode k)))
unfolding encode
IntKey-item (uint v) d bs junk h u = cd_item-head 0 v d bs junk (omega arith) h u
IntKey-item (nint m) d bs junk h u = cd_item-head 1 m d bs junk (omega arith) h u
IntKey-item (simple v) d bs junk h u = cd_item-head 7 v d bs junk (omega arith) (omega arith) u
IntKey-item (bstr b) d bs junk h u = absurd h
IntKey-item (tstr b) d bs junk h u = absurd h
IntKey-item (arr b) d bs junk h u = absurd h
IntKey-item (map b) d bs junk h u = absurd h

uint_test :
    (key : ℕ) (k : Cbor)
    → IntKey k
    → ((item_of k).major_type == 0) && ((item_of k).val == key) ≡ is_uint key k
uint_test key (uint v) h = refl
uint_test key (nint m) h = refl
uint_test key (simple v) h = refl
uint_test key (bstr b) h = absurd h
uint_test key (tstr b) h = absurd h
uint_test key (arr b) h = absurd h
uint_test key (map b) h = absurd h

uint_loop_step :
    (fuel key n : ℕ) (d d1 d2 : CborDec) (it : CdItem)
    → d.err ≡ false
    → cd_item d ≡ (it, d1)
    → d1.err ≡ false
    → cd_skip fuel d1 ≡ some d2
    → cd_map_uint_loop fuel key (suc n) d ≡ (
        if (it.major_type == 0) && (it.val == key)
        then found (cd_sub d1)
        else cd_map_uint_loop fuel key n d2)
unfolding cd_map_uint_loop
uint_loop_step fuel key n d d1 d2 it clean item clean1 skip = rw (item, skip, clean, clean1) refl

uint_loop :
    (es : Entries) (fuel key : ℕ) (d : CborDec) (bs junk : List ℕ)
    → depth_entries es ≤ fuel
    → IntKeys es
    → d.len < size_mod
    → Unread d (encode_entries es ++ bs) junk
    → cd_map_uint_loop fuel key (count_entries es) d ≡ outcome (find_uint key es) bs junk
unfolding encode depth
uint_loop end fuel key d bs junk h w s u = unfold cd_map_uint_loop in refl
uint_loop (entry k v es) fuel key d bs junk h w s u =
    let tail = encode_entries es in
    let u1 = Unread-assoc d (encode k) (encode v ++ tail) bs junk u in
    let d1 = moved d (length (encode k)) in
    let u2 =
      Unread-moved d (length (encode k)) (encode k) ((encode v ++ tail) ++ bs) junk refl u1 in
    let u3 = Unread-assoc d1 (encode v) tail bs junk u2 in
    let d2 = moved d1 (length (encode v)) in
    let u4 = Unread-moved d1 (length (encode v)) (encode v) (tail ++ bs) junk refl u3 in
    uint_loop_step fuel key (count_entries es) d d1 d2 (item_of k) u.clean
      (IntKey-item k d ((encode v ++ tail) ++ bs) junk w.0 u1) u.clean
      (skip_tree v fuel d1 (tail ++ bs) junk (omega arith) w.1 s u3)
    ∙ rw (uint_test key k w.0, cd_sub-Unread d1 (encode v ++ (tail ++ bs)) junk s u3)
        (elim (Bool-cases (is_uint key k)) [
          | inl hit ↦ rw hit refl
          | inr miss ↦ rw miss (uint_loop es fuel key d2 bs junk (omega arith) w.2 s u4)
        ])

pub map_head :
    (es : Entries) (bs junk : List ℕ)
    → length (encode (map es) ++ bs) < size_mod
    → let len = length (encode (map es) ++ bs) in
      let d = cd_init ((encode (map es) ++ bs) ++ junk) len in
      let hd = length (head 5 (count_entries es)) in
      (cd_item d ≡ (record { major_type = 5; val = count_entries es }, moved d hd))
      × Unread (moved d hd) (encode_entries es ++ bs) junk
unfolding encode
map_head es bs junk s =
    let hd = head 5 (count_entries es) in
    let d = cd_init ((encode (map es) ++ bs) ++ junk) (length (encode (map es) ++ bs)) in
    let u : Unread d ((hd ++ encode_entries es) ++ bs) junk = record {
      memory = refl;
      extent = omega arith;
      clean = refl;
    } in
    let u1 = Unread-assoc d hd (encode_entries es) bs junk u in
    let small : count_entries es < 2 ^ 64 = omega (
      arith,
      count_entries-le es,
      length-append (hd ++ encode_entries es) bs,
      length-append hd (encode_entries es),
    ) in
    (
      cd_item-head 5 (count_entries es) d (encode_entries es ++ bs) junk (omega arith) small u1,
      Unread-moved d (length hd) hd (encode_entries es ++ bs) junk refl u1,
    )

-- In the encoding of a map whose keys are all unsigned or negative integers or simple values below
-- 24 (`cd_map_uint` goes out of step behind a key that is a string, an array or a map), in a
-- message shorter than 2^32 bytes, `cd_map_uint` gives the decoder at the value of the first entry
-- whose key is the unsigned number it looks for, and `false` where no entry has it. The values are
-- any items of the model, encoded with definite lengths, and the recursion may go as deep as they
-- nest. The bytes behind the map do not matter.
pub cd_map_uint-encode :
    (es : Entries) (fuel key : ℕ) (bs junk : List ℕ)
    → depth_entries es ≤ fuel
    → IntKeys es
    → length (encode (map es) ++ bs) < size_mod
    → cd_map_uint fuel ((encode (map es) ++ bs) ++ junk) (length (encode (map es) ++ bs)) key
      ≡ outcome (find_uint key es) bs junk
unfolding cd_map_uint
cd_map_uint-encode es fuel key bs junk h w s =
    let (item, u) = map_head es bs junk s in rw item (uint_loop es fuel key _ bs junk h w s u)
