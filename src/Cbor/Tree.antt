-- ===== src/Cbor/Tree.antt =====
-- CBOR data items as trees, and their encoding by RFC 8949: the independent description that the
-- decoder and the encoder of fido2.c are compared with.
use bluepass.Common.{ℕ, suc, ◌+◌, ◌≤◌, ◌<◌, ◌^◌, List, [], ◌++◌, length, length-append, arith, max}
use bluepass.Cbor.Heads.{head, length-head}

-- `simple` is major type 7 in one byte: false is 20, true is 21.
mutual
  pub data Cbor : Type 0 where
    uint : ℕ → Cbor
    nint : ℕ → Cbor
    bstr : List ℕ → Cbor
    tstr : List ℕ → Cbor
    arr : Items → Cbor
    map : Entries → Cbor
    simple : ℕ → Cbor

  pub data Items : Type 0 where
    nil : Items
    cons : Cbor → Items → Items

  pub data Entries : Type 0 where
    end : Entries
    entry : Cbor → Cbor → Entries → Entries

abbrev pub count_items : Items → ℕ
count_items nil = 0
count_items (cons x xs) = suc (count_items xs)

abbrev pub count_entries : Entries → ℕ
count_entries end = 0
count_entries (entry k v es) = suc (count_entries es)

unfoldable mutual
  pub encode : Cbor → List ℕ
  encode (uint v) = head 0 v
  encode (nint m) = head 1 m
  encode (bstr b) = head 2 (length b) ++ b
  encode (tstr s) = head 3 (length s) ++ s
  encode (arr xs) = head 4 (count_items xs) ++ encode_items xs
  encode (map es) = head 5 (count_entries es) ++ encode_entries es
  encode (simple v) = head 7 v

  pub encode_items : Items → List ℕ
  encode_items nil = []
  encode_items (cons x xs) = encode x ++ encode_items xs

  pub encode_entries : Entries → List ℕ
  encode_entries end = []
  encode_entries (entry k v es) = encode k ++ (encode v ++ encode_entries es)

-- Numbers are those that an argument of eight bytes can hold.
unfoldable mutual
  pub IsWf : Cbor → Type 0
  IsWf (uint v) = v < 2 ^ 64
  IsWf (nint m) = m < 2 ^ 64
  IsWf (bstr b) = Unit {0}
  IsWf (tstr s) = Unit {0}
  IsWf (arr xs) = AreWf xs
  IsWf (map es) = EntriesAreWf es
  IsWf (simple v) = v < 24

  pub AreWf : Items → Type 0
  AreWf nil = Unit {0}
  AreWf (cons x xs) = IsWf x × AreWf xs

  pub EntriesAreWf : Entries → Type 0
  EntriesAreWf end = Unit {0}
  EntriesAreWf (entry k v es) = IsWf k × IsWf v × EntriesAreWf es

-- How deep arrays and maps nest.
unfoldable mutual
  pub depth : Cbor → ℕ
  depth (uint v) = 1
  depth (nint m) = 1
  depth (bstr b) = 1
  depth (tstr s) = 1
  depth (arr xs) = suc (depth_items xs)
  depth (map es) = suc (depth_entries es)
  depth (simple v) = 1

  pub depth_items : Items → ℕ
  depth_items nil = 0
  depth_items (cons x xs) = max (depth x) (depth_items xs)

  pub depth_entries : Entries → ℕ
  depth_entries end = 0
  depth_entries (entry k v es) = max (depth k) (max (depth v) (depth_entries es))

before_any : (mt v : ℕ) (bs : List ℕ) → 0 < length (head mt v ++ bs)
before_any mt v bs = omega (arith, length-head mt v, length-append (head mt v) bs)

pub length-encode_pos : (x : Cbor) → 0 < length (encode x)
unfolding encode
length-encode_pos (uint v) = length-head 0 v
length-encode_pos (nint m) = length-head 1 m
length-encode_pos (bstr b) = before_any 2 (length b) b
length-encode_pos (tstr s) = before_any 3 (length s) s
length-encode_pos (arr xs) = before_any 4 (count_items xs) (encode_items xs)
length-encode_pos (map es) = before_any 5 (count_entries es) (encode_entries es)
length-encode_pos (simple v) = length-head 7 v

pub count_items-le : (xs : Items) → count_items xs ≤ length (encode_items xs)
unfolding encode
count_items-le nil = omega arith
count_items-le (cons x xs) =
    omega
      (arith, count_items-le xs, length-encode_pos x, length-append (encode x) (encode_items xs))

pub count_entries-le :
    (es : Entries) → count_entries es + count_entries es ≤ length (encode_entries es)
unfolding encode
count_entries-le end = omega arith
count_entries-le (entry k v es) = omega (
  arith,
  count_entries-le es,
  length-encode_pos k,
  length-encode_pos v,
  length-append (encode k) (encode v ++ encode_entries es),
  length-append (encode v) (encode_entries es),
)
