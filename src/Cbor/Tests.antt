-- ===== src/Cbor/Tests.antt =====
-- Runs of the CBOR routines on small messages, and the theorems at them.
use bluepass.Common.{false, [], ◌∷◌, ◌++◌, ◌≡◌, refl, some, none, length, arith, bytes_eq, ◌<◌}
use bluepass.Cbor.{CborDec, CborEnc, cd_init, cd_skip, cd_bstr, cd_map_uint, cd_map_tstr, found}
use bluepass.Cbor.Heads.{head}
use bluepass.Cbor.Tree.{uint, tstr, bstr, map, Entries, end, entry, encode, IsWf, depth, simple}
use bluepass.Cbor.Skip.{cd_skip-encode}
use bluepass.Cbor.Find.{cd_map_uint-encode}
use bluepass.Cbor.FindText.{cd_map_tstr-encode}
use bluepass.Cbor.Strings.{cd_bstr_overread, trap, cd_skip_diverges}

-- {1: h'0102', 2: {"id": "a"}, 7: {"rk": true}}
abbrev request : Entries
request = entry (uint 1) (bstr (1 ∷ 2 ∷ [])) (
    entry (uint 2) (map (entry (tstr (105 ∷ 100 ∷ [])) (tstr (97 ∷ [])) end))
      (entry (uint 7) (map (entry (tstr (114 ∷ 107 ∷ [])) (simple 21) end)) end))

request_bytes :
    encode (map request)
    ≡ 0xa3 ∷ 1 ∷ 0x42 ∷ 1 ∷ 2 ∷ 2 ∷ 0xa1 ∷ 0x62 ∷ 105 ∷ 100 ∷ 0x61 ∷ 97 ∷ 7 ∷ 0xa1 ∷ 0x62 ∷ 114
      ∷ 107 ∷ 0xf5 ∷ []
unfolding encode head
request_bytes = refl

head_widths :
    head 0 1000 ++ (head 2 70000 ++ head 1 6) ≡ 0x19 ∷ 3 ∷ 232 ∷ 0x5a ∷ 0 ∷ 1 ∷ 17 ∷ 112 ∷ 0x26 ∷ []
unfolding head
head_widths = refl

cd_skip-encode_example :
    let bytes = encode (map request) in
    cd_skip 3 (cd_init ((bytes ++ []) ++ []) (length (bytes ++ [])))
    ≡ some (record (cd_init ((bytes ++ []) ++ []) (length (bytes ++ []))) { pos = 18 })
unfolding IsWf depth encode head
cd_skip-encode_example =
    cd_skip-encode (map request) 3 [] [] (omega arith) (omega arith) (omega arith)

cd_map_uint-encode_example :
    cd_map_uint 3 ((encode (map request) ++ []) ++ []) (length (encode (map request) ++ [])) 7
    ≡ found (cd_init (0xa1 ∷ 0x62 ∷ 114 ∷ 107 ∷ 0xf5 ∷ []) 5)
unfolding IsWf depth encode head
cd_map_uint-encode_example =
    cd_map_uint-encode request 3 7 [] [] (omega arith) (omega arith) (omega arith)

abbrev options : Entries
options = entry (tstr (114 ∷ 107 ∷ [])) (simple 21) end

cd_map_tstr-encode_example :
    cd_map_tstr 3
      ((encode (map options) ++ []) ++ [])
      (length (encode (map options) ++ []))
      (114 ∷ 107 ∷ [])
    ≡ found (cd_init (0xf5 ∷ []) 1)
unfolding IsWf depth encode head bytes_eq
cd_map_tstr-encode_example =
    cd_map_tstr-encode options 3 (114 ∷ 107 ∷ []) [] [] (omega arith) (omega arith) (omega arith)

abbrev enc : CborEnc
enc = record { buf = []; cap = 16; err = false }

-- h'0708' cut after its first byte
abbrev cut : CborDec
cut = cd_init (0x42 ∷ 7 ∷ 99 ∷ []) 2

-- a byte string of 2^32 - 1 bytes announced in a message of six
abbrev long : CborDec
long = cd_init (0x5a ∷ 0xff ∷ 0xff ∷ 0xff ∷ 0xff ∷ 7 ∷ []) 6

cd_bstr_overread_example :
    ((cd_bstr long).0 ≡ some (7 ∷ [], 0xffff_ffff))
    × (1 < 0xffff_ffff)
    × ((cd_bstr long).1.err ≡ false)
unfolding head
cd_bstr_overread_example =
    cd_bstr_overread 0xffff_ffff long (7 ∷ []) [] (omega arith) (omega arith)
      (record { memory = refl; extent = refl; clean = refl }) (omega arith)

cd_skip_diverges_example : cd_skip 1000 (cd_init trap 6) ≡ none
cd_skip_diverges_example =
    cd_skip_diverges 1000 (cd_init trap 6) [] [] (omega arith)
      (record { memory = refl; extent = refl; clean = refl })
