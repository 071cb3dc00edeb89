-- ===== src/Cose.antt =====
-- The COSE keys in components/fido2/fido2.c: those that `cmd_client_pin` sends and reads, and the one
-- that a new credential is reported with.
use bluepass.Common.{
  ℕ, zero, suc, Option, none, some, List, ◌==◌, ◌&&◌, if◌then◌else◌, take, replicate,
}
use bluepass.Cbor.{
  CborDec, CborEnc, cd_init, cd_item, cd_skip, cd_bstr, ce_map, ce_uint, ce_nint, ce_bstr,
}

-- The loop over the COSE key: the values of the keys -2 and -3. `none` is a `cd_skip` too deep.
unfoldable pub peer_loop : ℕ → ℕ → CborDec → List ℕ → List ℕ → Option (List ℕ × List ℕ)
peer_loop fuel zero d x y = some (x, y)
peer_loop fuel (suc n) d x y =
    let (k, d1) = cd_item d in
    let (str, d2) = cd_bstr d1 in
    let skipped : Option (List ℕ × List ℕ) = elim (cd_skip fuel d2) [
      | none ↦ none
      | some e ↦ peer_loop fuel n e x y
    ] in
    let other : Option (List ℕ × List ℕ) = elim (cd_skip fuel d1) [
      | none ↦ none
      | some e ↦ peer_loop fuel n e x y
    ] in
    let is_x : Option (List ℕ × List ℕ) = elim str [
      | none ↦ skipped
      | some (p, l) ↦
          let done = peer_loop fuel n d2 (take 32 p) y in if l == 32 then done else skipped
    ] in
    let is_y : Option (List ℕ × List ℕ) = elim str [
      | none ↦ skipped
      | some (p, l) ↦
          let done = peer_loop fuel n d2 x (take 32 p) in if l == 32 then done else skipped
    ] in
    if d.err
    then some (x, y)
    else if d1.err
    then some (x, y)
    else if (k.major_type == 1) && (k.val == 1)
    then is_x
    else if (k.major_type == 1) && (k.val == 2)
    then is_y
    else other

unfoldable pub peer_point : ℕ → CborDec → Option (List ℕ × List ℕ)
peer_point fuel v =
    let zeros = replicate 32 0 in
    let (m, d) = cd_item (cd_init v.buf v.len) in
    if d.err
    then some (zeros, zeros)
    else if m.major_type == 5
    then peer_loop fuel m.val d zeros zeros
    else some (zeros, zeros)

-- `ce_cose_ecdh_key`
pub ce_cose_ecdh_key : CborEnc → List ℕ → List ℕ → CborEnc
ce_cose_ecdh_key e x y =
    let kty = ce_uint (ce_uint (ce_map e 5) 1) 2 in
    let alg = ce_nint (ce_uint kty 3) 24 in
    let crv = ce_uint (ce_nint alg 0) 1 in ce_bstr (ce_nint (ce_bstr (ce_nint crv 1) x) 2) y

-- `ce_cose_key`: the key of a credential, which signs.
pub ce_cose_key : CborEnc → List ℕ → List ℕ → CborEnc
ce_cose_key e x y =
    let kty = ce_uint (ce_uint (ce_map e 5) 1) 2 in
    let alg = ce_nint (ce_uint kty 3) 6 in
    let crv = ce_uint (ce_nint alg 0) 1 in ce_bstr (ce_nint (ce_bstr (ce_nint crv 1) x) 2) y
