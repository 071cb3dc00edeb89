-- ===== src/CtapHid/Packets.antt =====
-- The fields of a packet, as the receiver reads them.
use bluepass.Common.{
  ℕ, ◌+◌, ◌*◌, ◌/◌, ◌%◌, ◌^◌, ◌≤◌, ◌<◌, ◌≡◌, refl, ◌∙◌, bit_or, List, ◌++◌, length, take, drop,
  take-append, drop-append, drop_add, arith, bit_or_shift, length-append, length-take, length-drop,
}
use bluepass.CtapHid.{cid_bytes, packet_cid, patch}

-- Four bytes, put together by shifts and `|`, are the number.
pub packet_cid-cid_bytes :
    (cid b : ℕ) (rest : List ℕ) → cid < 2 ^ 32 → packet_cid (cid_bytes cid b rest) ≡ cid
unfolding packet_cid
packet_cid-cid_bytes cid b rest h =
    let b0 = cid / 2 ^ 24 % 256 in
    let b1 = cid / 2 ^ 16 % 256 in
    let b2 = cid / 2 ^ 8 % 256 in
    let s1 : bit_or (b0 * 2 ^ 24) (b1 * 2 ^ 16) ≡ (cid / 2 ^ 16) * 2 ^ 16 =
      bit_or_shift 24 b0 (b1 * 2 ^ 16) (omega arith) ∙ omega arith in
    let s2 : bit_or (cid / 2 ^ 16 * 2 ^ 16) (b2 * 2 ^ 8) ≡ (cid / 2 ^ 8) * 2 ^ 8 =
      bit_or_shift 16 (cid / 2 ^ 16) (b2 * 2 ^ 8) (omega arith) ∙ omega arith in
    rw (s1, s2) (bit_or_shift 8 (cid / 2 ^ 8) (cid % 256) (omega arith) ∙ omega arith)

-- Writing `c` behind `done` leaves what was before and what comes after.
pub patch-append :
    (done c tail : List ℕ)
    → patch (done ++ tail) (length done) c ≡ done ++ (c ++ drop (length c) tail)
unfolding patch
patch-append done c tail =
    rw
      (
        take-append done tail,
        drop_add (length done) (length c) (done ++ tail),
        drop-append done tail,
      )
      refl

pub length-patch :
    (buf : List ℕ) (off : ℕ) (bytes : List ℕ)
    → off + length bytes ≤ length buf
    → length (patch buf off bytes) ≡ length buf
unfolding patch
length-patch buf off bytes h = omega (
  arith,
  length-append (take off buf) (bytes ++ drop (off + length bytes) buf),
  length-append bytes (drop (off + length bytes) buf),
  length-take off buf,
  length-drop (off + length bytes) buf,
)
