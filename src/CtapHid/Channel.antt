-- ===== src/CtapHid/Channel.antt =====
-- The packets that `ctaphid_send_packet` makes are whole, and stay on the channel they are for.
use bluepass.Common.{
  ℕ, zero, suc, ◌+◌, ◌-◌, ◌/◌, ◌%◌, ◌^◌, ◌≤◌, ◌≡◌, ◌≢◌, refl, bit_or, Bool, true, false, List, [],
  ◌∷◌, All, ltb, if◌then◌else◌, length, take, drop, replicate, length-append, length-take,
  length-replicate, arith, if_split,
}
use bluepass.CtapHid.{framed, cid_bytes, send_loop, ctaphid_send_packet}

-- A packet of 64 bytes that begins with the channel id, its highest byte first.
abbrev pub IsOnChannel : ℕ → List ℕ → Type 0
IsOnChannel cid pkt =
    (length pkt ≡ 64)
    × (take 4 pkt
        ≡ (cid / 2 ^ 24 % 256) ∷ (cid / 2 ^ 16 % 256) ∷ (cid / 2 ^ 8 % 256) ∷ (cid % 256) ∷ [])

framed-IsOnChannel :
    (cid b : ℕ) (rest : List ℕ) → length rest ≤ 59 → IsOnChannel cid (framed (cid_bytes cid b rest))
framed-IsOnChannel cid b rest h =
    let bytes = cid_bytes cid b rest in
    (
      omega (
        arith,
        length-append bytes (replicate (64 - length bytes) 0),
        length-replicate {A = ℕ} (64 - length bytes) 0,
      ),
      refl,
    )

send_loop-IsOnChannel :
    (fuel cid seq : ℕ) (data_ : List ℕ) (sent len : ℕ)
    → All (IsOnChannel cid) (send_loop fuel cid seq data_ sent len)
unfolding send_loop
send_loop-IsOnChannel zero cid seq data_ sent len = tt
send_loop-IsOnChannel (suc fuel) cid seq data_ sent len =
    let left = len - sent in
    let chunk = if ltb left 59 then left else 59 in
    if_split (All (IsOnChannel cid)) (ltb sent len) _ _
      (λ t. (
        framed-IsOnChannel cid seq (take chunk (drop sent data_))
            (ground (arith, length-take chunk (drop sent data_))),
        send_loop-IsOnChannel fuel cid ((seq + 1) % 256) data_ (sent + chunk) len,
      ))
      (λ t. tt)

pub send_packet-IsOnChannel :
    (registered : Bool) (cid cmd : ℕ) (data_ : List ℕ)
    → All (IsOnChannel cid) (ctaphid_send_packet registered cid cmd data_)
unfolding ctaphid_send_packet
send_packet-IsOnChannel false cid cmd data_ = tt
send_packet-IsOnChannel true cid cmd data_ =
    let len = length data_ in
    let first = if ltb len 57 then len else 57 in
    (
      framed-IsOnChannel cid (bit_or 0x80 cmd)
          ((len / 2 ^ 8 % 256) ∷ (len % 256) ∷ take first data_)
          (ground (arith, length-take first data_)),
      send_loop-IsOnChannel len cid 0 data_ first len,
    )

-- There is a packet wherever a callback is registered.
pub send_packet-ne-nil :
    (cid cmd : ℕ) (data_ : List ℕ) → ctaphid_send_packet true cid cmd data_ ≢ []
unfolding ctaphid_send_packet
send_packet-ne-nil cid cmd data_ = λ e. cc
