-- ===== src/CtapHid.antt =====
-- The CTAPHID packets of components/fido2/fido2.c: how a message is cut into 64-byte packets
-- (`ctaphid_send_packet`) and how packets are put together (`ctaphid_process_packet`).
-- `x & (2^k - 1)` is written `x % 2^k`, and `x >> k` is `x / 2^k`.
pub mod Packets
pub mod Chunks
pub mod Reassembly
pub mod Invariant
pub mod Channel
mod Tests
use bluepass.Common.{
  ℕ, zero, suc, ◌+◌, ◌-◌, ◌*◌, ◌/◌, ◌%◌, ◌^◌, bit_and, bit_or, Bool, true, false, not, List, [],
  ◌∷◌, ◌++◌, ltb, leb, ◌==◌, ◌||◌, if◌then◌else◌, length, get_or, take, drop, replicate,
}

-- `pkt` is zeroed, and the bytes are stored at its front.
abbrev pub framed : List ℕ → List ℕ
framed bytes = bytes ++ replicate (64 - length bytes) 0

-- The channel id and the byte behind it, which every packet begins with.
abbrev pub cid_bytes : ℕ → ℕ → List ℕ → List ℕ
cid_bytes cid b rest =
    (cid / 2 ^ 24 % 256) ∷ (cid / 2 ^ 16 % 256) ∷ (cid / 2 ^ 8 % 256) ∷ (cid % 256) ∷ b ∷ rest

-- `while (sent < len)`. `sent` stays at most `len`, so the `uint16_t` does not wrap; each round
-- sends a byte at least, so `len` rounds are enough.
pub send_loop : ℕ → ℕ → ℕ → List ℕ → ℕ → ℕ → List (List ℕ)
send_loop zero cid seq data_ sent len = []
send_loop (suc fuel) cid seq data_ sent len =
    let left = len - sent in
    let chunk = if ltb left 59 then left else 59 in
    let pkt = framed (cid_bytes cid seq (take chunk (drop sent data_))) in
    let rest = send_loop fuel cid ((seq + 1) % 256) data_ (sent + chunk) len in
    if ltb sent len then pkt ∷ rest else []

-- The packets that go to `s_tx_cb`; none where no callback is registered.
pub ctaphid_send_packet : Bool → ℕ → ℕ → List ℕ → List (List ℕ)
ctaphid_send_packet registered cid cmd data_ =
    let len = length data_ in
    let first = if ltb len 57 then len else 57 in
    let pkt =
      framed
        (cid_bytes cid (bit_or 0x80 cmd) ((len / 2 ^ 8 % 256) ∷ (len % 256) ∷ take first data_)) in
    if registered then pkt ∷ send_loop len cid 0 data_ first len else []

abbrev pub ctaphid_buf_len : ℕ
ctaphid_buf_len = 2048

-- `ctaphid_state_t`
pub record CtaphidState : Type 0 where
  pub cid : ℕ
  pub cmd : ℕ
  pub total_len : ℕ
  pub recv_len : ℕ
  pub next_seq : ℕ
  pub buf : List ℕ
  pub active : Bool

-- What a packet makes the device do: `ctaphid_error(cid, code)`, or `ctaphid_dispatch` of a
-- message, which is the first `len` bytes of the buffer.
pub data Action : Type 0 where
  error_reply : ℕ → ℕ → Action
  dispatch : ℕ → ℕ → List ℕ → ℕ → Action

-- `memcpy(buf + off, bytes, n)`
pub patch : List ℕ → ℕ → List ℕ → List ℕ
patch buf off bytes = take off buf ++ (bytes ++ drop (off + length bytes) buf)

-- `if (s_hid.recv_len >= s_hid.total_len)`: the message is complete.
pub finish : ℕ → CtaphidState → CtaphidState × List Action
finish cmd h =
    if leb h.total_len h.recv_len
    then (record h { active = false }, dispatch h.cid cmd h.buf h.total_len ∷ [])
    else (h, [])

pub packet_cid : List ℕ → ℕ
packet_cid pkt =
    bit_or
      (bit_or (bit_or (get_or pkt 0 0 * 2 ^ 24) (get_or pkt 1 0 * 2 ^ 16)) (get_or pkt 2 0 * 2 ^ 8))
      (get_or pkt 3 0)

pub process_init : CtaphidState → ℕ → List ℕ → CtaphidState × List Action
process_init h cid pkt =
    let cmd = bit_and (get_or pkt 4 0) 0x7f in
    let total = bit_or (get_or pkt 5 0 * 2 ^ 8) (get_or pkt 6 0) in
    let chunk = if ltb total 57 then total else 57 in
    if ltb ctaphid_buf_len total
    then (record h { active = false }, error_reply cid 0x07 ∷ [])
    else finish cmd (record {
      cid = cid;
      cmd = cmd;
      total_len = total;
      recv_len = chunk;
      next_seq = 0;
      buf = patch h.buf 0 (take chunk (drop 7 pkt));
      active = true;
    })

-- `next_seq` is counted up before the comparison is acted on.
pub process_continuation : CtaphidState → ℕ → List ℕ → CtaphidState × List Action
process_continuation h cid pkt =
    let seq = bit_and (get_or pkt 4 0) 0x7f in
    let counted = record h { next_seq = (h.next_seq + 1) % 256 } in
    let remaining = h.total_len - h.recv_len in
    let chunk = if ltb remaining 59 then remaining else 59 in
    if not h.active || not (h.cid == cid)
    then (h, error_reply cid 0x05 ∷ [])
    else if seq == h.next_seq
    then finish h.cmd (record counted {
      buf = patch h.buf h.recv_len (take chunk (drop 5 pkt));
      recv_len = h.recv_len + chunk;
    })
    else (record counted { active = false }, error_reply cid 0x05 ∷ [])

pub ctaphid_process_packet : CtaphidState → List ℕ → CtaphidState × List Action
ctaphid_process_packet h pkt =
    let cid = packet_cid pkt in
    if bit_and (get_or pkt 4 0) 0x80 == 0
    then process_continuation h cid pkt
    else process_init h cid pkt

-- `fido2_task`: the packets of the queue, one after another.
pub fido2_task : CtaphidState → List (List ℕ) → CtaphidState × List Action
fido2_task h [] = (h, [])
fido2_task h (pkt ∷ pkts) =
    let (h', out) = ctaphid_process_packet h pkt in
    let (h'', out') = fido2_task h' pkts in (h'', out ++ out')
