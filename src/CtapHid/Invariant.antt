-- ===== src/CtapHid/Invariant.antt =====
-- What holds of the receiver after any packet.
use bluepass.Common.{
  ℕ, ◌+◌, ◌-◌, ◌*◌, ◌^◌, ◌≤◌, ◌≡◌, refl, bit_and, bit_or, not, ◌||◌, inl, inr, List, All, length,
  take, drop, length-take, arith, ltb, leb, ◌==◌, if◌then◌else◌, get_or, Bool-cases,
}
use bluepass.CtapHid.{
  CtaphidState, Action, dispatch, error_reply, patch, finish, packet_cid, process_init,
  process_continuation, ctaphid_process_packet, ctaphid_buf_len,
}
use bluepass.CtapHid.Packets.{length-patch}

-- The buffer keeps its size, and the message fits into it.
pub record IsValid (h : CtaphidState) : Type 0 where
  pub size : length h.buf ≡ ctaphid_buf_len
  pub fits : h.total_len ≤ ctaphid_buf_len
  pub within : h.recv_len ≤ h.total_len

-- A dispatched message lies inside the buffer and belongs to the channel `cid`.
abbrev pub IsSafe : ℕ → Action → Type 0
IsSafe cid (error_reply to code) = to ≡ cid
IsSafe cid (dispatch to cmd buf len) = (to ≡ cid) × (len ≤ length buf)

finish-IsValid :
    (cid cmd : ℕ) (h : CtaphidState)
    → h.cid ≡ cid
    → IsValid h
    → IsValid (finish cmd h).0 × All (IsSafe cid) (finish cmd h).1
unfolding finish
finish-IsValid cid cmd h e v = elim (Bool-cases (leb h.total_len h.recv_len)) [
  | inl t ↦ rw t (
    record { size = v.size; fits = v.fits; within = v.within },
    ((e, omega (arith, v.size, v.fits)), tt),
  )
  | inr t ↦ rw t (v, tt)
]

copied :
    (buf : List ℕ) (off n : ℕ) (bytes : List ℕ)
    → length buf ≡ ctaphid_buf_len
    → off + n ≤ ctaphid_buf_len
    → length (patch buf off (take n bytes)) ≡ ctaphid_buf_len
copied buf off n bytes size fits =
    omega (arith, length-patch buf off (take n bytes) (omega (arith, length-take n bytes)))

init-IsValid :
    (h : CtaphidState) (cid : ℕ) (pkt : List ℕ)
    → IsValid h
    → IsValid (process_init h cid pkt).0 × All (IsSafe cid) (process_init h cid pkt).1
unfolding process_init
init-IsValid h cid pkt v =
    let total = bit_or (get_or pkt 5 0 * 2 ^ 8) (get_or pkt 6 0) in
    let chunk = if ltb total 57 then total else 57 in
    let small : chunk ≤ total = ground arith in
    elim (Bool-cases (ltb ctaphid_buf_len total)) [
      | inl t ↦ rw t (record { size = v.size; fits = v.fits; within = v.within }, (refl, tt))
      | inr t ↦
          let fits : total ≤ ctaphid_buf_len = ground arith in
          rw t (
            finish-IsValid cid _ _ refl (record {
              size = copied h.buf 0 chunk (drop 7 pkt) v.size (omega arith);
              fits = fits;
              within = small;
            }))
    ]

continuation-IsValid :
    (h : CtaphidState) (cid : ℕ) (pkt : List ℕ)
    → IsValid h
    → IsValid (process_continuation h cid pkt).0
      × All (IsSafe cid) (process_continuation h cid pkt).1
unfolding process_continuation
continuation-IsValid h cid pkt v =
    let left = h.total_len - h.recv_len in
    let chunk = if ltb left 59 then left else 59 in
    let small : chunk ≤ left = ground arith in
    elim (Bool-cases (not h.active || not (h.cid == cid))) [
      | inl t ↦ rw t (v, (refl, tt))
      | inr t ↦
          let same : h.cid ≡ cid = ground arith in
          elim (Bool-cases (bit_and (get_or pkt 4 0) 0x7f == h.next_seq)) [
            | inl s ↦
                rw (t, s)
                  (finish-IsValid cid _ _ same (record {
                    size =
                        copied h.buf h.recv_len chunk (drop 5 pkt) v.size
                          (omega (arith, v.fits, v.within));
                    fits = v.fits;
                    within = omega (arith, v.within);
                  }))
            | inr s ↦
                rw (t, s) (record { size = v.size; fits = v.fits; within = v.within }, (refl, tt))
          ]
    ]

process-IsValid :
    (h : CtaphidState) (pkt : List ℕ)
    → IsValid h
    → IsValid (ctaphid_process_packet h pkt).0
      × All (IsSafe (packet_cid pkt)) (ctaphid_process_packet h pkt).1
unfolding ctaphid_process_packet
process-IsValid h pkt v = elim (Bool-cases (bit_and (get_or pkt 4 0) 0x80 == 0)) [
  | inl t ↦ rw t (continuation-IsValid h (packet_cid pkt) pkt v)
  | inr t ↦ rw t (init-IsValid h (packet_cid pkt) pkt v)
]

-- Each packet keeps the invariant: the buffer keeps its 2048 bytes, and what is received and what
-- is announced lies inside it. Whatever the packet holds, each reply and each dispatched message
-- is for the packet's own channel, and a dispatched message lies inside the buffer.
pub process_packet-IsValid :
    (h : CtaphidState) (pkt : List ℕ)
    → IsValid h
    → IsValid (ctaphid_process_packet h pkt).0
      × All (IsSafe (packet_cid pkt)) (ctaphid_process_packet h pkt).1
process_packet-IsValid h pkt v = process-IsValid h pkt v
