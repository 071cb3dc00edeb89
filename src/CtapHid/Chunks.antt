-- ===== src/CtapHid/Chunks.antt =====
-- One chunk of a message: how the sender's loop cuts it off, and what it does to the receiver.
use bluepass.Common.{
  ℕ, zero, suc, ◌+◌, ◌-◌, ◌%◌, ◌^◌, ◌≤◌, ◌<◌, ◌≡◌, refl, sym, ap, ◌∙◌, true, false, List, [], ◌∷◌,
  ◌++◌, append_assoc, length, take, drop, take-append, drop-append, arith, ltb, if◌then◌else◌,
  length-append, bit_and_7f, bit_and_80, lt→ltb, replicate,
}
use bluepass.CtapHid.{
  framed, cid_bytes, send_loop, CtaphidState, Action, dispatch, patch, finish, process_continuation,
  ctaphid_process_packet, fido2_task,
}
use bluepass.CtapHid.Packets.{packet_cid-cid_bytes, patch-append}

-- A message of which `done` has arrived, `todo` is on its way, and `tail` is the buffer behind.
pub record Receiving (h : CtaphidState) (cid cmd seq : ℕ) (done todo tail : List ℕ) : Type 0 where
  pub active : h.active ≡ true
  pub from : h.cid ≡ cid
  pub command : h.cmd ≡ cmd
  pub total : h.total_len ≡ length done + length todo
  pub received : h.recv_len ≡ length done
  pub next : h.next_seq ≡ seq
  pub stored : h.buf ≡ done ++ tail

abbrev pub chunk_len : ℕ → ℕ
chunk_len left = if ltb left 59 then left else 59

pub receive :
    (h : CtaphidState) (cid seq : ℕ) (c : List ℕ)
    → h.active ≡ true
    → h.cid ≡ cid
    → h.next_seq ≡ seq
    → cid < 2 ^ 32
    → seq < 128
    → chunk_len (h.total_len - h.recv_len) ≡ length c
    → ctaphid_process_packet h (framed (cid_bytes cid seq c))
      ≡ finish h.cmd (record h {
        next_seq = (h.next_seq + 1) % 256;
        buf = patch h.buf h.recv_len c;
        recv_len = h.recv_len + length c;
      })
unfolding ctaphid_process_packet process_continuation
receive h cid seq c on same next hc hs len =
    let pad = replicate (64 - length (cid_bytes cid seq c)) 0 in
    let e1 = packet_cid-cid_bytes cid seq (c ++ pad) hc in
    let e2 : take (chunk_len (h.total_len - h.recv_len)) (c ++ pad) ≡ c =
      ap (λ n. take n (c ++ pad)) len ∙ take-append c pad in
    ground (arith, e1, e2, bit_and_80 seq, bit_and_7f seq)

pub send_loop_done :
    (fuel cid seq : ℕ) (data_ : List ℕ) (sent len : ℕ)
    → len ≤ sent
    → send_loop fuel cid seq data_ sent len ≡ []
unfolding send_loop
send_loop_done zero cid seq data_ sent len h = refl
send_loop_done (suc f) cid seq data_ sent len h = ground arith

pub send_loop_step :
    (f cid seq : ℕ) (done todo : List ℕ)
    → 0 < length todo
    → let c = take (chunk_len (length todo)) todo in
      send_loop (suc f) cid seq (done ++ todo) (length done) (length (done ++ todo))
      ≡ framed (cid_bytes cid seq c)
        ∷ send_loop f cid
            ((seq + 1) % 256)
            (done ++ todo)
            (length done + chunk_len (length todo))
            (length (done ++ todo))
unfolding send_loop
send_loop_step f cid seq done todo h =
    let left : length (done ++ todo) - length done ≡ length todo =
      omega (arith, length-append done todo) in
    rw
      (
        left,
        drop-append done todo,
        lt→ltb (length done) (length (done ++ todo)) (omega (arith, length-append done todo)),
      )
      refl

-- The state once the chunk `c` has been stored.
abbrev pub stored_chunk : CtaphidState → List ℕ → CtaphidState
stored_chunk h c = record h {
  next_seq = (h.next_seq + 1) % 256;
  buf = patch h.buf h.recv_len c;
  recv_len = h.recv_len + length c;
}

pub stored_chunk-Receiving :
    (h : CtaphidState) (cid cmd seq : ℕ) (done c rest tail : List ℕ)
    → seq < 128
    → Receiving h cid cmd seq done (c ++ rest) tail
    → Receiving (stored_chunk h c) cid cmd (seq + 1) (done ++ c) rest (drop (length c) tail)
stored_chunk-Receiving h cid cmd seq done c rest tail hs r = record {
  active = r.active;
  from = r.from;
  command = r.command;
  total = omega (arith, r.total, length-append c rest, length-append done c);
  received = omega (arith, r.received, length-append done c);
  next = omega (arith, r.next);
  stored = rw (r.stored, r.received) (patch-append done c tail ∙ sym (append_assoc done c _));
}

pub finish_complete :
    (h : CtaphidState) (cmd : ℕ)
    → h.total_len ≤ h.recv_len
    → finish cmd h ≡ (record h { active = false }, dispatch h.cid cmd h.buf h.total_len ∷ [])
unfolding finish
finish_complete h cmd le = ground arith

pub finish_waiting :
    (h : CtaphidState) (cmd : ℕ) → h.recv_len < h.total_len → finish cmd h ≡ (h, [])
unfolding finish
finish_waiting h cmd lt = ground arith

-- What the whole message makes the device do.
pub record Delivered (out : CtaphidState × List Action) (cid cmd : ℕ) (message tail : List ℕ)
    : Type 0 where
  pub acted : out.1 ≡ dispatch cid cmd (message ++ tail) (length message) ∷ []
  pub idle : out.0.active ≡ false

pub Delivered-last :
    (h : CtaphidState) (pkt : List ℕ) (cid cmd seq : ℕ) (done tail : List ℕ)
    → Receiving h cid cmd seq done [] tail
    → (h0 : CtaphidState) → ctaphid_process_packet h0 pkt ≡ finish cmd h
    → Delivered (fido2_task h0 (pkt ∷ [])) cid cmd done tail
unfolding fido2_task
Delivered-last h pkt cid cmd seq done tail r h0 e =
    ground (arith, e, finish_complete h cmd, r.from, r.stored, r.total, r.received)

pub Delivered-more :
    (h : CtaphidState) (pkt : List ℕ) (pkts : List (List ℕ)) (cid cmd : ℕ) (message tail : List ℕ)
    → h.recv_len < h.total_len
    → Delivered (fido2_task h pkts) cid cmd message tail
    → (h0 : CtaphidState) → ctaphid_process_packet h0 pkt ≡ finish cmd h
    → Delivered (fido2_task h0 (pkt ∷ pkts)) cid cmd message tail
unfolding fido2_task
Delivered-more h pkt pkts cid cmd message tail lt r h0 e =
    ground (arith, e, finish_waiting h cmd, r.acted, r.idle)
