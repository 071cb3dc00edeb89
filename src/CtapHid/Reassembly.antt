-- ===== src/CtapHid/Reassembly.antt =====
-- What `ctaphid_send_packet` cuts up `ctaphid_process_packet` puts together again.
use bluepass.Common.{
  ℕ, zero, suc, ◌+◌, ◌-◌, ◌*◌, ◌/◌, ◌%◌, ◌^◌, ◌≤◌, ◌<◌, ◌≡◌, refl, sym, ap, ◌∙◌, bit_and, bit_or,
  true, false, inl, inr, List, [], ◌∷◌, ◌++◌, append_assoc, length, take, drop, take-append, arith,
  ltb, if◌then◌else◌, length-append, length-take, length-drop, take-append-drop, bit_and_7f,
  bit_and_80, bit_or_80, bit_or_shift, Bool-cases, replicate, append-nil, drop_add, ◌⊎◌,
}
use bluepass.CtapHid.{
  framed, cid_bytes, send_loop, ctaphid_send_packet, CtaphidState, dispatch, finish, process_init,
  ctaphid_process_packet, fido2_task, ctaphid_buf_len,
}
use bluepass.CtapHid.Packets.{packet_cid-cid_bytes, patch-append}
use bluepass.CtapHid.Chunks.{
  Receiving, chunk_len, receive, send_loop_done, send_loop_step, stored_chunk,
  stored_chunk-Receiving, Delivered, Delivered-last, Delivered-more,
}

-- After a chunk the rest of the loop goes on, or nothing is left.
deliver_rest :
    (f : ℕ) (h0 h1 : CtaphidState) (pkt : List ℕ) (cid cmd seq : ℕ) (done rest tail : List ℕ)
    → Receiving h1 cid cmd seq done rest tail
    → ctaphid_process_packet h0 pkt ≡ finish cmd h1
    → (0 < length rest
        → Delivered
            (fido2_task h1
              (send_loop f cid seq (done ++ rest) (length done) (length (done ++ rest))))
            cid
            cmd
            (done ++ rest)
            (drop (length rest) tail))
    → Delivered
        (fido2_task h0
          (pkt ∷ send_loop f cid seq (done ++ rest) (length done) (length (done ++ rest))))
        cid
        cmd
        (done ++ rest)
        (drop (length rest) tail)
deliver_rest f h0 h1 pkt cid cmd seq done [] tail r e more =
    rw (append-nil done, send_loop_done f cid seq done (length done) (length done) (omega arith))
      (Delivered-last h1 pkt cid cmd seq done tail r h0 e)
deliver_rest f h0 h1 pkt cid cmd seq done (x ∷ xs) tail r e more =
    Delivered-more h1 pkt _ cid cmd (done ++ x ∷ xs) (drop (length (x ∷ xs)) tail)
      (omega (arith, r.total, r.received)) (more (omega arith)) h0 e

chunk_len_cases :
    (n : ℕ)
    → 0 < n
    → (0 < chunk_len n) × (chunk_len n ≤ n) × ((chunk_len n ≡ 59) ⊎ (chunk_len n ≡ n))
chunk_len_cases n h = elim (Bool-cases (ltb n 59)) [
  | inl t ↦ rw t (h, omega arith, inr refl)
  | inr t ↦ rw t (omega arith, ground arith, inl refl)
]

deliver :
    (fuel : ℕ) (h : CtaphidState) (cid cmd seq : ℕ) (done todo tail : List ℕ)
    → cid < 2 ^ 32
    → length todo ≤ fuel
    → 0 < length todo
    → length todo + 59 * seq ≤ 59 * 128
    → Receiving h cid cmd seq done todo tail
    → Delivered
        (fido2_task h (send_loop fuel cid seq (done ++ todo) (length done) (length (done ++ todo))))
        cid
        cmd
        (done ++ todo)
        (drop (length todo) tail)
deliver zero h cid cmd seq done todo tail hc enough some_left hs r = absurd (omega arith)
deliver (suc f) h cid cmd seq done todo tail hc enough some_left hs r =
    let k = chunk_len (length todo) in
    let c = take k todo in
    let rest = drop k todo in
    let whole : c ++ rest ≡ todo = take-append-drop k todo in
    let k_pos : (0 < k) × (k ≤ length todo) × ((k ≡ 59) ⊎ (k ≡ length todo)) =
      chunk_len_cases (length todo) some_left in
    let size : length c ≡ k = omega (arith, length-take k todo) in
    let left : length rest ≡ length todo - k = length-drop k todo in
    let r1 : Receiving h cid cmd seq done (c ++ rest) tail = rw whole r in
    let r2 = stored_chunk-Receiving h cid cmd seq done c rest tail (omega arith) r1 in
    let fits : chunk_len (h.total_len - h.recv_len) ≡ length c =
      ap chunk_len {x = h.total_len - h.recv_len} {y = length todo}
        (omega (arith, r.total, r.received))
      ∙ sym size in
    let e : ctaphid_process_packet h (framed (cid_bytes cid seq c))
        ≡ finish cmd (stored_chunk h c) =
      receive h cid seq c r.active r.from r.next hc (omega arith) fits
      ∙ ap (λ m. finish m (stored_chunk h c)) r.command in
    let out =
      deliver_rest f h (stored_chunk h c) (framed (cid_bytes cid seq c)) cid cmd (seq + 1)
        (done ++ c) rest (drop (length c) tail) r2 e
        (λ more.
          deliver f (stored_chunk h c) cid cmd (seq + 1) (done ++ c) rest (drop (length c) tail) hc
            (omega arith) more (omega arith) r2) in
    let message : (done ++ c) ++ rest ≡ done ++ todo =
      append_assoc done c rest ∙ ap (◌++◌ done) whole in
    let behind : drop (length rest) (drop (length c) tail) ≡ drop (length todo) tail =
      sym (drop_add (length c) (length rest) tail) ∙ ap (λ n. drop n tail) (omega arith) in
    let next : seq + 1 ≡ (seq + 1) % 256 = omega arith in
    let sent : length (done ++ c) ≡ length done + k = omega (arith, length-append done c) in
    rw (send_loop_step f cid seq done todo some_left) (rw (message, behind, next, sent) at out)

-- The initialization packet starts a message over, whatever the state before.
start :
    (h : CtaphidState) (cid cmd n : ℕ) (c : List ℕ)
    → cid < 2 ^ 32
    → cmd < 128
    → n ≤ ctaphid_buf_len
    → (if ltb n 57 then n else 57) ≡ length c
    → ctaphid_process_packet h
        (framed (cid_bytes cid (bit_or 0x80 cmd) ((n / 2 ^ 8 % 256) ∷ (n % 256) ∷ c)))
      ≡ finish cmd (record {
        cid = cid;
        cmd = cmd;
        total_len = n;
        recv_len = length c;
        next_seq = 0;
        buf = c ++ drop (length c) h.buf;
        active = true;
      })
unfolding ctaphid_process_packet process_init
start h cid cmd n c hc hm hn size =
    let b = bit_or 0x80 cmd in
    let rest = (n / 2 ^ 8 % 256) ∷ (n % 256) ∷ c in
    let pad = replicate (64 - length (cid_bytes cid b rest)) 0 in
    let e1 = packet_cid-cid_bytes cid b (rest ++ pad) hc in
    let eb = bit_or_80 cmd hm in
    let top : bit_and b 0x80 ≡ 128 = rw eb (bit_and_80 (128 + cmd) (omega arith) ∙ omega arith) in
    let low : bit_and b 0x7f ≡ cmd = rw eb (bit_and_7f (128 + cmd) (omega arith) ∙ omega arith) in
    let total : bit_or (n / 2 ^ 8 % 256 * 2 ^ 8) (n % 256) ≡ n =
      bit_or_shift 8 (n / 2 ^ 8 % 256) (n % 256) (omega arith) ∙ omega arith in
    let e2 : take (length c) (c ++ pad) ≡ c = take-append c pad in
    let e3 = patch-append [] c h.buf in rw (e1, top, low, total, size, e2, e3) (ground arith)

first_bounds : (n : ℕ) → let k = if ltb n 57 then n else 57 in (k ≤ n) × (n ≤ k + (n - 57))
first_bounds n = ground arith

-- Every message of at most 2048 bytes survives: whatever state the receiver is in, the packets
-- that `ctaphid_send_packet` cuts it into make it dispatch exactly once, on the same channel, with
-- the same command and exactly the bytes that were sent, and leave it idle.
pub fido2_task-send_packet :
    (h : CtaphidState) (cid cmd : ℕ) (message : List ℕ)
    → cid < 2 ^ 32
    → cmd < 128
    → length message ≤ ctaphid_buf_len
    → let out = fido2_task h (ctaphid_send_packet true cid cmd message) in
      (out.1 ≡ dispatch cid cmd (message ++ drop (length message) h.buf) (length message) ∷ [])
      × (out.0.active ≡ false)
unfolding ctaphid_send_packet
fido2_task-send_packet h cid cmd message hc hm hn =
    let n = length message in
    let k = if ltb n 57 then n else 57 in
    let c = take k message in
    let rest = drop k message in
    let whole : c ++ rest ≡ message = take-append-drop k message in
    let k_le : (k ≤ n) × (n ≤ k + (n - 57)) = first_bounds n in
    let size : length c ≡ k = omega (arith, length-take k message) in
    let left : length rest ≡ n - k = length-drop k message in
    let h1 : CtaphidState = record {
      cid = cid;
      cmd = cmd;
      total_len = n;
      recv_len = length c;
      next_seq = 0;
      buf = c ++ drop (length c) h.buf;
      active = true;
    } in
    let tail = drop (length c) h.buf in
    let r : Receiving h1 cid cmd 0 c rest tail = record {
      active = refl;
      from = refl;
      command = refl;
      total = omega arith;
      received = refl;
      next = refl;
      stored = refl;
    } in
    let first = framed (cid_bytes cid (bit_or 0x80 cmd) ((n / 2 ^ 8 % 256) ∷ (n % 256) ∷ c)) in
    let out =
      deliver_rest n h h1 first cid cmd 0 c rest tail r (start h cid cmd n c hc hm hn (sym size))
        (λ more. deliver n h1 cid cmd 0 c rest tail hc (omega arith) more (omega arith) r) in
    let behind : drop (length rest) tail ≡ drop n h.buf =
      sym (drop_add (length c) (length rest) h.buf) ∙ ap (λ m. drop m h.buf) (omega arith) in
    let loop : send_loop n cid 0 (c ++ rest) (length c) (length (c ++ rest))
        ≡ send_loop n cid 0 message k n =
      ap (λ m. send_loop n cid 0 m (length c) (length m)) whole
      ∙ ap (λ p. send_loop n cid 0 message p n) size in
    let done = rw (loop, whole, behind) at out in (done.acted, done.idle)
