-- ===== src/CtapHid/Tests.antt =====
-- Runs of the packet routines, and the theorems at them.
use bluepass.Common.{
  ℕ, true, false, List, [], ◌∷◌, ◌++◌, ◌≡◌, refl, length, arith, replicate, drop, All,
  length-replicate,
}
use bluepass.CtapHid.{
  CtaphidState, dispatch, ctaphid_send_packet, fido2_task, ctaphid_process_packet, packet_cid,
  send_loop,
}
use bluepass.CtapHid.Reassembly.{fido2_task-send_packet}
use bluepass.CtapHid.Invariant.{IsValid, IsSafe, process_packet-IsValid}

abbrev map_length : List (List ℕ) → List ℕ
map_length [] = []
map_length (x ∷ xs) = length x ∷ map_length xs

abbrev reset : CtaphidState
reset = record {
  cid = 0;
  cmd = 0;
  total_len = 0;
  recv_len = 0;
  next_seq = 0;
  buf = replicate 2048 0;
  active = false;
}

abbrev long_message : List ℕ
long_message = replicate 100 7

-- 100 bytes go out in two packets of 64 bytes.
two_packets : map_length (ctaphid_send_packet true 5 0x10 long_message) ≡ 64 ∷ 64 ∷ []
unfolding ctaphid_send_packet send_loop
two_packets = refl

fido2_task-send_packet_example :
    let out = fido2_task reset (ctaphid_send_packet true 5 0x10 long_message) in
    (out.1 ≡ dispatch 5 0x10 (long_message ++ drop 100 (replicate 2048 0)) 100 ∷ [])
    × (out.0.active ≡ false)
fido2_task-send_packet_example =
    fido2_task-send_packet reset 5 0x10 long_message (omega arith) (omega arith) (omega arith)

abbrev stray : List ℕ
stray = 0 ∷ 0 ∷ 0 ∷ 9 ∷ 0x90 ∷ 0 ∷ 3 ∷ 1 ∷ 2 ∷ 3 ∷ []

process_packet-IsValid_example :
    IsValid (ctaphid_process_packet reset stray).0
    × All (IsSafe (packet_cid stray)) (ctaphid_process_packet reset stray).1
process_packet-IsValid_example =
    process_packet-IsValid reset stray
      (record { size = length-replicate {A = ℕ} 2048 0; fits = omega arith; within = omega arith })
