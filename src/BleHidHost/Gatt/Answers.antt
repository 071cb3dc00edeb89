-- ===== src/BleHidHost/Gatt/Answers.antt =====
-- Answers that come to components/ble_hid_host/ble_hid_host.c late.
use bluepass.Common.{ℕ, ◌≡◌, refl, false, Option, List, [], ◌==◌}
use bluepass.BleHidHost.{BleHost, Call}
use bluepass.BleHidHost.Gatt.{
  on_write_cccd, on_read_report_ref, Found, done, failed, found, on_disc_dscs, on_disc_chrs,
  on_disc_svcs,
}

-- The answers of NimBLE to the searches, reads and writes of one generation.
pub data Answer : Type 0 where
  cccd_written : ℕ → ℕ → Answer
  ref_read : ℕ → Option (List ℕ) → Answer
  dsc : ℕ → Found (ℕ × ℕ) → Answer
  chr : Found (ℕ × ℕ × ℕ) → Answer
  svc : Found (ℕ × ℕ × ℕ) → Answer

unfoldable pub answer : ℕ → Answer → BleHost → BleHost × List Call
answer gen (cccd_written idx status) h = on_write_cccd gen idx status h
answer gen (ref_read idx value) h = on_read_report_ref gen idx value h
answer gen (dsc idx what) h = on_disc_dscs gen idx what h
answer gen (chr what) h = on_disc_chrs gen what h
answer gen (svc what) h = on_disc_svcs gen what h

-- An answer to a request of another discovery changes nothing and calls nothing.
answer-stale :
    (gen : ℕ) (a : Answer) (h : BleHost) → (gen == h.disc_gen) ≡ false → answer gen a h ≡ (h, [])
unfolding answer on_write_cccd on_read_report_ref on_disc_dscs on_disc_chrs on_disc_svcs
answer-stale gen (cccd_written idx status) h e = rw e refl
answer-stale gen (ref_read idx value) h e = rw e refl
answer-stale gen (dsc idx done) h e = rw e refl
answer-stale gen (dsc idx failed) h e = refl
answer-stale gen (dsc idx (found d)) h e = rw e refl
answer-stale gen (chr done) h e = rw e refl
answer-stale gen (chr failed) h e = refl
answer-stale gen (chr (found c)) h e = rw e refl
answer-stale gen (svc done) h e = refl
answer-stale gen (svc failed) h e = refl
answer-stale gen (svc (found s)) h e = rw e refl
