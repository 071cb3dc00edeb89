-- ===== src/BleHidHost/Gatt.antt =====
-- The discovery of the keyboard's reports in components/ble_hid_host/ble_hid_host.c. Each answer of
-- NimBLE comes back with the generation and the index that the request carried.
pub mod Answers
pub mod Bounds
use bluepass.Common.{
  ℕ, ◌+◌, ◌%◌, Bool, true, false, not, ◌&&◌, ◌||◌, Option, none, some, List, [], ◌∷◌, ◌++◌, ltb,
  leb, ◌==◌, if◌then◌else◌, get_or, length, bit_and,
}
use bluepass.BleHidHost.{
  max_reports, max_poll_handles, set_at, Ctx, Poll, GattState, BleHost, zeroed_poll, zeroed_gatt,
  Call, read_report_ref, write_cccd, write_ctrl_pt, disc_all_dscs, disc_all_chrs, disc_all_svcs,
}

abbrev pub hid_svc_uuid : ℕ
hid_svc_uuid = 0x1812

abbrev pub report_chr_uuid : ℕ
report_chr_uuid = 0x2a4d

abbrev pub proto_mode_chr_uuid : ℕ
proto_mode_chr_uuid = 0x2a4e

abbrev pub hid_ctrl_pt_chr_uuid : ℕ
hid_ctrl_pt_chr_uuid = 0x2a4c

abbrev pub cccd_uuid : ℕ
cccd_uuid = 0x2902

abbrev pub report_ref_uuid : ℕ
report_ref_uuid = 0x2908

-- Starting a timer that runs changes nothing.
pub on_hid_ready : BleHost → BleHost × List Call
on_hid_ready h = (
  if ltb 0 (length h.poll.handles) then record h { poll_timer = true } else h,
  if h.gatt.ctrl_pt_handle == 0 then [] else write_ctrl_pt h.gatt.ctrl_pt_handle 0 ∷ [],
)

-- BLE_GATT_CHR_PROP_NOTIFY and BLE_GATT_CHR_PROP_INDICATE of the GATT standard.
pub cccd_val_for : ℕ → BleHost → ℕ
cccd_val_for idx h =
    let p = get_or h.gatt.report_props idx 0 in
    if not (bit_and p 0x10 == 0) then 1 else if not (bit_and p 0x20 == 0) then 2 else 0

pub subscribe_report : ℕ → ℕ → BleHost → BleHost × List Call
subscribe_report gen idx h =
    let g = h.gatt in
    let reset = record h {
      gatt = record g {
        cccd_handles = set_at g.cccd_handles idx 0;
        report_ref_type = set_at g.report_ref_type idx 0;
        waiting_ref_read = false;
      };
    } in
    if not (gen == h.disc_gen)
    then (h, [])
    else if leb g.report_count idx
    then on_hid_ready h
    else (reset, disc_all_dscs (get_or g.report_val_handles idx 0) g.hid_svc_end gen idx ∷ [])

-- `if (s_poll.count < MAX_POLL_HANDLES) s_poll.handles[s_poll.count++] = …`
pub poll_report : ℕ → BleHost → BleHost
poll_report idx h =
    let handle = get_or h.gatt.report_val_handles idx 0 in
    if ltb (length h.poll.handles) max_poll_handles
    then record h { poll = record h.poll { handles = h.poll.handles ++ (handle ∷ []) } }
    else h

pub on_write_cccd : ℕ → ℕ → ℕ → BleHost → BleHost × List Call
on_write_cccd gen idx status h =
    let handle = get_or h.gatt.report_val_handles idx 0 in
    let subscribed =
      if ltb (length h.gatt.subscribed) max_reports
      then record h { gatt = record h.gatt { subscribed = h.gatt.subscribed ++ (handle ∷ []) } }
      else h in
    if not (gen == h.disc_gen)
    then (h, [])
    else subscribe_report gen (idx + 1) (if status == 0 then subscribed else poll_report idx h)

-- How a report is taken up when its descriptors are known: a subscription where it is an input with
-- such a descriptor that notifies or indicates, polling where it is another input, and the next one.
pub take_up : ℕ → ℕ → BleHost → BleHost × List Call
take_up gen idx h =
    let rtype = get_or h.gatt.report_ref_type idx 0 in
    let is_input = (rtype == 1) || (rtype == 0) in
    let cccd = get_or h.gatt.cccd_handles idx 0 in
    let ccval = cccd_val_for idx h in
    if is_input && not (cccd == 0)
    then (if not (ccval == 0)
        then (h, write_cccd cccd ccval gen idx ∷ [])
        else subscribe_report gen (idx + 1) (poll_report idx h))
    else subscribe_report gen (idx + 1) (if is_input && (cccd == 0) then poll_report idx h else h)

-- `value` is the descriptor, or none where the read failed or gave no attribute; bytes that are missing
-- are zero.
pub on_read_report_ref : ℕ → ℕ → Option (List ℕ) → BleHost → BleHost × List Call
on_read_report_ref gen idx value h =
    let types : List ℕ = elim value [
      | none ↦ h.gatt.report_ref_type
      | some ref ↦ set_at h.gatt.report_ref_type idx (get_or ref 1 0)
    ] in
    let read = record h {
      gatt = record h.gatt { report_ref_type = types; waiting_ref_read = false };
    } in
    if not (gen == h.disc_gen) then (h, []) else take_up gen idx read

-- What NimBLE says of a search: the end, an error, or something that was found.
pub data Found (A : Type 0) : Type 0 where
  done : Found A
  failed : Found A
  found : A → Found A

-- A descriptor is its UUID and its handle.
pub on_disc_dscs : ℕ → ℕ → Found (ℕ × ℕ) → BleHost → BleHost × List Call
on_disc_dscs gen idx done h =
    let taken = take_up gen idx h in
    if not (gen == h.disc_gen) then (h, []) else if h.gatt.waiting_ref_read then (h, []) else taken
on_disc_dscs gen idx failed h = (h, [])
on_disc_dscs gen idx (found (uuid, handle)) h =
    let g = h.gatt in
    if not (gen == h.disc_gen)
    then (h, [])
    else if uuid == report_ref_uuid
    then (
      record h { gatt = record g { waiting_ref_read = true } },
      read_report_ref handle gen idx ∷ [],
    )
    else if uuid == cccd_uuid
    then (record h { gatt = record g { cccd_handles = set_at g.cccd_handles idx handle } }, [])
    else (h, [])

-- A characteristic is its UUID, its handle and its properties.
pub on_disc_chrs : ℕ → Found (ℕ × ℕ × ℕ) → BleHost → BleHost × List Call
on_disc_chrs gen done h = if not (gen == h.disc_gen) then (h, []) else subscribe_report gen 0 h
on_disc_chrs gen failed h = (h, [])
on_disc_chrs gen (found (uuid, handle, properties)) h =
    let g = h.gatt in
    let added = record g {
      report_props = set_at g.report_props g.report_count properties;
      report_val_handles = set_at g.report_val_handles g.report_count handle;
      report_count = g.report_count + 1;
    } in
    if not (gen == h.disc_gen)
    then (h, [])
    else if (uuid == report_chr_uuid) && ltb g.report_count max_reports
    then (record h { gatt = added }, [])
    else if uuid == proto_mode_chr_uuid
    then (record h { gatt = record g { proto_mode_handle = handle } }, [])
    else if uuid == hid_ctrl_pt_chr_uuid
    then (record h { gatt = record g { ctrl_pt_handle = handle } }, [])
    else (h, [])

-- A service is its UUID and its first and last handle.
pub on_disc_svcs : ℕ → Found (ℕ × ℕ × ℕ) → BleHost → BleHost × List Call
on_disc_svcs gen done h = (h, [])
on_disc_svcs gen failed h = (h, [])
on_disc_svcs gen (found (uuid, start_handle, end_handle)) h =
    if not (gen == h.disc_gen)
    then (h, [])
    else if uuid == hid_svc_uuid
    then (
      record h { gatt = record h.gatt { hid_svc_end = end_handle } },
      disc_all_chrs start_handle end_handle gen ∷ [],
    )
    else (h, [])

-- The generation is a `uint8_t`.
pub start_discovery : BleHost → BleHost × List Call
start_discovery h =
    let gen = (h.disc_gen + 1) % 256 in
    (
      record h { disc_gen = gen; gatt = zeroed_gatt; poll_timer = false; poll = zeroed_poll },
      disc_all_svcs gen ∷ [],
    )
