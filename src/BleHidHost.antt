-- ===== src/BleHidHost.antt =====
-- components/ble_hid_host/ble_hid_host.c: the keyboard that is connected over Bluetooth. What is called
-- of NimBLE, of the flash and of the callbacks is a list of calls; what NimBLE answers is an argument.
-- A packet is its bytes. Gatt has the discovery of the keyboard's reports, Gap the events.
pub mod Gatt
pub mod Gap
pub mod Polling
mod Tests
use bluepass.Common.{
  ℕ, zero, suc, ◌+◌, ◌-◌, ◌*◌, ◌/◌, ◌%◌, ◌^◌, Bool, true, false, not, ◌&&◌, ◌||◌, Option, none,
  some, List, [], ◌∷◌, ◌++◌, ltb, leb, ◌==◌, if◌then◌else◌, get_or, length, take, drop, replicate,
  bit_or, min,
}
use bluepass.HidReport.{KeyboardReport, HidReport, released}

abbrev pub max_reports : ℕ
max_reports = 8

abbrev pub max_poll_handles : ℕ
max_poll_handles = 4

abbrev pub sync_hooks_max : ℕ
sync_hooks_max = 4

abbrev pub reconnect_delay_us : ℕ
reconnect_delay_us = 1500000

abbrev pub reconnect_retry_us : ℕ
reconnect_retry_us = 3000000

abbrev pub ble_log_size : ℕ
ble_log_size = 4096

-- `a[i] = x`. A write behind the array makes it longer, which the sizes show.
unfoldable pub set_at : List ℕ → ℕ → ℕ → List ℕ
set_at [] i x = x ∷ []
set_at (y ∷ ys) zero x = x ∷ ys
set_at (y ∷ ys) (suc i) x = y ∷ set_at ys i x

-- `blog` with CONFIG_BLE_DEBUG_LOG: the text so far, and at most 127 bytes more.
pub blog : List ℕ → List ℕ → List ℕ
blog tmp log =
    let line = take 127 tmp in
    if leb ble_log_size (length log + length line + 2)
    then line ++ (10 ∷ [])
    else log ++ (line ++ (10 ∷ []))

-- `s_ctx`; `conn_handle` is none for BLE_HS_CONN_HANDLE_NONE, and a name ends with its NUL.
pub record Ctx : Type 0 where
  pub has_report_cb : Bool
  pub has_conn_cb : Bool
  pub has_scan_cb : Bool
  pub conn_handle : Option ℕ
  pub connected : Bool
  pub peer_name : List ℕ
  pub peer_addr : List ℕ
  pub peer_addr_type : ℕ
  pub peer_known : Bool

-- `s_poll`: `handles` are the first `count` entries.
pub record Poll : Type 0 where
  pub handles : List ℕ
  pub last_val : List ℕ
  pub current : ℕ

-- `s_gatt`; `subscribed` are the first `subscribed_count` handles, the other arrays have 8 entries.
pub record GattState : Type 0 where
  pub hid_svc_end : ℕ
  pub proto_mode_handle : ℕ
  pub ctrl_pt_handle : ℕ
  pub report_val_handles : List ℕ
  pub report_props : List ℕ
  pub report_count : ℕ
  pub cccd_handles : List ℕ
  pub report_ref_type : List ℕ
  pub waiting_ref_read : Bool
  pub subscribed : List ℕ

abbrev pub zeroed_poll : Poll
zeroed_poll = record { handles = []; last_val = 0 ∷ 0 ∷ 0 ∷ 0 ∷ []; current = 0 }

abbrev pub zeroed_gatt : GattState
zeroed_gatt = record {
  hid_svc_end = 0;
  proto_mode_handle = 0;
  ctrl_pt_handle = 0;
  report_val_handles = replicate max_reports 0;
  report_props = replicate max_reports 0;
  report_count = 0;
  cccd_handles = replicate max_reports 0;
  report_ref_type = replicate max_reports 0;
  waiting_ref_read = false;
  subscribed = [];
}

-- The static state; the timers are whether the one that polls runs, and the delay of the other, if it
-- runs.
pub record BleHost : Type 0 where
  pub ctx : Ctx
  pub poll : Poll
  pub gatt : GattState
  pub disc_gen : ℕ
  pub poll_timer : Bool
  pub reconnect_timer : Option ℕ
  pub reconnect_attempts : ℕ
  pub sync_hooks : List ℕ

-- A scan result.
pub record ScanResult : Type 0 where
  pub name : List ℕ
  pub addr : List ℕ
  pub addr_type : ℕ
  pub rssi : ℕ

-- What is called. A read or a write names its handle; behind it stand the generation and the index that
-- come back with the answer.
pub data Call : Type 0 where
  read_polled : ℕ → ℕ → Call
  read_report_ref : ℕ → ℕ → ℕ → Call
  write_cccd : ℕ → ℕ → ℕ → ℕ → Call
  write_ctrl_pt : ℕ → ℕ → Call
  disc_all_dscs : ℕ → ℕ → ℕ → ℕ → Call
  disc_all_chrs : ℕ → ℕ → ℕ → Call
  disc_all_svcs : ℕ → Call
  report : HidReport → Call
  conn_cb : Bool → Call
  scan_cb : ScanResult → Call
  gap_connect : List ℕ → ℕ → Call
  gap_terminate : Option ℕ → Call
  cancel_disc : Call
  cancel_conn : Call
  start_disc : ℕ → Call
  security_initiate : Option ℕ → Call
  accept_params : Call
  inject_io : ℕ → ℕ → Bool → Call
  delete_bond : ℕ → Call
  set_ble_peer : List ℕ → ℕ → List ℕ → Call
  clear_ble_peer : Call
  sync_hook : ℕ → Call

-- `(uint16_t)lo | ((uint16_t)hi << 8)`
abbrev pub u16 : ℕ → ℕ → ℕ
u16 lo hi = bit_or lo (hi * 2 ^ 8)

abbrev pub consumer : ℕ → HidReport
consumer cc = record { keyboard = released; consumer_code = cc }

-- The usage code of a polled report: `buf` is four bytes, of which `len` came in.
pub polled_code : List ℕ → ℕ
polled_code packet =
    let len = min (length packet) 4 in
    if leb 3 len
    then u16 (get_or packet 1 0) (get_or packet 2 0)
    else if leb 2 len
    then u16 (get_or packet 0 0) (get_or packet 1 0)
    else get_or packet 0 0

-- `packet` is none where the read failed or gave no attribute.
pub on_poll_read : ℕ → Option (List ℕ) → BleHost → BleHost × List Call
on_poll_read idx none h = (h, [])
on_poll_read idx (some packet) h =
    let cc = polled_code packet in
    let changed = record h { poll = record h.poll { last_val = set_at h.poll.last_val idx cc } } in
    if cc == get_or h.poll.last_val idx 0
    then (h, [])
    else (changed, if not (cc == 0) && h.ctx.has_report_cb then report (consumer cc) ∷ [] else [])

pub poll_timer_cb : BleHost → BleHost × List Call
poll_timer_cb h =
    let count = length h.poll.handles in
    let idx = h.poll.current in
    if not h.ctx.connected || (count == 0) then (h, []) else (
      record h { poll = record h.poll { current = (idx + 1) % count } },
      read_polled (get_or h.poll.handles idx 0) idx ∷ [],
    )

pub ble_hid_host_is_connected : BleHost → Bool
ble_hid_host_is_connected h = h.ctx.connected

-- `strncpy(dst, src, size - 1); dst[size - 1] = '\0'`, up to the NUL.
abbrev pub copy_name : ℕ → List ℕ → List ℕ
copy_name size name = take (size - 1) name

pub ble_hid_host_get_peer_name : ℕ → BleHost → List ℕ
ble_hid_host_get_peer_name len h = copy_name len h.ctx.peer_name

pub ble_hid_host_set_peer_name : List ℕ → BleHost → BleHost
ble_hid_host_set_peer_name name h = record h {
  ctx = record h.ctx { peer_name = copy_name 32 name };
}

pub ble_hid_host_set_connection_cb : Bool → BleHost → BleHost
ble_hid_host_set_connection_cb registered h = record h {
  ctx = record h.ctx { has_conn_cb = registered };
}

pub ble_hid_host_get_log : ℕ → List ℕ → List ℕ
ble_hid_host_get_log len log = copy_name len log

pub ble_hid_host_add_sync_hook : ℕ → BleHost → BleHost
ble_hid_host_add_sync_hook fn h =
    if ltb (length h.sync_hooks) sync_hooks_max
    then record h { sync_hooks = h.sync_hooks ++ (fn ∷ []) }
    else h
