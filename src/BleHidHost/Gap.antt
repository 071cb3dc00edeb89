-- ===== src/BleHidHost/Gap.antt =====
-- The events of components/ble_hid_host/ble_hid_host.c, its reconnection, and what the web interface
-- calls. NimBLE's answer to a call is an argument.
pub mod Runs
pub mod Parsing
use bluepass.Common.{
  ℕ, zero, suc, ◌+◌, ◌-◌, ◌%◌, Bool, true, false, not, ◌&&◌, ◌||◌, Option, none, some, List, [],
  ◌∷◌, ◌++◌, map, ltb, leb, ◌==◌, if◌then◌else◌, get_or, length, take, drop, replicate,
}
use bluepass.HidReport.{HidReport}
use bluepass.BleHidHost.{
  reconnect_delay_us, reconnect_retry_us, Ctx, GattState, BleHost, ScanResult, Call, report,
  conn_cb, scan_cb, gap_connect, gap_terminate, cancel_disc, cancel_conn, start_disc,
  security_initiate, accept_params, inject_io, delete_bond, set_ble_peer, clear_ble_peer, sync_hook,
  u16, consumer, copy_name,
}
use bluepass.BleHidHost.Gatt.{start_discovery}

abbrev pub esp_fail : ℕ
esp_fail = 0xffffffff

abbrev pub schedule_reconnect : ℕ → BleHost → BleHost
schedule_reconnect delay_us h = record h { reconnect_timer = some delay_us }

-- The timer has run out; `rc` is what `ble_gap_connect` answers.
pub reconnect_timer_cb : ℕ → BleHost → BleHost × List Call
reconnect_timer_cb rc h =
    let tried = record h { reconnect_attempts = h.reconnect_attempts + 1 } in
    if not h.ctx.peer_known || h.ctx.connected then (h, []) else (
      if rc == 0 then tried else schedule_reconnect reconnect_retry_us tried,
      gap_connect h.ctx.peer_addr h.ctx.peer_addr_type ∷ [],
    )

-- `for (int i = 0; i < s_gatt.subscribed_count; i++)`
unfoldable pub is_subscribed : ℕ → List ℕ → Bool
is_subscribed attr [] = false
is_subscribed attr (s ∷ ss) = (s == attr) || is_subscribed attr ss

-- The key codes of a packet from the `i`th byte on, at most six, and zeros behind them.
abbrev pub keycodes : ℕ → List ℕ → List ℕ
keycodes i buf = let kc = take 6 (drop i buf) in kc ++ replicate (6 - length kc) 0

-- What a notification of at least two bytes says; `buf` is its first ten bytes.
pub parse_report : List ℕ → HidReport
parse_report buf =
    let len = length buf in
    let pressed = λ (modifier i : ℕ).
      let r : HidReport = record {
        keyboard = record { modifier = modifier; reserved = 0; keycode = keycodes i buf };
        consumer_code = 0;
      } in
      r in
    if len == 3
    then consumer (u16 (get_or buf 1 0) (get_or buf 2 0))
    else if leb len 3
    then consumer (u16 (get_or buf 0 0) (get_or buf 1 0))
    else if leb 9 len
    then pressed (get_or buf 1 0) 3
    else if len == 8
    then pressed (get_or buf 0 0) 2
    else pressed (get_or buf 0 0) 1

pub notify_rx : ℕ → List ℕ → BleHost → List Call
notify_rx attr packet h =
    let buf = take 10 packet in
    if not h.ctx.has_report_cb || ltb (length buf) 2
    then []
    else if not (is_subscribed attr h.gatt.subscribed)
    then []
    else report (parse_report buf) ∷ []

-- The events that the handler distinguishes: a status is 0 for success; a name in an advertisement is
-- what `ble_hs_adv_parse_fields` found, if anything.
pub data GapEvent : Type 0 where
  connect : ℕ → ℕ → GapEvent
  link_estab : ℕ → GapEvent
  conn_update_req : GapEvent
  passkey_action : ℕ → ℕ → GapEvent
  enc_change : ℕ → GapEvent
  repeat_pairing : ℕ → GapEvent
  disconnect : GapEvent
  disc : ℕ → ℕ → List ℕ → Option (List ℕ) → GapEvent
  notification : ℕ → List ℕ → GapEvent
  other : GapEvent

abbrev pub retry_if_known : BleHost → BleHost
retry_if_known h = if h.ctx.peer_known then schedule_reconnect reconnect_retry_us h else h

-- `numcmp` is BLE_SM_IOACT_NUMCMP.
pub gap_event_handler : ℕ → GapEvent → BleHost → BleHost × List Call
gap_event_handler numcmp (connect status handle) h =
    let stored = record h { ctx = record h.ctx { conn_handle = some handle } } in
    if status == 0 then (stored, []) else (retry_if_known h, [])
gap_event_handler numcmp (link_estab status) h =
    let c = h.ctx in
    let up = record h { ctx = record c { connected = true }; reconnect_attempts = 0 } in
    let lost = record h { ctx = record c { conn_handle = none } } in
    if status == 0
    then (
      up,
      set_ble_peer c.peer_addr c.peer_addr_type (copy_name 32 c.peer_name)
          ∷ security_initiate c.conn_handle
          ∷ (if c.has_conn_cb then conn_cb true ∷ [] else []),
    )
    else (retry_if_known lost, [])
gap_event_handler numcmp conn_update_req h = (h, accept_params ∷ [])
gap_event_handler numcmp (passkey_action handle action) h =
    (h, inject_io handle action (action == numcmp) ∷ [])
gap_event_handler numcmp (enc_change status) h =
    let started = start_discovery h in if status == 0 then started else (h, [])
gap_event_handler numcmp (repeat_pairing handle) h = (h, delete_bond handle ∷ [])
gap_event_handler numcmp disconnect h =
    let down = record h {
      poll_timer = false;
      ctx = record h.ctx { connected = false; conn_handle = none };
      disc_gen = (h.disc_gen + 1) % 256;
    } in
    let again = schedule_reconnect reconnect_delay_us (record down { reconnect_attempts = 0 }) in
    (if h.ctx.peer_known then again else down, if h.ctx.has_conn_cb then conn_cb false ∷ [] else [])
gap_event_handler numcmp (disc rssi addr_type addr name) h =
    let r : ScanResult = record {
      name = elim name [ none ↦ [] | some n ↦ take 31 n ];
      addr = addr;
      addr_type = addr_type;
      rssi = rssi;
    } in
    (h, if h.ctx.has_scan_cb then scan_cb r ∷ [] else [])
gap_event_handler numcmp (notification attr packet) h = (h, notify_rx attr packet h)
gap_event_handler numcmp other h = (h, [])

pub on_reset : BleHost → BleHost
on_reset h = record h { ctx = record h.ctx { connected = false } }

-- The peer in flash: its address, the type of that and the name.
pub on_sync : Option (List ℕ × ℕ × List ℕ) → BleHost → BleHost × List Call
on_sync saved h =
    let restored : BleHost = elim saved [
      | none ↦ h
      | some (addr, addr_type, name) ↦ schedule_reconnect reconnect_delay_us (record h {
        ctx = record h.ctx {
          peer_addr = addr;
          peer_addr_type = addr_type;
          peer_name = copy_name 32 name;
          peer_known = true;
        };
        reconnect_attempts = 0;
      })
    ] in
    (
      if h.ctx.has_report_cb && not h.ctx.peer_known then restored else h,
      map sync_hook h.sync_hooks,
    )

-- What is set before NimBLE starts.
pub ble_hid_host_init : Bool → BleHost → BleHost
ble_hid_host_init has_report_cb h = record h {
  ctx = record h.ctx { has_report_cb = has_report_cb; conn_handle = none };
}

-- `rc` is what `ble_gap_disc` answers.
pub ble_hid_host_start_scan : ℕ → ℕ → Bool → BleHost → (ℕ × BleHost) × List Call
ble_hid_host_start_scan rc duration_ms has_result_cb h = (
  (
    if rc == 0 then 0 else esp_fail,
    record h { ctx = record h.ctx { has_scan_cb = has_result_cb } },
  ),
  cancel_disc ∷ cancel_conn ∷ start_disc duration_ms ∷ [],
)

pub ble_hid_host_stop_scan : BleHost → (ℕ × BleHost) × List Call
ble_hid_host_stop_scan h = ((0, h), cancel_disc ∷ [])

-- The codes of NimBLE for what runs already and for being busy.
pub record BusyCodes : Type 0 where
  pub ealready : ℕ
  pub ebusy : ℕ

-- The rounds left of `for (int attempt = 0; attempt < 3 && rc != 0; attempt++)`; `rcs` is what
-- `ble_gap_connect` answers to each attempt.
pub connect_loop : BusyCodes → (ℕ → ℕ) → List ℕ → ℕ → ℕ → ℕ → ℕ → ℕ × List Call
connect_loop busy rcs addr addr_type zero attempt rc = (rc, [])
connect_loop busy rcs addr addr_type (suc rounds) attempt rc =
    let cancels = if attempt == 0 then [] else cancel_disc ∷ cancel_conn ∷ [] in
    let answer = rcs attempt in
    let call = gap_connect addr addr_type in
    let (rc', more) = connect_loop busy rcs addr addr_type rounds (attempt + 1) answer in
    let hard = not (answer == 0) && not (answer == busy.ealready) && not (answer == busy.ebusy) in
    if rc == 0
    then (rc, [])
    else if hard
    then (answer, cancels ++ (call ∷ []))
    else (rc', cancels ++ (call ∷ more))

pub ble_hid_host_connect : BusyCodes → (ℕ → ℕ) → List ℕ → ℕ → BleHost → (ℕ × BleHost) × List Call
ble_hid_host_connect busy rcs addr addr_type h =
    let (rc, calls) = connect_loop busy rcs addr addr_type 3 0 busy.ealready in
    let c = record h.ctx { peer_addr = addr; peer_addr_type = addr_type; peer_known = true } in
    (
      (if rc == 0 then 0 else esp_fail, record h { reconnect_timer = none; ctx = c }),
      cancel_disc ∷ cancel_conn ∷ calls,
    )

-- `rc` is what `ble_gap_terminate` answers.
pub ble_hid_host_disconnect : ℕ → BleHost → (ℕ × BleHost) × List Call
ble_hid_host_disconnect rc h =
    let forgotten = record h {
      ctx = record h.ctx { peer_known = false };
      reconnect_timer = none;
    } in
    if not h.ctx.connected then ((0, h), []) else (
      (if rc == 0 then 0 else esp_fail, forgotten),
      clear_ble_peer ∷ gap_terminate h.ctx.conn_handle ∷ [],
    )

-- `rssi` is what NimBLE sets, 0 where it cannot.
pub ble_hid_host_get_rssi : ℕ → BleHost → ℕ
ble_hid_host_get_rssi rssi h =
    if not h.ctx.connected then 0 else elim h.ctx.conn_handle [ none ↦ 0 | some handle ↦ rssi ]
