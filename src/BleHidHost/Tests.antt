-- ===== src/BleHidHost/Tests.antt =====
-- A keyboard with one report for its keys, over a connection that is lost.
use bluepass.Common.{
  All, ℕ, ◌+◌, ◌*◌, ◌≡◌, refl, true, false, none, some, List, [], ◌∷◌, map, if◌then◌else◌, arith,
}
use bluepass.HidReport.{HidReport}
use bluepass.BleHidHost.{Ctx, BleHost, report, consumer, zeroed_gatt, zeroed_poll, polled_code}
use bluepass.BleHidHost.Gatt.{done, found, start_discovery}
use bluepass.BleHidHost.Gatt.Answers.{svc, chr, dsc, cccd_written}
use bluepass.BleHidHost.Gatt.Bounds.{IsSane, IsNumbered}
use bluepass.BleHidHost.Polling.{polls, downs, polls-downs}
use bluepass.BleHidHost.Gap.{is_subscribed, notify_rx, disconnect, gap_event_handler}
use bluepass.BleHidHost.Gap.Parsing.{pressing, notify_rx-forms}
use bluepass.BleHidHost.Gap.Runs.{
  HostEvent, answered, gap, happen_all, all_asked, happen_all-IsSane, lost, as_event,
  IsReconnecting, loss-IsReconnecting, lost_is_down,
}

abbrev known : Ctx
known = record {
  has_report_cb = true;
  has_conn_cb = false;
  has_scan_cb = false;
  conn_handle = some 1;
  connected = true;
  peer_name = [];
  peer_addr = 1 ∷ 2 ∷ 3 ∷ 4 ∷ 5 ∷ 6 ∷ [];
  peer_addr_type = 0;
  peer_known = true;
}

abbrev keyboard : BleHost
keyboard = record {
  ctx = known;
  poll = zeroed_poll;
  gatt = record zeroed_gatt { subscribed = 21 ∷ [] };
  disc_gen = 0;
  poll_timer = false;
  reconnect_timer = none;
  reconnect_attempts = 0;
  sync_hooks = [];
}

abbrev discovery : List HostEvent
discovery =
    answered 1 (svc (found (0x1812, 20, 30)))
    ∷ answered 1 (chr (found (0x2a4d, 21, 0x10)))
    ∷ answered 1 (chr done)
    ∷ answered 1 (dsc 0 (found (0x2902, 22)))
    ∷ answered 1 (dsc 0 done)
    ∷ answered 1 (cccd_written 0 0)
    ∷ gap 0 disconnect
    ∷ []

happen_all-IsSane_example :
    let h1 = (start_discovery keyboard).0 in
    IsSane (happen_all discovery h1) × All IsNumbered (all_asked discovery h1)
happen_all-IsSane_example =
    happen_all-IsSane discovery keyboard
      (tt, (tt, (tt, (omega arith, (omega arith, (omega arith, (tt, tt)))))))

loss-IsReconnecting_example :
    IsReconnecting 6 keyboard (gap_event_handler 0 (as_event lost) keyboard).0
loss-IsReconnecting_example = loss-IsReconnecting 0 6 lost keyboard refl (lost_is_down 0 keyboard)

-- Volume up is pressed, held and let go: one report.
polls-downs_example :
    (polls 0 ((0xe9 ∷ 0 ∷ []) ∷ (0xe9 ∷ 0 ∷ []) ∷ (0 ∷ 0 ∷ []) ∷ []) keyboard).1
    ≡ map
        (λ c. report (consumer c))
        (downs 0 (map polled_code ((0xe9 ∷ 0 ∷ []) ∷ (0xe9 ∷ 0 ∷ []) ∷ (0 ∷ 0 ∷ []) ∷ [])))
polls-downs_example =
    polls-downs 0 ((0xe9 ∷ 0 ∷ []) ∷ (0xe9 ∷ 0 ∷ []) ∷ (0 ∷ 0 ∷ []) ∷ []) keyboard (omega arith)
      refl

notify_rx-forms_example :
    let keys : List ℕ = 4 ∷ 5 ∷ 0 ∷ 0 ∷ 0 ∷ 0 ∷ [] in
    let gives = λ (x : HidReport). if is_subscribed 21 (21 ∷ []) then report x ∷ [] else [] in
    (notify_rx 21 (2 ∷ 0 ∷ keys) keyboard ≡ gives (pressing 2 keys))
    × (notify_rx 21 (1 ∷ 2 ∷ 0 ∷ keys) keyboard ≡ gives (pressing 2 keys))
    × (notify_rx 21 (2 ∷ keys) keyboard ≡ gives (pressing 2 keys))
    × (notify_rx 21 (0xe9 ∷ 0 ∷ []) keyboard ≡ gives (consumer (0 * 256 + 0xe9)))
    × (notify_rx 21 (1 ∷ 0xe9 ∷ 0 ∷ []) keyboard ≡ gives (consumer (0 * 256 + 0xe9)))
notify_rx-forms_example = notify_rx-forms 21 keyboard 2 0 1 4 5 0 0 0 0 0xe9 0 refl (omega arith)
