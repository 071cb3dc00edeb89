-- ===== src/BleHidHost/Gap/Runs.antt =====
-- components/ble_hid_host/ble_hid_host.c through sequences of events.
use bluepass.Common.{
  ◌++◌, ◌<◌, All, All-append, ℕ, suc, ◌≡◌, refl, ◌⊎◌, Bool, true, false, not, ◌&&◌, ◌||◌, Option,
  none, some, List, [], ◌∷◌, ◌==◌, if◌then◌else◌, arith, if_either,
}
use bluepass.BleHidHost.{
  max_poll_handles, reconnect_delay_us, reconnect_retry_us, BleHost, Call, gap_connect,
  gap_terminate, clear_ble_peer, on_poll_read, poll_timer_cb,
}
use bluepass.BleHidHost.Gatt.{start_discovery}
use bluepass.BleHidHost.Gatt.Answers.{Answer, answer}
use bluepass.BleHidHost.Gatt.Bounds.{
  IsSane, IsNumbered, IsInRange, answer-AreSane, discovery-IsSane,
}
use bluepass.BleHidHost.Polling.{turn-AreSane, read-IsSane}
use bluepass.BleHidHost.Gap.{
  reconnect_timer_cb, retry_if_known, GapEvent, connect, link_estab, conn_update_req,
  passkey_action, enc_change, repeat_pairing, disconnect, disc, notification, other,
  gap_event_handler, on_reset, on_sync, BusyCodes, ble_hid_host_start_scan, ble_hid_host_connect,
  ble_hid_host_disconnect,
}

-- What happens: an answer to a search, an event of the connection, a timer that is due, a handle that
-- was read, NimBLE that starts, and a call of the web interface.
pub data HostEvent : Type 0 where
  answered : ℕ → Answer → HostEvent
  gap : ℕ → GapEvent → HostEvent
  poll_due : HostEvent
  polled : ℕ → Option (List ℕ) → HostEvent
  reconnect_due : ℕ → HostEvent
  reset : HostEvent
  synced : Option (List ℕ × ℕ × List ℕ) → HostEvent
  scan : ℕ → ℕ → Bool → HostEvent
  user_connect : BusyCodes → (ℕ → ℕ) → List ℕ → ℕ → HostEvent
  user_disconnect : ℕ → HostEvent

-- The timer that is due does not run any more.
pub happen : HostEvent → BleHost → BleHost
happen (answered gen a) h = (answer gen a h).0
happen (gap numcmp e) h = (gap_event_handler numcmp e h).0
happen poll_due h = (poll_timer_cb h).0
happen (polled idx packet) h = (on_poll_read idx packet h).0
happen (reconnect_due rc) h = (reconnect_timer_cb rc (record h { reconnect_timer = none })).0
happen reset h = on_reset h
happen (synced saved) h = (on_sync saved h).0
happen (scan rc duration_ms has_cb) h = (ble_hid_host_start_scan rc duration_ms has_cb h).0.1
happen (user_connect busy rcs addr addr_type) h =
    (ble_hid_host_connect busy rcs addr addr_type h).0.1
happen (user_disconnect rc) h = (ble_hid_host_disconnect rc h).0.1

pub happen_all : List HostEvent → BleHost → BleHost
happen_all [] h = h
happen_all (e ∷ es) h = happen_all es (happen e h)

-- The searches, writes and reads that carry an index.
pub asked : HostEvent → BleHost → List Call
asked (answered gen a) h = (answer gen a h).1
asked (gap numcmp e) h = []
asked poll_due h = (poll_timer_cb h).1
asked (polled idx packet) h = []
asked (reconnect_due rc) h = []
asked reset h = []
asked (synced saved) h = []
asked (scan rc duration_ms has_cb) h = []
asked (user_connect busy rcs addr addr_type) h = []
asked (user_disconnect rc) h = []

pub all_asked : List HostEvent → BleHost → List Call
all_asked [] h = []
all_asked (e ∷ es) h = asked e h ++ all_asked es (happen e h)

-- NimBLE brings back an index of the arrays, as it is asked with; the calls carry no other.
abbrev pub IsGiven : HostEvent → Type 0
IsGiven (answered gen a) = IsInRange a
IsGiven (polled idx packet) = idx < max_poll_handles
IsGiven e = Unit {0}

abbrev AreSane : BleHost × List Call → Type 0
AreSane r = IsSane r.0

retry-IsSane : (h : BleHost) → IsSane h → IsSane (retry_if_known h)
retry-IsSane h v = if_either IsSane h.ctx.peer_known _ h v v

gap-IsSane :
    (numcmp : ℕ) (e : GapEvent) (h : BleHost) → IsSane h → IsSane (gap_event_handler numcmp e h).0
unfolding gap_event_handler
gap-IsSane numcmp (connect status handle) h v =
    if_either AreSane (status == 0) _ (retry_if_known h, []) v (retry-IsSane h v)
gap-IsSane numcmp (link_estab status) h v =
    let lost = record h { ctx = record h.ctx { conn_handle = none } } in
    if_either AreSane (status == 0) _ (retry_if_known lost, []) v (retry-IsSane lost v)
gap-IsSane numcmp conn_update_req h v = v
gap-IsSane numcmp (passkey_action handle action) h v = v
gap-IsSane numcmp (enc_change status) h v =
    if_either AreSane (status == 0) (start_discovery h) (h, []) (discovery-IsSane h) v
gap-IsSane numcmp (repeat_pairing handle) h v = v
gap-IsSane numcmp disconnect h v = if_either IsSane h.ctx.peer_known _ _ v v
gap-IsSane numcmp (disc rssi addr_type addr name) h v = v
gap-IsSane numcmp (notification attr packet) h v = v
gap-IsSane numcmp other h v = v

due-IsSane : (rc : ℕ) (h : BleHost) → IsSane h → IsSane (reconnect_timer_cb rc h).0
unfolding reconnect_timer_cb
due-IsSane rc h v =
    if_either AreSane (not h.ctx.peer_known || h.ctx.connected) (h, []) _ v
      (if_either IsSane (rc == 0) _ _ v v)

sync-IsSane :
    (saved : Option (List ℕ × ℕ × List ℕ)) (h : BleHost) → IsSane h → IsSane (on_sync saved h).0
unfolding on_sync
sync-IsSane none h v = if_either IsSane (h.ctx.has_report_cb && not h.ctx.peer_known) h h v v
sync-IsSane (some (addr, addr_type, name)) h v =
    if_either IsSane (h.ctx.has_report_cb && not h.ctx.peer_known) _ h v v

disconnect-IsSane : (rc : ℕ) (h : BleHost) → IsSane h → IsSane (ble_hid_host_disconnect rc h).0.1
unfolding ble_hid_host_disconnect
disconnect-IsSane rc h v =
    let P : (ℕ × BleHost) × List Call → Type 0 = λ r. IsSane r.0.1 in
    if_either P (not h.ctx.connected) ((0, h), []) _ v v

happen-IsSane : (e : HostEvent) (h : BleHost) → IsGiven e → IsSane h → IsSane (happen e h)
unfolding happen on_reset ble_hid_host_start_scan ble_hid_host_connect
happen-IsSane (answered gen a) h g v = (answer-AreSane gen a h g v).0
happen-IsSane (gap numcmp e) h g v = gap-IsSane numcmp e h v
happen-IsSane poll_due h g v = (turn-AreSane h v).0
happen-IsSane (polled idx packet) h g v = read-IsSane idx packet h g v
happen-IsSane (reconnect_due rc) h g v = due-IsSane rc (record h { reconnect_timer = none }) v
happen-IsSane reset h g v = v
happen-IsSane (synced saved) h g v = sync-IsSane saved h v
happen-IsSane (scan rc duration_ms has_cb) h g v = v
happen-IsSane (user_connect busy rcs addr addr_type) h g v = v
happen-IsSane (user_disconnect rc) h g v = disconnect-IsSane rc h v

asked-IsNumbered : (e : HostEvent) (h : BleHost) → IsGiven e → IsSane h → All IsNumbered (asked e h)
unfolding asked
asked-IsNumbered (answered gen a) h g v = (answer-AreSane gen a h g v).1
asked-IsNumbered (gap numcmp e) h g v = tt
asked-IsNumbered poll_due h g v = (turn-AreSane h v).1
asked-IsNumbered (polled idx packet) h g v = tt
asked-IsNumbered (reconnect_due rc) h g v = tt
asked-IsNumbered reset h g v = tt
asked-IsNumbered (synced saved) h g v = tt
asked-IsNumbered (scan rc duration_ms has_cb) h g v = tt
asked-IsNumbered (user_connect busy rcs addr addr_type) h g v = tt
asked-IsNumbered (user_disconnect rc) h g v = tt

all-IsSane :
    (es : List HostEvent) (h : BleHost)
    → All IsGiven es
    → IsSane h
    → IsSane (happen_all es h) × All IsNumbered (all_asked es h)
unfolding happen_all all_asked
all-IsSane [] h g v = (v, tt)
all-IsSane (e ∷ es) h g v =
    let (sane, numbered) = all-IsSane es (happen e h) g.1 (happen-IsSane e h g.0 v) in
    (
      sane,
      All-append IsNumbered (asked e h) (all_asked es (happen e h)) (asked-IsNumbered e h g.0 v)
          numbered,
    )

-- From a discovery on, through any answers of any generation, events of the connection, timers, reads
-- and calls of the web interface: where NimBLE brings back indices of the arrays, the firmware asks it
-- with no other, nothing is written behind an array, and there are at most eight reports, eight
-- subscriptions and four handles that are polled, whatever the keyboard offers; and the next handle
-- to be polled is one of those that there are.
pub happen_all-IsSane :
    (es : List HostEvent) (h : BleHost)
    → All IsGiven es
    → let h1 = (start_discovery h).0 in IsSane (happen_all es h1) × All IsNumbered (all_asked es h1)
happen_all-IsSane es h given = all-IsSane es _ given (discovery-IsSane h)

-- The connection could not be made, was not set up, or is lost; an error code is not 0.
pub data Loss : Type 0 where
  no_connect : ℕ → ℕ → Loss
  no_link : ℕ → Loss
  lost : Loss

pub as_event : Loss → GapEvent
as_event (no_connect code handle) = connect (suc code) handle
as_event (no_link code) = link_estab (suc code)
as_event lost = disconnect

is_error : (code : ℕ) → (suc code == 0) ≡ false
is_error code = ground arith

-- The timer runs; when it is due, the peer of `h` is called, and if that cannot be started, the timer
-- runs again.
pub IsReconnecting : ℕ → BleHost → BleHost → Type 0
IsReconnecting rc h after =
    let (called, calls) = reconnect_timer_cb rc (record after { reconnect_timer = none }) in
    ((after.reconnect_timer ≡ some reconnect_delay_us)
      ⊎ (after.reconnect_timer ≡ some reconnect_retry_us))
    × (calls ≡ gap_connect h.ctx.peer_addr h.ctx.peer_addr_type ∷ [])
    × (called.reconnect_timer ≡ (if rc == 0 then none else some reconnect_retry_us))

again :
    (rc : ℕ) (x : BleHost)
    → (if rc == 0
        then x
        else record x { reconnect_timer = some reconnect_retry_us }).reconnect_timer
      ≡ (if rc == 0 then x.reconnect_timer else some reconnect_retry_us)
again rc x = ground arith

-- After every loss of the connection to a peer that is known, the timer that connects again runs; when
-- it is due and nothing is connected by then, the same peer is called, and where NimBLE cannot start
-- that, the timer runs again.
pub loss-IsReconnecting :
    (numcmp rc : ℕ) (loss_ : Loss) (h : BleHost)
    → h.ctx.peer_known ≡ true
    → (gap_event_handler numcmp (as_event loss_) h).0.ctx.connected ≡ false
    → IsReconnecting rc h (gap_event_handler numcmp (as_event loss_) h).0
unfolding gap_event_handler reconnect_timer_cb as_event IsReconnecting
loss-IsReconnecting numcmp rc (no_connect code handle) h known down = ground (arith, known, down)
loss-IsReconnecting numcmp rc (no_link code) h known down = ground (arith, known, down)
loss-IsReconnecting numcmp rc lost h known down = ground (arith, known)

-- What the loss of a connection leaves.
pub lost_is_down :
    (numcmp : ℕ) (h : BleHost)
    → (gap_event_handler numcmp (as_event lost) h).0.ctx.connected ≡ false
unfolding gap_event_handler as_event
lost_is_down numcmp h = ground arith

-- A peer that the user has disconnected from is forgotten in flash, and not called again, neither at
-- once nor after the loss that follows.
disconnect-forgets :
    (numcmp rc rc' : ℕ) (loss_ : Loss) (h : BleHost)
    → h.ctx.connected ≡ true
    → let ((err, left), calls) = ble_hid_host_disconnect rc h in
      let after = (gap_event_handler numcmp (as_event loss_) left).0 in
      (calls ≡ clear_ble_peer ∷ gap_terminate h.ctx.conn_handle ∷ [])
      × (after.reconnect_timer ≡ none)
      × (reconnect_timer_cb rc' after ≡ (after, []))
unfolding gap_event_handler reconnect_timer_cb ble_hid_host_disconnect as_event
disconnect-forgets numcmp rc rc' (no_connect code handle) h up =
    rw (up, is_error code) (refl, refl, refl)
disconnect-forgets numcmp rc rc' (no_link code) h up = rw (up, is_error code) (refl, refl, refl)
disconnect-forgets numcmp rc rc' lost h up = rw up (refl, refl, refl)
