-- ===== src/BleHidHost/Gatt/Bounds.antt =====
-- The bounds of the arrays in components/ble_hid_host/ble_hid_host.c.
use bluepass.Common.{
  ℕ, zero, suc, ◌+◌, ◌≤◌, ◌<◌, ◌≡◌, refl, ◌∙◌, ◌⊎◌, inl, Bool, true, false, not, ◌&&◌, ◌||◌, Option,
  none, some, List, [], ◌∷◌, ltb, leb, ◌==◌, if◌then◌else◌, get_or, length, length-append, arith,
  if_either, if_split, All,
}
use bluepass.BleHidHost.{
  max_reports, max_poll_handles, set_at, Poll, GattState, BleHost, Call, write_cccd, read_polled,
  read_report_ref, disc_all_dscs,
}
use bluepass.BleHidHost.Gatt.{
  on_hid_ready, subscribe_report, report_ref_uuid, cccd_uuid, report_chr_uuid, proto_mode_chr_uuid,
  hid_ctrl_pt_chr_uuid, hid_svc_uuid, cccd_val_for, poll_report, on_write_cccd, take_up,
  on_read_report_ref, Found, done, failed, found, on_disc_dscs, on_disc_chrs, on_disc_svcs,
  start_discovery,
}
use bluepass.BleHidHost.Gatt.Answers.{Answer, cccd_written, ref_read, dsc, chr, svc, answer}

pub length-set_at : (xs : List ℕ) (i x : ℕ) → i < length xs → length (set_at xs i x) ≡ length xs
unfolding set_at
length-set_at [] i x h = absurd (omega arith)
length-set_at (y ∷ ys) zero x h = refl
length-set_at (y ∷ ys) (suc i) x h = omega (arith, length-set_at ys i x (omega arith))

-- The arrays have their sizes, the counts stay within them, and the next handle to be polled is one
-- of those.
pub record IsPollable (p : Poll) : Type 0 where
  pub polled : length p.handles ≤ max_poll_handles
  pub values : length p.last_val ≡ max_poll_handles
  pub turn : (p.current ≡ 0) ⊎ (p.current < length p.handles)

pub record IsWithin (g : GattState) : Type 0 where
  pub count : g.report_count ≤ max_reports
  pub handles : length g.report_val_handles ≡ max_reports
  pub props : length g.report_props ≡ max_reports
  pub cccds : length g.cccd_handles ≡ max_reports
  pub types : length g.report_ref_type ≡ max_reports
  pub subscribed : length g.subscribed ≤ max_reports

abbrev pub IsSane : BleHost → Type 0
IsSane h = IsPollable h.poll × IsWithin h.gatt

poll-IsSane : (idx : ℕ) (h : BleHost) → IsSane h → IsSane (poll_report idx h)
unfolding poll_report
poll-IsSane idx h (p, g) =
    let handle = get_or h.gatt.report_val_handles idx 0 in
    let longer = length-append h.poll.handles (handle ∷ []) in
    if_split IsSane (ltb (length h.poll.handles) max_poll_handles) _ h
      (λ room. (
        record {
          polled = ground (arith, room, longer);
          values = p.values;
          turn = ground (arith, p.turn, longer);
        },
        g,
      ))
      λ _. (p, g)

reset-IsWithin :
    (idx : ℕ) (g : GattState)
    → idx < max_reports
    → IsWithin g
    → IsWithin (record g {
      cccd_handles = set_at g.cccd_handles idx 0;
      report_ref_type = set_at g.report_ref_type idx 0;
      waiting_ref_read = false;
    })
reset-IsWithin idx g small v = record {
  count = v.count;
  handles = v.handles;
  props = v.props;
  cccds = length-set_at g.cccd_handles idx 0 (omega (arith, small, v.cccds)) ∙ v.cccds;
  types = length-set_at g.report_ref_type idx 0 (omega (arith, small, v.types)) ∙ v.types;
  subscribed = v.subscribed;
}

-- The index that a call carries, for its answer to bring back, is one of the arrays'.
abbrev pub IsNumbered : Call → Type 0
IsNumbered (read_polled handle idx) = idx < max_poll_handles
IsNumbered (read_report_ref handle gen idx) = idx < max_reports
IsNumbered (write_cccd cccd value gen idx) = idx < max_reports
IsNumbered (disc_all_dscs first last gen idx) = idx < max_reports
IsNumbered c = Unit {0}

abbrev pub AreSane : BleHost × List Call → Type 0
AreSane r = IsSane r.0 × All IsNumbered r.1

-- The answer brings back such an index.
abbrev pub IsInRange : Answer → Type 0
IsInRange (cccd_written idx status) = idx < max_reports
IsInRange (ref_read idx value) = idx < max_reports
IsInRange (dsc idx what) = idx < max_reports
IsInRange (chr what) = Unit {0}
IsInRange (svc what) = Unit {0}

ready-AreSane : (h : BleHost) → IsSane h → AreSane (on_hid_ready h)
unfolding on_hid_ready
ready-AreSane h v = (
  if_either IsSane (ltb 0 (length h.poll.handles)) _ h v v,
  if_either (All IsNumbered) (h.gatt.ctrl_pt_handle == 0) _ _ tt (tt, tt),
)

below : (a b : ℕ) → leb a b ≡ false → b < a
below a b h = ground (arith, h)

subscribe-AreSane : (gen idx : ℕ) (h : BleHost) → IsSane h → AreSane (subscribe_report gen idx h)
unfolding subscribe_report
subscribe-AreSane gen idx h v =
    if_either AreSane (not (gen == h.disc_gen)) (h, []) _ (v, tt)
      (if_split AreSane (leb h.gatt.report_count idx) (on_hid_ready h) _ (λ _. ready-AreSane h v)
        λ more.
          let small : idx < max_reports =
            omega (arith, below h.gatt.report_count idx more, v.1.count) in
          ((v.0, reset-IsWithin idx h.gatt small v.1), (small, tt)))

cccd-AreSane :
    (gen idx status : ℕ) (h : BleHost) → IsSane h → AreSane (on_write_cccd gen idx status h)
unfolding on_write_cccd
cccd-AreSane gen idx status h v =
    let handle = get_or h.gatt.report_val_handles idx 0 in
    let longer = length-append h.gatt.subscribed (handle ∷ []) in
    if_either AreSane (not (gen == h.disc_gen)) (h, []) _ (v, tt)
      (subscribe-AreSane gen (idx + 1) _ (
        if_either IsSane (status == 0) _ (poll_report idx h)
          (if_split IsSane (ltb (length h.gatt.subscribed) max_reports) _ h
            (λ room. (
              v.0,
              record {
                count = v.1.count;
                handles = v.1.handles;
                props = v.1.props;
                cccds = v.1.cccds;
                types = v.1.types;
                subscribed = ground (arith, room, longer);
              },
            ))
            λ _. v)
          (poll-IsSane idx h v)))

take_up-AreSane :
    (gen idx : ℕ) (h : BleHost) → idx < max_reports → IsSane h → AreSane (take_up gen idx h)
unfolding take_up
take_up-AreSane gen idx h small v =
    let rtype = get_or h.gatt.report_ref_type idx 0 in
    let is_input = (rtype == 1) || (rtype == 0) in
    let cccd = get_or h.gatt.cccd_handles idx 0 in
    let ccval = cccd_val_for idx h in
    let polling = poll-IsSane idx h v in
    let after_poll = subscribe_report gen (idx + 1) (poll_report idx h) in
    let left = if is_input && (cccd == 0) then poll_report idx h else h in
    if_either AreSane (is_input && not (cccd == 0)) _ (subscribe_report gen (idx + 1) left)
      (if_either AreSane (not (ccval == 0)) (h, write_cccd cccd ccval gen idx ∷ []) after_poll
        (v, (small, tt)) (subscribe-AreSane gen (idx + 1) (poll_report idx h) polling))
      (subscribe-AreSane gen (idx + 1) left
        (if_either IsSane (is_input && (cccd == 0)) (poll_report idx h) h polling v))

types-IsWithin :
    (g : GattState) (types : List ℕ) (waiting : Bool)
    → length types ≡ max_reports
    → IsWithin g
    → IsWithin (record g { report_ref_type = types; waiting_ref_read = waiting })
types-IsWithin g types waiting e v = record {
  count = v.count;
  handles = v.handles;
  props = v.props;
  cccds = v.cccds;
  types = e;
  subscribed = v.subscribed;
}

ref-AreSane :
    (gen idx : ℕ) (value : Option (List ℕ)) (h : BleHost)
    → idx < max_reports
    → IsSane h
    → AreSane (on_read_report_ref gen idx value h)
unfolding on_read_report_ref
ref-AreSane gen idx none h small v =
    if_either AreSane (not (gen == h.disc_gen)) (h, []) _ (v, tt)
      (take_up-AreSane gen idx _ small
        (v.0, types-IsWithin h.gatt h.gatt.report_ref_type false v.1.types v.1))
ref-AreSane gen idx (some ref) h small v =
    let types = set_at h.gatt.report_ref_type idx (get_or ref 1 0) in
    let sized =
      length-set_at h.gatt.report_ref_type idx (get_or ref 1 0) (omega (arith, small, v.1.types))
      ∙ v.1.types in
    if_either AreSane (not (gen == h.disc_gen)) (h, []) _ (v, tt)
      (take_up-AreSane gen idx _ small (v.0, types-IsWithin h.gatt types false sized v.1))

dsc-AreSane :
    (gen idx : ℕ) (what : Found (ℕ × ℕ)) (h : BleHost)
    → idx < max_reports
    → IsSane h
    → AreSane (on_disc_dscs gen idx what h)
unfolding on_disc_dscs
dsc-AreSane gen idx done h small v =
    if_either AreSane (not (gen == h.disc_gen)) (h, []) _ (v, tt)
      (if_either AreSane h.gatt.waiting_ref_read (h, []) (take_up gen idx h) (v, tt)
        (take_up-AreSane gen idx h small v))
dsc-AreSane gen idx failed h small v = (v, tt)
dsc-AreSane gen idx (found (uuid, handle)) h small v =
    if_either AreSane (not (gen == h.disc_gen)) (h, []) _ (v, tt)
      (if_either AreSane (uuid == report_ref_uuid) _ _
        ((v.0, types-IsWithin h.gatt h.gatt.report_ref_type true v.1.types v.1), (small, tt))
        (if_either AreSane (uuid == cccd_uuid) _ (h, [])
          (
            (
              v.0,
              record {
                count = v.1.count;
                handles = v.1.handles;
                props = v.1.props;
                cccds =
                    length-set_at h.gatt.cccd_handles idx handle (omega (arith, small, v.1.cccds))
                    ∙ v.1.cccds;
                types = v.1.types;
                subscribed = v.1.subscribed;
              },
            ),
            tt,
          )
          (v, tt)))

-- What is not an array is free.
handles-IsWithin :
    (g : GattState) (svc_end proto ctrl : ℕ)
    → IsWithin g
    → IsWithin
        (record g { hid_svc_end = svc_end; proto_mode_handle = proto; ctrl_pt_handle = ctrl })
handles-IsWithin g svc_end proto ctrl v = record {
  count = v.count;
  handles = v.handles;
  props = v.props;
  cccds = v.cccds;
  types = v.types;
  subscribed = v.subscribed;
}

chr-AreSane :
    (gen : ℕ) (what : Found (ℕ × ℕ × ℕ)) (h : BleHost)
    → IsSane h
    → AreSane (on_disc_chrs gen what h)
unfolding on_disc_chrs
chr-AreSane gen done h v =
    if_either AreSane (not (gen == h.disc_gen)) (h, []) _ (v, tt) (subscribe-AreSane gen 0 h v)
chr-AreSane gen failed h v = (v, tt)
chr-AreSane gen (found (uuid, handle, properties)) h v =
    let g = h.gatt in
    let is_report = (uuid == report_chr_uuid) && ltb g.report_count max_reports in
    if_either AreSane (not (gen == h.disc_gen)) (h, []) _ (v, tt)
      (if_split AreSane is_report _ _
        (λ room.
          let small : g.report_count < max_reports = ground (arith, room) in
          (
            (
              v.0,
              record {
                count = omega (arith, small);
                handles =
                    length-set_at g.report_val_handles g.report_count handle
                      (omega (arith, small, v.1.handles))
                    ∙ v.1.handles;
                props =
                    length-set_at g.report_props g.report_count properties
                      (omega (arith, small, v.1.props))
                    ∙ v.1.props;
                cccds = v.1.cccds;
                types = v.1.types;
                subscribed = v.1.subscribed;
              },
            ),
            tt,
          ))
        λ _.
          if_either AreSane (uuid == proto_mode_chr_uuid) _ _
            ((v.0, handles-IsWithin g g.hid_svc_end handle g.ctrl_pt_handle v.1), tt)
            (if_either AreSane (uuid == hid_ctrl_pt_chr_uuid) _ (h, [])
              ((v.0, handles-IsWithin g g.hid_svc_end g.proto_mode_handle handle v.1), tt) (v, tt)))

svc-AreSane :
    (gen : ℕ) (what : Found (ℕ × ℕ × ℕ)) (h : BleHost)
    → IsSane h
    → AreSane (on_disc_svcs gen what h)
unfolding on_disc_svcs
svc-AreSane gen done h v = (v, tt)
svc-AreSane gen failed h v = (v, tt)
svc-AreSane gen (found (uuid, start_handle, end_handle)) h v =
    let g = h.gatt in
    if_either AreSane (not (gen == h.disc_gen)) (h, []) _ (v, tt)
      (if_either AreSane (uuid == hid_svc_uuid) _ (h, [])
        ((v.0, handles-IsWithin g end_handle g.proto_mode_handle g.ctrl_pt_handle v.1), (tt, tt))
        (v, tt))

pub answer-AreSane :
    (gen : ℕ) (a : Answer) (h : BleHost) → IsInRange a → IsSane h → AreSane (answer gen a h)
unfolding answer
answer-AreSane gen (cccd_written idx status) h small v = cccd-AreSane gen idx status h v
answer-AreSane gen (ref_read idx value) h small v = ref-AreSane gen idx value h small v
answer-AreSane gen (dsc idx what) h small v = dsc-AreSane gen idx what h small v
answer-AreSane gen (chr what) h small v = chr-AreSane gen what h v
answer-AreSane gen (svc what) h small v = svc-AreSane gen what h v

pub discovery-IsSane : (h : BleHost) → IsSane (start_discovery h).0
unfolding start_discovery
discovery-IsSane h = (
  record { polled = omega arith; values = refl; turn = inl refl },
  record {
    count = omega arith;
    handles = refl;
    props = refl;
    cccds = refl;
    types = refl;
    subscribed = omega arith;
  },
)
