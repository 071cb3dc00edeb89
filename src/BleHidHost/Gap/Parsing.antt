-- ===== src/BleHidHost/Gap/Parsing.antt =====
-- The reports that components/ble_hid_host/ble_hid_host.c reads in notifications.
use bluepass.Common.{
  ℕ, ◌+◌, ◌*◌, ◌≡◌, refl, ap, ◌∙◌, true, false, List, [], ◌∷◌, if◌then◌else◌, ltb, length, take,
  arith, Bool-cases, inl, inr, bit_or_low, IsByte,
}
use bluepass.HidReport.{HidReport}
use bluepass.BleHidHost.{BleHost, report, consumer}
use bluepass.BleHidHost.Gap.{is_subscribed, parse_report, notify_rx}

-- A report of six keys.
abbrev pub pressing : ℕ → List ℕ → HidReport
pressing modifier keys = record {
  keyboard = record { modifier = modifier; reserved = 0; keycode = keys };
  consumer_code = 0;
}

-- The three forms of a report of the keyboard, and the two of a media key.
keyboard_forms :
    (k0 k1 k2 k3 k4 k5 m r id : ℕ)
    → let keys = k0 ∷ k1 ∷ k2 ∷ k3 ∷ k4 ∷ k5 ∷ [] in
      (parse_report (m ∷ r ∷ keys) ≡ pressing m keys)
      × (parse_report (id ∷ m ∷ r ∷ keys) ≡ pressing m keys)
      × (parse_report (m ∷ keys) ≡ pressing m keys)
unfolding parse_report
keyboard_forms k0 k1 k2 k3 k4 k5 m r id = (refl, refl, refl)

media_forms :
    (lo hi id : ℕ)
    → IsByte lo
    → (parse_report (lo ∷ hi ∷ []) ≡ consumer (hi * 256 + lo))
      × (parse_report (id ∷ lo ∷ hi ∷ []) ≡ consumer (hi * 256 + lo))
unfolding parse_report
media_forms lo hi id h = (ap consumer (bit_or_low 8 hi lo h), ap consumer (bit_or_low 8 hi lo h))

gate :
    (attr x y : ℕ) (packet : List ℕ) (h : BleHost)
    → h.ctx.has_report_cb ≡ true
    → notify_rx attr (x ∷ y ∷ packet) h ≡ (
        if is_subscribed attr h.gatt.subscribed
        then report (parse_report (take 10 (x ∷ y ∷ packet))) ∷ []
        else [])
unfolding notify_rx
gate attr x y packet h cb =
    let long : ltb (length (take 10 (x ∷ y ∷ packet))) 2 ≡ false = ground arith in
    elim (Bool-cases (is_subscribed attr h.gatt.subscribed)) [
      | inl s ↦ rw (cb, long, s) refl
      | inr s ↦ rw (cb, long, s) refl
    ]

-- A notification of a report that was subscribed to gives the keyboard's modifier and its six keys,
-- whether the packet has an identifier before them or not, and whether it has the reserved byte or,
-- without an identifier, not; and it gives the code of a media key, low byte first, with an
-- identifier or without. A notification of any other attribute gives nothing.
pub notify_rx-forms :
    (attr : ℕ) (h : BleHost) (m r id k0 k1 k2 k3 k4 k5 lo hi : ℕ)
    → h.ctx.has_report_cb ≡ true
    → IsByte lo
    → let keys = k0 ∷ k1 ∷ k2 ∷ k3 ∷ k4 ∷ k5 ∷ [] in
      let gives =
        λ (x : HidReport). if is_subscribed attr h.gatt.subscribed then report x ∷ [] else [] in
      (notify_rx attr (m ∷ r ∷ keys) h ≡ gives (pressing m keys))
      × (notify_rx attr (id ∷ m ∷ r ∷ keys) h ≡ gives (pressing m keys))
      × (notify_rx attr (m ∷ keys) h ≡ gives (pressing m keys))
      × (notify_rx attr (lo ∷ hi ∷ []) h ≡ gives (consumer (hi * 256 + lo)))
      × (notify_rx attr (id ∷ lo ∷ hi ∷ []) h ≡ gives (consumer (hi * 256 + lo)))
notify_rx-forms attr h m r id k0 k1 k2 k3 k4 k5 lo hi cb byte =
    let keys = k0 ∷ k1 ∷ k2 ∷ k3 ∷ k4 ∷ k5 ∷ [] in
    let gives =
      λ (x : HidReport). if is_subscribed attr h.gatt.subscribed then report x ∷ [] else [] in
    let board = keyboard_forms k0 k1 k2 k3 k4 k5 m r id in
    let media = media_forms lo hi id byte in
    (
      gate attr m r keys h cb ∙ ap gives board.0,
      gate attr id m (r ∷ keys) h cb ∙ ap gives board.1,
      gate attr m k0 (k1 ∷ k2 ∷ k3 ∷ k4 ∷ k5 ∷ []) h cb ∙ ap gives board.2,
      gate attr lo hi [] h cb ∙ ap gives media.0,
      gate attr id lo (hi ∷ []) h cb ∙ ap gives media.1,
    )
