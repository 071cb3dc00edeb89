-- ===== src/BleHidDevice/Reachable.antt =====
-- The connection of components/ble_hid_device/ble_hid_device.c through sequences of events.
use bluepass.Common.{
  ℕ, ◌≡◌, refl, ◌∙◌, Bool, true, false, not, ◌||◌, Option, none, some, List, [], ◌∷◌, ◌++◌, ◌==◌,
  if◌then◌else◌, inl, inr, Bool-cases, if_either, if_split,
}
use bluepass.BleHidDevice.{
  NimBle, Ble, GapEvent, connect, disconnect, adv_complete, repeat_pairing, other, gap_cb,
  on_nimble_sync, ble_hid_device_start_advertising,
}

abbrev pub last_or : Bool → List Bool → Bool
last_or d [] = d
last_or d (x ∷ xs) = last_or x xs

abbrev pub has_handle : Option ℕ → Bool
has_handle none = false
has_handle (some h) = true

last-append : (d x : Bool) (xs : List Bool) → last_or d (xs ++ (x ∷ [])) ≡ x
last-append d x [] = refl
last-append d x (y ∷ ys) = last-append y x ys

-- The device is connected or can be found, never both; it has a handle exactly while it is connected;
-- and the callback was told so last.
pub record IsReachable (b : Ble) : Type 0 where
  pub found : b.advertising ≡ not b.connected
  pub handle : has_handle b.conn_handle ≡ b.connected
  pub registered : b.has_conn_cb ≡ true
  pub knows : last_or false b.told ≡ b.connected

pub gap_all : NimBle → List GapEvent → Ble → Ble
gap_all ble [] b = b
gap_all ble (e ∷ es) b = gap_all ble es (gap_cb ble e b)

module _ (ble : NimBle) (fields : ble.adv_set_fields ≡ 0) (rsp_fields : ble.adv_rsp_set_fields ≡ 0)
    (starts : ((ble.adv_start == 0) || (ble.adv_start == ble.ealready)) ≡ true) where
  start_lem :
      (b : Ble)
      → (ble_hid_device_start_advertising ble b).1
        ≡ (if b.connected then b else record b { advertising = true })
  unfolding ble_hid_device_start_advertising
  start_lem b = elim (Bool-cases b.connected) [
    | inl up ↦ rw up refl
    | inr down ↦ rw (down, fields, rsp_fields, starts) refl
  ]

  gap-IsReachable : (e : GapEvent) (b : Ble) → IsReachable b → IsReachable (gap_cb ble e b)
  unfolding gap_cb
  gap-IsReachable (connect status h) b v =
      if_either IsReachable (status == 0) _ _
        (rw v.registered record {
          found = refl;
          handle = refl;
          registered = refl;
          knows = last-append false true b.told;
        })
        v
  gap-IsReachable disconnect b v = rw v.registered (
      rw (start_lem _) record {
        found = refl;
        handle = refl;
        registered = refl;
        knows = last-append false false b.told;
      })
  gap-IsReachable adv_complete b v =
      if_split IsReachable b.connected _ _ (λ _. v)
        λ down.
          rw (start_lem b, down)
            record {
              found = refl;
              handle = v.handle ∙ down;
              registered = v.registered;
              knows = v.knows ∙ down;
            }
  gap-IsReachable repeat_pairing b v = v
  gap-IsReachable other b v = v

  all-IsReachable : (es : List GapEvent) (b : Ble) → IsReachable b → IsReachable (gap_all ble es b)
  unfolding gap_all
  all-IsReachable [] b v = v
  all-IsReachable (e ∷ es) b v = all-IsReachable es (gap_cb ble e b) (gap-IsReachable e b v)

  -- Where NimBLE starts advertising when it is asked, then from its start on, through any sequence of
  -- connections, failed ones too, of disconnections, of ends of advertising and of other events, the
  -- device either is connected or says that it advertises, and never both; it has a handle exactly
  -- while it is connected, and the callback was told so last.
  pub gap_all-IsReachable :
      (es : List GapEvent) (b : Ble)
      → b.connected ≡ false
      → b.conn_handle ≡ none
      → b.has_conn_cb ≡ true
      → b.told ≡ []
      → IsReachable (gap_all ble es (on_nimble_sync ble b))
  unfolding on_nimble_sync
  gap_all-IsReachable es b down no_handle registered untold = all-IsReachable es _ (
      rw (start_lem b, down)
        record {
          found = refl;
          handle = rw no_handle refl;
          registered = registered;
          knows = rw untold refl;
        })
