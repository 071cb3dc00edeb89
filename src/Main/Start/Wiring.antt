-- ===== src/Main/Start/Wiring.antt =====
-- What the start of main/main.c has to have started, by the setting of the connection.
use bluepass.Common.{
  ℕ, ◌≡◌, ◌≤◌, ◌⊎◌, refl, inl, inr, Bool, true, false, not, ◌&&◌, ◌||◌, Option, none, some, List,
  [], ◌∷◌, arith,
}
use bluepass.Storage.{Nvs}
use bluepass.Storage.Settings.{storage_get_connection_mode}
use bluepass.Main.Start.{
  StartCall, usb_output, ble_output, ble_device_init, ble_host_init, hotkey_init, jiggler_init,
  set_jiggler_cb, jiggler_configure, jiggler_enable, webhook_init, mqtt_init, web_ui_init,
  wifi_init, start_ap, web_ui_start, fido2_init, usb_device_init, fido2_rx, fido2_tx, usb_host_init,
  Step, checked, plain, jiggler_steps, app_main, start,
}

-- What runs, and whether each part was started behind what it needs: `needs` below.
pub record Running : Type 0 where
  pub types_over_usb : Bool
  pub types_over_ble : Bool
  pub usb_device : Bool
  pub ble_device : Bool
  pub usb_keyboard : Bool
  pub ble_keyboard : Bool
  pub ble_stack : Bool
  pub hotkeys : Bool
  pub jiggler : Bool
  pub jiggler_told : Bool
  pub jiggling : Bool
  pub webhook : Bool
  pub mqtt : Bool
  pub web_ui : Bool
  pub wifi : Bool
  pub setup : Bool
  pub setup_page : Bool
  pub fido2 : Bool
  pub fido2_rx_wired : Bool
  pub fido2_tx_wired : Bool
  pub in_order : Bool

abbrev pub nothing_runs : Running
nothing_runs = record {
  types_over_usb = false;
  types_over_ble = false;
  usb_device = false;
  ble_device = false;
  usb_keyboard = false;
  ble_keyboard = false;
  ble_stack = false;
  hotkeys = false;
  jiggler = false;
  jiggler_told = false;
  jiggling = false;
  webhook = false;
  mqtt = false;
  web_ui = false;
  wifi = false;
  setup = false;
  setup_page = false;
  fido2 = false;
  fido2_rx_wired = false;
  fido2_tx_wired = false;
  in_order = true;
}

-- What a call needs to run: the service for the computer is registered before the Bluetooth stack runs,
-- the hotkeys have their output, the calls of the jiggler, of the WLAN and of FIDO2 come behind their
-- starts, the jiggler is switched on behind its callback, the web interface finds the parts that it
-- configures, and a wired keyboard finds the hotkeys.
pub needs : StartCall → Running → Bool
needs usb_output r = true
needs ble_output r = true
needs ble_device_init r = not r.ble_stack
needs (ble_host_init central) r = true
needs hotkey_init r = r.types_over_usb || r.types_over_ble
needs jiggler_init r = true
needs set_jiggler_cb r = r.jiggler
needs (jiggler_configure keycode modifiers interval_ms) r = r.jiggler
needs jiggler_enable r = r.jiggler && r.jiggler_told
needs webhook_init r = true
needs mqtt_init r = true
needs web_ui_init r = r.hotkeys && r.jiggler && r.webhook && r.mqtt
needs wifi_init r = r.mqtt && r.web_ui
needs start_ap r = r.wifi
needs web_ui_start r = r.web_ui && r.setup
needs fido2_init r = true
needs usb_device_init r = r.fido2
needs fido2_rx r = r.fido2 && r.usb_device
needs fido2_tx r = r.fido2 && r.usb_device
needs usb_host_init r = r.hotkeys

pub switched_on : StartCall → Running → Running
switched_on usb_output r = record r { types_over_usb = true; types_over_ble = false }
switched_on ble_output r = record r { types_over_usb = false; types_over_ble = true }
switched_on ble_device_init r = record r { ble_device = true }
switched_on (ble_host_init central) r = record r { ble_keyboard = central; ble_stack = true }
switched_on hotkey_init r = record r { hotkeys = true }
switched_on jiggler_init r = record r { jiggler = true; jiggling = false }
switched_on set_jiggler_cb r = record r { jiggler_told = true }
switched_on (jiggler_configure keycode modifiers interval_ms) r = r
switched_on jiggler_enable r = record r { jiggling = true }
switched_on webhook_init r = record r { webhook = true }
switched_on mqtt_init r = record r { mqtt = true }
switched_on web_ui_init r = record r { web_ui = true }
switched_on wifi_init r = record r { wifi = true }
switched_on start_ap r = record r { setup = true }
switched_on web_ui_start r = record r { setup_page = true }
switched_on fido2_init r = record r { fido2 = true }
switched_on usb_device_init r = record r { usb_device = true }
switched_on fido2_rx r = record r { fido2_rx_wired = true }
switched_on fido2_tx r = record r { fido2_tx_wired = true }
switched_on usb_host_init r = record r { usb_keyboard = true }

pub started : StartCall → Running → Running
started c r = record (switched_on c r) { in_order = r.in_order && needs c r }

pub all_started : List StartCall → Running → Running
all_started [] r = r
all_started (c ∷ cs) r = all_started cs (started c r)

abbrev pub is_enabled : Option (ℕ × ℕ × ℕ × Bool) → Bool
is_enabled none = false
is_enabled (some (keycode, modifiers, interval_ms, enabled)) = enabled

-- The computer gets keys over what is started, there is one keyboard, and FIDO2 is wired over USB, both
-- ways; every other part runs, the jiggler is on as its settings say, and the setup is there without
-- credentials.
pub record IsWired (enabled has_creds : Bool) (r : Running) : Type 0 where
  pub usb_types : r.usb_device ≡ r.types_over_usb
  pub ble_types : r.ble_device ≡ r.types_over_ble
  pub one_output : r.types_over_ble ≡ not r.types_over_usb
  pub one_keyboard : r.ble_keyboard ≡ not r.usb_keyboard
  pub fido2_receives : r.fido2_rx_wired ≡ r.usb_device
  pub fido2_sends : r.fido2_tx_wired ≡ r.usb_device
  pub runs :
      (r.ble_stack && r.hotkeys && r.jiggler && r.jiggler_told && r.webhook && r.mqtt && r.web_ui
        && r.wifi && r.fido2)
      ≡ true
  pub jiggles : r.jiggling ≡ enabled
  pub access_point : r.setup ≡ not has_creds
  pub page : r.setup_page ≡ not has_creds
  pub ordered : r.in_order ≡ true

calls_of : List Step → List StartCall
calls_of [] = []
calls_of (plain c ∷ ss) = c ∷ calls_of ss
calls_of (checked c ∷ ss) = c ∷ calls_of ss

well_started :
    (answers : StartCall → ℕ)
    → ((c : StartCall) → answers c ≡ 0)
    → (ss : List Step) → start answers ss ≡ (calls_of ss, true)
unfolding start calls_of
well_started answers well [] = refl
well_started answers well (plain c ∷ ss) = rw (well_started answers well ss) refl
well_started answers well (checked c ∷ ss) = rw (well_started answers well ss, well c) refl

-- What runs behind the start, by whether the computer and whether the keyboard is on USB.
abbrev all_running : Bool → Bool → Bool → Bool → Running
all_running usb wired enabled has_creds = record {
  types_over_usb = usb;
  types_over_ble = not usb;
  usb_device = usb;
  ble_device = not usb;
  usb_keyboard = wired;
  ble_keyboard = not wired;
  ble_stack = true;
  hotkeys = true;
  jiggler = true;
  jiggler_told = true;
  jiggling = enabled;
  webhook = true;
  mqtt = true;
  web_ui = true;
  wifi = true;
  setup = not has_creds;
  setup_page = not has_creds;
  fido2 = true;
  fido2_rx_wired = usb;
  fido2_tx_wired = usb;
  in_order = true;
}

all_running-IsWired :
    (usb wired enabled has_creds : Bool)
    → IsWired enabled has_creds (all_running usb wired enabled has_creds)
all_running-IsWired usb wired enabled has_creds = record {
  usb_types = refl;
  ble_types = refl;
  one_output = refl;
  one_keyboard = refl;
  fido2_receives = refl;
  fido2_sends = refl;
  runs = refl;
  jiggles = refl;
  access_point = refl;
  page = refl;
  ordered = refl;
}

abbrev ending : ℕ → Option (ℕ × ℕ × ℕ × Bool) → Bool → Running
ending mode jig_cfg has_creds =
    all_started (calls_of (app_main mode jig_cfg has_creds)) nothing_runs

bt_usb_ending :
    (jig_cfg : Option (ℕ × ℕ × ℕ × Bool)) (has_creds : Bool)
    → ending 0 jig_cfg has_creds ≡ all_running true false (is_enabled jig_cfg) has_creds
unfolding all_started started switched_on needs calls_of app_main jiggler_steps
bt_usb_ending none false = refl
bt_usb_ending none true = refl
bt_usb_ending (some (k, m, i, false)) false = refl
bt_usb_ending (some (k, m, i, false)) true = refl
bt_usb_ending (some (k, m, i, true)) false = refl
bt_usb_ending (some (k, m, i, true)) true = refl

bt_bt_ending :
    (jig_cfg : Option (ℕ × ℕ × ℕ × Bool)) (has_creds : Bool)
    → ending 1 jig_cfg has_creds ≡ all_running false false (is_enabled jig_cfg) has_creds
unfolding all_started started switched_on needs calls_of app_main jiggler_steps
bt_bt_ending none false = refl
bt_bt_ending none true = refl
bt_bt_ending (some (k, m, i, false)) false = refl
bt_bt_ending (some (k, m, i, false)) true = refl
bt_bt_ending (some (k, m, i, true)) false = refl
bt_bt_ending (some (k, m, i, true)) true = refl

usb_bt_ending :
    (jig_cfg : Option (ℕ × ℕ × ℕ × Bool)) (has_creds : Bool)
    → ending 2 jig_cfg has_creds ≡ all_running false true (is_enabled jig_cfg) has_creds
unfolding all_started started switched_on needs calls_of app_main jiggler_steps
usb_bt_ending none false = refl
usb_bt_ending none true = refl
usb_bt_ending (some (k, m, i, false)) false = refl
usb_bt_ending (some (k, m, i, false)) true = refl
usb_bt_ending (some (k, m, i, true)) false = refl
usb_bt_ending (some (k, m, i, true)) true = refl

mode-IsWired :
    (mode : ℕ) (jig_cfg : Option (ℕ × ℕ × ℕ × Bool)) (has_creds : Bool)
    → mode ≤ 2
    → IsWired (is_enabled jig_cfg) has_creds (ending mode jig_cfg has_creds)
mode-IsWired mode jig_cfg has_creds h = elim (three mode h) [
  | inl e ↦
      rw (e, bt_usb_ending jig_cfg has_creds)
        (all_running-IsWired true false (is_enabled jig_cfg) has_creds)
  | inr later ↦ elim later [
    | inl e ↦
        rw (e, bt_bt_ending jig_cfg has_creds)
          (all_running-IsWired false false (is_enabled jig_cfg) has_creds)
    | inr e ↦
        rw (e, usb_bt_ending jig_cfg has_creds)
          (all_running-IsWired false true (is_enabled jig_cfg) has_creds)
  ]
]
  where
    three : (n : ℕ) → n ≤ 2 → (n ≡ 0) ⊎ ((n ≡ 1) ⊎ (n ≡ 2))
    three n h = ground (arith, h)

module _ {S : Type 0} (nvs : Nvs S) where
  mode_known : (s : S) → (storage_get_connection_mode nvs s).1 ≤ 2
  unfolding storage_get_connection_mode
  mode_known s = ground arith

  -- Whatever the flash holds as the setting of the connection, and with any setting of the jiggler, a
  -- start in which no call fails leaves the program running, and everything wired: keys go to the
  -- computer over the interface that was started, exactly one kind of keyboard is listened to, FIDO2
  -- receives from and sends to USB exactly where the computer is connected over it, the jiggler is on
  -- as its settings say, the access point and the page for the setup are there exactly without
  -- credentials, every other part was started, and each call came behind those that needs names for it.
  pub app_main-IsWired :
      (s : S) (answers : StartCall → ℕ) (jig_cfg : Option (ℕ × ℕ × ℕ × Bool)) (has_creds : Bool)
      → ((c : StartCall) → answers c ≡ 0)
      → let (calls, runs) =
          start answers (app_main (storage_get_connection_mode nvs s).1 jig_cfg has_creds) in
        (runs ≡ true) × IsWired (is_enabled jig_cfg) has_creds (all_started calls nothing_runs)
  app_main-IsWired s answers jig_cfg has_creds well =
      let mode = (storage_get_connection_mode nvs s).1 in
      rw (well_started answers well (app_main mode jig_cfg has_creds))
        (refl, mode-IsWired mode jig_cfg has_creds (mode_known s))
