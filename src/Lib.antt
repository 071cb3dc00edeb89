-- ===== src/Lib.antt =====
-- bluepass: verification of the firmware's own logic.
--
-- The firmware (ESP32-S3, C) sits between a keyboard and a computer. It replaces configured key
-- combinations by typed text, one-time codes and other actions, and acts as a FIDO2 authenticator on
-- a second USB interface. The parts that are modelled, and how they work together:
--
--  - components/fido2/fido2.c receives 64-byte HID packets in its task (`fido2_task`), puts them
--    together to messages (`ctaphid_process_packet`), and answers with `ctaphid_send_packet`. This is
--    CtapHid.antt, with the packets in CtapHid/Packets and Chunks, the receiver's invariant in
--    CtapHid/Invariant, and sending into receiving in CtapHid/Reassembly. A whole message is an action
--    in the result; Authenticator/Dispatch performs it (`ctaphid_dispatch`), with the replies in
--    Dispatch/Answers and the way of a ping there and back in Dispatch/Echo.
--  - The commands read their parameters from CBOR with the `cd_*` functions and write their replies
--    with the `ce_*` functions: Cbor.antt. Cbor/Heads and Reading are about one head, Tree and Skip
--    about whole items, Find and FindText about the lookup in maps, Strings about byte and text
--    strings. Cose.antt has the keys of the PIN protocol in that notation.
--  - `cmd_client_pin` is ClientPin.antt, one function per sub-command and per step that sub-commands
--    share. ClientPin/Effects states what a command may do as a relation on states, ClientPin/Steps
--    and Protocol prove that the code keeps to it, and ClientPin/Retries draws the consequences for
--    one command and for sequences of commands and restarts.
--  - `cmd_make_credential` and `cmd_get_assertion` are Authenticator/Register and
--    Authenticator/Assert: what is read before the wait for the user, in the source's order, and what
--    is done behind it. Authenticator.antt has what they share, the check of the PIN token among it;
--    Register/Effects and Assert/Effects state what a command may do, the files Steps that it keeps
--    to it. `fido2_init`, the reset and getInfo are Authenticator/Manage.
--  - A credential is sealed into its own id, or kept as a resident key: Credential.antt, with the
--    round trips of both in Credential/RoundTrip and from a registration to a search in
--    Credential/Stored, over the frame lemmas of Storage/Slots/Frames.
--  - `wait_for_up`, `fido2_confirm_up` and `fido2_intercept_key` are UserPresence.antt, with the
--    interleaving of the tasks written out as lists of key presses between two takes of the
--    semaphore.
--  - components/storage/storage.c keeps the settings in flash: Storage.antt has the FIDO2
--    configuration, the PIN hash and the signature counter, Storage/Slots the numbered slots,
--    Storage/Settings the single settings. NVS is a record of functions on an abstract state;
--    Storage/Laws says what the proofs rely on where a flash works, and Storage/Working is one that
--    does. Sectors, wear and a loss of power during a write are not modelled.
--  - components/totp/totp.c makes the one-time codes that a hotkey types: Totp.antt, with the base 32
--    decoder in Totp/Digits and Totp/Base32 and the codes in Totp/Codes.
--  - components/jiggler/jiggler.c presses a key from time to time: Jiggler.antt, with the agreement of
--    timer, flag and callback in Jiggler/Sync.
--  - components/hotkey/hotkey.c takes each report of the keyboard: Hotkey.antt, with the calls, events
--    and messages that leave it as a list. Hotkey/Reports is about one report, Hotkey/Typing about a
--    text that is typed while reports come in, Hotkey/Host about what the host sees over whole runs.
--    It calls the jiggler, components/webhook/webhook.c (Webhook.antt, with the encoding of the value
--    in Webhook/Encoding and the slots in Webhook/Matching) and components/mqtt_mgr/mqtt_mgr.c
--    (Mqtt.antt, with the client's life in Mqtt/Lifecycle and its messages in Mqtt/Incoming).
--    HidReport.antt has the reports of components/hid_defs/include/hid_defs.h.
--  - A text is typed over USB or Bluetooth. Typing.antt has what both drivers type alike: the table of
--    keys and the digits of the two entries with Alt. Typing/Host is a host with a US keyboard that
--    reads key reports, on its own terms, and Typing/Ascii the table of keys against it; Typing/Points
--    cuts a text into code points, Typing/Text and Typing/Strings say what keys a text becomes and that
--    the host reads its characters.
--  - components/usb_hid_device/usb_hid_device.c is UsbHidDevice.antt, over the answers of TinyUSB:
--    UsbHidDevice/Through and Arrival where every report is taken, UsbHidDevice/Errors where not.
--  - components/ble_hid_device/ble_hid_device.c is BleHidDevice.antt: the connection to the computer
--    with its events in BleHidDevice/Reachable, the text that is typed in BleHidDevice/Arrival.
--  - components/ble_hid_host/ble_hid_host.c connects the keyboard: BleHidHost.antt has its state,
--    BleHidHost/Gatt the discovery, with what each answer keeps in Gatt/Answers and Gatt/Bounds,
--    BleHidHost/Gap the connection, the reports and the timers, with whole runs in Gap/Runs and the
--    forms of a report in Gap/Parsing; BleHidHost/Polling is about keyboards that do not notify.
--  - components/wifi_manager/wifi_manager.c is WifiManager.antt with the state and the LED,
--    and WifiManager/Radio with the events and calls; what the LED shows is in WifiManager/Led and,
--    over all events, in Led/Events, the attempts to connect in WifiManager/Retries.
--  - main/main.c passes reports on to FIDO2 or to the hotkeys, and reads the button: Main.antt, with
--    the presses in Main/Presses. `app_main`, which starts the parts and connects their callbacks, is
--    Main/Start, with the wiring in Start/Wiring. The log of components/fido2/fido2.c is Diagnostics.antt, with what is
--    left of its lines in Diagnostics/Lines.
--  - components/hid_defs/hid_text.c decodes the text that is typed: HidText.antt, with the UTF-8
--    decoder in HidText/Utf8 and the Windows-1252 table in HidText/Cp1252.
--  - Common.antt passes on the library's names and holds Boolean tests, lists and bit masks over the
--    native numbers.
--
-- A function of the source keeps its name. Its early returns are branches; a function that changes a
-- static variable takes the state and returns the new one. A byte is a number below 256, and the
-- wrap-around of `uint8_t`, `uint32_t` and of the 32-bit `size_t` is written out. Memory behind a
-- buffer is part of the list where the source can read it, as in `CborDec`.
--
-- Bounds and fuel: the fuel of `cd_skip` is the depth of its recursion, which the source does not
-- bound; running out of it stands for the overflow of the task's stack, and `Cbor.Skip` shows which
-- depth is enough for an item. The fuel of `send_loop` is the length of the message, since every
-- packet carries a byte at least; that of `make_room` is the length of the log, since every round
-- takes a character. The loops over a text that is typed have one round more than the text has bytes,
-- which is enough since every round takes a byte (Typing/Points). All else recurs on its data.
--
-- Not modelled: mbedtls, ESP-IDF, FreeRTOS, TinyUSB and NimBLE, which are parameters, lists of calls
-- or left out; the web interface (components/web_ui), whose handlers read and write JSON and HTML over
-- the settings; components/usb_hid_host, which only hands reports of a wired keyboard over; the
-- descriptors of both HID devices and the device information they show; delays, the modes for saving
-- power, and which messages are logged. Keep-alive messages are left out. The flash is taken to stay as
-- it is while a command waits for the user, and the HTTP and MQTT clients are the addresses and calls
-- that they are given.
pub mod Common
pub mod Cbor
pub mod CtapHid
pub mod HidText
pub mod Cose
pub mod Storage
pub mod ClientPin
pub mod Totp
pub mod UserPresence
pub mod Jiggler
pub mod Credential
pub mod Authenticator
pub mod HidReport
pub mod Webhook
pub mod Mqtt
pub mod Hotkey
pub mod Diagnostics
pub mod Main
pub mod WifiManager
pub mod Typing
pub mod UsbHidDevice
pub mod BleHidDevice
pub mod BleHidHost
