-- ===== src/Typing/Host.antt =====
-- A host with a US keyboard and Windows' number entry, as components/hid_defs/include/hid_text.h
-- describes it, reading the reports of a keyboard one by one. A report is its modifier and its first key.
use bluepass.Common.{
  none, some, get_or, ascii, ℕ, ◌+◌, ◌*◌, ◌<◌, ◌≡◌, refl, sym, Bool, true, false, not, ◌&&◌, List,
  [], ◌∷◌, ◌++◌, ◌==◌, if◌then◌else◌, map, arith, append_assoc, append-nil, All,
}
use bluepass.HidText.Cp1252.{cp1252_char}
use bluepass.Typing.{Keys, s_ascii_map, hex_key}

-- What arrives: a character, by its code point, or something else.
pub data Seen : Type 0 where
  character : ℕ → Seen
  garbled : Seen

-- The character of a code of the code page.
abbrev pub ansi : ℕ → Seen
ansi b = elim (cp1252_char b) [ none ↦ garbled | some cp ↦ character cp ]

-- The keys that were pressed since Alt went down are `entry`; `held` is the key of the last report.
pub record Host : Type 0 where
  pub num_lock : Bool
  pub alt : Bool
  pub held : ℕ
  pub entry : List ℕ

abbrev pub value : ℕ → List ℕ → ℕ → ℕ
value base [] acc = acc
value base (d ∷ ds) acc = value base ds (acc * base + d)

-- No key is down.
abbrev pub rest : Bool → Host
rest n = record { num_lock = n; alt = false; held = 0; entry = [] }

module _ (keys : Keys) where
  -- A key that is no Num Lock, with a modifier that is not Alt.
  abbrev pub is_plain : ℕ × ℕ → Bool
  is_plain (kc, modifier) =
      not (kc == 0) && not (kc == keys.num_lock) && not (modifier == keys.mod_l_alt)

  abbrev pub all_plain : List (ℕ × ℕ) → Bool
  all_plain [] = true
  all_plain (e ∷ es) = is_plain e && all_plain es

  -- Keys that are pressed one by one while Alt is held are collected.
  abbrev pub alt_taps : List ℕ → List (ℕ × ℕ)
  alt_taps [] = []
  alt_taps (k ∷ ks) = (keys.mod_l_alt, k) ∷ (keys.mod_l_alt, 0) ∷ alt_taps ks

module _ (keys : Keys) (numpad hex : ℕ → ℕ) (chars : ℕ → ℕ → ℕ) where
  -- A key types `low` alone and `high` with Shift.
  abbrev pub Types : ℕ → ℕ → ℕ → Type 0
  Types kc low high = (chars 0 kc ≡ low) × (chars keys.mod_l_shift kc ≡ high)

  -- The character of an entry: decimal after a 0, hexadecimal after the `+` of the keypad.
  abbrev pub decode : List ℕ → List Seen
  decode [] = []
  decode (k ∷ ks) =
      (if k == keys.keypad_add
        then character (value 16 (map hex ks) 0)
        else if numpad k == 0
        then ansi (value 10 (map numpad ks) 0)
        else garbled)
      ∷ []

  abbrev pub commit : Host → List Seen
  commit h = if h.num_lock then decode h.entry else garbled ∷ []

  pub host_step : ℕ × ℕ → Host → Host × List Seen
  host_step (modifier, kc) h =
      let alt = modifier == keys.mod_l_alt in
      let fresh = not (kc == 0) && not (kc == h.held) in
      let lock = fresh && (kc == keys.num_lock) in
      let out = if h.alt && not alt then commit h else [] in
      (
        record {
          num_lock = if lock then not h.num_lock else h.num_lock;
          alt = alt;
          held = kc;
          entry = if alt then (if fresh && not lock then h.entry ++ (kc ∷ []) else h.entry) else [];
        },
        if fresh && not lock && not alt then out ++ (character (chars modifier kc) ∷ []) else out,
      )

  pub run : List (ℕ × ℕ) → Host → Host × List Seen
  run [] h = (h, [])
  run (r ∷ rs) h = let (h1, out) = host_step r h in let (h2, more) = run rs h1 in (h2, out ++ more)

  pub run_nil : (h : Host) → run [] h ≡ (h, [])
  unfolding run
  run_nil h = refl

  pub run-append :
      (rs ss : List (ℕ × ℕ)) (h : Host)
      → run (rs ++ ss) h ≡ ((run ss (run rs h).0).0, (run rs h).1 ++ (run ss (run rs h).0).1)
  unfolding run
  run-append [] ss h = refl
  run-append (r ∷ rs) ss h = rw (run-append rs ss (host_step r h).0, append_assoc) refl

  pub run_then :
      (rs ss : List (ℕ × ℕ)) (h h1 h2 : Host) (out more : List Seen)
      → run rs h ≡ (h1, out)
      → run ss h1 ≡ (h2, more)
      → run (rs ++ ss) h ≡ (h2, out ++ more)
  run_then rs ss h h1 h2 out more e f = rw (run-append rs ss h, e, f) refl

  -- What the keys of a US keyboard type.
  pub record IsUsLayout : Type 0 where
    pub letter_types : (i : ℕ) → i < 26 → Types (keys.letter i) (97 + i) (65 + i)
    pub digit_types :
        (d : ℕ) → d < 10 → Types (keys.digit d) (48 + d) (get_or (ascii ")!@#$%^&*(") d 0)
    pub enter_types : chars 0 keys.enter ≡ 10
    pub space_types : chars 0 keys.space ≡ 32
    pub apostrophe_types : Types keys.apostrophe 39 34
    pub comma_types : Types keys.comma 44 60
    pub minus_types : Types keys.minus 45 95
    pub period_types : Types keys.period 46 62
    pub slash_types : Types keys.slash 47 63
    pub semicolon_types : Types keys.semicolon 59 58
    pub equal_types : Types keys.equal 61 43
    pub bracket_left_types : Types keys.bracket_left 91 123
    pub backslash_types : Types keys.backslash 92 124
    pub bracket_right_types : Types keys.bracket_right 93 125
    pub grave_types : Types keys.grave 96 126

  -- The key codes tell apart what the host has to tell apart, and the host reads a US keyboard.
  pub record IsLayout : Type 0 where
    pub numpad_digit : (d : ℕ) → d < 10 → numpad (keys.keypad d) ≡ d
    pub hex_digit : (d : ℕ) → d < 16 → hex (hex_key keys d) ≡ d
    pub hex_is_plain : (d : ℕ) → d < 16 → is_plain keys (hex_key keys d, 0) ≡ true
    pub digit_no_add : (d : ℕ) → d < 10 → (keys.keypad d == keys.keypad_add) ≡ false
    pub add_is_plain : is_plain keys (keys.keypad_add, 0) ≡ true
    pub enter_is_plain : is_plain keys (keys.enter, 0) ≡ true
    pub ascii_is_plain : all_plain keys (s_ascii_map keys) ≡ true
    pub num_lock_is_key : (keys.num_lock == 0) ≡ false
    pub us : IsUsLayout

  pub plain_parts :
      (kc modifier : ℕ)
      → is_plain keys (kc, modifier) ≡ true
      → ((kc == 0) ≡ false)
        × ((kc == keys.num_lock) ≡ false)
        × ((modifier == keys.mod_l_alt) ≡ false)
  plain_parts kc modifier p = ground (arith, p)

  and-false : (a : Bool) → (a && false) ≡ false
  and-false true = refl
  and-false false = refl

  pub same : (a : ℕ) → (a == a) ≡ true
  same a = ground arith

  pub tap_plain :
      (modifier up kc : ℕ) (n : Bool)
      → is_plain keys (kc, modifier) ≡ true
      → (up == keys.mod_l_alt) ≡ false
      → run ((modifier, kc) ∷ (up, 0) ∷ []) (rest n) ≡ (rest n, character (chars modifier kc) ∷ [])
  unfolding run host_step
  tap_plain modifier up kc n p u =
      let (live, no_lock, no_alt) = plain_parts kc modifier p in rw (live, no_lock, no_alt, u) refl

  pub release_run :
      (n : Bool) → (0 == keys.mod_l_alt) ≡ false → run ((0, 0) ∷ []) (rest n) ≡ (rest n, [])
  unfolding run host_step
  release_run n up = rw up refl

  pub tap_lock :
      (n : Bool) → IsLayout → run ((0, keys.num_lock) ∷ (0, 0) ∷ []) (rest n) ≡ (rest (not n), [])
  unfolding run host_step
  tap_lock n l =
      let (live, no_lock, no_alt) = plain_parts keys.enter 0 l.enter_is_plain in
      rw (l.num_lock_is_key, same keys.num_lock, no_alt) refl

  abbrev pub entered : Bool → List ℕ → Host
  entered n es = record { num_lock = n; alt = true; held = 0; entry = es }

  pub alt_tap :
      (n a : Bool) (k : ℕ) (es : List ℕ)
      → is_plain keys (k, 0) ≡ true
      → run
          ((keys.mod_l_alt, k) ∷ (keys.mod_l_alt, 0) ∷ [])
          (record { num_lock = n; alt = a; held = 0; entry = es })
        ≡ (entered n (es ++ (k ∷ [])), [])
  unfolding run host_step
  alt_tap n a k es p =
      let (live, no_lock, no_alt) = plain_parts k 0 p in
      rw (live, no_lock, same keys.mod_l_alt, and-false a) refl

  pub run-alt_taps :
      (n : Bool) (ks es : List ℕ)
      → All (λ k. is_plain keys (k, 0) ≡ true) ks
      → run (alt_taps keys ks) (entered n es) ≡ (entered n (es ++ ks), [])
  unfolding run
  run-alt_taps n [] es p = rw (append-nil es) refl
  run-alt_taps n (k ∷ ks) es p =
      run_then ((keys.mod_l_alt, k) ∷ (keys.mod_l_alt, 0) ∷ []) (alt_taps keys ks) _ _ _ [] []
        (alt_tap n true k es p.0)
        (rw (sym (append_assoc es (k ∷ []) ks)) (run-alt_taps n ks (es ++ (k ∷ [])) p.1))

  alt_up :
      (n : Bool) (es : List ℕ)
      → (0 == keys.mod_l_alt) ≡ false
      → run ((0, 0) ∷ []) (entered n es) ≡ (rest n, if n then decode es else garbled ∷ [])
  unfolding run host_step
  alt_up n es up = rw (up, append-nil (if n then decode es else garbled ∷ [])) refl

  -- Alt goes up behind an entry: its character arrives, if Num Lock is on.
  pub entry_run :
      (n : Bool) (k : ℕ) (ks : List ℕ)
      → All (λ k. is_plain keys (k, 0) ≡ true) (k ∷ ks)
      → (0 == keys.mod_l_alt) ≡ false
      → run (alt_taps keys (k ∷ ks) ++ ((0, 0) ∷ [])) (rest n)
        ≡ (rest n, if n then decode (k ∷ ks) else garbled ∷ [])
  entry_run n k ks p up =
      run_then (alt_taps keys (k ∷ ks)) ((0, 0) ∷ []) _ _ _ [] _
        (run_then ((keys.mod_l_alt, k) ∷ (keys.mod_l_alt, 0) ∷ []) (alt_taps keys ks) _ _ _ [] []
          (alt_tap n false k [] p.0) (run-alt_taps n ks (k ∷ []) p.1))
        (alt_up n (k ∷ ks) up)
