-- ===== src/Typing/Strings.antt =====
-- Whole strings, with Num Lock switched on for them where it is off.
use bluepass.Common.{
  ℕ, ◌^◌, ◌<◌, ◌≡◌, refl, ap, ◌∙◌, Bool, true, false, not, ◌&&◌, ◌||◌, inl, inr, Option, none, some,
  List, [], ◌∷◌, ◌++◌, ltb, leb, ◌==◌, if◌then◌else◌, arith, append-nil, Bool-cases, Option-cases,
  All,
}
use bluepass.HidText.{hid_cp1252_from_codepoint}
use bluepass.Typing.{hid_text_mode_alt, hid_text_mode_scan, hid_text_mode_alt_hex, Keys}
use bluepass.Typing.Host.{Seen, run, rest, run_nil, run_then, IsLayout, tap_lock, release_run}
use bluepass.Typing.Text.{strokes, seen, point_run, alt_is_none}

abbrev pub is_some : Option ℕ → Bool
is_some none = false
is_some (some b) = true

-- Whether a code point is typed as a number.
abbrev pub by_number : ℕ → ℕ → Bool
by_number mode cp =
    if ltb cp 0x20
    then false
    else if mode == hid_text_mode_alt_hex
    then true
    else not (mode == hid_text_mode_scan)
      && ((mode == hid_text_mode_alt) || ltb 0x7e cp)
      && is_some (hid_cp1252_from_codepoint cp)

abbrev pub any_by_number : ℕ → List ℕ → Bool
any_by_number mode [] = false
any_by_number mode (cp ∷ cps) = by_number mode cp || any_by_number mode cps

mapped_number :
    (mode cp b : ℕ)
    → ltb cp 0x20 ≡ false
    → (mode == hid_text_mode_alt_hex) ≡ false
    → (leb cp 0x7e && not (mode == hid_text_mode_alt)) ≡ false
    → (mode == hid_text_mode_scan) ≡ false
    → hid_cp1252_from_codepoint cp ≡ some b
    → by_number mode cp ≡ false
    → ⊥
mapped_number mode cp b printable no_hex outside no_scan e h =
    let some_code : is_some (hid_cp1252_from_codepoint cp) ≡ true = rw e refl in
    ground (arith, printable, no_hex, outside, no_scan, some_code, h)

neither : (a b : Bool) → (a || b) ≡ false → (a ≡ false) × (b ≡ false)
neither true b h = absurd (ground (arith, h))
neither false b h = (refl, h)

-- Num Lock behind a tap, if there is one.
abbrev pub switched : Bool → Bool → Bool
switched toggle n = if toggle then not n else n

switched-switched : (toggle n : Bool) → switched toggle (switched toggle n) ≡ n
switched-switched true true = refl
switched-switched true false = refl
switched-switched false n = refl

switched-not : (n : Bool) → switched (not n) n ≡ true
switched-not true = refl
switched-not false = refl

module _ (keys : Keys) (numpad hex : ℕ → ℕ) (chars : ℕ → ℕ → ℕ) where
  unfoldable pub all_strokes : Bool → ℕ → List ℕ → List (ℕ × ℕ)
  all_strokes keeps mode [] = []
  all_strokes keeps mode (cp ∷ cps) =
      strokes keys numpad hex chars keeps mode cp ++ all_strokes keeps mode cps

  -- What is to arrive of a text.
  pub all_seen : Bool → ℕ → List ℕ → List Seen
  all_seen num_lock mode [] = []
  all_seen num_lock mode (cp ∷ cps) =
      seen keys numpad hex chars num_lock mode cp ++ all_seen num_lock mode cps

  abbrev pub lock_presses : Bool → List (ℕ × ℕ)
  lock_presses toggle = if toggle then (0, keys.num_lock) ∷ (0, 0) ∷ [] else []

  seen_without :
      (n : Bool) (mode cp : ℕ)
      → by_number mode cp ≡ false
      → seen keys numpad hex chars n mode cp ≡ seen keys numpad hex chars true mode cp
  unfolding seen
  seen_without n mode cp h = elim (Bool-cases (cp == 10)) [
    | inl line ↦ rw line refl
    | inr no_line ↦ rw no_line elim (Bool-cases (ltb cp 0x20)) [
      | inl control ↦ rw control refl
      | inr printable ↦ rw printable elim (Bool-cases (mode == hid_text_mode_alt_hex)) [
        | inl is_hex ↦ absurd (ground (arith, h, printable, is_hex))
        | inr no_hex ↦
            rw no_hex (elim (Bool-cases (leb cp 0x7e && not (mode == hid_text_mode_alt))) [
              | inl ascii ↦ rw ascii refl
              | inr outside ↦ rw outside elim (Bool-cases (mode == hid_text_mode_scan)) [
                | inl is_scan ↦ rw is_scan refl
                | inr no_scan ↦ rw no_scan elim (Option-cases (hid_cp1252_from_codepoint cp)) [
                  | inl unmapped ↦ rw unmapped refl
                  | inr mapped ↦
                      absurd
                        (mapped_number mode cp mapped.0 printable no_hex outside no_scan mapped.1 h)
                ]
              ]
            ])
      ]
    ]
  ]

  all_seen_without :
      (n : Bool) (mode : ℕ) (cps : List ℕ)
      → any_by_number mode cps ≡ false
      → all_seen n mode cps ≡ all_seen true mode cps
  unfolding all_seen
  all_seen_without n mode [] h = refl
  all_seen_without n mode (cp ∷ cps) h =
      let (one, others) = neither (by_number mode cp) (any_by_number mode cps) h in
      rw (seen_without n mode cp one, all_seen_without n mode cps others) refl

  module _ (layout : IsLayout keys numpad hex chars) where
    pub points_run :
        (keeps n : Bool) (mode : ℕ) (cps : List ℕ)
        → All (λ cp. cp < 2 ^ 32) cps
        → run keys numpad hex chars (all_strokes keeps mode cps) (rest n)
          ≡ (rest n, all_seen n mode cps)
    unfolding all_strokes all_seen
    points_run keeps n mode [] p = run_nil keys numpad hex chars (rest n)
    points_run keeps n mode (cp ∷ cps) p =
        run_then keys numpad hex chars (strokes keys numpad hex chars keeps mode cp)
          (all_strokes keeps mode cps) _ _ _ _ _
          (point_run keys numpad hex chars layout keeps n mode cp p.0)
          (points_run keeps n mode cps p.1)

    lock_run :
        (toggle n : Bool)
        → run keys numpad hex chars (lock_presses toggle) (rest n) ≡ (rest (switched toggle n), [])
    lock_run true n = tap_lock keys numpad hex chars n layout
    lock_run false n = run_nil keys numpad hex chars (rest n)

    -- The presses of a text between two taps of Num Lock, or none, and a release.
    abbrev pub presses : Bool → Bool → ℕ → List ℕ → List (ℕ × ℕ)
    presses keeps toggle mode cps =
        lock_presses toggle
        ++ (all_strokes keeps mode cps ++ (lock_presses toggle ++ ((0, 0) ∷ [])))

    around_run :
        (keeps toggle n : Bool) (mode : ℕ) (cps : List ℕ)
        → All (λ cp. cp < 2 ^ 32) cps
        → run keys numpad hex chars (presses keeps toggle mode cps) (rest n)
          ≡ (rest n, all_seen (switched toggle n) mode cps)
    around_run keeps toggle n mode cps p =
        let then_ = run_then keys numpad hex chars in
        then_ (lock_presses toggle)
          (all_strokes keeps mode cps ++ (lock_presses toggle ++ ((0, 0) ∷ []))) _ _ _ _ _
          (lock_run toggle n)
          (then_ (all_strokes keeps mode cps) (lock_presses toggle ++ ((0, 0) ∷ [])) _ _ _ _ _
            (points_run keeps (switched toggle n) mode cps p)
            (then_ (lock_presses toggle) ((0, 0) ∷ []) _ _ _ _ _
              (lock_run toggle (switched toggle n))
              (release_run keys numpad hex chars (switched toggle (switched toggle n))
                (alt_is_none keys numpad hex chars layout))))
        ∙ rw (switched-switched toggle n, append-nil (all_seen (switched toggle n) mode cps)) refl

    -- With Num Lock switched on for a text that needs it, the whole text arrives.
    pub typed_run :
        (keeps n : Bool) (mode : ℕ) (cps : List ℕ)
        → All (λ cp. cp < 2 ^ 32) cps
        → run keys numpad hex chars
            (presses keeps (any_by_number mode cps && not n) mode cps)
            (rest n)
          ≡ (rest n, all_seen true mode cps)
    typed_run keeps n mode cps p =
        around_run keeps (any_by_number mode cps && not n) n mode cps p
        ∙ ap (λ o. (rest n, o))
            (elim (Bool-cases (any_by_number mode cps)) [
              | inl needed ↦ rw (needed, switched-not n) refl
              | inr unneeded ↦ rw unneeded (all_seen_without n mode cps unneeded)
            ])
