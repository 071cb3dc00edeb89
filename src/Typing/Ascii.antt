-- ===== src/Typing/Ascii.antt =====
-- The table of the ASCII keys against what the keys of a US keyboard type.
use bluepass.Common.{
  ℕ, zero, suc, ◌+◌, ◌-◌, ◌≤◌, ◌<◌, ◌≡◌, ◌∙◌, List, [], ◌∷◌, ◌++◌, get_or, length, arith,
}
use bluepass.Typing.{Keys, letters, s_ascii_map, ascii_entry}
use bluepass.Typing.Host.{IsUsLayout}
use mathlib.Core.Path.{subst}

module _ (keys : Keys) (numpad hex : ℕ → ℕ) (chars : ℕ → ℕ → ℕ) where
  -- The entries type the characters from `n` on.
  abbrev Reads : List (ℕ × ℕ) → ℕ → Type 0
  Reads [] n = Unit {0}
  Reads ((kc, modifier) ∷ es) n = (chars modifier kc ≡ n) × Reads es (n + 1)

  get_or-Reads :
      (es : List (ℕ × ℕ)) (n i : ℕ)
      → Reads es n
      → i < length es
      → chars (get_or es i (0, 0)).1 (get_or es i (0, 0)).0 ≡ n + i
  get_or-Reads [] n i h lt = absurd (omega arith)
  get_or-Reads (e ∷ es) n zero h lt = h.0 ∙ omega arith
  get_or-Reads (e ∷ es) n (suc i) h lt = get_or-Reads es (n + 1) i h.1 (omega arith) ∙ omega arith

  letters-Reads :
      (modifier base count i : ℕ) (es : List (ℕ × ℕ))
      → ((j : ℕ) → j < 26 → chars modifier (keys.letter j) ≡ base + j)
      → i + count ≤ 26
      → Reads es (base + i + count)
      → Reads (letters keys modifier count i ++ es) (base + i)
  letters-Reads modifier base zero i es typed small behind = subst (Reads es) (omega arith) behind
  letters-Reads modifier base (suc count) i es typed small behind = (
    typed i (omega arith),
    subst (Reads (letters keys modifier count (i + 1) ++ es)) (omega arith) (
        letters-Reads modifier base count (i + 1) es typed (omega arith)
          (subst (Reads es) (omega arith) behind)),
  )

  -- The entries behind the small letters, and behind the capital ones.
  abbrev last_entries : List (ℕ × ℕ)
  last_entries =
      (keys.bracket_left, keys.mod_l_shift)
      ∷ (keys.backslash, keys.mod_l_shift)
      ∷ (keys.bracket_right, keys.mod_l_shift)
      ∷ (keys.grave, keys.mod_l_shift)
      ∷ []

  abbrev late_entries : List (ℕ × ℕ)
  late_entries =
      (keys.bracket_left, 0)
      ∷ (keys.backslash, 0)
      ∷ (keys.bracket_right, 0)
      ∷ (keys.digit 6, keys.mod_l_shift)
      ∷ (keys.minus, keys.mod_l_shift)
      ∷ (keys.grave, 0)
      ∷ (letters keys 0 26 0 ++ last_entries)

  module _ (us : IsUsLayout keys numpad hex chars) where
    behind_small : Reads last_entries 123
    behind_small = (
      us.bracket_left_types.1,
      (us.backslash_types.1, (us.bracket_right_types.1, (us.grave_types.1, tt))),
    )

    behind_capitals : Reads late_entries 91
    behind_capitals = (
      us.bracket_left_types.0,
      (
        us.backslash_types.0,
        (
          us.bracket_right_types.0,
          (
            (us.digit_types 6 (omega arith)).1,
            (
              us.minus_types.1,
              (
                us.grave_types.0,
                letters-Reads 0 97 26 0 last_entries (λ j h. (us.letter_types j h).0) (omega arith)
                    behind_small,
              ),
            ),
          ),
        ),
      ),
    )

    s_ascii_map-Reads : Reads (s_ascii_map keys) 32
    s_ascii_map-Reads = (
      us.space_types,
      (
        (us.digit_types 1 (omega arith)).1,
        (
          us.apostrophe_types.1,
          (
            (us.digit_types 3 (omega arith)).1,
            (
              (us.digit_types 4 (omega arith)).1,
              (
                (us.digit_types 5 (omega arith)).1,
                (
                  (us.digit_types 7 (omega arith)).1,
                  (
                    us.apostrophe_types.0,
                    (
                      (us.digit_types 9 (omega arith)).1,
                      (
                        (us.digit_types 0 (omega arith)).1,
                        (
                          (us.digit_types 8 (omega arith)).1,
                          (
                            us.equal_types.1,
                            (
                              us.comma_types.0,
                              (
                                us.minus_types.0,
                                (
                                  us.period_types.0,
                                  (
                                    us.slash_types.0,
                                    (
                                      (us.digit_types 0 (omega arith)).0,
                                      (
                                        (us.digit_types 1 (omega arith)).0,
                                        (
                                          (us.digit_types 2 (omega arith)).0,
                                          (
                                            (us.digit_types 3 (omega arith)).0,
                                            (
                                              (us.digit_types 4 (omega arith)).0,
                                              (
                                                (us.digit_types 5 (omega arith)).0,
                                                (
                                                  (us.digit_types 6 (omega arith)).0,
                                                  (
                                                    (us.digit_types 7 (omega arith)).0,
                                                    (
                                                      (us.digit_types 8 (omega arith)).0,
                                                      (
                                                        (us.digit_types 9 (omega arith)).0,
                                                        (
                                                          us.semicolon_types.1,
                                                          (
                                                            us.semicolon_types.0,
                                                            (
                                                            us.comma_types.1,
                                                            (
                                                            us.equal_types.0,
                                                            (
                                                            us.period_types.1,
                                                            (
                                                            us.slash_types.1,
                                                            (
                                                            (us.digit_types 2 (omega arith)).1,
                                                            letters-Reads keys.mod_l_shift 65 26 0
                                                            late_entries
                                                            (λ j h. (us.letter_types j h).1)
                                                            (omega arith) behind_capitals,
                                                            ),
                                                            ),
                                                            ),
                                                            ),
                                                            ),
                                                          ),
                                                        ),
                                                      ),
                                                    ),
                                                  ),
                                                ),
                                              ),
                                            ),
                                          ),
                                        ),
                                      ),
                                    ),
                                  ),
                                ),
                              ),
                            ),
                          ),
                        ),
                      ),
                    ),
                  ),
                ),
              ),
            ),
          ),
        ),
      ),
    )

    -- Every entry types its character.
    pub ascii_entry-reads :
        (cp : ℕ)
        → 0x20 ≤ cp
        → cp ≤ 0x7e
        → chars (ascii_entry keys cp).1 (ascii_entry keys cp).0 ≡ cp
    ascii_entry-reads cp above below =
        get_or-Reads (s_ascii_map keys) 32 (cp - 0x20) s_ascii_map-Reads (omega arith) ∙ omega arith
