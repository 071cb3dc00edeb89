-- ===== src/ClientPin/Retries.antt =====
-- The retry counter of clientPIN in components/fido2/fido2.c: what one command and what any
-- sequence of commands and restarts does to it, and what it protects.
use bluepass.Common.{
  ℕ, ◌+◌, ◌-◌, ◌%◌, ◌≤◌, ◌≡◌, refl, ap, Bool, true, false, ◌&&◌, ◌||◌, List, [], ◌∷◌, leb, ◌==◌,
  if◌then◌else◌, arith, replicate,
}
use bluepass.Storage.{
  Nvs, Fido2Config, storage_set_fido2_config, storage_fido2_has_pin, storage_set_fido2_pin_hash,
}
use bluepass.Storage.Laws.{IsReliable, get_config-set}
use bluepass.ClientPin.{Crypto, Chance, PinState, Outcome, replied, crashed, param, cmd_client_pin}
use bluepass.ClientPin.Effects.{
  subcommand, config, retries, with_retries, PinStep, overflows, refuses, reports, drops_key,
  renews_key, misses, unlocks, sets_pin, changes_pin, with_pin,
}
use bluepass.ClientPin.Protocol.{cmd_client_pin-PinStep}

-- What a command leaves alone when it grants nothing and costs nothing.
abbrev pub Keeps : {S : Type 0} → PinState S → Outcome S → Type 0
Keeps f crashed = Unit
Keeps f (replied g status body) =
    (g.flash ≡ f.flash) × (g.pin_token ≡ f.pin_token) × (g.pin_token_valid ≡ f.pin_token_valid)

-- A reply that gives out a token or sets a PIN: the sub-commands from 3 on, answered with OK.
abbrev pub grants : ℕ → ℕ → Bool
grants sub status = leb 3 sub && status == 0

abbrev pub wrong : ℕ → ℕ
wrong status = if status == 0x31 then 1 else 0

-- What happens to the device: a request with what the environment supplies to it, or a restart.
pub data Event : Type 0 where
  request : Chance → List ℕ → ℕ → Event
  restart : Event

-- The static state after a start; the flash stays.
abbrev pub boot : {S : Type 0} → PinState S → PinState S
boot f = record f {
  pin_d = [];
  pin_key_valid = false;
  pin_token = replicate 16 0;
  pin_token_valid = false;
}

-- The replies whose sub-command and status `p` accepts.
abbrev pub any_reply : (ℕ → ℕ → Bool) → List (ℕ × ℕ) → Bool
any_reply p [] = false
any_reply p ((sub, status) ∷ rs) = p sub status || any_reply p rs

abbrev pub wrong_guesses : List (ℕ × ℕ) → ℕ
wrong_guesses [] = 0
wrong_guesses ((sub, status) ∷ rs) = wrong status + wrong_guesses rs

module _ {S : Type 0} (nvs : Nvs S) (c : Crypto) (fuel : ℕ) where
  -- The replies to a sequence of events, with their sub-commands, and the state behind it. A
  -- command that overflows the stack restarts the device.
  unfoldable pub run : List Event → PinState S → List (ℕ × ℕ) × PinState S
  run [] f = ([], f)
  run (restart ∷ es) f = run es (boot f)
  run (request ch req req_len ∷ es) f = elim (cmd_client_pin nvs c ch fuel req req_len f) [
    | crashed ↦ run es (boot f)
    | replied g status body ↦
        let (rs, h) = run es g in ((subcommand (param nvs c ch fuel req req_len 2), status) ∷ rs, h)
  ]

module _ {S : Type 0} (nvs : Nvs S) (c : Crypto) where
  kept :
      {fuel : ℕ} {req : List ℕ} {req_len : ℕ} (sub : ℕ) (f : PinState S) {o : Outcome S}
      → storage_fido2_has_pin nvs f.flash ≡ true
      → retries nvs c f ≡ 0
      → PinStep nvs c fuel req req_len sub f o
      → Keeps f o
  kept sub f pin none_left overflows = tt
  kept sub f pin none_left (refuses status fails differs) = (refl, refl, refl)
  kept sub f pin none_left (reports body one) = (refl, refl, refl)
  kept sub f pin none_left (drops_key two) = (refl, refl, refl)
  kept sub f pin none_left (renews_key d body two) = (refl, refl, refl)
  kept sub f pin none_left (misses secret hash which guess) = absurd (guess.left none_left)
  kept sub f pin none_left (unlocks token body secret hash five has guess) =
      absurd (guess.left none_left)
  kept sub f pin none_left (sets_pin p secret three free agreed proven) = ground arith
  kept sub f pin none_left (changes_pin p secret hash four guess proven) =
      absurd (guess.left none_left)

  -- With a PIN set and no retry left, no request whatever changes the flash, the token or its
  -- validity: not the right PIN either, whatever the cryptography does.
  pub cmd_client_pin_locked :
      (ch : Chance) (fuel : ℕ) (req : List ℕ) (req_len : ℕ) (f : PinState S)
      → storage_fido2_has_pin nvs f.flash ≡ true
      → retries nvs c f ≡ 0
      → Keeps f (cmd_client_pin nvs c ch fuel req req_len f)
  cmd_client_pin_locked ch fuel req req_len f pin none_left =
      kept _ f pin none_left (cmd_client_pin-PinStep nvs c ch fuel req req_len f)

  module _ (works : IsReliable nvs) where
    stored :
        (f : PinState S) (s : S) (cfg : Fido2Config) (n : ℕ)
        → retries nvs c
            (record f { flash = (storage_set_fido2_config nvs s (with_retries nvs c cfg n)).1 })
          ≡ n
    stored f s cfg n =
        ap (λ r. r.1.pin_retries) (get_config-set nvs works s (with_retries nvs c cfg n))

    -- What a reply may do to the counter.
    Counted : ℕ → PinState S → Outcome S → Type 0
    Counted sub f crashed = Unit
    Counted sub f (replied g status body) =
        (grants sub status ≡ false → retries nvs c g + wrong status ≤ retries nvs c f)
        × (retries nvs c g ≤ 8)

    renewed :
        (sub : ℕ) (f : PinState S) (pin : List ℕ)
        → 3 ≤ sub
        → Counted sub f (replied (with_pin nvs c f pin) 0 [])
    unfolding Counted
    renewed sub f pin large = (
      λ g. ground arith,
      ground (
        arith,
        stored f (storage_set_fido2_pin_hash nvs f.flash (c.sha256 pin)).1 (config nvs c f) 8,
      ),
    )

    counted :
        {fuel : ℕ} {req : List ℕ} {req_len : ℕ} (sub : ℕ) (f : PinState S) {o : Outcome S}
        → retries nvs c f ≤ 8
        → PinStep nvs c fuel req req_len sub f o
        → Counted sub f o
    unfolding Counted
    counted sub f le overflows = tt
    counted sub f le (refuses status fails differs) = (λ g. ground arith, le)
    counted sub f le (reports body one) = (λ g. ground arith, le)
    counted sub f le (drops_key two) = (λ g. ground arith, le)
    counted sub f le (renews_key d body two) = (λ g. ground arith, le)
    counted sub f le (misses secret hash which guess) =
        ground (arith, stored f f.flash (config nvs c f) ((retries nvs c f + 256 - 1) % 256))
    counted sub f le (unlocks token body secret hash five has guess) =
        (λ g. ground arith, ground (arith, stored f f.flash (config nvs c f) 8))
    counted sub f le (sets_pin p secret three free agreed proven) = renewed sub f p (omega arith)
    counted sub f le (changes_pin p secret hash four guess proven) = renewed sub f p (omega arith)

    Bounded : PinState S → List (ℕ × ℕ) × PinState S → Type 0
    Bounded f r =
        any_reply grants r.0 ≡ false → wrong_guesses r.0 + retries nvs c r.1 ≤ retries nvs c f

    Bounded-step :
        (sub : ℕ) (f : PinState S) (rest : PinState S → List (ℕ × ℕ) × PinState S) (o : Outcome S)
        → retries nvs c f ≤ 8
        → ((g : PinState S) → retries nvs c g ≤ 8 → Bounded g (rest g))
        → Counted sub f o
        → Bounded f (elim o [
          | crashed ↦ rest (boot f)
          | replied g status body ↦ ((sub, status) ∷ (rest g).0, (rest g).1)
        ])
    unfolding Bounded Counted
    Bounded-step sub f rest crashed le ih count never = ih (boot f) le never
    Bounded-step sub f rest (replied g status body) le ih count never =
        let later = ih g count.1 (ground arith) in let now = count.0 (ground arith) in omega arith

    -- As long as no token is given out and no PIN is set, the wrong guesses that are answered and
    -- the retries that are left are together no more than the retries at the start. This holds
    -- over any sequence of requests, with restarts between them or not.
    pub wrong_guesses-run :
        (fuel : ℕ) (es : List Event) (f : PinState S)
        → retries nvs c f ≤ 8
        → any_reply grants (run nvs c fuel es f).0 ≡ false
        → wrong_guesses (run nvs c fuel es f).0 + retries nvs c (run nvs c fuel es f).1
          ≤ retries nvs c f
    unfolding run Bounded
    wrong_guesses-run fuel [] f le never = omega arith
    wrong_guesses-run fuel (restart ∷ es) f le never = wrong_guesses-run fuel es (boot f) le never
    wrong_guesses-run fuel (request ch req req_len ∷ es) f le never =
        Bounded-step _ f (run nvs c fuel es) (cmd_client_pin nvs c ch fuel req req_len f) le
          (wrong_guesses-run fuel es)
          (counted _ f le (cmd_client_pin-PinStep nvs c ch fuel req req_len f)) never
