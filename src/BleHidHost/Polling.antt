-- ===== src/BleHidHost/Polling.antt =====
-- Reports that components/ble_hid_host/ble_hid_host.c has to ask for.
use bluepass.Common.{
  ℕ, zero, suc, ◌+◌, ◌<◌, ◌≡◌, refl, ap, ◌∙◌, true, not, ◌&&◌, ◌||◌, Option, none, some, List, [],
  ◌∷◌, ◌++◌, map, ◌==◌, if◌then◌else◌, get_or, length, arith, Bool-cases, ==_iff, inl, inr,
  if_either, if_split,
}
use native.Mathlib.Nat.{mod-lt}
use bluepass.BleHidHost.{
  max_poll_handles, set_at, BleHost, Call, report, consumer, polled_code, on_poll_read,
  poll_timer_cb,
}
use bluepass.BleHidHost.Gatt.Bounds.{IsSane, AreSane, length-set_at}

get_or-set_at : (xs : List ℕ) (i x : ℕ) → i < length xs → get_or (set_at xs i x) i 0 ≡ x
unfolding set_at
get_or-set_at [] i x h = absurd (omega arith)
get_or-set_at (y ∷ ys) zero x h = refl
get_or-set_at (y ∷ ys) (suc i) x h = get_or-set_at ys i x (omega arith)

-- The packets that one handle gives, one after the other.
pub polls : ℕ → List (List ℕ) → BleHost → BleHost × List Call
polls idx [] h = (h, [])
polls idx (p ∷ ps) h =
    let (h1, calls) = on_poll_read idx (some p) h in
    let (h2, more) = polls idx ps h1 in (h2, calls ++ more)

-- The keys that go down in a sequence of codes: each that differs from the one before and is not 0.
pub downs : ℕ → List ℕ → List ℕ
downs last [] = []
downs last (c ∷ cs) =
    let more = downs c cs in if not (c == last) && not (c == 0) then c ∷ more else more

-- What a handle that is polled is reported as: each code that differs from the one before, except for
-- 0. The release of a media key is not reported.
pub polls-downs :
    (idx : ℕ) (ps : List (List ℕ)) (h : BleHost)
    → idx < length h.poll.last_val
    → h.ctx.has_report_cb ≡ true
    → (polls idx ps h).1
      ≡ map (λ c. report (consumer c)) (downs (get_or h.poll.last_val idx 0) (map polled_code ps))
unfolding polls downs on_poll_read
polls-downs idx [] h within cb = refl
polls-downs idx (p ∷ ps) h within cb =
    let cc = polled_code p in
    let last = get_or h.poll.last_val idx 0 in
    let next = record h { poll = record h.poll { last_val = set_at h.poll.last_val idx cc } } in
    let stored = get_or-set_at h.poll.last_val idx cc within in
    let more : (polls idx ps next).1
        ≡ map (λ c. report (consumer c)) (downs cc (map polled_code ps)) =
      polls-downs idx ps next (omega (arith, length-set_at h.poll.last_val idx cc within)) cb
      ∙ rw stored refl in
    elim (Bool-cases (cc == last)) [
      | inl same ↦ rw (same, (==_iff cc last).0 same) (polls-downs idx ps h within cb)
      | inr changed ↦ elim (Bool-cases (cc == 0)) [
        | inl up ↦ rw (changed, up) more
        | inr down ↦
            rw (changed, down)
              (ap (λ b. (if b then report (consumer cc) ∷ [] else []) ++ (polls idx ps next).1) cb
                ∙ ap (◌∷◌ (report (consumer cc))) more)
      ]
    ]

-- Asking for the next handle keeps to the handles there are, and asks the one whose turn it is.
pub turn-AreSane : (h : BleHost) → IsSane h → AreSane (poll_timer_cb h)
unfolding poll_timer_cb
turn-AreSane h v =
    let count = length h.poll.handles in
    if_split AreSane (not h.ctx.connected || (count == 0)) (h, []) _ (λ _. (v, tt))
      λ some_left. (
        (
          record {
            polled = v.0.polled;
            values = v.0.values;
            turn = inr (mod-lt (h.poll.current + 1) (ground (arith, some_left)));
          },
          v.1,
        ),
        (ground (arith, v.0.turn, v.0.polled), tt),
      )

pub read-IsSane :
    (idx : ℕ) (packet : Option (List ℕ)) (h : BleHost)
    → idx < max_poll_handles
    → IsSane h
    → IsSane (on_poll_read idx packet h).0
unfolding on_poll_read
read-IsSane idx none h small v = v
read-IsSane idx (some packet) h small v =
    let cc = polled_code packet in
    let P : BleHost × List Call → Type 0 = λ r. IsSane r.0 in
    if_either P (cc == get_or h.poll.last_val idx 0) (h, []) _ v
      (
        record {
          polled = v.0.polled;
          values =
              length-set_at h.poll.last_val idx cc (omega (arith, small, v.0.values)) ∙ v.0.values;
          turn = v.0.turn;
        },
        v.1,
      )
