-- ===== src/Webhook/Matching.antt =====
-- `webhook_dispatch` of components/webhook/webhook.c over all slots at once.
use bluepass.Common.{
  ℕ, zero, suc, ◌<◌, ◌≢◌, get_or, ascii, All, IsByte, if_split, if_either, ◌≤◌, ◌≡◌, refl, ap, ◌∙◌,
  sym, Bool, true, false, not, ◌&&◌, ◌||◌, List, [], ◌∷◌, ◌++◌, map, ltb, ◌==◌, if◌then◌else◌,
  length, take, append-nil, append_assoc, length-append, arith, take_all, Bool-cases, inl, inr,
}
use bluepass.HidReport.{HidReport, contains_key, c_string}
use bluepass.Webhook.Encoding.{
  percent_decode, url_encode-percent_decode, url_encode_fits, IsChar, IsUrlChar,
}
use bluepass.Webhook.{
  WebhookSlot, Webhook, url_encode, queue_len, request_url, slot_matches, enqueue, dispatch_loop,
  webhook_dispatch,
}

-- The slots that the code takes a report for, and whether there is one.
abbrev pub matching : HidReport → List WebhookSlot → List WebhookSlot
matching r [] = []
matching r (s ∷ ss) = let rest = matching r ss in if slot_matches r s then s ∷ rest else rest

abbrev pub is_empty {ℓ} : {A : Type ℓ} → List A → Bool
is_empty [] = true
is_empty (x ∷ xs) = false

take_full : (n : ℕ) (xs ys : List (List ℕ)) → length xs ≡ n → take n (xs ++ ys) ≡ xs
take_full zero [] ys h = refl
take_full zero (x ∷ xs) ys h = absurd (omega arith)
take_full (suc n) [] ys h = absurd (omega arith)
take_full (suc n) (x ∷ xs) ys h = ap (◌∷◌ x) (take_full n xs ys (omega arith))

enqueue_lem :
    (url : List ℕ) (queue urls : List (List ℕ))
    → length queue ≤ queue_len
    → (take queue_len (enqueue url queue ++ urls) ≡ take queue_len (queue ++ (url ∷ urls)))
      × (length (enqueue url queue) ≤ queue_len)
unfolding enqueue
enqueue_lem url queue urls h = elim (Bool-cases (ltb (length queue) queue_len)) [
  | inl room ↦
      (rw (room, append_assoc) refl, rw room (ground (arith, length-append queue (url ∷ []))))
  | inr full ↦ (
    rw full (
        take_full queue_len queue urls (ground arith)
        ∙ sym (take_full queue_len queue (url ∷ urls) (ground arith))),
    rw full h,
  )
]

loop_lem :
    (r : HidReport) (ss : List WebhookSlot) (matched : Bool) (queue : List (List ℕ))
    → length queue ≤ queue_len
    → dispatch_loop r ss matched queue ≡ (
      matched || not (is_empty (matching r ss)),
      take queue_len (queue ++ map request_url (matching r ss)),
    )
unfolding dispatch_loop
loop_lem r [] matched queue h = ground (arith, append-nil queue, take_all queue_len queue h)
loop_lem r (s ∷ ss) matched queue h =
    let urls = map request_url (matching r ss) in
    let queued = enqueue_lem (request_url s) queue urls h in
    elim (Bool-cases (slot_matches r s)) [
      | inl hit ↦ rw hit (
          ground (
            arith,
            loop_lem r ss (matched || true) (enqueue (request_url s) queue) queued.1,
            queued.0,
          ))
      | inr miss ↦ rw miss (ground (arith, loop_lem r ss (matched || false) queue h))
    ]

-- `k` is one of the keys.
abbrev pub Among : ℕ → List ℕ → Type 0
Among k keys = (i : ℕ) × (i < length keys) × (get_or keys i 0 ≡ k)

-- A report is for a slot that is active and has a key, where it has the slot's modifiers and the
-- slot's key among its own.
pub record IsFor (r : HidReport) (s : WebhookSlot) : Type 0 where
  pub active : s.active ≡ true
  pub has_key : s.keycode ≢ 0
  pub modifiers : r.keyboard.modifier ≡ s.modifiers
  pub pressed : Among s.keycode r.keyboard.keycode

-- The slots that a report is for, in their order.
pub data AreFor (r : HidReport) : List WebhookSlot → List WebhookSlot → Type 0 where
  none_left : AreFor r [] []
  hit :
      (s : WebhookSlot) (ss chosen : List WebhookSlot)
      → IsFor r s
      → AreFor r ss chosen
      → AreFor r (s ∷ ss) (s ∷ chosen)
  miss :
      (s : WebhookSlot) (ss chosen : List WebhookSlot)
      → ¬ (IsFor r s)
      → AreFor r ss chosen
      → AreFor r (s ∷ ss) chosen

-- The value of a slot, as the slot holds it: at most 63 characters and a NUL.
pub record IsTerminated (s : WebhookSlot) : Type 0 where
  pub text : List ℕ
  pub behind : List ℕ
  pub held : s.value ≡ text ++ (0 ∷ behind)
  pub chars : All IsChar text
  pub short : length text ≤ 63
  pub bytes : All IsByte s.value

-- The address of a slot, cut to 401 characters: the one it has, or, with a value, a query behind it
-- whose text decodes to the value and has no character with a meaning of its own.
pub data IsAddress (s : WebhookSlot) : List ℕ → Type 0 where
  bare : get_or s.value 0 0 ≡ 0 → IsAddress s (take 401 (c_string s.url))
  valued :
      (text behind enc : List ℕ)
      → s.value ≡ text ++ (0 ∷ behind)
      → get_or s.value 0 0 ≢ 0
      → percent_decode enc ≡ text
      → All IsUrlChar enc
      → IsAddress s (take 401 (c_string s.url ++ (ascii "?value=" ++ enc)))

abbrev pub AreAddresses : List WebhookSlot → List (List ℕ) → Type 0
AreAddresses [] [] = Unit {0}
AreAddresses [] (u ∷ us) = ⊥
AreAddresses (s ∷ ss) [] = ⊥
AreAddresses (s ∷ ss) (u ∷ us) = IsAddress s u × AreAddresses ss us

contains_key-Among : (k : ℕ) (keys : List ℕ) → contains_key k keys ≡ true → Among k keys
unfolding contains_key
contains_key-Among k [] h = absurd (ground (arith, h))
contains_key-Among k (x ∷ keys) h = elim (Bool-cases (x == k)) [
  | inl here ↦ (0, omega arith, ground (arith, here))
  | inr there ↦
      let (i, small, e) = contains_key-Among k keys (ground (arith, h, there)) in
      (suc i, omega (arith, small), e)
]

Among-contains_key : (k : ℕ) (keys : List ℕ) → Among k keys → contains_key k keys ≡ true
unfolding contains_key
Among-contains_key k [] (i, small, e) = absurd (omega (arith, small))
Among-contains_key k (x ∷ keys) (zero, small, e) = ground (arith, e)
Among-contains_key k (x ∷ keys) (suc i, small, e) =
    ground (arith, Among-contains_key k keys (i, omega (arith, small), e))

slot_matches-IsFor : (r : HidReport) (s : WebhookSlot) → slot_matches r s ≡ true → IsFor r s
unfolding slot_matches
slot_matches-IsFor r s h = record {
  active = ground (arith, h);
  has_key = ground (arith, h);
  modifiers = ground (arith, h);
  pressed = contains_key-Among s.keycode r.keyboard.keycode (ground (arith, h));
}

IsFor-slot_matches : (r : HidReport) (s : WebhookSlot) → IsFor r s → slot_matches r s ≡ true
unfolding slot_matches
IsFor-slot_matches r s v = ground (
  arith,
  v.active,
  v.has_key,
  v.modifiers,
  Among-contains_key s.keycode r.keyboard.keycode v.pressed,
)

matching-AreFor : (r : HidReport) (ss : List WebhookSlot) → AreFor r ss (matching r ss)
matching-AreFor r [] = none_left
matching-AreFor r (s ∷ ss) =
    if_split (AreFor r (s ∷ ss)) (slot_matches r s) _ _
      (λ yes. hit s ss (matching r ss) (slot_matches-IsFor r s yes) (matching-AreFor r ss))
      λ no.
        miss s ss (matching r ss) (λ v. ground (arith, no, IsFor-slot_matches r s v))
          (matching-AreFor r ss)

request_url-IsAddress : (s : WebhookSlot) → IsTerminated s → IsAddress s (request_url s)
unfolding request_url
request_url-IsAddress s v = elim (Bool-cases (get_or s.value 0 0 == 0)) [
  | inl none_there ↦ rw none_there (bare (ground (arith, none_there)))
  | inr there ↦ rw there (
      valued v.text v.behind (url_encode s.value 193) v.held (ground (arith, there))
        (rw v.held (url_encode-percent_decode v.text v.behind v.chars v.short))
        (url_encode_fits s.value 193 v.bytes (omega arith)).0)
]

urls-AreAddresses :
    (r : HidReport) (ss : List WebhookSlot)
    → All IsTerminated ss
    → AreAddresses (matching r ss) (map request_url (matching r ss))
urls-AreAddresses r [] p = tt
urls-AreAddresses r (s ∷ ss) p =
    if_either (λ ms. AreAddresses ms (map request_url ms)) (slot_matches r s) _ _
      (request_url-IsAddress s p.0, urls-AreAddresses r ss p.1) (urls-AreAddresses r ss p.1)

-- With at most four addresses in the queue, and slots whose values end in them: a report of a key or a
-- combination is taken exactly if webhooks are switched on and it is for some slot, one that is active,
-- with its modifiers and with its key among the report's. Then the addresses of all these slots, with
-- their values in encoding, are queued in the order of the slots, as far as the queue of four has room.
-- A report of a media key, or one while the switch is off, queues nothing.
pub webhook_dispatch-matching :
    (r : HidReport) (w : Webhook)
    → length w.queue ≤ queue_len
    → All IsTerminated w.slots
    → (chosen : List WebhookSlot) × (urls : List (List ℕ)) × (AreFor r w.slots chosen
        × AreAddresses chosen urls
        × (webhook_dispatch r w ≡ (
            if w.enabled && r.consumer_code == 0
            then (not (is_empty chosen), record w { queue = take queue_len (w.queue ++ urls) })
            else (false, w))))
unfolding webhook_dispatch
webhook_dispatch-matching r w h ended = (
  matching r w.slots,
  map request_url (matching r w.slots),
  (
    matching-AreFor r w.slots,
    urls-AreAddresses r w.slots ended,
    ground (arith, loop_lem r w.slots false w.queue h),
  ),
)
