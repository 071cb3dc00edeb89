-- ===== src/Webhook.antt =====
-- components/webhook/webhook.c: the slots, the address that is requested, and the match of a report.
-- The HTTP client, in another task, takes addresses out of the queue.
pub mod Encoding
pub mod Matching
mod Tests
use bluepass.Common.{
  ℕ, zero, suc, ◌+◌, ◌-◌, ◌/◌, ◌%◌, Bool, true, false, not, ◌&&◌, ◌||◌, Option, none, some, List,
  [], ◌∷◌, ◌++◌, ltb, leb, ◌==◌, if◌then◌else◌, length, get_or, take, drop, replicate, ascii,
}
use bluepass.Storage.{Nvs}
use bluepass.Storage.Settings.{storage_get_webhook_enabled}
use bluepass.Storage.Slots.{storage_get_webhook_slot, webhook_slots_max, webhook_slot_size}
use bluepass.HidReport.{HidReport, contains_key, c_string}

-- `webhook_slot_t` without its label. `value` is the memory from that field on.
pub record WebhookSlot : Type 0 where
  pub active : Bool
  pub modifiers : ℕ
  pub keycode : ℕ
  pub url : List ℕ
  pub value : List ℕ

pub bytes_slot : List ℕ → WebhookSlot
bytes_slot b = record {
  active = not (get_or b 0 0 == 0);
  modifiers = get_or b 1 0;
  keycode = get_or b 2 0;
  url = drop 3 b;
  value = drop 203 b;
}

-- The static state: the switch, the slots, and the addresses in the queue.
pub record Webhook : Type 0 where
  pub enabled : Bool
  pub slots : List WebhookSlot
  pub queue : List (List ℕ)

abbrev pub queue_len : ℕ
queue_len = 4

-- The sizes of `job.url` and of the array for the encoded value.
abbrev pub job_url_size : ℕ
job_url_size = 402

abbrev pub enc_size : ℕ
enc_size = 193

-- A slot that cannot be read is zeroed.
module _ {S : Type 0} (nvs : Nvs S) where
  pub load_slot : S → ℕ → WebhookSlot
  load_slot s i =
      let (err, written) = storage_get_webhook_slot nvs i s in
      let zeros = replicate webhook_slot_size 0 in
      bytes_slot (if err == 0 then elim written [ none ↦ zeros | some b ↦ b ] else zeros)

  pub load_slots : S → ℕ → ℕ → List WebhookSlot
  load_slots s zero i = []
  load_slots s (suc rounds) i = load_slot s i ∷ load_slots s rounds (i + 1)

  pub webhook_reload : S → Webhook → Webhook
  webhook_reload s w = record w {
    enabled = (storage_get_webhook_enabled nvs s).1;
    slots = load_slots s webhook_slots_max 0;
  }

  -- `created`: the queue could be allocated.
  pub webhook_init : Bool → S → Webhook → ℕ × Webhook
  webhook_init created s w =
      if created then (0, webhook_reload s (record w { queue = [] })) else (0x101, w)

-- Letters, digits and `-_.~`.
pub is_unreserved : ℕ → Bool
is_unreserved c =
    (leb b'A' c && leb c b'Z')
    || (leb b'a' c && leb c b'z')
    || (leb b'0' c && leb c b'9')
    || (c == b'-')
    || (c == b'_')
    || (c == b'.')
    || (c == b'~')

-- `hex[n]`, upper case.
pub hex_digit : ℕ → ℕ
hex_digit n = if ltb n 10 then 48 + n else 55 + n

-- The loop over the characters; `di` is the number of bytes written.
pub url_encode_loop : List ℕ → ℕ → ℕ → List ℕ
url_encode_loop [] di dst_sz = []
url_encode_loop (c ∷ cs) di dst_sz =
    let plain = c ∷ url_encode_loop cs (di + 1) dst_sz in
    let escaped =
      0x25 ∷ hex_digit (c / 16) ∷ hex_digit (c % 16) ∷ url_encode_loop cs (di + 3) dst_sz in
    if (c == 0) || leb dst_sz (di + 3) then [] else if is_unreserved c then plain else escaped

pub url_encode : List ℕ → ℕ → List ℕ
url_encode src dst_sz = url_encode_loop src 0 dst_sz

-- `snprintf` of the address into `job.url`, which cuts what does not fit.
pub request_url : WebhookSlot → List ℕ
request_url s =
    let plain = c_string s.url in
    let with_value = plain ++ (ascii "?value=" ++ url_encode s.value enc_size) in
    take (job_url_size - 1) (if get_or s.value 0 0 == 0 then plain else with_value)

-- The checks of one slot.
pub slot_matches : HidReport → WebhookSlot → Bool
slot_matches r s =
    s.active
    && not (s.keycode == 0)
    && (r.keyboard.modifier == s.modifiers)
    && contains_key s.keycode r.keyboard.keycode

-- `xQueueSend` that does not wait: a full queue drops the address.
pub enqueue : List ℕ → List (List ℕ) → List (List ℕ)
enqueue url queue = if ltb (length queue) queue_len then queue ++ (url ∷ []) else queue

pub dispatch_loop : HidReport → List WebhookSlot → Bool → List (List ℕ) → Bool × List (List ℕ)
dispatch_loop r [] matched queue = (matched, queue)
dispatch_loop r (s ∷ ss) matched queue =
    let hit = slot_matches r s in
    dispatch_loop r ss (matched || hit) (if hit then enqueue (request_url s) queue else queue)

pub webhook_dispatch : HidReport → Webhook → Bool × Webhook
webhook_dispatch r w =
    let (matched, queue) = dispatch_loop r w.slots false w.queue in
    if not w.enabled
    then (false, w)
    else if not (r.consumer_code == 0)
    then (false, w)
    else (matched, record w { queue = queue })

-- `http_task` takes the oldest address, and requests it.
pub take_job : Webhook → Option (List ℕ) × Webhook
take_job w = elim w.queue [ [] ↦ (none, w) | url ∷ rest ↦ (some url, record w { queue = rest }) ]
