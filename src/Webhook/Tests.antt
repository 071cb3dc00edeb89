-- ===== src/Webhook/Tests.antt =====
-- A slot that calls http://a with the value `b c`, and a report of its key.
use bluepass.Common.{
  ℕ, List, ◌≡◌, refl, true, false, not, ◌&&◌, [], ◌∷◌, ◌++◌, ◌==◌, if◌then◌else◌, take, replicate,
  ascii, arith,
}
use bluepass.HidReport.{HidReport, single_key}
use bluepass.Webhook.{WebhookSlot, Webhook, queue_len, request_url, url_encode, webhook_dispatch}
use bluepass.Webhook.Encoding.{percent_decode, url_encode-percent_decode}
use bluepass.Webhook.Matching.{
  is_empty, AreFor, AreAddresses, IsTerminated, webhook_dispatch-matching,
}

abbrev slot : WebhookSlot
slot = record {
  active = true;
  modifiers = 1;
  keycode = 58;
  url = ascii "http://a" ++ replicate 3 0;
  value = ascii "b c" ++ (0 ∷ []);
}

abbrev hooks : Webhook
hooks = record { enabled = true; slots = slot ∷ slot ∷ []; queue = ascii "x" ∷ [] }

abbrev report : HidReport
report = record { keyboard = single_key 1 58; consumer_code = 0 }

-- The encoded space of the value.
requested : request_url slot ≡ ascii "http://a?value=b%20c"
unfolding request_url url_encode bluepass.HidReport.c_string bluepass.Webhook.url_encode_loop
    bluepass.Webhook.is_unreserved bluepass.Webhook.hex_digit
requested = refl

slot-IsTerminated : IsTerminated slot
slot-IsTerminated = record {
  text = ascii "b c";
  behind = [];
  held = refl;
  chars = (
    (ground arith, omega arith),
    ((ground arith, omega arith), ((ground arith, omega arith), tt)),
  );
  short = omega arith;
  bytes = (omega arith, (omega arith, (omega arith, (omega arith, tt))));
}

webhook_dispatch-matching_example :
    (chosen : List WebhookSlot) × (urls : List (List ℕ)) × (AreFor report hooks.slots chosen
      × AreAddresses chosen urls
      × (webhook_dispatch report hooks ≡ (
          if true && 0 == 0
          then (
            not (is_empty chosen),
            record hooks { queue = take queue_len (hooks.queue ++ urls) },
          )
          else (false, hooks))))
webhook_dispatch-matching_example =
    webhook_dispatch-matching report hooks (omega arith)
      (slot-IsTerminated, (slot-IsTerminated, tt))

url_encode-percent_decode_example :
    percent_decode (url_encode ((65 ∷ 32 ∷ 255 ∷ []) ++ (0 ∷ 7 ∷ [])) 193) ≡ 65 ∷ 32 ∷ 255 ∷ []
url_encode-percent_decode_example =
    url_encode-percent_decode (65 ∷ 32 ∷ 255 ∷ []) (7 ∷ []) (ground arith) (omega arith)
