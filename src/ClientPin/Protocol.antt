-- ===== src/ClientPin/Protocol.antt =====
-- What clientPIN promises: every command keeps to the relation of ClientPin/Effects.antt, and what
-- follows for the retry counter, the PIN token and the PIN, over one command and over many.
use bluepass.Common.{ℕ, ◌%◌, ◌≡◌, inl, inr, List, ◌==◌, if_either, if_split, arith, Option-cases}
use bluepass.Cbor.{CborDec, Lookup, found, absent, too_deep, cd_item}
use bluepass.Storage.{Nvs}
use bluepass.ClientPin.{
  Crypto, Chance, PinState, Outcome, crashed, need, param, get_retries, get_key_agreement,
  cmd_client_pin,
}
use bluepass.ClientPin.Effects.{
  subcommand, PinStep, overflows, refuses, reports, drops_key, renews_key,
}
use bluepass.ClientPin.Steps.{with_secret-PinStep}

dispatch-lem :
    {S : Type 0} (P : ℕ → Outcome S → Type 0) (l : Lookup) (missing : Outcome S)
    (k : CborDec → Outcome S)
    → P 0 missing
    → P 0 crashed
    → ((v : CborDec) → P ((cd_item v).0.val % 256) (k v))
    → P (subcommand l) (need l missing k)
dispatch-lem P absent missing k m c f = m
dispatch-lem P too_deep missing k m c f = c
dispatch-lem P (found v) missing k m c f = f v

module _ {S : Type 0} (nvs : Nvs S) (c : Crypto) (ch : Chance) (fuel : ℕ) (req : List ℕ)
    (req_len : ℕ) (f : PinState S) where
  agreement :
      (sub : ℕ)
      → sub ≡ 2
      → PinStep nvs c fuel req req_len sub f (get_key_agreement nvs c ch fuel req req_len f)
  unfolding get_key_agreement
  agreement sub two = elim (Option-cases ch.key_pair) [
    | inl e ↦ rw e (drops_key two)
    | inr ((d, x, y), e) ↦ rw e (renews_key d _ two)
  ]

  -- The outcome of every command is one that `PinStep` allows its sub-command in that state: a
  -- refusal that changes nothing, a report, a new or dropped key pair, or a `cd_skip` that recurs too
  -- deep; with retries left and under the secret that is shared with the key of the request, a hash of
  -- the request that is not the stored one, which costs a retry, or one that is, which gives a token;
  -- or a new PIN, which is the one of the request, authenticated by the request's pinAuth, behind a
  -- hash that is the stored one or where no PIN was set.
  pub cmd_client_pin-PinStep :
      PinStep nvs c fuel req req_len
        (subcommand (param nvs c ch fuel req req_len 2))
        f
        (cmd_client_pin nvs c ch fuel req req_len f)
  unfolding cmd_client_pin get_retries
  cmd_client_pin-PinStep =
      dispatch-lem (λ sub o. PinStep nvs c fuel req req_len sub f o)
        (param nvs c ch fuel req req_len 2) _ _ (refuses 0x14 (omega arith) (omega arith)) overflows
        λ v.
          let sub = (cd_item v).0.val % 256 in
          let P : Outcome S → Type 0 = PinStep nvs c fuel req req_len sub f in
          if_either P _ _ _ (refuses 0x12 (omega arith) (omega arith)) (
            if_split P (sub == 1) _ _ (λ t. reports _ (ground arith))
              λ t1.
                if_split P (sub == 2) _ _ (λ t. agreement sub (ground arith))
                  λ t2.
                    if_either P _ _ _ (refuses 0x33 (omega arith) (omega arith))
                      (with_secret-PinStep nvs c ch fuel req req_len sub f))
