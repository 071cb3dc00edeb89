-- ===== src/Mqtt/Incoming.antt =====
-- Which slots of components/mqtt_mgr/mqtt_mgr.c an incoming message is for.
use bluepass.Common.{
  ℕ, zero, suc, ◌≡◌, ◌≢◌, refl, ap, ◌∙◌, Bool, true, false, not, ◌&&◌, ◌||◌, List, [], ◌∷◌, ◌++◌,
  All, ◌==◌, length, get_or, bytes_eq, arith,
}
use bluepass.Mqtt.{MqttInSlot, strncmp_eq, text_matches, in_matches}

-- No byte is a NUL.
abbrev pub IsText : List ℕ → Type 0
IsText = All (λ c. c ≢ 0)

-- A text behind which a NUL stands in memory, against the bytes of a message, `junk` behind them.
text_matches-bytes_eq :
    (t rest p junk : List ℕ)
    → IsText t
    → IsText p
    → text_matches (t ++ (0 ∷ rest)) (p ++ junk) (length p) ≡ bytes_eq t p
unfolding text_matches strncmp_eq bytes_eq
text_matches-bytes_eq [] rest [] junk ht hp = refl
text_matches-bytes_eq [] rest (y ∷ ys) junk ht hp = ground (arith, hp.0)
text_matches-bytes_eq (x ∷ xs) rest [] junk ht hp = ground (arith, ht.0)
text_matches-bytes_eq (x ∷ xs) rest (y ∷ ys) junk ht hp =
    ground (arith, ht.0, text_matches-bytes_eq xs rest ys junk ht.1 hp.1)

abbrev pub is_nil : List ℕ → Bool
is_nil [] = true
is_nil (x ∷ xs) = false

first_byte : (t rest : List ℕ) → IsText t → (get_or (t ++ (0 ∷ rest)) 0 0 == 0) ≡ is_nil t
first_byte [] rest h = refl
first_byte (x ∷ xs) rest h = ground (arith, h.0)

-- A message is for a slot exactly if the slot is active and has a key and a topic, the topic is the
-- message's, and the slot wants no payload or this one, where neither topic nor payload has a NUL
-- inside; what stands in memory behind the texts does not matter.
in_matches_iff :
    (s : MqttInSlot) (t v rest rest' topic payload junk junk' : List ℕ)
    → s.topic ≡ t ++ (0 ∷ rest)
    → s.match_value ≡ v ++ (0 ∷ rest')
    → IsText t
    → IsText v
    → IsText topic
    → IsText payload
    → in_matches (topic ++ junk) (length topic) (payload ++ junk') (length payload) s ≡ (
        s.active
        && not (is_nil t)
        && not (s.keycode == 0)
        && bytes_eq t topic
        && (is_nil v || bytes_eq v payload))
unfolding in_matches
in_matches_iff s t v rest rest' topic payload junk junk' is_t is_v ht hv h h' = ground (
  arith,
  is_t,
  is_v,
  ap (λ l. get_or l 0 0 == 0) is_t ∙ first_byte t rest ht,
  ap (λ l. get_or l 0 0 == 0) is_v ∙ first_byte v rest' hv,
  ap (λ l. text_matches l (topic ++ junk) (length topic)) is_t
      ∙ text_matches-bytes_eq t rest topic junk ht h,
  ap (λ l. text_matches l (payload ++ junk') (length payload)) is_v
      ∙ text_matches-bytes_eq v rest' payload junk' hv h',
)

-- Behind a NUL in the message nothing is compared, so the byte that is read next is the one at the
-- message's length, which may lie behind the slot.
strncmp_eq_nul :
    (t rest more : List ℕ) (n : ℕ) → strncmp_eq (t ++ (0 ∷ rest)) (t ++ (0 ∷ more)) n ≡ true
unfolding strncmp_eq
strncmp_eq_nul t rest more zero = refl
strncmp_eq_nul [] rest more (suc n) = refl
strncmp_eq_nul (x ∷ xs) rest more (suc n) = ground (arith, strncmp_eq_nul xs rest more n)
