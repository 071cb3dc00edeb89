-- ===== src/Credential/RoundTrip.antt =====
-- What is sealed in a credential id is read back from it, and a resident key that is stored is read
-- back as it was.
use bluepass.Common.{
  ℕ, ◌+◌, ◌*◌, ◌/◌, ◌%◌, ◌^◌, ◌<◌, ◌≡◌, ap, ◌∙◌, true, not, some, List, [], ◌∷◌, ◌++◌, ◌==◌,
  if◌then◌else◌, get_or, take, drop, length, length-append, take-append, drop-append, drop_add,
  get_or-drop, replicate, arith, take_all,
}
use bluepass.Credential.{
  Sealing, CredPlain, plain_bytes, bytes_plain, cred_encrypt, cred_decrypt, cred_id_len, Fido2Rk,
  rk_bytes, bytes_rk,
}

-- Fields of known length that stand one behind the other.
module _ {ℓ} {A : Type ℓ} where
  take_past : (n : ℕ) (xs ys : List A) → length xs ≡ n → take n (xs ++ ys) ≡ xs
  take_past n xs ys h = rw (← h) (take-append xs ys)

  drop_past : (n m : ℕ) (xs ys : List A) → length xs ≡ n → drop (n + m) (xs ++ ys) ≡ drop m ys
  drop_past n m xs ys h =
      rw (← h) (drop_add (length xs) m (xs ++ ys) ∙ ap (drop m) (drop-append xs ys))

  get_past :
      (n m : ℕ) (xs ys : List A) (a : A)
      → length xs ≡ n
      → get_or (xs ++ ys) (n + m) a ≡ get_or ys m a
  get_past n m xs ys a h =
      rw (← h) (get_or-drop (xs ++ ys) (length xs) m a ∙ ap (λ l. get_or l m a) (drop-append xs ys))

-- What mbedtls documents of GCM: the cipher text is as long as the plain text, the tag has sixteen
-- bytes, and decryption gives back what was encrypted.
pub record IsSealing (k : Sealing) : Type 0 where
  pub opens :
      (key nonce plain cipher tag : List ℕ)
      → k.gcm_crypt key nonce plain ≡ (0, cipher, tag)
      → k.gcm_decrypt key nonce tag cipher ≡ (0, plain)
  pub cipher_size :
      (key nonce plain cipher tag : List ℕ)
      → k.gcm_crypt key nonce plain ≡ (0, cipher, tag)
      → length cipher ≡ length plain
  pub tag_size :
      (key nonce plain cipher tag : List ℕ)
      → k.gcm_crypt key nonce plain ≡ (0, cipher, tag)
      → length tag ≡ 16

-- The arrays of the struct have their sizes.
pub record IsPlain (p : CredPlain) : Type 0 where
  pub key_size : length p.priv_key ≡ 32
  pub hash_size : length p.rp_id_hash ≡ 32

bytes_plain-plain_bytes : (p : CredPlain) → IsPlain p → bytes_plain (plain_bytes p) ≡ p
bytes_plain-plain_bytes p v =
    let rest = p.rp_id_hash ++ (p.flags ∷ replicate 15 0) in
    ground (
      arith,
      take_past 32 p.priv_key rest v.key_size,
      drop_past 32 0 p.priv_key rest v.key_size,
      take_past 32 p.rp_id_hash (p.flags ∷ replicate 15 0) v.hash_size,
      get_past 32 32 p.priv_key rest 0 v.key_size,
      get_past 32 0 p.rp_id_hash (p.flags ∷ replicate 15 0) 0 v.hash_size,
    )

-- A credential id has 108 bytes, and opens to what was sealed.
pub cred_decrypt-cred_encrypt :
    (k : Sealing) (master_key nonce cred_id : List ℕ) (p : CredPlain)
    → IsSealing k
    → IsPlain p
    → length nonce ≡ 12
    → cred_encrypt k master_key p nonce ≡ some cred_id
    → (cred_decrypt k master_key cred_id ≡ some p) × (length cred_id ≡ cred_id_len)
unfolding cred_encrypt cred_decrypt
cred_decrypt-cred_encrypt k master_key nonce cred_id p sound v size made =
    let out = k.gcm_crypt master_key nonce (plain_bytes p) in
    let cipher = out.1 in
    let tag = out.2 in
    let set : k.gcm_setkey master_key ≡ 0 = ground arith in
    let fine : out ≡ (0, cipher, tag) = ground arith in
    let id : nonce ++ (cipher ++ tag) ≡ cred_id = ground arith in
    let plain_size : length (plain_bytes p) ≡ 80 = omega (
      arith,
      length-append p.priv_key (p.rp_id_hash ++ (p.flags ∷ replicate 15 0)),
      length-append p.rp_id_hash (p.flags ∷ replicate 15 0),
      v.key_size,
      v.hash_size,
    ) in
    let cipher_len : length cipher ≡ 80 =
      sound.cipher_size master_key nonce (plain_bytes p) cipher tag fine ∙ plain_size in
    let tag_len : length tag ≡ 16 =
      sound.tag_size master_key nonce (plain_bytes p) cipher tag fine in
    (
      ground (
        arith,
        take_past 12 nonce (cipher ++ tag) size,
        drop_past 12 0 nonce (cipher ++ tag) size,
        drop_past 12 80 nonce (cipher ++ tag) size,
        take_past 80 cipher tag cipher_len,
        drop_past 80 0 cipher tag cipher_len,
        take_all 16 tag (omega (arith, tag_len)),
        sound.opens master_key nonce (plain_bytes p) cipher tag fine,
        bytes_plain-plain_bytes p v,
      ),
      omega (arith, ap length id, length-append nonce (cipher ++ tag), length-append cipher tag),
    )

-- The arrays of the struct have their sizes, and the numbers their ranges.
pub record IsResident (r : Fido2Rk) : Type 0 where
  pub in_use : r.active ≡ true
  pub hash_size : length r.rp_id_hash ≡ 32
  pub cred_size : length r.cred_id ≡ 108
  pub user_size : length r.user_id ≡ 64
  pub name_size : length r.user_name ≡ 32
  pub display_size : length r.display_name ≡ 32
  pub count_range : r.sign_count < 2 ^ 32

module _ (r : Fido2Rk) (v : IsResident r) where
  abbrev counter : List ℕ
  counter =
      0
      ∷ 0
      ∷ (r.sign_count % 256)
      ∷ (r.sign_count / 2 ^ 8 % 256)
      ∷ (r.sign_count / 2 ^ 16 % 256)
      ∷ (r.sign_count / 2 ^ 24 % 256)
      ∷ []

  abbrev names : List ℕ
  names = r.user_name ++ (r.display_name ++ counter)

  abbrev user : List ℕ
  user = r.user_id ++ (r.user_id_len ∷ names)

  abbrev id : List ℕ
  id = r.cred_id ++ user

  pub bytes_rk-rk_bytes : bytes_rk (rk_bytes r) ≡ r
  unfolding bytes_rk rk_bytes
  bytes_rk-rk_bytes = λ i. record {
    active = active i;
    rp_id_hash = take_past 32 r.rp_id_hash id v.hash_size i;
    cred_id = cred i;
    user_id = uid i;
    user_id_len = uid_len i;
    user_name = name i;
    display_name = display i;
    sign_count = count i;
  }
    where
      active : not ((if r.active then 1 else 0) == 0) ≡ r.active
      active = ground arith

      past_hash : (m : ℕ) → drop (32 + m) (r.rp_id_hash ++ id) ≡ drop m id
      past_hash m = drop_past 32 m r.rp_id_hash id v.hash_size

      past_id : (m : ℕ) → drop (108 + m) id ≡ drop m user
      past_id m = drop_past 108 m r.cred_id user v.cred_size

      past_user : (m : ℕ) → drop (64 + m) user ≡ drop m (r.user_id_len ∷ names)
      past_user m = drop_past 64 m r.user_id (r.user_id_len ∷ names) v.user_size

      past_name : (m : ℕ) → drop (32 + m) names ≡ drop m (r.display_name ++ counter)
      past_name m = drop_past 32 m r.user_name (r.display_name ++ counter) v.name_size

      get_hash : (m : ℕ) → get_or (r.rp_id_hash ++ id) (32 + m) 0 ≡ get_or id m 0
      get_hash m = get_past 32 m r.rp_id_hash id 0 v.hash_size

      get_id : (m : ℕ) → get_or id (108 + m) 0 ≡ get_or user m 0
      get_id m = get_past 108 m r.cred_id user 0 v.cred_size

      get_user : (m : ℕ) → get_or user (64 + m) 0 ≡ get_or (r.user_id_len ∷ names) m 0
      get_user m = get_past 64 m r.user_id (r.user_id_len ∷ names) 0 v.user_size

      get_name : (m : ℕ) → get_or names (32 + m) 0 ≡ get_or (r.display_name ++ counter) m 0
      get_name m = get_past 32 m r.user_name (r.display_name ++ counter) 0 v.name_size

      get_display : (m : ℕ) → get_or (r.display_name ++ counter) (32 + m) 0 ≡ get_or counter m 0
      get_display m = get_past 32 m r.display_name counter 0 v.display_size

      cred : take 108 (drop 32 (r.rp_id_hash ++ id)) ≡ r.cred_id
      cred = ap (take 108) (past_hash 0) ∙ take_past 108 r.cred_id user v.cred_size

      uid : take 64 (drop 140 (r.rp_id_hash ++ id)) ≡ r.user_id
      uid =
          ap (take 64) (past_hash 108 ∙ past_id 0)
          ∙ take_past 64 r.user_id (r.user_id_len ∷ names) v.user_size

      uid_len : get_or (r.rp_id_hash ++ id) 204 0 ≡ r.user_id_len
      uid_len = get_hash 172 ∙ (get_id 64 ∙ get_user 0)

      name : take 32 (drop 205 (r.rp_id_hash ++ id)) ≡ r.user_name
      name =
          ap (take 32) (past_hash 173 ∙ (past_id 65 ∙ past_user 1))
          ∙ take_past 32 r.user_name (r.display_name ++ counter) v.name_size

      display : take 32 (drop 237 (r.rp_id_hash ++ id)) ≡ r.display_name
      display =
          ap (take 32) (past_hash 205 ∙ (past_id 97 ∙ (past_user 33 ∙ past_name 0)))
          ∙ take_past 32 r.display_name counter v.display_size

      count :
          get_or (r.rp_id_hash ++ id) 271 0
            + get_or (r.rp_id_hash ++ id) 272 0 * 2 ^ 8
            + get_or (r.rp_id_hash ++ id) 273 0 * 2 ^ 16
            + get_or (r.rp_id_hash ++ id) 274 0 * 2 ^ 24
          ≡ r.sign_count
      count = omega (
        arith,
        get_hash 239 ∙ (get_id 131 ∙ (get_user 67 ∙ (get_name 34 ∙ get_display 2))),
        get_hash 240 ∙ (get_id 132 ∙ (get_user 68 ∙ (get_name 35 ∙ get_display 3))),
        get_hash 241 ∙ (get_id 133 ∙ (get_user 69 ∙ (get_name 36 ∙ get_display 4))),
        get_hash 242 ∙ (get_id 134 ∙ (get_user 70 ∙ (get_name 37 ∙ get_display 5))),
        v.count_range,
      )

  pub length-rk_bytes : length (rk_bytes r) ≡ 276
  unfolding rk_bytes
  length-rk_bytes = omega (
    arith,
    length-append r.rp_id_hash id,
    length-append r.cred_id user,
    length-append r.user_id (r.user_id_len ∷ names),
    length-append r.user_name (r.display_name ++ counter),
    length-append r.display_name counter,
    v.hash_size,
    v.cred_size,
    v.user_size,
    v.name_size,
    v.display_size,
  )
