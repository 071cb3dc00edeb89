-- ===== src/Storage/Working.antt =====
-- A flash that works: a map from keys to blobs and numbers.
use bluepass.Common.{
  ℕ, ◌≡◌, refl, ap, inl, inr, Bool, true, false, ◌&&◌, List, [], ◌∷◌, leb, ◌==◌, if◌then◌else◌,
  arith, Option, none, some, length, le→leb, Bool-cases,
}
use text.Mathlib.Text.{◌==◌ as same_text}
use text.Mathlib.TextEquality.{eq_iff}
use bluepass.Storage.{Nvs, NvsKey, named, numbered}
use bluepass.Storage.Laws.{IsReliable}

abbrev same_key : NvsKey → NvsKey → Bool
same_key (named a) (named b) = same_text a b
same_key (named a) (numbered b n) = false
same_key (numbered a m) (named b) = false
same_key (numbered a m) (numbered b n) = same_text a b && m == n

same_key_refl : (k : NvsKey) → same_key k k ≡ true
same_key_refl (named a) = (eq_iff a a).1 refl
same_key_refl (numbered a m) = ground (arith, (eq_iff a a).1 refl)

same_key→eq : (k j : NvsKey) → same_key k j ≡ true → k ≡ j
same_key→eq (named a) (named b) h = ap named ((eq_iff a b).0 h)
same_key→eq (named a) (numbered b n) h = ground arith
same_key→eq (numbered a m) (named b) h = ground arith
same_key→eq (numbered a m) (numbered b n) h = ground (arith, (eq_iff a b).0)

abbrev pub Flash : Type 0
Flash = NvsKey → Option (List ℕ)

abbrev read : Option (List ℕ) → ℕ → ℕ × List ℕ
read none n = (0x1102, [])
read (some b) n = if leb (length b) n then (0, b) else (0x110c, [])

abbrev word : Option (List ℕ) → ℕ × ℕ
word (some (v ∷ [])) = (0, v)
word o = (0x1102, 0)

abbrev pub put : Flash → NvsKey → Option (List ℕ) → Flash
put s k b j = if same_key k j then b else s j

abbrev pub working : Nvs Flash
working = record {
  open_readonly = λ s. 0;
  open_readwrite = λ s. 0;
  get_blob = λ s k n. read (s k) n;
  set_blob = λ s k b. (0, put s k (some b));
  get_u32 = λ s k. word (s k);
  set_u32 = λ s k v. (0, put s k (some (v ∷ [])));
  get_u8 = λ s k. word (s k);
  set_u8 = λ s k v. (0, put s k (some (v ∷ [])));
  erase_key = λ s k. (0, put s k none);
  commit = λ s. (0, s);
}

pub working-IsReliable : IsReliable working
working-IsReliable = record {
  opens_readonly = λ s. refl;
  opens_readwrite = λ s. refl;
  sets_blob = λ s k b. refl;
  sets_u32 = λ s k v. refl;
  sets_u8 = λ s k v. refl;
  get_u8-set = λ s k v byte. rw (same_key_refl k) refl;
  get_u8-commit = λ s k. refl;
  get_u32-set = λ s k v word. rw (same_key_refl k) refl;
  get_u32-set_blob_ne = λ s k j b ne. elim (Bool-cases (same_key k j)) [
    | inl t ↦ absurd (ne (same_key→eq k j t))
    | inr t ↦ rw t refl
  ];
  get_u32-commit = λ s k. refl;
  get_blob-set_u32_ne = λ s k j v n ne. elim (Bool-cases (same_key k j)) [
    | inl t ↦ absurd (ne (same_key→eq k j t))
    | inr t ↦ rw t refl
  ];
  commits = λ s. refl;
  get_blob-commit = λ s k n. refl;
  get_blob-set = λ s k b n le. rw (same_key_refl k, le→leb (length b) n le) refl;
  get_blob-set_ne = λ s k j b n ne. elim (Bool-cases (same_key k j)) [
    | inl t ↦ absurd (ne (same_key→eq k j t))
    | inr t ↦ rw t refl
  ];
  erases = λ s k. inl refl;
  get_blob-erase = λ s k n. rw (same_key_refl k) refl;
  get_blob-erase_ne = λ s k j n ne. elim (Bool-cases (same_key k j)) [
    | inl t ↦ absurd (ne (same_key→eq k j t))
    | inr t ↦ rw t refl
  ];
}
