-- ===== src/Cbor/Skip.antt =====
-- `cd_skip` passes over exactly one item.
use bluepass.Common.{
  false, ℕ, zero, suc, ◌+◌, ◌*◌, ◌%◌, ◌≤◌, ◌<◌, ◌^◌, List, ◌++◌, ◌≡◌, refl, ap, ◌∙◌, some, length,
  length-append, append_assoc, arith, Option, if◌then◌else◌, ◌==◌, ◌||◌, ◌⊎◌, inl, inr, ◌-◌, sym,
}
use bluepass.Cbor.{CborDec, size_mod, cd_init, cd_advance, cd_skip, cd_skip_loop}
use bluepass.Cbor.Heads.{head}
use bluepass.Cbor.Reading.{Unread, moved, moved-moved, moved_zero, Unread-moved, cd_item-head}
use bluepass.Cbor.Tree.{
  Cbor, uint, nint, bstr, tstr, arr, map, simple, Items, nil, cons, Entries, end, entry, encode,
  encode_items, encode_entries, count_items, count_entries, count_items-le, count_entries-le, IsWf,
  AreWf, EntriesAreWf, depth, depth_items, depth_entries,
}

pub Unread-assoc :
    (d : CborDec) (xs ys zs junk : List ℕ)
    → Unread d ((xs ++ ys) ++ zs) junk
    → Unread d (xs ++ (ys ++ zs)) junk
Unread-assoc d xs ys zs junk u = rw (append_assoc xs ys zs) at u

cd_advance-moved :
    (d : CborDec) (xs bs junk : List ℕ)
    → d.len < size_mod
    → Unread d (xs ++ bs) junk
    → cd_advance (length xs % size_mod) d ≡ moved d (length xs)
unfolding cd_advance
cd_advance-moved d xs bs junk h u = ground (arith, u.extent, u.clean, length-append xs bs)

-- `cd_skip` with its fuel as a number that is not 0, and the head already read.
abbrev skip_behind : ℕ → ℕ → ℕ → CborDec → Option CborDec
skip_behind fuel mt v d =
    let n = v % size_mod in
    let inner = cd_skip_loop (λ e. cd_skip fuel e) in
    if mt == 2 || mt == 3
    then some (cd_advance n d)
    else if mt == 4
    then inner n d
    else if mt == 5
    then inner (n * 2 % size_mod) d
    else some d

skip_step :
    (mt v fuel : ℕ) (d : CborDec) (bs junk : List ℕ)
    → 0 < fuel
    → mt < 8
    → v < 2 ^ 64
    → Unread d (head mt v ++ bs) junk
    → cd_skip fuel d ≡ skip_behind (fuel - 1) mt v (moved d (length (head mt v)))
unfolding cd_skip
skip_step mt v zero d bs junk h hm hv u = absurd (omega arith)
skip_step mt v (suc f) d bs junk h hm hv u = rw (cd_item-head mt v d bs junk hm hv u) (
    ap (λ g. skip_behind g mt v (moved d (length (head mt v)))) {x = f} {y = suc f - 1}
      (omega arith))

skip_string :
    (mt fuel : ℕ) (d : CborDec) (s bs junk : List ℕ)
    → 0 < fuel
    → (mt ≡ 2) ⊎ (mt ≡ 3)
    → d.len < size_mod
    → Unread d ((head mt (length s) ++ s) ++ bs) junk
    → cd_skip fuel d ≡ some (moved d (length (head mt (length s) ++ s)))
skip_string mt fuel d s bs junk h which small u =
    let hd = head mt (length s) in
    let u1 = Unread-assoc d hd s bs junk u in
    let u2 = Unread-moved d (length hd) hd (s ++ bs) junk refl u1 in
    let fits : length s < 2 ^ 64 = omega (arith, u2.extent, length-append s bs) in
    let e1 = skip_step mt (length s) fuel d (s ++ bs) junk h (omega arith) fits u1 in
    let e2 = cd_advance-moved (moved d (length hd)) s bs junk small u2 in
    let e3 = moved-moved d (length hd) (length s) (length (hd ++ s)) (sym (length-append hd s)) in
    ground (arith, e1, e2, e3)

pub loop_step :
    (skip : CborDec → Option CborDec) (n : ℕ) (d d' : CborDec)
    → d.err ≡ false
    → skip d ≡ some d'
    → cd_skip_loop skip (suc n) d ≡ cd_skip_loop skip n d'
unfolding cd_skip_loop
loop_step skip n d d' e f = ground arith

loop_zero :
    (skip : CborDec → Option CborDec) (d : CborDec) → cd_skip_loop skip 0 d ≡ some (moved d 0)
unfolding cd_skip_loop
loop_zero skip d = ap some (sym (moved_zero d))

double_suc : (n : ℕ) → suc n * 2 ≡ suc (suc (n * 2))
double_suc n = omega arith

-- An array or a map: the head, and then a loop that has passed over the `xs`.
skip_nested :
    (mt v fuel : ℕ) (d : CborDec) (xs bs junk : List ℕ)
    → 0 < fuel
    → ((mt ≡ 4) × (v ≤ length xs)) ⊎ ((mt ≡ 5) × (v + v ≤ length xs))
    → d.len < size_mod
    → Unread d ((head mt v ++ xs) ++ bs) junk
    → (Unread (moved d (length (head mt v))) (xs ++ bs) junk
        → cd_skip_loop
            (λ e. cd_skip (fuel - 1) e)
            (if mt == 4 then v else v * 2)
            (moved d (length (head mt v)))
          ≡ some (moved (moved d (length (head mt v))) (length xs)))
    → cd_skip fuel d ≡ some (moved d (length (head mt v ++ xs)))
skip_nested mt v fuel d xs bs junk h which small u loop =
    let hd = head mt v in
    let u1 = Unread-assoc d hd xs bs junk u in
    let u2 = Unread-moved d (length hd) hd (xs ++ bs) junk refl u1 in
    let room : length xs < size_mod = omega (arith, u2.extent, length-append xs bs) in
    let e1 = skip_step mt v fuel d (xs ++ bs) junk h (ground arith) (ground arith) u1 in
    let e3 =
      moved-moved d (length hd) (length xs) (length (hd ++ xs)) (sym (length-append hd xs)) in
    ground (arith, e1, e3, loop u2)

mutual
  unfolding encode IsWf depth

  pub skip_tree :
      (x : Cbor) (fuel : ℕ) (d : CborDec) (bs junk : List ℕ)
      → depth x ≤ fuel
      → IsWf x
      → d.len < size_mod
      → Unread d (encode x ++ bs) junk
      → cd_skip fuel d ≡ some (moved d (length (encode x)))
  skip_tree (uint v) f d bs junk h w s u = skip_step 0 v f d bs junk h (omega arith) w u
  skip_tree (nint v) f d bs junk h w s u = skip_step 1 v f d bs junk h (omega arith) w u
  skip_tree (bstr b) f d bs junk h w s u = skip_string 2 f d b bs junk h (inl refl) s u
  skip_tree (tstr b) f d bs junk h w s u = skip_string 3 f d b bs junk h (inr refl) s u
  skip_tree (simple v) f d bs junk h w s u =
      skip_step 7 v f d bs junk h (omega arith) (omega arith) u
  skip_tree (arr xs) f d bs junk h w s u =
      skip_nested 4 (count_items xs) f d (encode_items xs) bs junk (omega arith)
        (inl (refl, count_items-le xs)) s u
        (skip_items xs (f - 1) (moved d (length (head 4 (count_items xs)))) bs junk (omega arith) w
          s)
  skip_tree (map es) f d bs junk h w s u =
      skip_nested 5 (count_entries es) f d (encode_entries es) bs junk (omega arith)
        (inr (refl, count_entries-le es)) s u
        (skip_entries es (f - 1) (moved d (length (head 5 (count_entries es)))) bs junk
          (omega arith) w s)

  skip_items :
      (xs : Items) (fuel : ℕ) (d : CborDec) (bs junk : List ℕ)
      → depth_items xs ≤ fuel
      → AreWf xs
      → d.len < size_mod
      → Unread d (encode_items xs ++ bs) junk
      → cd_skip_loop (λ e. cd_skip fuel e) (count_items xs) d
        ≡ some (moved d (length (encode_items xs)))
  skip_items nil fuel d bs junk h w s u = loop_zero (λ e. cd_skip fuel e) d
  skip_items (cons x xs) fuel d bs junk h w s u =
      let u1 = Unread-assoc d (encode x) (encode_items xs) bs junk u in
      let d' = moved d (length (encode x)) in
      let u2 = Unread-moved d (length (encode x)) (encode x) (encode_items xs ++ bs) junk refl u1 in
      loop_step (λ e. cd_skip fuel e) (count_items xs) d d' u.clean
        (skip_tree x fuel d (encode_items xs ++ bs) junk (omega arith) w.0 s u1)
      ∙ skip_items xs fuel d' bs junk (omega arith) w.1 s u2
      ∙ ap some (
          moved-moved d (length (encode x)) (length (encode_items xs)) _
            (sym (length-append (encode x) (encode_items xs))))

  skip_entries :
      (es : Entries) (fuel : ℕ) (d : CborDec) (bs junk : List ℕ)
      → depth_entries es ≤ fuel
      → EntriesAreWf es
      → d.len < size_mod
      → Unread d (encode_entries es ++ bs) junk
      → cd_skip_loop (λ e. cd_skip fuel e) (count_entries es * 2) d
        ≡ some (moved d (length (encode_entries es)))
  skip_entries end fuel d bs junk h w s u = loop_zero (λ e. cd_skip fuel e) d
  skip_entries (entry k v es) fuel d bs junk h w s u =
      let skip = λ (e : CborDec). cd_skip fuel e in
      let tail = encode_entries es in
      let u1 = Unread-assoc d (encode k) (encode v ++ tail) bs junk u in
      let d1 = moved d (length (encode k)) in
      let u2 =
        Unread-moved d (length (encode k)) (encode k) ((encode v ++ tail) ++ bs) junk refl u1 in
      let u3 = Unread-assoc d1 (encode v) tail bs junk u2 in
      let d2 = moved d1 (length (encode v)) in
      let u4 = Unread-moved d1 (length (encode v)) (encode v) (tail ++ bs) junk refl u3 in
      let m1 = moved-moved d (length (encode k)) (length (encode v)) _ refl in
      ap (λ n. cd_skip_loop skip n d) (double_suc (count_entries es))
      ∙ loop_step skip (suc (count_entries es * 2)) d d1 u.clean
          (skip_tree k fuel d ((encode v ++ tail) ++ bs) junk (omega arith) w.0 s u1)
      ∙ loop_step skip (count_entries es * 2) d1 d2 u.clean
          (skip_tree v fuel d1 (tail ++ bs) junk (omega arith) w.1 s u3)
      ∙ skip_entries es fuel d2 bs junk (omega arith) w.2 s u4
      ∙ ap (λ e. some (moved e (length tail))) m1
      ∙ ap some (
          moved-moved d (length (encode k) + length (encode v)) (length tail) _ (
            omega
              (arith, length-append (encode k) (encode v ++ tail), length-append (encode v) tail)))

-- In a message shorter than 2^32 bytes, `cd_skip` passes over exactly the encoding of one item,
-- whatever follows it, if its recursion may go as deep as the item nests. An item is a tree of
-- unsigned and negative integers, byte and text strings, arrays and maps of definite lengths, and
-- simple values below 24; tags, floating-point numbers and indefinite lengths are none.
pub cd_skip-encode :
    (x : Cbor) (fuel : ℕ) (bs junk : List ℕ)
    → depth x ≤ fuel
    → IsWf x
    → length (encode x ++ bs) < size_mod
    → let d = cd_init ((encode x ++ bs) ++ junk) (length (encode x ++ bs)) in
      cd_skip fuel d ≡ some (record d { pos = length (encode x) })
cd_skip-encode x fuel bs junk h w s =
    skip_tree x fuel (cd_init ((encode x ++ bs) ++ junk) (length (encode x ++ bs))) bs junk h w s
      (record { memory = refl; extent = omega arith; clean = refl })
    ∙ ap
        (λ p.
          some (record (cd_init ((encode x ++ bs) ++ junk) (length (encode x ++ bs))) { pos = p }))
        (omega arith)
