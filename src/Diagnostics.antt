-- ===== src/Diagnostics.antt =====
-- The two logs of components/fido2/fido2.c: the ring of lines that the web page shows
-- (`diag_append`), and the last steps before a crash (`crash_mark`). A buffer is what it holds before
-- its NUL; the text of a message is what `vsnprintf` would write with room enough.
pub mod Lines
mod Tests
use bluepass.Common.{
  ℕ, zero, suc, ◌+◌, ◌-◌, ◌%◌, ◌^◌, ◌||◌, Option, none, some, List, [], ◌∷◌, ◌++◌, ltb, leb, ◌==◌,
  if◌then◌else◌, length, take, ascii,
}

abbrev pub diag_size : ℕ
diag_size = 1024

-- `s_diag_buf` with `s_diag_len`, and `s_diag_seq`.
pub record Diag : Type 0 where
  pub diag_buf : List ℕ
  pub diag_seq : ℕ

-- What stands behind the first newline, as `memchr` finds it.
pub behind_newline : List ℕ → Option (List ℕ)
behind_newline [] = none
behind_newline (c ∷ cs) = let rest = behind_newline cs in if c == 10 then some cs else rest

-- `while (s_diag_len + n >= DIAG_SIZE)`. A round takes a character at least, so the fuel is enough
-- where it is the length of the log and one more.
pub make_room : ℕ → ℕ → List ℕ → List ℕ
make_room zero n buf = buf
make_room (suc fuel) n buf =
    let cut = elim (behind_newline buf) as (λ m. List ℕ) [
      | none ↦ []
      | some rest ↦ make_room fuel n rest
    ] in
    if leb diag_size (length buf + n) then cut else buf

-- The array of 160 bytes that the message is formatted into, and the stack behind it; `n` bytes of
-- it are copied, the length of the whole message.
pub formatted : List ℕ → List ℕ → List ℕ
formatted text stack =
    if ltb (length text) 160 then text else take (length text) (take 159 text ++ (0 ∷ stack))

pub diag_append : List ℕ → List ℕ → Diag → Diag
diag_append text stack d =
    let n = length text in
    let room = make_room (suc (length d.diag_buf)) n d.diag_buf in
    if (n == 0) || leb diag_size n then d else record d { diag_buf = room ++ formatted text stack }

-- The characters that are copied before the NUL; `maxlen` is a `size_t`.
pub fido2_diag_get : ℕ → Diag → List ℕ
fido2_diag_get maxlen d =
    let room = (maxlen + 2 ^ 32 - 1) % 2 ^ 32 in
    take (if ltb (length d.diag_buf) room then length d.diag_buf else room) d.diag_buf

pub fido2_diag_clear : Diag → Diag
fido2_diag_clear d = record { diag_buf = []; diag_seq = 0 }

-- `ctap_status_name`
pub ctap_status_name : ℕ → List ℕ
ctap_status_name s =
    if s == 0x00
    then ascii "OK"
    else if s == 0x01
    then ascii "invalidCmd"
    else if s == 0x12
    then ascii "invalidCBOR"
    else if s == 0x14
    then ascii "missingParam"
    else if s == 0x27
    then ascii "operationDenied"
    else if s == 0x30
    then ascii "notAllowed"
    else if s == 0x31
    then ascii "pinInvalid"
    else if s == 0x32
    then ascii "pinBlocked"
    else if s == 0x33
    then ascii "pinAuthInvalid"
    else if s == 0x34
    then ascii "pinAuthBlocked"
    else if s == 0x35
    then ascii "pinNotSet"
    else if s == 0x36
    then ascii "pinRequired"
    else if s == 0x37
    then ascii "pinPolicyViolation"
    else if s == 0x3a
    then ascii "actionTimeout"
    else if s == 0x3b
    then ascii "upRequired"
    else ascii "err"

-- `s_crash_buf` with `s_crash_len`, and `s_crash_magic`, in memory that a reset keeps.
pub record Crash : Type 0 where
  pub crash_buf : List ℕ
  pub crash_magic : ℕ

abbrev pub crash_magic_value : ℕ
crash_magic_value = 0xc0ffee42

-- `n` is a `uint16_t`.
pub crash_mark : List ℕ → Crash → Crash
crash_mark s k =
    let n = length s % 2 ^ 16 in
    if k.crash_magic == crash_magic_value
    then (if ltb (length k.crash_buf + n) 511
        then record k { crash_buf = k.crash_buf ++ take n s }
        else k)
    else k
