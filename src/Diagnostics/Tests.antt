-- ===== src/Diagnostics/Tests.antt =====
-- A log of two lines, and messages at the sizes that matter.
use bluepass.Common.{
  ◌-◌, ◌<◌, ◌≡◌, refl, [], ◌∷◌, ◌++◌, length, take, drop, replicate, ascii, arith,
}
use bluepass.Diagnostics.{Diag, diag_size, formatted, behind_newline, make_room, diag_append}
use bluepass.Diagnostics.Lines.{IsTail, diag_append_lem}

abbrev two_lines : Diag
two_lines = record { diag_buf = ascii "a" ++ (10 ∷ ascii "bc"); diag_seq = 1 }

diag_append_lem_example :
    let buf = (diag_append (ascii "def") [] two_lines).diag_buf in
    let kept = length buf - 3 in
    (length buf < diag_size)
    × (drop kept buf ≡ ascii "def")
    × IsTail (take kept buf) two_lines.diag_buf
diag_append_lem_example = diag_append_lem (ascii "def") [] two_lines (omega arith) (omega arith)

-- Behind the array: the last of 161 bytes is one of the stack.
overread : drop 159 (formatted (replicate 161 65) (7 ∷ [])) ≡ 0 ∷ 7 ∷ []
unfolding formatted
overread = refl

-- A line makes room.
line_dropped : make_room 5 1021 two_lines.diag_buf ≡ ascii "bc"
unfolding make_room behind_newline
line_dropped = refl
