-- ===== src/Processes/Logs.antt =====
-- `_read` and `_emit_complete_lines`: the output of a process, read in chunks, cut into log lines. The
-- calls of `_emit_log` are the list of what they are called with.
pub mod Framing
use yeetllm.Common.{
  ℕ, zero, suc, ◌+◌, ◌-◌, ◌*◌, Bool, true, false, ◌||◌, Option, none, some, List, [], ◌∷◌, ◌++◌,
  ltb, ◌==◌, nat_eq, length, if◌then◌else◌,
}
use yeetllm.Common.Text.{Bytes, is_empty, starts_with}
use yeetllm.Common.Text.Slices.{take, drop}

abbrev pub is_delimiter : ℕ → Bool
is_delimiter c = c == 10 || c == 13

-- the bytes before the first `\n` or `\r`, that delimiter, and the bytes behind it
unfoldable pub first_line : Bytes → Option (Bytes × ℕ × Bytes)
first_line [] = none
first_line (c ∷ s) =
    let later = first_line s in
    if is_delimiter c then some ([], c, s) else elim later [
      | none ↦ none
      | some (line, delimiter, rest) ↦ some (c ∷ line, delimiter, rest)
    ]

-- the `\n` of a `\r\n`
abbrev pub after_delimiter : ℕ → Bytes → Bytes
after_delimiter delimiter [] = []
after_delimiter delimiter (c ∷ s) = if delimiter == 13 then if c == 10 then s else c ∷ s else c ∷ s

abbrev pub unless_empty : Bytes → List Bytes
unless_empty [] = []
unless_empty (c ∷ s) = (c ∷ s) ∷ []

-- the loop of `_emit_complete_lines`: the lines, and what is left of the buffer
unfoldable pub complete_lines : ℕ → Bytes → List Bytes × Bytes
unfolding first_line
complete_lines zero pending = ([], pending)
complete_lines (suc fuel) pending = elim (first_line pending) [
  | none ↦ ([], pending)
  | some (line, delimiter, rest) ↦
      let later = complete_lines fuel (after_delimiter delimiter rest) in
      (unless_empty line ++ later.0, later.1)
]

abbrev pub chunk_size : ℕ
chunk_size = 64 * 1024

-- `while len(pending) > 64 * 1024`
unfoldable pub overlong : ℕ → Bytes → List Bytes × Bytes
unfolding take drop
overlong zero pending = ([], pending)
overlong (suc fuel) pending =
    let later = overlong fuel (drop chunk_size pending) in
    if ltb chunk_size (length pending)
    then (take chunk_size pending ∷ later.0, later.1)
    else ([], pending)

-- one round of `_read`; each turn of its loops takes a byte or more from the buffer
unfoldable pub read_chunk : Bytes → Bytes → List Bytes × Bytes
unfolding complete_lines overlong
read_chunk pending chunk =
    let lines = complete_lines (length (pending ++ chunk)) (pending ++ chunk) in
    let long = overlong (length lines.1) lines.1 in (lines.0 ++ long.0, long.1)

-- `_read`, on the chunks before the end of the stream
unfoldable pub read : Bytes → List Bytes → List Bytes
unfolding read_chunk
read pending [] = unless_empty pending
read pending (chunk ∷ chunks) =
    let round = read_chunk pending chunk in round.0 ++ read round.1 chunks
