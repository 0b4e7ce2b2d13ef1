-- ===== src/Router/Sse.antt =====
-- `SSEIdParser` of router.py: the response identifiers in a stream of server-sent events, which is
-- fed in chunks. The parser's callback is modelled by the list of the identifiers it is called with.
pub mod Chunks
pub mod Feed
use yeetllm.Common.{
  ℕ, zero, suc, ◌+◌, ◌-◌, ◌*◌, Bool, true, false, ◌||◌, Option, none, some, List, [], ◌∷◌, ◌++◌,
  ◌==◌, nat_eq, text_beq, ◌&&◌, if◌then◌else◌, ltb, length,
}
use mathlib.Core.List.{reverse}
use yeetllm.Common.Text.{Text, Bytes, codes, is_empty, is_ascii_space, strip_by, starts_with}
use yeetllm.Common.Json.{Json}
use yeetllm.Router.Extract.{find_response_id}
use yeetllm.Common.Text.Slices.{drop}

-- `replace(b"\r\n", b"\n")`
unfoldable pub normalize : Bytes → Bytes
normalize [] = []
normalize (c ∷ s) =
    let rest = normalize s in if c == 13 && starts_with s (10 ∷ []) then rest else c ∷ rest

abbrev pub blank_line : Bytes
blank_line = 10 ∷ 10 ∷ []

-- `partition(b"\n\n")` where it is found: the event, and what remains
unfoldable pub cut : Bytes → Option (Bytes × Bytes)
cut [] = none
cut (c ∷ s) = elim (starts_with (c ∷ s) blank_line) [
  | true ↦ some ([], drop 1 s)
  | false ↦ elim (cut s) [ none ↦ none | some (event, rest) ↦ some (c ∷ event, rest) ]
]

abbrev pub is_line_end : ℕ → Bool
is_line_end c = c == 10 || c == 13

-- `event.splitlines()`: `line` is the line so far, backwards, and `after_cr` tells that a `\r` ended
-- the one before, so that a `\n` belongs to it
unfoldable pub splitlines : Bool → Bytes → Bytes → List Bytes
splitlines after_cr line [] = if is_empty line then [] else reverse line ∷ []
splitlines after_cr line (c ∷ s) = elim (after_cr && c == 10) [
  | true ↦ splitlines false line s
  | false ↦ elim (is_line_end c) [
    | true ↦ reverse line ∷ splitlines (c == 13) [] s
    | false ↦ splitlines false (c ∷ line) s
  ]
]

abbrev pub nonempty : Option Text → List Text
nonempty (some (c ∷ s)) = (c ∷ s) ∷ []
nonempty _ = []

-- `loads` is `json.loads`, which gives none for bytes that are not JSON
module _ (loads : Bytes → Option Json) where
  -- `_parse_json`
  unfoldable pub parse_json : Bytes → List Text
  unfolding find_response_id
  parse_json raw =
      if is_empty raw || text_beq raw (codes "[DONE]")
      then []
      else elim (loads raw) [ none ↦ [] | some payload ↦ nonempty (find_response_id payload) ]

  unfoldable pub parse_lines : List Bytes → List Text
  unfolding parse_json starts_with drop strip_by
  parse_lines [] = []
  parse_lines (line ∷ lines) =
      let rest = parse_lines lines in
      if starts_with line (codes "data:")
      then parse_json (strip_by is_ascii_space (drop 5 line)) ++ rest
      else rest

  -- the identifiers in one event
  unfoldable pub parse_event : Bytes → List Text
  unfolding parse_lines splitlines
  parse_event event = parse_lines (splitlines false [] event)

  -- the loop of `feed`: the identifiers, and the buffer that is left
  unfoldable pub drain : ℕ → Bytes → List Text × Bytes
  drain zero buffer = ([], buffer)
  drain (suc fuel) buffer = elim (cut buffer) [
    | none ↦ ([], buffer)
    | some (event, rest) ↦ let later = drain fuel rest in (parse_event event ++ later.0, later.1)
  ]

  -- `del self.buffer[: len(self.buffer) - 64 * 1024]` of a buffer over the limit
  abbrev pub bounded : Bytes → Bytes
  bounded buffer =
      if ltb (128 * 1024) (length buffer) then drop (length buffer - 64 * 1024) buffer else buffer

  -- `feed`, on the buffer; each turn of the loop takes at least two bytes from it
  unfoldable pub feed : Bytes → Bytes → List Text × Bytes
  unfolding drain
  feed chunk buffer = let kept = bounded (normalize (buffer ++ chunk)) in drain (length kept) kept
