-- ===== src/Router/Extract.antt =====
-- `extract_model`, `extract_multipart_model` and `find_response_id` of router.py: what a request or
-- a response names.
use yeetllm.Common.{
  ℕ, zero, suc, ◌-◌, Bool, true, false, not, ◌&&◌, ◌||◌, Option, none, some, List, [], ◌∷◌, ◌++◌,
  ◌==◌, nat_eq, text_eq, text_beq, length, if◌then◌else◌,
}
use yeetllm.Common.Dict.{Dict, lookup}
use yeetllm.Common.Text.{
  Text, Bytes, codes, is_empty, starts_with, has_infix, strip, lower, onto_first,
}
use yeetllm.Common.Text.Slices.{drop}
use yeetllm.Common.Json.{Json, str, obj, get}

-- the characters before the first one in a set, and those from it on
unfoldable pub span_until : (ℕ → Bool) → Text → Text × Text
span_until stop [] = ([], [])
span_until stop (c ∷ s) =
    let rest = span_until stop s in if stop c then ([], c ∷ s) else (c ∷ rest.0, rest.1)

-- `s.partition(sep)` where `sep` is found
unfoldable pub partition : Text → Text → Option (Text × Text)
unfolding starts_with drop
partition sep [] = if is_empty sep then some ([], []) else none
partition sep (c ∷ s) = elim (starts_with (c ∷ s) sep) [
  | true ↦ some ([], drop (length sep) (c ∷ s))
  | false ↦ elim (partition sep s) [ none ↦ none | some (before, after) ↦ some (c ∷ before, after) ]
]

-- `s.split(sep)`; `skip` characters of a separator are still to pass
unfoldable pub split_at : Text → ℕ → Text → List Text
unfolding starts_with
split_at sep skip [] = [] ∷ []
split_at sep (suc skip) (c ∷ s) = split_at sep skip s
split_at sep zero (c ∷ s) = elim (starts_with (c ∷ s) sep) [
  | true ↦ [] ∷ split_at sep (length sep - 1) s
  | false ↦ onto_first c (split_at sep zero s)
]

-- the first alternative of the boundary's pattern: "([^"]+)"
abbrev pub quoted : Text × Text → Option Text
quoted (inside, []) = none
quoted (inside, c ∷ after) = if is_empty inside then none else some inside

-- the alternatives after `boundary=`
unfoldable pub boundary_value : Text → Option Text
unfolding span_until
boundary_value [] = none
boundary_value (c ∷ s) =
    let inside = if c == b'"' then quoted (span_until (λ d. d == b'"') s) else none in
    let plain = (span_until (λ d. d == b';') (c ∷ s)).0 in
    elim inside [ some value ↦ some value | none ↦ if is_empty plain then none else some plain ]

-- `re.search` of the boundary: at the first place where the pattern matches
unfoldable pub find_boundary : Text → Option Text
unfolding starts_with boundary_value drop
find_boundary [] = none
find_boundary (c ∷ s) =
    let here =
      if starts_with (c ∷ s) (codes "boundary=") then boundary_value (drop 9 (c ∷ s)) else none in
    let later = find_boundary s in elim here [ some value ↦ some value | none ↦ later ]

-- The header of a part names the field `model`; the search ignores the case, so the text is lower.
unfoldable pub names_model : Bytes → Bool
unfolding starts_with span_until has_infix drop
names_model [] = false
names_model (c ∷ s) =
    starts_with (c ∷ s) (codes "content-disposition:")
      && has_infix (span_until (λ d. d == 13 || d == 10) (drop 20 (c ∷ s))).0
          (codes "name=\"model\"")
    || names_model s

-- the value without its line end
unfoldable pub without_line_end : Bytes → Bytes
without_line_end [] = []
without_line_end (c ∷ s) =
    let rest = without_line_end s in
    if text_beq (c ∷ s) (13 ∷ 10 ∷ [])
    then []
    else if text_beq (c ∷ s) (10 ∷ [])
    then []
    else c ∷ rest

-- The first part whose headers name the field; `decode` is `bytes.decode`, strict.
unfoldable pub model_part : (Bytes → Option Text) → List Bytes → Option Text
unfolding partition names_model lower without_line_end
model_part decode [] = none
model_part decode (part ∷ parts) =
    let later = model_part decode parts in
    elim (partition (13 ∷ 10 ∷ 13 ∷ 10 ∷ []) part) [
      | none ↦ later
      | some (headers, value) ↦
          if names_model (lower headers) then decode (without_line_end value) else later
    ]

-- The library calls: `json.loads` where it succeeds, `parse_qs` of the decoded body, and UTF-8.
pub record Codecs : Type 0 where
  pub loads : Bytes → Option Json
  pub parse_qs : Bytes → Dict Text (List Text)
  pub encode : Text → Bytes
  pub decode : Bytes → Option Text

unfoldable pub extract_multipart_model : Codecs → Text → Bytes → Option Text
unfolding find_boundary split_at model_part
extract_multipart_model codecs content_type body = elim (find_boundary content_type) [
  | none ↦ none
  | some boundary ↦
      model_part codecs.decode (split_at (codes "--" ++ codecs.encode (strip boundary)) 0 body)
]

-- a string that is not empty
abbrev pub nonempty_text : Option Json → Option Text
nonempty_text (some (str (c ∷ s))) = some (c ∷ s)
nonempty_text _ = none

unfoldable pub json_model : Option Json → Option Text
json_model (some (obj fs)) = nonempty_text (get (codes "model") fs)
json_model _ = none

abbrev pub first_value : Option (List Text) → Option Text
first_value (some (v ∷ vs)) = some v
first_value _ = none

unfoldable pub body_model : Codecs → Text → Bytes → Option Text
unfolding lower has_infix json_model extract_multipart_model
body_model codecs content_type body =
    if has_infix (lower content_type) (codes "application/json") && not (is_empty body)
    then json_model (codecs.loads body)
    else if has_infix (lower content_type) (codes "application/x-www-form-urlencoded")
    then first_value (lookup (codes "model") (codecs.parse_qs body))
    else if has_infix (lower content_type) (codes "multipart/form-data")
    then extract_multipart_model codecs content_type body
    else none

-- `extract_model`; `query_model` is what the query gives for `model`
unfoldable pub extract_model : Codecs → Option Text → Text → Bytes → Option Text
unfolding body_model
extract_model codecs (some (c ∷ s)) content_type body = some (c ∷ s)
extract_model codecs (some []) content_type body = body_model codecs content_type body
extract_model codecs none content_type body = body_model codecs content_type body

abbrev pub any_text : Option Json → Option Text
any_text (some (str s)) = some s
any_text _ = none

abbrev pub nested_id : Option Json → Option Text
nested_id (some (obj fs)) = any_text (get (codes "id") fs)
nested_id _ = none

abbrev pub response_text : Option Json → Option Text
response_text (some (str s)) = if starts_with s (codes "resp_") then some s else none
response_text _ = none

unfoldable pub find_response_id : Json → Option Text
unfolding starts_with
find_response_id (obj fs) = elim (response_text (get (codes "id") fs)) [
  | some direct ↦ some direct
  | none ↦ nested_id (get (codes "response") fs)
]
find_response_id _ = none
