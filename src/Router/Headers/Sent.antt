-- ===== src/Router/Headers/Sent.antt =====
-- Which headers of the upstream's response `proxy` gives its own, in router.py.
use yeetllm.Common.{
  ◌≡◌, ◌≢◌, refl, ap, ◌∙◌, ◌↔◌, ◌⊎◌, inl, inr, Bool, true, false, not, ◌&&◌, none, some, [], ◌∷◌,
  ◌++◌, arith, contains, text_eq, eq_iff, eq_refl, ◌==◌, Bool-cases, if◌then◌else◌,
}
use yeetllm.Common.Dict.{keys, is_some, lookup}
use yeetllm.Common.Dict.Updates.{last_value, lookup-update, contains-last_value, last_value-keep}
use yeetllm.Common.Text.{Bytes, codes, lower, has_infix}
use yeetllm.Router.Headers.{
  Headers, hop_by_hop, connection_header_tokens, without, filter_response_headers, is_decoded,
  response_headers, sent_headers,
}
use yeetllm.Router.Headers.EndToEnd.{IsEndToEnd, blocked_iff}

-- The last entry of exactly this name has this value.
abbrev pub IsLast : Headers → Bytes → Bytes → Type 0
IsLast raw name value =
    (before : Headers) × (after : Headers) × (raw ≡ before ++ (name, value) ∷ after)
    × (contains (keys after) name ≡ false)

module _ (name : Bytes) where
  last_value_sound :
      (raw : Headers) (value : Bytes) → last_value name raw ≡ some value → IsLast raw name value
  unfolding last_value
  last_value_sound [] value h = absurd (cc h)
  last_value_sound ((n, v) ∷ rest) value h = elim (Bool-cases (is_some (last_value name rest))) [
    | inl later ↦
        let (before, after, split, gone) = last_value_sound rest value (ground arith) in
        ((n, v) ∷ before, after, ap (λ r. (n, v) ∷ r) split, gone)
    | inr last ↦
        let here : n ≡ name = ground (arith, eq_iff n name) in
        let same : v ≡ value = ground arith in
        ([], rest, rw (here, same) refl, contains-last_value name rest ∙ last)
  ]

  last_value_complete :
      (before after : Headers) (value : Bytes)
      → contains (keys after) name ≡ false
      → last_value name (before ++ (name, value) ∷ after) ≡ some value
  unfolding last_value
  last_value_complete [] after value gone =
      ground (arith, contains-last_value name after, eq_refl name)
  last_value_complete ((n, v) ∷ before) after value gone =
      rw (last_value_complete before after value gone) refl

  last_value_iff :
      (raw : Headers) (value : Bytes) → (last_value name raw ≡ some value) ↔ IsLast raw name value
  last_value_iff raw value = (
    last_value_sound raw value,
    λ (before, after, split, gone).
        ap (last_value name) split ∙ last_value_complete before after value gone,
  )

  -- The names that neither filter takes away.
  abbrev is_free : Headers → Bool
  is_free raw = not (
      contains (hop_by_hop ++ connection_header_tokens raw ++ codes "content-length" ∷ [])
        (lower name))

  last_value-filter :
      (raw : Headers)
      → last_value name (filter_response_headers raw)
        ≡ (if is_free raw then last_value name raw else none)
  unfolding filter_response_headers without
  last_value-filter raw =
      last_value-keep name
        (λ n. not (
          contains (hop_by_hop ++ connection_header_tokens raw ++ codes "content-length" ∷ [])
            (lower n)))
        raw

  last_value-response_headers :
      (content_type : Bytes) (consumed : Bool) (raw : Headers)
      → last_value name (response_headers content_type consumed raw) ≡ (
          if is_free raw
            && not (is_decoded content_type consumed && lower name == codes "content-encoding")
          then last_value name raw
          else none)
  unfolding response_headers
  last_value-response_headers content_type consumed raw =
      elim (Bool-cases (is_decoded content_type consumed)) [
        | inl decoded ↦ rw decoded (
            last_value-keep name (λ n. not (lower n == codes "content-encoding"))
              (filter_response_headers raw)
            ∙ ground (arith, last_value-filter raw))
        | inr plain ↦ rw plain (last_value-filter raw ∙ ground arith)
      ]

-- `proxy` gives its response a header exactly if the upstream's has it and it is end-to-end: its value is
-- that of the last entry of this very name; its lower-case name is not a hop-by-hop name, is not
-- `content-length`, and is named by no part of a `Connection` header; and it is not `content-encoding`,
-- unless the upstream's stream was not consumed or its content type is that of an event stream.
-- Earlier entries of the same name are lost.
pub sent_headers_iff :
    (content_type : Bytes) (consumed : Bool) (raw : Headers) (name value : Bytes)
    → (lookup name (sent_headers content_type consumed raw) ≡ some value) ↔ (
        IsLast raw name value
        × IsEndToEnd (codes "content-length" ∷ []) raw (lower name)
        × ((consumed ≡ false)
            ⊎ ((has_infix (lower content_type) (codes "text/event-stream") ≡ true)
                ⊎ (lower name ≢ codes "content-encoding"))))
unfolding sent_headers is_decoded lookup
sent_headers_iff content_type consumed raw name value = ground (
  arith,
  lookup-update name (response_headers content_type consumed raw) [],
  last_value-response_headers name content_type consumed raw,
  last_value_iff name raw value,
  blocked_iff (codes "content-length" ∷ []) raw (lower name),
  eq_iff (lower name) (codes "content-encoding"),
)
