-- ===== src/Router/Headers.antt =====
-- The header filters of router.py. Names and values are bytes; decoding latin-1 keeps the numbers.
pub mod EndToEnd
pub mod Sent
use yeetllm.Common.{
  ℕ, Bool, not, ◌&&◌, List, [], ◌∷◌, ◌++◌, contains, keep, text_eq, ◌==◌, if◌then◌else◌,
}
use yeetllm.Common.Text.{Bytes, codes, is_empty, is_ascii_space, strip_by, lower, split, has_infix}
use yeetllm.Common.Dict.{Dict}
use yeetllm.Common.Dict.Updates.{update}

abbrev pub Headers : Type 0
Headers = List (Bytes × Bytes)

abbrev pub hop_by_hop : List Bytes
hop_by_hop =
    codes "connection"
    ∷ codes "keep-alive"
    ∷ codes "proxy-authenticate"
    ∷ codes "proxy-authorization"
    ∷ codes "te"
    ∷ codes "trailer"
    ∷ codes "transfer-encoding"
    ∷ codes "upgrade"
    ∷ []

-- `token.strip().lower()` of the tokens that are not blank
unfoldable pub tokens_of : List Bytes → List Bytes
unfolding strip_by lower
tokens_of [] = []
tokens_of (token ∷ rest) =
    let more = tokens_of rest in
    let stripped = strip_by is_ascii_space token in
    if is_empty stripped then more else lower stripped ∷ more

unfoldable pub connection_header_tokens : Headers → List Bytes
unfolding tokens_of split lower
connection_header_tokens [] = []
connection_header_tokens ((name, value) ∷ rest) =
    let more = connection_header_tokens rest in
    if lower name == codes "connection" then tokens_of (split b',' value) ++ more else more

-- the entries whose lower-case name is not blocked
unfoldable pub without : List Bytes → Headers → Headers
unfolding contains keep lower
without blocked = keep (λ item. not (contains blocked (lower item.0)))

unfoldable pub filter_request_headers : Headers → Headers
unfolding without connection_header_tokens
filter_request_headers raw =
    without
      (hop_by_hop ++ connection_header_tokens raw ++ codes "host" ∷ codes "content-length" ∷ []) raw

unfoldable pub filter_response_headers : Headers → Headers
unfolding without connection_header_tokens
filter_response_headers raw =
    without (hop_by_hop ++ connection_header_tokens raw ++ codes "content-length" ∷ []) raw

-- the response is not streamed on, and its content was decoded already
unfoldable pub is_decoded : Bytes → Bool → Bool
unfolding has_infix lower
is_decoded content_type consumed =
    not (has_infix (lower content_type) (codes "text/event-stream")) && consumed

-- `response_headers`, with what becomes of it where the content was decoded
unfoldable pub response_headers : Bytes → Bool → Headers → Headers
unfolding filter_response_headers is_decoded keep lower
response_headers content_type consumed raw =
    let filtered = filter_response_headers raw in
    if is_decoded content_type consumed
    then keep (λ item. not (lower item.0 == codes "content-encoding")) filtered
    else filtered

-- The headers that `proxy` gives its `Response` or `StreamingResponse`. `content_type` is what the
-- upstream's response says, and `consumed` its `is_stream_consumed`.
unfoldable pub sent_headers : Bytes → Bool → Headers → Dict Bytes Bytes
unfolding response_headers update
sent_headers content_type consumed raw = update [] (response_headers content_type consumed raw)
