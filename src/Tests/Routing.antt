-- ===== src/Tests/Routing.antt =====
-- The registry of two models, and requests through the router.
use mathlib.Core.List.{Memᴰ}
use mathlib.Core.List.Memᴰ.{head, tail}
use yeetllm.Common.{
  ◌+◌, ◌*◌, ◌≤◌, ◌≡◌, ◌≢◌, ◌⊎◌, ◌↔◌, keep, refl, ap, arith, true, false, Option, none, some, inl,
  List, [], ◌∷◌, ◌++◌, ok, text_eq, nat_eq, text_beq, contains, length,
}
use yeetllm.Common.Text.{Text, Bytes, codes, rstrip_by, lower, split, has_infix}
use yeetllm.Common.Json.{Json}
use yeetllm.Config.Types.{adapter_ids}
use yeetllm.Config.Ownership.{model_ids}
use yeetllm.Registry.{Registry, EngineRecord, build_registry, backend_of}
use yeetllm.Registry.Entries.{engine_entries, model_entries}
use yeetllm.Registry.Ports.{PortsFree, registry_of, build_registry_iff}
use yeetllm.Registry.Routing.{LeadsTo, build_registry-LeadsTo, build_registry-urls_apart}
use yeetllm.Router.Affinity.{AffinityMap, put, get}
use yeetllm.Router.Affinity.Bounds.{IsValid, live}
use yeetllm.Router.Affinity.History.{Call, run, run-IsValid, get-run-put, get-eq-live, engine_of}
use yeetllm.Router.Extract.{Codecs, extract_model}
use yeetllm.Router.Proxy.{RuntimeState, Request, Outcome, is_blocked, is_ready, proxy, target_of}
use yeetllm.Router.Proxy.Routes.{Asks, Found, proxy-build_registry, proxy-forward}
use yeetllm.Common.Dict.{lookup, insert}
use yeetllm.Common.Dict.Updates.{update}
use yeetllm.Router.Headers.{
  Headers, without, connection_header_tokens, filter_request_headers, filter_response_headers,
  is_decoded, response_headers, sent_headers,
}
use yeetllm.Router.Headers.Sent.{IsLast, sent_headers_iff}
use yeetllm.Router.Headers.EndToEnd.{IsEndToEnd, filter_request_headers_iff}
use yeetllm.Router.Sse.{feed, cut}
use yeetllm.Router.Sse.Feed.{feed-settled, feed-append}
use yeetllm.Router.Models.{models}
use yeetllm.Tests.Configs.{model_a, model_b, two_models, two_models-IsDistinct, two_models-some}

abbrev pub two_registry : Registry
two_registry = registry_of two_models.models 8100 1

pub built : build_registry two_models 8100 1 ≡ ok two_registry
built =
    (build_registry_iff two_models 8100 1 two_models-some two_models-IsDistinct two_registry).1
      (omega arith, ((λ e. omega arith), (inl (omega arith), (inl (omega arith), tt))), refl)

build_registry_iff_example : (build_registry two_models 8100 1 ≡ ok two_registry) ↔ (
    (8100 + length two_models.models ≤ 65536)
    × PortsFree two_models 8100 two_models.models
    × (two_registry ≡ registry_of two_models.models 8100 1))
build_registry_iff_example =
    build_registry_iff two_models 8100 1 two_models-some two_models-IsDistinct two_registry

second : Memᴰ model_b two_models.models
second = tail (head refl)

owned_c : Memᴰ (codes "c") (model_ids model_b)
unfolding adapter_ids
owned_c = tail (head refl)

build_registry-LeadsTo_example :
    LeadsTo two_registry 8100 (length two_models.models) model_b (codes "c")
build_registry-LeadsTo_example =
    build_registry-LeadsTo two_models 8100 1 two_registry model_b (codes "c") two_models-IsDistinct
      built second owned_c

abbrev engine_a : EngineRecord
engine_a = record {
  id = codes "a";
  backend_url = backend_of 8100;
  port = 8100;
  model_ids = model_ids model_a;
  required = true;
}

found_a : lookup (codes "a") two_registry.engines ≡ some engine_a
unfolding lookup text_beq engine_entries
found_a = refl

build_registry-urls_apart_example : codes "a" ≡ codes "a"
build_registry-urls_apart_example =
    build_registry-urls_apart two_models 8100 1 two_registry (codes "a") (codes "a") engine_a
      engine_a two_models-some two_models-IsDistinct built found_a found_a refl

-- Codecs that know no JSON and no forms: the model is then named in the query.
abbrev no_codecs : Codecs
no_codecs = record {
  loads = λ raw. none;
  parse_qs = λ raw. [];
  encode = λ s. s;
  decode = λ s. some s;
}

abbrev both_ready : RuntimeState
both_ready = record {
  phase = codes "ready";
  heartbeat = 100;
  engines = (codes "a", codes "ready") ∷ (codes "b", codes "ready") ∷ [];
  registry = two_registry;
}

abbrev ask_for : Text → Request
ask_for model = record {
  path = codes "/v1/chat/completions";
  query = codes "model=x";
  query_model = some model;
  content_type = [];
  body = [];
}

abbrev small_map : AffinityMap
small_map = record { maximum = 3; ttl = 10; items = [] }

not_blocked : is_blocked (codes "/v1/chat/completions") ≡ false
unfolding is_blocked contains text_beq rstrip_by
not_blocked = refl

Asks-c : Asks no_codecs (ask_for (codes "c")) (codes "c")
unfolding extract_model
Asks-c = (not_blocked, refl)

ready_b : is_ready both_ready model_b.id ≡ true
unfolding is_ready lookup text_beq
ready_b = refl

proxy-build_registry_example :
    (e : EngineRecord) × (lookup model_b.id both_ready.registry.engines ≡ some e)
    × (e.model_ids ≡ model_ids model_b)
    × (8100 ≤ e.port)
    × (proxy no_codecs 5 (some both_ready) (ask_for (codes "c")) small_map
        ≡ (Outcome.forward model_b.id (target_of e (ask_for (codes "c"))), small_map))
proxy-build_registry_example =
    proxy-build_registry no_codecs 5 both_ready (ask_for (codes "c")) small_map two_models 8100 1
      model_b (codes "c") two_models-IsDistinct built second owned_c Asks-c ready_b

abbrev engine_b : EngineRecord
engine_b = record {
  id = codes "b";
  backend_url = backend_of 8101;
  port = 8101;
  model_ids = model_ids model_b;
  required = true;
}

forwarded :
    (proxy no_codecs 5 (some both_ready) (ask_for (codes "c")) small_map).0
    ≡ Outcome.forward (codes "b") (target_of engine_b (ask_for (codes "c")))
unfolding proxy lookup text_beq engine_entries model_entries extract_model
forwarded = rw not_blocked refl

proxy-forward_example :
    (is_blocked (ask_for (codes "c")).path ≡ false)
    × (s : RuntimeState) × (some both_ready ≡ some s)
    × Found s (ask_for (codes "c")) (codes "b") (target_of engine_b (ask_for (codes "c")))
proxy-forward_example =
    proxy-forward no_codecs 5 (some both_ready) (ask_for (codes "c")) small_map (codes "b")
      (target_of engine_b (ask_for (codes "c"))) forwarded

-- A response stored for engine `a`, another one for `b`, and then the first is asked for.
small_map-IsValid : IsValid small_map
small_map-IsValid = record { distinct = tt; bounded = omega arith }

abbrev other_call : List Call
other_call = Call.put_call 2 2 (codes "resp_22") (codes "b") ∷ []

get-run-put_example :
    (get 5 (codes "resp_1") (run other_call (put 1 1 (codes "resp_1") (codes "a") small_map))).1
    ≡ some (codes "a")
get-run-put_example =
    get-run-put small_map 1 1 5 (codes "resp_1") (codes "a") other_call small_map-IsValid
      (((λ e. omega (arith, ap length e)), omega arith), tt) (omega arith) (omega arith)

run-IsValid_example : IsValid (run other_call small_map)
run-IsValid_example = run-IsValid other_call small_map small_map-IsValid

get-eq-live_example :
    (get 5 (codes "resp_2") small_map).1
    ≡ engine_of (live 5 (lookup (codes "resp_2") small_map.items))
get-eq-live_example = get-eq-live small_map 5 (codes "resp_2") small_map-IsValid

abbrev some_headers : Headers
some_headers =
    (codes "Connection", codes "X-Hop")
    ∷ (codes "X-Hop", codes "1")
    ∷ (codes "Accept", codes "*/*")
    ∷ []

filter_request_headers_iff_example :
    Memᴰ (codes "Accept", codes "*/*") (filter_request_headers some_headers) ↔ (
      Memᴰ (codes "Accept", codes "*/*") some_headers
      × IsEndToEnd
          (codes "host" ∷ codes "content-length" ∷ [])
          some_headers
          (lower (codes "Accept")))
filter_request_headers_iff_example =
    filter_request_headers_iff some_headers (codes "Accept") (codes "*/*")

-- A response that sets two cookies and whose content was decoded.
abbrev answer_headers : Headers
answer_headers =
    (codes "Set-Cookie", codes "a")
    ∷ (codes "Content-Encoding", codes "gzip")
    ∷ (codes "Set-Cookie", codes "b")
    ∷ []

second_cookie :
    sent_headers (codes "text/plain") true answer_headers ≡ (codes "Set-Cookie", codes "b") ∷ []
unfolding sent_headers response_headers is_decoded filter_response_headers without
    connection_header_tokens split lower contains keep has_infix update insert text_beq
second_cookie = refl

sent_headers_iff_example :
    (lookup (codes "Set-Cookie") (sent_headers (codes "text/plain") true answer_headers)
      ≡ some (codes "b"))
    ↔ (IsLast answer_headers (codes "Set-Cookie") (codes "b")
        × IsEndToEnd (codes "content-length" ∷ []) answer_headers (lower (codes "Set-Cookie"))
        × ((true ≡ false)
            ⊎ ((has_infix (lower (codes "text/plain")) (codes "text/event-stream") ≡ true)
                ⊎ (lower (codes "Set-Cookie") ≢ codes "content-encoding"))))
sent_headers_iff_example =
    sent_headers_iff (codes "text/plain") true answer_headers (codes "Set-Cookie") (codes "b")

-- An event that is cut in two.
abbrev start : Bytes
start = codes "data: {" ++ 10 ∷ []

abbrev finish : Bytes
finish = 10 ∷ codes "data: x"

abbrev no_json : Bytes → Option Json
no_json raw = none

no_returns : contains (([] ++ start) ++ finish) 13 ≡ false
unfolding contains
no_returns = refl

feed-append_example : feed no_json (start ++ finish) [] ≡ (
  (feed no_json start []).0 ++ (feed no_json finish (feed no_json start []).1).0,
  (feed no_json finish (feed no_json start []).1).1,
)
feed-append_example = feed-append no_json start finish [] no_returns (omega arith)

feed-settled_example :
    (cut (feed no_json start finish).1 ≡ none) × (length (feed no_json start finish).1 ≤ 128 * 1024)
feed-settled_example = feed-settled no_json start finish
