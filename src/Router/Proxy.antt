-- ===== src/Router/Proxy.antt =====
-- `proxy` of router.py up to the request to the engine, and `readiness`.
pub mod Routes
use yeetllm.Common.{
  ℕ, zero, suc, ◌+◌, Bool, true, false, not, ◌&&◌, ◌||◌, Option, none, some, List, [], ◌∷◌, ◌++◌,
  ◌==◌, nat_eq, text_eq, text_beq, leb, all, contains, if◌then◌else◌,
}
use yeetllm.Common.Dict.{Dict, lookup, values}
use yeetllm.Common.Text.{Text, Bytes, codes, is_empty, rstrip_code, starts_with}
use yeetllm.Registry.{Registry, ModelRecord, EngineRecord}
use yeetllm.Router.Affinity.{AffinityMap}
use yeetllm.Router.Affinity
use yeetllm.Router.Extract.{Codecs, extract_model, span_until}
use yeetllm.Common.Text.Slices.{drop}

-- The state document that the supervisor writes, as far as the router reads it; `engines` has the
-- `state` of each engine.
pub record RuntimeState : Type 0 where
  pub phase : Text
  pub heartbeat : ℕ
  pub engines : Dict Text Text
  pub registry : Registry

pub record Request : Type 0 where
  pub path : Text
  pub query : Text
  pub query_model : Option Text
  pub content_type : Text
  pub body : Bytes

-- The errors of `proxy`, by their code.
pub data Refusal : Type 0 where
  management_route_disabled : Refusal
  registry_unavailable : Refusal
  response_not_found : Refusal
  model_not_found : Refusal
  model_required : Refusal
  engine_unavailable : Refusal

abbrev pub status_code : Refusal → ℕ
status_code management_route_disabled = 403
status_code registry_unavailable = 503
status_code response_not_found = 404
status_code model_not_found = 404
status_code model_required = 400
status_code engine_unavailable = 503

-- `crashed` is the `KeyError` for an engine that is in the state but not in the registry.
pub data Outcome : Type 0 where
  refused : Refusal → Outcome
  forward : Text → Text → Outcome
  crashed : Outcome

abbrev pub blocked_paths : List Text
blocked_paths =
    codes "/load_lora_adapter"
    ∷ codes "/start_profile"
    ∷ codes "/stop_profile"
    ∷ codes "/unload_lora_adapter"
    ∷ codes "/v1/load_lora_adapter"
    ∷ codes "/v1/unload_lora_adapter"
    ∷ codes "/wake_up"
    ∷ codes "/sleep"
    ∷ []

unfoldable pub is_blocked : Text → Bool
is_blocked path = contains blocked_paths (rstrip_code b'/' path)

-- what `(?:/cancel)?$` matches; `$` also stands before a line end
abbrev pub is_tail : Text → Bool
is_tail s = is_empty s || text_beq s (codes "/cancel") || text_beq s (codes "/cancel" ++ 10 ∷ [])

abbrev pub identifier_of : Text × Text → Option Text
identifier_of (identifier, tail) =
    if is_empty identifier then none else if is_tail tail then some identifier else none

-- `RESPONSE_PATH.match`
unfoldable pub response_path : Text → Option Text
unfolding starts_with drop span_until
response_path path =
    if starts_with path (codes "/v1/responses/")
    then identifier_of (span_until (λ c. c == b'/') (drop 14 path))
    else none

-- The engine for a request, or the refusal; the affinity map may change on the way.
pub data Choice : Type 0 where
  engine : Text → Choice
  none_for : Refusal → Choice

abbrev pub engine_of_model : Registry → Text → Choice
engine_of_model registry model = elim (lookup model registry.models) [
  | none ↦ none_for model_not_found
  | some record_ ↦ engine record_.engine_id
]

abbrev pub only_engine : Dict Text EngineRecord → Choice
only_engine ((engine_id, e) ∷ []) = engine engine_id
only_engine _ = none_for model_required

abbrev pub remembered : Option Text → Choice
remembered none = none_for response_not_found
remembered (some engine_id) = engine engine_id

unfoldable pub choose : ℕ → Option Text → Text → Registry → AffinityMap → Choice × AffinityMap
unfolding response_path
choose now (some model) path registry affinity = (engine_of_model registry model, affinity)
choose now none path registry affinity = elim (response_path path) [
  | none ↦ (only_engine registry.engines, affinity)
  | some identifier ↦ let got = Affinity.get now identifier affinity in (remembered got.1, got.0)
]

abbrev pub target_of : EngineRecord → Request → Text
target_of e request =
    if is_empty request.query
    then e.backend_url ++ request.path
    else e.backend_url ++ request.path ++ codes "?" ++ request.query

unfoldable pub is_ready : RuntimeState → Text → Bool
is_ready state engine_id = elim (lookup engine_id state.engines) [
  | none ↦ false
  | some s ↦ s == codes "ready"
]

unfoldable pub dispatch : RuntimeState → Request → Choice → Outcome
unfolding is_ready
dispatch state request (none_for refusal) = refused refusal
dispatch state request (engine engine_id) =
    if not (is_ready state engine_id)
    then refused engine_unavailable
    else elim (lookup engine_id state.registry.engines) [
      | none ↦ crashed
      | some e ↦ forward engine_id (target_of e request)
    ]

-- `proxy`; `state` is what `context.state()` reads, `none` where it raises
unfoldable pub proxy :
    Codecs → ℕ → Option RuntimeState → Request → AffinityMap → Outcome × AffinityMap
unfolding is_blocked choose dispatch
proxy codecs now none request affinity =
    if is_blocked request.path
    then (refused management_route_disabled, affinity)
    else (refused registry_unavailable, affinity)
proxy codecs now (some state) request affinity =
    if is_blocked request.path
    then (refused management_route_disabled, affinity)
    else let model = extract_model codecs request.query_model request.content_type request.body in
      let chosen = choose now model request.path state.registry affinity in
      (dispatch state request chosen.0, chosen.1)

abbrev pub no_engines : Dict Text Text → Bool
no_engines [] = true
no_engines (x ∷ d) = false

-- `readiness`: the flag; a heartbeat is fresh for ten seconds
unfoldable pub readiness : ℕ → RuntimeState → Bool
readiness now state =
    leb now (state.heartbeat + 10)
    && state.phase == codes "ready"
    && not (no_engines state.engines)
    && all (λ s. s == codes "ready") (values state.engines)
