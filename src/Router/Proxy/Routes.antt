-- ===== src/Router/Proxy/Routes.antt =====
-- Where the router sends a request.
use yeetllm.Common.{
  ℕ, ◌≤◌, ◌≡◌, refl, sym, ap, ◌∙◌, inl, inr, arith, true, false, Option, none, some, Bool-cases,
  Option-cases, text_eq, length, IsDistinct, ok, if◌then◌else◌,
}
use mathlib.Core.List.{Memᴰ}
use yeetllm.Common.Dict.{lookup}
use yeetllm.Common.Text.{Text}
use yeetllm.Config.Types.{YeetConfig, ModelConfig}
use yeetllm.Config.Ownership.{all_ids, model_ids}
use yeetllm.Registry.{Registry, EngineRecord, build_registry}
use yeetllm.Registry.Routing.{LeadsTo, build_registry-LeadsTo}
use yeetllm.Router.Affinity.{AffinityMap}
use yeetllm.Router.Affinity
use yeetllm.Router.Extract.{Codecs, extract_model}
use yeetllm.Router.Proxy.{
  RuntimeState, Request, Refusal, Outcome, Choice, is_blocked, choose, dispatch, is_ready, proxy,
  target_of, engine_of_model, response_path, remembered,
}

-- The body or the query names this model, and the path is not a blocked one.
abbrev pub Asks : Codecs → Request → Text → Type 0
Asks codecs request x =
    (is_blocked request.path ≡ false)
    × (extract_model codecs request.query_model request.content_type request.body ≡ some x)

dispatch-engine :
    (state : RuntimeState) (request : Request) (id : Text) (e : EngineRecord)
    → lookup id state.registry.engines ≡ some e
    → dispatch state request (Choice.engine id) ≡ (
        if is_ready state id
        then Outcome.forward id (target_of e request)
        else Outcome.refused Refusal.engine_unavailable)
unfolding dispatch
dispatch-engine state request id e h = elim (Bool-cases (is_ready state id)) [
  | inl up ↦ rw (up, h) refl
  | inr down ↦ rw down refl
]

engine_of_model-LeadsTo :
    (r : Registry) (first n : ℕ) (m : ModelConfig) (x : Text)
    → LeadsTo r first n m x
    → engine_of_model r x ≡ Choice.engine m.id
engine_of_model-LeadsTo r first n m x leads =
    let found : engine_of_model r x ≡ Choice.engine leads.model.engine_id =
      rw (leads.model_found, engine_of_model) refl in
    found ∙ ap Choice.engine leads.names

-- A request that asks for an identifier which the registry leads to a model goes to the engine of
-- that model, at its address, if the engine is ready, and is refused with 503 if it is not; the
-- remembered responses do not matter and stay.
pub proxy-LeadsTo :
    (codecs : Codecs) (now : ℕ) (state : RuntimeState) (request : Request) (a : AffinityMap)
    (first n : ℕ) (m : ModelConfig) (x : Text)
    → Asks codecs request x
    → (leads : LeadsTo state.registry first n m x)
    → proxy codecs now (some state) request a ≡ (
      (if is_ready state m.id
          then Outcome.forward m.id (target_of leads.engine request)
          else Outcome.refused Refusal.engine_unavailable),
      a,
    )
unfolding proxy choose
proxy-LeadsTo codecs now state request a first n m x (free, asked) leads =
    let there : lookup m.id state.registry.engines ≡ some leads.engine =
      ap (λ (id : Text). lookup id state.registry.engines) (sym leads.names) ∙ leads.engine_found in
    rw
      (
        free,
        asked,
        engine_of_model-LeadsTo state.registry first n m x leads,
        dispatch-engine state request m.id leads.engine there,
      )
      refl

-- With the registry of a configuration whose identifiers are distinct, a request on a path that is
-- not blocked that asks for a model or for one of its adapters is forwarded to that model's own
-- engine, at the engine's address, if that engine is ready. The engine serves the model's
-- identifiers, on a port not below the first, and the remembered responses stay.
pub proxy-build_registry :
    (codecs : Codecs) (now : ℕ) (state : RuntimeState) (request : Request) (a : AffinityMap)
    (config : YeetConfig) (first created : ℕ) (m : ModelConfig) (x : Text)
    → IsDistinct (all_ids config.models)
    → build_registry config first created ≡ ok state.registry
    → Memᴰ m config.models
    → Memᴰ x (model_ids m)
    → Asks codecs request x
    → is_ready state m.id ≡ true
    → (e : EngineRecord) × (lookup m.id state.registry.engines ≡ some e)
      × (e.model_ids ≡ model_ids m)
      × (first ≤ e.port)
      × (proxy codecs now (some state) request a ≡ (Outcome.forward m.id (target_of e request), a))
proxy-build_registry codecs now state request a config first created m x distinct built listed owned
      asks up =
    let leads =
      build_registry-LeadsTo config first created state.registry m x distinct built listed owned in
    let routed =
      proxy-LeadsTo codecs now state request a first (length config.models) m x asks leads in
    (
      leads.engine,
      rw (← leads.names) leads.engine_found,
      leads.serves,
      leads.above,
      rw up at routed,
    )

-- What a forwarding decision has found.
abbrev pub Found : RuntimeState → Request → Text → Text → Type 0
Found state request id target =
    (is_ready state id ≡ true)
    × (e : EngineRecord) × (lookup id state.registry.engines ≡ some e)
    × (target ≡ target_of e request)

dispatch-forward :
    (state : RuntimeState) (request : Request) (choice : Choice) (id target : Text)
    → dispatch state request choice ≡ Outcome.forward id target
    → Found state request id target
unfolding dispatch
dispatch-forward state request (Choice.none_for refusal) id target h = cc
dispatch-forward state request (Choice.engine other) id target h =
    elim (Bool-cases (is_ready state other)) [
      | inr down ↦ absurd (let no = rw (down) at h in cc)
      | inl up ↦ elim (Option-cases (lookup other state.registry.engines)) [
        | inl absent ↦ absurd (ground arith)
        | inr (e, present) ↦
            let whole : dispatch state request (Choice.engine other)
                ≡ Outcome.forward other (target_of e request) =
              rw (up, present, dispatch) refl in
            let same : Outcome.forward other (target_of e request) ≡ Outcome.forward id target =
              sym whole ∙ h in
            let p : other ≡ id = cc in
            let q : target_of e request ≡ target = cc in rw (← p) (up, e, present, sym q)
      ]
    ]

-- What is forwarded goes to an engine that is ready and in the registry, at that engine's address;
-- and a blocked path is never forwarded.
pub proxy-forward :
    (codecs : Codecs) (now : ℕ) (state : Option RuntimeState) (request : Request) (a : AffinityMap)
    (id target : Text)
    → (proxy codecs now state request a).0 ≡ Outcome.forward id target
    → (is_blocked request.path ≡ false)
      × (s : RuntimeState) × (state ≡ some s)
      × Found s request id target
unfolding proxy
proxy-forward codecs now none request a id target h = elim (Bool-cases (is_blocked request.path)) [
  | inl blocked ↦ absurd (let no = rw blocked at h in cc)
  | inr free ↦ absurd (let no = rw free at h in cc)
]
proxy-forward codecs now (some s) request a id target h =
    elim (Bool-cases (is_blocked request.path)) [
      | inl blocked ↦ absurd (let no = rw blocked at h in cc)
      | inr free ↦
          let model = extract_model codecs request.query_model request.content_type request.body in
          let chosen = choose now model request.path s.registry a in
          (free, s, refl, dispatch-forward s request chosen.0 id target (rw free at h))
    ]

-- A request that names no model, for a response that the router remembers, goes to the engine that
-- the affinity map gives; for one that it does not remember it is refused with 404.
pub proxy-response :
    (codecs : Codecs) (now : ℕ) (state : RuntimeState) (request : Request) (a : AffinityMap)
    (identifier : Text)
    → is_blocked request.path ≡ false
    → extract_model codecs request.query_model request.content_type request.body ≡ none
    → response_path request.path ≡ some identifier
    → proxy codecs now (some state) request a ≡ (
      dispatch state request (remembered (Affinity.get now identifier a).1),
      (Affinity.get now identifier a).0,
    )
unfolding proxy choose
proxy-response codecs now state request a identifier free silent path = rw (free, silent, path) refl
