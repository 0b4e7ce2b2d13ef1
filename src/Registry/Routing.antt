-- ===== src/Registry/Routing.antt =====
-- The registry that `build_registry` returns: every identifier leads to its model's engine, and no
-- two engines share a URL.
use mathlib.Core.List.Memᴰ
use mathlib.Core.List.{Memᴰ, append_cancel_left}
use mathlib.Core.List.Memᴰ.{head, tail, append_left, append_right}
use yeetllm.Common.{
  ℕ, ◌+◌, ◌≤◌, ◌<◌, ◌≡◌, ◌≢◌, refl, ap, ◌∙◌, sym, List, [], ◌∷◌, arith, length, contains, ok,
  IsDistinct, IsDistinct-append_right, contains-append, false, text_eq, eq_iff, some,
}
use yeetllm.Common.Dict.{keys, lookup, lookup_of_mem}
use yeetllm.Common.Text.{Text, codes}
use yeetllm.Common.Text.Decimal.{decimal, decimal_injective}
use yeetllm.Config.Types.{LoraAdapterConfig, ModelConfig, YeetConfig, adapter_ids}
use yeetllm.Config.Ownership.{all_ids, model_ids}
use yeetllm.Registry.{
  ModelRecord, EngineRecord, Registry, backend_of, base_record, engine_record, lora_record,
  build_registry,
}
use yeetllm.Registry.Entries.{
  adapter_entries, entries_of, engine_entries, model_entries, keys-model_entries,
}
use yeetllm.Registry.Ports.{build_registry_iff, registry_of}

-- Where a model stands in the registry.
record Place (first : ℕ) (ms : List ModelConfig) (m : ModelConfig) : Type 0 where
  port : ℕ
  above : first ≤ port
  below : port < first + length ms
  engine : Memᴰ (m.id, engine_record m port) (engine_entries first ms)
  records : (x : Text × ModelRecord) → Memᴰ x (entries_of port m) → Memᴰ x (model_entries first ms)

place : (first : ℕ) (ms : List ModelConfig) (m : ModelConfig) → Memᴰ m ms → Place first ms m
unfolding engine_entries model_entries
place first [] m h = elim h [ ]
place first (n ∷ rest) m (head e) = record {
  port = first;
  above = omega arith;
  below = omega arith;
  engine = head (ap (λ k. (k.id, engine_record k first)) e);
  records =
      λ x h. append_left {s = entries_of first n} (model_entries (first + 1) rest) (rw (← e) h);
}
place first (n ∷ rest) m (tail h) =
    let later = place (first + 1) rest m h in
    record {
      port = later.port;
      above = omega (arith, later.above);
      below = omega (arith, later.below);
      engine = tail later.engine;
      records = λ x k. append_right (entries_of first n) (later.records x k);
    }

adapter_record_of :
    (m b x : Text) (adapters : List LoraAdapterConfig)
    → Memᴰ x (adapter_ids adapters)
    → Memᴰ (x, lora_record x m b) (adapter_entries m b adapters)
unfolding adapter_entries adapter_ids
adapter_record_of m b x [] h = elim h [ ]
adapter_record_of m b x (a ∷ rest) (head e) = head (ap (λ k. (k, lora_record k m b)) e)
adapter_record_of m b x (a ∷ rest) (tail h) = tail (adapter_record_of m b x rest h)

-- The record of one of a model's identifiers.
record_of :
    (port : ℕ) (m : ModelConfig) (x : Text)
    → Memᴰ x (model_ids m)
    → (r : ModelRecord) × Memᴰ (x, r) (entries_of port m)
      × (r.engine_id ≡ m.id)
      × (r.backend_url ≡ backend_of port)
record_of port m x (head e) =
    (base_record m port, head (ap (λ k. (k, base_record m port)) e), refl, refl)
record_of port m x (tail h) = (
  lora_record x m.id (backend_of port),
  tail (adapter_record_of m.id (backend_of port) x m.lora.adapters h),
  refl,
  refl,
)

absent-engine :
    (port : ℕ) (ms : List ModelConfig) (x : Text)
    → contains (all_ids ms) x ≡ false
    → contains (keys (engine_entries port ms)) x ≡ false
unfolding contains all_ids engine_entries
absent-engine port [] x h = refl
absent-engine port (m ∷ rest) x h = ground (
  arith,
  contains-append (adapter_ids m.lora.adapters) (all_ids rest) x,
  absent-engine (port + 1) rest x,
)

engines-IsDistinct :
    (port : ℕ) (ms : List ModelConfig)
    → IsDistinct (all_ids ms)
    → IsDistinct (keys (engine_entries port ms))
unfolding contains all_ids engine_entries
engines-IsDistinct port [] h = tt
engines-IsDistinct port (m ∷ rest) h = (
  absent-engine (port + 1) rest m.id
      (ground (arith, contains-append (adapter_ids m.lora.adapters) (all_ids rest) m.id)),
  engines-IsDistinct (port + 1) rest (IsDistinct-append_right (model_ids m) (all_ids rest) h),
)

-- `x` leads to the engine of `m`: its record names the engine and has the engine's URL, the engine
-- serves exactly the model's identifiers, and its port is one of the `n` from `first`.
pub record LeadsTo (r : Registry) (first n : ℕ) (m : ModelConfig) (x : Text) : Type 0 where
  pub model : ModelRecord
  pub engine : EngineRecord
  pub model_found : lookup x r.models ≡ some model
  pub engine_found : lookup model.engine_id r.engines ≡ some engine
  pub names : model.engine_id ≡ m.id
  pub same_url : model.backend_url ≡ engine.backend_url
  pub url : engine.backend_url ≡ backend_of engine.port
  pub serves : engine.model_ids ≡ model_ids m
  pub above : first ≤ engine.port
  pub below : engine.port < first + n

registry_of-LeadsTo :
    (ms : List ModelConfig) (first now : ℕ) (m : ModelConfig) (x : Text)
    → IsDistinct (all_ids ms)
    → Memᴰ m ms
    → Memᴰ x (model_ids m)
    → LeadsTo (registry_of ms first now) first (length ms) m x
registry_of-LeadsTo ms first now m x distinct listed owned =
    let p = place first ms m listed in
    let (model, stored, names, same) = record_of p.port m x owned in
    record {
      model = model;
      engine = engine_record m p.port;
      model_found =
          lookup_of_mem x model (model_entries first ms) (rw (keys-model_entries first ms) distinct)
            (p.records (x, model) stored);
      engine_found = rw names (
          lookup_of_mem m.id (engine_record m p.port) (engine_entries first ms)
            (engines-IsDistinct first ms distinct) p.engine);
      names = names;
      same_url = same;
      url = refl;
      serves = refl;
      above = p.above;
      below = p.below;
    }

-- In the registry of a configuration with distinct identifiers, each identifier of each model, its
-- own or an adapter's, leads to that model's engine.
pub build_registry-LeadsTo :
    (config : YeetConfig) (first now : ℕ) (r : Registry) (m : ModelConfig) (x : Text)
    → IsDistinct (all_ids config.models)
    → build_registry config first now ≡ ok r
    → Memᴰ m config.models
    → Memᴰ x (model_ids m)
    → LeadsTo r first (length config.models) m x
build_registry-LeadsTo config first now r m x distinct built listed owned =
    let some_model : config.models ≢ [] = λ e. Memᴰ.not-nil (rw e at listed) in
    let closed = ((build_registry_iff config first now some_model distinct r).0 built).2 in
    rw closed (registry_of-LeadsTo config.models first now m x distinct listed owned)

backend_of_injective : (p q : ℕ) → backend_of p ≡ backend_of q → p ≡ q
unfolding backend_of
backend_of_injective p q e =
    decimal_injective p q (append_cancel_left (codes "http://127.0.0.1:") (decimal p) (decimal q) e)

engine_at :
    (port : ℕ) (ms : List ModelConfig) (k : Text) (e : EngineRecord)
    → lookup k (engine_entries port ms) ≡ some e
    → (port ≤ e.port) × (e.backend_url ≡ backend_of e.port)
unfolding lookup engine_entries
engine_at port [] k e h = cc
engine_at port (m ∷ rest) k e h = ground (arith, engine_at (port + 1) rest k e)

ports_apart :
    (port : ℕ) (ms : List ModelConfig) (j k : Text) (d e : EngineRecord)
    → lookup j (engine_entries port ms) ≡ some d
    → lookup k (engine_entries port ms) ≡ some e
    → d.port ≡ e.port
    → j ≡ k
unfolding lookup engine_entries
ports_apart port [] j k d e p q same = cc
ports_apart port (m ∷ rest) j k d e p q same = ground (
  arith,
  eq_iff m.id j,
  eq_iff m.id k,
  engine_at (port + 1) rest j d,
  engine_at (port + 1) rest k e,
  ports_apart (port + 1) rest j k d e,
)

-- In the registry that is built of a configuration with a model and with distinct identifiers,
-- engines with the same URL are the same.
pub build_registry-urls_apart :
    (config : YeetConfig) (first now : ℕ) (r : Registry) (j k : Text) (d e : EngineRecord)
    → config.models ≢ []
    → IsDistinct (all_ids config.models)
    → build_registry config first now ≡ ok r
    → lookup j r.engines ≡ some d
    → lookup k r.engines ≡ some e
    → d.backend_url ≡ e.backend_url
    → j ≡ k
build_registry-urls_apart config first now r j k d e some_model distinct built p q same =
    let closed =
      ap (λ s. s.engines) ((build_registry_iff config first now some_model distinct r).0 built).2 in
    let p' : lookup j (engine_entries first config.models) ≡ some d = rw closed at p in
    let q' : lookup k (engine_entries first config.models) ≡ some e = rw closed at q in
    let at_d = (engine_at first config.models j d p').1 in
    let at_e = (engine_at first config.models k e q').1 in
    ports_apart first config.models j k d e p' q'
      (backend_of_injective d.port e.port (sym at_d ∙ same ∙ at_e))
