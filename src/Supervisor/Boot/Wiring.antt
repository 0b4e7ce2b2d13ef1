-- ===== src/Supervisor/Boot/Wiring.antt =====
-- A valid configuration gives a supervisor that can start.
use yeetllm.Common.{
  ℕ, suc, ◌+◌, ◌≤◌, ◌≡◌, refl, sym, ap, ◌∙◌, arith, Bool, true, false, List, [], ◌∷◌, text_eq,
  contains, contains-append, is_subset, all_of_contains, IsDistinct, IsDistinct-append_right, ok,
  if◌then◌else◌,
}
use yeetllm.Common.Dict.{Dict, keys}
use yeetllm.Common.Text.{Text}
use yeetllm.Config.Types.{ModelConfig, YeetConfig, adapter_ids}
use yeetllm.Config.Global.{validate_global_ids_and_gpus}
use yeetllm.Config.Ownership.{all_ids, validate_global_iff}
use yeetllm.Cluster.Detection.{ClusterInfo}
use yeetllm.Registry.{Registry, EngineRecord, build_registry}
use yeetllm.Registry.Entries.{engine_entries}
use yeetllm.Registry.Ports.{build_registry_iff}
use yeetllm.Supervisor.State.{pending_entries, initialize, touch}
use yeetllm.Supervisor.{Supervisor}
use yeetllm.Supervisor.Engines.{IsWired}
use yeetllm.Supervisor.Startup.{Surroundings, indexed, start_engines}
use yeetllm.Supervisor.Startup.Settling.{names}
use yeetllm.Supervisor.Startup.Outcome.{IsStarted, start_engines-IsStarted}
use yeetllm.Supervisor.Boot.{Node, new_supervisor, with_cluster}

keys-pending_entries : (d : Dict Text EngineRecord) → keys (pending_entries d) ≡ keys d
unfolding pending_entries
keys-pending_entries [] = refl
keys-pending_entries ((id, e) ∷ d) = ap (λ ids. id ∷ ids) (keys-pending_entries d)

keys-engine_entries :
    (port i : ℕ) (models : List ModelConfig)
    → keys (engine_entries port models) ≡ names (indexed i models)
unfolding engine_entries names indexed
keys-engine_entries port i [] = refl
keys-engine_entries port i (m ∷ models) =
    ap (λ ids. m.id ∷ ids) (keys-engine_entries (port + 1) (suc i) models)

-- A model's identifier is one of all.
name_in_all :
    (i : ℕ) (models : List ModelConfig) (x : Text)
    → contains (all_ids models) x ≡ false
    → contains (names (indexed i models)) x ≡ false
unfolding names indexed all_ids contains
name_in_all i [] x h = refl
name_in_all i (m ∷ models) x h =
    let parts = contains-append (adapter_ids m.lora.adapters) (all_ids models) x in
    ground (arith, name_in_all (suc i) models x)

names-IsDistinct :
    (i : ℕ) (models : List ModelConfig)
    → IsDistinct (all_ids models)
    → IsDistinct (names (indexed i models))
unfolding names indexed all_ids
names-IsDistinct i [] h = tt
names-IsDistinct i (m ∷ models) h =
    let parts = contains-append (adapter_ids m.lora.adapters) (all_ids models) m.id in
    let new : contains (all_ids models) m.id ≡ false = ground arith in
    (
      name_in_all (suc i) models m.id new,
      names-IsDistinct (suc i) models
          (IsDistinct-append_right (adapter_ids m.lora.adapters) (all_ids models) h.1),
    )

new_supervisor-IsWired :
    (node : Node) (config : YeetConfig) (cluster : ClusterInfo) (registry : Registry)
    → IsDistinct (keys registry.engines)
    → IsWired (new_supervisor node config cluster registry)
unfolding new_supervisor initialize touch
new_supervisor-IsWired node config cluster registry distinct = record {
  listed = keys-pending_entries registry.engines;
  distinct = distinct;
  known = tt;
}

contains_itself : (ids : List Text) → is_subset ids ids ≡ true
contains_itself ids = all_of_contains (contains ids) ids (λ id m. m)

IsWired-if : (b : Bool) (s t : Supervisor) → IsWired s → IsWired t → IsWired (if b then t else s)
IsWired-if true s t w v = v
IsWired-if false s t w v = w

with_cluster-IsWired :
    (config_hash : Text) (s : Supervisor) → IsWired s → IsWired (with_cluster config_hash s)
unfolding with_cluster
with_cluster-IsWired config_hash s w = IsWired-if s.cluster.enabled s _ w (record {
  listed = w.listed;
  distinct = w.distinct;
  known = contains_itself (keys s.registry.engines);
})

same_if :
    (b : Bool) (s t : Supervisor)
    → (t.registry ≡ s.registry) × (t.config ≡ s.config)
    → ((if b then t else s).registry ≡ s.registry) × ((if b then t else s).config ≡ s.config)
same_if true s t h = h
same_if false s t h = (refl, refl)

-- The supervisor that a primary starts its engines with.
abbrev pub booted : Node → Text → YeetConfig → ClusterInfo → Registry → Supervisor
booted node config_hash config cluster registry =
    with_cluster config_hash (new_supervisor node config cluster registry)

booted_same :
    (node : Node) (config_hash : Text) (config : YeetConfig) (cluster : ClusterInfo)
    (registry : Registry)
    → ((booted node config_hash config cluster registry).registry ≡ registry)
      × ((booted node config_hash config cluster registry).config ≡ config)
unfolding with_cluster new_supervisor
booted_same node config_hash config cluster registry = same_if cluster.enabled _ _ (refl, refl)

-- With a configuration that passes the check of identifiers and GPUs, and the registry that is built
-- from it, a primary that is not asked to stop starts its engines without an exception, whatever the
-- adapters, the workers, the processes and the probes do: every engine is ready or failed at the end,
-- and the phase is `ready` if all are ready and `degraded` otherwise. `parallelism` is one or more.
pub booted-IsStarted :
    (node : Node) (config_hash : Text) (config : YeetConfig) (cluster : ClusterInfo)
    (registry : Registry) (first now : ℕ) (env : Surroundings)
    → validate_global_ids_and_gpus config ≡ ok config
    → build_registry config first now ≡ ok registry
    → 1 ≤ config.parallelism
    → ((n : ℕ) → env.stopping n ≡ false)
    → (s' : Supervisor) × (start_engines env false (booted node config_hash config cluster registry)
        ≡ ok s')
      × IsStarted s'
booted-IsStarted node config_hash config cluster registry first now env valid built size on =
    let (some_model, distinct, _) = (validate_global_iff config).0 valid in
    let (_, _, same) = (build_registry_iff config first now some_model distinct registry).0 built in
    let listed : keys registry.engines ≡ names (indexed 0 config.models) =
      ap (λ (r : Registry). keys r.engines) same ∙ keys-engine_entries first 0 config.models in
    let apart : IsDistinct (keys registry.engines) =
      rw listed (names-IsDistinct 0 config.models distinct) in
    let s : Supervisor = booted node config_hash config cluster registry in
    let (r, c) = booted_same node config_hash config cluster registry in
    let w : IsWired s =
      with_cluster-IsWired config_hash (new_supervisor node config cluster registry)
        (new_supervisor-IsWired node config cluster registry apart) in
    start_engines-IsStarted env s w
      (ap (λ (r : Registry). keys r.engines) r
        ∙ listed
        ∙ sym (ap (λ (c : YeetConfig). names (indexed 0 c.models)) c))
      (rw c size) on
