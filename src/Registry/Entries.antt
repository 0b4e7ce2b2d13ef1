-- ===== src/Registry/Entries.antt =====
-- The dictionaries of the registry in closed form, for identifiers that are all different.
use mathlib.Core.Path.{ap₂}
use mathlib.Core.List.{append_assoc, append-nil}
use yeetllm.Common.{
  ℕ, ◌+◌, ◌≤◌, ◌≡◌, refl, ap, ◌∙◌, sym, false, List, [], ◌∷◌, ◌++◌, arith, ltb, contains,
  contains-append, length, text_eq, ok,
}
use yeetllm.Common.Dict.{Dict, keys, insert, insert_new, keys-append}
use yeetllm.Common.Text.{Text}
use yeetllm.Config.Types.{LoraAdapterConfig, ModelConfig, adapter_ids}
use yeetllm.Config.Claims.{AreNew, AreNew-append}
use yeetllm.Config.Ownership.{all_ids, model_ids}
use yeetllm.Registry.{
  EngineRecord, ModelRecord, engine_record, base_record, lora_record, backend_of, add_adapters,
  add_models,
}

unfoldable pub adapter_entries : Text → Text → List LoraAdapterConfig → Dict Text ModelRecord
adapter_entries model_id backend [] = []
adapter_entries model_id backend (a ∷ rest) =
    (a.id, lora_record a.id model_id backend) ∷ adapter_entries model_id backend rest

abbrev pub entries_of : ℕ → ModelConfig → Dict Text ModelRecord
entries_of port m =
    (m.id, base_record m port) ∷ adapter_entries m.id (backend_of port) m.lora.adapters

unfoldable pub model_entries : ℕ → List ModelConfig → Dict Text ModelRecord
unfolding adapter_entries
model_entries port [] = []
model_entries port (m ∷ rest) = entries_of port m ++ model_entries (port + 1) rest

unfoldable pub engine_entries : ℕ → List ModelConfig → Dict Text EngineRecord
engine_entries port [] = []
engine_entries port (m ∷ rest) = (m.id, engine_record m port) ∷ engine_entries (port + 1) rest

keys-adapter_entries :
    (m b : Text) (adapters : List LoraAdapterConfig)
    → keys (adapter_entries m b adapters) ≡ adapter_ids adapters
unfolding adapter_entries adapter_ids
keys-adapter_entries m b [] = refl
keys-adapter_entries m b (a ∷ rest) = cc (keys-adapter_entries m b rest)

pub keys-entries_of : (port : ℕ) (m : ModelConfig) → keys (entries_of port m) ≡ model_ids m
keys-entries_of port m = cc (keys-adapter_entries m.id (backend_of port) m.lora.adapters)

pub keys-model_entries :
    (port : ℕ) (models : List ModelConfig) → keys (model_entries port models) ≡ all_ids models
unfolding model_entries all_ids
keys-model_entries port [] = refl
keys-model_entries port (m ∷ rest) =
    keys-append (entries_of port m) (model_entries (port + 1) rest)
    ∙ ap₂ ◌++◌ (keys-entries_of port m) (keys-model_entries (port + 1) rest)

add_adapters_new :
    (d : Dict Text ModelRecord) (m b : Text) (adapters : List LoraAdapterConfig)
    → AreNew (keys d) (adapter_ids adapters)
    → add_adapters d m b adapters ≡ d ++ adapter_entries m b adapters
unfolding add_adapters adapter_entries adapter_ids
add_adapters_new d m b [] h = sym (append-nil d)
add_adapters_new d m b (a ∷ rest) h =
    ap (λ e. add_adapters e m b rest) (insert_new a.id (lora_record a.id m b) d h.0)
    ∙ add_adapters_new (d ++ (a.id, lora_record a.id m b) ∷ []) m b rest
        (rw (keys-append d ((a.id, lora_record a.id m b) ∷ [])) h.1)
    ∙ append_assoc d ((a.id, lora_record a.id m b) ∷ []) (adapter_entries m b rest)

-- One model's records, in a dictionary that has none of its identifiers.
add_model_new :
    (d : Dict Text ModelRecord) (port : ℕ) (m : ModelConfig)
    → AreNew (keys d) (model_ids m)
    → add_adapters (insert m.id (base_record m port) d) m.id (backend_of port) m.lora.adapters
      ≡ d ++ entries_of port m
add_model_new d port m h =
    ap (λ e. add_adapters e m.id (backend_of port) m.lora.adapters)
      (insert_new m.id (base_record m port) d h.0)
    ∙ add_adapters_new (d ++ (m.id, base_record m port) ∷ []) m.id (backend_of port) m.lora.adapters
        (rw (keys-append d ((m.id, base_record m port) ∷ [])) h.1)
    ∙ append_assoc d ((m.id, base_record m port) ∷ [])
        (adapter_entries m.id (backend_of port) m.lora.adapters)

contains-after :
    (engines : Dict Text EngineRecord) (models : Dict Text ModelRecord) (port : ℕ) (m : ModelConfig)
    (x : Text)
    → (contains (keys models) x ≡ false → contains (keys engines) x ≡ false)
    → contains (keys (models ++ entries_of port m)) x ≡ false
    → contains (keys (engines ++ (m.id, engine_record m port) ∷ [])) x ≡ false
unfolding contains
contains-after engines models port m x sub h = ground (
  arith,
  contains-append (keys engines) (m.id ∷ []) x,
  contains-append (keys models) (keys (entries_of port m)) x,
  keys-append engines ((m.id, engine_record m port) ∷ []),
  keys-append models (entries_of port m),
)

-- What the loop over the models builds, while its ports last: the dictionaries in order. `engines`
-- has no key that `models` lacks.
pub add_models_new :
    (port : ℕ) (ms : List ModelConfig) (engines : Dict Text EngineRecord)
    (models : Dict Text ModelRecord)
    → ((x : Text) → contains (keys models) x ≡ false → contains (keys engines) x ≡ false)
    → AreNew (keys models) (all_ids ms)
    → port + length ms ≤ 65536
    → add_models port ms engines models
      ≡ ok (engines ++ engine_entries port ms, models ++ model_entries port ms)
unfolding add_models engine_entries model_entries all_ids
add_models_new port [] engines models sub new fits = rw (append-nil engines, append-nil models) refl
add_models_new port (m ∷ rest) engines models sub new fits =
    let (mine, theirs) = (AreNew-append (keys models) (model_ids m) (all_ids rest)).0 new in
    let room : ltb 65535 port ≡ false = ground arith in
    rw
      (
        room,
        insert_new m.id (engine_record m port) engines (sub m.id mine.0),
        add_model_new models port m mine,
      )
      (add_models_new (port + 1) rest (engines ++ (m.id, engine_record m port) ∷ [])
          (models ++ entries_of port m) (λ x. contains-after engines models port m x (sub x))
          (rw (keys-append models (entries_of port m), keys-entries_of port m) theirs) (omega arith)
        ∙ ap₂ (λ a b. ok (a, b))
            (append_assoc engines ((m.id, engine_record m port) ∷ [])
              (engine_entries (port + 1) rest))
            (append_assoc models (entries_of port m) (model_entries (port + 1) rest)))
