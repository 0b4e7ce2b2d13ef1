-- ===== src/Registry.antt =====
-- registry.py: the engines and the selectable models of a configuration.
pub mod Entries
pub mod Ports
pub mod Routing
use yeetllm.Common.{
  ℕ, ◌+◌, Bool, true, false, Option, none, some, List, [], ◌∷◌, ◌++◌, ltb, ◌==◌, nat_eq, text_eq,
  Result, ok, err, ◌>>=◌, ◌>>◌, raise_if, if◌then◌else◌,
}
use yeetllm.Common.Dict.{Dict, lookup, insert, values}
use yeetllm.Common.Text.{Text, codes}
use yeetllm.Common.Text.Decimal.{decimal}
use yeetllm.Config.Types.{LoraAdapterConfig, ModelConfig, YeetConfig, adapter_ids}

pub record ModelRecord : Type 0 where
  pub id : Text
  pub engine_id : Text
  pub backend_url : Text
  pub kind : Text
  pub parent : Option Text

pub record EngineRecord : Type 0 where
  pub id : Text
  pub backend_url : Text
  pub port : ℕ
  pub model_ids : List Text
  pub required : Bool

pub record Registry : Type 0 where
  pub engines : Dict Text EngineRecord
  pub models : Dict Text ModelRecord
  pub created : ℕ

-- The `ValueError`s, by message.
pub data PortError : Type 0 where
  port_range_exceeded : PortError
  port_conflict : ℕ → Text → Text → PortError
  router_is_sshd : ℕ → PortError

-- f"http://127.0.0.1:{port}"
unfoldable pub backend_of : ℕ → Text
backend_of port = codes "http://127.0.0.1:" ++ decimal port

abbrev pub engine_record : ModelConfig → ℕ → EngineRecord
engine_record model port = record {
  id = model.id;
  backend_url = backend_of port;
  port = port;
  model_ids = model.id ∷ adapter_ids model.lora.adapters;
  required = true;
}

abbrev pub base_record : ModelConfig → ℕ → ModelRecord
base_record model port = record {
  id = model.id;
  engine_id = model.id;
  backend_url = backend_of port;
  kind = codes "base";
  parent = none;
}

abbrev pub lora_record : Text → Text → Text → ModelRecord
lora_record adapter_id model_id backend = record {
  id = adapter_id;
  engine_id = model_id;
  backend_url = backend;
  kind = codes "lora";
  parent = some model_id;
}

-- `for adapter in model.lora.adapters`
unfoldable pub add_adapters :
    Dict Text ModelRecord → Text → Text → List LoraAdapterConfig → Dict Text ModelRecord
add_adapters models model_id backend [] = models
add_adapters models model_id backend (a ∷ rest) =
    add_adapters (insert a.id (lora_record a.id model_id backend) models) model_id backend rest

-- `for index, model in enumerate(config.models)`; `port` is `first_port + index`
unfoldable pub add_models :
    ℕ
    → List ModelConfig
    → Dict Text EngineRecord
    → Dict Text ModelRecord
    → Result PortError (Dict Text EngineRecord × Dict Text ModelRecord)
unfolding add_adapters
add_models port [] engines models = ok (engines, models)
add_models port (model ∷ rest) engines models = do
  raise_if (ltb 65535 port) port_range_exceeded
  add_models (port + 1) rest (insert model.id (engine_record model port) engines) (
      add_adapters (insert model.id (base_record model port) models) model.id (backend_of port)
        model.lora.adapters)

-- one round of `for engine in engines.values()`, and the loop
unfoldable pub claim_port : Dict ℕ Text → EngineRecord → Result PortError (Dict ℕ Text)
claim_port claimed engine = elim (lookup engine.port claimed) [
  | some previous ↦ err (port_conflict engine.port previous engine.id)
  | none ↦ ok (insert engine.port (codes "engine " ++ engine.id) claimed)
]

unfoldable pub claim_ports : Dict ℕ Text → List EngineRecord → Result PortError (Dict ℕ Text)
unfolding claim_port
claim_ports claimed [] = ok claimed
claim_ports claimed (engine ∷ rest) = do
  claimed' ← claim_port claimed engine
  claim_ports claimed' rest

-- the ports of the engines against those of the router and of sshd, and these against each other
unfoldable pub check_ports : YeetConfig → List EngineRecord → Result PortError (Unit {0})
unfolding claim_ports
check_ports config engines = do
  claim_ports (insert config.ssh.port (codes "sshd") ((config.server.port, codes "router") ∷ []))
      engines
  raise_if (config.server.port == config.ssh.port) (router_is_sshd config.server.port)

-- `now` is `int(time.time())`
unfoldable pub build_registry : YeetConfig → ℕ → ℕ → Result PortError Registry
unfolding add_models check_ports
build_registry config first_port now = do
  (engines, models) ← add_models first_port config.models [] []
  check_ports config (values engines)
  ok (record { engines = engines; models = models; created = now })
