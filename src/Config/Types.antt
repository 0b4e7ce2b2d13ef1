-- ===== src/Config/Types.antt =====
-- The configuration models of config.py (`ServerConfig` to `YeetConfig`), after pydantic has
-- checked the declared types and bounds, and the errors that the validators raise. Fields that
-- pydantic bounds from below by 1 are natural numbers. The memory fraction is a float that the
-- program only prints, so it is kept as the text that `str` gives. Times are in clock ticks.
use yeetllm.Common.{ℕ, List, Option, Bool}
use yeetllm.Common.Int.{ℤ}
use yeetllm.Common.Text.{Text}
use yeetllm.Common.Dict.{Dict}

pub record ServerConfig : Type 0 where
  pub host : Text
  pub port : ℕ

pub data ClusterMode : Type 0 where
  auto off runpod : ClusterMode

pub record ClusterConfig : Type 0 where
  pub mode : ClusterMode
  pub nccl_socket_ifname : Text
  pub control_port : Option ℕ
  pub rendezvous_port_base : Option ℕ
  pub startup_timeout : ℕ

-- `Literal["auto"] | bool`
pub data SshEnable : Type 0 where
  detect : SshEnable
  always : Bool → SshEnable

pub record SshConfig : Type 0 where
  pub enable : SshEnable
  pub port : ℕ

pub record LoraAdapterConfig : Type 0 where
  pub id : Text
  pub model : Text
  pub revision : Option Text

pub record LoraConfig : Type 0 where
  pub enabled : Bool
  pub max_loras : ℕ
  pub max_lora_rank : ℕ
  pub max_cpu_loras : ℕ
  pub fully_sharded_loras : Bool
  pub adapters : List LoraAdapterConfig

pub record ModelConfig : Type 0 where
  pub id : Text
  pub model : Text
  pub revision : Option Text
  pub tokenizer : Option Text
  pub trust_remote_code : Bool
  pub gpus : List ℤ
  pub tensor_parallel_size : ℕ
  pub pipeline_parallel_size : ℕ
  pub distributed_executor_backend : Text
  pub dtype : Text
  pub quantization : Text
  pub max_model_len : Option ℕ
  pub gpu_memory_utilization : Text
  pub kv_cache_dtype : Text
  pub environment : Dict Text Text
  pub extra_args : List Text
  pub lora : LoraConfig

pub record YeetConfig : Type 0 where
  pub server : ServerConfig
  pub parallelism : ℕ
  pub allow_shared_gpus : Bool
  pub cluster : ClusterConfig
  pub models : List ModelConfig
  pub ssh : SshConfig

-- One constructor for each message of a `ValueError` or `RuntimeValidationError`.
pub data Error : Type 0 where
  bad_model_id : Text → Error
  empty_model : Error
  no_gpus negative_gpu repeated_gpu : Error
  bad_environment_name controlled_environment environment_nul : Text → Error
  empty_extra_arg : Error
  controlled_extra_arg : Text → Error
  unsupported_executor : Error
  lora_disabled lora_capacity : Error
  no_models : Error
  duplicate_id : Text → Text → Text → Error
  shared_gpu : ℤ → Text → Text → Error
  nonexistent_gpus : Text → List ℤ → ℕ → Error
  world_mismatch : Text → ℕ → ℕ → Error
  unknown_quantization : Text → Text → Error
  rank_exceeds : Text → ℤ → ℕ → Error

-- The identifiers that select a model: its own, and those of its adapters.
unfoldable pub adapter_ids : List LoraAdapterConfig → List Text
adapter_ids List.[] = List.[]
adapter_ids (List.◌∷◌ a rest) = List.◌∷◌ a.id (adapter_ids rest)
