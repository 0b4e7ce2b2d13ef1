-- ===== src/Tests/Configs.antt =====
-- A configuration with two models, one with an adapter, and runs of its validators.
use mathlib.Core.List.Memᴰ.{head}
use yeetllm.Common.{
  ℕ, ◌≡◌, ◌≢◌, ◌↔◌, refl, true, false, none, some, inl, inr, List, [], ◌∷◌, ◌++◌, ok, IsDistinct,
  text_eq, text_beq, contains, mem_of_contains,
}
use yeetllm.Common.Int.{pos}
use yeetllm.Common.Text.{Text, codes, starts_with, replace_code}
use yeetllm.Config.Types.{
  LoraAdapterConfig, LoraConfig, ModelConfig, YeetConfig, ClusterMode, SshEnable, adapter_ids,
  Error,
}
use yeetllm.Common.{Option, Result, All, keep}
use yeetllm.Common.Int.{ℤ}
use yeetllm.Common.Dict.{lookup}
use yeetllm.Config.Runtime.{validate_runtime}
use yeetllm.Config.Runtime.Ranks.{FitsHost, RankFits, validate_runtime-FitsHost}
use yeetllm.Cluster.Detection.{single_node}
use yeetllm.Commands.{hidden_names, joined, engine_env}
use yeetllm.Commands.Isolation.{engine_env-isolated}
use yeetllm.Config.Global.{validate_global_ids_and_gpus}
use yeetllm.Config.ExtraArgs.{blocked_extra_args, validate_extra_args}
use yeetllm.Config.ExtraArgs.Spellings.{controlled_option_refused}
use yeetllm.Config.Ownership.{all_ids, all_gpus, GpusDistinct, validate_global_iff}

abbrev pub adapter : LoraAdapterConfig
adapter = record { id = codes "c"; model = codes "/adapters/c"; revision = none }

abbrev pub lora_with : List LoraAdapterConfig → LoraConfig
lora_with adapters = record {
  enabled = true;
  max_loras = 2;
  max_lora_rank = 16;
  max_cpu_loras = 2;
  fully_sharded_loras = false;
  adapters = adapters;
}

abbrev pub model_of : Text → ℕ → List LoraAdapterConfig → ModelConfig
model_of id gpu adapters = record {
  id = id;
  model = codes "org/model";
  revision = none;
  tokenizer = none;
  trust_remote_code = false;
  gpus = pos gpu ∷ [];
  tensor_parallel_size = 1;
  pipeline_parallel_size = 1;
  distributed_executor_backend = codes "auto";
  dtype = codes "auto";
  quantization = codes "auto";
  max_model_len = none;
  gpu_memory_utilization = codes "0.9";
  kv_cache_dtype = codes "auto";
  environment = [];
  extra_args = [];
  lora = lora_with adapters;
}

abbrev pub model_a : ModelConfig
model_a = model_of (codes "a") 0 []

abbrev pub model_b : ModelConfig
model_b = model_of (codes "b") 1 (adapter ∷ [])

abbrev pub two_models : YeetConfig
two_models = record {
  server = record { host = codes "127.0.0.1"; port = 8000 };
  parallelism = 1;
  allow_shared_gpus = false;
  cluster = record {
    mode = ClusterMode.auto;
    nccl_socket_ifname = codes "ens1";
    control_port = none;
    rendezvous_port_base = none;
    startup_timeout = 1800;
  };
  models = model_a ∷ model_b ∷ [];
  ssh = record { enable = SshEnable.detect; port = 22 };
}

pub two_models-IsDistinct : IsDistinct (all_ids two_models.models)
unfolding contains text_beq adapter_ids all_ids
two_models-IsDistinct = (refl, (refl, (refl, tt)))

pub two_models-some : two_models.models ≢ []
two_models-some = λ e. cc e

validate_global_iff_example : (validate_global_ids_and_gpus two_models ≡ ok two_models) ↔ (
    (two_models.models ≢ [])
    × IsDistinct (all_ids two_models.models)
    × GpusDistinct two_models.allow_shared_gpus (all_gpus two_models.models))
validate_global_iff_example = validate_global_iff two_models

-- `--max_model_len=4096` is refused.
tp_root :
    starts_with (codes "--max-model-len") (replace_code b'_' b'-' (codes "--max_model")) ≡ true
unfolding starts_with replace_code
tp_root = refl

listed : contains blocked_extra_args (codes "--max-model-len") ≡ true
unfolding contains text_beq
listed = refl

controlled_option_refused_example :
    validate_extra_args ((codes "--max_model" ++ codes "=4096") ∷ []) ≢ ok tt
unfolding starts_with
controlled_option_refused_example =
    controlled_option_refused (codes "--max-model-len") (codes "--max_model") (codes "=4096")
      ((codes "--max_model" ++ codes "=4096") ∷ [])
      (mem_of_contains blocked_extra_args (codes "--max-model-len") listed) tp_root refl
      (inr (inl (codes "4096", refl))) (head refl)

abbrev pub no_rank : LoraAdapterConfig → Result Error (Option ℤ)
no_rank a = ok (some (pos 8))

passes : validate_runtime no_rank 2 1 none two_models ≡ ok []
unfolding validate_runtime keep text_beq
passes = refl

validate_runtime-FitsHost_example :
    All (λ m. FitsHost 2 1 m × All (RankFits no_rank m) m.lora.adapters) two_models.models
validate_runtime-FitsHost_example = validate_runtime-FitsHost no_rank 2 1 none two_models [] passes

key_hidden : contains hidden_names (codes "PUBLIC_KEY") ≡ true
unfolding contains text_beq
key_hidden = refl

engine_env-isolated_example :
    (lookup
        (codes "PUBLIC_KEY")
        (engine_env ((codes "PUBLIC_KEY", codes "x") ∷ []) model_b single_node)
      ≡ none)
    × (lookup
          (codes "CUDA_VISIBLE_DEVICES")
          (engine_env ((codes "PUBLIC_KEY", codes "x") ∷ []) model_b single_node)
        ≡ some (joined model_b.gpus))
engine_env-isolated_example =
    engine_env-isolated ((codes "PUBLIC_KEY", codes "x") ∷ []) model_b single_node
      (codes "PUBLIC_KEY") key_hidden
