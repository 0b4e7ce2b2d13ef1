-- ===== src/Commands.antt =====
-- commands.py: the command line and the environment of an engine.
pub mod Isolation
use yeetllm.Common.{
  ℕ, suc, ◌+◌, Bool, true, false, not, Option, none, some, List, [], ◌∷◌, ◌++◌, ◌==◌, text_eq,
  if◌then◌else◌,
}
use yeetllm.Common.Int.{ℤ, pos, negsuc}
use yeetllm.Common.Dict.{Dict, lookup, insert, remove, is_some}
use yeetllm.Common.Text.{Text, codes}
use yeetllm.Common.Text.Decimal.{decimal}
use yeetllm.Common.Json.{Fields, field, end, str}
use yeetllm.Config.Types.{ModelConfig, LoraConfig, LoraAdapterConfig}
use yeetllm.Cluster.Detection.{ClusterInfo, cluster_environment, is_primary}

pub record EngineLaunch : Type 0 where
  pub argv : List Text
  pub env : Dict Text Text

abbrev pub download_dir : Text
download_dir = codes "/workspace/yeetllm/cache/huggingface/hub"

abbrev pub vllm_cache : Text
vllm_cache = codes "/workspace/yeetllm/cache/vllm"

abbrev pub triton_cache : Text
triton_cache = vllm_cache ++ codes "/triton-v0.27.0"

abbrev pub inductor_cache : Text
inductor_cache = vllm_cache ++ codes "/torchinductor-v0.27.0"

-- `append_option` with a value that may be missing
abbrev pub option : Text → Option Text → List Text
option name none = []
option name (some value) = name ∷ value ∷ []

-- `if value != "auto"`
abbrev pub unless_auto : Text → Text → List Text
unless_auto name value = if value == codes "auto" then [] else name ∷ value ∷ []

abbrev pub length_option : Option ℕ → List Text
length_option none = []
length_option (some n) = codes "--max-model-len" ∷ decimal n ∷ []

-- `str(index)`
abbrev pub shown : ℤ → Text
shown (pos n) = decimal n
shown (negsuc n) = codes "-" ++ decimal (suc n)

unfoldable pub joined : List ℤ → Text
joined [] = []
joined (i ∷ []) = shown i
joined (i ∷ j ∷ is) = shown i ++ codes "," ++ joined (j ∷ is)

abbrev pub path_or : Option Text → Text → Text
path_or none d = d
path_or (some p) d = p

-- `path_of` is `str(Path(...))` and `dumps` is `json.dumps` with compact separators
module _ (path_of : Text → Text) (dumps : Fields → Text) where
  unfoldable pub lora_modules : Dict Text Text → Text → List LoraAdapterConfig → List Text
  unfolding lookup
  lora_modules paths base [] = []
  lora_modules paths base (a ∷ adapters) =
      dumps (
        field (codes "name") (str a.id) (
          field (codes "path") (str (path_or (lookup a.id paths) (path_of a.model)))
            (field (codes "base_model_name") (str base) end)))
      ∷ lora_modules paths base adapters

  abbrev pub adapter_args : Dict Text Text → Text → List LoraAdapterConfig → List Text
  adapter_args paths base [] = []
  adapter_args paths base (a ∷ adapters) =
      codes "--lora-modules" ∷ lora_modules paths base (a ∷ adapters)

  abbrev pub lora_args : Dict Text Text → Text → LoraConfig → List Text
  lora_args paths base lora =
      if not lora.enabled
      then []
      else codes "--enable-lora"
          ∷ codes "--max-loras"
          ∷ decimal lora.max_loras
          ∷ codes "--max-lora-rank"
          ∷ decimal lora.max_lora_rank
          ∷ codes "--max-cpu-loras"
          ∷ decimal lora.max_cpu_loras
          ∷ (if lora.fully_sharded_loras then codes "--fully-sharded-loras" ∷ [] else [])
        ++ adapter_args paths base lora.adapters

  abbrev pub cluster_args : ClusterInfo → ℕ → List Text
  cluster_args cluster model_index =
      if not cluster.enabled
      then []
      else codes "--distributed-executor-backend"
        ∷ codes "mp"
        ∷ codes "--nnodes"
        ∷ decimal cluster.node_count
        ∷ codes "--node-rank"
        ∷ decimal cluster.node_rank
        ∷ codes "--master-addr"
        ∷ cluster.primary_addr
        ∷ codes "--master-port"
        ∷ decimal (cluster.rendezvous_port_base + model_index)
        ∷ (if is_primary cluster then [] else codes "--headless" ∷ [])

  unfoldable pub engine_argv : ModelConfig → ℕ → ClusterInfo → ℕ → Dict Text Text → List Text
  unfolding lora_modules
  engine_argv model port cluster model_index paths =
      (codes "vllm"
        ∷ codes "serve"
        ∷ model.model
        ∷ codes "--host"
        ∷ codes "127.0.0.1"
        ∷ codes "--port"
        ∷ decimal port
        ∷ codes "--served-model-name"
        ∷ model.id
        ∷ codes "--download-dir"
        ∷ download_dir
        ∷ codes "--tensor-parallel-size"
        ∷ decimal model.tensor_parallel_size
        ∷ codes "--pipeline-parallel-size"
        ∷ decimal model.pipeline_parallel_size
        ∷ codes "--gpu-memory-utilization"
        ∷ model.gpu_memory_utilization
        ∷ [])
      ++ (option (codes "--revision") model.revision
          ++ (option (codes "--tokenizer") model.tokenizer
              ++ ((if model.trust_remote_code then codes "--trust-remote-code" ∷ [] else [])
                  ++ ((if cluster.enabled
                        then []
                        else unless_auto (codes "--distributed-executor-backend")
                            model.distributed_executor_backend)
                      ++ (unless_auto (codes "--dtype") model.dtype
                          ++ (unless_auto (codes "--quantization") model.quantization
                              ++ (length_option model.max_model_len
                                  ++ (unless_auto (codes "--kv-cache-dtype") model.kv_cache_dtype
                                      ++ (lora_args paths model.id model.lora
                                          ++ (cluster_args cluster model_index
                                              ++ model.extra_args))))))))))

-- `d.update(e)`
unfoldable pub update : Dict Text Text → Dict Text Text → Dict Text Text
update [] d = d
update ((k, v) ∷ e) d = update e (insert k v d)

-- `env.pop(name, None)` for each of the names
unfoldable pub remove_all : List Text → Dict Text Text → Dict Text Text
remove_all [] d = d
remove_all (name ∷ names) d = remove_all names (remove name d)

abbrev pub hidden_names : List Text
hidden_names =
    codes "VLLM_ALLOW_RUNTIME_LORA_UPDATING"
    ∷ codes "YEETLLM_CONFIG_URL"
    ∷ codes "YEETLLM_CONFIG_SHA256"
    ∷ codes "YEETLLM_SSH_AUTHORIZED_KEYS"
    ∷ codes "SSH_PUBLIC_KEY"
    ∷ codes "PUBLIC_KEY"
    ∷ []

abbrev pub cache_paths : Dict Text Text
cache_paths =
    (codes "HF_HOME", codes "/workspace/yeetllm/cache/huggingface")
    ∷ (codes "HUGGINGFACE_HUB_CACHE", download_dir)
    ∷ (codes "VLLM_CACHE_ROOT", vllm_cache)
    ∷ (codes "TRITON_CACHE_DIR", triton_cache)
    ∷ (codes "TORCHINDUCTOR_CACHE_DIR", inductor_cache)
    ∷ []

-- `d.setdefault(k, v)`
abbrev pub set_default : Text → Text → Dict Text Text → Dict Text Text
set_default k v d = if is_some (lookup k d) then d else insert k v d

-- `environ` is `os.environ`
unfoldable pub engine_env : Dict Text Text → ModelConfig → ClusterInfo → Dict Text Text
unfolding update remove_all cluster_environment
engine_env environ model cluster = set_default (codes "PYTHONUNBUFFERED") (codes "1") (
    update cache_paths (
      remove_all hidden_names (
        insert (codes "CUDA_VISIBLE_DEVICES") (joined model.gpus)
          (update (cluster_environment cluster) (update model.environment environ)))))

unfoldable pub build_engine_launch :
    (Text → Text)
    → (Fields → Text)
    → Dict Text Text
    → ModelConfig
    → ℕ
    → ClusterInfo
    → ℕ
    → Dict Text Text
    → EngineLaunch
unfolding engine_argv engine_env
build_engine_launch path_of dumps environ model port cluster model_index paths = record {
  argv = engine_argv path_of dumps model port cluster model_index paths;
  env = engine_env environ model cluster;
}
