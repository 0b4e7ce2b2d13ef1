-- ===== src/Config/Fields.antt =====
-- The field validators of `LoRAAdapterConfig`, `LoRAConfig` and `ModelConfig`, and
-- `validate_model_id`. pydantic runs all of them and gathers their errors; here the first is kept.
use Prim.Native.Nat.{max}
use yeetllm.Common.{
  ℕ, Bool, false, not, ◌&&◌, ◌||◌, List, [], ◌∷◌, ltb, leb, ◌==◌, nat_eq, text_eq, any, all,
  contains, length, Result, ok, err, ◌>>◌, raise_if, to_set, if◌then◌else◌,
}
use yeetllm.Common.Int.{ℤ, int_eq, is_negative}
use yeetllm.Common.Text.{Text, codes, is_empty, strip, is_alnum, is_upper, is_digit, has_infix}
use yeetllm.Common.Dict.{Dict}
use yeetllm.Config.Types.{
  LoraAdapterConfig, LoraConfig, Error, bad_model_id, empty_model, no_gpus, negative_gpu,
  repeated_gpu, bad_environment_name, controlled_environment, environment_nul, unsupported_executor,
  lora_disabled, lora_capacity,
}

-- `[A-Za-z0-9._:/+-]`
abbrev pub is_id_code : ℕ → Bool
is_id_code c = is_alnum c || contains (codes "._:/+-") c

-- MODEL_ID_PATTERN.fullmatch
unfoldable pub matches_model_id : Text → Bool
unfolding all contains
matches_model_id [] = false
matches_model_id (c ∷ rest) = is_alnum c && all is_id_code rest && leb (length rest) 127

unfoldable pub validate_model_id : Text → Result Error Text
validate_model_id value = if matches_model_id value then ok value else err (bad_model_id value)

-- `validate_model` of the adapters and of the models
unfoldable pub validate_reference : Text → Result Error Text
validate_reference value = if is_empty (strip value) then err empty_model else ok value

unfoldable pub validate_adapter : LoraAdapterConfig → Result Error LoraAdapterConfig
validate_adapter a = do validate_model_id a.id; validate_reference a.model; ok a

unfoldable pub validate_gpu_list : List ℤ → Result Error (List ℤ)
unfolding any to_set
validate_gpu_list [] = err no_gpus
validate_gpu_list gpus = do
  raise_if (any is_negative gpus) negative_gpu
  raise_if (not (length gpus == length (to_set gpus))) repeated_gpu
  ok gpus

abbrev pub blocked_model_environment : List Text
blocked_model_environment =
    codes "CUDA_VISIBLE_DEVICES"
    ∷ codes "HF_HOME"
    ∷ codes "HUGGINGFACE_HUB_CACHE"
    ∷ codes "HOME"
    ∷ codes "NCCL_SOCKET_IFNAME"
    ∷ codes "PATH"
    ∷ codes "PYTHONPATH"
    ∷ codes "TORCHINDUCTOR_CACHE_DIR"
    ∷ codes "TRITON_CACHE_DIR"
    ∷ codes "USER"
    ∷ codes "VLLM_ALLOW_RUNTIME_LORA_UPDATING"
    ∷ codes "VLLM_CACHE_ROOT"
    ∷ codes "VLLM_HOST_IP"
    ∷ []

abbrev secret_markers : List Text
secret_markers = codes "KEY" ∷ codes "PASSWORD" ∷ codes "SECRET" ∷ codes "TOKEN" ∷ []

-- `[A-Z_]`
abbrev is_name_start : ℕ → Bool
is_name_start c = is_upper c || c == 95

-- MODEL_ENVIRONMENT_NAME_PATTERN.fullmatch
unfoldable pub matches_environment_name : Text → Bool
unfolding all
matches_environment_name [] = false
matches_environment_name (c ∷ rest) =
    is_name_start c && all (λ d. is_name_start d || is_digit d) rest

unfoldable pub is_controlled_name : Text → Bool
unfolding any contains has_infix
is_controlled_name name =
    contains blocked_model_environment name || any (has_infix name) secret_markers

unfoldable pub validate_environment : Dict Text Text → Result Error (Unit {0})
unfolding contains
validate_environment [] = ok tt
validate_environment ((name, value) ∷ rest) = do
  raise_if (not (matches_environment_name name)) (bad_environment_name name)
  raise_if (is_controlled_name name) (controlled_environment name)
  raise_if (contains value 0) (environment_nul name)
  validate_environment rest

unfoldable pub validate_executor_backend : Text → Result Error Text
unfolding contains
validate_executor_backend value =
    if contains (codes "auto" ∷ codes "mp" ∷ []) value then ok value else err unsupported_executor

-- `LoRAConfig.validate_capacity`, after its adapters were validated
unfoldable pub validate_adapters : List LoraAdapterConfig → Result Error (Unit {0})
unfolding validate_adapter
validate_adapters [] = ok tt
validate_adapters (a ∷ rest) = do validate_adapter a; validate_adapters rest

unfoldable pub validate_capacity : LoraConfig → Result Error LoraConfig
validate_capacity lora = do
  raise_if (ltb 0 (length lora.adapters) && not lora.enabled) lora_disabled
  raise_if (ltb lora.max_cpu_loras (max lora.max_loras (length lora.adapters))) lora_capacity
  ok lora
