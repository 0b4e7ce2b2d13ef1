-- ===== src/Config/ExtraArgs.antt =====
-- `ModelConfig.validate_extra_args`: which engine arguments a configuration may add.
pub mod Spellings
use yeetllm.Common.{
  ◌≡◌, Bool, true, false, not, ◌&&◌, ◌||◌, List, [], ◌∷◌, any, contains, text_eq, nat_eq, keep,
  Result, ok, err, ◌>>=◌, ◌>>◌, raise_if, if◌then◌else◌,
}
use yeetllm.Common.Text.{
  Text, codes, is_empty, starts_with, before, replace_code, rstrip_code, rstrip_by,
}
use yeetllm.Config.Types.{Error, empty_extra_arg, controlled_extra_arg}

abbrev pub blocked_extra_args : List Text
blocked_extra_args =
    codes "-n"
    ∷ codes "-dp"
    ∷ codes "-pp"
    ∷ codes "-r"
    ∷ codes "-tp"
    ∷ codes "-asc"
    ∷ codes "--api-server-count"
    ∷ codes "--data-parallel-address"
    ∷ codes "--data-parallel-backend"
    ∷ codes "--data-parallel-hybrid-lb"
    ∷ codes "--data-parallel-rank"
    ∷ codes "--data-parallel-rpc-port"
    ∷ codes "--data-parallel-size"
    ∷ codes "--data-parallel-size-local"
    ∷ codes "--data-parallel-start-rank"
    ∷ codes "--device-ids"
    ∷ codes "--download-dir"
    ∷ codes "--distributed-executor-backend"
    ∷ codes "--dtype"
    ∷ codes "--enable-lora"
    ∷ codes "--enable-sleep-mode"
    ∷ codes "--fully-sharded-loras"
    ∷ codes "--headless"
    ∷ codes "--hf-token"
    ∷ codes "--host"
    ∷ codes "--gpu-memory-utilization"
    ∷ codes "--kv-cache-dtype"
    ∷ codes "--lora-modules"
    ∷ codes "--master-addr"
    ∷ codes "--master-port"
    ∷ codes "--max-cpu-loras"
    ∷ codes "--max-lora-rank"
    ∷ codes "--max-loras"
    ∷ codes "--max-model-len"
    ∷ codes "--model"
    ∷ codes "--nnodes"
    ∷ codes "--node-rank"
    ∷ codes "--pipeline-parallel-size"
    ∷ codes "--port"
    ∷ codes "--quantization"
    ∷ codes "--revision"
    ∷ codes "--root-path"
    ∷ codes "--served-model-name"
    ∷ codes "--ssl-ca-certs"
    ∷ codes "--ssl-certfile"
    ∷ codes "--ssl-keyfile"
    ∷ codes "--tensor-parallel-size"
    ∷ codes "--tokenizer"
    ∷ codes "--trust-remote-code"
    ∷ codes "--uds"
    ∷ codes "--api-key"
    ∷ codes "--config"
    ∷ codes "--grpc"
    ∷ codes "--no-enable-lora"
    ∷ codes "--no-fully-sharded-loras"
    ∷ codes "--no-trust-remote-code"
    ∷ []

abbrev pub blocked_short_arg_prefixes : List Text
blocked_short_arg_prefixes =
    codes "-asc" ∷ codes "-dp" ∷ codes "-n" ∷ codes "-pp" ∷ codes "-r" ∷ codes "-tp" ∷ []

abbrev pub blocked_long_arg_prefixes : List Text
blocked_long_arg_prefixes =
    codes "--api-server-"
    ∷ codes "--config."
    ∷ codes "--config+"
    ∷ codes "--data-parallel-"
    ∷ codes "--device-"
    ∷ codes "--grpc-"
    ∷ codes "--master-"
    ∷ codes "--node-"
    ∷ codes "--pipeline-parallel-"
    ∷ codes "--served-model-"
    ∷ codes "--ssl-"
    ∷ codes "--tensor-parallel-"
    ∷ []

abbrev pub is_long : Text → Bool
is_long flag = starts_with flag (codes "--")

-- `flag.replace("_", "-") if flag.startswith("--") else flag`
unfoldable pub normalize : Text → Text
unfolding starts_with replace_code
normalize flag = if is_long flag then replace_code b'_' b'-' flag else flag

unfoldable pub option_root : Text → Text
unfolding before rstrip_by
option_root normalized = rstrip_code b'+' (before b'.' normalized)

unfoldable pub is_blocked_long : Text → Text → Bool
unfolding contains any starts_with keep
is_blocked_long root normalized =
    contains blocked_extra_args root
    || is_long root && any (λ c. starts_with c root) (keep is_long blocked_extra_args)
    || any (starts_with normalized) blocked_long_arg_prefixes

unfoldable pub is_blocked_short : Text → Bool
unfolding any starts_with
is_blocked_short root = any (starts_with root) blocked_short_arg_prefixes

-- one round of the loop
unfoldable pub validate_extra_arg : Text → Result Error (Unit {0})
unfolding contains before normalize option_root is_blocked_long is_blocked_short
validate_extra_arg value = do
  raise_if (is_empty value || contains value 0) empty_extra_arg
  let flag = before b'=' value
  let normalized = normalize flag
  let root = option_root normalized
  raise_if (is_blocked_long root normalized || is_blocked_short root) (controlled_extra_arg flag)

unfoldable pub validate_extra_args : List Text → Result Error (Unit {0})
unfolding validate_extra_arg
validate_extra_args [] = ok tt
validate_extra_args (value ∷ rest) = do validate_extra_arg value; validate_extra_args rest
