-- ===== src/Config/Runtime.antt =====
-- `validate_runtime` of config.py: a configuration against the host that is to run it.
pub mod Ranks
use yeetllm.Common.{
  ℕ, ◌*◌, Bool, not, ◌&&◌, Option, none, some, List, [], ◌∷◌, ◌++◌, ◌==◌, nat_eq, text_eq, contains,
  keep, length, ltb, Result, ok, err, ◌>>=◌, ◌>>◌, raise_if, if◌then◌else◌, true, false,
}
use yeetllm.Common.Int.{ℤ, pos, negsuc, ge_count}
use yeetllm.Common.Text.{Text, codes}
use yeetllm.Config.Types.{
  LoraAdapterConfig, LoraConfig, ModelConfig, YeetConfig, Error, nonexistent_gpus, world_mismatch,
  unknown_quantization, rank_exceeds,
}

pub data Warning : Type 0 where
  rank_unchecked : Text → Text → Warning
  gpus_shared : Warning

abbrev pub has_items : List ℤ → Bool
has_items [] = false
has_items (i ∷ is) = true

-- the GPUs that the node does not have
unfoldable pub check_gpus : ℕ → ModelConfig → Result Error (Unit {0})
unfolding keep
check_gpus gpu_count model =
    raise_if (has_items (keep (λ gpu. ge_count gpu gpu_count) model.gpus))
      (nonexistent_gpus model.id (keep (λ gpu. ge_count gpu gpu_count) model.gpus) gpu_count)

abbrev pub actual_world : ModelConfig → ℕ
actual_world model = model.tensor_parallel_size * model.pipeline_parallel_size

abbrev pub check_world : ℕ → ModelConfig → Result Error (Unit {0})
check_world node_count model =
    raise_if (not (actual_world model == length model.gpus * node_count))
      (world_mismatch model.id (actual_world model) (length model.gpus * node_count))

abbrev pub known_method : Option (List Text) → Text → Bool
known_method none method = true
known_method (some methods) method = contains methods method

abbrev pub check_quantization : Option (List Text) → ModelConfig → Result Error (Unit {0})
check_quantization methods model =
    raise_if
      (not (model.quantization == codes "auto") && not (known_method methods model.quantization))
      (unknown_quantization model.id model.quantization)

abbrev pub exceeds_rank : ℤ → ℕ → Bool
exceeds_rank (pos rank) maximum = ltb maximum rank
exceeds_rank (negsuc n) maximum = false

-- the rank of one adapter: a warning if it is not known
abbrev pub check_rank : ModelConfig → LoraAdapterConfig → Option ℤ → Result Error (List Warning)
check_rank model adapter none = ok (rank_unchecked model.id adapter.id ∷ [])
check_rank model adapter (some rank) =
    if exceeds_rank rank model.lora.max_lora_rank
    then err (rank_exceeds adapter.id rank model.lora.max_lora_rank)
    else ok []

-- `resolve` is `rank_resolver`; it reads the adapter's files, and may raise
module _ (resolve : LoraAdapterConfig → Result Error (Option ℤ)) where
  unfoldable pub check_ranks : ModelConfig → List LoraAdapterConfig → Result Error (List Warning)
  check_ranks model [] = ok []
  check_ranks model (adapter ∷ rest) = resolve adapter >>= λ rank.
      check_rank model adapter rank >>= λ warnings.
      check_ranks model rest >>= λ more. ok (warnings ++ more)

  unfoldable pub check_model :
      ℕ → ℕ → Option (List Text) → ModelConfig → Result Error (List Warning)
  unfolding check_gpus check_ranks
  check_model gpu_count node_count methods model =
      check_gpus gpu_count model
      >> (check_world node_count model
          >> (check_quantization methods model >> check_ranks model model.lora.adapters))

  unfoldable pub check_all :
      ℕ → ℕ → Option (List Text) → List ModelConfig → Result Error (List Warning)
  unfolding check_model
  check_all gpu_count node_count methods [] = ok []
  check_all gpu_count node_count methods (model ∷ rest) =
      check_model gpu_count node_count methods model >>= λ warnings.
      check_all gpu_count node_count methods rest >>= λ more. ok (warnings ++ more)

  -- with a `rank_resolver`; `methods` is `quantization_methods`
  unfoldable pub validate_runtime :
      ℕ → ℕ → Option (List Text) → YeetConfig → Result Error (List Warning)
  unfolding check_all
  validate_runtime gpu_count node_count methods config =
      check_all gpu_count node_count methods config.models >>= λ warnings.
      ok (warnings ++ (if config.allow_shared_gpus then gpus_shared ∷ [] else []))
