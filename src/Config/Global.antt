-- ===== src/Config/Global.antt =====
-- `YeetConfig.validate_global_ids_and_gpus` and `register_unique_id`. The loop keeps two
-- dictionaries: who owns an identifier, and which model a GPU was assigned to last.
use yeetllm.Common.{
  Bool, not, none, some, List, [], ◌∷◌, ◌++◌, text_eq, Result, ok, err, ◌>>=◌, ◌>>◌, if◌then◌else◌,
}
use yeetllm.Common.Int.{ℤ, int_eq}
use yeetllm.Common.Dict.{Dict, lookup, insert}
use yeetllm.Common.Text.{Text, codes}
use yeetllm.Config.Types.{
  LoraAdapterConfig, ModelConfig, YeetConfig, Error, duplicate_id, shared_gpu, no_models,
}

unfoldable pub register_unique_id : Dict Text Text → Text → Text → Result Error (Dict Text Text)
register_unique_id owners identifier owner = elim (lookup identifier owners) [
  | some previous ↦ err (duplicate_id identifier previous owner)
  | none ↦ ok (insert identifier owner owners)
]

-- `for adapter in model.lora.adapters`
unfoldable pub register_adapters :
    Dict Text Text → Text → List LoraAdapterConfig → Result Error (Dict Text Text)
unfolding register_unique_id
register_adapters owners model_id [] = ok owners
register_adapters owners model_id (adapter ∷ rest) = do
  owners' ← register_unique_id owners adapter.id (codes "LoRA on " ++ model_id)
  register_adapters owners' model_id rest

-- one round of `for gpu in model.gpus`, and the loop
unfoldable pub claim_gpu : Bool → Dict ℤ Text → Text → ℤ → Result Error (Dict ℤ Text)
claim_gpu shared gpu_owners model_id gpu = elim (lookup gpu gpu_owners) [
  | none ↦ ok (insert gpu model_id gpu_owners)
  | some previous ↦
      if not shared
      then err (shared_gpu gpu previous model_id)
      else ok (insert gpu model_id gpu_owners)
]

unfoldable pub claim_gpus : Bool → Dict ℤ Text → Text → List ℤ → Result Error (Dict ℤ Text)
unfolding claim_gpu
claim_gpus shared gpu_owners model_id [] = ok gpu_owners
claim_gpus shared gpu_owners model_id (gpu ∷ rest) = do
  gpu_owners' ← claim_gpu shared gpu_owners model_id gpu
  claim_gpus shared gpu_owners' model_id rest

-- the identifiers of one model
unfoldable pub register_model : Dict Text Text → ModelConfig → Result Error (Dict Text Text)
unfolding register_unique_id register_adapters
register_model owners model = do
  owners' ← register_unique_id owners model.id (codes "base model " ++ model.id)
  register_adapters owners' model.id model.lora.adapters

-- `for model in self.models`
unfoldable pub check_models :
    Bool → Dict Text Text → Dict ℤ Text → List ModelConfig → Result Error (Unit {0})
unfolding register_model claim_gpus
check_models shared owners gpu_owners [] = ok tt
check_models shared owners gpu_owners (model ∷ rest) = do
  owners' ← register_model owners model
  gpu_owners' ← claim_gpus shared gpu_owners model.id model.gpus
  check_models shared owners' gpu_owners' rest

abbrev pub validate_models : Bool → List ModelConfig → Result Error (Unit {0})
validate_models shared [] = err no_models
validate_models shared (model ∷ rest) = check_models shared [] [] (model ∷ rest)

unfoldable pub validate_global_ids_and_gpus : YeetConfig → Result Error YeetConfig
unfolding check_models
validate_global_ids_and_gpus config = do
  validate_models config.allow_shared_gpus config.models
  ok config
