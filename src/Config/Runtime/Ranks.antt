-- ===== src/Config/Runtime/Ranks.antt =====
-- What `validate_runtime` has checked of each model that it lets pass.
use yeetllm.Common.{
  ℕ, ◌*◌, ◌≤◌, ◌≡◌, arith, Option, some, List, [], ◌∷◌, nat_eq, eq_iff, text_eq, keep, length, ltb,
  Result, ok, ◌>>◌, >>=-eq-ok, >>-eq-ok, false, All, Bool-cases, inl, inr,
}
use yeetllm.Common.Int.{ℤ, pos, ge_count}
use yeetllm.Common.Text.{Text}
use yeetllm.Config.Types.{LoraAdapterConfig, ModelConfig, YeetConfig, Error}
use yeetllm.Config.Runtime.{
  Warning, has_items, check_gpus, check_world, check_quantization, check_rank, check_ranks,
  check_model, check_all, validate_runtime, actual_world,
}

-- Each GPU of the model is on the node, and its parallel sizes use them all on every node.
abbrev pub FitsHost : ℕ → ℕ → ModelConfig → Type 0
FitsHost gpu_count node_count model =
    All (λ gpu. ge_count gpu gpu_count ≡ false) model.gpus
    × (model.tensor_parallel_size * model.pipeline_parallel_size ≡ length model.gpus * node_count)

none_kept :
    (gpu_count : ℕ) (gpus : List ℤ)
    → has_items (keep (λ gpu. ge_count gpu gpu_count) gpus) ≡ false
    → All (λ gpu. ge_count gpu gpu_count ≡ false) gpus
unfolding keep
none_kept gpu_count [] h = tt
none_kept gpu_count (gpu ∷ gpus) h = ground (arith, none_kept gpu_count gpus)

check_gpus-ok :
    (gpu_count : ℕ) (model : ModelConfig)
    → check_gpus gpu_count model ≡ ok tt
    → All (λ gpu. ge_count gpu gpu_count ≡ false) model.gpus
unfolding check_gpus
check_gpus-ok gpu_count model h = none_kept gpu_count model.gpus (ground arith)

check_world-ok :
    (node_count : ℕ) (model : ModelConfig)
    → check_world node_count model ≡ ok tt
    → actual_world model ≡ length model.gpus * node_count
check_world-ok node_count model h =
    (eq_iff (actual_world model) (length model.gpus * node_count)).0 (ground arith)

check_rank-le :
    (model : ModelConfig) (a : LoraAdapterConfig) (n : ℕ) (w : List Warning)
    → check_rank model a (some (pos n)) ≡ ok w
    → n ≤ model.lora.max_lora_rank
check_rank-le model a n w h = elim (Bool-cases (ltb model.lora.max_lora_rank n)) [
  | inl over ↦ absurd (let e = rw over at h in cc e)
  | inr under ↦ ground arith
]

module _ (resolve : LoraAdapterConfig → Result Error (Option ℤ)) where
  -- A rank that can be read is at most the model's maximum.
  abbrev pub RankFits : ModelConfig → LoraAdapterConfig → Type 0
  RankFits model adapter =
      (rank : ℕ) → resolve adapter ≡ ok (some (pos rank)) → rank ≤ model.lora.max_lora_rank

  check_ranks-ok :
      (model : ModelConfig) (adapters : List LoraAdapterConfig) (ws : List Warning)
      → check_ranks resolve model adapters ≡ ok ws
      → All (RankFits model) adapters
  unfolding check_ranks
  check_ranks-ok model [] ws h = tt
  check_ranks-ok model (a ∷ rest) ws h =
      let (rank, read, h1) = >>=-eq-ok (resolve a) _ h in
      let (w, checked, h2) = >>=-eq-ok (check_rank model a rank) _ h1 in
      let (more, others, h3) = >>=-eq-ok (check_ranks resolve model rest) _ h2 in
      let here : RankFits model a = λ n e.
        let same : rank ≡ some (pos n) = cc (read, e) in
        check_rank-le model a n w (rw same at checked) in
      (here, check_ranks-ok model rest more others)

  check_model-ok :
      (gpu_count node_count : ℕ) (methods : Option (List Text)) (model : ModelConfig)
      (ws : List Warning)
      → check_model resolve gpu_count node_count methods model ≡ ok ws
      → FitsHost gpu_count node_count model × All (RankFits model) model.lora.adapters
  unfolding check_model
  check_model-ok gpu_count node_count methods model ws h =
      let ranks = check_ranks resolve model model.lora.adapters in
      let (gpus, h1) =
        >>-eq-ok (check_gpus gpu_count model)
          (check_world node_count model >> (check_quantization methods model >> ranks)) h in
      let (world, h2) =
        >>-eq-ok (check_world node_count model) (check_quantization methods model >> ranks) h1 in
      let (known, h3) = >>-eq-ok (check_quantization methods model) ranks h2 in
      (
        (check_gpus-ok gpu_count model gpus.1, check_world-ok node_count model world.1),
        check_ranks-ok model model.lora.adapters ws h3,
      )

  check_all-ok :
      (gpu_count node_count : ℕ) (methods : Option (List Text)) (models : List ModelConfig)
      (ws : List Warning)
      → check_all resolve gpu_count node_count methods models ≡ ok ws
      → All (λ m. FitsHost gpu_count node_count m × All (RankFits m) m.lora.adapters) models
  unfolding check_all
  check_all-ok gpu_count node_count methods [] ws h = tt
  check_all-ok gpu_count node_count methods (m ∷ rest) ws h =
      let (w, here, h1) = >>=-eq-ok (check_model resolve gpu_count node_count methods m) _ h in
      let (more, later, h2) =
        >>=-eq-ok (check_all resolve gpu_count node_count methods rest) _ h1 in
      (
        check_model-ok gpu_count node_count methods m w here,
        check_all-ok gpu_count node_count methods rest more later,
      )

  -- A configuration that passes with some warnings fits the host: every GPU of every model exists,
  -- the product of the parallel sizes is the number of its GPUs on all nodes, and no adapter whose
  -- rank can be read has a rank above the model's maximum.
  pub validate_runtime-FitsHost :
      (gpu_count node_count : ℕ) (methods : Option (List Text)) (config : YeetConfig)
      (ws : List Warning)
      → validate_runtime resolve gpu_count node_count methods config ≡ ok ws
      → All (λ m. FitsHost gpu_count node_count m × All (RankFits m) m.lora.adapters) config.models
  unfolding validate_runtime
  validate_runtime-FitsHost gpu_count node_count methods config ws h =
      let (w, checked, h1) =
        >>=-eq-ok (check_all resolve gpu_count node_count methods config.models) _ h in
      check_all-ok gpu_count node_count methods config.models w checked
