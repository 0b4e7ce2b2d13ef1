-- ===== src/Commands/Isolation.antt =====
-- The environment of an engine: what is always hidden from it, and what a configuration cannot set.
use yeetllm.Common.{
  ◌≡◌, refl, ◌∙◌, arith, true, false, none, some, List, [], ◌∷◌, contains, ◌==◌, text_eq, text_beq,
  if◌then◌else◌, all, not, All-mem, all-true_iff, mem_of_contains, eq_refl,
}
use yeetllm.Common.Dict.{Dict, keys, lookup, insert, remove, lookup-insert, lookup-remove}
use yeetllm.Common.Text.{Text, codes}
use yeetllm.Config.Types.{ModelConfig}
use yeetllm.Cluster.Detection.{ClusterInfo, cluster_environment}
use yeetllm.Commands.{
  update, remove_all, hidden_names, cache_paths, set_default, joined, engine_env,
}

lookup-update_other :
    (k : Text) (e d : Dict Text Text)
    → contains (keys e) k ≡ false
    → lookup k (update e d) ≡ lookup k d
unfolding update contains
lookup-update_other k [] d h = refl
lookup-update_other k ((j, v) ∷ e) d h =
    ground (arith, lookup-update_other k e (insert j v d), lookup-insert j k v d)

lookup-remove_all :
    (k : Text) (names : List Text) (d : Dict Text Text)
    → lookup k (remove_all names d) ≡ (if contains names k then none else lookup k d)
unfolding remove_all contains
lookup-remove_all k [] d = refl
lookup-remove_all k (name ∷ names) d =
    ground (arith, lookup-remove_all k names (remove name d), lookup-remove name k d)

lookup-set_default :
    (k j v : Text) (d : Dict Text Text)
    → (j == k) ≡ false
    → lookup k (set_default j v d) ≡ lookup k d
lookup-set_default k j v d h = ground (arith, lookup-insert j k v d)

-- Names that the launch decides after the host's environment and the configuration's.
abbrev DecidedLate : Text → Type 0
DecidedLate k = (contains (keys cache_paths) k ≡ false) × ((codes "PYTHONUNBUFFERED" == k) ≡ false)

lookup-engine_env :
    (environ : Dict Text Text) (model : ModelConfig) (cluster : ClusterInfo) (k : Text)
    → DecidedLate k
    → lookup k (engine_env environ model cluster) ≡ (
        if contains hidden_names k
        then none
        else if codes "CUDA_VISIBLE_DEVICES" == k
        then some (joined model.gpus)
        else lookup k (update (cluster_environment cluster) (update model.environment environ)))
unfolding engine_env
lookup-engine_env environ model cluster k (cached, buffered) =
    let base = update (cluster_environment cluster) (update model.environment environ) in
    let pinned = insert (codes "CUDA_VISIBLE_DEVICES") (joined model.gpus) base in
    lookup-set_default k (codes "PYTHONUNBUFFERED") (codes "1")
      (update cache_paths (remove_all hidden_names pinned)) buffered
    ∙ lookup-update_other k cache_paths (remove_all hidden_names pinned) cached
    ∙ lookup-remove_all k hidden_names pinned
    ∙ ground (arith, lookup-insert (codes "CUDA_VISIBLE_DEVICES") k (joined model.gpus) base)

abbrev late_names : List Text
late_names = codes "PYTHONUNBUFFERED" ∷ keys cache_paths

hidden_early : all (λ name. not (contains late_names name)) hidden_names ≡ true
unfolding all contains text_beq
hidden_early = refl

late_of_early : (k : Text) → not (contains late_names k) ≡ true → DecidedLate k
unfolding contains
late_of_early k h = ground arith

late_of_hidden : (k : Text) → contains hidden_names k ≡ true → DecidedLate k
late_of_hidden k h = late_of_early k (
    All-mem (λ name. not (contains late_names name) ≡ true) hidden_names
      ((all-true_iff (λ name. not (contains late_names name)) hidden_names).0 hidden_early)
      (mem_of_contains hidden_names k h))

devices_early : not (contains late_names (codes "CUDA_VISIBLE_DEVICES")) ≡ true
unfolding contains text_beq
devices_early = refl

devices_shown : contains hidden_names (codes "CUDA_VISIBLE_DEVICES") ≡ false
unfolding contains text_beq
devices_shown = refl

-- Whatever the host's environment and the configuration contain, the engine gets none of the hidden
-- names, and `CUDA_VISIBLE_DEVICES` is the list of the model's own GPUs.
pub engine_env-isolated :
    (environ : Dict Text Text) (model : ModelConfig) (cluster : ClusterInfo) (k : Text)
    → contains hidden_names k ≡ true
    → (lookup k (engine_env environ model cluster) ≡ none)
      × (lookup (codes "CUDA_VISIBLE_DEVICES") (engine_env environ model cluster)
          ≡ some (joined model.gpus))
engine_env-isolated environ model cluster k h =
    let devices = codes "CUDA_VISIBLE_DEVICES" in
    (
      lookup-engine_env environ model cluster k (late_of_hidden k h) ∙ rw h refl,
      lookup-engine_env environ model cluster devices (late_of_early devices devices_early)
          ∙ rw (devices_shown, eq_refl devices) refl,
    )
