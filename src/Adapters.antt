-- ===== src/Adapters.antt =====
-- adapters.py: the static adapters of a model are made local before its engine starts. Paths are the
-- text that `str` gives of them.
pub mod Resolved
use yeetllm.Common.{
  ℕ, Bool, true, false, not, Option, none, some, List, [], ◌∷◌, ◌++◌, ◌==◌, text_eq, Result, ok,
  err, ◌>>=◌, ◌>>◌, raise_if, if◌then◌else◌,
}
use yeetllm.Common.Int.{ℤ, pos, int_eq}
use yeetllm.Common.Dict.{Dict, lookup, insert, remove}
use yeetllm.Common.Text.{Text, codes, strip}
use yeetllm.Config.Types.{LoraAdapterConfig, ModelConfig}
use yeetllm.Config.LocalRank.{RankError, AdapterFiles, local_adapter_rank}
use yeetllm.Config.Runtime.{exceeds_rank}
use yeetllm.Processes.{Account, service_argv}

pub data AdapterError : Type 0 where
  unresolved : Text → AdapterError
  unresolved_as_service : Text → AdapterError
  invalid_path : Text → AdapterError
  bad_rank_file : RankError → AdapterError
  rank_too_large : Text → ℤ → ℕ → AdapterError

-- `subprocess.run` with captured output.
pub record Completed : Type 0 where
  pub returncode : ℤ
  pub stdout : Text

-- What the module reads from outside. `account` is the service account, where the effective user is
-- root and the account exists; `download` is `snapshot_download`, given the repository, the revision,
-- the cache and the token; `resolved` is `Path.resolve` and `child` the operator `/` of paths.
pub record Surroundings : Type 0 where
  pub environ : Dict Text Text
  pub files : AdapterFiles
  pub account : Option Account
  pub executable : Text
  pub resolved : Text → Text
  pub child : Text → Text → Text
  pub download : Text → Option Text → Text → Option Text → Option Text
  pub run : List Text → Dict Text Text → Completed

abbrev pub value_or : Option Text → Text → Text
value_or none d = d
value_or (some s) d = s

-- `x or None`
abbrev pub or_none : Option Text → Option Text
or_none (some []) = none
or_none o = o

abbrev pub revision_args : Option Text → List Text
revision_args none = []
revision_args (some revision) = codes "--revision" ∷ revision ∷ []

abbrev pub worker_argv : Surroundings → LoraAdapterConfig → Text → List Text
worker_argv env adapter cache_dir =
    (env.executable
      ∷ codes "-m"
      ∷ codes "yeetllm.adapter_worker"
      ∷ codes "--repo"
      ∷ adapter.model
      ∷ codes "--cache-dir"
      ∷ cache_dir
      ∷ [])
    ++ revision_args adapter.revision

-- the environment of the worker
unfoldable pub worker_env : Dict Text Text → Dict Text Text
unfolding insert remove
worker_env environ = remove (codes "PUBLIC_KEY") (
    remove (codes "SSH_PUBLIC_KEY") (
      remove (codes "YEETLLM_SSH_AUTHORIZED_KEYS") (
        insert (codes "HF_HUB_DISABLE_PROGRESS_BARS") (codes "1") (
          insert (codes "USER") (codes "vllm")
            (insert (codes "HOME") (codes "/home/vllm") environ)))))

unfoldable pub download_as_service_user :
    Surroundings → Account → LoraAdapterConfig → Text → Result AdapterError Text
unfolding worker_env service_argv
download_as_service_user env account adapter cache_dir =
    let result =
      env.run (service_argv (some account) (worker_argv env adapter cache_dir))
        (worker_env env.environ) in
    raise_if (not (result.returncode == pos 0)) (unresolved_as_service adapter.id)
    >> raise_if (not (env.files.is_dir (strip result.stdout))) (invalid_path adapter.id)
    >> ok (strip result.stdout)

abbrev pub downloaded : LoraAdapterConfig → Option Text → Result AdapterError Text
downloaded adapter none = err (unresolved adapter.id)
downloaded adapter (some path) = ok path

unfoldable pub download_adapter : Surroundings → LoraAdapterConfig → Text → Result AdapterError Text
unfolding lookup
download_adapter env adapter cache_dir = downloaded adapter (
    env.download adapter.model adapter.revision cache_dir
      (or_none (lookup (codes "HF_TOKEN") env.environ)))

unfoldable pub resolve_adapter : Surroundings → LoraAdapterConfig → Text → Result AdapterError Text
unfolding download_as_service_user download_adapter
resolve_adapter env adapter cache_dir =
    if env.files.is_dir adapter.model then ok (env.resolved adapter.model) else elim env.account [
      | none ↦ download_adapter env adapter cache_dir
      | some account ↦ download_as_service_user env account adapter cache_dir
    ]

abbrev pub checked_rank :
    LoraAdapterConfig → ℕ → Result RankError (Option ℤ) → Result AdapterError (Unit {0})
checked_rank adapter maximum (err e) = err (bad_rank_file e)
checked_rank adapter maximum (ok none) = ok tt
checked_rank adapter maximum (ok (some rank)) =
    raise_if (exceeds_rank rank maximum) (rank_too_large adapter.id rank maximum)

abbrev pub cache_dir_of : Surroundings → Text
cache_dir_of env =
    let hf_home =
      value_or (lookup (codes "HF_HOME") env.environ)
        (codes "/workspace/yeetllm/cache/huggingface") in
    value_or (lookup (codes "HUGGINGFACE_HUB_CACHE") env.environ) (env.child hf_home (codes "hub"))

-- the loop over the adapters
unfoldable pub resolve_all :
    Surroundings
    → Text
    → ℕ
    → List LoraAdapterConfig
    → Dict Text Text
    → Result AdapterError (Dict Text Text)
unfolding resolve_adapter local_adapter_rank insert
resolve_all env cache_dir maximum [] found = ok found
resolve_all env cache_dir maximum (adapter ∷ adapters) found =
    resolve_adapter env adapter cache_dir >>= λ path.
    checked_rank adapter maximum (local_adapter_rank env.files path)
    >> resolve_all env cache_dir maximum adapters (insert adapter.id path found)

-- `resolve_model_adapters`
unfoldable pub resolve_model_adapters :
    Surroundings → ModelConfig → Result AdapterError (Dict Text Text)
unfolding resolve_all lookup
resolve_model_adapters env model =
    resolve_all env (cache_dir_of env) model.lora.max_lora_rank model.lora.adapters []
