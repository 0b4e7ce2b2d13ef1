-- ===== src/Adapters/Resolved.antt =====
-- What `resolve_model_adapters` returns.
use yeetllm.Common.{
  ℕ, ◌≡◌, refl, ◌∙◌, inl, inr, arith, false, Option, none, some, List, [], ◌∷◌, ◌==◌, text_eq,
  eq_refl, contains, IsDistinct, All, Bool-cases, Result, ok, err, >>=-eq-ok, >>-eq-ok,
}
use yeetllm.Common.Int.{ℤ, pos, negsuc}
use yeetllm.Common.Dict.{Dict, lookup, insert, lookup-insert}
use yeetllm.Common.Text.{Text}
use yeetllm.Config.Types.{LoraAdapterConfig, ModelConfig, adapter_ids}
use yeetllm.Config.LocalRank.{RankError, local_adapter_rank}
use yeetllm.Config.LocalRank.Named.{IsNamed, Fits, local_adapter_rank-Fits}
use yeetllm.Config.Runtime.{exceeds_rank}
use yeetllm.Adapters.{
  rank_too_large, Surroundings, resolve_adapter, checked_rank, cache_dir_of, resolve_all,
  resolve_model_adapters,
}

-- The path of an adapter is the one that `resolve_adapter` gives, and no rank named there is too large.
abbrev pub IsResolved : Surroundings → Text → ℕ → Dict Text Text → LoraAdapterConfig → Type 0
IsResolved env cache_dir maximum paths adapter =
    (path : Text) × (lookup adapter.id paths ≡ some path)
    × (resolve_adapter env adapter cache_dir ≡ ok path)
    × ((rank : ℤ) → IsNamed env.files path rank → Fits maximum rank)

exceeds_rank-Fits : (rank : ℤ) (maximum : ℕ) → exceeds_rank rank maximum ≡ false → Fits maximum rank
exceeds_rank-Fits (pos rank) maximum h = ground arith
exceeds_rank-Fits (negsuc n) maximum h = tt

checked_rank-ok :
    (adapter : LoraAdapterConfig) (maximum : ℕ) (r : Result RankError (Option ℤ)) (u : Unit {0})
    → checked_rank adapter maximum r ≡ ok u
    → (rank : ℤ) → r ≡ ok (some rank)
    → Fits maximum rank
checked_rank-ok adapter maximum (err e) u h rank found = absurd (cc h)
checked_rank-ok adapter maximum (ok none) u h rank found = absurd (cc found)
checked_rank-ok adapter maximum (ok (some there)) u h rank found =
    let same : there ≡ rank = cc found in
    elim (Bool-cases (exceeds_rank there maximum)) [
      | inl large ↦
          let bad : err (rank_too_large adapter.id there maximum) ≡ ok u = rw large at h in
          absurd (cc bad)
      | inr fits ↦ rw (← same) (exceeds_rank-Fits there maximum fits)
    ]

-- Adapters that come later do not change a path.
resolve_all-keeps :
    (env : Surroundings) (cache_dir : Text) (maximum : ℕ) (adapters : List LoraAdapterConfig)
    (found paths : Dict Text Text) (id path : Text)
    → contains (adapter_ids adapters) id ≡ false
    → lookup id found ≡ some path
    → resolve_all env cache_dir maximum adapters found ≡ ok paths
    → lookup id paths ≡ some path
unfolding resolve_all adapter_ids contains
resolve_all-keeps env cache_dir maximum [] found paths id path new there h =
    let same : found ≡ paths = cc h in rw (← same) there
resolve_all-keeps env cache_dir maximum (adapter ∷ adapters) found paths id path new there h =
    let (p, resolved, rest) = >>=-eq-ok (resolve_adapter env adapter cache_dir) _ h in
    let (checked, later) =
      >>-eq-ok (checked_rank adapter maximum (local_adapter_rank env.files p)) _ rest in
    let other : (adapter.id == id) ≡ false = ground arith in
    resolve_all-keeps env cache_dir maximum adapters (insert adapter.id p found) paths id path
      (ground arith) (lookup-insert adapter.id id p found ∙ rw other there) later

resolve_all-IsResolved :
    (env : Surroundings) (cache_dir : Text) (maximum : ℕ) (adapters : List LoraAdapterConfig)
    (found paths : Dict Text Text)
    → IsDistinct (adapter_ids adapters)
    → resolve_all env cache_dir maximum adapters found ≡ ok paths
    → All (IsResolved env cache_dir maximum paths) adapters
unfolding resolve_all adapter_ids
resolve_all-IsResolved env cache_dir maximum [] found paths distinct h = tt
resolve_all-IsResolved env cache_dir maximum (adapter ∷ adapters) found paths distinct h =
    let (p, resolved, rest) = >>=-eq-ok (resolve_adapter env adapter cache_dir) _ h in
    let ((u, checked), later) =
      >>-eq-ok (checked_rank adapter maximum (local_adapter_rank env.files p)) _ rest in
    let put : lookup adapter.id (insert adapter.id p found) ≡ some p =
      lookup-insert adapter.id adapter.id p found ∙ rw (eq_refl adapter.id) refl in
    (
      (
        p,
        resolve_all-keeps env cache_dir maximum adapters (insert adapter.id p found) paths
            adapter.id p distinct.0 put later,
        resolved,
        λ rank.
            local_adapter_rank-Fits env.files p maximum rank
              (checked_rank-ok adapter maximum (local_adapter_rank env.files p) u checked),
      ),
      resolve_all-IsResolved env cache_dir maximum adapters (insert adapter.id p found) paths
          distinct.1 later,
    )

-- Where `resolve_model_adapters` returns, each adapter of the model has the path that was resolved for
-- it, and no rank that the `adapter_config.json` there names exceeds `max_lora_rank`, be it the integer
-- under `r` or an integer for a module in `rank_pattern`. The identifiers are distinct.
pub resolve_model_adapters-IsResolved :
    (env : Surroundings) (model : ModelConfig) (paths : Dict Text Text)
    → IsDistinct (adapter_ids model.lora.adapters)
    → resolve_model_adapters env model ≡ ok paths
    → All (IsResolved env (cache_dir_of env) model.lora.max_lora_rank paths) model.lora.adapters
unfolding resolve_model_adapters
resolve_model_adapters-IsResolved env model paths distinct h =
    resolve_all-IsResolved env (cache_dir_of env) model.lora.max_lora_rank model.lora.adapters []
      paths distinct h
