-- ===== src/Config/Ownership.antt =====
-- What `validate_global_ids_and_gpus` accepts, stated without its dictionaries: every identifier
-- once, and every GPU once unless sharing is allowed.
use mathlib.Core.List.{append-nil}
use yeetllm.Common.{
  ◌≡◌, ◌≢◌, refl, ◌↔◌, Bool, true, false, List, [], ◌∷◌, ◌++◌, arith, IsDistinct, text_eq, ok, err,
  ◌>>◌, err, Result, >>=-eq-ok,
}
use yeetllm.Common.Int.{ℤ, int_eq}
use yeetllm.Common.Dict.{Dict, keys, insert, contains-keys}
use yeetllm.Common.Text.{Text, codes}
use yeetllm.Config.Types.{LoraAdapterConfig, ModelConfig, YeetConfig, Error, adapter_ids}
use yeetllm.Config.Claims.{
  AreNew, AreNew-append, AreNew-nil_iff, keys-insert_new, Accepts, Accepts-bind,
}
use yeetllm.Config.Global.{
  register_unique_id, register_adapters, register_model, claim_gpu, claim_gpus, check_models,
  validate_models, validate_global_ids_and_gpus,
}

abbrev pub model_ids : ModelConfig → List Text
model_ids m = m.id ∷ adapter_ids m.lora.adapters

-- The identifiers of all models and adapters, and the GPUs of all models.
unfoldable pub all_ids : List ModelConfig → List Text
all_ids [] = []
all_ids (m ∷ rest) = model_ids m ++ all_ids rest

unfoldable pub all_gpus : List ModelConfig → List ℤ
all_gpus [] = []
all_gpus (m ∷ rest) = m.gpus ++ all_gpus rest

register-Accepts :
    (owners : Dict Text Text) (x w : Text)
    → Accepts (register_unique_id owners x w) (keys owners) (x ∷ [])
unfolding register_unique_id
register-Accepts owners x w = record {
  sound = λ d h. ground (arith, contains-keys x owners, keys-insert_new x w owners);
  complete = λ h. (insert x w owners, ground (arith, contains-keys x owners));
}

register_adapters-Accepts :
    (owners : Dict Text Text) (m : Text) (adapters : List LoraAdapterConfig)
    → Accepts (register_adapters owners m adapters) (keys owners) (adapter_ids adapters)
unfolding register_adapters adapter_ids
register_adapters-Accepts owners m [] = record {
  sound = λ d h. (tt, ground (arith, append-nil (keys owners)));
  complete = λ h. (owners, refl);
}
register_adapters-Accepts owners m (a ∷ rest) =
    Accepts-bind (register_unique_id owners a.id (codes "LoRA on " ++ m))
      (λ d. register_adapters d m rest) (keys owners) (a.id ∷ []) (adapter_ids rest)
      (register-Accepts owners a.id (codes "LoRA on " ++ m))
      λ d k. rw (← k) (register_adapters-Accepts d m rest)

claim_gpu-Accepts :
    (owners : Dict ℤ Text) (m : Text) (g : ℤ)
    → Accepts (claim_gpu false owners m g) (keys owners) (g ∷ [])
unfolding claim_gpu
claim_gpu-Accepts owners m g = record {
  sound = λ d h. ground (arith, contains-keys g owners, keys-insert_new g m owners);
  complete = λ h. (insert g m owners, ground (arith, contains-keys g owners));
}

claim_gpus-Accepts :
    (owners : Dict ℤ Text) (m : Text) (gpus : List ℤ)
    → Accepts (claim_gpus false owners m gpus) (keys owners) gpus
unfolding claim_gpus
claim_gpus-Accepts owners m [] = record {
  sound = λ d h. (tt, ground (arith, append-nil (keys owners)));
  complete = λ h. (owners, refl);
}
claim_gpus-Accepts owners m (g ∷ rest) =
    Accepts-bind (claim_gpu false owners m g) (λ d. claim_gpus false d m rest) (keys owners)
      (g ∷ []) rest (claim_gpu-Accepts owners m g) λ d k. rw (← k) (claim_gpus-Accepts d m rest)

claim_gpus-shared :
    (owners : Dict ℤ Text) (m : Text) (gpus : List ℤ)
    → (d : Dict ℤ Text) × (claim_gpus true owners m gpus ≡ ok d)
unfolding claim_gpus
claim_gpus-shared owners m [] = (owners, refl)
claim_gpus-shared owners m (g ∷ rest) =
    let (d, p) = claim_gpus-shared (insert g m owners) m rest in (d, ground arith)

register_model-Accepts :
    (owners : Dict Text Text) (m : ModelConfig)
    → Accepts (register_model owners m) (keys owners) (model_ids m)
unfolding register_model
register_model-Accepts owners m =
    Accepts-bind (register_unique_id owners m.id (codes "base model " ++ m.id))
      (λ d. register_adapters d m.id m.lora.adapters) (keys owners) (m.id ∷ [])
      (adapter_ids m.lora.adapters) (register-Accepts owners m.id (codes "base model " ++ m.id))
      λ d k. rw (← k) (register_adapters-Accepts d m.id m.lora.adapters)

-- What must hold of the GPUs: nothing, if they may be shared.
abbrev GpusFree : Bool → List ℤ → List ℤ → Type 0
GpusFree true seen xs = Unit
GpusFree false seen xs = AreNew seen xs

claim_gpus-GpusFree :
    (shared : Bool) (owners d : Dict ℤ Text) (m : Text) (gpus : List ℤ)
    → claim_gpus shared owners m gpus ≡ ok d
    → GpusFree shared (keys owners) gpus
claim_gpus-GpusFree true owners d m gpus h = tt
claim_gpus-GpusFree false owners d m gpus h = ((claim_gpus-Accepts owners m gpus).sound d h).0

check_models_sound :
    (shared : Bool) (owners : Dict Text Text) (gpu_owners : Dict ℤ Text) (models : List ModelConfig)
    → check_models shared owners gpu_owners models ≡ ok tt
    → AreNew (keys owners) (all_ids models) × GpusFree shared (keys gpu_owners) (all_gpus models)
unfolding check_models all_ids all_gpus
check_models_sound true owners gpu_owners [] h = (tt, tt)
check_models_sound false owners gpu_owners [] h = (tt, tt)
check_models_sound true owners gpu_owners (m ∷ rest) h =
    let (o, p, q) = >>=-eq-ok (register_model owners m) _ h in
    let (g, r, s) = >>=-eq-ok (claim_gpus true gpu_owners m.id m.gpus) _ q in
    let (new, k) = (register_model-Accepts owners m).sound o p in
    let (news, _) = check_models_sound true o g rest s in
    ((AreNew-append (keys owners) (model_ids m) (all_ids rest)).1 (new, rw k at news), tt)
check_models_sound false owners gpu_owners (m ∷ rest) h =
    let (o, p, q) = >>=-eq-ok (register_model owners m) _ h in
    let (g, r, s) = >>=-eq-ok (claim_gpus false gpu_owners m.id m.gpus) _ q in
    let (new, k) = (register_model-Accepts owners m).sound o p in
    let (free, l) = (claim_gpus-Accepts gpu_owners m.id m.gpus).sound g r in
    let (news, frees) = check_models_sound false o g rest s in
    (
      (AreNew-append (keys owners) (model_ids m) (all_ids rest)).1 (new, rw k at news),
      (AreNew-append (keys gpu_owners) m.gpus (all_gpus rest)).1 (free, rw l at frees),
    )

check_models_complete :
    (shared : Bool) (owners : Dict Text Text) (gpu_owners : Dict ℤ Text) (models : List ModelConfig)
    → AreNew (keys owners) (all_ids models)
    → GpusFree shared (keys gpu_owners) (all_gpus models)
    → check_models shared owners gpu_owners models ≡ ok tt
unfolding check_models all_ids all_gpus
check_models_complete true owners gpu_owners [] h f = refl
check_models_complete false owners gpu_owners [] h f = refl
check_models_complete true owners gpu_owners (m ∷ rest) h f =
    let (new, news) = (AreNew-append (keys owners) (model_ids m) (all_ids rest)).0 h in
    let (o, p) = (register_model-Accepts owners m).complete new in
    let (g, r) = claim_gpus-shared gpu_owners m.id m.gpus in
    let k = ((register_model-Accepts owners m).sound o p).1 in
    rw (p, r) (check_models_complete true o g rest (rw k news) tt)
check_models_complete false owners gpu_owners (m ∷ rest) h f =
    let (new, news) = (AreNew-append (keys owners) (model_ids m) (all_ids rest)).0 h in
    let (free, frees) = (AreNew-append (keys gpu_owners) m.gpus (all_gpus rest)).0 f in
    let (o, p) = (register_model-Accepts owners m).complete new in
    let (g, r) = (claim_gpus-Accepts gpu_owners m.id m.gpus).complete free in
    let k = ((register_model-Accepts owners m).sound o p).1 in
    let l = ((claim_gpus-Accepts gpu_owners m.id m.gpus).sound g r).1 in
    rw (p, r) (check_models_complete false o g rest (rw k news) (rw l frees))

-- The GPUs of all models are pairwise different, unless sharing is allowed.
abbrev pub GpusDistinct : Bool → List ℤ → Type 0
GpusDistinct true gpus = Unit
GpusDistinct false gpus = IsDistinct gpus

GpusFree-iff : (shared : Bool) (gpus : List ℤ) → GpusFree shared [] gpus ↔ GpusDistinct shared gpus
GpusFree-iff true gpus = (λ h. h, λ h. h)
GpusFree-iff false gpus = AreNew-nil_iff gpus

validate_models_iff :
    (shared : Bool) (models : List ModelConfig)
    → (validate_models shared models ≡ ok tt)
      ↔ ((models ≢ []) × IsDistinct (all_ids models) × GpusDistinct shared (all_gpus models))
validate_models_iff shared [] = ground arith
validate_models_iff shared (m ∷ rest) = (
  λ h.
      let (ids, gpus) = check_models_sound shared [] [] (m ∷ rest) h in
      (cc, (AreNew-nil_iff _).0 ids, (GpusFree-iff shared _).0 gpus),
  λ h.
      check_models_complete shared [] [] (m ∷ rest) ((AreNew-nil_iff _).1 h.1)
        ((GpusFree-iff shared _).1 h.2),
)

then-config : (r : Result Error (Unit {0})) (c : YeetConfig) → ((do r; ok c) ≡ ok c) ↔ (r ≡ ok tt)
then-config (ok u) c = (λ h. refl, λ h. refl)
then-config (err e) c = (λ h. cc, λ h. cc)

-- A configuration is accepted exactly when it has a model, no identifier of a model or an adapter
-- stands twice in it, and no GPU does unless `allow_shared_gpus` is set; it is returned unchanged.
pub validate_global_iff :
    (config : YeetConfig)
    → (validate_global_ids_and_gpus config ≡ ok config) ↔ (
        (config.models ≢ [])
        × IsDistinct (all_ids config.models)
        × GpusDistinct config.allow_shared_gpus (all_gpus config.models))
unfolding validate_global_ids_and_gpus
validate_global_iff config =
    let (to, from) = then-config (validate_models config.allow_shared_gpus config.models) config in
    let (sound, complete) = validate_models_iff config.allow_shared_gpus config.models in
    (λ h. sound (to h), λ h. from (complete h))
