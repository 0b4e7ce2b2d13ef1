-- ===== src/Registry/Ports.antt =====
-- When `build_registry` succeeds, and what it returns.
use yeetllm.Common.{
  ℕ, zero, suc, ◌+◌, ◌≤◌, ◌<◌, ◌≡◌, ◌≢◌, refl, ap, sym, ◌↔◌, ◌⊎◌, false, List, [], ◌∷◌, ◌++◌, arith,
  ltb, ◌==◌, nat_eq, text_eq, contains, IsDistinct, All, length, ok, ◌>>◌, raise_if, >>=-eq-ok,
  >>-eq-ok,
}
use mathlib.Core.List.{append-nil}
use yeetllm.Common.Dict.{Dict, keys, values, insert, contains-keys}
use yeetllm.Common.Text.{Text, codes}
use yeetllm.Config.Types.{ModelConfig, YeetConfig}
use yeetllm.Config.Claims.{
  AreNew, AreNew-iff, AreNew-nil_iff, keys-insert_new, Accepts, Accepts-bind,
}
use yeetllm.Config.Ownership.{all_ids}
use yeetllm.Registry.{
  EngineRecord, ModelRecord, Registry, port_range_exceeded, add_models, claim_port, claim_ports,
  check_ports, build_registry, router_is_sshd,
}
use yeetllm.Registry.Entries.{engine_entries, model_entries, add_models_new}

unfoldable pub port_range : ℕ → ℕ → List ℕ
port_range port zero = []
port_range port (suc n) = port ∷ port_range (port + 1) n

ports : List EngineRecord → List ℕ
ports [] = []
ports (e ∷ rest) = e.port ∷ ports rest

ports-engine_entries :
    (port : ℕ) (ms : List ModelConfig)
    → ports (values (engine_entries port ms)) ≡ port_range port (length ms)
unfolding ports engine_entries port_range
ports-engine_entries port [] = refl
ports-engine_entries port (m ∷ rest) = cc (ports-engine_entries (port + 1) rest)

below-absent : (x port n : ℕ) → x < port → contains (port_range port n) x ≡ false
unfolding contains port_range
below-absent x port zero h = refl
below-absent x port (suc n) h = ground (arith, below-absent x (port + 1) n)

port_range-IsDistinct : (port n : ℕ) → IsDistinct (port_range port n)
unfolding port_range
port_range-IsDistinct port zero = tt
port_range-IsDistinct port (suc n) =
    (below-absent port (port + 1) n (omega arith), port_range-IsDistinct (port + 1) n)

-- A port is not among the `n` ports from `first`.
abbrev pub IsOutside : ℕ → ℕ → ℕ → Type 0
IsOutside first n p = (p < first) ⊎ (first + n ≤ p)

IsOutside-step :
    (first n : ℕ) (seen : List ℕ)
    → ((contains seen first ≡ false) × All (IsOutside (first + 1) n) seen)
      ↔ All (IsOutside first (suc n)) seen
unfolding contains
IsOutside-step first n [] = ground arith
IsOutside-step first n (p ∷ seen) = ground (arith, IsOutside-step first n seen)

IsOutside-none : (first : ℕ) (seen : List ℕ) → All (IsOutside first 0) seen
IsOutside-none first [] = tt
IsOutside-none first (p ∷ seen) = (ground arith, IsOutside-none first seen)

-- None of the `n` ports from `first` was claimed before, seen from the claimed ports.
absent_iff :
    (first n : ℕ) (seen : List ℕ)
    → All (λ x. contains seen x ≡ false) (port_range first n) ↔ All (IsOutside first n) seen
unfolding port_range
absent_iff first zero seen = (λ h. IsOutside-none first seen, λ h. tt)
absent_iff first (suc n) seen =
    let (to, from) = absent_iff (first + 1) n seen in
    let (join, split) = IsOutside-step first n seen in
    (λ h. join (h.0, to h.1), λ h. ((split h).0, from (split h).1))

AreNew-port_range_iff :
    (first n : ℕ) (seen : List ℕ) → AreNew seen (port_range first n) ↔ All (IsOutside first n) seen
AreNew-port_range_iff first n seen =
    let (to, from) = AreNew-iff seen (port_range first n) in
    let (out, absent) = absent_iff first n seen in
    (λ h. out (to h).0, λ h. from (absent h, port_range-IsDistinct first n))

claim_port-Accepts :
    (claimed : Dict ℕ Text) (e : EngineRecord)
    → Accepts (claim_port claimed e) (keys claimed) (e.port ∷ [])
unfolding claim_port
claim_port-Accepts claimed e = record {
  sound = λ d h. ground (
    arith,
    contains-keys e.port claimed,
    keys-insert_new e.port (codes "engine " ++ e.id) claimed,
  );
  complete = λ h. (
    insert e.port (codes "engine " ++ e.id) claimed,
    ground (arith, contains-keys e.port claimed),
  );
}

claim_ports-Accepts :
    (claimed : Dict ℕ Text) (es : List EngineRecord)
    → Accepts (claim_ports claimed es) (keys claimed) (ports es)
unfolding claim_ports ports
claim_ports-Accepts claimed [] = record {
  sound = λ d h. (tt, ground (arith, append-nil (keys claimed)));
  complete = λ h. (claimed, refl);
}
claim_ports-Accepts claimed (e ∷ rest) =
    Accepts-bind (claim_port claimed e) (λ d. claim_ports d rest) (keys claimed) (e.port ∷ [])
      (ports rest) (claim_port-Accepts claimed e) λ d k. rw (← k) (claim_ports-Accepts d rest)

add_models-fits :
    (port : ℕ) (ms : List ModelConfig) (engines : Dict Text EngineRecord)
    (models : Dict Text ModelRecord) (r : Dict Text EngineRecord × Dict Text ModelRecord)
    → ms ≢ []
    → add_models port ms engines models ≡ ok r
    → port + length ms ≤ 65536
unfolding add_models
add_models-fits port [] engines models r some_model h = absurd (some_model refl)
add_models-fits port (m ∷ []) engines models r some_model h = ground arith
add_models-fits port (m ∷ m' ∷ rest) engines models r some_model h =
    let (_, later) = >>-eq-ok (raise_if (ltb 65535 port) port_range_exceeded) _ h in
    omega (arith, add_models-fits (port + 1) (m' ∷ rest) _ _ r (cc) later)

-- what is claimed before the engines
abbrev reserved : YeetConfig → Dict ℕ Text
reserved config = insert config.ssh.port (codes "sshd") ((config.server.port, codes "router") ∷ [])

abbrev listeners : YeetConfig → List ℕ
listeners config = config.server.port ∷ config.ssh.port ∷ []

keys-reserved :
    (config : YeetConfig)
    → config.server.port ≢ config.ssh.port
    → keys (reserved config) ≡ listeners config
unfolding contains
keys-reserved config apart =
    keys-insert_new config.ssh.port (codes "sshd") ((config.server.port, codes "router") ∷ [])
      (ground arith)

module _ (config : YeetConfig) (first : ℕ) (ms : List ModelConfig) where
  abbrev pub PortsFree : Type 0
  PortsFree =
      (config.server.port ≢ config.ssh.port) × All (IsOutside first (length ms)) (listeners config)

  check_ports_sound : check_ports config (values (engine_entries first ms)) ≡ ok tt → PortsFree
  unfolding check_ports
  check_ports_sound h =
      let ((d, p), q) =
        >>-eq-ok (claim_ports (reserved config) (values (engine_entries first ms)))
          (raise_if (config.server.port == config.ssh.port) (router_is_sshd config.server.port))
          h in
      let apart : config.server.port ≢ config.ssh.port = ground arith in
      let new : AreNew (keys (reserved config)) (ports (values (engine_entries first ms))) =
        ((claim_ports-Accepts (reserved config) _).sound d p).0 in
      (
        apart,
        (AreNew-port_range_iff first (length ms) (listeners config)).0
            (rw (keys-reserved config apart, ports-engine_entries first ms) at new),
      )

  check_ports_complete : PortsFree → check_ports config (values (engine_entries first ms)) ≡ ok tt
  unfolding check_ports
  check_ports_complete (apart, free) =
      let new : AreNew (keys (reserved config)) (ports (values (engine_entries first ms))) =
        rw (keys-reserved config apart, ports-engine_entries first ms)
          ((AreNew-port_range_iff first (length ms) (listeners config)).1 free) in
      let (d, p) = (claim_ports-Accepts (reserved config) _).complete new in
      let differ : (config.server.port == config.ssh.port) ≡ false = ground arith in
      rw (p, differ) refl

-- The registry in closed form: the engines in order on consecutive ports.
abbrev pub registry_of : List ModelConfig → ℕ → ℕ → Registry
registry_of ms first now = record {
  engines = engine_entries first ms;
  models = model_entries first ms;
  created = now;
}

module _ (config : YeetConfig) (first now : ℕ) (some_model : config.models ≢ [])
    (distinct : IsDistinct (all_ids config.models)) where
  added :
      first + length config.models ≤ 65536
      → add_models first config.models [] []
        ≡ ok (engine_entries first config.models, model_entries first config.models)
  unfolding contains
  added fits =
      add_models_new first config.models [] [] (λ x h. refl) ((AreNew-nil_iff _).1 distinct) fits

  -- For a configuration with a model and with distinct identifiers, the registry is built exactly
  -- when the engines' ports do not pass 65535, the router and sshd have different ports, and
  -- neither port is an engine's. It then has the engines in order on consecutive ports, and each
  -- model's identifiers in order.
  pub build_registry_iff :
      (r : Registry)
      → (build_registry config first now ≡ ok r) ↔ (
          (first + length config.models ≤ 65536)
          × PortsFree config first config.models
          × (r ≡ registry_of config.models first now))
  unfolding build_registry
  build_registry_iff r = (
    λ h.
        let (built, p, q) = >>=-eq-ok (add_models first config.models [] []) _ h in
        let fits = add_models-fits first config.models [] [] built some_model p in
        let h' : (do
          check_ports config (values (engine_entries first config.models))
          ok (registry_of config.models first now))
            ≡ ok r =
          rw (added fits) at h in
        let ((u, free), e) =
          >>-eq-ok (check_ports config (values (engine_entries first config.models)))
            (ok (registry_of config.models first now)) h' in
        (fits, check_ports_sound config first config.models free, cc),
    λ h. rw (added h.0, check_ports_complete config first config.models h.1) (ap ok (sym h.2)),
  )
