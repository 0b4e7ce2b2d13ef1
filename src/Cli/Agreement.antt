-- ===== src/Cli/Agreement.antt =====
-- The check of the command `validate` against the supervisor's own.
use yeetllm.Common.{
  ℕ, zero, suc, ◌≤◌, ◌≡◌, refl, sym, ap, ◌∙◌, ◌↔◌, inl, inr, arith, Option, none, some, List, [],
  ◌∷◌, ◌++◌, ltb, nat_eq, length, Option-cases, Result, ok, err, ◌>>=◌, ◌>>◌, raise_if,
}
use yeetllm.Common.Int.{ℤ}
use yeetllm.Common.Dict.{Dict, values, lookup, insert}
use yeetllm.Common.Dict.Updates.{update, lookup-update-update}
use yeetllm.Common.Text.{Text, codes}
use yeetllm.Config.Types.{LoraAdapterConfig, YeetConfig, Error}
use yeetllm.Config.Runtime.{Warning}
use yeetllm.Cluster.Detection.{ClusterInfo, port_taken}
use yeetllm.Cluster.Ports.{validate_cluster_ports, check_taken, rendezvous_ports}
use yeetllm.Registry.{Registry, EngineRecord, build_registry}
use yeetllm.Supervisor.Validation.{
  ValidationError, cluster_ports, no_gpus, registry_ports, raised_by, check_trainers, check_runtime,
  engine_ports, reserved_listener_ports, validate,
}
use yeetllm.Cli.{engine_items, command_ports, printed, validate_loaded}

update-engine_items :
    (es : List EngineRecord) (d : Dict ℕ Text) → update d (engine_items es) ≡ engine_ports es d
unfolding update engine_items engine_ports
update-engine_items [] d = refl
update-engine_items (e ∷ es) d = update-engine_items es (insert e.port (codes "engine " ++ e.id) d)

-- The two dictionaries hold the same ports.
lookup-command_ports :
    (config : YeetConfig) (registry : Registry) (port : ℕ)
    → lookup port (command_ports config registry)
      ≡ lookup port (reserved_listener_ports config registry)
unfolding command_ports reserved_listener_ports
lookup-command_ports config registry port =
    let base =
      insert config.ssh.port (codes "sshd") (insert config.server.port (codes "router") []) in
    lookup-update-update port (engine_items (values registry.engines)) base
    ∙ ap (lookup port) (update-engine_items (values registry.engines) base)

-- Dictionaries that hold the same ports are checked alike.
module _ (a b : Dict ℕ Text) (same : (port : ℕ) → lookup port a ≡ lookup port b) where
  check_taken_lookup : (claims : Dict ℕ Text) → check_taken a claims ≡ check_taken b claims
  unfolding check_taken
  check_taken_lookup [] = refl
  check_taken_lookup ((port, owner) ∷ rest) = elim (Option-cases (lookup port a)) [
    | inl free ↦
        let free' : lookup port b ≡ none = sym (same port) ∙ free in
        let left : check_taken a ((port, owner) ∷ rest) ≡ check_taken a rest =
          rw (free, check_taken) refl in
        let right : check_taken b ((port, owner) ∷ rest) ≡ check_taken b rest =
          rw (free', check_taken) refl in
        left ∙ check_taken_lookup rest ∙ sym right
    | inr (previous, taken) ↦
        let taken' : lookup port b ≡ some previous = sym (same port) ∙ taken in
        let left : check_taken a ((port, owner) ∷ rest) ≡ err (port_taken port previous) =
          rw (taken, check_taken) refl in
        let right : check_taken b ((port, owner) ∷ rest) ≡ err (port_taken port previous) =
          rw (taken', check_taken) refl in
        left ∙ sym right
  ]

  validate_cluster_ports_lookup :
      (cluster : ClusterInfo) (count : ℕ)
      → validate_cluster_ports cluster count a ≡ validate_cluster_ports cluster count b
  unfolding validate_cluster_ports
  validate_cluster_ports_lookup cluster count =
      rw
        (check_taken_lookup (
          rendezvous_ports cluster.rendezvous_port_base 0 count
            ((cluster.control_port, codes "cluster control") ∷ [])))
        refl

abbrev pass : Unit {0} → Result ValidationError (Unit {0})
pass v = ok v

-- The end of the command, where the last registry is built.
printed_iff :
    (p : Result ValidationError (Unit {0})) (c : Result ValidationError (List Warning))
    (last : Registry) (warnings : List Warning) (v : Unit {0})
    → ((p >> c >>= λ ws. printed ws (ok last)) ≡ ok (warnings, last))
      ↔ ((p >> pass v >> c) ≡ ok warnings)
printed_iff (err e) c last warnings v = ((λ h. absurd (cc h)), (λ h. absurd (cc h)))
printed_iff (ok u) (err e) last warnings v = ((λ h. absurd (cc h)), (λ h. absurd (cc h)))
printed_iff (ok u) (ok ws) last warnings v = (
  (λ h. let same : ws ≡ warnings = cc h in rw same refl),
  (λ h. let same : ws ≡ warnings = cc h in rw same refl),
)

abbrev fail : ValidationError → Result ValidationError (Unit {0})
fail e = err e

refused :
    (q : Result ValidationError (Unit {0})) (e : ValidationError)
    (c : Result ValidationError (List Warning)) (warnings : List Warning)
    → (q >> fail e >> c) ≡ ok warnings
    → ⊥
refused (ok v) e c warnings h = absurd (cc h)
refused (err f) e c warnings h = absurd (cc h)

-- The order of the command's checks against the supervisor's, where the registry is built both times.
ordered :
    (few t : Result ValidationError (Unit {0})) (p : Registry → Result ValidationError (Unit {0}))
    (r s : Result ValidationError Registry) (c : Result ValidationError (List Warning))
    (registry last : Registry) (warnings : List Warning)
    → r ≡ ok registry
    → s ≡ ok last
    → ((few >> t >> r >>= λ g. p g >> c >>= λ ws. printed ws s) ≡ ok (warnings, last))
      ↔ ((few ≡ ok tt) × ((p registry >> t >> c) ≡ ok warnings))
ordered (err e) t p r s c registry last warnings built again =
    ((λ h. absurd (cc h)), (λ h. absurd (cc h.0)))
ordered (ok u) (err e) p r s c registry last warnings built again =
    ((λ h. absurd (cc h)), (λ h. absurd (refused (p registry) e c warnings h.1)))
ordered (ok u) (ok v) p r s c registry last warnings built again =
    let (to, from) = printed_iff (p registry) c last warnings v in
    rw (built, again) ((λ h. (refl, to h)), (λ h. from h.1))

at_least_one : (n : ℕ) → raise_if (ltb n 1) no_gpus ≡ ok tt → 1 ≤ n
at_least_one zero h = absurd (cc h)
at_least_one (suc n) h = omega arith

raised_none : (n : ℕ) → 1 ≤ n → raise_if (ltb n 1) no_gpus ≡ ok tt
raised_none n h = ground arith

-- Where the registry can be built, at both times, the command accepts a configuration exactly if the node
-- has a GPU and the supervisor accepts it: the check that is coded in cli.py, with its own dictionary of
-- reserved ports and its own order, and the one of supervisor.py agree, and give the same warnings.
pub validate_loaded_iff :
    (resolve : LoraAdapterConfig → Result Error (Option ℤ)) (methods : Option (List Text))
    (first_port now later : ℕ) (config : YeetConfig) (cluster : ClusterInfo) (discovered : ℕ)
    (registry last : Registry) (warnings : List Warning)
    → build_registry config first_port now ≡ ok registry
    → build_registry config first_port later ≡ ok last
    → (validate_loaded resolve methods first_port now later config cluster discovered
        ≡ ok (warnings, last))
      ↔ ((1 ≤ discovered)
          × (validate resolve methods config cluster registry discovered ≡ ok warnings))
unfolding validate_loaded validate
validate_loaded_iff resolve methods first_port now later config cluster discovered registry last
      warnings built again =
    let reserved = reserved_listener_ports config registry in
    let count = length config.models in
    let taken = λ (ports : Dict ℕ Text).
      raised_by cluster_ports (validate_cluster_ports cluster count ports) in
    let same : taken (command_ports config registry) ≡ taken reserved =
      ap (λ r. raised_by cluster_ports r)
        (validate_cluster_ports_lookup (command_ports config registry) reserved
          (lookup-command_ports config registry) cluster count) in
    let (to, from) =
      ordered (raise_if (ltb discovered 1) no_gpus) (check_trainers cluster discovered)
        (λ g. taken (command_ports config g))
        (raised_by registry_ports (build_registry config first_port now))
        (raised_by registry_ports (build_registry config first_port later))
        (check_runtime resolve methods config cluster discovered) registry last warnings
        (ap (λ r. raised_by registry_ports r) built) (ap (λ r. raised_by registry_ports r) again) in
    let trainers = check_trainers cluster discovered in
    let checked = check_runtime resolve methods config cluster discovered in
    (
      (λ h.
          let (few, rest) = to h in
          (at_least_one discovered few, ap (λ q. q >> trainers >> checked) (sym same) ∙ rest)),
      (λ (many, rest).
          from (raised_none discovered many, ap (λ q. q >> trainers >> checked) same ∙ rest)),
    )
