-- ===== src/Cli.antt =====
-- `validate_command` of cli.py, behind the configuration and the cluster that it has read. Its checks are
-- coded apart from the supervisor's; the exceptions of both have one type here.
pub mod Agreement
use yeetllm.Common.{
  ℕ, zero, suc, ◌≤◌, ◌≡◌, refl, sym, ap, ◌∙◌, ◌↔◌, inl, inr, arith, not, ◌&&◌, Option, none, some,
  List, [], ◌∷◌, ◌++◌, ltb, ◌==◌, nat_eq, length, Option-cases, Result, ok, err, ◌>>=◌, ◌>>◌,
  raise_if,
}
use yeetllm.Common.Int.{ℤ}
use yeetllm.Common.Dict.{Dict, values, lookup, insert}
use yeetllm.Common.Dict.Updates.{update, lookup-update-update}
use yeetllm.Common.Text.{Text, codes}
use yeetllm.Config.Types.{LoraAdapterConfig, YeetConfig, Error}
use yeetllm.Config.Runtime.{Warning, validate_runtime}
use yeetllm.Cluster.Detection.{ClusterInfo, port_taken}
use yeetllm.Cluster.Ports.{validate_cluster_ports, check_taken, rendezvous_ports}
use yeetllm.Registry.{Registry, EngineRecord, build_registry}
use yeetllm.Supervisor.Validation.{
  ValidationError, cluster_ports, trainers_mismatch, no_gpus, registry_ports, runtime, raised_by,
  check_trainers, check_runtime, engine_ports, reserved_listener_ports, validate,
}

-- `{record.port: f"engine {record.id}" for record in ...}`, as the items in their order
unfoldable pub engine_items : List EngineRecord → List (ℕ × Text)
engine_items [] = []
engine_items (e ∷ rest) = (e.port, codes "engine " ++ e.id) ∷ engine_items rest

-- the `reserved_ports` of the command: the dictionary of the engines is put over the two others
unfoldable pub command_ports : YeetConfig → Registry → Dict ℕ Text
unfolding update engine_items insert
command_ports config registry =
    update (insert config.ssh.port (codes "sshd") (insert config.server.port (codes "router") []))
      (update [] (engine_items (values registry.engines)))

-- the end of the command, where the registry is built again
abbrev pub printed :
    List Warning
    → Result ValidationError Registry
    → Result ValidationError (List Warning × Registry)
printed warnings (err e) = err e
printed warnings (ok registry) = ok (warnings, registry)

module _ (resolve : LoraAdapterConfig → Result Error (Option ℤ))
    (methods : Option (List Text)) where
  -- `first_port` is the first engine port that `build_registry` reads, `now` and `later` its two
  -- times. The result is what the command prints: the warnings, and the second registry.
  unfoldable pub validate_loaded :
      ℕ → ℕ → ℕ → YeetConfig → ClusterInfo → ℕ → Result ValidationError (List Warning × Registry)
  unfolding build_registry command_ports validate_cluster_ports validate_runtime
  validate_loaded first_port now later config cluster discovered =
      raise_if (ltb discovered 1) no_gpus
      >> raise_if (cluster.enabled && not (discovered == cluster.trainers_per_node))
          (trainers_mismatch cluster.trainers_per_node discovered)
      >> raised_by registry_ports (build_registry config first_port now)
      >>= λ registry.
          raised_by cluster_ports
            (validate_cluster_ports cluster (length config.models) (command_ports config registry))
          >> raised_by runtime
              (validate_runtime resolve discovered cluster.node_count methods config)
          >>= λ warnings.
              printed warnings (raised_by registry_ports (build_registry config first_port later))
