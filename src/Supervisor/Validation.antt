-- ===== src/Supervisor/Validation.antt =====
-- `_validate` and `_reserved_listener_ports` of supervisor.py: a configuration against its node, before
-- anything is started.
use yeetllm.Common.{
  ℕ, not, ◌&&◌, Option, List, [], ◌∷◌, ◌++◌, ◌==◌, nat_eq, length, Result, ok, err, ◌>>◌, raise_if,
}
use yeetllm.Common.Int.{ℤ}
use yeetllm.Common.Dict.{Dict, values, insert}
use yeetllm.Common.Text.{Text, codes}
use yeetllm.Config.Types.{LoraAdapterConfig, YeetConfig, Error}
use yeetllm.Config.Runtime.{Warning, validate_runtime}
use yeetllm.Cluster.Detection.{ClusterInfo, ClusterError}
use yeetllm.Cluster.Ports.{validate_cluster_ports}
use yeetllm.Registry.{Registry, EngineRecord, PortError}

-- The exceptions of the checks, one constructor for the check that raises them.
pub data ValidationError : Type 0 where
  cluster_ports : ClusterError → ValidationError
  trainers_mismatch : ℕ → ℕ → ValidationError
  no_gpus : ValidationError
  registry_ports : PortError → ValidationError
  runtime : Error → ValidationError

-- An exception of a callee.
abbrev pub raised_by {ℓ} :
    {E : Type 0} {A : Type ℓ} → (E → ValidationError) → Result E A → Result ValidationError A
raised_by wrap (ok a) = ok a
raised_by wrap (err e) = err (wrap e)

-- f"engine {record.id}" under each port
unfoldable pub engine_ports : List EngineRecord → Dict ℕ Text → Dict ℕ Text
unfolding insert
engine_ports [] ports = ports
engine_ports (e ∷ rest) ports = engine_ports rest (insert e.port (codes "engine " ++ e.id) ports)

unfoldable pub reserved_listener_ports : YeetConfig → Registry → Dict ℕ Text
unfolding engine_ports insert
reserved_listener_ports config registry =
    engine_ports (values registry.engines)
      (insert config.ssh.port (codes "sshd") (insert config.server.port (codes "router") []))

-- the number of GPUs against `NUM_TRAINERS`
abbrev pub check_trainers : ClusterInfo → ℕ → Result ValidationError (Unit {0})
check_trainers cluster gpu_count =
    raise_if (cluster.enabled && not (gpu_count == cluster.trainers_per_node))
      (trainers_mismatch cluster.trainers_per_node gpu_count)

abbrev pub check_cluster_ports :
    YeetConfig → ClusterInfo → Registry → Result ValidationError (Unit {0})
check_cluster_ports config cluster registry = raised_by cluster_ports (
    validate_cluster_ports cluster (length config.models) (reserved_listener_ports config registry))

-- `resolve` is `rank_resolver`, and `methods` what `installed_quantization_methods` gives
module _ (resolve : LoraAdapterConfig → Result Error (Option ℤ))
    (methods : Option (List Text)) where
  abbrev pub check_runtime : YeetConfig → ClusterInfo → ℕ → Result ValidationError (List Warning)
  check_runtime config cluster gpu_count =
      raised_by runtime (validate_runtime resolve gpu_count cluster.node_count methods config)

  -- `_validate`
  unfoldable pub validate :
      YeetConfig → ClusterInfo → Registry → ℕ → Result ValidationError (List Warning)
  unfolding validate_cluster_ports validate_runtime reserved_listener_ports
  validate config cluster registry gpu_count =
      check_cluster_ports config cluster registry
      >> check_trainers cluster gpu_count
      >> check_runtime config cluster gpu_count
