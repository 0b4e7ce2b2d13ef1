-- ===== src/Supervisor/Boot.antt =====
-- The supervisor at the start: its constructor, `_initialize_state`, and the coordinator of `_run_primary`.
pub mod Wiring
use yeetllm.Common.{ℕ, Bool, false, Option, none, some, List, [], if◌then◌else◌}
use yeetllm.Common.Dict.{keys}
use yeetllm.Common.Text.{Text}
use yeetllm.Config.Types.{YeetConfig}
use yeetllm.Cluster.Detection.{ClusterInfo}
use yeetllm.Cluster.Coordinator.{Coordinator, coordinator}
use yeetllm.Registry.{Registry}
use yeetllm.Supervisor.State.{initialize, initial_document}
use yeetllm.Supervisor.{Supervisor}

-- What the process and the host say: `started` and `now` are readings of the clock.
pub record Node : Type 0 where
  pub pid : ℕ
  pub started : ℕ
  pub now : ℕ
  pub gpu_count : ℕ

-- `__init__`, and `_initialize_state` behind it
unfoldable pub new_supervisor : Node → YeetConfig → ClusterInfo → Registry → Supervisor
unfolding initialize initial_document
new_supervisor node config cluster registry = record {
  config = config;
  cluster = cluster;
  registry = registry;
  store =
      initialize node.now
        (initial_document node.pid node.started node.gpu_count config cluster registry);
  processes = [];
  coordinator = none;
  adapter_paths = [];
  had_failure = false;
}

-- the coordinator of a cluster, apart from its socket
unfoldable pub with_cluster : Text → Supervisor → Supervisor
with_cluster config_hash s =
    if s.cluster.enabled
    then record s {
      coordinator = some (coordinator s.cluster.node_count config_hash (keys s.registry.engines));
    }
    else s
