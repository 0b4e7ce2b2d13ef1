-- ===== src/Tests/Clusters.antt =====
-- A cluster of two nodes: its ports, its detection, and the coordinator's reports.
use yeetllm.Common.{
  ◌≤◌, ◌<◌, ◌≡◌, ◌↔◌, ◌⊎◌, refl, true, false, none, some, [], ◌∷◌, ok, Result, text_beq, contains,
  all, any, keep, text_eq, nat_eq,
}
use yeetllm.Common.Dict.{Dict, keys, lookup, insert}
use yeetllm.Common.Text.{Text, codes, strip_by, drop_while, rstrip_by}
use yeetllm.Common.Text.Decimal.{decimal}
use yeetllm.Common.Text.Parsing.{int_of}
use yeetllm.Common.Json.{Json, str, int, obj, field, end, get}
use yeetllm.Common.Int.{pos}
use yeetllm.Config.Types.{ClusterConfig, ClusterMode}
use yeetllm.Cluster.Detection.{
  ClusterInfo, ClusterError, Role, single_node, at, check_variables, read_numbers, check_numbers,
  detect_cluster,
}
use yeetllm.Cluster.Ports.{validate_cluster_ports, PortsFit, validate_cluster_ports_iff}
use yeetllm.Cluster.Membership.{IsConsistent, detect_cluster-IsConsistent}
use yeetllm.Cluster.Coordinator.{
  Coordinator, coordinator, WorkerReport, process, set_desired, all_workers_running, worker_engines,
}
use yeetllm.Cluster.Coordinator.Reports.{IsValid}
use yeetllm.Cluster.Coordinator.History.{Step, Steps, IsAfter, reachable-IsValid, Steps-IsAfter}
use yeetllm.Cluster.Coordinator.Readiness.{IsUp, all_workers_running_sound}

abbrev two_nodes : ClusterInfo
two_nodes = record {
  enabled = true;
  role = Role.primary;
  node_rank = 0;
  node_count = 2;
  trainers_per_node = 8;
  world_size = 16;
  primary_addr = codes "10.0.0.1";
  node_addr = codes "10.0.0.1";
  control_port = 29400;
  rendezvous_port_base = 29401;
  interface = codes "ens1";
}

validate_cluster_ports_iff_example :
    (validate_cluster_ports two_nodes 2 ((8000, codes "router") ∷ []) ≡ ok tt)
    ↔ PortsFit two_nodes 2 ((8000, codes "router") ∷ [])
validate_cluster_ports_iff_example =
    validate_cluster_ports_iff two_nodes 2 ((8000, codes "router") ∷ []) refl

abbrev auto_config : ClusterConfig
auto_config = record {
  mode = ClusterMode.auto;
  nccl_socket_ifname = codes "ens1";
  control_port = none;
  rendezvous_port_base = none;
  startup_timeout = 1800;
}

abbrev accepts : Text → Text → Result ClusterError (Unit {0})
accepts address interface = ok tt

abbrev node_environment : Dict Text Text
node_environment =
    (codes "PRIMARY_ADDR", codes "10.0.0.1")
    ∷ (codes "MASTER_ADDR", codes "10.0.0.1")
    ∷ (codes "PRIMARY_PORT", codes "29400")
    ∷ (codes "MASTER_PORT", codes "29400")
    ∷ (codes "NODE_ADDR", codes "10.0.0.1")
    ∷ (codes "NODE_RANK", codes "0")
    ∷ (codes "NUM_NODES", codes "2")
    ∷ (codes "NUM_TRAINERS", codes "8")
    ∷ (codes "HOST_NODE_ADDR", codes "10.0.0.1:29400")
    ∷ (codes "WORLD_SIZE", codes "16")
    ∷ []

detected : detect_cluster accepts auto_config node_environment ≡ ok two_nodes
unfolding detect_cluster text_beq lookup decimal any keep at int_of check_variables read_numbers
    check_numbers strip_by drop_while rstrip_by
detected = refl

detect_cluster-IsConsistent_example : (two_nodes ≡ single_node) ⊎ IsConsistent two_nodes
detect_cluster-IsConsistent_example =
    detect_cluster-IsConsistent accepts auto_config node_environment two_nodes detected

abbrev fresh : Coordinator
fresh = coordinator 2 (codes "hash") (codes "a" ∷ [])

abbrev wanted : Coordinator
wanted = record fresh { desired = codes "a" ∷ []; generation = 1 }

abbrev poll : Json
poll = obj (
    field (codes "op") (str (codes "poll")) (
      field (codes "config_hash") (str (codes "hash")) (
        field (codes "rank") (int (pos 1))
          (field (codes "engines") (obj (field (codes "a") (str (codes "running")) end)) end))))

abbrev reported : Coordinator
reported = record wanted {
  reports =
      (1, record { rank = 1; last_seen = 7; engines = (codes "a", codes "running") ∷ [] }) ∷ [];
}

set_wanted : set_desired (codes "a" ∷ []) fresh ≡ ok wanted
unfolding set_desired contains all text_beq
set_wanted = refl

polled :
    process 7 poll wanted
    ≡ ok (record { generation = 1; desired = codes "a" ∷ []; shutdown = false }, reported)
unfolding process contains all text_beq get insert worker_engines
polled = refl

history : Steps fresh reported
history = Steps.next (Step.wants (codes "a" ∷ []) set_wanted) (
    Steps.next
      (Step.polls 7 poll (record { generation = 1; desired = codes "a" ∷ []; shutdown = false })
        polled)
      Steps.stay)

reachable-IsValid_example : IsValid reported
reachable-IsValid_example = reachable-IsValid 2 (codes "hash") (codes "a" ∷ []) reported history

Steps-IsAfter_example : IsAfter fresh reported
Steps-IsAfter_example = Steps-IsAfter fresh reported history

all_up : all_workers_running 10 15 (codes "a" ∷ []) reported ≡ true
unfolding all_workers_running contains all text_beq lookup
all_up = refl

all_workers_running_sound_example :
    ((1 ≤ 1) × (1 < 2)
      → (report : WorkerReport) × (lookup 1 reported.reports ≡ some report)
        × IsUp 10 15 (codes "a" ∷ []) report)
    × (contains (keys reported.reports) 1 ≡ true → (1 ≤ 1) × (1 < 2))
all_workers_running_sound_example =
    all_workers_running_sound 10 15 (codes "a" ∷ []) reported 1 all_up
