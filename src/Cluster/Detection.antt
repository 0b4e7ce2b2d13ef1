-- ===== src/Cluster/Detection.antt =====
-- `detect_cluster` and `cluster_environment` of cluster.py, and the integers they read.
use yeetllm.Common.{
  ℕ, zero, suc, ◌+◌, ◌*◌, Bool, true, false, not, ◌&&◌, Option, none, some, List, [], ◌∷◌, ◌++◌,
  leb, ltb, ◌==◌, nat_eq, text_eq, any, keep, Result, ok, err, ◌>>=◌, ◌>>◌, raise_if, if◌then◌else◌,
}
use yeetllm.Common.Dict.{Dict, lookup, is_some}
use yeetllm.Common.Text.{Text, codes}
use yeetllm.Common.Text.Decimal.{decimal}
use yeetllm.Common.Text.Parsing.{int_of}
use yeetllm.Common.Int.{ℤ, pos, negsuc}
use yeetllm.Config.Types.{ClusterConfig, ClusterMode, off, auto, runpod}

-- `RUNPOD_CLUSTER_KEYS`, sorted
abbrev pub cluster_keys : List Text
cluster_keys =
    codes "HOST_NODE_ADDR"
    ∷ codes "MASTER_ADDR"
    ∷ codes "MASTER_PORT"
    ∷ codes "NODE_ADDR"
    ∷ codes "NODE_RANK"
    ∷ codes "NUM_NODES"
    ∷ codes "NUM_TRAINERS"
    ∷ codes "PRIMARY_ADDR"
    ∷ codes "PRIMARY_PORT"
    ∷ codes "WORLD_SIZE"
    ∷ []

pub data Role : Type 0 where
  primary worker : Role

pub record ClusterInfo : Type 0 where
  pub enabled : Bool
  pub role : Role
  pub node_rank : ℕ
  pub node_count : ℕ
  pub trainers_per_node : ℕ
  pub world_size : ℕ
  pub primary_addr : Text
  pub node_addr : Text
  pub control_port : ℕ
  pub rendezvous_port_base : ℕ
  pub interface : Text

-- `ClusterInfo(enabled=False, role="primary")`
abbrev pub single_node : ClusterInfo
single_node = record {
  enabled = false;
  role = primary;
  node_rank = 0;
  node_count = 1;
  trainers_per_node = 0;
  world_size = 0;
  primary_addr = codes "127.0.0.1";
  node_addr = codes "127.0.0.1";
  control_port = 0;
  rendezvous_port_base = 0;
  interface = [];
}

-- the property `primary`
abbrev pub is_primary : ClusterInfo → Bool
is_primary info = info.node_rank == 0

-- The `RuntimeValidationError`s, by message.
pub data ClusterError : Type 0 where
  variables_absent : ClusterError
  partial_environment : List Text → ClusterError
  addresses_disagree ports_disagree : ClusterError
  not_an_integer negative_integer not_positive : Text → ClusterError
  rank_out_of_range primary_is_not_node wrong_world_size : ClusterError
  wrong_host : Text → ClusterError
  management_interface : ClusterError
  bad_interface : Text → ClusterError
  rendezvous_exceeded rendezvous_range_exceeded control_overlap : ClusterError
  port_taken : ℕ → Text → ClusterError

-- `source[name]`; every key that is read has been found
abbrev pub found : Option Text → Text
found none = []
found (some s) = s

unfoldable pub at : Dict Text Text → Text → Text
at env name = found (lookup name env)

abbrev pub nonnegative : Text → Option ℤ → Result ClusterError ℕ
nonnegative name none = err (not_an_integer name)
nonnegative name (some (pos n)) = ok n
nonnegative name (some (negsuc n)) = err (negative_integer name)

unfoldable pub parse_nonnegative_int : Dict Text Text → Text → Result ClusterError ℕ
unfolding at int_of
parse_nonnegative_int env name = nonnegative name (int_of (at env name))

abbrev pub exceeds : ℕ → Option ℕ → Bool
exceeds value none = false
exceeds value (some maximum) = ltb maximum value

unfoldable pub parse_positive_int : Dict Text Text → Text → Option ℕ → Result ClusterError ℕ
unfolding parse_nonnegative_int
parse_positive_int env name maximum = parse_nonnegative_int env name >>= λ value.
    if ltb value 1
    then err (not_positive name)
    else if exceeds value maximum
    then err (not_positive name)
    else ok value

-- `value or default`, where 0 is no value
abbrev pub or_default : Option ℕ → ℕ → ℕ
or_default none d = d
or_default (some zero) d = d
or_default (some (suc n)) d = suc n

-- the integers of the environment
pub record Numbers : Type 0 where
  pub primary_port : ℕ
  pub node_rank : ℕ
  pub node_count : ℕ
  pub trainers : ℕ
  pub world_size : ℕ

unfoldable pub read_numbers : Dict Text Text → Result ClusterError Numbers
unfolding parse_positive_int parse_nonnegative_int
read_numbers env = parse_positive_int env (codes "PRIMARY_PORT") (some 65535) >>= λ primary_port.
    parse_nonnegative_int env (codes "NODE_RANK") >>= λ node_rank.
    parse_positive_int env (codes "NUM_NODES") none >>= λ node_count.
    parse_positive_int env (codes "NUM_TRAINERS") none >>= λ trainers.
    parse_positive_int env (codes "WORLD_SIZE") none >>= λ world_size. ok (record {
      primary_port = primary_port;
      node_rank = node_rank;
      node_count = node_count;
      trainers = trainers;
      world_size = world_size;
    })

-- the checks that follow the integers
unfoldable pub check_numbers : Dict Text Text → Numbers → Result ClusterError (Unit {0})
unfolding at
check_numbers env n =
    raise_if (leb n.node_count n.node_rank) rank_out_of_range
    >> raise_if
        (n.node_rank == 0 && not (at env (codes "PRIMARY_ADDR") == at env (codes "NODE_ADDR")))
        primary_is_not_node
    >> raise_if (not (n.world_size == n.node_count * n.trainers)) wrong_world_size
    >> raise_if
        (not (
          at env (codes "HOST_NODE_ADDR")
          == at env (codes "PRIMARY_ADDR") ++ codes ":" ++ decimal n.primary_port))
        (wrong_host (at env (codes "PRIMARY_ADDR") ++ codes ":" ++ decimal n.primary_port))

abbrev pub cluster_info : ClusterConfig → Dict Text Text → Numbers → ClusterInfo
cluster_info config env n = record {
  enabled = true;
  role = if n.node_rank == 0 then primary else worker;
  node_rank = n.node_rank;
  node_count = n.node_count;
  trainers_per_node = n.trainers;
  world_size = n.world_size;
  primary_addr = at env (codes "PRIMARY_ADDR");
  node_addr = at env (codes "NODE_ADDR");
  control_port = or_default config.control_port n.primary_port;
  rendezvous_port_base = or_default config.rendezvous_port_base (n.primary_port + 1);
  interface = config.nccl_socket_ifname;
}

abbrev pub is_auto : ClusterMode → Bool
is_auto auto = true
is_auto _ = false

-- the checks of the variables before any is read as an integer
unfoldable pub check_variables : Dict Text Text → Result ClusterError (Unit {0})
unfolding any keep at
check_variables env =
    raise_if (any (λ key. not (is_some (lookup key env))) cluster_keys)
      (partial_environment (keep (λ key. not (is_some (lookup key env))) cluster_keys))
    >> raise_if (not (at env (codes "PRIMARY_ADDR") == at env (codes "MASTER_ADDR")))
        addresses_disagree
    >> raise_if (not (at env (codes "PRIMARY_PORT") == at env (codes "MASTER_PORT"))) ports_disagree

-- `verify_address_on_interface`, which asks the system, is the argument `verify`; without
-- `verify_interface` it is the function that accepts all
module _ (verify : Text → Text → Result ClusterError (Unit {0})) where
  abbrev pub check_interface : ClusterConfig → Dict Text Text → Result ClusterError (Unit {0})
  check_interface config env =
      raise_if (config.nccl_socket_ifname == codes "eth0") management_interface
      >> verify (at env (codes "NODE_ADDR")) config.nccl_socket_ifname

  abbrev pub bounded : ClusterInfo → Result ClusterError ClusterInfo
  bounded info = if ltb 65535 info.rendezvous_port_base then err rendezvous_exceeded else ok info

  -- one node under `auto` is no cluster
  abbrev pub enable : ClusterConfig → Dict Text Text → Numbers → Result ClusterError ClusterInfo
  enable config env n =
      if n.node_count == 1 && is_auto config.mode
      then ok single_node
      else check_interface config env >> bounded (cluster_info config env n)

  abbrev pub detect_checked : ClusterConfig → Dict Text Text → Result ClusterError ClusterInfo
  detect_checked config env = read_numbers env >>= λ n. check_numbers env n >> enable config env n

  abbrev pub detect_present : ClusterConfig → Dict Text Text → Result ClusterError ClusterInfo
  detect_present config env = check_variables env >> detect_checked config env

  -- by the mode, and whether any variable is present
  abbrev pub detect_by :
      ClusterMode → Bool → ClusterConfig → Dict Text Text → Result ClusterError ClusterInfo
  detect_by off present config env = ok single_node
  detect_by runpod false config env = err variables_absent
  detect_by auto false config env = ok single_node
  detect_by mode true config env = detect_present config env

  unfoldable pub detect_cluster : ClusterConfig → Dict Text Text → Result ClusterError ClusterInfo
  unfolding any
  detect_cluster config env =
      detect_by config.mode (any (λ key. is_some (lookup key env)) cluster_keys) config env

unfoldable pub cluster_environment : ClusterInfo → Dict Text Text
cluster_environment info =
    if info.enabled
    then (codes "NCCL_SOCKET_IFNAME", info.interface)
      ∷ (codes "GLOO_SOCKET_IFNAME", info.interface)
      ∷ (codes "VLLM_HOST_IP", info.node_addr)
      ∷ []
    else []
