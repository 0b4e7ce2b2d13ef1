-- ===== src/Supervisor/State.antt =====
-- The state document of supervisor.py, and `StateStore` of state.py, which keeps and publishes it.
use yeetllm.Common.{
  ℕ, zero, suc, Bool, true, false, Option, none, some, List, [], ◌∷◌, text_eq, if◌then◌else◌,
}
use yeetllm.Common.Dict.{Dict}
use yeetllm.Common.Text.{Text, is_empty}
use yeetllm.Config.Types.{YeetConfig}
use yeetllm.Cluster.Detection.{ClusterInfo, is_primary}
use yeetllm.Registry.{Registry, EngineRecord}

-- The states that the supervisor writes, by name.
pub data EngineState : Type 0 where
  pending preparing starting ready running failed stopped : EngineState

pub data Phase : Type 0 where
  starting loading ready degraded stopping stopped : Phase

pub data ServiceState : Type 0 where
  pending disabled running failed : ServiceState

pub record EngineEntry : Type 0 where
  pub state : EngineState
  pub pid : Option ℕ
  pub error : Option Text
  pub updated_at : Option ℕ

pub record NodeEntry : Type 0 where
  pub is_worker : Bool
  pub rank : ℕ
  pub count : ℕ
  pub world_size : ℕ
  pub address : Text

pub record SupervisorEntry : Type 0 where
  pub pid : ℕ
  pub phase : Phase
  pub started_at : ℕ
  pub heartbeat : Option ℕ

pub record RouterEntry : Type 0 where
  pub enabled : Bool
  pub state : ServiceState
  pub pid : Option ℕ
  pub host : Text
  pub port : ℕ

pub record SshEntry : Type 0 where
  pub enabled : Bool
  pub state : ServiceState
  pub pid : Option ℕ
  pub port : ℕ
  pub key_source : Option Text

pub record ClusterEntry : Type 0 where
  pub enabled : Bool
  pub interface : Option Text
  pub primary_addr : Option Text
  pub control_port : Option ℕ
  pub desired : List Text

pub record Document : Type 0 where
  pub node : NodeEntry
  pub supervisor : SupervisorEntry
  pub registry : Registry
  pub engines : Dict Text EngineEntry
  pub router : RouterEntry
  pub ssh : SshEntry
  pub cluster : ClusterEntry

-- `data` is the document in memory; `published` is what the file holds.
pub record StateStore : Type 0 where
  pub document : Document
  pub published : Option Document

-- `write` replaces the file as a whole
abbrev pub write : StateStore → StateStore
write s = record s { published = some s.document }

abbrev pub beat : ℕ → Document → Document
beat now d = record d { supervisor = record d.supervisor { heartbeat = some now } }

unfoldable pub touch : ℕ → StateStore → StateStore
touch now s = write (record s { document = beat now s.document })

-- `initialize`, on a new store
unfoldable pub initialize : ℕ → Document → StateStore
unfolding touch
initialize now d = touch now (record { document = d; published = none })

abbrev pub pending_entry : EngineEntry
pending_entry = record { state = pending; pid = none; error = none; updated_at = none }

-- one entry for each engine of the registry
unfoldable pub pending_entries : Dict Text EngineRecord → Dict Text EngineEntry
pending_entries [] = []
pending_entries ((identifier, e) ∷ engines) = (identifier, pending_entry) ∷ pending_entries engines

-- `x or default` for a number, and `x or None` for a text
abbrev pub number_or : ℕ → ℕ → ℕ
number_or zero d = d
number_or (suc n) d = suc n

abbrev pub unless_blank : Text → Option Text
unless_blank s = if is_empty s then none else some s

abbrev pub when {ℓ} : {A : Type ℓ} → Bool → A → Option A
when true a = some a
when false a = none

-- the document of `_initialize_state`; `pid` is the supervisor's, `started` the time
unfoldable pub initial_document : ℕ → ℕ → ℕ → YeetConfig → ClusterInfo → Registry → Document
unfolding pending_entries
initial_document pid started gpu_count config cluster registry = record {
  node = record {
    is_worker = if is_primary cluster then false else true;
    rank = cluster.node_rank;
    count = cluster.node_count;
    world_size = number_or cluster.world_size gpu_count;
    address = cluster.node_addr;
  };
  supervisor = record { pid = pid; phase = starting; started_at = started; heartbeat = none };
  registry = registry;
  engines = pending_entries registry.engines;
  router = record {
    enabled = is_primary cluster;
    state = pending;
    pid = none;
    host = config.server.host;
    port = config.server.port;
  };
  ssh = record {
    enabled = false;
    state = disabled;
    pid = none;
    port = config.ssh.port;
    key_source = none;
  };
  cluster = record {
    enabled = cluster.enabled;
    interface = unless_blank cluster.interface;
    primary_addr = when cluster.enabled cluster.primary_addr;
    control_port = when cluster.enabled cluster.control_port;
    desired = [];
  };
}
