-- ===== src/Tests/Supervising.antt =====
-- A primary with two engines: its start, a round of its monitor, and the health check.
use yeetllm.Common.{
  ℕ, ◌+◌, ◌≡◌, ◌↔◌, refl, arith, true, false, none, some, [], ◌∷◌, IsDistinct, contains, text_eq,
  text_beq, Result, ok,
}
use yeetllm.Common.Int.{pos}
use yeetllm.Common.Dict.{Dict, keys, lookup}
use yeetllm.Common.Json.{Json, str, arr, obj, item, done, field, end}
use yeetllm.Common.Text.{Text, codes}
use yeetllm.Config.Types.{ModelConfig}
use yeetllm.Cluster.Detection.{single_node}
use yeetllm.Processes.{ManagedProcess, running}
use yeetllm.Registry.{Registry, engine_record}
use yeetllm.Supervisor.State.{
  Document, EngineEntry, EngineState, Phase, ServiceState, ready, failed, touch,
}
use yeetllm.Supervisor.{
  Supervisor, phase, touched, state_of, sync_coordinator_desired, desire, in_state,
}
use yeetllm.Supervisor.Engines.{IsWired}
use yeetllm.Supervisor.Monitor.{
  Look, status, process_of, has_stopped, fail_if_exited, check_engine, check_engines, unhealthy,
  fail_unhealthy, check_probes, check_router, check_ssh, check_workers, checks, monitor_round,
}
use yeetllm.Supervisor.Monitor.Health.{IsHealthy, monitor_round-ready}
use yeetllm.Supervisor.Monitor.Falls.{Falls, monitor_round-Falls, monitor_round-exited}
use yeetllm.Supervisor.Startup.{Surroundings, start_engines}
use yeetllm.Supervisor.Startup.Outcome.{IsStarted}
use yeetllm.Supervisor.Startup.Waiting.{
  ReadyLook, WaitError, answered, wait_engine_ready, IsServing,
}
use yeetllm.Supervisor.Startup.Waiting.Ends.{wait_engine_ready-ends}
use yeetllm.Healthcheck.{Host, check}
use yeetllm.Healthcheck
use yeetllm.Healthcheck.Passing.{IsPassing, check-IsPassing}
use yeetllm.Healthcheck.Monitored.{check-monitor_round}
use yeetllm.Config.Global.{validate_global_ids_and_gpus}
use yeetllm.Config.Ownership.{all_gpus, validate_global_iff}
use yeetllm.Supervisor.Boot.{Node}
use yeetllm.Supervisor.Boot.Wiring.{booted, booted-IsStarted}
use yeetllm.Tests.Routing.{two_registry, built}
use yeetllm.Tests.Configs.{model_a, model_b, two_models, two_models-some, two_models-IsDistinct}

abbrev demo_registry : Registry
demo_registry = record {
  engines = (codes "a", engine_record model_a 8100) ∷ (codes "b", engine_record model_b 8101) ∷ [];
  models = [];
  created = 1;
}

abbrev entry_in : EngineState → EngineEntry
entry_in state = record { state = state; pid = some 7; error = none; updated_at = none }

abbrev document_in : EngineState → Phase → Document
document_in state phase = record {
  node = record {
    is_worker = false;
    rank = 0;
    count = 1;
    world_size = 2;
    address = codes "127.0.0.1";
  };
  supervisor = record { pid = 1; phase = phase; started_at = 900; heartbeat = some 990 };
  registry = demo_registry;
  engines = (codes "a", entry_in state) ∷ (codes "b", entry_in state) ∷ [];
  router = record {
    enabled = true;
    state = ServiceState.running;
    pid = some 5;
    host = codes "127.0.0.1";
    port = 8000;
  };
  ssh = record {
    enabled = false;
    state = ServiceState.disabled;
    pid = none;
    port = 22;
    key_source = none;
  };
  cluster = record {
    enabled = false;
    interface = none;
    primary_addr = none;
    control_port = none;
    desired = [];
  };
}

abbrev process_named : Text → Text × ManagedProcess
process_named name =
    (name, record { name = name; argv = []; env = []; run_as_service_user = true; pid = some 7 })

abbrev pub supervisor_in : EngineState → Phase → Supervisor
supervisor_in state phase = record {
  config = two_models;
  cluster = single_node;
  registry = demo_registry;
  store = record { document = document_in state phase; published = none };
  processes =
      process_named (codes "router")
      ∷ process_named (codes "engine:a")
      ∷ process_named (codes "engine:b")
      ∷ [];
  coordinator = none;
  adapter_paths = [];
  had_failure = false;
}

demo-IsDistinct : IsDistinct (keys demo_registry.engines)
unfolding contains text_beq
demo-IsDistinct = (refl, (refl, tt))

demo-IsWired : (state : EngineState) (phase : Phase) → IsWired (supervisor_in state phase)
demo-IsWired state phase = record { listed = refl; distinct = demo-IsDistinct; known = tt }

-- The start, where the process of an engine comes up and the other's adapters do not resolve.
abbrev resolve_all : ModelConfig → Result Text (Dict Text Text)
resolve_all m = ok []

abbrev demo_surroundings : Surroundings
demo_surroundings = record {
  now = 1000;
  environ = [];
  path_of = λ s. s;
  dumps = λ fs. [];
  resolve = resolve_all;
  spawn = λ p. ok 7;
  waiting_raises = λ id. none;
  stopping = λ n. false;
  waited = λ n. ([], none);
}

demo_passes : validate_global_ids_and_gpus two_models ≡ ok two_models
unfolding all_gpus contains
demo_passes =
    (validate_global_iff two_models).1 (two_models-some, two_models-IsDistinct, (refl, (refl, tt)))

abbrev demo_node : Node
demo_node = record { pid = 1; started = 900; now = 901; gpu_count = 2 }

booted-IsStarted_example :
    (s' : Supervisor) × (start_engines demo_surroundings false
        (booted demo_node [] two_models single_node two_registry)
      ≡ ok s')
    × IsStarted s'
booted-IsStarted_example =
    booted-IsStarted demo_node [] two_models single_node two_registry 8100 1 demo_surroundings
      demo_passes built (omega arith) (λ n. refl)

abbrev demo_catalogue : Json
demo_catalogue =
    obj
      (field (codes "data") (arr (item (obj (field (codes "id") (str (codes "a")) end)) done)) end)

abbrev demo_looks : ℕ → ReadyLook
demo_looks k = record {
  stopping = false;
  running = true;
  returncode = none;
  clock = 50 + k;
  requests = answered 200 200 (some demo_catalogue);
}

wait_engine_ready-ends_example :
    (end : Result WaitError (Unit {0})) × (wait_engine_ready (codes "a" ∷ []) 50 3 demo_looks
      ≡ some end)
    × (end ≡ ok tt → (k : ℕ) × IsServing (codes "a" ∷ []) (50 + 3) (demo_looks k))
wait_engine_ready-ends_example =
    wait_engine_ready-ends (codes "a" ∷ []) 50 3 demo_looks (λ k. omega arith)

-- A round of the monitor that finds all well, and one that finds every process stopped.
abbrev well : Look
well = record { now = 1000; exits = λ name. none; probe = λ id. status 200 }

abbrev ill : Look
ill = record { now = 1000; exits = λ name. some (pos 1); probe = λ id. status 200 }

abbrev serving : Supervisor
serving = supervisor_in EngineState.ready Phase.ready

abbrev watched : Supervisor
watched = touched 1000 serving

watched_round : monitor_round well serving ≡ ok watched
unfolding monitor_round checks check_engines check_engine fail_if_exited check_probes unhealthy
    fail_unhealthy check_router check_ssh check_workers sync_coordinator_desired desire in_state
    lookup text_beq running touch
watched_round = refl

monitor_round-ready_example :
    (phase watched ≡ ready) ↔ ((phase serving ≡ ready) × IsHealthy well serving)
monitor_round-ready_example =
    monitor_round-ready well serving watched (demo-IsWired EngineState.ready Phase.ready)
      watched_round

monitor_round-Falls_example :
    (s' : Supervisor) × (monitor_round ill serving ≡ ok s') × Falls serving s'
monitor_round-Falls_example =
    monitor_round-Falls ill serving (demo-IsWired EngineState.ready Phase.ready)

abbrev fallen : Supervisor
fallen = (monitor_round-Falls ill serving (demo-IsWired EngineState.ready Phase.ready)).0

fallen_round : monitor_round ill serving ≡ ok fallen
fallen_round = (monitor_round-Falls ill serving (demo-IsWired EngineState.ready Phase.ready)).1

known_a : contains (keys demo_registry.engines) (codes "a") ≡ true
unfolding contains text_beq
known_a = refl

stopped_a : has_stopped ill.exits (process_of (codes "a") serving) ≡ true
unfolding lookup text_beq running
stopped_a = refl

monitor_round-exited_example : state_of (codes "a") fallen ≡ some failed
monitor_round-exited_example =
    monitor_round-exited ill serving fallen (codes "a") (demo-IsWired EngineState.ready Phase.ready)
      fallen_round known_a stopped_a

-- The health check of what the good round has published.
abbrev demo_host : Host
demo_host = record {
  now = 1005;
  exists = λ pid. true;
  readiness = λ host port. some 200;
  sshd_accepts = λ port. true;
}

check-IsPassing_example :
    (check demo_host (some (document_in EngineState.ready Phase.ready)) ≡ [])
    ↔ IsPassing demo_host (document_in EngineState.ready Phase.ready)
check-IsPassing_example = check-IsPassing demo_host (document_in EngineState.ready Phase.ready) refl

published_well : check demo_host watched.store.published ≡ []
unfolding check Healthcheck.check_supervisor Healthcheck.require_process Healthcheck.check_router
    Healthcheck.check_engines Healthcheck.check_ssh touch
published_well = refl

watched_primary : watched.store.document.node.is_worker ≡ false
unfolding touch
watched_primary = refl

check-monitor_round_example : (phase serving ≡ ready) × IsHealthy well serving
check-monitor_round_example =
    check-monitor_round demo_host well serving watched (demo-IsWired EngineState.ready Phase.ready)
      watched_round watched_primary published_well
