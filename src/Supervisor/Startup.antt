-- ===== src/Supervisor/Startup.antt =====
-- The start of the engines in supervisor.py: `_prepare_model`, `_launch_primary_engine`, and `_run_primary`
-- from the first batch to the phase that it sets. The tasks that `gather` runs together run one after
-- the other here: each writes the entries of its own engine only. `process.stop()` has no effect on
-- the state of the supervisor; it shows in the return codes that are read later.
pub mod Batches
pub mod Settling
pub mod Launches
pub mod Progress
pub mod Outcome
pub mod Waiting
use yeetllm.Common.{
  ℕ, zero, suc, Bool, true, false, not, ◌&&◌, Option, none, some, List, [], ◌∷◌, ◌++◌, leb, length,
  all, ◌==◌, nat_eq, text_eq, Result, ok, err, ◌>>=◌, if◌then◌else◌,
}
use yeetllm.Common.Dict.{Dict, keys, values, lookup, insert}
use yeetllm.Common.Json.{Fields}
use yeetllm.Common.Text.{Text, codes}
use yeetllm.Common.Text.Slices.{take, drop}
use yeetllm.Config.Types.{ModelConfig}
use yeetllm.Commands.{EngineLaunch, build_engine_launch}
use yeetllm.Cluster.Coordinator.{Coordinator, ProtocolError, WorkerReport}
use yeetllm.Processes.{ManagedProcess}
use yeetllm.Registry.{EngineRecord}
use yeetllm.Supervisor.State.{EngineEntry, Phase, preparing, starting, ready, degraded, touch}
use yeetllm.Supervisor.{
  Supervisor, touched, set_phase, engines, state_of, set_engine_state, mark_engine_failed,
  engine_process, is_ready, is_failed, desire, with_coordinator, sync_coordinator_desired,
}
use yeetllm.Supervisor.Monitor.{has_state}

-- What the start reads from outside. An exception is its text, or the name of its type. `path_of`
-- and `dumps` are those of `build_engine_launch`; `stopping` and `waited` are numbered by the batches.
pub record Surroundings : Type 0 where
  pub now : ℕ
  pub environ : Dict Text Text
  pub path_of : Text → Text
  pub dumps : Fields → Text
  pub resolve : ModelConfig → Result Text (Dict Text Text)
  pub spawn : ManagedProcess → Result Text ℕ
  pub waiting_raises : Text → Option Text
  pub stopping : ℕ → Bool
  pub waited : ℕ → Dict ℕ WorkerReport × Option Text

-- `enumerate(xs)`, from an index
unfoldable pub indexed {ℓ} : {A : Type ℓ} → ℕ → List A → List (ℕ × A)
indexed i [] = []
indexed i (x ∷ xs) = (i, x) ∷ indexed (suc i) xs

-- `chunked`, where the fuel is the number of values; each turn takes a value or more
unfoldable pub chunked {ℓ} : {A : Type ℓ} → ℕ → List A → ℕ → List (List A)
unfolding take drop
chunked zero xs size = []
chunked (suc fuel) [] size = []
chunked (suc fuel) (x ∷ xs) size = take size (x ∷ xs) ∷ chunked fuel (drop size (x ∷ xs)) size

-- A model and its index.
abbrev pub Slot : Type 0
Slot = ℕ × ModelConfig

-- `_prepare_model` up to its last line
unfoldable pub preparing_model : Surroundings → Slot → Supervisor → Supervisor
unfolding set_engine_state
preparing_model env (i, m) s = set_engine_state env.now m.id preparing none none s

-- the assignment to `adapter_paths`
abbrev pub with_paths : Text → Dict Text Text → Supervisor → Supervisor
with_paths id paths s = record s { adapter_paths = insert id paths s.adapter_paths }

unfoldable pub prepare_all : Surroundings → List Slot → Supervisor → Supervisor
unfolding preparing_model
prepare_all env [] s = s
prepare_all env (p ∷ ps) s = prepare_all env ps (preparing_model env p s)

-- the loop over the results: the supervisor, and the models that are prepared
unfoldable pub prepared : Surroundings → List Slot → Supervisor → Supervisor × List Slot
unfolding mark_engine_failed
prepared env [] s = (s, [])
prepared env ((i, m) ∷ ps) s = elim (env.resolve m) [
  | err message ↦ prepared env ps (mark_engine_failed env.now m.id message s)
  | ok paths ↦ let rest = prepared env ps (with_paths m.id paths s) in (rest.0, (i, m) ∷ rest.1)
]

abbrev pub with_process : Text → ManagedProcess → Supervisor → Supervisor
with_process name p s = record s { processes = insert name p s.processes }

abbrev pub paths_or_none : Option (Dict Text Text) → Dict Text Text
paths_or_none none = []
paths_or_none (some paths) = paths

-- the `ManagedProcess` of an engine, before `start`
abbrev pub engine_managed : Surroundings → Slot → EngineRecord → Supervisor → ManagedProcess
engine_managed env (i, m) e s =
    let launch : EngineLaunch =
      build_engine_launch env.path_of env.dumps env.environ m e.port s.cluster i
        (paths_or_none (lookup m.id s.adapter_paths)) in
    record {
      name = engine_process m.id;
      argv = launch.argv;
      env = launch.env;
      run_as_service_user = true;
      pid = none;
    }

-- `_launch_primary_engine` behind `start`
abbrev pub await_ready :
    Surroundings → Text → ℕ → Option Text → Supervisor → Supervisor × Option Text
await_ready env id pid none s = (set_engine_state env.now id ready (some pid) none s, none)
await_ready env id pid (some message) s = (s, some message)

-- `_launch_primary_engine` from `start` on
abbrev pub started :
    Surroundings → Text → ManagedProcess → Result Text ℕ → Supervisor → Supervisor × Option Text
started env id p (err message) s = (s, some message)
started env id p (ok pid) s = await_ready env id pid (env.waiting_raises id) (
    set_engine_state env.now id starting (some pid) none
      (with_process (engine_process id) (record p { pid = some pid }) s))

-- f"'{id}'", the text of a `KeyError`
abbrev pub key_error : Text → Text
key_error id = codes "'" ++ id ++ codes "'"

-- `_launch_primary_engine`: the supervisor, and the exception if one is raised
unfoldable pub launch_primary_engine : Surroundings → Slot → Supervisor → Supervisor × Option Text
unfolding set_engine_state build_engine_launch
launch_primary_engine env (i, m) s = elim (lookup m.id s.registry.engines) [
  | none ↦ (s, some (key_error m.id))
  | some e ↦
      let p = engine_managed env (i, m) e s in
      started env m.id p (env.spawn p)
        (set_engine_state env.now m.id starting none none (with_process (engine_process m.id) p s))
]

abbrev pub raised : Text → Option Text → List (Text × Text) → List (Text × Text)
raised id none rest = rest
raised id (some message) rest = (id, message) ∷ rest

-- `gather` over the launches: the supervisor, and the engines that raised
unfoldable pub launch_all : Surroundings → List Slot → Supervisor → Supervisor × List (Text × Text)
unfolding launch_primary_engine
launch_all env [] s = (s, [])
launch_all env ((i, m) ∷ ps) s =
    let one = launch_primary_engine env (i, m) s in
    let rest = launch_all env ps one.0 in (rest.0, raised m.id one.1 rest.1)

-- `_mark_engine_failed` for each
unfoldable pub mark_all : ℕ → List (Text × Text) → Supervisor → Supervisor
unfolding mark_engine_failed
mark_all now [] s = s
mark_all now ((id, message) ∷ rest) s = mark_all now rest (mark_engine_failed now id message s)

-- the engines up to an index that have not failed
unfoldable pub desired_up_to : ℕ → List Slot → Supervisor → List Text
desired_up_to last [] s = []
desired_up_to last ((i, m) ∷ ps) s =
    let rest = desired_up_to last ps s in
    if leb i last && not (has_state is_failed (state_of m.id s)) then m.id ∷ rest else rest

-- `max(ready_indices)` of indices that ascend
unfoldable pub last_index : ℕ → List Slot → ℕ
last_index i [] = i
last_index i ((j, m) ∷ ps) = last_index j ps

abbrev pub slots : Supervisor → List Slot
slots s = indexed 0 s.config.models

abbrev pub with_reports : Dict ℕ WorkerReport → Option Coordinator → Option Coordinator
with_reports reports none = none
with_reports reports (some c) = some (record c { reports = reports })

abbrev pub named : Text → List Slot → List (Text × Text)
named message [] = []
named message ((i, m) ∷ ps) = (m.id, message) ∷ named message ps

-- the launches of a batch, and what follows them
abbrev pub launch_batch : Surroundings → List Slot → Supervisor → Result ProtocolError Supervisor
launch_batch env ps s =
    let launched = launch_all env ps s in
    sync_coordinator_desired (mark_all env.now launched.1 launched.0)

-- a batch behind `wait_workers`, which may have raised
abbrev pub after_wait :
    Surroundings → List Slot → Option Text → Supervisor → Result ProtocolError Supervisor
after_wait env ps none s = launch_batch env ps s
after_wait env ps (some message) s =
    sync_coordinator_desired (mark_all env.now (named message ps) s)

-- with a coordinator, the prepared engines are desired before they are launched
abbrev pub serve_batch :
    Surroundings → ℕ → List Slot → Supervisor → Option Coordinator → Result ProtocolError Supervisor
serve_batch env n [] s c = launch_batch env [] s
serve_batch env n ((i, m) ∷ ps) s none = launch_batch env ((i, m) ∷ ps) s
serve_batch env n ((i, m) ∷ ps) s (some c) =
    desire (desired_up_to (last_index i ps) (slots s) s) (some c) >>= λ d.
    after_wait env ((i, m) ∷ ps) (env.waited n).1
      (with_coordinator (with_reports (env.waited n).0 d) s)

-- one turn of the loop over the batches
unfoldable pub run_batch :
    Surroundings → ℕ → List Slot → Supervisor → Result ProtocolError Supervisor
unfolding prepare_all prepared launch_all mark_all desired_up_to last_index indexed desire
    sync_coordinator_desired
run_batch env n batch s =
    let ready_batch = prepared env batch (prepare_all env batch s) in
    serve_batch env n ready_batch.1 ready_batch.0 ready_batch.0.coordinator

unfoldable pub run_batches :
    Surroundings → ℕ → List (List Slot) → Supervisor → Result ProtocolError Supervisor
unfolding run_batch
run_batches env n [] s = ok s
run_batches env n (batch ∷ batches) s =
    if env.stopping n
    then ok s
    else run_batch env n batch s >>= λ t. run_batches env (suc n) batches t

-- `all_ready`
abbrev pub all_ready : Supervisor → Bool
all_ready s = all (λ (e : EngineEntry). is_ready e.state) (values (engines s))

-- the phase behind the loop; `stopping` is the stop event's last reading
unfoldable pub settle_phase : ℕ → Bool → Supervisor → Supervisor
unfolding all
settle_phase now stopping s =
    touched now (set_phase (if all_ready s && not stopping then ready else degraded) s)

-- `_run_primary`, from the first batch to the monitor
unfoldable pub start_engines : Surroundings → Bool → Supervisor → Result ProtocolError Supervisor
unfolding chunked indexed run_batches settle_phase
start_engines env stopping s =
    run_batches env 0 (chunked (length (slots s)) (slots s) s.config.parallelism) s >>= λ t.
    ok (settle_phase env.now stopping t)
