-- ===== src/Supervisor/Worker.antt =====
-- `_run_worker` and `_launch_worker_engine` of supervisor.py, and the message of `poll_coordinator` of
-- cluster.py. A round of the loop is one call; `process.stop()` shows in the return codes that are
-- read later, and the launches that `gather` runs together run one after the other.
pub mod Polling
pub mod Tracking
pub mod Following
pub mod Rounds
pub mod Disconnects
use yeetllm.Common.{
  ℕ, zero, suc, ◌-◌, Bool, true, false, not, ◌&&◌, ◌||◌, Option, none, some, List, [], ◌∷◌, ◌++◌,
  keep, any, all, contains, leb, ◌==◌, nat_eq, text_eq, Result, ok, err, if◌then◌else◌,
}
use yeetllm.Common.Dict.{Dict, keys, values, lookup, insert, remove}
use yeetllm.Common.Int.{ℤ, pos}
use yeetllm.Common.Json.{Json, Fields, int, str, obj, field, end}
use yeetllm.Common.Text.{Text, codes}
use yeetllm.Config.Types.{ModelConfig}
use yeetllm.Commands.{EngineLaunch, build_engine_launch}
use yeetllm.Cluster.Coordinator.{Response}
use yeetllm.Processes.{ManagedProcess, Exits, returncode}
use yeetllm.Registry.{EngineRecord}
use yeetllm.Supervisor.State.{
  EngineState, Phase, preparing, starting, ready, running, failed, stopped, degraded, touch,
}
use yeetllm.Supervisor.{
  Supervisor, with_document, touched, set_phase, set_engine_state, mark_engine_failed,
  engine_process,
}
use yeetllm.Supervisor.Monitor.{is_up, has_stopped, exit_status, process_of, status_text}
use yeetllm.Supervisor.Startup.{Slot, slots, indexed, with_process, key_error}

-- The local variables of `_run_worker` beside the supervisor.
pub record Worker : Type 0 where
  pub supervisor : Supervisor
  pub engine_states : Dict Text Text
  pub disconnected_since : Option ℕ
  pub connected_once : Bool
  pub failure : Bool

-- What a round reads from outside. `stopping` is whether the stop event is set at its start, and `clock`
-- the monotonic clock, in seconds; `exits` is read at the start of the round and `later_exits` after a
-- launch. An exception is its text, or its type's name.
pub record WorkerLook : Type 0 where
  pub stopping : Bool
  pub now : ℕ
  pub clock : ℕ
  pub exits : Exits
  pub later_exits : Exits
  pub poll : Dict Text Text → Result Text Response
  pub environ : Dict Text Text
  pub path_of : Text → Text
  pub dumps : Fields → Text
  pub resolve : ModelConfig → Result Text (Dict Text Text)
  pub spawn : ManagedProcess → Result Text ℕ

-- A round goes on to the next one, or it leaves the loop.
pub data Turn : Type 0 where
  again : Worker → Turn
  leave : Worker → Turn

abbrev pub run_state : Text
run_state = codes "running"

abbrev pub fail_state : Text
fail_state = codes "failed"

abbrev pub headless_exited : Exits → Option ManagedProcess → Text
headless_exited exits p =
    codes "headless process exited with status " ++ status_text (exit_status exits p)

-- one turn of the loop over the engines whose process may have exited
unfoldable pub note_exit : WorkerLook → Text → Text → Worker → Worker
unfolding set_engine_state insert
note_exit look id status w =
    let p = process_of id w.supervisor in
    if has_stopped look.exits p && not (status == fail_state)
    then record w {
      engine_states = insert id fail_state w.engine_states;
      supervisor =
          set_engine_state look.now id failed none (some (headless_exited look.exits p))
            w.supervisor;
      failure = true;
    }
    else w

unfoldable pub note_exits : WorkerLook → Dict Text Text → Worker → Worker
unfolding note_exit
note_exits look [] w = w
note_exits look ((id, status) ∷ rest) w = note_exits look rest (note_exit look id status w)

abbrev pub disconnect_limit : Worker → ℕ
disconnect_limit w = if w.connected_once then 60 else w.supervisor.config.cluster.startup_timeout

-- the `except` branch, with the time since when the worker is disconnected
abbrev pub disconnected : ℕ → Worker → Option ℕ → Turn
disconnected clock w none = again (record w { disconnected_since = some clock })
disconnected clock w (some since) =
    if leb (disconnect_limit w) (clock - since)
    then leave (record w { failure = true })
    else again w

abbrev pub with_desired : List Text → Supervisor → Supervisor
with_desired desired =
    with_document (λ d. record d { cluster = record d.cluster { desired = desired } })

abbrev pub without_process : Text → Supervisor → Supervisor
without_process name s = record s { processes = remove name s.processes }

-- the engines that are no longer desired
unfoldable pub stop_removed : ℕ → List Text → Worker → Worker
unfolding set_engine_state remove
stop_removed now [] w = w
stop_removed now (id ∷ ids) w = stop_removed now ids (record w {
  engine_states = remove id w.engine_states;
  supervisor =
      set_engine_state now id stopped none none (without_process (engine_process id) w.supervisor);
})

-- the models that are desired and have no state
unfoldable pub new_slots : List Text → Dict Text Text → List Slot → List Slot
unfolding contains
new_slots desired states [] = []
new_slots desired states ((i, m) ∷ ps) =
    let rest = new_slots desired states ps in
    if contains desired m.id && not (contains (keys states) m.id) then (i, m) ∷ rest else rest

abbrev pub headless_managed :
    WorkerLook → Slot → EngineRecord → Dict Text Text → Supervisor → ManagedProcess
headless_managed look (i, m) e paths s =
    let launch : EngineLaunch =
      build_engine_launch look.path_of look.dumps look.environ m e.port s.cluster i paths in
    record {
      name = engine_process m.id;
      argv = launch.argv;
      env = launch.env;
      run_as_service_user = true;
      pid = none;
    }

-- `_launch_worker_engine` from `start` on
abbrev pub headless_started :
    WorkerLook → Text → ManagedProcess → Result Text ℕ → Supervisor → Supervisor × Option Text
headless_started look id p (err message) s = (s, some message)
headless_started look id p (ok pid) s =
    let q : ManagedProcess = record p { pid = some pid } in
    let t = with_process (engine_process id) q s in
    if is_up look.later_exits (some q)
    then (set_engine_state look.now id running (some pid) none t, none)
    else (t, some (headless_exited look.later_exits (some q)))

abbrev pub headless_launched :
    WorkerLook → Slot → Dict Text Text → Option EngineRecord → Supervisor → Supervisor × Option Text
headless_launched look (i, m) paths none s = (s, some (key_error m.id))
headless_launched look (i, m) paths (some e) s =
    let p = headless_managed look (i, m) e paths s in
    headless_started look m.id p (look.spawn p)
      (set_engine_state look.now m.id starting none none (with_process (engine_process m.id) p s))

abbrev pub headless_prepared :
    WorkerLook → Slot → Result Text (Dict Text Text) → Supervisor → Supervisor × Option Text
headless_prepared look (i, m) (err message) s = (s, some message)
headless_prepared look (i, m) (ok paths) s =
    headless_launched look (i, m) paths (lookup m.id s.registry.engines) s

-- `_launch_worker_engine`: the supervisor, and the exception if one is raised
unfoldable pub launch_worker_engine : WorkerLook → Slot → Supervisor → Supervisor × Option Text
unfolding set_engine_state build_engine_launch
launch_worker_engine look (i, m) s =
    headless_prepared look (i, m) (look.resolve m)
      (set_engine_state look.now m.id preparing none none s)

-- `gather` over the launches
unfoldable pub launch_workers :
    WorkerLook → List Slot → Supervisor → Supervisor × List (Text × Option Text)
unfolding launch_worker_engine
launch_workers look [] s = (s, [])
launch_workers look ((i, m) ∷ ps) s =
    let one = launch_worker_engine look (i, m) s in
    let rest = launch_workers look ps one.0 in (rest.0, (m.id, one.1) ∷ rest.1)

-- the loop over the results
unfoldable pub note_results : ℕ → List (Text × Option Text) → Worker → Worker
unfolding mark_engine_failed insert
note_results now [] w = w
note_results now ((id, none) ∷ rest) w =
    note_results now rest (record w { engine_states = insert id run_state w.engine_states })
note_results now ((id, some message) ∷ rest) w = note_results now rest (record w {
  engine_states = insert id fail_state w.engine_states;
  supervisor = mark_engine_failed now id message w.supervisor;
  failure = true;
})

abbrev pub is_running_text : Text → Bool
is_running_text s = s == run_state

abbrev pub is_failed_text : Text → Bool
is_failed_text s = s == fail_state

abbrev pub no_values : List Text → Bool
no_values [] = true
no_values (v ∷ vs) = false

-- the phase at the end of a round
abbrev pub worker_phase : List Text → Phase → Phase
worker_phase active phase =
    if not (no_values active) && all is_running_text active
    then ready
    else if any is_failed_text active
    then degraded
    else phase

-- a round whose poll was answered, from `desired` on
unfoldable pub follow : WorkerLook → List Text → Worker → Worker
unfolding stop_removed new_slots launch_workers note_results keep any all
follow look desired w =
    let gone = keep (λ id. not (contains desired id)) (keys w.engine_states) in
    let kept =
      stop_removed look.now gone (record w { supervisor = with_desired desired w.supervisor }) in
    let fresh = new_slots desired kept.engine_states (slots kept.supervisor) in
    let launched = launch_workers look fresh kept.supervisor in
    let noted = note_results look.now launched.1 (record kept { supervisor = launched.0 }) in
    let phase =
      worker_phase (values noted.engine_states) noted.supervisor.store.document.supervisor.phase in
    record noted { supervisor = touched look.now (set_phase phase noted.supervisor) }

abbrev pub on_response : WorkerLook → Response → Worker → Turn
on_response look response w =
    let connected : Worker = record w { disconnected_since = none; connected_once = true } in
    if response.shutdown then leave connected else again (follow look response.desired connected)

abbrev pub on_poll : WorkerLook → Result Text Response → Worker → Turn
on_poll look (err message) w = disconnected look.clock w w.disconnected_since
on_poll look (ok response) w = on_response look response w

-- One round of `_run_worker`.
unfoldable pub worker_round : WorkerLook → Worker → Turn
unfolding note_exits follow
worker_round look w =
    let noted = note_exits look w.engine_states w in
    on_poll look (look.poll noted.engine_states) noted

abbrev pub next_turn : Option Worker → Turn → Option Worker
next_turn rest (again w) = rest
next_turn rest (leave w) = some w

abbrev pub going_on : Worker → Turn → Worker
going_on w (again w') = w'
going_on w (leave w') = w

-- The loop, from a round on: a stop request leaves it before the round. `none` is a loop that has not
-- been left within the fuel.
unfoldable pub worker_run : ℕ → (ℕ → WorkerLook) → ℕ → Worker → Option Worker
unfolding worker_round
worker_run zero looks k w = none
worker_run (suc fuel) looks k w =
    let turn = worker_round (looks k) w in
    let rest = next_turn (worker_run fuel looks (suc k) (going_on w turn)) turn in
    if (looks k).stopping then some w else rest

-- The variables at the start, and the exit code.
abbrev pub new_worker : Supervisor → Worker
new_worker s = record {
  supervisor = s;
  engine_states = [];
  disconnected_since = none;
  connected_once = false;
  failure = false;
}

abbrev pub worker_exit : Worker → ℕ
worker_exit w = if w.failure then 1 else 0

-- the engines of the payload, as JSON
abbrev pub states_json : Dict Text Text → Fields
states_json [] = end
states_json ((id, state) ∷ d) = field id (str state) (states_json d)

-- the payload of `poll_coordinator`
unfoldable pub payload : ℕ → Text → Dict Text Text → Json
payload node_rank config_hash engines = obj (
    field (codes "op") (str (codes "poll")) (
      field (codes "rank") (int (pos node_rank)) (
        field (codes "config_hash") (str config_hash)
          (field (codes "engines") (obj (states_json engines)) end))))
