-- ===== src/Supervisor.antt =====
-- supervisor.py: the supervisor's state, and the operations that its parts share. A call that reads
-- the clock is given what it reads; `now` is one reading for all the writes of a call.
pub mod State
pub mod Engines
pub mod Monitor
pub mod Startup
pub mod Worker
pub mod Boot
pub mod Validation
use yeetllm.Common.{
  ℕ, Bool, true, false, Option, none, some, List, [], ◌∷◌, ◌++◌, text_eq, Result, ok, err, ◌>>=◌,
  if◌then◌else◌,
}
use yeetllm.Common.Dict.{Dict, keys, lookup, insert, adjust, map_some}
use yeetllm.Common.Text.{Text, codes}
use yeetllm.Config.Types.{YeetConfig}
use yeetllm.Cluster.Detection.{ClusterInfo}
use yeetllm.Cluster.Coordinator.{Coordinator, ProtocolError, set_desired}
use yeetllm.Processes.{ManagedProcess}
use yeetllm.Registry.{Registry, EngineRecord}
use yeetllm.Supervisor.State.{
  EngineState, EngineEntry, Phase, Document, StateStore, touch, pending, preparing, starting, ready,
  running, failed, stopped,
}

pub record Supervisor : Type 0 where
  pub config : YeetConfig
  pub cluster : ClusterInfo
  pub registry : Registry
  pub store : StateStore
  pub processes : Dict Text ManagedProcess
  pub coordinator : Option Coordinator
  pub adapter_paths : Dict Text (Dict Text Text)
  pub had_failure : Bool

-- `self.state.data`, changed in place
abbrev pub with_document : (Document → Document) → Supervisor → Supervisor
with_document f s = record s { store = record s.store { document = f s.store.document } }

-- `self.state.touch()`
abbrev pub touched : ℕ → Supervisor → Supervisor
touched now s = record s { store = touch now s.store }

abbrev pub set_phase : Phase → Supervisor → Supervisor
set_phase phase =
    with_document (λ d. record d { supervisor = record d.supervisor { phase = phase } })

abbrev pub engines : Supervisor → Dict Text EngineEntry
engines s = s.store.document.engines

abbrev pub phase : Supervisor → Phase
phase s = s.store.document.supervisor.phase

abbrev pub entry_state : Option EngineEntry → Option EngineState
entry_state = map_some (λ (e : EngineEntry). e.state)

-- the state of an engine in the document
abbrev pub state_of : Text → Supervisor → Option EngineState
state_of identifier s = entry_state (lookup identifier (engines s))

abbrev pub or_else {ℓ} : {A : Type ℓ} → Option A → Option A → Option A
or_else none o = o
or_else (some a) o = some a

abbrev pub entry_with : ℕ → EngineState → Option ℕ → Option Text → EngineEntry → EngineEntry
entry_with now state pid error e = record {
  state = state;
  pid = or_else pid e.pid;
  error = error;
  updated_at = some now;
}

-- `_set_engine_state`; its callers name engines of the document
unfoldable pub set_engine_state :
    ℕ → Text → EngineState → Option ℕ → Option Text → Supervisor → Supervisor
unfolding adjust
set_engine_state now identifier state pid error s = touched now (
    with_document
      (λ d. record d { engines = adjust identifier (entry_with now state pid error) d.engines }) s)

-- `_mark_engine_failed`; `message` is the exception's text, or the name of its type
unfoldable pub mark_engine_failed : ℕ → Text → Text → Supervisor → Supervisor
unfolding set_engine_state
mark_engine_failed now identifier message s =
    record (set_engine_state now identifier failed none (some message) s) { had_failure = true }

-- f"engine:{identifier}"
abbrev pub engine_process : Text → Text
engine_process identifier = codes "engine:" ++ identifier

-- the identifiers of the entries whose state passes a test, in order
unfoldable pub in_state : (EngineState → Bool) → Dict Text EngineEntry → List Text
in_state test [] = []
in_state test ((identifier, e) ∷ d) =
    let rest = in_state test d in if test e.state then identifier ∷ rest else rest

abbrev pub is_ready : EngineState → Bool
is_ready ready = true
is_ready _ = false

abbrev pub is_failed : EngineState → Bool
is_failed failed = true
is_failed _ = false

-- `state in {"preparing", "starting", "ready"}`
abbrev pub is_wanted : EngineState → Bool
is_wanted preparing = true
is_wanted starting = true
is_wanted ready = true
is_wanted _ = false

-- `self.coordinator.set_desired(...)`, where there is a coordinator
unfoldable pub desire : List Text → Option Coordinator → Result ProtocolError (Option Coordinator)
unfolding set_desired
desire identifiers none = ok none
desire identifiers (some c) = set_desired identifiers c >>= λ c'. ok (some c')

abbrev pub with_coordinator : Option Coordinator → Supervisor → Supervisor
with_coordinator c s = record s { coordinator = c }

-- `_sync_coordinator_desired`
unfoldable pub sync_coordinator_desired : Supervisor → Result ProtocolError Supervisor
unfolding desire in_state
sync_coordinator_desired s =
    desire (in_state is_wanted (engines s)) s.coordinator >>= λ c. ok (with_coordinator c s)
