-- ===== src/Healthcheck.antt =====
-- healthcheck.py: what the health check finds wrong in the state that the supervisor publishes. The
-- document is the supervisor's, so the defaults for keys that it always writes are not needed.
pub mod Passing
pub mod Monitored
use yeetllm.Common.{
  ℕ, zero, suc, ◌-◌, Bool, true, false, not, Option, none, some, List, [], ◌∷◌, ◌++◌, ltb, leb,
  ◌==◌, nat_eq, text_eq, to_set, if◌then◌else◌,
}
use yeetllm.Common.Dict.{Dict, lookup}
use yeetllm.Common.Text.{Text, codes}
use yeetllm.Supervisor.State.{
  EngineState, EngineEntry, Phase, ServiceState, NodeEntry, SupervisorEntry, RouterEntry, SshEntry,
  ClusterEntry, Document, ready, running,
}

-- The failures, one constructor for each message.
pub data Failure : Type 0 where
  state_unavailable : Failure
  stale_heartbeat : Failure
  supervisor_phase : Phase → Failure
  not_running : Text → Failure
  worker_engine : Text → Option EngineState → Failure
  router_state : ServiceState → Failure
  router_status : ℕ → Failure
  router_unreachable : Failure
  engine_state : Text → EngineState → Failure
  sshd_state : ServiceState → Failure
  sshd_configuration : Failure

-- What the check reads from outside: the time in seconds, whether `/proc/{pid}` exists, the status of
-- the router's `/health/ready` or none for an exception, and the exit of `sshd -t` for a port.
pub record Host : Type 0 where
  pub now : ℕ
  pub exists : ℕ → Bool
  pub readiness : Text → ℕ → Option ℕ
  pub sshd_accepts : ℕ → Bool

abbrev pub is_live : (ℕ → Bool) → Option ℕ → Bool
is_live exists none = false
is_live exists (some pid) = if ltb pid 1 then false else exists pid

abbrev pub report_if : Bool → Failure → List Failure
report_if true f = f ∷ []
report_if false f = []

-- `require_process`
unfoldable pub require_process : Host → Option ℕ → Text → List Failure
require_process host pid name = report_if (not (is_live host.exists pid)) (not_running name)

abbrev pub heartbeat_of : Option ℕ → ℕ
heartbeat_of none = 0
heartbeat_of (some at) = at

abbrev pub is_phase_ready : Phase → Bool
is_phase_ready ready = true
is_phase_ready _ = false

abbrev pub is_service_running : ServiceState → Bool
is_service_running running = true
is_service_running _ = false

abbrev pub is_engine_ready : EngineState → Bool
is_engine_ready ready = true
is_engine_ready _ = false

abbrev pub is_engine_running : Option EngineState → Bool
is_engine_running (some running) = true
is_engine_running _ = false

unfoldable pub check_supervisor : Host → SupervisorEntry → List Failure
unfolding require_process
check_supervisor host s =
    report_if (ltb 15 (host.now - heartbeat_of s.heartbeat)) stale_heartbeat
    ++ report_if (not (is_phase_ready s.phase)) (supervisor_phase s.phase)
    ++ require_process host (some s.pid) (codes "supervisor")

abbrev pub entry_of : Option EngineEntry → Option EngineState × Option ℕ
entry_of none = (none, none)
entry_of (some e) = (some e.state, e.pid)

-- the loop over the desired engines of a worker
unfoldable pub check_desired : Host → Dict Text EngineEntry → List Text → List Failure
unfolding lookup require_process
check_desired host engines [] = []
check_desired host engines (id ∷ ids) =
    let (state, pid) = entry_of (lookup id engines) in
    report_if (not (is_engine_running state)) (worker_engine id state)
    ++ require_process host pid (codes "worker engine " ++ id)
    ++ check_desired host engines ids

abbrev pub check_readiness : Option ℕ → List Failure
check_readiness none = router_unreachable ∷ []
check_readiness (some status) = report_if (not (status == 200)) (router_status status)

unfoldable pub check_router : Host → RouterEntry → List Failure
unfolding require_process
check_router host r =
    report_if (not (is_service_running r.state)) (router_state r.state)
    ++ require_process host r.pid (codes "router")
    ++ check_readiness (host.readiness r.host r.port)

unfoldable pub check_engines : Host → Dict Text EngineEntry → List Failure
unfolding require_process
check_engines host [] = []
check_engines host ((id, e) ∷ rest) =
    report_if (not (is_engine_ready e.state)) (engine_state id e.state)
    ++ require_process host e.pid (codes "engine " ++ id)
    ++ check_engines host rest

unfoldable pub check_ssh : Host → SshEntry → List Failure
unfolding require_process
check_ssh host s =
    if s.enabled
    then report_if (not (is_service_running s.state)) (sshd_state s.state)
      ++ require_process host s.pid (codes "sshd")
      ++ report_if (not (host.sshd_accepts s.port)) sshd_configuration
    else []

-- `check`, on the document that was read, if one was
unfoldable pub check : Host → Option Document → List Failure
unfolding check_supervisor check_desired check_router check_engines check_ssh to_set
check host none = state_unavailable ∷ []
check host (some d) =
    check_supervisor host d.supervisor
    ++ (if d.node.is_worker
        then check_desired host d.engines (to_set d.cluster.desired)
        else check_router host d.router ++ check_engines host d.engines ++ check_ssh host d.ssh)

-- `main`: the exit code
unfoldable pub health_exit : List Failure → ℕ
health_exit [] = 0
health_exit (f ∷ fs) = 1
