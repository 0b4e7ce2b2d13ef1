-- ===== src/Supervisor/Monitor.antt =====
-- `_monitor_primary` of supervisor.py: one round of its loop, and `_unhealthy_ready_engines`. What a
-- round reads from outside is a `Look`; the health requests of a round are made one after the other.
pub mod Guards
pub mod Health
pub mod Falls
use yeetllm.Common.{
  ℕ, suc, Bool, true, false, not, ◌&&◌, ◌||◌, Option, none, some, List, [], ◌∷◌, ◌++◌, ◌==◌, nat_eq,
  text_eq, Result, ok, err, ◌>>=◌, if◌then◌else◌,
}
use yeetllm.Common.Int.{ℤ, pos, negsuc}
use yeetllm.Common.Dict.{Dict, keys, lookup}
use yeetllm.Common.Text.{Text, codes}
use yeetllm.Common.Text.Decimal.{decimal}
use yeetllm.Cluster.Coordinator.{Coordinator, ProtocolError, all_workers_running}
use yeetllm.Processes.{ManagedProcess, Exits, returncode, running}
use yeetllm.Supervisor.State.{EngineState, Phase, ServiceState, degraded, failed, touch}
use yeetllm.Supervisor.{
  Supervisor, with_document, touched, set_phase, engines, state_of, set_engine_state,
  mark_engine_failed, engine_process, in_state, is_ready, is_failed, sync_coordinator_desired,
}

-- `GET {backend_url}/health` of an engine: a status, or an `httpx.HTTPError` with its text.
pub data Probe : Type 0 where
  status : ℕ → Probe
  no_answer : Text → Probe

pub record Look : Type 0 where
  pub now : ℕ
  pub exits : Exits
  pub probe : Text → Probe

-- The local variable `degraded` beside the supervisor.
pub record Round : Type 0 where
  pub supervisor : Supervisor
  pub degraded : Bool

-- f"{status}" of a return code
abbrev pub status_text : Option ℤ → Text
status_text none = codes "None"
status_text (some (pos n)) = decimal n
status_text (some (negsuc n)) = codes "-" ++ decimal (suc n)

abbrev pub has_state : (EngineState → Bool) → Option EngineState → Bool
has_state test none = false
has_state test (some state) = test state

-- `process is None or not process.running()`
abbrev pub is_up : Exits → Option ManagedProcess → Bool
is_up exits none = false
is_up exits (some p) = running exits p

-- `process is not None and not process.running()`
abbrev pub has_stopped : Exits → Option ManagedProcess → Bool
has_stopped exits none = false
has_stopped exits (some p) = not (running exits p)

abbrev pub exit_status : Exits → Option ManagedProcess → Option ℤ
exit_status exits none = none
exit_status exits (some p) = returncode exits p

abbrev pub process_of : Text → Supervisor → Option ManagedProcess
process_of identifier s = lookup (engine_process identifier) s.processes

unfoldable pub fail_if_exited : Look → Text → Supervisor → Supervisor
unfolding mark_engine_failed
fail_if_exited look id s =
    if has_stopped look.exits (process_of id s) && not (has_state is_failed (state_of id s))
    then mark_engine_failed look.now id
        (codes "process exited with status "
          ++ status_text (exit_status look.exits (process_of id s)))
        s
    else s

-- the first loop of the round
unfoldable pub check_engine : Look → Text → Round → Round
unfolding fail_if_exited
check_engine look id r =
    let s = fail_if_exited look id r.supervisor in
    record { supervisor = s; degraded = r.degraded || not (has_state is_ready (state_of id s)) }

unfoldable pub check_engines : Look → List Text → Round → Round
unfolding check_engine
check_engines look [] r = r
check_engines look (id ∷ ids) r = check_engines look ids (check_engine look id r)

abbrev pub complaint : Probe → Option Text
complaint (status n) =
    if n == 200 then none else some (codes "health endpoint returned HTTP " ++ decimal n)
complaint (no_answer reason) = some (codes "health probe failed: " ++ reason)

-- `_unhealthy_ready_engines`, on the identifiers of the ready engines
unfoldable pub unhealthy : (Text → Probe) → List Text → List (Text × Text)
unhealthy probe [] = []
unhealthy probe (id ∷ ids) = elim (complaint (probe id)) [
  | none ↦ unhealthy probe ids
  | some reason ↦ (id, reason) ∷ unhealthy probe ids
]

unfoldable pub fail_all : ℕ → List (Text × Text) → Supervisor → Supervisor
unfolding set_engine_state
fail_all now [] s = s
fail_all now ((id, reason) ∷ rest) s =
    fail_all now rest (set_engine_state now id failed none (some reason) s)

-- the loop over the unhealthy engines
unfoldable pub fail_unhealthy : Look → List (Text × Text) → Round → Round
unfolding fail_all
fail_unhealthy look [] r = r
fail_unhealthy look (u ∷ us) r = record {
  supervisor = record (fail_all look.now (u ∷ us) r.supervisor) { had_failure = true };
  degraded = true;
}

unfoldable pub check_probes : Look → Round → Round
unfolding unhealthy fail_unhealthy
check_probes look r =
    fail_unhealthy look (unhealthy look.probe (in_state is_ready (engines r.supervisor))) r

abbrev pub fail_router : Supervisor → Supervisor
fail_router = with_document (λ d. record d { router = record d.router { state = failed } })

abbrev pub fail_ssh : Supervisor → Supervisor
fail_ssh = with_document (λ d. record d { ssh = record d.ssh { state = failed } })

unfoldable pub check_router : Look → Round → Round
check_router look r =
    if is_up look.exits (lookup (codes "router") r.supervisor.processes)
    then r
    else record { supervisor = fail_router r.supervisor; degraded = true }

unfoldable pub check_ssh : Look → Round → Round
check_ssh look r =
    if r.supervisor.store.document.ssh.enabled
      && not (is_up look.exits (lookup (codes "sshd") r.supervisor.processes))
    then record { supervisor = fail_ssh r.supervisor; degraded = true }
    else r

abbrev pub no_texts : List Text → Bool
no_texts [] = true
no_texts (t ∷ ts) = false

abbrev pub with_reason : Text → List Text → List (Text × Text)
with_reason reason [] = []
with_reason reason (id ∷ ids) = (id, reason) ∷ with_reason reason ids

-- the ready engines have every worker, or there is no coordinator
abbrev pub workers_up : ℕ → List Text → Option Coordinator → Bool
workers_up now ready_ids none = true
workers_up now ready_ids (some c) = no_texts ready_ids || all_workers_running now 15 ready_ids c

-- the part of the round that asks the coordinator, apart from `_sync_coordinator_desired`
unfoldable pub check_workers : Look → Round → Round
unfolding fail_all
check_workers look r =
    let ready_ids = in_state is_ready (engines r.supervisor) in
    if workers_up look.now ready_ids r.supervisor.coordinator then r else record {
      supervisor =
          fail_all look.now (with_reason (codes "distributed worker unavailable") ready_ids)
            r.supervisor;
      degraded = true;
    }

-- The checks of a round, in their order.
unfoldable pub checks : Look → Round → Round
unfolding check_engines check_probes check_router check_ssh check_workers
checks look r = check_workers look (
    check_ssh look (
      check_router look
        (check_probes look (check_engines look (keys r.supervisor.registry.engines) r))))

-- One round of `_monitor_primary`.
unfoldable pub monitor_round : Look → Supervisor → Result ProtocolError Supervisor
unfolding checks sync_coordinator_desired
monitor_round look s =
    let r = checks look (record { supervisor = s; degraded = false }) in
    sync_coordinator_desired r.supervisor >>= λ t.
    ok (touched look.now (if r.degraded then set_phase degraded t else t))
