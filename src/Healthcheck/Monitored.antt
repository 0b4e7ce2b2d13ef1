-- ===== src/Healthcheck/Monitored.antt =====
-- The health check reads what the monitor publishes.
use yeetllm.Common.{ℕ, ◌≡◌, refl, false, some, [], ok, >>=-eq-ok, if◌then◌else◌}
use yeetllm.Supervisor.State.{Phase, degraded, touch}
use yeetllm.Supervisor.{Supervisor, touched, set_phase, sync_coordinator_desired}
use yeetllm.Supervisor.Engines.{IsWired}
use yeetllm.Supervisor.Monitor.{Look, Round, checks, monitor_round}
use yeetllm.Supervisor.Monitor.Health.{IsHealthy, monitor_round-ready}
use yeetllm.Healthcheck.{Host, check}
use yeetllm.Healthcheck.Passing.{check-IsPassing}

published-touched :
    (now : ℕ) (s : Supervisor)
    → (touched now s).store.published ≡ some (touched now s).store.document
unfolding touch
published-touched now s = refl

published-monitor_round :
    (look : Look) (s s' : Supervisor)
    → monitor_round look s ≡ ok s'
    → s'.store.published ≡ some s'.store.document
unfolding monitor_round
published-monitor_round look s s' h =
    let r : Round = checks look (record { supervisor = s; degraded = false }) in
    let (t, synced, done) = >>=-eq-ok (sync_coordinator_desired r.supervisor) _ h in
    let end = if r.degraded then set_phase degraded t else t in
    let last : touched look.now end ≡ s' = cc done in rw (← last) (published-touched look.now end)

-- If the health check finds no failure in what a primary has published at the end of a round of its
-- monitor, then that round found the deployment healthy, and the phase was ready before it. Each
-- engine has one entry and is known to the coordinator.
pub check-monitor_round :
    (host : Host) (look : Look) (s s' : Supervisor)
    → IsWired s
    → monitor_round look s ≡ ok s'
    → s'.store.document.node.is_worker ≡ false
    → check host s'.store.published ≡ []
    → (s.store.document.supervisor.phase ≡ Phase.ready) × IsHealthy look s
check-monitor_round host look s s' w h primary passes =
    let found : check host (some s'.store.document) ≡ [] =
      rw (published-monitor_round look s s' h) at passes in
    let passing = (check-IsPassing host s'.store.document primary).0 found in
    (monitor_round-ready look s s' w h).0 passing.phase
