-- ===== src/Healthcheck/Passing.antt =====
-- When the health check passes.
use yeetllm.Common.{
  ℕ, ◌+◌, ◌-◌, ◌≤◌, ◌≡◌, refl, sym, ap, ◌∙◌, ◌↔◌, inl, inr, arith, Bool, true, false, not, Option,
  none, some, List, [], ◌∷◌, ◌++◌, ltb, ◌==◌, nat_eq, text_eq, eq_iff, All, to_set, Bool-cases,
  if◌then◌else◌,
}
use yeetllm.Common.Dict.{Dict}
use yeetllm.Common.Text.{Text, codes}
use yeetllm.Supervisor.State.{
  EngineState, EngineEntry, Phase, ServiceState, SupervisorEntry, RouterEntry, SshEntry, Document,
  pending, disabled, preparing, starting, loading, ready, running, failed, degraded, stopping,
  stopped,
}
use yeetllm.Healthcheck.{
  Failure, not_running, router_status, stale_heartbeat, supervisor_phase, router_state,
  engine_state, sshd_state, sshd_configuration, Host, is_live, report_if, require_process,
  heartbeat_of, is_phase_ready, is_service_running, is_engine_ready, check_supervisor,
  check_readiness, check_router, check_engines, check_desired, check_ssh, check,
}

-- A process that is there.
abbrev pub IsLive : Host → Option ℕ → Type 0
IsLive host o = (pid : ℕ) × (o ≡ some pid) × (1 ≤ pid) × (host.exists pid ≡ true)

-- An engine that is ready, with its process.
abbrev pub IsUp : Host → Text × EngineEntry → Type 0
IsUp host (id, e) = (e.state ≡ ready) × IsLive host e.pid

-- What the check asks of a primary.
pub record IsPassing (host : Host) (d : Document) : Type 0 where
  pub beats : host.now ≤ heartbeat_of d.supervisor.heartbeat + 15
  pub phase : d.supervisor.phase ≡ ready
  pub supervisor : IsLive host (some d.supervisor.pid)
  pub router : d.router.state ≡ running
  pub router_process : IsLive host d.router.pid
  pub answer : host.readiness d.router.host d.router.port ≡ some 200
  pub engines : All (IsUp host) d.engines
  pub sshd :
      d.ssh.enabled ≡ true
      → (d.ssh.state ≡ running) × IsLive host d.ssh.pid × (host.sshd_accepts d.ssh.port ≡ true)

append_empty : (fs gs : List Failure) → ((fs ++ gs) ≡ []) ↔ ((fs ≡ []) × (gs ≡ []))
append_empty [] gs = ((λ h. (refl, h)), (λ h. h.1))
append_empty (f ∷ fs) gs = ((λ h. absurd (cc h)), (λ h. absurd (cc h.0)))

report_if_empty : (b : Bool) (f : Failure) → (report_if (not b) f ≡ []) ↔ (b ≡ true)
report_if_empty true f = ((λ h. refl), (λ h. refl))
report_if_empty false f = ((λ h. absurd (cc h)), (λ h. absurd (cc h)))

phase_iff : (p : Phase) → (is_phase_ready p ≡ true) ↔ (p ≡ ready)
phase_iff starting = ground arith
phase_iff loading = ground arith
phase_iff ready = ground arith
phase_iff degraded = ground arith
phase_iff stopping = ground arith
phase_iff stopped = ground arith

service_iff : (s : ServiceState) → (is_service_running s ≡ true) ↔ (s ≡ running)
service_iff pending = ground arith
service_iff disabled = ground arith
service_iff running = ground arith
service_iff failed = ground arith

engine_iff : (s : EngineState) → (is_engine_ready s ≡ true) ↔ (s ≡ ready)
engine_iff pending = ground arith
engine_iff preparing = ground arith
engine_iff starting = ground arith
engine_iff ready = ground arith
engine_iff running = ground arith
engine_iff failed = ground arith
engine_iff stopped = ground arith

some_eq {ℓ} : {A : Type ℓ} {a b : A} → some a ≡ some b → a ≡ b
some_eq h = cc h

is_live_iff : (host : Host) (o : Option ℕ) → (is_live host.exists o ≡ true) ↔ IsLive host o
is_live_iff host none = ((λ h. absurd (cc h)), (λ h. absurd (cc h.1)))
is_live_iff host (some pid) = (
  (λ h. elim (Bool-cases (ltb pid 1)) [
    | inl low ↦ let bad : false ≡ true = rw low at h in absurd (cc bad)
    | inr high ↦
        let there : host.exists pid ≡ true = rw high at h in (pid, refl, ground arith, there)
  ]),
  (λ h.
      let same : pid ≡ h.0 = some_eq h.1 in
      let low = h.2 in
      let test : ltb pid 1 ≡ false = rw same (ground arith) in rw (test, same) h.3),
)

require_process_empty :
    (host : Host) (pid : Option ℕ) (name : Text)
    → (require_process host pid name ≡ []) ↔ IsLive host pid
unfolding require_process
require_process_empty host pid name =
    let reported = report_if_empty (is_live host.exists pid) (not_running name) in
    let live = is_live_iff host pid in ((λ h. live.0 (reported.0 h)), (λ h. reported.1 (live.1 h)))

readiness_empty : (o : Option ℕ) → (check_readiness o ≡ []) ↔ (o ≡ some 200)
readiness_empty none = ((λ h. absurd (cc h)), (λ h. absurd (cc h)))
readiness_empty (some n) =
    let reported = report_if_empty (n == 200) (router_status n) in
    (
      (λ h. let same : n ≡ 200 = (eq_iff n 200).0 (reported.0 h) in rw same refl),
      (λ h. reported.1 ((eq_iff n 200).1 (some_eq h))),
    )

-- A heartbeat that is not stale.
beats_iff : (now at : ℕ) → (report_if (ltb 15 (now - at)) stale_heartbeat ≡ []) ↔ (now ≤ at + 15)
beats_iff now at = elim (Bool-cases (ltb 15 (now - at))) [
  | inl late ↦ rw late ((λ h. absurd (cc h)), (λ h. absurd (ground arith)))
  | inr early ↦ rw early ((λ h. ground arith), (λ h. refl))
]

-- Two lists of failures are empty if what they check holds.
both {ℓ κ} :
    {P : Type ℓ} {Q : Type κ} (fs gs : List Failure)
    → (fs ≡ []) ↔ P
    → (gs ≡ []) ↔ Q
    → ((fs ++ gs) ≡ []) ↔ (P × Q)
both fs gs p q =
    let parts = append_empty fs gs in
    ((λ h. let (f, g) = parts.0 h in (p.0 f, q.0 g)), (λ h. parts.1 (p.1 h.0, q.1 h.1)))

-- A report of a state, which is read both ways.
state_iff {ℓ} :
    {P : Type ℓ} (b : Bool) (f : Failure) → (b ≡ true) ↔ P → (report_if (not b) f ≡ []) ↔ P
state_iff b f p =
    let reported = report_if_empty b f in ((λ h. p.0 (reported.0 h)), (λ h. reported.1 (p.1 h)))

check_supervisor_empty :
    (host : Host) (s : SupervisorEntry)
    → (check_supervisor host s ≡ []) ↔ (
        ((host.now ≤ heartbeat_of s.heartbeat + 15) × (s.phase ≡ ready)) × IsLive host (some s.pid))
unfolding check_supervisor
check_supervisor_empty host s =
    both _ _
      (both _ _ (beats_iff host.now (heartbeat_of s.heartbeat))
        (state_iff (is_phase_ready s.phase) (supervisor_phase s.phase) (phase_iff s.phase)))
      (require_process_empty host (some s.pid) (codes "supervisor"))

check_router_empty :
    (host : Host) (r : RouterEntry)
    → (check_router host r ≡ [])
      ↔ (((r.state ≡ running) × IsLive host r.pid) × (host.readiness r.host r.port ≡ some 200))
unfolding check_router
check_router_empty host r =
    both _ _
      (both _ _
        (state_iff (is_service_running r.state) (router_state r.state) (service_iff r.state))
        (require_process_empty host r.pid (codes "router")))
      (readiness_empty (host.readiness r.host r.port))

check_engines_empty :
    (host : Host) (d : Dict Text EngineEntry) → (check_engines host d ≡ []) ↔ All (IsUp host) d
unfolding check_engines
check_engines_empty host [] = ((λ h. tt), (λ h. refl))
check_engines_empty host ((id, e) ∷ d) =
    let here = state_iff (is_engine_ready e.state) (engine_state id e.state) (engine_iff e.state) in
    let live = require_process_empty host e.pid (codes "engine " ++ id) in
    let whole = both _ _ (both _ _ here live) (check_engines_empty host d) in
    ((λ h. let (up, rest) = whole.0 h in (up, rest)), (λ h. whole.1 (h.0, h.1)))

check_ssh_empty :
    (host : Host) (s : SshEntry)
    → (check_ssh host s ≡ []) ↔ (
        s.enabled ≡ true
        → (s.state ≡ running) × IsLive host s.pid × (host.sshd_accepts s.port ≡ true))
unfolding check_ssh
check_ssh_empty host s =
    let parts =
      both _ _
        (both _ _
          (state_iff (is_service_running s.state) (sshd_state s.state) (service_iff s.state))
          (require_process_empty host s.pid (codes "sshd")))
        (report_if_empty (host.sshd_accepts s.port) sshd_configuration) in
    elim (Bool-cases s.enabled) [
      | inl on ↦ rw on (
        (λ h e. let ((a, b), c) = parts.0 h in (a, b, c)),
        (λ h. let (a, b, c) = h refl in parts.1 ((a, b), c)),
      )
      | inr off ↦ rw off ((λ h e. absurd (cc e)), (λ h. refl))
    ]

-- On a primary the health check finds no failure exactly if the heartbeat is at most 15 seconds old,
-- the phase is ready, the supervisor lives, the router is recorded as running, lives and answers 200,
-- every engine is ready and lives, and, with SSH enabled, the SSH server is recorded as running, lives
-- and its configuration is accepted.
pub check-IsPassing :
    (host : Host) (d : Document)
    → d.node.is_worker ≡ false
    → (check host (some d) ≡ []) ↔ IsPassing host d
unfolding check
check-IsPassing host d primary =
    let parts = both _ _ (check_supervisor_empty host d.supervisor) (
      both _ _ (both _ _ (check_router_empty host d.router) (check_engines_empty host d.engines))
        (check_ssh_empty host d.ssh)) in
    let same =
      ap
        (λ b.
          check_supervisor host d.supervisor
          ++ (if b
              then check_desired host d.engines (to_set d.cluster.desired)
              else check_router host d.router
                ++ check_engines host d.engines
                ++ check_ssh host d.ssh))
        primary in
    (
      (λ h.
          let (top, rest) = parts.0 (sym same ∙ h) in
          record {
            beats = top.0.0;
            phase = top.0.1;
            supervisor = top.1;
            router = rest.0.0.0.0;
            router_process = rest.0.0.0.1;
            answer = rest.0.0.1;
            engines = rest.0.1;
            sshd = rest.1;
          }),
      (λ h.
          same
          ∙ parts.1 (
            ((h.beats, h.phase), h.supervisor),
            ((((h.router, h.router_process), h.answer), h.engines), h.sshd),
          )),
    )
