-- ===== src/Supervisor/Monitor/Health.antt =====
-- When a round of the monitor leaves the phase `ready`.
use yeetllm.Common.{
  ℕ, ◌≡◌, refl, sym, ◌∙◌, ◌↔◌, ◌⊎◌, inl, inr, arith, Bool, true, false, ◌&&◌, Option, none, some,
  List, [], ◌∷◌, nat_eq, text_eq, all, All, All-mem, mem_of_contains, IsDistinct, Bool-cases,
  if◌then◌else◌, ok, >>=-eq-ok,
}
use yeetllm.Common.Dict.{Dict, keys, values, lookup, contains-keys, all_of_lookup}
use yeetllm.Common.Text.{Text, codes}
use yeetllm.Processes.{ManagedProcess, Exits, running}
use yeetllm.Cluster.Coordinator.{Coordinator, all_workers_running}
use yeetllm.Supervisor.State.{EngineEntry, ready, degraded, touch}
use yeetllm.Supervisor.{
  Supervisor, engines, phase, set_phase, touched, state_of, in_state, is_ready, desire,
  with_coordinator, sync_coordinator_desired,
}
use yeetllm.Supervisor.Engines.{IsWired}
use yeetllm.Supervisor.Monitor.{
  Look, status, Round, has_state, is_up, has_stopped, process_of, check_engines, check_probes,
  check_router, check_ssh, check_workers, workers_up, checks, monitor_round,
}
use yeetllm.Supervisor.Monitor.Guards.{
  IsGuard, IsGuard-compose, ready_iff, is_healthy_iff, engine_up, answers, router_up, ssh_up,
  healthy, check_engines-IsGuard, check_probes-IsGuard, check_router-IsGuard, check_ssh-IsGuard,
  check_workers-IsGuard,
}

-- A process that is there and runs.
abbrev pub Runs : Exits → Option ManagedProcess → Type 0
Runs exits o = (p : ManagedProcess) × (o ≡ some p) × (running exits p ≡ true)

-- An engine that is ready, whose process has not stopped and that answers.
abbrev pub Serves : Look → Supervisor → Text → Type 0
Serves look s id =
    (state_of id s ≡ some ready)
    × (has_stopped look.exits (process_of id s) ≡ false)
    × (look.probe id ≡ status 200)

-- What the monitor asks of a deployment.
pub record IsHealthy (look : Look) (s : Supervisor) : Type 0 where
  pub serving : All (Serves look s) (keys s.registry.engines)
  pub router : Runs look.exits (lookup (codes "router") s.processes)
  pub ssh :
      s.store.document.ssh.enabled ≡ true → Runs look.exits (lookup (codes "sshd") s.processes)
  pub workers :
      (c : Coordinator)
      → s.coordinator ≡ some c
      → (keys s.registry.engines ≡ [])
        ⊎ (all_workers_running look.now 15 (keys s.registry.engines) c ≡ true)

is_up_iff : (exits : Exits) (o : Option ManagedProcess) → (is_up exits o ≡ true) ↔ Runs exits o
is_up_iff exits none = ((λ h. cc), (λ h. cc h.1))
is_up_iff exits (some p) =
    ((λ h. (p, refl, h)), (λ h. let e = h.1 in let same : p ≡ h.0 = cc e in rw same h.2))

all-in_state :
    (d : Dict Text EngineEntry)
    → all (λ (e : EngineEntry). is_ready e.state) (values d) ≡ true
    → in_state is_ready d ≡ keys d
unfolding in_state all
all-in_state [] h = refl
all-in_state ((k, e) ∷ d) h = ground (arith, all-in_state d)

-- Where every engine is ready, the ready identifiers are all.
pub ready_ids :
    (s : Supervisor)
    → IsWired s
    → All (λ id. has_state is_ready (state_of id s) ≡ true) (keys s.registry.engines)
    → in_state is_ready (engines s) ≡ keys s.registry.engines
ready_ids s w a =
    let d = engines s in
    let distinct : IsDistinct (keys d) = rw w.listed w.distinct in
    let up : All (λ id. has_state is_ready (state_of id s) ≡ true) (keys d) = rw w.listed a in
    all-in_state d (
      all_of_lookup (λ (e : EngineEntry). is_ready e.state) d distinct
        (λ k v e.
          let m = mem_of_contains (keys d) k (contains-keys k d ∙ rw e refl) in
          let r = All-mem (λ id. has_state is_ready (state_of id s) ≡ true) (keys d) up m in
          rw e at r))
    ∙ w.listed

checks-IsGuard :
    (look : Look) (ids : List Text)
    → IsGuard (healthy look ids) (λ r.
      check_workers look
        (check_ssh look (check_router look (check_probes look (check_engines look ids r)))))
checks-IsGuard look ids =
    IsGuard-compose _ _ _ (check_workers look)
      (IsGuard-compose _ _ _ (check_ssh look)
        (IsGuard-compose _ _ _ (check_router look)
          (IsGuard-compose _ _ _ (check_probes look) (check_engines-IsGuard look ids)
            (check_probes-IsGuard look))
          (check_router-IsGuard look))
        (check_ssh-IsGuard look))
      (check_workers-IsGuard look)

sync_frame :
    (s t : Supervisor)
    → sync_coordinator_desired s ≡ ok t
    → (c : Option Coordinator) × (with_coordinator c s ≡ t)
unfolding sync_coordinator_desired
sync_frame s t h = let (c, e, f) = >>=-eq-ok (desire _ s.coordinator) _ h in (c, let g = f in cc)

-- `x and y`, read both ways
and_iff : (a b : Bool) → ((a && b) ≡ true) ↔ ((a ≡ true) × (b ≡ true))
and_iff a b = ground arith

serving_iff :
    (look : Look) (s : Supervisor) (id : Text)
    → ((engine_up look id s ≡ true) × (answers look.probe id ≡ true)) ↔ Serves look s id
serving_iff look s id =
    let up = ready_iff (state_of id s) in
    let answer = is_healthy_iff (look.probe id) in
    (
      (λ h. (up.0 (ground arith), ground arith, answer.0 h.1)),
      (λ h. let here = up.1 h.0 in (ground arith, answer.1 h.2)),
    )

-- What the tests of the two loops over the engines say together.
all_serving_iff :
    (look : Look) (s : Supervisor) (ids : List Text)
    → ((all (λ id. engine_up look id s) ids ≡ true) × (all (answers look.probe) ids ≡ true))
      ↔ All (Serves look s) ids
unfolding all
all_serving_iff look s [] = ((λ h. tt), (λ h. (refl, refl)))
all_serving_iff look s (id ∷ ids) =
    let here = serving_iff look s id in
    let rest = all_serving_iff look s ids in
    (
      (λ h. (here.0 (ground arith, ground arith), rest.0 (ground arith, ground arith))),
      (λ h. let (u, v) = here.1 h.0 in let (us, vs) = rest.1 h.1 in (ground arith, ground arith)),
    )

all_ready :
    (look : Look) (s : Supervisor) (ids : List Text)
    → all (λ id. engine_up look id s) ids ≡ true
    → All (λ id. has_state is_ready (state_of id s) ≡ true) ids
unfolding all
all_ready look s [] h = tt
all_ready look s (id ∷ ids) h = (ground arith, all_ready look s ids (ground arith))

ssh_iff :
    (look : Look) (s : Supervisor)
    → (ssh_up look s ≡ true)
      ↔ (s.store.document.ssh.enabled ≡ true → Runs look.exits (lookup (codes "sshd") s.processes))
ssh_iff look s =
    let up = is_up_iff look.exits (lookup (codes "sshd") s.processes) in
    (
      (λ h on. up.0 (ground arith)),
      (λ h. elim (Bool-cases s.store.document.ssh.enabled) [
        | inl on ↦ let runs = up.1 (h on) in ground arith
        | inr off ↦ ground arith
      ]),
    )

workers_iff :
    (now : ℕ) (ids : List Text) (o : Option Coordinator)
    → (workers_up now ids o ≡ true)
      ↔ ((c : Coordinator) → o ≡ some c → (ids ≡ []) ⊎ (all_workers_running now 15 ids c ≡ true))
workers_iff now ids none = ((λ h c e. cc e), (λ h. refl))
workers_iff now [] (some c) = ((λ h d e. inl refl), (λ h. refl))
workers_iff now (id ∷ ids) (some c) = (
  (λ h d e. let same : c ≡ d = cc e in inr (rw (← same) h)),
  (λ h. elim (h c refl) [ inl empty ↦ cc empty | inr all_up ↦ all_up ]),
)

-- The tests of a round, where every engine is ready.
healthy_parts :
    (look : Look) (s : Supervisor)
    → IsWired s
    → all (λ id. engine_up look id s) (keys s.registry.engines) ≡ true
    → (healthy look (keys s.registry.engines) s ≡ true) ↔ (
        (all (answers look.probe) (keys s.registry.engines) ≡ true)
        × (router_up look s ≡ true)
        × (ssh_up look s ≡ true)
        × (workers_up look.now (keys s.registry.engines) s.coordinator ≡ true))
healthy_parts look s w up =
    let same = ready_ids s w (all_ready look s (keys s.registry.engines) up) in
    rw (same, up) (ground arith)

-- The tests of a round, taken together, are `IsHealthy`.
healthy_iff :
    (look : Look) (s : Supervisor)
    → IsWired s
    → (healthy look (keys s.registry.engines) s ≡ true) ↔ IsHealthy look s
healthy_iff look s w =
    let ids = keys s.registry.engines in
    let serving = all_serving_iff look s ids in
    let routed = is_up_iff look.exits (lookup (codes "router") s.processes) in
    let working = workers_iff look.now ids s.coordinator in
    (
      (λ h.
          let up : all (λ id. engine_up look id s) ids ≡ true = ground arith in
          let (b, r, k, v) = (healthy_parts look s w up).0 h in
          record {
            serving = serving.0 (up, b);
            router = routed.0 r;
            ssh = (ssh_iff look s).0 k;
            workers = working.0 v;
          }),
      (λ h.
          let (up, b) = serving.1 h.serving in
          (healthy_parts look s w up).1
            (b, routed.1 h.router, (ssh_iff look s).1 h.ssh, working.1 h.workers)),
    )

phase-finish :
    (now : ℕ) (b : Bool) (t : Supervisor)
    → phase (touched now (if b then set_phase degraded t else t))
      ≡ (if b then degraded else phase t)
unfolding touch
phase-finish now true t = refl
phase-finish now false t = refl

round_end :
    (look : Look) (s s' : Supervisor)
    → monitor_round look s ≡ ok s'
    → phase s' ≡ (
        if (checks look (record { supervisor = s; degraded = false })).degraded
        then degraded
        else phase (checks look (record { supervisor = s; degraded = false })).supervisor)
unfolding monitor_round
round_end look s s' h =
    let r : Round = checks look (record { supervisor = s; degraded = false }) in
    let (t, synced, done) = >>=-eq-ok (sync_coordinator_desired r.supervisor) _ h in
    let (c, there) = sync_frame r.supervisor t synced in
    let last : touched look.now (if r.degraded then set_phase degraded t else t) ≡ s' = cc done in
    rw (← last, ← there) (phase-finish look.now r.degraded (with_coordinator c r.supervisor))

round_phase :
    (look : Look) (s s' : Supervisor)
    → monitor_round look s ≡ ok s'
    → (phase s' ≡ ready) ↔ ((phase s ≡ ready) × (healthy look (keys s.registry.engines) s ≡ true))
unfolding checks
round_phase look s s' h =
    let start : Round = record { supervisor = s; degraded = false } in
    let guard = checks-IsGuard look (keys s.registry.engines) start in
    let last = round_end look s s' h in
    elim (Bool-cases (healthy look (keys s.registry.engines) s)) [
      | inl up ↦
          let same : checks look start ≡ start = guard.0 up in
          let kept : phase s' ≡ phase s = rw same at last in rw kept ((λ p. (p, up)), (λ p. p.0))
      | inr down ↦
          let fell : (checks look start).degraded ≡ true = guard.1 down in
          let lost : phase s' ≡ degraded = rw fell at last in
          (
            (λ p. let bad : ready ≡ degraded = sym p ∙ lost in cc bad),
            (λ p. let bad : false ≡ true = sym down ∙ p.1 in cc bad),
          )
    ]

-- After a round of the monitor the phase is `ready` exactly if it was before and the deployment is
-- healthy: every engine is ready, its process has not stopped and its health request is answered
-- with 200; the router runs; the SSH server runs if it is enabled; and, with a coordinator and an
-- engine or more, every worker runs every engine. Each engine must have one entry
-- in the document and be known to the coordinator.
pub monitor_round-ready :
    (look : Look) (s s' : Supervisor)
    → IsWired s
    → monitor_round look s ≡ ok s'
    → (phase s' ≡ ready) ↔ ((phase s ≡ ready) × IsHealthy look s)
monitor_round-ready look s s' w h =
    let phases = round_phase look s s' h in
    let tests = healthy_iff look s w in
    ((λ p. let (was, up) = phases.0 p in (was, tests.0 up)), (λ p. phases.1 (p.0, tests.1 p.1)))
