-- ===== src/Supervisor/Monitor/Falls.antt =====
-- A round of the monitor does not raise and revives no engine, and it notices each exit.
use yeetllm.Common.{
  ℕ, ◌≡◌, refl, ap, sym, ◌∙◌, ◌⊎◌, inl, inr, Bool, true, false, not, ◌&&◌, Option, none, some, List,
  [], ◌∷◌, ◌==◌, text_eq, eq_iff, eq_refl, contains, Bool-cases, Option-cases, if◌then◌else◌, ok,
}
use yeetllm.Common.Dict.{keys, lookup, contains-keys}
use yeetllm.Common.Text.{Text, codes}
use yeetllm.Cluster.Coordinator.{Coordinator}
use yeetllm.Supervisor.State.{
  EngineState, pending, preparing, starting, ready, running, failed, stopped, degraded, touch,
}
use yeetllm.Supervisor.{
  Supervisor, engines, set_phase, touched, state_of, set_engine_state, mark_engine_failed, in_state,
  is_ready, is_failed, with_coordinator,
}
use yeetllm.Supervisor.Engines.{
  IsWired, state_of-set_engine_state, set_engine_state-IsWired, sync-IsWired,
}
use yeetllm.Supervisor.Monitor.{
  Look, Round, has_state, has_stopped, is_up, with_reason, workers_up, process_of, fail_if_exited,
  check_engine, check_engines, unhealthy, fail_all, fail_unhealthy, check_probes, check_router,
  check_ssh, check_workers, checks, monitor_round,
}

-- An engine keeps its state or is failed, and the processes and the wiring stay.
pub record Falls (s s' : Supervisor) : Type 0 where
  pub states : (j : Text) → (state_of j s' ≡ state_of j s) ⊎ (state_of j s' ≡ some failed)
  pub processes : s'.processes ≡ s.processes
  pub registry : s'.registry ≡ s.registry
  pub wired : IsWired s → IsWired s'

Falls-same : (s : Supervisor) → Falls s s
Falls-same s = record { states = λ j. inl refl; processes = refl; registry = refl; wired = λ w. w }

Falls-trans : {s t u : Supervisor} → Falls s t → Falls t u → Falls s u
Falls-trans {s} {t} {u} f g = record {
  states = λ j. elim (g.states j) [
    | inl kept ↦ elim (f.states j) [
      | inl before ↦ inl (kept ∙ before)
      | inr down ↦ inr (kept ∙ down)
    ]
    | inr down ↦ inr down
  ];
  processes = g.processes ∙ f.processes;
  registry = g.registry ∙ f.registry;
  wired = λ w. g.wired (f.wired w);
}

-- A failed engine stays failed.
Falls-failed :
    {s t : Supervisor} (j : Text)
    → Falls s t
    → state_of j s ≡ some failed
    → state_of j t ≡ some failed
Falls-failed j f h = elim (f.states j) [ inl kept ↦ kept ∙ h | inr down ↦ down ]

failing_state :
    (now : ℕ) (id : Text) (error : Option Text) (s : Supervisor) (j : Text)
    → (state_of j (set_engine_state now id failed none error s) ≡ state_of j s)
      ⊎ (state_of j (set_engine_state now id failed none error s) ≡ some failed)
failing_state now id error s j =
    let moved = state_of-set_engine_state now id failed none error s j in
    elim (Bool-cases (id == j)) [
      | inr other ↦ inl (rw (moved, other) refl)
      | inl same ↦ elim (Option-cases (state_of j s)) [
        | inl absent ↦ inl (rw (moved, same, absent) refl)
        | inr (state, present) ↦ inr (rw (moved, same, present) refl)
      ]
    ]

set_failed-Falls :
    (now : ℕ) (id : Text) (error : Option Text) (s : Supervisor)
    → Falls s (set_engine_state now id failed none error s)
unfolding set_engine_state touch
set_failed-Falls now id error s = record {
  states = failing_state now id error s;
  processes = refl;
  registry = refl;
  wired = set_engine_state-IsWired now id failed none error s;
}

mark_engine_failed-Falls :
    (now : ℕ) (id message : Text) (s : Supervisor) → Falls s (mark_engine_failed now id message s)
unfolding mark_engine_failed
mark_engine_failed-Falls now id message s =
    let f = set_failed-Falls now id (some message) s in
    let rest : IsWired s → IsWired (set_engine_state now id failed none (some message) s) =
      f.wired in
    record {
      states = f.states;
      processes = f.processes;
      registry = f.registry;
      wired = λ w.
          let v = rest w in record { listed = v.listed; distinct = v.distinct; known = v.known };
    }

fail_if_exited-Falls :
    (look : Look) (id : Text) (s : Supervisor) → Falls s (fail_if_exited look id s)
unfolding fail_if_exited
fail_if_exited-Falls look id s =
    elim (Bool-cases
      (has_stopped look.exits (process_of id s) && not (has_state is_failed (state_of id s)))) [
        | inl fails ↦ rw fails (mark_engine_failed-Falls look.now id _ s)
        | inr stays ↦ rw stays (Falls-same s)
      ]

check_engines-Falls :
    (look : Look) (ids : List Text) (r : Round)
    → Falls r.supervisor (check_engines look ids r).supervisor
unfolding check_engines check_engine
check_engines-Falls look [] r = Falls-same r.supervisor
check_engines-Falls look (id ∷ ids) r =
    Falls-trans (fail_if_exited-Falls look id r.supervisor)
      (check_engines-Falls look ids (check_engine look id r))

fail_all-Falls : (now : ℕ) (us : List (Text × Text)) (s : Supervisor) → Falls s (fail_all now us s)
unfolding fail_all
fail_all-Falls now [] s = Falls-same s
fail_all-Falls now ((id, reason) ∷ us) s =
    Falls-trans (set_failed-Falls now id (some reason) s)
      (fail_all-Falls now us (set_engine_state now id failed none (some reason) s))

-- Changes of other fields.
Falls-of :
    {s t u : Supervisor}
    → Falls s t
    → engines u ≡ engines t
    → u.processes ≡ t.processes
    → u.registry ≡ t.registry
    → u.coordinator ≡ t.coordinator
    → Falls s u
Falls-of {s} {t} {u} f e p g c = record {
  states = λ j. rw e (f.states j);
  processes = p ∙ f.processes;
  registry = g ∙ f.registry;
  wired = λ w.
      let v = f.wired w in
      record { listed = rw (e, g) v.listed; distinct = rw g v.distinct; known = rw (g, c) v.known };
}

fail_unhealthy-Falls :
    (look : Look) (us : List (Text × Text)) (r : Round)
    → Falls r.supervisor (fail_unhealthy look us r).supervisor
unfolding fail_unhealthy
fail_unhealthy-Falls look [] r = Falls-same r.supervisor
fail_unhealthy-Falls look (u ∷ us) r =
    Falls-of (fail_all-Falls look.now (u ∷ us) r.supervisor) refl refl refl refl

check_probes-Falls : (look : Look) (r : Round) → Falls r.supervisor (check_probes look r).supervisor
unfolding check_probes
check_probes-Falls look r =
    fail_unhealthy-Falls look (unhealthy look.probe (in_state is_ready (engines r.supervisor))) r

check_router-Falls : (look : Look) (r : Round) → Falls r.supervisor (check_router look r).supervisor
unfolding check_router
check_router-Falls look r =
    elim (Bool-cases (is_up look.exits (lookup (codes "router") r.supervisor.processes))) [
      | inl up ↦ rw up (Falls-same r.supervisor)
      | inr down ↦ rw down (Falls-of (Falls-same r.supervisor) refl refl refl refl)
    ]

check_ssh-Falls : (look : Look) (r : Round) → Falls r.supervisor (check_ssh look r).supervisor
unfolding check_ssh
check_ssh-Falls look r =
    elim (Bool-cases (
      r.supervisor.store.document.ssh.enabled
      && not (is_up look.exits (lookup (codes "sshd") r.supervisor.processes)))) [
        | inl down ↦ rw down (Falls-of (Falls-same r.supervisor) refl refl refl refl)
        | inr up ↦ rw up (Falls-same r.supervisor)
      ]

check_workers-Falls :
    (look : Look) (r : Round) → Falls r.supervisor (check_workers look r).supervisor
unfolding check_workers
check_workers-Falls look r =
    let ids = in_state is_ready (engines r.supervisor) in
    elim (Bool-cases (workers_up look.now ids r.supervisor.coordinator)) [
      | inl up ↦ rw up (Falls-same r.supervisor)
      | inr down ↦ rw down (
          fail_all-Falls look.now (with_reason (codes "distributed worker unavailable") ids)
            r.supervisor)
    ]

checks_after-Falls :
    (look : Look) (r : Round)
    → Falls r.supervisor
        (check_workers look (check_ssh look (check_router look (check_probes look r)))).supervisor
checks_after-Falls look r =
    let probed = check_probes look r in
    let routed = check_router look probed in
    Falls-trans (check_probes-Falls look r) (
      Falls-trans (check_router-Falls look probed) (
        Falls-trans (check_ssh-Falls look routed)
          (check_workers-Falls look (check_ssh look routed))))

checks-Falls : (look : Look) (r : Round) → Falls r.supervisor (checks look r).supervisor
unfolding checks
checks-Falls look r =
    let ids = keys r.supervisor.registry.engines in
    Falls-trans (check_engines-Falls look ids r)
      (checks_after-Falls look (check_engines look ids r))

finish-Falls :
    (now : ℕ) (b : Bool) (t : Supervisor)
    → Falls t (touched now (if b then set_phase degraded t else t))
unfolding touch
finish-Falls now true t = Falls-of (Falls-same t) refl refl refl refl
finish-Falls now false t = Falls-of (Falls-same t) refl refl refl refl

sync-Falls :
    (s : Supervisor) (c : Option Coordinator)
    → IsWired (with_coordinator c s)
    → Falls s (with_coordinator c s)
sync-Falls s c v = record {
  states = λ j. inl refl;
  processes = refl;
  registry = refl;
  wired = λ w. v;
}

-- For a supervisor whose engines have one entry each and are known to the coordinator, a round of
-- the monitor does not raise, leaves it so, and each engine keeps its state or is failed: a round
-- makes no engine ready.
pub monitor_round-Falls :
    (look : Look) (s : Supervisor)
    → IsWired s
    → (s' : Supervisor) × (monitor_round look s ≡ ok s') × Falls s s'
unfolding monitor_round
monitor_round-Falls look s w =
    let start : Round = record { supervisor = s; degraded = false } in
    let r : Round = checks look start in
    let fell : Falls s r.supervisor = checks-Falls look start in
    let (c, synced, v) = sync-IsWired r.supervisor (fell.wired w) in
    let t = with_coordinator c r.supervisor in
    let end =
      Falls-trans fell
        (Falls-trans (sync-Falls r.supervisor c v) (finish-Falls look.now r.degraded t)) in
    (touched look.now (if r.degraded then set_phase degraded t else t), rw synced refl, end)

-- An engine of the registry has a state.
state_known :
    (s : Supervisor) (id : Text)
    → IsWired s
    → contains (keys s.registry.engines) id ≡ true
    → (state : EngineState) × (state_of id s ≡ some state)
state_known s id w h = elim (Option-cases (lookup id (engines s))) [
  | inl absent ↦
      let there : contains (keys (engines s)) id ≡ true = rw w.listed h in
      let found = sym (contains-keys id (engines s)) ∙ there in
      let bad : false ≡ true = rw absent at found in absurd (cc bad)
  | inr (e, present) ↦ (e.state, rw present refl)
]

marked_failed :
    (now : ℕ) (id message : Text) (s : Supervisor) (state : EngineState)
    → state_of id s ≡ some state
    → state_of id (mark_engine_failed now id message s) ≡ some failed
unfolding mark_engine_failed
marked_failed now id message s state known =
    rw (state_of-set_engine_state now id failed none (some message) s id, eq_refl id, known) refl

failed_eq : (state : EngineState) → is_failed state ≡ true → state ≡ failed
failed_eq pending h = cc h
failed_eq preparing h = cc h
failed_eq starting h = cc h
failed_eq ready h = cc h
failed_eq running h = cc h
failed_eq failed h = refl
failed_eq stopped h = cc h

-- The turn of an engine whose process has stopped.
fail_if_exited_stopped :
    (look : Look) (id : Text) (s : Supervisor) (state : EngineState)
    → has_stopped look.exits (process_of id s) ≡ true
    → state_of id s ≡ some state
    → state_of id (fail_if_exited look id s) ≡ some failed
unfolding fail_if_exited
fail_if_exited_stopped look id s state stops known =
    elim (Bool-cases (has_state is_failed (state_of id s))) [
      | inl down ↦
          let was : is_failed state ≡ true = rw known at down in
          rw (stops, down) (known ∙ ap some (failed_eq state was))
      | inr other ↦ rw (stops, other) (marked_failed look.now id _ s state known)
    ]

check_engines_stopped :
    (look : Look) (ids : List Text) (r : Round) (id : Text) (state : EngineState)
    → contains ids id ≡ true
    → has_stopped look.exits (process_of id r.supervisor) ≡ true
    → state_of id r.supervisor ≡ some state
    → state_of id (check_engines look ids r).supervisor ≡ some failed
unfolding check_engines check_engine contains
check_engines_stopped look [] r id state h stops known = cc h
check_engines_stopped look (j ∷ ids) r id state h stops known =
    let next = check_engine look j r in
    let one : Falls r.supervisor next.supervisor = fail_if_exited-Falls look j r.supervisor in
    let rest = check_engines-Falls look ids next in
    elim (Bool-cases (j == id)) [
      | inl same ↦
          let here : j ≡ id = (eq_iff j id).0 same in
          let turn : state_of id next.supervisor ≡ some failed =
            rw here (fail_if_exited_stopped look id r.supervisor state stops known) in
          Falls-failed id rest turn
      | inr other ↦
          let later : contains ids id ≡ true = rw other at h in
          let stops' : has_stopped look.exits (process_of id next.supervisor) ≡ true =
            rw one.processes stops in
          elim (one.states id) [
            | inl kept ↦ check_engines_stopped look ids next id state later stops' (kept ∙ known)
            | inr down ↦ Falls-failed id rest down
          ]
    ]

-- After a round of the monitor each engine of the registry whose process has stopped is failed. The
-- engines must have one entry each and be known to the coordinator.
pub monitor_round-exited :
    (look : Look) (s s' : Supervisor) (id : Text)
    → IsWired s
    → monitor_round look s ≡ ok s'
    → contains (keys s.registry.engines) id ≡ true
    → has_stopped look.exits (process_of id s) ≡ true
    → state_of id s' ≡ some failed
unfolding monitor_round checks
monitor_round-exited look s s' id w h m stops =
    let start : Round = record { supervisor = s; degraded = false } in
    let ids = keys s.registry.engines in
    let (state, known) = state_known s id w m in
    let checked = check_engines look ids start in
    let down = check_engines_stopped look ids start id state m stops known in
    let r : Round = checks look start in
    let after : state_of id r.supervisor ≡ some failed =
      Falls-failed id (checks_after-Falls look checked) down in
    let (c, synced, v) = sync-IsWired r.supervisor ((checks-Falls look start).wired w) in
    let t = with_coordinator c r.supervisor in
    let end = touched look.now (if r.degraded then set_phase degraded t else t) in
    let same : ok end ≡ ok s' = rw synced at h in
    let last : end ≡ s' = cc same in
    rw (← last) (Falls-failed id (finish-Falls look.now r.degraded t) after)
