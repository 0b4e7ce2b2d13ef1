-- ===== src/Supervisor/Startup/Outcome.antt =====
-- How the start ends: the engines, and the phase.
use yeetllm.Common.{
  ℕ, ◌≤◌, ◌≡◌, refl, sym, ◌∙◌, ◌⊎◌, ◌↔◌, inl, inr, Bool, true, false, not, ◌&&◌, some, [], length,
  text_eq, contains, mem_of_contains, contains_of_mem, IsDistinct, All, All-mem, All-of_mem,
  Bool-cases, Option-cases, ok, if◌then◌else◌,
}
use yeetllm.Common.Dict.{Dict, keys, lookup, contains-keys, all-lookup, all_of_lookup}
use yeetllm.Common.Text.{Text}
use yeetllm.Common.Text.Slices.{concat}
use yeetllm.Supervisor.State.{EngineEntry, EngineState, ready, degraded, touch}
use yeetllm.Supervisor.{Supervisor, engines, phase, state_of, is_ready}
use yeetllm.Supervisor.Engines.{IsWired}
use yeetllm.Supervisor.Monitor.Guards.{ready_iff}
use yeetllm.Supervisor.Startup.{
  Surroundings, slots, chunked, all_ready, settle_phase, start_engines,
}
use yeetllm.Supervisor.Startup.Batches.{chunked-batches}
use yeetllm.Supervisor.Startup.Settling.{names, IsSettled, IsGoing}
use yeetllm.Supervisor.Startup.Progress.{run_batches-Proceeds, IsGoing-start}

-- Each engine of the registry is ready.
abbrev pub IsAllReady : Supervisor → Type 0
IsAllReady s = All (λ id. state_of id s ≡ some ready) (keys s.registry.engines)

abbrev is_ready_entry : EngineEntry → Bool
is_ready_entry e = is_ready e.state

found :
    (d : Dict Text EngineEntry) (id : Text)
    → contains (keys d) id ≡ true
    → (e : EngineEntry) × (lookup id d ≡ some e)
found d id h = elim (Option-cases (lookup id d)) [
  | inl absent ↦
      let there = sym (contains-keys id d) ∙ h in
      let bad : false ≡ true = rw absent at there in absurd (cc bad)
  | inr (e, present) ↦ (e, present)
]

all_ready_forth : (s : Supervisor) → IsWired s → all_ready s ≡ true → IsAllReady s
all_ready_forth s w h =
    All-of_mem (λ id. state_of id s ≡ some ready) (keys s.registry.engines)
      (λ id m.
        let listed : contains (keys (engines s)) id ≡ true =
          rw w.listed (contains_of_mem (keys s.registry.engines) m) in
        let (e, present) = found (engines s) id listed in
        (ready_iff (state_of id s)).0
          (rw present (all-lookup is_ready_entry id e (engines s) h present)))

all_ready_back : (s : Supervisor) → IsWired s → IsAllReady s → all_ready s ≡ true
all_ready_back s w a =
    let d = engines s in
    let distinct : IsDistinct (keys d) = rw w.listed w.distinct in
    all_of_lookup is_ready_entry d distinct (λ id e there.
      let inside : contains (keys s.registry.engines) id ≡ true =
        rw (← w.listed) (contains-keys id d ∙ rw there refl) in
      let up =
        All-mem (λ id. state_of id s ≡ some ready) (keys s.registry.engines) a
          (mem_of_contains (keys s.registry.engines) id inside) in
      let test = (ready_iff (state_of id s)).1 up in rw there at test)

settle_phase-keeps :
    (now : ℕ) (stopping : Bool) (s : Supervisor)
    → (engines (settle_phase now stopping s) ≡ engines s)
      × ((settle_phase now stopping s).registry ≡ s.registry)
      × (phase (settle_phase now stopping s)
          ≡ (if all_ready s && not stopping then ready else degraded))
unfolding settle_phase touch
settle_phase-keeps now stopping s = (refl, refl, refl)

-- How the start ends.
pub record IsStarted (s : Supervisor) : Type 0 where
  pub settled : (id : Text) (state : EngineState) → state_of id s ≡ some state → IsSettled state
  pub phase_ready : (phase s ≡ ready) ↔ IsAllReady s
  pub phase_degraded : (phase s ≡ ready) ⊎ (phase s ≡ degraded)

settle_phase-IsStarted :
    (now : ℕ) (s : Supervisor) → IsGoing [] s → IsStarted (settle_phase now false s)
unfolding contains
settle_phase-IsStarted now s g =
    let (e, r, p) = settle_phase-keeps now false s in
    record {
      settled = λ id state h.
          let h' : state_of id s ≡ some state = rw e at h in g.settled id state h' refl;
      phase_ready = (
        (λ up.
            let test : all_ready s ≡ true = elim (Bool-cases (all_ready s)) [
              | inl y ↦ y
              | inr n ↦
                  let down : phase (settle_phase now false s) ≡ degraded = rw n at p in
                  let bad : ready ≡ degraded = sym up ∙ down in absurd (cc bad)
            ] in
            rw (e, r) (all_ready_forth s g.wired test)),
        (λ a.
            let a' : IsAllReady s = rw (e, r) at a in
            let test = all_ready_back s g.wired a' in p ∙ rw test refl),
      );
      phase_degraded = elim (Bool-cases (all_ready s)) [
        | inl y ↦ inl (p ∙ rw y refl)
        | inr n ↦ inr (p ∙ rw n refl)
      ];
    }

-- The start of the engines, on a primary that is not asked to stop, does not raise and settles every
-- engine: it is ready or failed, whatever the adapters, the workers, the processes and the probes do.
-- The phase is then `ready` if every engine of the registry is ready, and `degraded` otherwise. The
-- models are the registry's, each engine has one entry and is known to the coordinator, and
-- `parallelism` is one or more.
pub start_engines-IsStarted :
    (env : Surroundings) (s : Supervisor)
    → IsWired s
    → keys s.registry.engines ≡ names (slots s)
    → 1 ≤ s.config.parallelism
    → ((n : ℕ) → env.stopping n ≡ false)
    → (s' : Supervisor) × (start_engines env false s ≡ ok s') × IsStarted s'
unfolding start_engines
start_engines-IsStarted env s w linked size on =
    let (all_there, batches) = chunked-batches (slots s) s.config.parallelism size in
    let going : IsGoing (names (concat (chunked (length (slots s)) (slots s) s.config.parallelism)))
        s =
      rw all_there (IsGoing-start s w linked) in
    let (t, done, g) =
      run_batches-Proceeds env 0 (chunked (length (slots s)) (slots s) s.config.parallelism) s on
        going in
    (settle_phase env.now false t, rw done refl, settle_phase-IsStarted env.now t g)
