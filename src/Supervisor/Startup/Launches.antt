-- ===== src/Supervisor/Startup/Launches.antt =====
-- A batch of the start settles its engines.
use yeetllm.Common.{
  ℕ, ◌≡◌, refl, ap, inl, inr, arith, true, Option, none, some, List, [], ◌∷◌, ◌++◌, text_eq,
  eq_refl, contains, contains-append, Option-cases, Result, ok, err, Result-cases,
}
use yeetllm.Common.Dict.{Dict, keys, lookup}
use yeetllm.Common.Text.{Text}
use yeetllm.Config.Types.{ModelConfig}
use yeetllm.Processes.{ManagedProcess}
use yeetllm.Registry.{EngineRecord}
use yeetllm.Supervisor.State.{preparing, starting, ready}
use yeetllm.Supervisor.{Supervisor, set_engine_state, mark_engine_failed, engine_process}
use yeetllm.Supervisor.Startup.{
  Surroundings, Slot, preparing_model, prepare_all, prepared, launch_primary_engine, launch_all,
  mark_all, raised, named, with_paths, with_process, await_ready, started, engine_managed,
  key_error,
}
use yeetllm.Supervisor.Startup.Settling.{
  names, IsGoing, IsWithin, IsGoing-within, set-IsGoing, settle-IsGoing, IsGoing-of, mark-IsGoing,
}

IsWithin-later :
    (id : Text) (ids later : List Text) → IsWithin (id ∷ (ids ++ later)) (ids ++ (id ∷ later))
unfolding contains
IsWithin-later id ids later j h =
    ground (arith, contains-append ids later j, contains-append ids (id ∷ later) j)

IsWithin-sooner :
    (id : Text) (ids later : List Text) → IsWithin (ids ++ (id ∷ later)) (id ∷ (ids ++ later))
unfolding contains
IsWithin-sooner id ids later j h =
    ground (arith, contains-append ids later j, contains-append ids (id ∷ later) j)

prepare_all-IsGoing_from :
    (env : Surroundings) (ids : List Text) (ps : List Slot) (s : Supervisor)
    → IsWithin (names ps) ids
    → IsGoing ids s
    → IsGoing ids (prepare_all env ps s)
unfolding prepare_all preparing_model names contains
prepare_all-IsGoing_from env ids [] s w g = g
prepare_all-IsGoing_from env ids ((i, m) ∷ ps) s w g =
    let inside : contains ids m.id ≡ true = w m.id (rw (eq_refl m.id) refl) in
    prepare_all-IsGoing_from env ids ps (preparing_model env (i, m) s) (λ j h. w j (ground arith))
      (set-IsGoing env.now m.id preparing none none s inside g)

pub prepare_all-IsGoing :
    (env : Surroundings) (ps : List Slot) (later : List Text) (s : Supervisor)
    → IsGoing (names ps ++ later) s
    → IsGoing (names ps ++ later) (prepare_all env ps s)
prepare_all-IsGoing env ps later s g =
    prepare_all-IsGoing_from env (names ps ++ later) ps s
      (λ j h. ground (arith, contains-append (names ps) later j)) g

prepared_err :
    (env : Surroundings) (i : ℕ) (m : ModelConfig) (ps : List Slot) (s : Supervisor)
    (message : Text)
    → env.resolve m ≡ err message
    → prepared env ((i, m) ∷ ps) s ≡ prepared env ps (mark_engine_failed env.now m.id message s)
unfolding prepared
prepared_err env i m ps s message h = rw (prepared, h) refl

prepared_ok :
    (env : Surroundings) (i : ℕ) (m : ModelConfig) (ps : List Slot) (s : Supervisor)
    (paths : Dict Text Text)
    → env.resolve m ≡ ok paths
    → prepared env ((i, m) ∷ ps) s
      ≡ (let rest = prepared env ps (with_paths m.id paths s) in (rest.0, (i, m) ∷ rest.1))
unfolding prepared
prepared_ok env i m ps s paths h = rw (prepared, h) refl

prepared_none :
    (env : Surroundings) (later : List Text) (s : Supervisor)
    → IsGoing later s
    → IsGoing (names (prepared env [] s).1 ++ later) (prepared env [] s).0
unfolding prepared names
prepared_none env later s g = g

pub prepared-IsGoing :
    (env : Surroundings) (ps : List Slot) (later : List Text) (s : Supervisor)
    → IsGoing (names ps ++ later) s
    → IsGoing (names (prepared env ps s).1 ++ later) (prepared env ps s).0
unfolding names
prepared-IsGoing env [] later s g = prepared_none env later s g
prepared-IsGoing env ((i, m) ∷ ps) later s g = elim (Result-cases (env.resolve m)) [
  | inr (message, bad) ↦ rw (prepared_err env i m ps s message bad) (
      prepared-IsGoing env ps later (mark_engine_failed env.now m.id message s)
        (mark-IsGoing env.now m.id message s g))
  | inl (paths, good) ↦
      let s' = with_paths m.id paths s in
      let kept =
        IsGoing-of (IsGoing-within (IsWithin-later m.id (names ps) later) g) refl refl refl refl in
      let rest = prepared-IsGoing env ps (m.id ∷ later) s' kept in
      rw (prepared_ok env i m ps s paths good)
        (IsGoing-within (IsWithin-sooner m.id (names (prepared env ps s').1) later) rest)
]

pub mark_all-IsGoing :
    (now : ℕ) (us : List (Text × Text)) (later : List Text) (s : Supervisor)
    → IsGoing (keys us ++ later) s
    → IsGoing later (mark_all now us s)
unfolding mark_all
mark_all-IsGoing now [] later s g = g
mark_all-IsGoing now ((id, message) ∷ us) later s g =
    mark_all-IsGoing now us later (mark_engine_failed now id message s)
      (mark-IsGoing now id message s g)

pub keys-named : (message : Text) (ps : List Slot) → keys (named message ps) ≡ names ps
unfolding names
keys-named message [] = refl
keys-named message ((i, m) ∷ ps) = ap (λ ids. m.id ∷ ids) (keys-named message ps)

-- What the launch of an engine leaves, with the exception if one is raised.
abbrev Launched : List Text → Text → Supervisor × Option Text → Type 0
Launched later id (s, none) = IsGoing later s
Launched later id (s, some message) = IsGoing (id ∷ later) s

await_ready-Launched :
    (env : Surroundings) (id : Text) (pid : ℕ) (o : Option Text) (later : List Text)
    (s : Supervisor)
    → IsGoing (id ∷ later) s
    → Launched later id (await_ready env id pid o s)
await_ready-Launched env id pid none later s g =
    settle-IsGoing env.now id ready (some pid) none s (inl refl) g
await_ready-Launched env id pid (some message) later s g = g

contains_head : (id : Text) (ids : List Text) → contains (id ∷ ids) id ≡ true
unfolding contains
contains_head id ids = rw (eq_refl id) refl

started-Launched :
    (env : Surroundings) (id : Text) (p : ManagedProcess) (r : Result Text ℕ) (later : List Text)
    (s : Supervisor)
    → IsGoing (id ∷ later) s
    → Launched later id (started env id p r s)
started-Launched env id p (err message) later s g = g
started-Launched env id p (ok pid) later s g =
    await_ready-Launched env id pid (env.waiting_raises id) later _ (
      set-IsGoing env.now id starting (some pid) none _ (contains_head id later)
        (IsGoing-of g refl refl refl refl))

launch_absent :
    (env : Surroundings) (i : ℕ) (m : ModelConfig) (s : Supervisor)
    → lookup m.id s.registry.engines ≡ none
    → launch_primary_engine env (i, m) s ≡ (s, some (key_error m.id))
unfolding launch_primary_engine
launch_absent env i m s h = rw (launch_primary_engine, h) refl

launch_present :
    (env : Surroundings) (i : ℕ) (m : ModelConfig) (s : Supervisor) (e : EngineRecord)
    → lookup m.id s.registry.engines ≡ some e
    → launch_primary_engine env (i, m) s ≡ (
        let p = engine_managed env (i, m) e s in
        started env m.id p (env.spawn p) (
          set_engine_state env.now m.id starting none none
            (with_process (engine_process m.id) p s)))
unfolding launch_primary_engine
launch_present env i m s e h = rw (launch_primary_engine, h) refl

launch-Launched :
    (env : Surroundings) (i : ℕ) (m : ModelConfig) (later : List Text) (s : Supervisor)
    → IsGoing (m.id ∷ later) s
    → Launched later m.id (launch_primary_engine env (i, m) s)
launch-Launched env i m later s g = elim (Option-cases (lookup m.id s.registry.engines)) [
  | inl absent ↦ rw (launch_absent env i m s absent) g
  | inr (e, present) ↦ rw (launch_present env i m s e present) (
      started-Launched env m.id (engine_managed env (i, m) e s) _ later _ (
        set-IsGoing env.now m.id starting none none _ (contains_head m.id later)
          (IsGoing-of g refl refl refl refl)))
]

launch_next :
    (id : Text) (later : List Text) (ps : List Slot) (one : Supervisor × Option Text)
    (us : List (Text × Text)) (s : Supervisor)
    → Launched (names ps ++ later) id one
    → ((ids : List Text) → IsGoing (names ps ++ ids) one.0 → IsGoing (keys us ++ ids) s)
    → IsGoing (keys (raised id one.1 us) ++ later) s
launch_next id later ps (t, none) us s h f = f later h
launch_next id later ps (t, some message) us s h f =
    IsGoing-within (IsWithin-sooner id (keys us) later)
      (f (id ∷ later) (IsGoing-within (IsWithin-later id (names ps) later) h))

pub launch_all-IsGoing :
    (env : Surroundings) (ps : List Slot) (later : List Text) (s : Supervisor)
    → IsGoing (names ps ++ later) s
    → IsGoing (keys (launch_all env ps s).1 ++ later) (launch_all env ps s).0
unfolding launch_all names
launch_all-IsGoing env [] later s g = g
launch_all-IsGoing env ((i, m) ∷ ps) later s g =
    let one = launch_primary_engine env (i, m) s in
    let rest = launch_all env ps one.0 in
    launch_next m.id later ps one rest.1 rest.0 (launch-Launched env i m (names ps ++ later) s g)
      (λ ids h. launch_all-IsGoing env ps ids one.0 h)
