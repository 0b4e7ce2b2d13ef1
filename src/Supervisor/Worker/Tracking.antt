-- ===== src/Supervisor/Worker/Tracking.antt =====
-- The states that a worker keeps of its engines: one for each engine, of models of the configuration.
use yeetllm.Common.{
  ℕ, ◌≡◌, refl, ◌∙◌, inl, inr, arith, Bool, true, false, not, ◌&&◌, Option, none, some, List, [],
  ◌∷◌, ◌==◌, text_eq, text_beq, eq_iff, eq_refl, contains, IsDistinct, Bool-cases, Result, ok, err,
}
use yeetllm.Common.Dict.{
  Dict, keys, lookup, insert, remove, contains-insert, contains-remove, lookup-insert,
  lookup-remove, IsDistinct-insert, IsDistinct-remove,
}
use yeetllm.Common.Text.{Text}
use yeetllm.Cluster.Coordinator.{worker_states}
use yeetllm.Config.Types.{ModelConfig}
use yeetllm.Processes.{ManagedProcess}
use yeetllm.Registry.{EngineRecord}
use yeetllm.Supervisor.{Supervisor, set_engine_state, mark_engine_failed}
use yeetllm.Supervisor.Monitor.{is_up, has_stopped, process_of}
use yeetllm.Supervisor.Startup.{Slot, slots}
use yeetllm.Supervisor.Startup.Settling.{names}
use yeetllm.Supervisor.Worker.{
  Worker, WorkerLook, run_state, fail_state, note_exit, note_exits, headless_started,
  headless_launched, headless_prepared, headless_managed, stop_removed, note_results,
  launch_workers, launch_worker_engine,
}

pub record IsWorking (w : Worker) : Type 0 where
  pub distinct : IsDistinct (keys w.engine_states)
  pub known :
      (j : Text)
      → contains (keys w.engine_states) j ≡ true
      → contains (names (slots w.supervisor)) j ≡ true
  pub states : (j v : Text) → lookup j w.engine_states ≡ some v → contains worker_states v ≡ true

pub fail_state_known : contains worker_states fail_state ≡ true
unfolding contains text_beq
fail_state_known = refl

pub run_state_known : contains worker_states run_state ≡ true
unfolding contains text_beq
run_state_known = refl

-- A state is written for a model of the configuration.
put-IsWorking :
    (id v : Text) (w : Worker) (s : Supervisor) (b : Bool)
    → contains worker_states v ≡ true
    → contains (names (slots w.supervisor)) id ≡ true
    → s.config ≡ w.supervisor.config
    → IsWorking w
    → IsWorking
        (record w { engine_states = insert id v w.engine_states; supervisor = s; failure = b })
put-IsWorking id v w s b good inside same i = record {
  distinct = IsDistinct-insert id v w.engine_states i.distinct;
  known = λ j m.
      let moved = contains-insert id j v w.engine_states in
      elim (Bool-cases (id == j)) [
        | inl here ↦ let e : id ≡ j = (eq_iff id j).0 here in rw same (rw (← e) inside)
        | inr other ↦
            let was : contains (keys w.engine_states) j ≡ true = rw (moved, other) at m in
            rw same (i.known j was)
      ];
  states = λ j u h.
      let moved = lookup-insert id j v w.engine_states in
      elim (Bool-cases (id == j)) [
        | inl here ↦
            let e : some v ≡ some u = rw (moved, here) at h in
            let same_state : v ≡ u = cc e in rw (← same_state) good
        | inr other ↦ i.states j u (rw (moved, other) at h)
      ];
}

drop-IsWorking :
    (id : Text) (w : Worker) (s : Supervisor)
    → s.config ≡ w.supervisor.config
    → IsWorking w
    → IsWorking (record w { engine_states = remove id w.engine_states; supervisor = s })
drop-IsWorking id w s same i = record {
  distinct = IsDistinct-remove id w.engine_states i.distinct;
  known = λ j m.
      let moved = contains-remove id j w.engine_states in
      elim (Bool-cases (id == j)) [
        | inl here ↦ let bad : false ≡ true = rw (moved, here) at m in absurd (cc bad)
        | inr other ↦ rw same (i.known j (rw (moved, other) at m))
      ];
  states = λ j u h.
      let moved = lookup-remove id j w.engine_states in
      elim (Bool-cases (id == j)) [
        | inl here ↦ let bad : none ≡ some u = rw (moved, here) at h in absurd (cc bad)
        | inr other ↦ i.states j u (rw (moved, other) at h)
      ];
}

-- Only the supervisor changes, and not its configuration.
pub IsWorking-with :
    (w : Worker) (s : Supervisor)
    → s.config ≡ w.supervisor.config
    → IsWorking w
    → IsWorking (record w { supervisor = s })
IsWorking-with w s same i = record {
  distinct = i.distinct;
  known = λ j m. rw same (i.known j m);
  states = i.states;
}

note_exit-IsWorking :
    (look : WorkerLook) (id status : Text) (w : Worker)
    → contains (names (slots w.supervisor)) id ≡ true
    → IsWorking w
    → ((note_exit look id status w).supervisor.config ≡ w.supervisor.config)
      × IsWorking (note_exit look id status w)
unfolding note_exit set_engine_state
note_exit-IsWorking look id status w inside i =
    elim (Bool-cases
      (has_stopped look.exits (process_of id w.supervisor) && not (status == fail_state))) [
        | inl y ↦ rw y (refl, put-IsWorking id fail_state w _ true fail_state_known inside refl i)
        | inr n ↦ rw n (refl, i)
      ]

note_exits-IsWorking :
    (look : WorkerLook) (ds : Dict Text Text) (w : Worker)
    → ((j : Text) → contains (keys ds) j ≡ true → contains (names (slots w.supervisor)) j ≡ true)
    → IsWorking w
    → ((note_exits look ds w).supervisor.config ≡ w.supervisor.config)
      × IsWorking (note_exits look ds w)
unfolding note_exits contains
note_exits-IsWorking look [] w inside i = (refl, i)
note_exits-IsWorking look ((id, status) ∷ ds) w inside i =
    let (same, j) = note_exit-IsWorking look id status w (inside id (rw (eq_refl id) refl)) i in
    let (rest, k) =
      note_exits-IsWorking look ds (note_exit look id status w)
        (λ x m. rw same (inside x (ground (arith, m)))) j in
    (rest ∙ same, k)

-- The first loop of a round.
pub exits-IsWorking :
    (look : WorkerLook) (w : Worker)
    → IsWorking w
    → ((note_exits look w.engine_states w).supervisor.config ≡ w.supervisor.config)
      × IsWorking (note_exits look w.engine_states w)
exits-IsWorking look w i = note_exits-IsWorking look w.engine_states w i.known i

pub stop_removed-IsWorking :
    (now : ℕ) (ids : List Text) (w : Worker)
    → IsWorking w
    → ((stop_removed now ids w).supervisor.config ≡ w.supervisor.config)
      × IsWorking (stop_removed now ids w)
unfolding stop_removed set_engine_state
stop_removed-IsWorking now [] w i = (refl, i)
stop_removed-IsWorking now (id ∷ ids) w i =
    stop_removed-IsWorking now ids _ (drop-IsWorking id w _ refl i)

pub note_results-IsWorking :
    (now : ℕ) (rs : List (Text × Option Text)) (w : Worker)
    → ((j : Text) → contains (keys rs) j ≡ true → contains (names (slots w.supervisor)) j ≡ true)
    → IsWorking w
    → ((note_results now rs w).supervisor.config ≡ w.supervisor.config)
      × IsWorking (note_results now rs w)
unfolding note_results contains mark_engine_failed set_engine_state
note_results-IsWorking now [] w inside i = (refl, i)
note_results-IsWorking now ((id, none) ∷ rs) w inside i =
    note_results-IsWorking now rs _ (λ x m. inside x (ground (arith, m)))
      (put-IsWorking id run_state w w.supervisor w.failure run_state_known
        (inside id (rw (eq_refl id) refl)) refl i)
note_results-IsWorking now ((id, some message) ∷ rs) w inside i =
    note_results-IsWorking now rs _ (λ x m. inside x (ground (arith, m)))
      (put-IsWorking id fail_state w (mark_engine_failed now id message w.supervisor) true
        fail_state_known (inside id (rw (eq_refl id) refl)) refl i)

config-headless_started :
    (look : WorkerLook) (id : Text) (p : ManagedProcess) (r : Result Text ℕ) (s : Supervisor)
    → (headless_started look id p r s).0.config ≡ s.config
unfolding set_engine_state
config-headless_started look id p (err message) s = refl
config-headless_started look id p (ok pid) s =
    elim (Bool-cases (is_up look.later_exits (some (record p { pid = some pid })))) [
      | inl y ↦ rw y refl
      | inr n ↦ rw n refl
    ]

config-headless_launched :
    (look : WorkerLook) (i : ℕ) (m : ModelConfig) (paths : Dict Text Text) (o : Option EngineRecord)
    (s : Supervisor)
    → (headless_launched look (i, m) paths o s).0.config ≡ s.config
unfolding set_engine_state
config-headless_launched look i m paths none s = refl
config-headless_launched look i m paths (some e) s =
    let p = headless_managed look (i, m) e paths s in
    config-headless_started look m.id p (look.spawn p) _

config-headless_prepared :
    (look : WorkerLook) (i : ℕ) (m : ModelConfig) (r : Result Text (Dict Text Text))
    (s : Supervisor)
    → (headless_prepared look (i, m) r s).0.config ≡ s.config
config-headless_prepared look i m (err message) s = refl
config-headless_prepared look i m (ok paths) s =
    config-headless_launched look i m paths (lookup m.id s.registry.engines) s

pub config-launch_workers :
    (look : WorkerLook) (ps : List Slot) (s : Supervisor)
    → (launch_workers look ps s).0.config ≡ s.config
unfolding launch_workers launch_worker_engine set_engine_state
config-launch_workers look [] s = refl
config-launch_workers look ((i, m) ∷ ps) s =
    config-launch_workers look ps _ ∙ config-headless_prepared look i m (look.resolve m) _
