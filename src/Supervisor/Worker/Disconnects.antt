-- ===== src/Supervisor/Worker/Disconnects.antt =====
-- A worker whose polls all fail gives up in time.
use yeetllm.Common.{
  ℕ, zero, suc, ◌+◌, ◌-◌, ◌≤◌, ◌≡◌, refl, ap, ◌∙◌, inl, inr, arith, true, false, not, ◌&&◌, Option,
  none, some, [], ◌∷◌, leb, ◌==◌, text_eq, Bool-cases, if◌then◌else◌, err,
}
use yeetllm.Common.Dict.{Dict}
use yeetllm.Common.Text.{Text}
use yeetllm.Supervisor.{set_engine_state}
use yeetllm.Supervisor.Monitor.{has_stopped, process_of}
use yeetllm.Supervisor.Worker.{
  Worker, WorkerLook, Turn, again, leave, fail_state, note_exit, note_exits, disconnect_limit,
  disconnected, worker_round, going_on, next_turn, worker_run, worker_exit,
}

-- What the first loop of a round does not change.
abbrev Keeps : Worker → Worker → Type 0
Keeps w v =
    (v.disconnected_since ≡ w.disconnected_since) × (disconnect_limit v ≡ disconnect_limit w)

note_exit-Keeps :
    (look : WorkerLook) (id status : Text) (w : Worker) → Keeps w (note_exit look id status w)
unfolding note_exit set_engine_state
note_exit-Keeps look id status w =
    elim (Bool-cases
      (has_stopped look.exits (process_of id w.supervisor) && not (status == fail_state))) [
        | inl y ↦ rw y (refl, refl)
        | inr n ↦ rw n (refl, refl)
      ]

note_exits-Keeps :
    (look : WorkerLook) (ds : Dict Text Text) (w : Worker) → Keeps w (note_exits look ds w)
unfolding note_exits
note_exits-Keeps look [] w = (refl, refl)
note_exits-Keeps look ((id, status) ∷ ds) w =
    let (since, limit) = note_exit-Keeps look id status w in
    let (since', limit') = note_exits-Keeps look ds (note_exit look id status w) in
    (since' ∙ since, limit' ∙ limit)

-- No poll is answered.
abbrev pub IsUnreachable : (ℕ → WorkerLook) → Type 0
IsUnreachable looks =
    (k : ℕ) (engines : Dict Text Text) → (message : Text) × ((looks k).poll engines ≡ err message)

round_disconnected :
    (looks : ℕ → WorkerLook) (k : ℕ) (w : Worker)
    → IsUnreachable looks
    → (v : Worker) × Keeps w v
      × (worker_round (looks k) w ≡ disconnected (looks k).clock v w.disconnected_since)
unfolding worker_round
round_disconnected looks k w down =
    let v = note_exits (looks k) w.engine_states w in
    let (since, limit) = note_exits-Keeps (looks k) w.engine_states w in
    let (message, bad) = down k v.engine_states in (v, (since, limit), rw (bad, since) refl)

worker_run_next :
    (fuel : ℕ) (looks : ℕ → WorkerLook) (k : ℕ) (w : Worker) (turn : Turn)
    → (looks k).stopping ≡ false
    → worker_round (looks k) w ≡ turn
    → worker_run (suc fuel) looks k w
      ≡ next_turn (worker_run fuel looks (suc k) (going_on w turn)) turn
unfolding worker_run
worker_run_next fuel looks k w turn ongoing h = rw (worker_run, ongoing, h) refl

-- A worker that is left with a failure.
abbrev pub GivesUp : Option Worker → Type 0
GivesUp o = (w : Worker) × (o ≡ some w) × (worker_exit w ≡ 1)

-- A round of a worker that is disconnected since a time: it is left with a failure, or it goes on.
round_since :
    (looks : ℕ → WorkerLook) (k start : ℕ) (w : Worker)
    → IsUnreachable looks
    → w.disconnected_since ≡ some start
    → (v : Worker) × Keeps w v
      × (worker_round (looks k) w ≡ (
          if leb (disconnect_limit v) ((looks k).clock - start)
          then leave (record v { failure = true })
          else again v))
round_since looks k start w down since =
    let (v, kept, turned) = round_disconnected looks k w down in
    (v, kept, turned ∙ ap (disconnected (looks k).clock v) since)

worker_run_late :
    (fuel : ℕ) (looks : ℕ → WorkerLook) (k start : ℕ) (w : Worker)
    → ((j : ℕ) → (looks j).stopping ≡ false)
    → IsUnreachable looks
    → ((j : ℕ) → start + j ≤ (looks j).clock)
    → w.disconnected_since ≡ some start
    → disconnect_limit w ≤ fuel + k
    → GivesUp (worker_run (suc fuel) looks k w)
worker_run_late zero looks k start w ongoing down ticks since near =
    let (v, (since', limit), turned) = round_since looks k start w down since in
    let tick = ticks k in
    let late : leb (disconnect_limit v) ((looks k).clock - start) ≡ true = ground (arith, limit) in
    let left : worker_round (looks k) w ≡ leave (record v { failure = true }) =
      turned ∙ rw late refl in
    (record v { failure = true }, worker_run_next zero looks k w _ (ongoing k) left, refl)
worker_run_late (suc fuel) looks k start w ongoing down ticks since near =
    let (v, (since', limit), turned) = round_since looks k start w down since in
    elim (Bool-cases (leb (disconnect_limit v) ((looks k).clock - start))) [
      | inl late ↦
          let left : worker_round (looks k) w ≡ leave (record v { failure = true }) =
            turned ∙ rw late refl in
          (
            record v { failure = true },
            worker_run_next (suc fuel) looks k w _ (ongoing k) left,
            refl,
          )
      | inr early ↦
          let on : worker_round (looks k) w ≡ again v = turned ∙ rw early refl in
          let (u, ended, code) =
            worker_run_late fuel looks (suc k) start v ongoing down ticks (since' ∙ since)
              (omega (arith, limit)) in
          (u, worker_run_next (suc fuel) looks k w _ (ongoing k) on ∙ ended, code)
    ]

-- A worker that is not asked to stop, that is not disconnected yet, whose polls all fail from here on
-- and whose clock is at least a second further in each round, leaves its loop within two rounds more than
-- the limit has seconds, and its exit code is 1. The limit is 60 seconds once it has been connected, and
-- the configured start-up timeout before.
pub worker_run-unreachable :
    (looks : ℕ → WorkerLook) (w : Worker)
    → ((k : ℕ) → (looks k).stopping ≡ false)
    → IsUnreachable looks
    → ((j : ℕ) → (looks 0).clock + j ≤ (looks j).clock)
    → w.disconnected_since ≡ none
    → GivesUp (worker_run (suc (suc (disconnect_limit w))) looks 0 w)
worker_run-unreachable looks w ongoing down ticks since =
    let (v, (since', limit), turned) = round_disconnected looks 0 w down in
    let start = (looks 0).clock in
    let v' : Worker = record v { disconnected_since = some start } in
    let on : worker_round (looks 0) w ≡ again v' = turned ∙ ap (disconnected start v) since in
    let (u, ended, code) =
      worker_run_late (disconnect_limit w) looks 1 start v' ongoing down ticks refl
        (omega (arith, limit)) in
    (u, worker_run_next (suc (disconnect_limit w)) looks 0 w _ (ongoing 0) on ∙ ended, code)
