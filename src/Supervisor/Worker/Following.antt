-- ===== src/Supervisor/Worker/Following.antt =====
-- A worker follows the primary: after a poll it holds a state for each engine that the primary wants.
use yeetllm.Common.{
  ℕ, ◌≡◌, refl, ap, ◌∙◌, inl, inr, arith, Bool, true, false, not, ◌&&◌, ◌||◌, Option, none, some,
  List, [], ◌∷◌, keep, ◌==◌, text_eq, eq_iff, contains, Bool-cases,
}
use yeetllm.Common.Dict.{Dict, keys, contains-insert, contains-remove}
use yeetllm.Common.Text.{Text}
use yeetllm.Config.Types.{YeetConfig}
use yeetllm.Supervisor.{Supervisor, set_engine_state}
use yeetllm.Supervisor.Startup.{Slot, slots, indexed}
use yeetllm.Supervisor.Startup.Settling.{names}
use yeetllm.Supervisor.Worker.{
  Worker, WorkerLook, run_state, fail_state, with_desired, stop_removed, new_slots, launch_workers,
  note_results, follow,
}
use yeetllm.Supervisor.Worker.Tracking.{IsWorking}

contains-stop_removed :
    (now : ℕ) (ids : List Text) (w : Worker) (j : Text)
    → contains (keys (stop_removed now ids w).engine_states) j
      ≡ (contains (keys w.engine_states) j && not (contains ids j))
unfolding stop_removed contains
contains-stop_removed now [] w j = ground arith
contains-stop_removed now (id ∷ ids) w j =
    contains-stop_removed now ids _ j ∙ ground (arith, contains-remove id j w.engine_states)

contains-keep :
    (p : Text → Bool) (xs : List Text) (j : Text) → contains (keep p xs) j ≡ (contains xs j && p j)
unfolding keep contains
contains-keep p [] j = refl
contains-keep p (x ∷ xs) j =
    let rest = contains-keep p xs j in
    elim (Bool-cases (x == j)) [
      | inl here ↦
          let e : p x ≡ p j = ap p ((eq_iff x j).0 here) in
          elim (Bool-cases (p x)) [ inl y ↦ ground arith | inr n ↦ ground arith ]
      | inr other ↦ elim (Bool-cases (p x)) [ inl y ↦ ground arith | inr n ↦ ground arith ]
    ]

pub contains-new_slots :
    (desired : List Text) (states : Dict Text Text) (ps : List Slot) (j : Text)
    → contains (names (new_slots desired states ps)) j
      ≡ (contains (names ps) j && (contains desired j && not (contains (keys states) j)))
unfolding new_slots names contains
contains-new_slots desired states [] j = refl
contains-new_slots desired states ((i, m) ∷ ps) j =
    let rest = contains-new_slots desired states ps j in
    let test : Text → Bool = λ id. contains desired id && not (contains (keys states) id) in
    elim (Bool-cases (m.id == j)) [
      | inl here ↦
          let e : test m.id ≡ test j = ap test ((eq_iff m.id j).0 here) in
          elim (Bool-cases (test m.id)) [
            | inl y ↦ rw (y, here) (ground arith)
            | inr n ↦ rw (n, here) (ground arith)
          ]
      | inr other ↦ elim (Bool-cases (test m.id)) [
        | inl y ↦ rw (y, other) (ground arith)
        | inr n ↦ rw (n, other) (ground arith)
      ]
    ]

pub keys-launch_workers :
    (look : WorkerLook) (ps : List Slot) (s : Supervisor)
    → keys (launch_workers look ps s).1 ≡ names ps
unfolding launch_workers names
keys-launch_workers look [] s = refl
keys-launch_workers look ((i, m) ∷ ps) s = ap (λ ids. m.id ∷ ids) (keys-launch_workers look ps _)

contains-note_results :
    (now : ℕ) (rs : List (Text × Option Text)) (w : Worker) (j : Text)
    → contains (keys (note_results now rs w).engine_states) j
      ≡ (contains (keys w.engine_states) j || contains (keys rs) j)
unfolding note_results contains
contains-note_results now [] w j = ground arith
contains-note_results now ((id, none) ∷ rs) w j =
    contains-note_results now rs _ j
    ∙ ground (arith, contains-insert id j run_state w.engine_states)
contains-note_results now ((id, some message) ∷ rs) w j =
    contains-note_results now rs _ j
    ∙ ground (arith, contains-insert id j fail_state w.engine_states)

config-stop_removed :
    (now : ℕ) (ids : List Text) (w : Worker)
    → (stop_removed now ids w).supervisor.config ≡ w.supervisor.config
unfolding stop_removed set_engine_state
config-stop_removed now [] w = refl
config-stop_removed now (id ∷ ids) w = config-stop_removed now ids _

-- The three sets, by an element.
followed :
    (had wanted model : Bool)
    → (had ≡ true → model ≡ true)
    → ((had && wanted) || (model && (wanted && not (had && wanted)))) ≡ (model && wanted)
followed true wanted model h = let m = h refl in ground arith
followed false wanted model h = ground arith

-- After a round that the primary answered, a worker holds a state for a model exactly if the primary
-- wants it: what is no longer wanted is dropped and every new model has been tried. The states that
-- it held are of models of the configuration.
pub follow-desired :
    (look : WorkerLook) (desired : List Text) (w : Worker) (j : Text)
    → IsWorking w
    → contains (keys (follow look desired w).engine_states) j
      ≡ (contains (names (slots w.supervisor)) j && contains desired j)
unfolding follow
follow-desired look desired w j i =
    let unwanted : Text → Bool = λ id. not (contains desired id) in
    let gone = keep unwanted (keys w.engine_states) in
    let w' : Worker = record w { supervisor = with_desired desired w.supervisor } in
    let kept = stop_removed look.now gone w' in
    let fresh = new_slots desired kept.engine_states (slots kept.supervisor) in
    let launched = launch_workers look fresh kept.supervisor in
    let noted =
      contains-note_results look.now launched.1 (record kept { supervisor = launched.0 }) j in
    let tried : contains (keys launched.1) j ≡ contains (names fresh) j =
      ap (λ ids. contains ids j) (keys-launch_workers look fresh kept.supervisor) in
    let new = contains-new_slots desired kept.engine_states (slots kept.supervisor) j in
    let old = contains-stop_removed look.now gone w' j in
    let cut = contains-keep unwanted (keys w.engine_states) j in
    let same : contains (names (slots kept.supervisor)) j
        ≡ contains (names (slots w.supervisor)) j =
      ap (λ (c : YeetConfig). contains (names (indexed 0 c.models)) j)
        (config-stop_removed look.now gone w') in
    let was : contains (keys kept.engine_states) j
        ≡ (contains (keys w.engine_states) j && contains desired j) =
      old ∙ ground (arith, cut) in
    let now_new : contains (names fresh) j ≡ (
        contains (names (slots w.supervisor)) j
        && (contains desired j && not (contains (keys w.engine_states) j && contains desired j))) =
      new ∙ rw (same, was) refl in
    noted
    ∙ rw (was, tried, now_new)
        (followed (contains (keys w.engine_states) j) (contains desired j)
          (contains (names (slots w.supervisor)) j) (i.known j))
