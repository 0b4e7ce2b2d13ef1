-- ===== src/Supervisor/Worker/Rounds.antt =====
-- The rounds of a worker keep its states in order, so that the coordinator accepts each poll.
use yeetllm.Common.{
  ℕ, ◌-◌, leb, ◌≤◌, ◌<◌, ◌≡◌, refl, inl, inr, arith, true, not, Option, none, some, List, keep,
  nat_eq, text_eq, contains, is_subset, contains_of_subset, all_of_contains, Bool-cases, ok,
  Result-cases,
}
use yeetllm.Common.Dict.{keys, values, all_of_lookup}
use yeetllm.Common.Text.{Text}
use yeetllm.Cluster.Coordinator.{Coordinator, Response, worker_states, process, store}
use yeetllm.Supervisor.State.{touch}
use yeetllm.Supervisor.Startup.{slots}
use yeetllm.Supervisor.Startup.Settling.{names}
use yeetllm.Supervisor.Worker.{
  Worker, WorkerLook, again, leave, with_desired, note_exits, disconnect_limit, disconnected,
  stop_removed, new_slots, launch_workers, note_results, follow, on_response, worker_round, payload,
}
use yeetllm.Supervisor.Worker.Polling.{process-payload}
use yeetllm.Supervisor.Worker.Tracking.{
  IsWorking, IsWorking-with, exits-IsWorking, stop_removed-IsWorking, note_results-IsWorking,
  config-launch_workers,
}
use yeetllm.Supervisor.Worker.Following.{contains-new_slots, keys-launch_workers}

follow-IsWorking :
    (look : WorkerLook) (desired : List Text) (w : Worker)
    → IsWorking w
    → IsWorking (follow look desired w)
unfolding follow touch
follow-IsWorking look desired w i =
    let gone = keep (λ id. not (contains desired id)) (keys w.engine_states) in
    let w' : Worker = record w { supervisor = with_desired desired w.supervisor } in
    let kept = stop_removed look.now gone w' in
    let (same, k) = stop_removed-IsWorking look.now gone w' (IsWorking-with w _ refl i) in
    let fresh = new_slots desired kept.engine_states (slots kept.supervisor) in
    let launched = launch_workers look fresh kept.supervisor in
    let config = config-launch_workers look fresh kept.supervisor in
    let l : IsWorking (record kept { supervisor = launched.0 }) =
      IsWorking-with kept launched.0 config k in
    let (_, n) =
      note_results-IsWorking look.now launched.1 (record kept { supervisor = launched.0 })
        (λ j m.
          let tried : contains (names fresh) j ≡ true =
            rw (← keys-launch_workers look fresh kept.supervisor) m in
          let new = contains-new_slots desired kept.engine_states (slots kept.supervisor) j in
          let inside : contains (names (slots kept.supervisor)) j ≡ true = ground arith in
          rw config inside)
        l in
    IsWorking-with (note_results look.now launched.1 (record kept { supervisor = launched.0 })) _
      refl n

disconnected-IsWorking :
    (clock : ℕ) (w w' : Worker) (o : Option ℕ)
    → IsWorking w
    → disconnected clock w o ≡ again w'
    → IsWorking w'
disconnected-IsWorking clock w w' none i h =
    let same : record w { disconnected_since = some clock } ≡ w' = cc h in
    rw (← same) (record { distinct = i.distinct; known = i.known; states = i.states })
disconnected-IsWorking clock w w' (some since) i h =
    elim (Bool-cases (leb (disconnect_limit w) (clock - since))) [
      | inl y ↦
          let bad : leave (record w { failure = true }) ≡ again w' = rw y at h in absurd (cc bad)
      | inr n ↦
          let on : again w ≡ again w' = rw n at h in let same : w ≡ w' = cc on in rw (← same) i
    ]

on_response-IsWorking :
    (look : WorkerLook) (response : Response) (w w' : Worker)
    → IsWorking w
    → on_response look response w ≡ again w'
    → IsWorking w'
on_response-IsWorking look response w w' i h =
    let connected : Worker = record w { disconnected_since = none; connected_once = true } in
    let j : IsWorking connected = record {
      distinct = i.distinct;
      known = i.known;
      states = i.states;
    } in
    elim (Bool-cases response.shutdown) [
      | inl y ↦ let bad : leave connected ≡ again w' = rw y at h in absurd (cc bad)
      | inr n ↦
          let on : again (follow look response.desired connected) ≡ again w' = rw n at h in
          let last : follow look response.desired connected ≡ w' = cc on in
          rw (← last) (follow-IsWorking look response.desired connected j)
    ]

-- A round that goes on keeps the states of the worker in order: one for each engine, of models of the
-- configuration, and in the words of the protocol.
pub worker_round-IsWorking :
    (look : WorkerLook) (w w' : Worker)
    → IsWorking w
    → worker_round look w ≡ again w'
    → IsWorking w'
unfolding worker_round
worker_round-IsWorking look w w' i h =
    let noted = note_exits look w.engine_states w in
    let (_, j) = exits-IsWorking look w i in
    elim (Result-cases (look.poll noted.engine_states)) [
      | inl (response, good) ↦
          let on : on_response look response noted ≡ again w' = rw good at h in
          on_response-IsWorking look response noted w' j on
      | inr (message, bad) ↦
          let on : disconnected look.clock noted noted.disconnected_since ≡ again w' =
            rw bad at h in
          disconnected-IsWorking look.clock noted w' noted.disconnected_since j on
    ]

-- With its states in order, the poll of a round is accepted by a coordinator that knows the models, has
-- the same configuration and counts the worker's rank.
pub note_exits-accepted :
    (look : WorkerLook) (w : Worker) (now rank : ℕ) (c : Coordinator)
    → IsWorking w
    → 1 ≤ rank
    → rank < c.node_count
    → is_subset (names (slots w.supervisor)) c.allowed_engines ≡ true
    → process now (payload rank c.config_hash (note_exits look w.engine_states w).engine_states) c
      ≡ ok (store now c rank (note_exits look w.engine_states w).engine_states)
note_exits-accepted look w now rank c i low high known =
    let noted = note_exits look w.engine_states w in
    let (config, j) = exits-IsWorking look w i in
    let inside : is_subset (keys noted.engine_states) c.allowed_engines ≡ true =
      all_of_contains (contains c.allowed_engines) (keys noted.engine_states) (λ id m.
        let model : contains (names (slots w.supervisor)) id ≡ true =
          rw (← config) (j.known id m) in
        contains_of_subset (names (slots w.supervisor)) c.allowed_engines id known model) in
    let states : is_subset (values noted.engine_states) worker_states ≡ true =
      all_of_lookup (contains worker_states) noted.engine_states j.distinct j.states in
    process-payload now rank noted.engine_states c low high inside states
