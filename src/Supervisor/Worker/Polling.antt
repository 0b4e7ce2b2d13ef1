-- ===== src/Supervisor/Worker/Polling.antt =====
-- A worker and the coordinator: what the worker sends is accepted, and lets the primary go on.
use yeetllm.Common.{
  ℕ, ◌≤◌, ◌<◌, ◌≡◌, refl, arith, true, [], ◌∷◌, ◌==◌, nat_eq, text_eq, text_beq, eq_refl, all,
  contains, is_subset, ok,
}
use yeetllm.Common.Dict.{Dict, keys, values}
use yeetllm.Common.Int.{pos}
use yeetllm.Common.Json.{get, members}
use yeetllm.Common.Text.{Text}
use yeetllm.Cluster.Coordinator.{
  Coordinator, in_ranks, worker_states, worker_engines, process_poll, process, store,
}
use yeetllm.Supervisor.Worker.{states_json, payload}

keys-states_json : (d : Dict Text Text) → keys (members (states_json d)) ≡ keys d
keys-states_json [] = refl
keys-states_json ((id, state) ∷ d) = ground (arith, keys-states_json d)

worker_engines-states_json :
    (d : Dict Text Text)
    → is_subset (values d) worker_states ≡ true
    → worker_engines (members (states_json d)) ≡ ok d
unfolding worker_engines all
worker_engines-states_json [] h = refl
worker_engines-states_json ((id, state) ∷ d) h =
    let here : contains worker_states state ≡ true = ground arith in
    rw (here, worker_engines-states_json d (ground arith)) refl

in_ranks-ok : (count rank : ℕ) → 1 ≤ rank → rank < count → in_ranks count (pos rank) ≡ ok rank
in_ranks-ok count rank low high = ground arith

-- The coordinator accepts the poll of a worker that has its configuration, whose rank is a worker's,
-- and whose engines are known and in states of the protocol: it keeps exactly what the worker holds,
-- and replies with the engines that it wants.
pub process-payload :
    (now rank : ℕ) (engines : Dict Text Text) (c : Coordinator)
    → 1 ≤ rank
    → rank < c.node_count
    → is_subset (keys engines) c.allowed_engines ≡ true
    → is_subset (values engines) worker_states ≡ true
    → process now (payload rank c.config_hash engines) c ≡ ok (store now c rank engines)
unfolding process process_poll payload get text_beq
process-payload now rank engines c low high known states =
    let same : (c.config_hash == c.config_hash) ≡ true = eq_refl c.config_hash in
    let sent : is_subset (keys (members (states_json engines))) c.allowed_engines ≡ true =
      rw (keys-states_json engines) known in
    rw
      (
        same,
        in_ranks-ok c.node_count rank low high,
        sent,
        worker_engines-states_json engines states,
      )
      refl
