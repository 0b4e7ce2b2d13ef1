-- ===== src/Cluster/Coordinator/Readiness.antt =====
-- When the primary goes on: `all_workers_running` and one round of `wait_workers`.
use yeetllm.Common.{
  ℕ, zero, suc, ◌+◌, ◌≤◌, ◌<◌, ◌≡◌, refl, ◌↔◌, inl, inr, arith, true, some, List, [], ◌∷◌, ◌==◌,
  nat_eq, text_eq, all, contains, is_subset, contains_of_subset, All, Bool-cases, Option-cases,
  eq_iff,
}
use yeetllm.Common.Dict.{Dict, keys, values, lookup}
use yeetllm.Common.Text.{Text, codes}
use yeetllm.Cluster.Coordinator.{
  Coordinator, WorkerReport, worker_ranks, is_running, is_fresh_running, all_workers_running,
}

pub contains-worker_ranks : (n r : ℕ) → (contains (worker_ranks n) r ≡ true) ↔ ((1 ≤ r) × (r < n))
unfolding worker_ranks contains
contains-worker_ranks zero r = ground arith
contains-worker_ranks (suc zero) r = ground arith
contains-worker_ranks (suc (suc n)) r = ground (arith, contains-worker_ranks (suc n) r)

-- The report of a worker is recent and has all the engines running.
abbrev pub IsUp : ℕ → ℕ → List Text → WorkerReport → Type 0
IsUp now stale_after ids report =
    (now ≤ report.last_seen + stale_after)
    × All (λ engine_id. lookup engine_id report.engines ≡ some (codes "running")) ids

pub is_running_iff :
    (engines : Dict Text Text) (engine_id : Text)
    → (is_running engines engine_id ≡ true) ↔ (lookup engine_id engines ≡ some (codes "running"))
unfolding is_running
is_running_iff engines engine_id = elim (Option-cases (lookup engine_id engines)) [
  | inl absent ↦ rw absent (ground arith)
  | inr (s, present) ↦ rw present (ground (arith, eq_iff s (codes "running")))
]

all-is_running :
    (engines : Dict Text Text) (ids : List Text)
    → all (is_running engines) ids ≡ true
    → All (λ engine_id. lookup engine_id engines ≡ some (codes "running")) ids
unfolding all
all-is_running engines [] h = tt
all-is_running engines (i ∷ ids) h =
    ground (arith, is_running_iff engines i, all-is_running engines ids)

lookup-IsUp :
    (now stale_after : ℕ) (ids : List Text) (reports : Dict ℕ WorkerReport) (r : ℕ)
    → all (is_fresh_running now stale_after ids) (values reports) ≡ true
    → contains (keys reports) r ≡ true
    → (report : WorkerReport) × (lookup r reports ≡ some report) × IsUp now stale_after ids report
unfolding all contains lookup
lookup-IsUp now stale_after ids [] r h m = cc
lookup-IsUp now stale_after ids ((k, report) ∷ reports) r h m = elim (Bool-cases (k == r)) [
  | inl same ↦
      (report, rw same refl, (ground arith, all-is_running report.engines ids (ground arith)))
  | inr other ↦
      let (found, there, up) =
        lookup-IsUp now stale_after ids reports r (ground arith) (ground arith) in
      (found, rw other there, up)
]

-- When the coordinator finds all workers running, each rank from 1 below the number of nodes has a
-- report that is not stale and has every one of the engines running, and no other rank has a report.
pub all_workers_running_sound :
    (now stale_after : ℕ) (ids : List Text) (c : Coordinator) (r : ℕ)
    → all_workers_running now stale_after ids c ≡ true
    → ((1 ≤ r) × (r < c.node_count)
        → (report : WorkerReport) × (lookup r c.reports ≡ some report)
          × IsUp now stale_after ids report)
      × (contains (keys c.reports) r ≡ true → (1 ≤ r) × (r < c.node_count))
unfolding all_workers_running
all_workers_running_sound now stale_after ids c r h =
    let inside : is_subset (keys c.reports) (worker_ranks c.node_count) ≡ true = ground arith in
    let outside : is_subset (worker_ranks c.node_count) (keys c.reports) ≡ true = ground arith in
    let fresh : all (is_fresh_running now stale_after ids) (values c.reports) ≡ true =
      ground arith in
    (
      λ worker. lookup-IsUp now stale_after ids c.reports r fresh (
          contains_of_subset (worker_ranks c.node_count) (keys c.reports) r outside
            ((contains-worker_ranks c.node_count r).1 worker)),
      λ m.
          (contains-worker_ranks c.node_count r).0
            (contains_of_subset (keys c.reports) (worker_ranks c.node_count) r inside m),
    )
