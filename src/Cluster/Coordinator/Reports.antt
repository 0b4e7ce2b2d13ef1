-- ===== src/Cluster/Coordinator/Reports.antt =====
-- What the coordinator keeps of the workers' reports, along any sequence of its calls.
use yeetllm.Common.{
  ℕ, ◌≤◌, ◌<◌, ◌≡◌, refl, inl, inr, arith, true, false, Option, some, List, [], ◌∷◌, ◌==◌, nat_eq,
  text_eq, all, contains, is_subset, IsDistinct, ok, >>=-eq-ok, All, Bool-cases, eq_iff,
}
use yeetllm.Common.Dict.{Dict, keys, values, insert}
use yeetllm.Common.Text.{Text, codes}
use yeetllm.Common.Int.{ℤ, pos, negsuc}
use yeetllm.Common.Json.{Json, Fields, bool, int, str, obj, get, members}
use yeetllm.Cluster.Coordinator.{
  Coordinator, WorkerReport, Response, in_ranks, rank_of, worker_states, worker_state,
  worker_engines, engines_of, process_poll, process, process_report, store,
}

-- A report of the worker with this rank, about known engines, in the states of the protocol.
abbrev pub IsReport : Coordinator → ℕ × WorkerReport → Type 0
IsReport c (rank, report) =
    (1 ≤ rank)
    × (rank < c.node_count)
    × (report.rank ≡ rank)
    × (is_subset (keys report.engines) c.allowed_engines ≡ true)
    × (is_subset (values report.engines) worker_states ≡ true)

abbrev pub IsValid : Coordinator → Type 0
IsValid c =
    All (IsReport c) c.reports
    × IsDistinct (keys c.reports)
    × (is_subset c.desired c.allowed_engines ≡ true)

pub All-insert :
    (P : ℕ × WorkerReport → Type 0) (k : ℕ) (v : WorkerReport) (d : Dict ℕ WorkerReport)
    → P (k, v)
    → All P d
    → All P (insert k v d)
unfolding insert
All-insert P k v [] h hs = (h, tt)
All-insert P k v ((j, w) ∷ d) h hs = elim (Bool-cases (j == k)) [
  | inl same ↦ let p : j ≡ k = (eq_iff j k).0 same in rw (same, p) (h, hs.1)
  | inr other ↦ rw other (hs.0, All-insert P k v d h hs.1)
]

in_ranks-bounds :
    (count : ℕ) (i : ℤ) (rank : ℕ) → in_ranks count i ≡ ok rank → (1 ≤ rank) × (rank < count)
in_ranks-bounds count (pos n) rank h = ground arith
in_ranks-bounds count (negsuc n) rank h = cc

rank_of-bounds :
    (count : ℕ) (j : Option Json) (rank : ℕ)
    → rank_of count j ≡ ok rank
    → (1 ≤ rank) × (rank < count)
rank_of-bounds count (some (int i)) rank h = in_ranks-bounds count i rank h
rank_of-bounds count (some (bool true)) rank h = in_ranks-bounds count (pos 1) rank h
rank_of-bounds count (some (bool false)) rank h = in_ranks-bounds count (pos 0) rank h
rank_of-bounds count _ rank h = cc

pub worker_state-known :
    (j : Json) (s : Text) → worker_state j ≡ ok s → contains worker_states s ≡ true
worker_state-known (str t) s h = elim (Bool-cases (contains worker_states t)) [
  | inl y ↦ ground arith
  | inr n ↦ ground arith
]
worker_state-known _ s h = cc

worker_engines_sound :
    (d : Dict Text Json) (engines : Dict Text Text)
    → worker_engines d ≡ ok engines
    → (keys engines ≡ keys d) × (is_subset (values engines) worker_states ≡ true)
unfolding worker_engines all
worker_engines_sound [] engines h = ground arith
worker_engines_sound ((k, v) ∷ d) engines h =
    let (s, first, more) = >>=-eq-ok (worker_state v) _ h in
    let (rest, second, whole) = >>=-eq-ok (worker_engines d) _ more in
    ground (arith, worker_state-known v s first, worker_engines_sound d rest second)

engines_of_sound :
    (allowed : List Text) (j : Option Json) (engines : Dict Text Text)
    → engines_of allowed j ≡ ok engines
    → (is_subset (keys engines) allowed ≡ true) × (is_subset (values engines) worker_states ≡ true)
engines_of_sound allowed (some (obj fs)) engines h =
    let known : is_subset (keys (members fs)) allowed ≡ true =
      elim (Bool-cases (is_subset (keys (members fs)) allowed)) [
        | inl y ↦ y
        | inr n ↦ absurd (ground arith)
      ] in
    let read : worker_engines (members fs) ≡ ok engines = rw known at h in
    let (same, states) = worker_engines_sound (members fs) engines read in (rw same known, states)
engines_of_sound allowed _ engines h = cc

process_report-ok :
    (now : ℕ) (fs : Fields) (c d : Coordinator) (r : Response)
    → process_report now fs c ≡ ok (r, d)
    → (rank : ℕ) × (engines : Dict Text Text) × IsReport c
        (rank, record { rank = rank; last_seen = now; engines = engines })
      × ((r, d) ≡ store now c rank engines)
process_report-ok now fs c d r h =
    let (rank, ranked, more) = >>=-eq-ok (rank_of c.node_count (get (codes "rank") fs)) _ h in
    let (engines, read, stored) =
      >>=-eq-ok (engines_of c.allowed_engines (get (codes "engines") fs)) _ more in
    let (low, high) = rank_of-bounds c.node_count (get (codes "rank") fs) rank ranked in
    let (known, states) =
      engines_of_sound c.allowed_engines (get (codes "engines") fs) engines read in
    (rank, engines, (low, high, refl, known, states), cc)

-- An accepted poll changes the coordinator by one report, whose rank is a worker's and whose engines
-- are known and in a state of the protocol; the reply tells what the coordinator wants.
pub process-ok :
    (now : ℕ) (request : Json) (c d : Coordinator) (r : Response)
    → process now request c ≡ ok (r, d)
    → (rank : ℕ) × (engines : Dict Text Text) × IsReport c
        (rank, record { rank = rank; last_seen = now; engines = engines })
      × ((r, d) ≡ store now c rank engines)
unfolding process process_poll
process-ok now (obj fs) c d r h = process_report-ok now fs c d r (ground arith)
process-ok now _ c d r h = cc
