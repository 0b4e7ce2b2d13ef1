-- ===== src/Cluster/Coordinator.antt =====
-- `ClusterCoordinator` of cluster.py: the primary's state, and what each message does to it. Times
-- are ticks of `time.time()`; a call is given what the clock reads in it.
pub mod Reports
pub mod History
pub mod Readiness
use yeetllm.Common.{
  ℕ, zero, suc, ◌+◌, ◌*◌, Bool, true, false, not, ◌&&◌, Option, none, some, List, [], ◌∷◌, leb, ltb,
  ◌==◌, nat_eq, text_eq, length, all, contains, is_subset, Result, ok, err, ◌>>=◌, ◌>>◌, raise_if,
  if◌then◌else◌,
}
use yeetllm.Common.Dict.{Dict, keys, values, lookup, insert}
use yeetllm.Common.Text.{Text, Bytes, codes}
use yeetllm.Common.Int.{ℤ, pos, negsuc}
use yeetllm.Common.Json.{Json, Fields, null, bool, int, float, str, arr, obj, get, members}

pub record WorkerReport : Type 0 where
  pub rank : ℕ
  pub last_seen : ℕ
  pub engines : Dict Text Text

-- `allowed_engines` is a set: a list that is only searched. Of `ClusterInfo`, only `node_count` is used.
pub record Coordinator : Type 0 where
  pub node_count : ℕ
  pub config_hash : Text
  pub allowed_engines : List Text
  pub desired : List Text
  pub generation : ℕ
  pub shutting_down : Bool
  pub reports : Dict ℕ WorkerReport

-- The exceptions that `_process` and `set_desired` raise, in the order of the checks.
pub data ProtocolError : Type 0 where
  unsupported_operation : ProtocolError
  hash_mismatch : ProtocolError
  invalid_rank : ProtocolError
  unknown_engine : ProtocolError
  unhashable_state : ProtocolError
  invalid_engine_state : ProtocolError
  message_too_large : ProtocolError
  not_json : ProtocolError
  unknown_desired : ProtocolError

pub record Response : Type 0 where
  pub generation : ℕ
  pub desired : List Text
  pub shutdown : Bool

-- `__init__`
abbrev pub coordinator : ℕ → Text → List Text → Coordinator
coordinator node_count config_hash allowed_engines = record {
  node_count = node_count;
  config_hash = config_hash;
  allowed_engines = allowed_engines;
  desired = [];
  generation = 0;
  shutting_down = false;
  reports = [];
}

-- A member that is the given string.
abbrev pub is_text : Text → Option Json → Bool
is_text s (some (str t)) = t == s
is_text s _ = false

-- `isinstance(rank, int)` and the bounds; a Boolean is an integer in Python, 0 or 1.
abbrev pub in_ranks : ℕ → ℤ → Result ProtocolError ℕ
in_ranks count (pos n) =
    if leb n 0 then err invalid_rank else if leb count n then err invalid_rank else ok n
in_ranks count (negsuc n) = err invalid_rank

abbrev pub rank_of : ℕ → Option Json → Result ProtocolError ℕ
rank_of count (some (int i)) = in_ranks count i
rank_of count (some (bool true)) = in_ranks count (pos 1)
rank_of count (some (bool false)) = in_ranks count (pos 0)
rank_of count _ = err invalid_rank

abbrev pub worker_states : List Text
worker_states = codes "starting" ∷ codes "running" ∷ codes "failed" ∷ []

-- `value in {"starting", "running", "failed"}`; a list or an object is not hashable
abbrev pub worker_state : Json → Result ProtocolError Text
worker_state (str s) = if contains worker_states s then ok s else err invalid_engine_state
worker_state (arr xs) = err unhashable_state
worker_state (obj fs) = err unhashable_state
worker_state _ = err invalid_engine_state

unfoldable pub worker_engines : Dict Text Json → Result ProtocolError (Dict Text Text)
worker_engines [] = ok []
worker_engines ((k, v) ∷ d) =
    worker_state v >>= λ s. worker_engines d >>= λ rest. ok ((k, s) ∷ rest)

abbrev pub engines_of : List Text → Option Json → Result ProtocolError (Dict Text Text)
engines_of allowed (some (obj fs)) =
    raise_if (not (is_subset (keys (members fs)) allowed)) unknown_engine
    >> worker_engines (members fs)
engines_of allowed _ = err unknown_engine

abbrev pub store : ℕ → Coordinator → ℕ → Dict Text Text → Response × Coordinator
store now c rank engines = (
  record { generation = c.generation; desired = c.desired; shutdown = c.shutting_down },
  record c {
    reports = insert rank (record { rank = rank; last_seen = now; engines = engines }) c.reports;
  },
)

-- `_process` after the checks of the operation and of the hash
abbrev pub process_report : ℕ → Fields → Coordinator → Result ProtocolError (Response × Coordinator)
process_report now fs c = rank_of c.node_count (get (codes "rank") fs) >>= λ rank.
    engines_of c.allowed_engines (get (codes "engines") fs) >>= λ engines.
    ok (store now c rank engines)

-- `_process`: the reply, and the coordinator with the worker's report
unfoldable pub process_poll :
    ℕ → Fields → Coordinator → Result ProtocolError (Response × Coordinator)
process_poll now fs c =
    if not (is_text (codes "poll") (get (codes "op") fs))
    then err unsupported_operation
    else if not (is_text c.config_hash (get (codes "config_hash") fs))
    then err hash_mismatch
    else process_report now fs c

unfoldable pub process : ℕ → Json → Coordinator → Result ProtocolError (Response × Coordinator)
unfolding process_poll
process now (obj fs) c = process_poll now fs c
process now _ c = err unsupported_operation

-- The reply that `_handle` writes.
pub data Reply : Type 0 where
  accepted : Response → Reply
  refused : ProtocolError → Reply

abbrev pub reply : Coordinator → Result ProtocolError (Response × Coordinator) → Reply × Coordinator
reply c (ok (r, d)) = (accepted r, d)
reply c (err e) = (refused e, c)

-- `_handle`, on the line that was read; `loads` is `json.loads`
unfoldable pub handle : (Bytes → Option Json) → ℕ → Bytes → Coordinator → Reply × Coordinator
unfolding process
handle loads now raw c =
    if ltb (64 * 1024) (length raw) then (refused message_too_large, c) else elim (loads raw) [
      | none ↦ (refused not_json, c)
      | some request ↦ reply c (process now request c)
    ]

-- `selected == self.desired`
unfoldable pub same_texts : List Text → List Text → Bool
same_texts [] [] = true
same_texts (s ∷ ss) (t ∷ ts) = s == t && same_texts ss ts
same_texts _ _ = false

unfoldable pub set_desired : List Text → Coordinator → Result ProtocolError Coordinator
unfolding same_texts
set_desired engine_ids c =
    raise_if (not (is_subset engine_ids c.allowed_engines)) unknown_desired
    >> ok (
        if same_texts engine_ids c.desired
        then c
        else record c { desired = engine_ids; generation = suc c.generation })

-- `close`, apart from the socket
unfoldable pub close : Coordinator → Coordinator
close c = record c { shutting_down = true }

-- `set(range(1, node_count))`
unfoldable pub worker_ranks : ℕ → List ℕ
worker_ranks zero = []
worker_ranks (suc zero) = []
worker_ranks (suc (suc n)) = suc n ∷ worker_ranks (suc n)

unfoldable pub is_running : Dict Text Text → Text → Bool
unfolding lookup
is_running engines engine_id = elim (lookup engine_id engines) [
  | none ↦ false
  | some s ↦ s == codes "running"
]

abbrev pub is_fresh_running : ℕ → ℕ → List Text → WorkerReport → Bool
is_fresh_running now stale_after engine_ids report =
    leb now (report.last_seen + stale_after) && all (is_running report.engines) engine_ids

unfoldable pub all_workers_running : ℕ → ℕ → List Text → Coordinator → Bool
unfolding worker_ranks is_running
all_workers_running now stale_after engine_ids c =
    is_subset (keys c.reports) (worker_ranks c.node_count)
    && is_subset (worker_ranks c.node_count) (keys c.reports)
    && all (is_fresh_running now stale_after engine_ids) (values c.reports)

abbrev pub has_failed : Option Text → Bool
has_failed none = false
has_failed (some s) = s == codes "failed"

abbrev pub no_items : Dict ℕ Text → Bool
no_items [] = true
no_items (x ∷ d) = false

-- `{rank: engine_id for ... if report.engines.get(engine_id) == "failed"}`
unfoldable pub failed_of : ℕ → Dict Text Text → List Text → Dict ℕ Text → Dict ℕ Text
failed_of rank engines [] failed = failed
failed_of rank engines (engine_id ∷ ids) failed =
    failed_of rank engines ids
      (if has_failed (lookup engine_id engines) then insert rank engine_id failed else failed)

unfoldable pub failed_workers : List Text → Dict ℕ WorkerReport → Dict ℕ Text → Dict ℕ Text
unfolding failed_of
failed_workers engine_ids [] failed = failed
failed_workers engine_ids ((rank, report) ∷ reports) failed =
    failed_workers engine_ids reports (failed_of rank report.engines engine_ids failed)

-- One round of the loop of `wait_workers`: return, raise, or sleep and look again.
pub data WaitStep : Type 0 where
  started : WaitStep
  failed_engines : Dict ℕ Text → WaitStep
  timed_out : WaitStep
  waiting : WaitStep

-- `clock` is the loop's time and `now` the wall clock's
unfoldable pub wait_step : ℕ → ℕ → ℕ → List Text → Coordinator → WaitStep
unfolding all_workers_running failed_workers
wait_step clock deadline now engine_ids c =
    if leb c.node_count 1
    then started
    else if all_workers_running now 15 engine_ids c
    then started
    else if not (no_items (failed_workers engine_ids c.reports []))
    then failed_engines (failed_workers engine_ids c.reports [])
    else if leb deadline clock
    then timed_out
    else waiting
