-- ===== src/Supervisor/Startup/Waiting.antt =====
-- `_wait_engine_ready` of supervisor.py, without the progress that it prints and publishes.
pub mod Ends
use yeetllm.Common.{
  ℕ, zero, suc, ◌+◌, ◌≤◌, ◌<◌, ◌≡◌, refl, sym, ◌∙◌, ◌⊎◌, inl, inr, arith, Bool, true, false, not,
  ◌&&◌, Option, none, some, List, [], ◌∷◌, ◌++◌, leb, ◌==◌, nat_eq, text_eq, eq_iff, is_subset,
  Bool-cases, Option-cases, Result, ok, err, ◌>>=◌, if◌then◌else◌,
}
use yeetllm.Common.Int.{ℤ}
use yeetllm.Common.Json.{
  Json, Items, Fields, null, bool, int, float, str, arr, obj, item, done, get,
}
use yeetllm.Common.Text.{Text, codes}

-- An exception that the loop suppresses, or one that leaves it.
pub data Raised : Type 0 where
  suppressed escaping : Raised

-- `item.get("id")` in a set; only strings can be identifiers of models
abbrev pub id_of : Option Json → Result Raised (List Text)
id_of (some (str s)) = ok (s ∷ [])
id_of (some (arr xs)) = err suppressed
id_of (some (obj fs)) = err suppressed
id_of _ = ok []

unfoldable pub ids_of : Items → Result Raised (List Text)
ids_of done = ok []
ids_of (item (obj fs) rest) =
    id_of (get (codes "id") fs) >>= λ id. ids_of rest >>= λ ids. ok (id ++ ids)
ids_of (item j rest) = ids_of rest

-- the iteration over `data`: of a string or an object no element is a dictionary
abbrev pub data_of : Option Json → Result Raised (List Text)
data_of none = ok []
data_of (some (arr xs)) = ids_of xs
data_of (some (obj fs)) = ok []
data_of (some (str s)) = ok []
data_of _ = err suppressed

-- `available`, from the body; a body that is not an object has no `get`
unfoldable pub available : Option Json → Result Raised (List Text)
unfolding ids_of get
available none = err suppressed
available (some (obj fs)) = data_of (get (codes "data") fs)
available (some j) = err escaping

-- The two requests of a round; an answer is the two statuses and the catalogue, if it is JSON.
pub data Requests : Type 0 where
  unanswered : Requests
  answered : ℕ → ℕ → Option Json → Requests

-- What one round of the loop reads.
pub record ReadyLook : Type 0 where
  pub stopping : Bool
  pub running : Bool
  pub returncode : Option ℤ
  pub clock : ℕ
  pub requests : Requests

pub data WaitError : Type 0 where
  exited : Option ℤ → WaitError
  timed_out : WaitError
  bad_catalogue : WaitError
  shutdown_requested : WaitError

-- The end of the loop: it returns or it raises. Without an end it sleeps.
abbrev pub End : Type 0
End = Option (Result WaitError (Unit {0}))

abbrev pub end_by_catalogue : List Text → Result Raised (List Text) → End
end_by_catalogue model_ids (ok ids) = if is_subset model_ids ids then some (ok tt) else none
end_by_catalogue model_ids (err suppressed) = none
end_by_catalogue model_ids (err escaping) = some (err bad_catalogue)

abbrev pub end_by_requests : List Text → Requests → End
end_by_requests model_ids unanswered = none
end_by_requests model_ids (answered health catalogue body) =
    if health == 200 && catalogue == 200 then end_by_catalogue model_ids (available body) else none

-- one round
unfoldable pub wait_round : List Text → ℕ → ReadyLook → End
unfolding available
wait_round model_ids deadline look =
    if look.stopping
    then some (err shutdown_requested)
    else if not look.running
    then some (err (exited look.returncode))
    else if leb deadline look.clock
    then some (err timed_out)
    else end_by_requests model_ids look.requests

-- the loop, from a round on; `none` is a loop that has not ended within the fuel
unfoldable pub wait_from : ℕ → List Text → ℕ → (ℕ → ReadyLook) → ℕ → End
unfolding wait_round
wait_from zero model_ids deadline looks k = none
wait_from (suc fuel) model_ids deadline looks k =
    let rest = wait_from fuel model_ids deadline looks (suc k) in
    elim (wait_round model_ids deadline (looks k)) [ none ↦ rest | some end ↦ some end ]

-- `_wait_engine_ready`: the loop sleeps for two seconds in each round
unfoldable pub wait_engine_ready : List Text → ℕ → ℕ → (ℕ → ReadyLook) → End
unfolding wait_from
wait_engine_ready model_ids started timeout looks =
    wait_from (suc timeout) model_ids (started + timeout) looks 0

-- An engine that serves: it runs, nobody asks it to stop, the deadline has not passed, and both its
-- health and its catalogue are answered with 200, and the catalogue has the models.
pub record IsServing (model_ids : List Text) (deadline : ℕ) (look : ReadyLook) : Type 0 where
  pub stays : look.stopping ≡ false
  pub runs : look.running ≡ true
  pub early : look.clock < deadline
  pub answer :
      (body : Option Json) × (look.requests ≡ answered 200 200 body)
      × (ids : List Text) × (available body ≡ ok ids)
      × (is_subset model_ids ids ≡ true)
