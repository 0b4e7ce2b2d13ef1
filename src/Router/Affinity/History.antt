-- ===== src/Router/Affinity/History.antt =====
-- `AffinityMap` over a history of calls.
use yeetllm.Common.{
  ℕ, ◌+◌, ◌<◌, ◌≡◌, ◌≢◌, refl, ap, Option, none, some, List, [], ◌∷◌, arith, length, All, text_eq,
}
use yeetllm.Common.Dict.{lookup}
use yeetllm.Common.Text.{Text}
use yeetllm.Router.Affinity.{Entry, AffinityMap, expire, put, get}
use yeetllm.Router.Affinity.Bounds.{
  live, lookup-expire, IsValid, put-IsValid, get-IsValid, get_found,
}
use yeetllm.Router.Affinity.Recency.{IsRecent, put-IsRecent, get-IsRecent, put-newest}

pub data Call : Type 0 where
  put_call : (now later : ℕ) → (id engine : Text) → Call
  get_call : (now : ℕ) → (id : Text) → Call

unfoldable pub step : Call → AffinityMap → AffinityMap
step (put_call now later id engine) m = put now later id engine m
step (get_call now id) m = (get now id m).0

unfoldable pub run : List Call → AffinityMap → AffinityMap
unfolding step
run [] m = m
run (c ∷ calls) m = run calls (step c m)

maximum-put :
    (now later : ℕ) (k engine : Text) (m : AffinityMap)
    → (put now later k engine m).maximum ≡ m.maximum
unfolding put
maximum-put now later k engine m = refl

maximum-step : (c : Call) (m : AffinityMap) → (step c m).maximum ≡ m.maximum
unfolding step put get
maximum-step (put_call now later id engine) m = refl
maximum-step (get_call now id) m = ground arith

step-IsValid : (c : Call) (m : AffinityMap) → IsValid m → IsValid (step c m)
unfolding step
step-IsValid (put_call now later id engine) m v = put-IsValid now later id engine m v
step-IsValid (get_call now id) m v = get-IsValid now id m v

-- After any calls on a valid map it still holds each response once, and no more than its maximum.
pub run-IsValid : (calls : List Call) (m : AffinityMap) → IsValid m → IsValid (run calls m)
unfolding run
run-IsValid [] m v = v
run-IsValid (c ∷ calls) m v = run-IsValid calls (step c m) (step-IsValid c m v)

-- A call that comes before the entry's time and does not store the same response again.
abbrev pub IsApart : Text → ℕ → Call → Type 0
IsApart k deadline (put_call now later id engine) = (id ≢ k) × (now < deadline)
IsApart k deadline (get_call now id) = now < deadline

step-IsRecent :
    (c : Call) (m : AffinityMap) (k : Text) (e : Entry) (n : ℕ)
    → IsApart k e.1 c
    → n + 1 < m.maximum
    → IsRecent k e n m.items
    → IsRecent k e (n + 1) (step c m).items
unfolding step
step-IsRecent (put_call now later id engine) m k e n (other, early) room r =
    put-IsRecent now later id engine m other early room r
step-IsRecent (get_call now id) m k e n early room r = get-IsRecent now id m early r

run-IsRecent :
    (calls : List Call) (m : AffinityMap) (k : Text) (e : Entry) (n : ℕ)
    → All (IsApart k e.1) calls
    → n + length calls < m.maximum
    → IsRecent k e n m.items
    → (last : ℕ) × IsRecent k e last (run calls m).items
unfolding run
run-IsRecent [] m k e n apart room r = (n, r)
run-IsRecent (c ∷ calls) m k e n (one, later) room r =
    run-IsRecent calls (step c m) k e (n + 1) later (omega (arith, maximum-step c m, room))
      (step-IsRecent c m k e n one (omega (arith, room)) r)

-- A response stored in a valid map is found again with its engine, before its time comes, if fewer
-- calls than the map's maximum came in between, each of them before that time and none storing it
-- again.
pub get-run-put :
    (m : AffinityMap) (now later after : ℕ) (k engine : Text) (calls : List Call)
    → IsValid m
    → All (IsApart k (later + m.ttl)) calls
    → length calls < m.maximum
    → after < later + m.ttl
    → (get after k (run calls (put now later k engine m))).1 ≡ some engine
get-run-put m now later after k engine calls valid apart room early =
    let e : Entry = (engine, later + m.ttl) in
    let m' = put now later k engine m in
    let (n, r) =
      run-IsRecent calls m' k e 0 apart (omega (arith, maximum-put now later k engine m, room))
        (put-newest now later k engine m valid (omega (arith, room))) in
    let hit : lookup k (expire after (run calls m').items) ≡ some e =
      ground (arith, lookup-expire after k (run calls m').items r.distinct, r.found) in
    ap (λ (p : AffinityMap × Option Text). p.1) (get_found after k (run calls m') e hit)

-- the engine of an entry
abbrev pub engine_of : Option Entry → Option Text
engine_of none = none
engine_of (some entry) = some entry.0

-- In a valid map `get` gives the engine of a response exactly when it is stored and its time has
-- not come.
pub get-eq-live :
    (m : AffinityMap) (now : ℕ) (k : Text)
    → IsValid m
    → (get now k m).1 ≡ engine_of (live now (lookup k m.items))
unfolding get
get-eq-live m now k valid = ground (arith, lookup-expire now k m.items valid.distinct)
