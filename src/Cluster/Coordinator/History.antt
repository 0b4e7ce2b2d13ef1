-- ===== src/Cluster/Coordinator/History.antt =====
-- The coordinator over any sequence of its calls: what stays true, and what a worker may conclude
-- from the generation that a reply carries.
use yeetllm.Common.{
  ℕ, suc, ◌≤◌, ◌≡◌, refl, sym, subst, ◌∙◌, ◌↔◌, ◌⊎◌, inl, inr, arith, true, List, [], ◌∷◌, nat_eq,
  text_eq, all, is_subset, ok, Bool-cases, eq_iff,
}
use yeetllm.Common.Dict.{IsDistinct-insert}
use yeetllm.Common.Text.{Text}
use yeetllm.Common.Json.{Json}
use yeetllm.Cluster.Coordinator.{
  Coordinator, coordinator, WorkerReport, Response, process, set_desired, same_texts, close,
}
use yeetllm.Cluster.Coordinator.Reports.{IsReport, IsValid, All-insert, process-ok}

-- A call of the coordinator: a message to `_process`, or one of the primary's own.
pub data Step : Coordinator → Coordinator → Type 0 where
  polls :
      (now : ℕ) (request : Json) (r : Response) {c d : Coordinator}
      → process now request c ≡ ok (r, d)
      → Step c d
  wants : (engine_ids : List Text) {c d : Coordinator} → set_desired engine_ids c ≡ ok d → Step c d
  closes : {c : Coordinator} → Step c (close c)

pub data Steps : Coordinator → Coordinator → Type 0 where
  stay : {c : Coordinator} → Steps c c
  next : {c d e : Coordinator} → Step c d → Steps d e → Steps c e

same_texts_iff : (s t : List Text) → (same_texts s t ≡ true) ↔ (s ≡ t)
unfolding same_texts
same_texts_iff [] [] = ground arith
same_texts_iff (a ∷ s) (b ∷ t) = ground (arith, same_texts_iff s t, eq_iff a b)
same_texts_iff [] (b ∷ t) = ground arith
same_texts_iff (a ∷ s) [] = ground arith

-- `set_desired` leaves the coordinator alone, or takes a new list under a new generation.
set_desired-ok :
    (ids : List Text) (c d : Coordinator)
    → set_desired ids c ≡ ok d
    → (is_subset ids c.allowed_engines ≡ true)
      × ((d ≡ c) ⊎ (d ≡ record c { desired = ids; generation = suc c.generation }))
unfolding set_desired
set_desired-ok ids c d h = elim (Bool-cases (is_subset ids c.allowed_engines)) [
  | inl known ↦ elim (Bool-cases (same_texts ids c.desired)) [
    | inl same ↦ (known, inl (ground arith))
    | inr new ↦ (known, inr (ground arith))
  ]
  | inr unknown ↦ absurd (ground arith)
]

Step-IsValid : (c d : Coordinator) → Step c d → IsValid c → IsValid d
unfolding close
Step-IsValid c d (polls now request r h) (reports, distinct, desired) =
    let (rank, engines, good, stored) = process-ok now request c d r h in
    let report : WorkerReport = record { rank = rank; last_seen = now; engines = engines } in
    subst (λ (x : Response × Coordinator). IsValid x.1) (sym stored)
      (
        All-insert (IsReport c) rank report c.reports good reports,
        IsDistinct-insert rank report c.reports distinct,
        desired,
      )
Step-IsValid c d (wants ids h) v =
    let (known, change) = set_desired-ok ids c d h in
    elim change [ inl same ↦ rw same v | inr new ↦ rw new (v.0, v.1, known) ]
Step-IsValid c _ closes v = v

Steps-IsValid : (c d : Coordinator) → Steps c d → IsValid c → IsValid d
Steps-IsValid c _ stay v = v
Steps-IsValid c e (next {d = d} step more) v = Steps-IsValid d e more (Step-IsValid c d step v)

-- After any calls, each report of a new coordinator is of a rank that is at least 1 and below the
-- number of nodes, under that rank and only once, and is about known engines in states of the
-- protocol; the engines that the primary wants are known.
pub reachable-IsValid :
    (node_count : ℕ) (config_hash : Text) (allowed_engines : List Text) (c : Coordinator)
    → Steps (coordinator node_count config_hash allowed_engines) c
    → IsValid c
unfolding all
reachable-IsValid node_count config_hash allowed_engines c steps =
    Steps-IsValid (coordinator node_count config_hash allowed_engines) c steps (tt, tt, refl)

-- Between two states: the generation did not fall, and an equal one means an equal list.
abbrev pub IsAfter : Coordinator → Coordinator → Type 0
IsAfter c d =
    (c.generation ≤ d.generation)
    × (c.generation ≡ d.generation → c.desired ≡ d.desired)
    × (c.shutting_down ≡ true → d.shutting_down ≡ true)

Step-IsAfter : (c d : Coordinator) → Step c d → IsAfter c d
unfolding close
Step-IsAfter c d (polls now request r h) =
    let (rank, engines, good, stored) = process-ok now request c d r h in
    subst (λ (x : Response × Coordinator). IsAfter c x.1) (sym stored)
      (omega arith, λ e. refl, λ e. e)
Step-IsAfter c d (wants ids h) =
    let (known, change) = set_desired-ok ids c d h in
    elim change [
      | inl same ↦ rw same (omega arith, λ e. refl, λ e. e)
      | inr new ↦ rw new (omega arith, λ e. absurd (omega arith), λ e. e)
    ]
Step-IsAfter c _ closes = (omega arith, λ e. refl, λ e. refl)

-- Along any calls the generation never falls, two states of one generation want the same engines,
-- and a shutdown is never taken back.
pub Steps-IsAfter : (c d : Coordinator) → Steps c d → IsAfter c d
Steps-IsAfter c _ stay = (omega arith, λ e. refl, λ e. e)
Steps-IsAfter c e (next {d = d} step more) =
    let (low, same, shut) = Step-IsAfter c d step in
    let (low', same', shut') = Steps-IsAfter d e more in
    (omega arith, λ g. same (omega arith) ∙ same' (omega arith), λ s. shut' (shut s))
