-- ===== src/Supervisor/Startup/Waiting/Ends.antt =====
-- The wait for an engine ends, and where it returns the engine serves.
use yeetllm.Common.{
  ℕ, zero, suc, ◌+◌, ◌≤◌, ◌≡◌, refl, sym, ◌∙◌, inl, inr, arith, true, ◌&&◌, Option, none, some,
  List, leb, ◌==◌, nat_eq, text_eq, eq_iff, is_subset, Bool-cases, Option-cases, Result, ok, err,
}
use yeetllm.Common.Json.{Json}
use yeetllm.Common.Text.{Text}
use yeetllm.Supervisor.Startup.Waiting.{
  Raised, suppressed, escaping, available, Requests, unanswered, answered, ReadyLook, WaitError,
  exited, timed_out, shutdown_requested, End, end_by_catalogue, end_by_requests, wait_round,
  wait_from, wait_engine_ready, IsServing,
}

wait_round_late :
    (model_ids : List Text) (deadline : ℕ) (look : ReadyLook)
    → deadline ≤ look.clock
    → (end : Result WaitError (Unit {0})) × (wait_round model_ids deadline look ≡ some end)
unfolding wait_round
wait_round_late model_ids deadline look h =
    let late : leb deadline look.clock ≡ true = ground arith in
    elim (Bool-cases look.stopping) [
      | inl y ↦ (err shutdown_requested, rw y refl)
      | inr n ↦ elim (Bool-cases look.running) [
        | inl y ↦ (err timed_out, rw (n, y, late) refl)
        | inr m ↦ (err (exited look.returncode), rw (n, m) refl)
      ]
    ]

wait_from_end :
    (fuel : ℕ) (model_ids : List Text) (deadline : ℕ) (looks : ℕ → ReadyLook) (k : ℕ) (o : End)
    → wait_round model_ids deadline (looks k) ≡ o
    → wait_from (suc fuel) model_ids deadline looks k
      ≡ elim o [ none ↦ wait_from fuel model_ids deadline looks (suc k) | some end ↦ some end ]
unfolding wait_from
wait_from_end fuel model_ids deadline looks k o h = rw (wait_from, h) refl

wait_from_ends :
    (fuel : ℕ) (model_ids : List Text) (deadline : ℕ) (looks : ℕ → ReadyLook) (k j : ℕ)
    → j ≡ fuel + k
    → deadline ≤ (looks j).clock
    → (end : Result WaitError (Unit {0})) × (wait_from (suc fuel) model_ids deadline looks k
        ≡ some end)
wait_from_ends zero model_ids deadline looks k j e h =
    let here : j ≡ k = omega arith in
    let late : deadline ≤ (looks k).clock = rw (← here) h in
    let (end, ended) = wait_round_late model_ids deadline (looks k) late in
    (end, wait_from_end zero model_ids deadline looks k (some end) ended)
wait_from_ends (suc fuel) model_ids deadline looks k j e h =
    elim (Option-cases (wait_round model_ids deadline (looks k))) [
      | inr (end, ended) ↦
          (end, wait_from_end (suc fuel) model_ids deadline looks k (some end) ended)
      | inl sleeps ↦
          let (end, ended) =
            wait_from_ends fuel model_ids deadline looks (suc k) j (omega arith) h in
          (end, wait_from_end (suc fuel) model_ids deadline looks k none sleeps ∙ ended)
    ]

end_by_catalogue_ready :
    (model_ids : List Text) (r : Result Raised (List Text))
    → end_by_catalogue model_ids r ≡ some (ok tt)
    → (ids : List Text) × (r ≡ ok ids) × (is_subset model_ids ids ≡ true)
end_by_catalogue_ready model_ids (ok ids) h = elim (Bool-cases (is_subset model_ids ids)) [
  | inl all_there ↦ (ids, refl, all_there)
  | inr missing ↦ let bad : none ≡ some (ok tt) = rw missing at h in absurd (cc bad)
]
end_by_catalogue_ready model_ids (err suppressed) h = absurd (cc h)
end_by_catalogue_ready model_ids (err escaping) h = absurd (cc h)

end_by_requests_ready :
    (model_ids : List Text) (r : Requests)
    → end_by_requests model_ids r ≡ some (ok tt)
    → (body : Option Json) × (r ≡ answered 200 200 body)
      × (ids : List Text) × (available body ≡ ok ids)
      × (is_subset model_ids ids ≡ true)
end_by_requests_ready model_ids unanswered h = absurd (cc h)
end_by_requests_ready model_ids (answered health catalogue body) h =
    elim (Bool-cases (health == 200 && catalogue == 200)) [
      | inr other ↦ let bad : none ≡ some (ok tt) = rw other at h in absurd (cc bad)
      | inl both ↦
          let ended : end_by_catalogue model_ids (available body) ≡ some (ok tt) = rw both at h in
          let a : health ≡ 200 = ground (arith, eq_iff health 200) in
          let b : catalogue ≡ 200 = ground (arith, eq_iff catalogue 200) in
          let (ids, read, all_there) = end_by_catalogue_ready model_ids (available body) ended in
          (body, rw (a, b) refl, ids, read, all_there)
    ]

wait_round_ready :
    (model_ids : List Text) (deadline : ℕ) (look : ReadyLook)
    → wait_round model_ids deadline look ≡ some (ok tt)
    → IsServing model_ids deadline look
unfolding wait_round
wait_round_ready model_ids deadline look h = elim (Bool-cases look.stopping) [
  | inl y ↦ let bad : some (err shutdown_requested) ≡ some (ok tt) = rw y at h in absurd (cc bad)
  | inr n ↦ elim (Bool-cases look.running) [
    | inr m ↦
        let bad : some (err (exited look.returncode)) ≡ some (ok tt) = rw (n, m) at h in
        absurd (cc bad)
    | inl y ↦ elim (Bool-cases (leb deadline look.clock)) [
      | inl late ↦
          let bad : some (err timed_out) ≡ some (ok tt) = rw (n, y, late) at h in absurd (cc bad)
      | inr early ↦
          let ended : end_by_requests model_ids look.requests ≡ some (ok tt) =
            rw (n, y, early) at h in
          record {
            stays = n;
            runs = y;
            early = ground arith;
            answer = end_by_requests_ready model_ids look.requests ended;
          }
    ]
  ]
]

wait_from_none :
    (model_ids : List Text) (deadline : ℕ) (looks : ℕ → ReadyLook) (k : ℕ)
    → wait_from zero model_ids deadline looks k ≡ some (ok tt)
    → (j : ℕ) × IsServing model_ids deadline (looks j)
unfolding wait_from
wait_from_none model_ids deadline looks k h = absurd (cc h)

wait_from_ready :
    (fuel : ℕ) (model_ids : List Text) (deadline : ℕ) (looks : ℕ → ReadyLook) (k : ℕ)
    → wait_from fuel model_ids deadline looks k ≡ some (ok tt)
    → (j : ℕ) × IsServing model_ids deadline (looks j)
wait_from_ready zero model_ids deadline looks k h = wait_from_none model_ids deadline looks k h
wait_from_ready (suc fuel) model_ids deadline looks k h =
    elim (Option-cases (wait_round model_ids deadline (looks k))) [
      | inl sleeps ↦
          wait_from_ready fuel model_ids deadline looks (suc k)
            (sym (wait_from_end fuel model_ids deadline looks k none sleeps) ∙ h)
      | inr (end, ended) ↦
          let last = sym (wait_from_end fuel model_ids deadline looks k (some end) ended) ∙ h in
          (k, wait_round_ready model_ids deadline (looks k) (ended ∙ last))
    ]

-- Where the clock is at least a second further in each round, the wait for an engine ends within the
-- timeout, by a return or by an exception; and it returns only if in one of its rounds the engine
-- serves: the process runs, nobody asks it to stop, the deadline has not passed, the health and the
-- catalogue are answered with 200, and the catalogue has all models of the engine.
pub wait_engine_ready-ends :
    (model_ids : List Text) (started timeout : ℕ) (looks : ℕ → ReadyLook)
    → ((k : ℕ) → started + k ≤ (looks k).clock)
    → (end : Result WaitError (Unit {0})) × (wait_engine_ready model_ids started timeout looks
        ≡ some end)
      × (end ≡ ok tt → (k : ℕ) × IsServing model_ids (started + timeout) (looks k))
unfolding wait_engine_ready
wait_engine_ready-ends model_ids started timeout looks ticks =
    let deadline = started + timeout in
    let (end, ended) =
      wait_from_ends timeout model_ids deadline looks 0 timeout (omega arith) (ticks timeout) in
    (
      end,
      ended,
      (λ h. wait_from_ready (suc timeout) model_ids deadline looks 0 (ended ∙ rw h refl)),
    )
