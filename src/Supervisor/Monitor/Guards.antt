-- ===== src/Supervisor/Monitor/Guards.antt =====
-- A check of a round leaves everything as it is where its test passes, and degrades where it fails.
use yeetllm.Common.{
  ℕ, ◌≡◌, refl, ◌∙◌, inl, inr, arith, Bool, true, false, not, ◌&&◌, Option, none, some, List, [],
  ◌∷◌, ◌==◌, nat_eq, text_eq, eq_refl, eq_iff, ◌↔◌, ap, all, Bool-cases, Option-cases,
}
use yeetllm.Common.Dict.{lookup}
use yeetllm.Common.Text.{Text, codes}
use yeetllm.Supervisor.State.{
  EngineState, pending, preparing, starting, ready, running, failed, stopped,
}
use yeetllm.Supervisor.{
  Supervisor, engines, state_of, mark_engine_failed, in_state, is_ready, is_failed,
}
use yeetllm.Supervisor.Engines.{state_of-set_engine_state}
use yeetllm.Supervisor.Monitor.{
  Look, Probe, status, no_answer, Round, complaint, has_state, is_up, has_stopped, process_of,
  fail_if_exited, check_engine, check_engines, unhealthy, fail_unhealthy, check_probes,
  check_router, check_ssh, check_workers, workers_up,
}

-- A check `f` of a round with the test `t`.
abbrev pub IsGuard : (Supervisor → Bool) → (Round → Round) → Type 0
IsGuard t f =
    (r : Round)
    → (t r.supervisor ≡ true → f r ≡ r)
      × (t r.supervisor ≡ false → (f r).degraded ≡ true)
      × (r.degraded ≡ true → (f r).degraded ≡ true)

pub IsGuard-compose :
    (t u : Supervisor → Bool) (f g : Round → Round)
    → IsGuard t f
    → IsGuard u g
    → IsGuard (λ s. t s && u s) (λ r. g (f r))
IsGuard-compose t u f g hf hg r = elim (Bool-cases (t r.supervisor)) [
  | inl passes ↦
      let same : f r ≡ r = (hf r).0 passes in rw (same, passes) ((hg r).0, (hg r).1, (hg r).2)
  | inr fails ↦
      let down : (g (f r)).degraded ≡ true = (hg (f r)).2 ((hf r).1 fails) in
      ((λ h. let bad : false ≡ true = rw fails at h in cc), (λ h. down), (λ h. down))
]

ready_after_failing :
    (now : ℕ) (id message : Text) (s : Supervisor)
    → has_state is_ready (state_of id (mark_engine_failed now id message s)) ≡ false
unfolding mark_engine_failed
ready_after_failing now id message s =
    let moved = state_of-set_engine_state now id failed none (some message) s id in
    elim (Option-cases (state_of id s)) [
      | inl absent ↦ rw (moved, eq_refl id, absent) refl
      | inr (state, present) ↦ rw (moved, eq_refl id, present) refl
    ]

is_failed_not_ready :
    (o : Option EngineState) → has_state is_failed o ≡ true → has_state is_ready o ≡ false
is_failed_not_ready none h = refl
is_failed_not_ready (some pending) h = refl
is_failed_not_ready (some preparing) h = refl
is_failed_not_ready (some starting) h = refl
is_failed_not_ready (some ready) h = cc
is_failed_not_ready (some running) h = refl
is_failed_not_ready (some failed) h = refl
is_failed_not_ready (some stopped) h = refl

pub ready_iff : (o : Option EngineState) → (has_state is_ready o ≡ true) ↔ (o ≡ some ready)
ready_iff none = ground arith
ready_iff (some pending) = ground arith
ready_iff (some preparing) = ground arith
ready_iff (some starting) = ground arith
ready_iff (some ready) = ground arith
ready_iff (some running) = ground arith
ready_iff (some failed) = ground arith
ready_iff (some stopped) = ground arith

-- An engine is ready, and its process, where there is one, runs.
abbrev pub engine_up : Look → Text → Supervisor → Bool
engine_up look id s =
    has_state is_ready (state_of id s) && not (has_stopped look.exits (process_of id s))

fail_if_exited_running :
    (look : Look) (id : Text) (s : Supervisor)
    → has_stopped look.exits (process_of id s) ≡ false
    → fail_if_exited look id s ≡ s
unfolding fail_if_exited
fail_if_exited_running look id s h = rw h refl

ready_after_stopped :
    (look : Look) (id : Text) (s : Supervisor)
    → has_stopped look.exits (process_of id s) ≡ true
    → has_state is_ready (state_of id (fail_if_exited look id s)) ≡ false
unfolding fail_if_exited
ready_after_stopped look id s h = elim (Bool-cases (has_state is_failed (state_of id s))) [
  | inl down ↦ rw (h, down) (is_failed_not_ready (state_of id s) down)
  | inr other ↦ rw (h, other) (ready_after_failing look.now id _ s)
]

round_eq :
    (r : Round) (s : Supervisor) (b : Bool)
    → s ≡ r.supervisor
    → b ≡ r.degraded
    → record { supervisor = s; degraded = b } ≡ r
round_eq r s b hs hb = rw (hs, hb) refl

check_engine-IsGuard :
    (look : Look) (id : Text) → IsGuard (engine_up look id) (check_engine look id)
unfolding check_engine
check_engine-IsGuard look id r =
    elim (Bool-cases (has_stopped look.exits (process_of id r.supervisor))) [
      | inl stops ↦
          let down = ready_after_stopped look id r.supervisor stops in
          (
            (λ h. let bad : false ≡ true = ground (arith) in cc),
            (λ h. rw down (ground arith)),
            (λ h. rw h refl),
          )
      | inr runs ↦
          let same = fail_if_exited_running look id r.supervisor runs in
          (
            (λ h.
                let up : has_state is_ready (state_of id r.supervisor) ≡ true = ground arith in
                round_eq r _ _ same (rw (same, up) (ground arith))),
            (λ h.
                let down : has_state is_ready (state_of id r.supervisor) ≡ false = ground arith in
                rw (same, down) (ground arith)),
            (λ h. rw h refl),
          )
    ]

pub check_engines-IsGuard :
    (look : Look) (ids : List Text)
    → IsGuard (λ s. all (λ id. engine_up look id s) ids) (check_engines look ids)
unfolding check_engines all
check_engines-IsGuard look [] = λ r. ((λ h. refl), (λ h. cc), (λ h. h))
check_engines-IsGuard look (id ∷ ids) =
    IsGuard-compose (engine_up look id) (λ s. all (λ id. engine_up look id s) ids)
      (check_engine look id) (check_engines look ids) (check_engine-IsGuard look id)
      (check_engines-IsGuard look ids)

abbrev pub is_healthy : Probe → Bool
is_healthy (status n) = n == 200
is_healthy (no_answer reason) = false

pub is_healthy_iff : (p : Probe) → (is_healthy p ≡ true) ↔ (p ≡ status 200)
is_healthy_iff (status n) = (
  (λ h. let e : n ≡ 200 = (eq_iff n 200).0 h in ap status e),
  (λ h. let e : n ≡ 200 = cc h in (eq_iff n 200).1 e),
)
is_healthy_iff (no_answer reason) = ((λ h. cc), (λ h. cc))

complaint-none : (p : Probe) → is_healthy p ≡ true → complaint p ≡ none
complaint-none (status n) h = rw h refl
complaint-none (no_answer reason) h = cc

complaint_answers : (p : Probe) → complaint p ≡ none → is_healthy p ≡ true
complaint_answers (status n) h = ground arith
complaint_answers (no_answer reason) h = cc

fail_unhealthy_none : (look : Look) (r : Round) → fail_unhealthy look [] r ≡ r
unfolding fail_unhealthy
fail_unhealthy_none look r = refl

not-true : {b : Bool} → not b ≡ true → b ≡ false
not-true h = ground arith

not-false : {b : Bool} → not b ≡ false → b ≡ true
not-false h = ground arith

abbrev pub answers : (Text → Probe) → Text → Bool
answers probe id = is_healthy (probe id)

unhealthy_next :
    (probe : Text → Probe) (id : Text) (ids : List Text) (o : Option Text)
    → complaint (probe id) ≡ o
    → unhealthy probe (id ∷ ids)
      ≡ elim o [ none ↦ unhealthy probe ids | some reason ↦ (id, reason) ∷ unhealthy probe ids ]
unfolding unhealthy
unhealthy_next probe id ids o h = rw (unhealthy, h) refl

unhealthy-all :
    (probe : Text → Probe) (ids : List Text)
    → all (answers probe) ids ≡ true
    → unhealthy probe ids ≡ []
unfolding unhealthy all
unhealthy-all probe [] h = refl
unhealthy-all probe (id ∷ ids) h =
    unhealthy_next probe id ids none (complaint-none (probe id) (ground arith))
    ∙ unhealthy-all probe ids (ground arith)

-- Where an engine does not answer, the loop over the unhealthy engines degrades.
unhealthy_some :
    (look : Look) (ids : List Text) (r : Round)
    → all (answers look.probe) ids ≡ false
    → (fail_unhealthy look (unhealthy look.probe ids) r).degraded ≡ true
unfolding all fail_unhealthy
unhealthy_some look [] r h = cc
unhealthy_some look (id ∷ ids) r h = elim (Option-cases (complaint (look.probe id))) [
  | inl silent ↦
      let up = complaint_answers (look.probe id) silent in
      let rest : all (answers look.probe) ids ≡ false = ground arith in
      rw (unhealthy_next look.probe id ids none silent) (unhealthy_some look ids r rest)
  | inr (reason, said) ↦ rw (unhealthy_next look.probe id ids (some reason) said) refl
]

degraded-fail_unhealthy :
    (look : Look) (us : List (Text × Text)) (r : Round)
    → r.degraded ≡ true
    → (fail_unhealthy look us r).degraded ≡ true
unfolding fail_unhealthy
degraded-fail_unhealthy look [] r h = h
degraded-fail_unhealthy look (u ∷ us) r h = refl

pub check_probes-IsGuard :
    (look : Look)
    → IsGuard (λ s. all (answers look.probe) (in_state is_ready (engines s))) (check_probes look)
unfolding check_probes
check_probes-IsGuard look r =
    let ids = in_state is_ready (engines r.supervisor) in
    (
      (λ h. rw (unhealthy-all look.probe ids h) (fail_unhealthy_none look r)),
      (λ h. unhealthy_some look ids r h),
      (λ h. degraded-fail_unhealthy look (unhealthy look.probe ids) r h),
    )

abbrev pub router_up : Look → Supervisor → Bool
router_up look s = is_up look.exits (lookup (codes "router") s.processes)

pub check_router-IsGuard : (look : Look) → IsGuard (router_up look) (check_router look)
unfolding check_router
check_router-IsGuard look r = ((λ h. rw h refl), (λ h. rw h refl), (λ h. ground arith))

abbrev pub ssh_up : Look → Supervisor → Bool
ssh_up look s =
    not (s.store.document.ssh.enabled && not (is_up look.exits (lookup (codes "sshd") s.processes)))

pub check_ssh-IsGuard : (look : Look) → IsGuard (ssh_up look) (check_ssh look)
unfolding check_ssh
check_ssh-IsGuard look r = (
  (λ h. let test : _ ≡ false = not-true h in rw test refl),
  (λ h. let test : _ ≡ true = not-false h in rw test refl),
  (λ h. ground arith),
)

abbrev pub has_workers : Look → Supervisor → Bool
has_workers look s = workers_up look.now (in_state is_ready (engines s)) s.coordinator

pub check_workers-IsGuard : (look : Look) → IsGuard (has_workers look) (check_workers look)
unfolding check_workers
check_workers-IsGuard look r = ((λ h. rw h refl), (λ h. rw h refl), (λ h. ground arith))

-- All tests of a round.
abbrev pub healthy : Look → List Text → Supervisor → Bool
healthy look ids s =
    all (λ id. engine_up look id s) ids
    && all (answers look.probe) (in_state is_ready (engines s))
    && router_up look s
    && ssh_up look s
    && has_workers look s
