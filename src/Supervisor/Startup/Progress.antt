-- ===== src/Supervisor/Startup/Progress.antt =====
-- The loop over the batches does not raise, and settles every engine.
use yeetllm.Common.{
  ℕ, suc, ◌≡◌, refl, ap, sym, subst, ◌∙◌, inl, inr, arith, true, false, Option, none, some, List,
  [], ◌∷◌, ◌++◌, nat_eq, text_eq, contains, is_subset, all, Option-cases, Result, ok,
}
use yeetllm.Common.Dict.{keys, lookup, contains-keys}
use yeetllm.Common.Text.{Text}
use yeetllm.Cluster.Coordinator.{Coordinator, ProtocolError, set_desired}
use yeetllm.Supervisor.{Supervisor, engines, desire, with_coordinator, sync_coordinator_desired}
use yeetllm.Supervisor.Engines.{Knows, IsWired, set_desired_known, sync-IsWired}
use yeetllm.Supervisor.Startup.{
  Surroundings, Slot, slots, prepare_all, prepared, launch_all, mark_all, named, desired_up_to,
  last_index, with_reports, after_wait, launch_batch, serve_batch, run_batch, run_batches,
}
use yeetllm.Common.Text.Slices.{concat}
use yeetllm.Supervisor.Startup.Settling.{names, IsGoing}
use yeetllm.Supervisor.Startup.Launches.{
  prepare_all-IsGoing, prepared-IsGoing, launch_all-IsGoing, mark_all-IsGoing, keys-named,
}

-- A step of the start that does not raise and leaves the given engines to settle.
abbrev pub Proceeds : List Text → Result ProtocolError Supervisor → Type 0
Proceeds later r = (t : Supervisor) × (r ≡ ok t) × IsGoing later t

sync-Proceeds :
    (later : List Text) (s : Supervisor)
    → IsGoing later s
    → Proceeds later (sync_coordinator_desired s)
sync-Proceeds later s g =
    let (c, done, w) = sync-IsWired s g.wired in
    (with_coordinator c s, done, record { settled = g.settled; wired = w; linked = g.linked })

launch_batch-Proceeds :
    (env : Surroundings) (ps : List Slot) (later : List Text) (s : Supervisor)
    → IsGoing (names ps ++ later) s
    → Proceeds later (launch_batch env ps s)
launch_batch-Proceeds env ps later s g =
    let launched = launch_all env ps s in
    sync-Proceeds later (mark_all env.now launched.1 launched.0)
      (mark_all-IsGoing env.now launched.1 later launched.0 (launch_all-IsGoing env ps later s g))

after_wait-Proceeds :
    (env : Surroundings) (ps : List Slot) (o : Option Text) (later : List Text) (s : Supervisor)
    → IsGoing (names ps ++ later) s
    → Proceeds later (after_wait env ps o s)
after_wait-Proceeds env ps none later s g = launch_batch-Proceeds env ps later s g
after_wait-Proceeds env ps (some message) later s g =
    let all_marked : IsGoing (keys (named message ps) ++ later) s = rw (keys-named message ps) g in
    sync-Proceeds later (mark_all env.now (named message ps) s)
      (mark_all-IsGoing env.now (named message ps) later s all_marked)

desired_up_to_subset :
    (last : ℕ) (ps : List Slot) (s : Supervisor) (ids : List Text)
    → is_subset (names ps) ids ≡ true
    → is_subset (desired_up_to last ps s) ids ≡ true
unfolding desired_up_to names all
desired_up_to_subset last [] s ids h = refl
desired_up_to_subset last ((i, m) ∷ ps) s ids h = ground (arith, desired_up_to_subset last ps s ids)

desire-some :
    (ids : List Text) (c c' : Coordinator)
    → set_desired ids c ≡ ok c'
    → desire ids (some c) ≡ ok (some c')
unfolding desire
desire-some ids c c' h = rw h refl

Proceeds-ok :
    (later : List Text) (t : Supervisor) (r r' : Result ProtocolError Supervisor)
    → r ≡ r'
    → Proceeds later r'
    → Proceeds later r
Proceeds-ok later t r r' e p = rw e p

serve_batch-Proceeds :
    (env : Surroundings) (n : ℕ) (ps : List Slot) (later : List Text) (s : Supervisor)
    (o : Option Coordinator)
    → s.coordinator ≡ o
    → IsGoing (names ps ++ later) s
    → Proceeds later (serve_batch env n ps s o)
serve_batch-Proceeds env n [] later s o e g = launch_batch-Proceeds env [] later s g
serve_batch-Proceeds env n ((i, m) ∷ ps) later s none e g =
    launch_batch-Proceeds env ((i, m) ∷ ps) later s g
serve_batch-Proceeds env n ((i, m) ∷ ps) later s (some c) e g =
    let w = g.wired in
    let known : is_subset (keys s.registry.engines) c.allowed_engines ≡ true =
      subst (λ o. Knows o (keys s.registry.engines)) e w.known in
    let all_known : is_subset (names (slots s)) c.allowed_engines ≡ true = rw (← g.linked) known in
    let ids = desired_up_to (last_index i ps) (slots s) s in
    let (c', done, allowed) =
      set_desired_known ids c
        (desired_up_to_subset (last_index i ps) (slots s) s c.allowed_engines all_known) in
    let s' = with_coordinator (with_reports (env.waited n).0 (some c')) s in
    let g' : IsGoing (names ((i, m) ∷ ps) ++ later) s' = record {
      settled = g.settled;
      wired = record { listed = w.listed; distinct = w.distinct; known = rw allowed known };
      linked = g.linked;
    } in
    rw (desire-some ids c c' done)
      (after_wait-Proceeds env ((i, m) ∷ ps) (env.waited n).1 later s' g')

run_batch-Proceeds :
    (env : Surroundings) (n : ℕ) (ps : List Slot) (later : List Text) (s : Supervisor)
    → IsGoing (names ps ++ later) s
    → Proceeds later (run_batch env n ps s)
unfolding run_batch
run_batch-Proceeds env n ps later s g =
    let first = prepare_all env ps s in
    let second = prepared env ps first in
    serve_batch-Proceeds env n second.1 later second.0 second.0.coordinator refl
      (prepared-IsGoing env ps later first (prepare_all-IsGoing env ps later s g))

names-append : (ps qs : List Slot) → names (ps ++ qs) ≡ names ps ++ names qs
unfolding names
names-append [] qs = refl
names-append ((i, m) ∷ ps) qs = ap (λ ids. m.id ∷ ids) (names-append ps qs)

pub run_batches-Proceeds :
    (env : Surroundings) (n : ℕ) (batches : List (List Slot)) (s : Supervisor)
    → ((k : ℕ) → env.stopping k ≡ false)
    → IsGoing (names (concat batches)) s
    → Proceeds [] (run_batches env n batches s)
unfolding run_batches names
run_batches-Proceeds env n [] s on g = (s, refl, g)
run_batches-Proceeds env n (ps ∷ batches) s on g =
    let here : IsGoing (names ps ++ names (concat batches)) s =
      rw (← names-append ps (concat batches)) g in
    let (t, done, g') = run_batch-Proceeds env n ps (names (concat batches)) s here in
    let (u, finished, last) = run_batches-Proceeds env (suc n) batches t on g' in
    (u, rw (on n, done) finished, last)

-- Before the first batch no engine need be settled.
pub IsGoing-start :
    (s : Supervisor)
    → IsWired s
    → keys s.registry.engines ≡ names (slots s)
    → IsGoing (names (slots s)) s
IsGoing-start s w linked = record {
  settled = λ j state h out. elim (Option-cases (lookup j (engines s))) [
    | inl absent ↦ let bad : none ≡ some state = rw absent at h in absurd (cc bad)
    | inr (e, present) ↦
        let there : contains (keys (engines s)) j ≡ true =
          contains-keys j (engines s) ∙ rw present refl in
        let inside : contains (names (slots s)) j ≡ true = rw (← linked, ← w.listed) there in
        let bad : false ≡ true = sym out ∙ inside in absurd (cc bad)
  ];
  wired = w;
  linked = linked;
}
