-- ===== src/Supervisor/Engines.antt =====
-- What the shared operations of the supervisor do to the engines, and when they cannot raise.
use yeetllm.Common.{
  ℕ, suc, ◌≡◌, refl, sym, ◌∙◌, subst, inl, inr, arith, Bool, true, Option, none, some, List, [],
  ◌∷◌, ◌==◌, text_eq, ok, all, is_subset, IsDistinct, Bool-cases, Option-cases, if◌then◌else◌,
}
use yeetllm.Common.Dict.{Dict, keys, lookup, adjust, map_some, keys-adjust, lookup-adjust}
use yeetllm.Common.Text.{Text}
use yeetllm.Cluster.Coordinator.{Coordinator, set_desired, same_texts}
use yeetllm.Supervisor.State.{EngineState, EngineEntry, touch}
use yeetllm.Supervisor.{
  Supervisor, entry_state, engines, state_of, set_engine_state, in_state, is_wanted, desire,
  sync_coordinator_desired, entry_with, with_coordinator,
}

-- Each engine has one entry, and the coordinator knows the engines.
abbrev pub Knows : Option Coordinator → List Text → Type 0
Knows none ids = Unit
Knows (some c) ids = is_subset ids c.allowed_engines ≡ true

pub record IsWired (s : Supervisor) : Type 0 where
  pub listed : keys (engines s) ≡ keys s.registry.engines
  pub distinct : IsDistinct (keys s.registry.engines)
  pub known : Knows s.coordinator (keys s.registry.engines)

state-adjust :
    (now : ℕ) (id : Text) (state : EngineState) (pid : Option ℕ) (error : Option Text) (j : Text)
    (d : Dict Text EngineEntry)
    → entry_state (lookup j (adjust id (entry_with now state pid error) d)) ≡ (
        if id == j
        then map_some (λ (e : EngineState). state) (entry_state (lookup j d))
        else entry_state (lookup j d))
state-adjust now id state pid error j d =
    let moved = lookup-adjust id j (entry_with now state pid error) d in
    elim (Bool-cases (id == j)) [
      | inr other ↦ rw (moved, other) refl
      | inl same ↦ elim (Option-cases (lookup j d)) [
        | inl absent ↦ rw (moved, same, absent) refl
        | inr (e, present) ↦ rw (moved, same, present) refl
      ]
    ]

pub state_of-set_engine_state :
    (now : ℕ) (id : Text) (state : EngineState) (pid : Option ℕ) (error : Option Text)
    (s : Supervisor) (j : Text)
    → state_of j (set_engine_state now id state pid error s)
      ≡ (if id == j then map_some (λ (e : EngineState). state) (state_of j s) else state_of j s)
unfolding set_engine_state touch
state_of-set_engine_state now id state pid error s j =
    state-adjust now id state pid error j (engines s)

pub keys-set_engine_state :
    (now : ℕ) (id : Text) (state : EngineState) (pid : Option ℕ) (error : Option Text)
    (s : Supervisor)
    → keys (engines (set_engine_state now id state pid error s)) ≡ keys (engines s)
unfolding set_engine_state touch
keys-set_engine_state now id state pid error s =
    keys-adjust id (entry_with now state pid error) (engines s)

pub set_engine_state-IsWired :
    (now : ℕ) (id : Text) (state : EngineState) (pid : Option ℕ) (error : Option Text)
    (s : Supervisor)
    → IsWired s
    → IsWired (set_engine_state now id state pid error s)
unfolding set_engine_state touch
set_engine_state-IsWired now id state pid error s w = record {
  listed = keys-adjust id (entry_with now state pid error) (engines s) ∙ w.listed;
  distinct = w.distinct;
  known = w.known;
}

in_state_subset :
    (test : EngineState → Bool) (d : Dict Text EngineEntry) (ids : List Text)
    → is_subset (keys d) ids ≡ true
    → is_subset (in_state test d) ids ≡ true
unfolding in_state all
in_state_subset test [] ids h = refl
in_state_subset test ((k, e) ∷ d) ids h = ground (arith, in_state_subset test d ids)

-- `set_desired` of known engines.
pub set_desired_known :
    (ids : List Text) (c : Coordinator)
    → is_subset ids c.allowed_engines ≡ true
    → (c' : Coordinator) × (set_desired ids c ≡ ok c') × (c'.allowed_engines ≡ c.allowed_engines)
unfolding set_desired
set_desired_known ids c h = elim (Bool-cases (same_texts ids c.desired)) [
  | inl same ↦ (c, rw (h, same) refl, refl)
  | inr new ↦ (record c { desired = ids; generation = suc c.generation }, rw (h, new) refl, refl)
]

desire_known :
    (ids : List Text) (o : Option Coordinator)
    → Knows o ids
    → (c : Option Coordinator) × (desire ids o ≡ ok c)
      × ((js : List Text) → Knows o js → Knows c js)
unfolding desire
desire_known ids none k = (none, refl, λ js h. h)
desire_known ids (some c) k =
    let (c', done, same) = set_desired_known ids c k in (some c', rw done refl, λ js h. rw same h)

Knows-subset :
    (o : Option Coordinator) (d : Dict Text EngineEntry) (test : EngineState → Bool)
    → Knows o (keys d)
    → Knows o (in_state test d)
Knows-subset none d test h = tt
Knows-subset (some c) d test h = in_state_subset test d c.allowed_engines h

-- For a wired supervisor the synchronisation does not raise, and changes only the coordinator.
pub sync-IsWired :
    (s : Supervisor)
    → IsWired s
    → (c : Option Coordinator) × (sync_coordinator_desired s ≡ ok (with_coordinator c s))
      × IsWired (with_coordinator c s)
unfolding sync_coordinator_desired
sync-IsWired s w =
    let known = subst (λ (ids : List Text). Knows s.coordinator ids) (sym w.listed) w.known in
    let (c, done, keep) =
      desire_known (in_state is_wanted (engines s)) s.coordinator
        (Knows-subset s.coordinator (engines s) is_wanted known) in
    (
      c,
      rw done refl,
      record {
        listed = w.listed;
        distinct = w.distinct;
        known = keep (keys s.registry.engines) w.known;
      },
    )
