-- ===== src/Supervisor/Startup/Settling.antt =====
-- The start settles every engine: it is ready or failed.
use yeetllm.Common.{
  ℕ, ◌≡◌, refl, sym, ◌∙◌, ◌⊎◌, inl, inr, true, false, Option, none, some, List, [], ◌∷◌, ◌==◌,
  nat_eq, text_eq, eq_iff, contains, Bool-cases, Option-cases,
}
use yeetllm.Common.Dict.{keys}
use yeetllm.Common.Text.{Text}
use yeetllm.Supervisor.State.{EngineState, failed, ready}
use yeetllm.Supervisor.{Supervisor, engines, state_of, set_engine_state, mark_engine_failed}
use yeetllm.Supervisor.Engines.{IsWired, state_of-set_engine_state, set_engine_state-IsWired}
use yeetllm.Supervisor.Startup.{Slot, slots}

-- The identifiers of models.
unfoldable pub names : List Slot → List Text
names [] = []
names ((i, m) ∷ ps) = m.id ∷ names ps

abbrev pub IsSettled : EngineState → Type 0
IsSettled state = (state ≡ ready) ⊎ (state ≡ failed)

-- The supervisor during the start, with the engines that may be unsettled.
pub record IsGoing (ids : List Text) (s : Supervisor) : Type 0 where
  pub settled :
      (j : Text) (state : EngineState)
      → state_of j s ≡ some state
      → contains ids j ≡ false
      → IsSettled state
  pub wired : IsWired s
  pub linked : keys s.registry.engines ≡ names (slots s)

abbrev pub IsWithin : List Text → List Text → Type 0
IsWithin ids ids' = (j : Text) → contains ids j ≡ true → contains ids' j ≡ true

out_of_within :
    (ids ids' : List Text) (j : Text)
    → IsWithin ids ids'
    → contains ids' j ≡ false
    → contains ids j ≡ false
out_of_within ids ids' j w h = elim (Bool-cases (contains ids j)) [
  | inr out ↦ out
  | inl inside ↦ let bad : false ≡ true = sym h ∙ w j inside in absurd (cc bad)
]

pub IsGoing-within :
    {ids ids' : List Text} {s : Supervisor} → IsWithin ids ids' → IsGoing ids s → IsGoing ids' s
IsGoing-within {ids} {ids'} w g = record {
  settled = λ j state h out. g.settled j state h (out_of_within ids ids' j w out);
  wired = g.wired;
  linked = g.linked;
}

state_after :
    (now : ℕ) (id : Text) (new : EngineState) (pid : Option ℕ) (error : Option Text)
    (s : Supervisor) (j : Text) (state : EngineState)
    → state_of j (set_engine_state now id new pid error s) ≡ some state
    → ((id ≡ j) × (state ≡ new)) ⊎ ((id == j ≡ false) × (state_of j s ≡ some state))
state_after now id new pid error s j state h =
    let moved = state_of-set_engine_state now id new pid error s j in
    elim (Bool-cases (id == j)) [
      | inr other ↦ inr (other, rw (moved, other) at h)
      | inl same ↦ elim (Option-cases (state_of j s)) [
        | inl absent ↦
            let bad : none ≡ some state = rw (moved, same, absent) at h in absurd (cc bad)
        | inr (old, present) ↦
            let now_new : some new ≡ some state = rw (moved, same, present) at h in
            inl ((eq_iff id j).0 same, cc now_new)
      ]
    ]

-- An engine that may be unsettled is written.
pub set-IsGoing :
    {ids : List Text} (now : ℕ) (id : Text) (new : EngineState) (pid : Option ℕ)
    (error : Option Text) (s : Supervisor)
    → contains ids id ≡ true
    → IsGoing ids s
    → IsGoing ids (set_engine_state now id new pid error s)
unfolding set_engine_state
set-IsGoing {ids} now id new pid error s m g = record {
  settled = λ j state h out. elim (state_after now id new pid error s j state h) [
    | inl (here, is_new) ↦
        let there : contains ids j ≡ true = rw (← here) m in
        let bad : false ≡ true = sym out ∙ there in absurd (cc bad)
    | inr (other, was) ↦ g.settled j state was out
  ];
  wired = set_engine_state-IsWired now id new pid error s g.wired;
  linked = g.linked;
}

-- An engine is settled.
pub settle-IsGoing :
    {ids : List Text} (now : ℕ) (id : Text) (new : EngineState) (pid : Option ℕ)
    (error : Option Text) (s : Supervisor)
    → IsSettled new
    → IsGoing (id ∷ ids) s
    → IsGoing ids (set_engine_state now id new pid error s)
unfolding set_engine_state contains
settle-IsGoing {ids} now id new pid error s done g = record {
  settled = λ j state h out. elim (state_after now id new pid error s j state h) [
    | inl (here, is_new) ↦ rw is_new done
    | inr (other, was) ↦ g.settled j state was (rw (other, out) refl)
  ];
  wired = set_engine_state-IsWired now id new pid error s g.wired;
  linked = g.linked;
}

-- Changes of other fields.
pub IsGoing-of :
    {ids : List Text} {s t : Supervisor}
    → IsGoing ids s
    → engines t ≡ engines s
    → t.registry ≡ s.registry
    → t.coordinator ≡ s.coordinator
    → t.config ≡ s.config
    → IsGoing ids t
IsGoing-of {s = s} g e r c f =
    let w = g.wired in
    record {
      settled = λ j state h out. g.settled j state (rw e at h) out;
      wired = record {
        listed = rw (e, r) w.listed;
        distinct = rw r w.distinct;
        known = rw (r, c) w.known;
      };
      linked = rw (r, f) g.linked;
    }

pub mark-IsGoing :
    {ids : List Text} (now : ℕ) (id message : Text) (s : Supervisor)
    → IsGoing (id ∷ ids) s
    → IsGoing ids (mark_engine_failed now id message s)
unfolding mark_engine_failed
mark-IsGoing now id message s g =
    IsGoing-of (settle-IsGoing now id failed none (some message) s (inr refl) g) refl refl refl refl
