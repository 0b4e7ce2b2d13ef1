-- ===== src/Router/Sse/Chunks.antt =====
-- The loop of `feed` comes to an end with no whole event left, and the chunks do not matter.
use mathlib.Core.List.{append_assoc}
use yeetllm.Common.{
  ℕ, zero, suc, ◌≤◌, ◌<◌, ◌≡◌, refl, sym, ap, ◌∙◌, arith, true, false, Option, none, some, List, [],
  ◌∷◌, ◌++◌, ◌==◌, nat_eq, text_eq, length, length-append, Bool-cases, Option-cases, inl, inr, ◌⊎◌,
  contains,
}
use yeetllm.Common.Text.{Text, Bytes, starts_with}
use yeetllm.Common.Json.{Json}
use yeetllm.Common.Text.Slices.{drop}
use yeetllm.Router.Sse.{normalize, blank_line, cut, parse_event, drain}

-- Without a carriage return there is nothing to normalize.
pub normalize-plain : (s : Bytes) → contains s 13 ≡ false → normalize s ≡ s
unfolding normalize contains
normalize-plain [] h = refl
normalize-plain (c ∷ s) h = ground (arith, normalize-plain s)

module _ (c d : ℕ) (s : Bytes) where
  cut_here : starts_with (c ∷ d ∷ s) blank_line ≡ true → cut (c ∷ d ∷ s) ≡ some ([], s)
  unfolding cut drop
  cut_here here = rw (here, cut) refl

  cut_later :
      (event rest : Bytes)
      → starts_with (c ∷ d ∷ s) blank_line ≡ false
      → cut (d ∷ s) ≡ some (event, rest)
      → cut (c ∷ d ∷ s) ≡ some (c ∷ event, rest)
  unfolding cut
  cut_later event rest later h = rw (later, h, cut) refl

  cut_never :
      starts_with (c ∷ d ∷ s) blank_line ≡ false → cut (d ∷ s) ≡ none → cut (c ∷ d ∷ s) ≡ none
  unfolding cut
  cut_never later h = rw (later, h, cut) refl

cut_nil : cut [] ≡ none
unfolding cut
cut_nil = refl

cut_one : (c : ℕ) → cut (c ∷ []) ≡ none
unfolding cut starts_with
cut_one c = elim (Bool-cases (c == 10)) [ inl y ↦ rw (y, cut) refl | inr n ↦ rw (n, cut) refl ]

-- A buffer with a whole event is at least two bytes long, and its event is here or later.
cut-cases :
    (c d : ℕ) (s event rest : Bytes)
    → cut (c ∷ d ∷ s) ≡ some (event, rest)
    → ((starts_with (c ∷ d ∷ s) blank_line ≡ true) × (event ≡ []) × (rest ≡ s))
      ⊎ ((starts_with (c ∷ d ∷ s) blank_line ≡ false)
          × (before : Bytes) × (event ≡ c ∷ before)
          × (cut (d ∷ s) ≡ some (before, rest)))
cut-cases c d s event rest h = elim (Bool-cases (starts_with (c ∷ d ∷ s) blank_line)) [
  | inl here ↦
      let e : some ([], s) ≡ some (event, rest) = sym (cut_here c d s here) ∙ h in
      inl (here, cc e, cc e)
  | inr later ↦ elim (Option-cases (cut (d ∷ s))) [
    | inl never ↦ absurd (let e = sym (cut_never c d s later never) ∙ h in cc e)
    | inr ((before, after), found) ↦
        let e : some (c ∷ before, after) ≡ some (event, rest) =
          sym (cut_later c d s before after later found) ∙ h in
        let same : after ≡ rest = cc e in inr (later, before, cc e, rw (← same) found)
  ]
]

-- An event ends before what is appended.
cut-append :
    (s t event rest : Bytes) → cut s ≡ some (event, rest) → cut (s ++ t) ≡ some (event, rest ++ t)
unfolding starts_with
cut-append [] t event rest h = absurd (let e = sym cut_nil ∙ h in cc e)
cut-append (c ∷ []) t event rest h = absurd (let e = sym (cut_one c) ∙ h in cc e)
cut-append (c ∷ d ∷ s) t event rest h = elim (cut-cases c d s event rest h) [
  | inl (here, e, r) ↦ rw (e, r) (cut_here c d (s ++ t) here)
  | inr (later, before, e, found) ↦
      rw e
        (cut_later c d (s ++ t) before (rest ++ t) later (cut-append (d ∷ s) t before rest found))
]

cut-shorter : (s event rest : Bytes) → cut s ≡ some (event, rest) → length rest < length s
cut-shorter [] event rest h = absurd (let e = sym cut_nil ∙ h in cc e)
cut-shorter (c ∷ []) event rest h = absurd (let e = sym (cut_one c) ∙ h in cc e)
cut-shorter (c ∷ d ∷ s) event rest h = elim (cut-cases c d s event rest h) [
  | inl (here, e, r) ↦ rw r (omega arith)
  | inr (later, before, e, found) ↦ omega (arith, cut-shorter (d ∷ s) before rest found)
]

cut-plain :
    (s event rest : Bytes)
    → cut s ≡ some (event, rest)
    → contains s 13 ≡ false
    → contains rest 13 ≡ false
unfolding contains
cut-plain [] event rest h p = absurd (let e = sym cut_nil ∙ h in cc e)
cut-plain (c ∷ []) event rest h p = absurd (let e = sym (cut_one c) ∙ h in cc e)
cut-plain (c ∷ d ∷ s) event rest h p = elim (cut-cases c d s event rest h) [
  | inl (here, e, r) ↦ rw r (ground arith)
  | inr (later, before, e, found) ↦ cut-plain (d ∷ s) before rest found (ground arith)
]

module _ (loads : Bytes → Option Json) where
  drain-zero : drain loads zero [] ≡ ([], [])
  unfolding drain
  drain-zero = refl

  drain_done : (fuel : ℕ) (s : Bytes) → cut s ≡ none → drain loads (suc fuel) s ≡ ([], s)
  unfolding drain
  drain_done fuel s h = rw (h, drain) refl

  drain_next :
      (fuel : ℕ) (s event rest : Bytes)
      → cut s ≡ some (event, rest)
      → drain loads (suc fuel) s
        ≡ (parse_event loads event ++ (drain loads fuel rest).0, (drain loads fuel rest).1)
  unfolding drain
  drain_next fuel s event rest h = rw (h, drain) refl

  -- With as much fuel as the buffer is long, the loop leaves no whole event in it.
  pub drain_empty : (fuel : ℕ) (s : Bytes) → length s ≤ fuel → cut (drain loads fuel s).1 ≡ none
  unfolding drain
  drain_empty zero [] h = cut_nil
  drain_empty zero (c ∷ s) h = absurd (omega arith)
  drain_empty (suc fuel) s h = elim (Option-cases (cut s)) [
    | inl none_left ↦ rw (drain_done fuel s none_left) none_left
    | inr ((event, rest), found) ↦
        rw (drain_next fuel s event rest found)
          (drain_empty fuel rest (omega (arith, cut-shorter s event rest found)))
  ]

  -- More fuel than the buffer's length changes nothing.
  pub drain_fuel :
      (fuel more : ℕ) (s : Bytes)
      → length s ≤ fuel
      → length s ≤ more
      → drain loads fuel s ≡ drain loads more s
  unfolding drain
  drain_fuel zero zero s h k = refl
  drain_fuel zero (suc more) [] h k = sym (drain_done more [] cut_nil)
  drain_fuel zero (suc more) (c ∷ s) h k = absurd (omega arith)
  drain_fuel (suc fuel) zero [] h k = drain_done fuel [] cut_nil
  drain_fuel (suc fuel) zero (c ∷ s) h k = absurd (omega arith)
  drain_fuel (suc fuel) (suc more) s h k = elim (Option-cases (cut s)) [
    | inl none_left ↦ drain_done fuel s none_left ∙ sym (drain_done more s none_left)
    | inr ((event, rest), found) ↦
        let shorter = cut-shorter s event rest found in
        let same = drain_fuel fuel more rest (omega arith) (omega arith) in
        drain_next fuel s event rest found
        ∙ ap (λ (r : List Text × Bytes). (parse_event loads event ++ r.0, r.1)) same
        ∙ sym (drain_next more s event rest found)
  ]

  -- What two parts of a stream give, read one after the other.
  abbrev pub then_drain : List Text × Bytes → ℕ → Bytes → List Text × Bytes
  then_drain read far t = let later = drain loads far (read.1 ++ t) in (read.0 ++ later.0, later.1)

  pub drain-append :
      (fuel more far : ℕ) (s t : Bytes)
      → length s ≤ fuel
      → length (s ++ t) ≤ more
      → length (s ++ t) ≤ far
      → drain loads more (s ++ t) ≡ then_drain (drain loads fuel s) far t
  drain-append zero more far [] t h k l = rw drain-zero (drain_fuel more far t k l)
  drain-append zero more far (c ∷ s) t h k l = absurd (omega arith)
  drain-append (suc fuel) zero far s t h k l = elim (Option-cases (cut s)) [
    | inl none_left ↦ rw (drain_done fuel s none_left) (drain_fuel zero far (s ++ t) k l)
    | inr ((event, rest), found) ↦
        absurd (omega (arith, cut-shorter s event rest found, length-append s t))
  ]
  drain-append (suc fuel) (suc more) far s t h k l = elim (Option-cases (cut s)) [
    | inl none_left ↦ rw (drain_done fuel s none_left) (drain_fuel (suc more) far (s ++ t) k l)
    | inr ((event, rest), found) ↦
        let shorter = cut-shorter s event rest found in
        let low : length (rest ++ t) ≤ more =
          omega (arith, length-append rest t, length-append s t) in
        let far_low : length (rest ++ t) ≤ far =
          omega (arith, length-append rest t, length-append s t) in
        let tail = drain-append fuel more far rest t (omega arith) low far_low in
        rw
          (
            drain_next more (s ++ t) event (rest ++ t) (cut-append s t event rest found),
            drain_next fuel s event rest found,
            tail,
          )
          (ap (λ (ids : List Text). (ids, (then_drain (drain loads fuel rest) far t).1))
            (sym (
              append_assoc (parse_event loads event) (drain loads fuel rest).0
                (drain loads far ((drain loads fuel rest).1 ++ t)).0)))
  ]

  -- A buffer that the loop leaves is no longer than before, and has no byte that was not there.
  abbrev pub IsLess : Bytes → Bytes → Type 0
  IsLess r s = (length r ≤ length s) × (contains s 13 ≡ false → contains r 13 ≡ false)

  pub drain-IsLess : (fuel : ℕ) (s : Bytes) → IsLess (drain loads fuel s).1 s
  unfolding drain
  drain-IsLess zero s = (omega arith, λ p. p)
  drain-IsLess (suc fuel) s = elim (Option-cases (cut s)) [
    | inl none_left ↦ rw (drain_done fuel s none_left) (omega arith, λ p. p)
    | inr ((event, rest), found) ↦
        let (low, plain) = drain-IsLess fuel rest in
        rw (drain_next fuel s event rest found) (
          omega (arith, cut-shorter s event rest found),
          λ p. plain (cut-plain s event rest found p),
        )
  ]
