-- ===== src/Common/Text/Slices.antt =====
-- `s[:n]` and `s[n:]`, and lists one behind the other.
use Prim.Native.Nat.{ℕ, zero, suc, ◌-◌, ◌≤◌}
use mathlib.Core.Path.{◌≡◌, refl}
use mathlib.Core.List.{List, [], ◌∷◌, ◌++◌}
use native.Mathlib.Omega.{arith}
use yeetllm.Common.Lists.{length}

module _ {ℓ} {A : Type ℓ} where
  unfoldable pub take : ℕ → List A → List A
  take zero s = []
  take (suc n) [] = []
  take (suc n) (c ∷ s) = c ∷ take n s

  unfoldable pub drop : ℕ → List A → List A
  drop zero s = s
  drop (suc n) [] = []
  drop (suc n) (c ∷ s) = drop n s

  pub take-append-drop : (n : ℕ) (s : List A) → take n s ++ drop n s ≡ s
  unfolding take drop
  take-append-drop zero s = refl
  take-append-drop (suc n) [] = refl
  take-append-drop (suc n) (c ∷ s) = cc (take-append-drop n s)

  pub length-drop : (n : ℕ) (s : List A) → length (drop n s) ≡ length s - n
  unfolding drop
  length-drop zero s = omega arith
  length-drop (suc n) [] = omega arith
  length-drop (suc n) (c ∷ s) = omega (arith, length-drop n s)

  pub length-take-le : (n : ℕ) (s : List A) → length (take n s) ≤ n
  unfolding take
  length-take-le zero s = omega arith
  length-take-le (suc n) [] = omega arith
  length-take-le (suc n) (c ∷ s) = omega (arith, length-take-le n s)

  -- The lists, one behind the other.
  abbrev pub concat : List (List A) → List A
  concat [] = []
  concat (xs ∷ rest) = xs ++ concat rest
