-- ===== src/Common/Text/Decimal.antt =====
-- `str(n)` and `int(s)` for integers in decimal.
use Prim.Native.Nat.{ℕ, zero, suc, ◌+◌, ◌-◌, ◌*◌, ◌/◌, ◌%◌, ◌<◌}
use mathlib.Core.Path.{◌≡◌, sym, ap, ◌∙◌}
use mathlib.Core.Logic.{inl, inr}
use mathlib.Core.List.{List, [], ◌∷◌}
use native.Mathlib.Omega.{arith}
use yeetllm.Common.Tests.{ltb, if◌then◌else◌, Bool-cases}

-- The digits of `n` before those in `acc`; the fuel is above `n`.
decimal_from : ℕ → ℕ → List ℕ → List ℕ
decimal_from zero n acc = acc
decimal_from (suc fuel) n acc =
    let more = decimal_from fuel (n / 10) ((48 + n % 10) ∷ acc) in
    if ltb n 10 then (48 + n) ∷ acc else more

-- `str(n)`
unfoldable pub decimal : ℕ → List ℕ
unfolding decimal_from
decimal n = decimal_from (suc n) n []

-- The number that digits stand for, after those already read.
unfoldable pub digits_value : ℕ → List ℕ → ℕ
digits_value n [] = n
digits_value n (c ∷ s) = digits_value (n * 10 + (c - 48)) s

decimal_from-value :
    (fuel n : ℕ) (acc : List ℕ)
    → n < fuel
    → digits_value 0 (decimal_from fuel n acc) ≡ digits_value n acc
unfolding decimal_from digits_value
decimal_from-value zero n acc h = absurd (omega arith)
decimal_from-value (suc fuel) n acc h =
    let keep : (n / 10 * 10 + (48 + n % 10 - 48)) ≡ n = omega arith in
    elim (Bool-cases (ltb n 10)) [
      | inl small ↦ rw small (ap (λ (k : ℕ). digits_value k acc) (omega arith))
      | inr big ↦ rw big (
          decimal_from-value fuel (n / 10) ((48 + n % 10) ∷ acc) (ground arith)
          ∙ ap (λ (k : ℕ). digits_value k acc) keep)
    ]

-- Reading back what was printed.
pub digits_value-decimal : (n : ℕ) → digits_value 0 (decimal n) ≡ n
unfolding decimal digits_value
digits_value-decimal n = decimal_from-value (suc n) n [] (omega arith)

pub decimal_injective : (m n : ℕ) → decimal m ≡ decimal n → m ≡ n
decimal_injective m n e =
    sym (digits_value-decimal m) ∙ ap (digits_value 0) e ∙ digits_value-decimal n
