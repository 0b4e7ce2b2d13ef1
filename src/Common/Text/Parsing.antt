-- ===== src/Common/Text/Parsing.antt =====
-- `int(s)` for a text; of the digits and spaces, those that are not ASCII are left out.
use Prim.Native.Nat.{ℕ, zero, suc, ◌+◌, ◌-◌, ◌*◌}
use mathlib.Core.Bool.{Bool, true, false, ◌&&◌}
use mathlib.Core.Option.{Option, none, some}
use mathlib.Core.List.{[], ◌∷◌}
use yeetllm.Common.Tests.{if◌then◌else◌}
use yeetllm.Common.Keys.{◌==◌, nat_eq}
use yeetllm.Common.Int.{ℤ, pos, negsuc}
use yeetllm.Common.Text.{Text, strip, is_digit}

-- digits, with single underscores between them; `after_digit` if the last one read was a digit
unfoldable pub read_digits : ℕ → Bool → Text → Option ℕ
read_digits n after_digit [] = if after_digit then some n else none
read_digits n after_digit (c ∷ s) = elim (is_digit c) [
  | true ↦ read_digits (n * 10 + (c - 48)) true s
  | false ↦ elim (c == b'_' && after_digit) [ true ↦ read_digits n false s | false ↦ none ]
]

abbrev pub negated : Option ℕ → Option ℤ
negated none = none
negated (some zero) = some (pos 0)
negated (some (suc n)) = some (negsuc n)

abbrev pub nonnegated : Option ℕ → Option ℤ
nonnegated none = none
nonnegated (some n) = some (pos n)

unfoldable pub read_signed : Text → Option ℤ
unfolding read_digits
read_signed [] = none
read_signed (c ∷ s) =
    if c == b'-'
    then negated (read_digits 0 false s)
    else if c == b'+'
    then nonnegated (read_digits 0 false s)
    else nonnegated (read_digits 0 false (c ∷ s))

unfoldable pub int_of : Text → Option ℤ
unfolding read_signed
int_of s = read_signed (strip s)
