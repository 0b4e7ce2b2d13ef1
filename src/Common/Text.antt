-- ===== src/Common/Text.antt =====
-- Texts (`str`, lists of code points) and bytes, with the methods that the program calls on them.
pub mod Decimal
pub mod Cuts
pub mod Parsing
pub mod Slices
use Prim.Native.Nat.{ℕ, zero, suc, ◌+◌, ◌-◌}
use Prim.Native.Char.{code}
use Prim.Native.String.{String}
use mathlib.Core.Bool.{Bool, true, false, not, ◌&&◌, ◌||◌}
use mathlib.Core.List.{List, [], ◌∷◌, ◌++◌, reverse}
use yeetllm.Common.Tests.{leb, if◌then◌else◌}
use yeetllm.Common.Keys.{◌==◌, nat_eq}

abbrev pub Text : Type 0
Text = List ℕ

abbrev pub Bytes : Type 0
Bytes = List ℕ

-- The code points of a literal.
abbrev pub codes : String → Text
codes String.[] = []
codes (String.◌∷◌ c s) = code c ∷ codes s

-- `if not s`
abbrev pub is_empty : Text → Bool
is_empty [] = true
is_empty (c ∷ s) = false

-- `s.startswith(p)`
unfoldable pub starts_with : Text → Text → Bool
starts_with s [] = true
starts_with [] (d ∷ p) = false
starts_with (c ∷ s) (d ∷ p) = c == d && starts_with s p

-- `p in s`
unfoldable pub has_infix : Text → Text → Bool
unfolding starts_with
has_infix [] p = starts_with [] p
has_infix (c ∷ s) p = starts_with (c ∷ s) p || has_infix s p

-- The white space of `bytes.strip`, and that of `str.strip`.
abbrev pub is_ascii_space : ℕ → Bool
is_ascii_space c = c == 32 || leb 9 c && leb c 13

abbrev pub is_space : ℕ → Bool
is_space c =
    is_ascii_space c
    || leb 28 c && leb c 31
    || c == 133
    || c == 160
    || c == 5760
    || leb 8192 c && leb c 8202
    || c == 8232
    || c == 8233
    || c == 8239
    || c == 8287
    || c == 12288

unfoldable pub drop_while : (ℕ → Bool) → Text → Text
drop_while p [] = []
drop_while p (c ∷ s) = let rest = drop_while p s in if p c then rest else c ∷ s

-- without the characters of a set at the end
unfoldable pub rstrip_by : (ℕ → Bool) → Text → Text
rstrip_by p [] = []
rstrip_by p (c ∷ s) = let rest = rstrip_by p s in if p c && is_empty rest then [] else c ∷ rest

-- `s.strip()` over a set of characters to strip
unfoldable pub strip_by : (ℕ → Bool) → Text → Text
unfolding drop_while rstrip_by
strip_by p s = rstrip_by p (drop_while p s)

abbrev pub strip : Text → Text
strip = strip_by is_space

-- `bytes.lower()`; for the texts that the program lowers, only ASCII letters matter.
abbrev pub lower_code : ℕ → ℕ
lower_code c = if leb 65 c && leb c 90 then c + 32 else c

unfoldable pub lower : Text → Text
lower [] = []
lower (c ∷ s) = lower_code c ∷ lower s

-- a character in front of the first part
abbrev pub onto_first : ℕ → List Text → List Text
onto_first c [] = (c ∷ []) ∷ []
onto_first c (part ∷ parts) = (c ∷ part) ∷ parts

-- `s.split(sep)` for a separator of one character
unfoldable pub split : ℕ → Text → List Text
split sep [] = [] ∷ []
split sep (c ∷ s) = let rest = split sep s in if c == sep then [] ∷ rest else onto_first c rest

-- `s.split(sep, 1)[0]`
unfoldable pub before : ℕ → Text → Text
before sep [] = []
before sep (c ∷ s) = let rest = before sep s in if c == sep then [] else c ∷ rest

-- `s.replace(a, b)` for single characters
unfoldable pub replace_code : ℕ → ℕ → Text → Text
replace_code a b [] = []
replace_code a b (c ∷ s) = (if c == a then b else c) ∷ replace_code a b s

-- `s.rstrip(c)`
abbrev pub rstrip_code : ℕ → Text → Text
rstrip_code c = rstrip_by (λ d. d == c)

abbrev pub is_digit : ℕ → Bool
is_digit c = leb 48 c && leb c 57

abbrev pub is_upper : ℕ → Bool
is_upper c = leb 65 c && leb c 90

abbrev pub is_alnum : ℕ → Bool
is_alnum c = is_digit c || is_upper c || leb 97 c && leb c 122
