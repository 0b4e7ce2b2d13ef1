-- ===== src/Common/Text/Cuts.antt =====
-- How prefixes, cuts and replacements of characters act on joined texts.
use Prim.Native.Nat.{ℕ}
use mathlib.Core.Path.{◌≡◌, refl, ap}
use mathlib.Core.Bool.{Bool, true, not}
use mathlib.Core.List.{[], ◌∷◌, ◌++◌}
use native.Mathlib.Omega.{arith}
use yeetllm.Common.Keys.{◌==◌, nat_eq}
use yeetllm.Common.Lists.{all}
use yeetllm.Common.Text.{Text, starts_with, before, replace_code, rstrip_by}

pub all-starts_with :
    (q : ℕ → Bool) (s p : Text) → starts_with s p ≡ true → all q s ≡ true → all q p ≡ true
unfolding starts_with all
all-starts_with q s [] h k = refl
all-starts_with q [] (d ∷ p) h k = cc
all-starts_with q (c ∷ s) (d ∷ p) h k = ground (arith, all-starts_with q s p, ap q)

pub starts_with-append : (s p t : Text) → starts_with s p ≡ true → starts_with (s ++ t) p ≡ true
unfolding starts_with
starts_with-append s [] t h = refl
starts_with-append [] (d ∷ p) t h = cc
starts_with-append (c ∷ s) (d ∷ p) t h = ground (arith, starts_with-append s p t)

pub starts_with_trans :
    (s p q : Text) → starts_with s p ≡ true → starts_with p q ≡ true → starts_with s q ≡ true
unfolding starts_with
starts_with_trans s p [] h k = refl
starts_with_trans s [] (d ∷ q) h k = cc
starts_with_trans [] (e ∷ p) (d ∷ q) h k = cc
starts_with_trans (c ∷ s) (e ∷ p) (d ∷ q) h k = ground (arith, starts_with_trans s p q)

pub before-append :
    (sep : ℕ) (s t : Text)
    → all (λ c. not (c == sep)) s ≡ true
    → before sep (s ++ t) ≡ s ++ before sep t
unfolding before all
before-append sep [] t h = refl
before-append sep (c ∷ s) t h = ground (arith, before-append sep s t)

pub replace_code-append :
    (a b : ℕ) (s t : Text) → replace_code a b (s ++ t) ≡ replace_code a b s ++ replace_code a b t
unfolding replace_code
replace_code-append a b [] t = refl
replace_code-append a b (c ∷ s) t = ground (arith, replace_code-append a b s t)

-- With none of the characters to strip, nothing is stripped.
pub rstrip_by_none : (p : ℕ → Bool) (s : Text) → all (λ c. not (p c)) s ≡ true → rstrip_by p s ≡ s
unfolding rstrip_by all
rstrip_by_none p [] h = refl
rstrip_by_none p (c ∷ s) h = ground (arith, rstrip_by_none p s)
