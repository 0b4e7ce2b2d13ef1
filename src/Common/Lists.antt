-- ===== src/Common/Lists.antt =====
-- Lists measured by native numbers, and tests and predicates on their elements.
use Prim.Native.Nat.{ℕ, suc, ◌+◌, ◌≤◌}
use mathlib.Core.Path.{◌≡◌, refl, ap}
use mathlib.Core.Bool.{Bool, true, false, ◌&&◌, ◌||◌}
use mathlib.Core.Logic.{◌↔◌, inl, inr}
use mathlib.Core.List.{List, [], ◌∷◌, ◌++◌, Memᴰ}
use mathlib.Core.List.Memᴰ.{head, tail}
use native.Mathlib.Omega.{arith}
use yeetllm.Common.Tests.{if◌then◌else◌, Bool-cases}
use yeetllm.Common.Keys.{Eq, ◌==◌, eq_iff}

module _ {ℓ} {A : Type ℓ} where
  abbrev pub length : List A → ℕ
  length [] = 0
  length (x ∷ xs) = suc (length xs)

  unfoldable pub any : (A → Bool) → List A → Bool
  any p [] = false
  any p (x ∷ xs) = p x || any p xs

  unfoldable pub all : (A → Bool) → List A → Bool
  all p [] = true
  all p (x ∷ xs) = p x && all p xs

  -- `[x for x in xs if p(x)]`
  unfoldable pub keep : (A → Bool) → List A → List A
  keep p [] = []
  keep p (x ∷ xs) = let rest = keep p xs in if p x then x ∷ rest else rest

  pub length-append : (xs ys : List A) → length (xs ++ ys) ≡ length xs + length ys
  length-append [] ys = omega arith
  length-append (x ∷ xs) ys = omega (arith, length-append xs ys)

  pub length-keep-le : (p : A → Bool) (xs : List A) → length (keep p xs) ≤ length xs
  unfolding keep
  length-keep-le p [] = omega arith
  length-keep-le p (x ∷ xs) = ground (arith, length-keep-le p xs)

  pub keep-append : (p : A → Bool) (xs ys : List A) → keep p (xs ++ ys) ≡ keep p xs ++ keep p ys
  unfolding keep
  keep-append p [] ys = refl
  keep-append p (x ∷ xs) ys = ground (arith, keep-append p xs ys)

module _ {ℓ κ} {A : Type ℓ} (P : A → Type κ) where
  abbrev pub All : List A → Type κ
  All [] = Unit
  All (x ∷ xs) = P x × All xs

  pub All-append : (xs ys : List A) → All xs → All ys → All (xs ++ ys)
  All-append [] ys hx hy = hy
  All-append (x ∷ xs) ys hx hy = (hx.0, All-append xs ys hx.1 hy)

  pub All-append_left : (xs ys : List A) → All (xs ++ ys) → All xs
  All-append_left [] ys h = tt
  All-append_left (x ∷ xs) ys h = (h.0, All-append_left xs ys h.1)

  pub All-append_right : (xs ys : List A) → All (xs ++ ys) → All ys
  All-append_right [] ys h = h
  All-append_right (x ∷ xs) ys h = All-append_right xs ys h.1

  pub All-mem : {a : A} (xs : List A) → All xs → Memᴰ a xs → P a
  All-mem [] h m = elim m [ ]
  All-mem (x ∷ xs) h (head e) = rw e h.0
  All-mem (x ∷ xs) h (tail m) = All-mem xs h.1 m

  pub All-of_mem : (xs : List A) → ((a : A) → Memᴰ a xs → P a) → All xs
  All-of_mem [] h = tt
  All-of_mem (x ∷ xs) h = (h x (head refl), All-of_mem xs (λ a m. h a (tail m)))

-- A Boolean test of all elements, as a statement about each.
pub all-true_iff {ℓ} :
    {A : Type ℓ} (p : A → Bool) (xs : List A) → (all p xs ≡ true) ↔ All (λ x. p x ≡ true) xs
unfolding all
all-true_iff p [] = ground arith
all-true_iff p (x ∷ xs) = ground (arith, all-true_iff p xs)

pub any-false_iff {ℓ} :
    {A : Type ℓ} (p : A → Bool) (xs : List A) → (any p xs ≡ false) ↔ All (λ x. p x ≡ false) xs
unfolding any
any-false_iff p [] = ground arith
any-false_iff p (x ∷ xs) = ground (arith, any-false_iff p xs)

pub All-keep {ℓ} : {A : Type ℓ} (p : A → Bool) (xs : List A) → All (λ x. p x ≡ true) (keep p xs)
unfolding keep
All-keep p [] = tt
All-keep p (x ∷ xs) = ground (arith, All-keep p xs)

pub All-keep_of {ℓ κ} :
    {A : Type ℓ} (P : A → Type κ) (p : A → Bool) (xs : List A) → All P xs → All P (keep p xs)
unfolding keep
All-keep_of P p [] h = tt
All-keep_of P p (x ∷ xs) h = ground (arith, All-keep_of P p xs h.1)

pub keep-All {ℓ} :
    {A : Type ℓ} (p : A → Bool) (xs : List A) → All (λ x. p x ≡ true) xs → keep p xs ≡ xs
unfolding keep
keep-All p [] h = refl
keep-All p (x ∷ xs) h = ground (arith, keep-All p xs h.1)

module _ {ℓ} {A : Type ℓ} ⦃e : Eq A⦄ where
  -- `a in xs`
  unfoldable pub contains : List A → A → Bool
  contains [] a = false
  contains (x ∷ xs) a = x == a || contains xs a

  abbrev pub IsDistinct : List A → Type 0
  IsDistinct [] = Unit
  IsDistinct (x ∷ xs) = (contains xs x ≡ false) × IsDistinct xs

  pub contains-append :
      (xs ys : List A) (a : A) → contains (xs ++ ys) a ≡ (contains xs a || contains ys a)
  unfolding contains
  contains-append [] ys a = refl
  contains-append (x ∷ xs) ys a = ground (arith, contains-append xs ys a)

  pub mem_of_contains : (xs : List A) (a : A) → contains xs a ≡ true → Memᴰ a xs
  unfolding contains
  mem_of_contains [] a h = cc
  mem_of_contains (x ∷ xs) a h = elim (Bool-cases (x == a)) [
    | inl same ↦ head (ground (arith, eq_iff x a))
    | inr other ↦ tail (mem_of_contains xs a (ground arith))
  ]

  pub contains_of_mem : {a : A} (xs : List A) → Memᴰ a xs → contains xs a ≡ true
  unfolding contains
  contains_of_mem [] m = elim m [ ]
  contains_of_mem {a} (x ∷ xs) (head p) = ground (arith, eq_iff x a)
  contains_of_mem {a} (x ∷ xs) (tail m) = ground (arith, contains_of_mem xs m)

module _ {ℓ} {A : Type ℓ} ⦃e : Eq A⦄ where
  -- `set(xs)`, one occurrence of each element
  unfoldable pub to_set : List A → List A
  to_set [] = []
  to_set (x ∷ xs) = let rest = to_set xs in if contains rest x then rest else x ∷ rest

  -- `set(xs) <= set(ys)`
  abbrev pub is_subset : List A → List A → Bool
  is_subset xs ys = all (contains ys) xs

  -- An element of a subset is an element.
  pub contains_of_subset :
      (xs ys : List A) (a : A)
      → is_subset xs ys ≡ true
      → contains xs a ≡ true
      → contains ys a ≡ true
  unfolding all contains
  contains_of_subset [] ys a h m = cc
  contains_of_subset (x ∷ xs) ys a h m = ground (arith, eq_iff x a, contains_of_subset xs ys a)

  -- A test that each element passes is passed by all.
  pub all_of_contains :
      (p : A → Bool) (xs : List A) → ((a : A) → contains xs a ≡ true → p a ≡ true) → all p xs ≡ true
  unfolding all contains
  all_of_contains p [] h = refl
  all_of_contains p (x ∷ xs) h =
      let here : p x ≡ true = h x (ground (arith, eq_iff x x)) in
      rw (here, all_of_contains p xs (λ a m. h a (ground (arith, m)))) refl

  pub contains-to_set : (xs : List A) (a : A) → contains (to_set xs) a ≡ contains xs a
  unfolding contains to_set
  contains-to_set [] a = refl
  contains-to_set (x ∷ xs) a =
      ground (arith, contains-to_set xs a, contains-to_set xs x, eq_iff x a)

  pub length-to_set-le : (xs : List A) → length (to_set xs) ≤ length xs
  unfolding to_set
  length-to_set-le [] = omega arith
  length-to_set-le (x ∷ xs) = ground (arith, length-to_set-le xs)

  -- The set is as long as the list exactly when nothing repeats.
  pub length-to_set-eq_iff : (xs : List A) → (length xs ≡ length (to_set xs)) ↔ IsDistinct xs
  unfolding to_set
  length-to_set-eq_iff [] = ground arith
  length-to_set-eq_iff (x ∷ xs) =
      ground (arith, length-to_set-eq_iff xs, length-to_set-le xs, contains-to_set xs x)

-- An element that passes a test, as a fact about the whole list.
module _ {ℓ} {A : Type ℓ} (p : A → Bool) where
  pub any_of_mem : {a : A} (xs : List A) → Memᴰ a xs → p a ≡ true → any p xs ≡ true
  unfolding any
  any_of_mem [] m h = elim m [ ]
  any_of_mem (x ∷ xs) (head e) h = ground (arith, ap p e)
  any_of_mem (x ∷ xs) (tail m) h = ground (arith, any_of_mem xs m h)

  pub keep_of_mem : {a : A} (xs : List A) → Memᴰ a xs → p a ≡ true → Memᴰ a (keep p xs)
  unfolding keep
  keep_of_mem [] m h = elim m [ ]
  keep_of_mem {a} (x ∷ xs) (head e) h = let here : p x ≡ true = rw (← e) h in rw here (head e)
  keep_of_mem (x ∷ xs) (tail m) h = elim (Bool-cases (p x)) [
    | inl y ↦ rw y (tail (keep_of_mem xs m h))
    | inr n ↦ rw n (keep_of_mem xs m h)
  ]

pub IsDistinct-append_right {ℓ} :
    {A : Type ℓ} ⦃e : Eq A⦄ (xs ys : List A) → IsDistinct (xs ++ ys) → IsDistinct ys
IsDistinct-append_right [] ys h = h
IsDistinct-append_right (x ∷ xs) ys h = IsDistinct-append_right xs ys h.1
