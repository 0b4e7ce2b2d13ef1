-- ===== src/Common/Dict/Updates.antt =====
-- `d.update(…)`, and what is found in the dictionary behind it.
use yeetllm.Common.Tests.{if◌then◌else◌, Bool-cases}
use mathlib.Core.Path.{◌≡◌, refl, sym, ap, ◌∙◌}
use mathlib.Core.Logic.{inl, inr}
use mathlib.Core.Bool.{Bool, true, false}
use mathlib.Core.Option.{Option, none, some}
use mathlib.Core.List.{List, [], ◌∷◌}
use native.Mathlib.Omega.{arith}
use yeetllm.Common.Keys.{Eq, ◌==◌, eq_iff}
use yeetllm.Common.Lists.{contains, keep, IsDistinct}
use yeetllm.Common.Dict.{
  Dict, keys, is_some, lookup, insert, lookup-insert, contains-keys, IsDistinct-insert,
}

abbrev pub else_value {ℓ} : {V : Type ℓ} → Option V → Option V → Option V
else_value none other = other
else_value (some value) other = some value

else_assoc {ℓ} :
    {V : Type ℓ} (first : Option V) (same : Bool) (v : V) (other : Option V)
    → else_value first (if same then some v else other)
      ≡ else_value (else_value first (if same then some v else none)) other
else_assoc none true v other = refl
else_assoc none false v other = refl
else_assoc (some w) same v other = refl

else_none {ℓ} : {V : Type ℓ} (o : Option V) → else_value o none ≡ o
else_none none = refl
else_none (some v) = refl

module _ {ℓ κ} {K : Type ℓ} {V : Type κ} ⦃e : Eq K⦄ where
  -- `d.update(…)`, and `dict(…)` where `d` is empty: a later value of a key replaces the earlier one
  unfoldable pub update : Dict K V → List (K × V) → Dict K V
  unfolding insert
  update d [] = d
  update d ((k, v) ∷ rest) = update (insert k v d) rest

  pub IsDistinct-update :
      (rest : List (K × V)) (d : Dict K V) → IsDistinct (keys d) → IsDistinct (keys (update d rest))
  unfolding update
  IsDistinct-update [] d h = h
  IsDistinct-update ((k, v) ∷ rest) d h =
      IsDistinct-update rest (insert k v d) (IsDistinct-insert k v d h)

  -- the last value that a list has for a key
  unfoldable pub last_value : K → List (K × V) → Option V
  last_value k [] = none
  last_value k ((n, v) ∷ rest) = else_value (last_value k rest) (if n == k then some v else none)

  -- What is looked up is the last value, if there is one.
  pub lookup-update :
      (k : K) (items : List (K × V)) (d : Dict K V)
      → lookup k (update d items) ≡ else_value (last_value k items) (lookup k d)
  unfolding update last_value
  lookup-update k [] d = refl
  lookup-update k ((n, v) ∷ rest) d =
      lookup-update k rest (insert n v d)
      ∙ ap (else_value (last_value k rest)) (lookup-insert n k v d)
      ∙ else_assoc (last_value k rest) (n == k) v (lookup k d)

  pub contains-last_value :
      (k : K) (items : List (K × V)) → contains (keys items) k ≡ is_some (last_value k items)
  unfolding contains last_value
  contains-last_value k [] = refl
  contains-last_value k ((n, v) ∷ rest) = ground (arith, contains-last_value k rest)

  -- A filter on the keys keeps all the values of a key, or none.
  pub last_value-keep :
      (k : K) (p : K → Bool) (items : List (K × V))
      → last_value k (keep (λ item. p item.0) items) ≡ (if p k then last_value k items else none)
  unfolding keep last_value
  last_value-keep k p [] = ground arith
  last_value-keep k p ((n, v) ∷ rest) = elim (Bool-cases (n == k)) [
    | inl same ↦ let here : n ≡ k = (eq_iff n k).0 same in ground (arith, last_value-keep k p rest)
    | inr other ↦ ground (arith, last_value-keep k p rest)
  ]

  -- Where no key stands twice, the last value is what is looked up.
  last_value_of_IsDistinct :
      (k : K) (d : Dict K V) → IsDistinct (keys d) → last_value k d ≡ lookup k d
  unfolding last_value lookup
  last_value_of_IsDistinct k [] h = refl
  last_value_of_IsDistinct k ((n, v) ∷ rest) h =
      ground (arith, eq_iff n k, last_value_of_IsDistinct k rest h.1, contains-keys k rest)

  -- A dictionary that is made of items first, and then put over another, is found as the items are.
  pub lookup-update-update :
      (k : K) (items : List (K × V)) (d : Dict K V)
      → lookup k (update d (update [] items)) ≡ lookup k (update d items)
  unfolding lookup
  lookup-update-update k items d =
      let last : last_value k (update [] items) ≡ last_value k items =
        last_value_of_IsDistinct k (update [] items) (IsDistinct-update items [] tt)
        ∙ lookup-update k items []
        ∙ else_none (last_value k items) in
      lookup-update k (update [] items) d
      ∙ ap (λ o. else_value o (lookup k d)) last
      ∙ sym (lookup-update k items d)
