-- ===== src/Common/Dict.antt =====
-- Python's `dict` and `OrderedDict`: an association list in the order of insertion.
pub mod Updates
use mathlib.Core.Path.{◌≡◌, refl}
use mathlib.Core.Bool.{Bool, true, false, ◌||◌}
use mathlib.Core.Option.{Option, none, some}
use mathlib.Core.List.{List, [], ◌∷◌, ◌++◌, Memᴰ}
use native.Mathlib.Omega.{arith}
use mathlib.Core.Logic.{inl, inr}
use yeetllm.Common.Tests.{if◌then◌else◌, Bool-cases}
use yeetllm.Common.Keys.{Eq, ◌==◌, eq_iff, eq_refl}
use yeetllm.Common.Lists.{contains, all, IsDistinct}

abbrev pub Dict {ℓ κ} : Type ℓ → Type κ → Type (ℓ ⊔ κ)
Dict K V = List (K × V)

module _ {ℓ κ} {K : Type ℓ} {V : Type κ} where
  abbrev pub keys : Dict K V → List K
  keys [] = []
  keys ((k, v) ∷ d) = k ∷ keys d

  abbrev pub values : Dict K V → List V
  values [] = []
  values ((k, v) ∷ d) = v ∷ values d

  pub keys-append : (d d' : Dict K V) → keys (d ++ d') ≡ keys d ++ keys d'
  keys-append [] d' = refl
  keys-append ((k, v) ∷ d) d' = cc (keys-append d d')

abbrev pub is_some {ℓ} : {A : Type ℓ} → Option A → Bool
is_some none = false
is_some (some a) = true

module _ {ℓ κ} {K : Type ℓ} {V : Type κ} ⦃e : Eq K⦄ where
  -- `d.get(k)`
  unfoldable pub lookup : K → Dict K V → Option V
  lookup k [] = none
  lookup k ((j, v) ∷ d) = if j == k then some v else lookup k d

  -- `d[k] = v`: in place, or at the end
  unfoldable pub insert : K → V → Dict K V → Dict K V
  insert k v [] = (k, v) ∷ []
  insert k v ((j, w) ∷ d) = let rest = insert k v d in if j == k then (j, v) ∷ d else (j, w) ∷ rest

  -- `d.pop(k, None)`
  unfoldable pub remove : K → Dict K V → Dict K V
  remove k [] = []
  remove k ((j, w) ∷ d) = let rest = remove k d in if j == k then rest else (j, w) ∷ rest

  -- `d[k] = f(d[k])` for a key that is there
  unfoldable pub adjust : K → (V → V) → Dict K V → Dict K V
  adjust k f [] = []
  adjust k f ((j, v) ∷ d) =
      let rest = adjust k f d in if j == k then (j, f v) ∷ d else (j, v) ∷ rest

  pub lookup-insert :
      (k j : K) (v : V) (d : Dict K V)
      → lookup j (insert k v d) ≡ (if k == j then some v else lookup j d)
  unfolding lookup insert
  lookup-insert k j v [] = refl
  lookup-insert k j v ((i, w) ∷ d) =
      ground (arith, eq_iff k j, eq_iff i k, eq_iff i j, lookup-insert k j v d)

  pub lookup-remove :
      (k j : K) (d : Dict K V) → lookup j (remove k d) ≡ (if k == j then none else lookup j d)
  unfolding lookup remove
  lookup-remove k j [] = ground arith
  lookup-remove k j ((i, w) ∷ d) =
      ground (arith, eq_iff k j, eq_iff i k, eq_iff i j, lookup-remove k j d)

  pub lookup-append :
      (k : K) (d d' : Dict K V)
      → lookup k (d ++ d') ≡ (if is_some (lookup k d) then lookup k d else lookup k d')
  unfolding lookup
  lookup-append k [] d' = refl
  lookup-append k ((j, v) ∷ d) d' = ground (arith, lookup-append k d d')

  pub contains-keys : (k : K) (d : Dict K V) → contains (keys d) k ≡ is_some (lookup k d)
  unfolding lookup contains
  contains-keys k [] = refl
  contains-keys k ((j, v) ∷ d) = ground (arith, contains-keys k d)

  pub contains-remove :
      (k j : K) (d : Dict K V)
      → contains (keys (remove k d)) j ≡ (if k == j then false else contains (keys d) j)
  unfolding contains remove
  contains-remove k j [] = ground arith
  contains-remove k j ((i, w) ∷ d) =
      ground (arith, eq_iff k j, eq_iff i k, eq_iff i j, contains-remove k j d)

  pub contains-insert :
      (k j : K) (v : V) (d : Dict K V)
      → contains (keys (insert k v d)) j ≡ (k == j || contains (keys d) j)
  unfolding contains insert
  contains-insert k j v [] = ground arith
  contains-insert k j v ((i, w) ∷ d) =
      ground (arith, eq_iff k j, eq_iff i k, eq_iff i j, contains-insert k j v d)

  pub IsDistinct-remove :
      (k : K) (d : Dict K V) → IsDistinct (keys d) → IsDistinct (keys (remove k d))
  unfolding remove
  IsDistinct-remove k [] h = tt
  IsDistinct-remove k ((j, w) ∷ d) h =
      ground (arith, contains-remove k j d, IsDistinct-remove k d h.1)

  pub IsDistinct-insert :
      (k : K) (v : V) (d : Dict K V) → IsDistinct (keys d) → IsDistinct (keys (insert k v d))
  unfolding insert contains
  IsDistinct-insert k v [] h = ground arith
  IsDistinct-insert k v ((j, w) ∷ d) h =
      ground (arith, eq_iff j k, eq_iff k j, contains-insert k j v d, IsDistinct-insert k v d h.1)

  -- A key that is new goes to the end.
  pub insert_new :
      (k : K) (v : V) (d : Dict K V) → contains (keys d) k ≡ false → insert k v d ≡ d ++ (k, v) ∷ []
  unfolding insert contains
  insert_new k v [] h = refl
  insert_new k v ((j, w) ∷ d) h = ground (arith, insert_new k v d)

  -- An item is found under its key, if no key stands twice.
  pub lookup_of_mem :
      (k : K) (v : V) (d : Dict K V) → IsDistinct (keys d) → Memᴰ (k, v) d → lookup k d ≡ some v
  unfolding lookup
  lookup_of_mem k v [] h m = elim m [ ]
  lookup_of_mem k v ((j, w) ∷ d) h (Memᴰ.head p) = ground (arith, eq_iff j k)
  lookup_of_mem k v ((j, w) ∷ d) h (Memᴰ.tail m) =
      ground (arith, eq_iff j k, lookup_of_mem k v d h.1 m, contains-keys j d)

-- The value under a key, passed through a function.
abbrev pub map_some {ℓ κ} : {A : Type ℓ} {B : Type κ} → (A → B) → Option A → Option B
map_some f none = none
map_some f (some a) = some (f a)

module _ {ℓ κ} {K : Type ℓ} {V : Type κ} ⦃e : Eq K⦄ where
  pub keys-adjust : (k : K) (f : V → V) (d : Dict K V) → keys (adjust k f d) ≡ keys d
  unfolding adjust
  keys-adjust k f [] = refl
  keys-adjust k f ((j, v) ∷ d) = ground (arith, keys-adjust k f d)

  pub lookup-adjust :
      (k j : K) (f : V → V) (d : Dict K V)
      → lookup j (adjust k f d) ≡ (if k == j then map_some f (lookup j d) else lookup j d)
  unfolding lookup adjust
  lookup-adjust k j f [] = ground arith
  lookup-adjust k j f ((i, w) ∷ d) =
      ground (arith, eq_iff k j, eq_iff i k, eq_iff i j, lookup-adjust k j f d)

  -- A test that holds of all values holds of what is found under a key.
  pub all-lookup :
      (p : V → Bool) (k : K) (v : V) (d : Dict K V)
      → all p (values d) ≡ true
      → lookup k d ≡ some v
      → p v ≡ true
  unfolding lookup all
  all-lookup p k v [] h e = cc e
  all-lookup p k v ((j, w) ∷ d) h e = elim (Bool-cases (j == k)) [
    | inl same ↦
        let here : some w ≡ some v = rw same at e in
        let value : w ≡ v = cc here in rw (← value) (ground arith)
    | inr other ↦ all-lookup p k v d (ground arith) (rw other at e)
  ]

  -- A test that holds of what is found under each key holds of all values.
  pub all_of_lookup :
      (p : V → Bool) (d : Dict K V)
      → IsDistinct (keys d)
      → ((k : K) (v : V) → lookup k d ≡ some v → p v ≡ true)
      → all p (values d) ≡ true
  unfolding lookup all contains
  all_of_lookup p [] h f = refl
  all_of_lookup p ((j, w) ∷ d) h f =
      let here : p w ≡ true = f j w (rw (eq_refl j) refl) in
      let rest : all p (values d) ≡ true =
        all_of_lookup p d h.1 (λ k v e. f k v (ground (arith, eq_iff j k, contains-keys j d))) in
      rw (here, rest) refl
