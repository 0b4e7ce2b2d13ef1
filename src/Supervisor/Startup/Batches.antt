-- ===== src/Supervisor/Startup/Batches.antt =====
-- The batches of `chunked`.
use yeetllm.Common.{ℕ, zero, suc, ◌≤◌, ◌≡◌, refl, ap, ◌∙◌, arith, List, [], ◌∷◌, ◌++◌, length, All}
use yeetllm.Common.Text.Slices.{concat, take, drop, take-append-drop, length-drop, length-take-le}
use yeetllm.Supervisor.Startup.{chunked}

-- A batch is not empty and no longer than the size.
abbrev pub IsBatch {ℓ} : {A : Type ℓ} → ℕ → List A → Type 0
IsBatch size batch = (1 ≤ length batch) × (length batch ≤ size)

length-take-pos {ℓ} :
    {A : Type ℓ} (size : ℕ) (x : A) (xs : List A) → 1 ≤ size → 1 ≤ length (take size (x ∷ xs))
unfolding take
length-take-pos zero x xs h = omega arith
length-take-pos (suc n) x xs h = omega arith

concat-chunked {ℓ} :
    {A : Type ℓ} (fuel : ℕ) (xs : List A) (size : ℕ)
    → 1 ≤ size
    → length xs ≤ fuel
    → concat (chunked fuel xs size) ≡ xs
unfolding chunked
concat-chunked zero [] size h k = refl
concat-chunked zero (x ∷ xs) size h k = absurd (omega arith)
concat-chunked (suc fuel) [] size h k = refl
concat-chunked (suc fuel) (x ∷ xs) size h k =
    ap (λ rest. take size (x ∷ xs) ++ rest)
      (concat-chunked fuel (drop size (x ∷ xs)) size h (omega (arith, length-drop size (x ∷ xs))))
    ∙ take-append-drop size (x ∷ xs)

chunked-IsBatch {ℓ} :
    {A : Type ℓ} (fuel : ℕ) (xs : List A) (size : ℕ)
    → 1 ≤ size
    → All (IsBatch size) (chunked fuel xs size)
unfolding chunked
chunked-IsBatch zero xs size h = tt
chunked-IsBatch (suc fuel) [] size h = tt
chunked-IsBatch (suc fuel) (x ∷ xs) size h = (
  (length-take-pos size x xs h, length-take-le size (x ∷ xs)),
  chunked-IsBatch fuel (drop size (x ∷ xs)) size h,
)

-- For a size of one or more, the batches of `chunked` are the values in their order, and each batch
-- holds at least one value and at most as many as the size.
pub chunked-batches {ℓ} :
    {A : Type ℓ} (xs : List A) (size : ℕ)
    → 1 ≤ size
    → (concat (chunked (length xs) xs size) ≡ xs) × All (IsBatch size) (chunked (length xs) xs size)
chunked-batches xs size h =
    (concat-chunked (length xs) xs size h (omega arith), chunked-IsBatch (length xs) xs size h)
