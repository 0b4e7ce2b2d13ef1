-- ===== src/Config/LocalRank/Named.antt =====
-- The ranks that the files of a local adapter name, against `local_adapter_rank`.
use mathlib.Core.List.{Memᴰ}
use mathlib.Core.List.Memᴰ.{head, tail}
use yeetllm.Common.{
  ℕ, ◌≤◌, ◌≡◌, refl, ap, ◌∙◌, ◌⊎◌, inl, inr, arith, true, false, some, List, [], ◌∷◌, ◌++◌, leb,
  All, All-append_left, All-append_right, Bool-cases, ok,
}
use yeetllm.Common.Int.{ℤ, pos, negsuc}
use yeetllm.Common.Json.{Json, Fields, bool, int, obj, field, end, get, members}
use yeetllm.Common.Text.{Text, codes}
use yeetllm.Config.LocalRank.{
  AdapterFiles, int_value, int_values, pattern_ranks, larger, largest, local_adapter_rank,
}

-- A value that is an integer; a Boolean is one in Python.
pub data IsInteger : Json → ℤ → Type 0 where
  number : (i : ℤ) → IsInteger (int i) i
  yes : IsInteger (bool true) (pos 1)
  no : IsInteger (bool false) (pos 0)

-- The adapter's configuration names a rank: as `r`, or for a module in `rank_pattern`.
abbrev pub IsNamed : AdapterFiles → Text → ℤ → Type 0
IsNamed files path rank =
    (files.is_dir path ≡ true)
    × ((fs : Fields) × (files.config path ≡ some (some (obj fs)))
        × ((value : Json) × IsInteger value rank
            × ((get (codes "r") fs ≡ some value)
                ⊎ ((pattern : Fields) × (key : Text) × (get (codes "rank_pattern") fs
                      ≡ some (obj pattern))
                    × Memᴰ (key, value) (members pattern)))))

-- A rank that is at most the maximum.
abbrev pub Fits : ℕ → ℤ → Type 0
Fits maximum (pos rank) = rank ≤ maximum
Fits maximum (negsuc n) = Unit

module _ (maximum : ℕ) where
  larger-Fits : (i j : ℤ) → Fits maximum (larger i j) → Fits maximum i × Fits maximum j
  larger-Fits (pos a) (pos b) h = elim (Bool-cases (leb a b)) [
    | inl below ↦ let top : b ≤ maximum = rw below at h in (ground arith, ground arith)
    | inr above ↦ let top : a ≤ maximum = rw above at h in (ground arith, ground arith)
  ]
  larger-Fits (pos a) (negsuc b) h = (h, tt)
  larger-Fits (negsuc a) (pos b) h = (tt, h)
  larger-Fits (negsuc a) (negsuc b) h = (tt, tt)

  -- If the largest of some ranks fits, all of them do.
  largest-Fits :
      (ranks : List ℤ) (top : ℤ)
      → largest ranks ≡ some top
      → Fits maximum top
      → All (Fits maximum) ranks
  unfolding largest
  largest-Fits [] top h fits = tt
  largest-Fits (i ∷ []) top h fits = let same : i ≡ top = cc h in (rw same fits, tt)
  largest-Fits (i ∷ j ∷ ranks) top h fits =
      let (both, rest) = largest-Fits (larger i j ∷ ranks) top h fits in
      let (left, right) = larger-Fits i j both in (left, (right, rest))

-- Some ranks have a largest one.
largest-some : (ranks : List ℤ) (i : ℤ) → (top : ℤ) × (largest (i ∷ ranks) ≡ some top)
unfolding largest
largest-some [] i = (i, refl)
largest-some (j ∷ ranks) i = largest-some ranks (larger i j)

module _ (P : ℤ → Type 0) where
  int_value-All :
      (value : Json) (rank : ℤ) → IsInteger value rank → All P (int_value (some value)) → P rank
  int_value-All _ _ (IsInteger.number i) h = h.0
  int_value-All _ _ IsInteger.yes h = h.0
  int_value-All _ _ IsInteger.no h = h.0

  int_values-All :
      (pattern : Fields) (key : Text) (value : Json) (rank : ℤ)
      → Memᴰ (key, value) (members pattern)
      → IsInteger value rank
      → All P (int_values pattern)
      → P rank
  unfolding int_values
  int_values-All end key value rank m i h = elim m [ ]
  int_values-All (field k v pattern) key value rank (head e) i h =
      let same : value ≡ v = ap (λ member. member.1) e in
      int_value-All value rank i
        (rw same (All-append_left P (int_value (some v)) (int_values pattern) h))
  int_values-All (field k v pattern) key value rank (tail m) i h =
      int_values-All pattern key value rank m i
        (All-append_right P (int_value (some v)) (int_values pattern) h)

abbrev ranks_of : Fields → List ℤ
ranks_of fs = int_value (get (codes "r") fs) ++ pattern_ranks (get (codes "rank_pattern") fs)

-- What holds of all the ranks that are collected holds of each that is named.
ranks_of-All :
    (P : ℤ → Type 0) (files : AdapterFiles) (path : Text) (rank : ℤ)
    → IsNamed files path rank
    → (fs : Fields) × (local_adapter_rank files path ≡ ok (largest (ranks_of fs)))
      × (All P (ranks_of fs) → P rank)
unfolding local_adapter_rank
ranks_of-All P files path rank (dir, (fs, there, (value, i, named))) =
    let own = int_value (get (codes "r") fs) in
    let others = pattern_ranks (get (codes "rank_pattern") fs) in
    (
      fs,
      rw (dir, there) refl,
      λ h. elim named [
        | inl given ↦
            let here : All P own = All-append_left P own others h in
            int_value-All P value rank i (rw given at here)
        | inr (pattern, key, given, m) ↦
            let there' : All P others = All-append_right P own others h in
            int_values-All P pattern key value rank m i (rw given at there')
      ],
    )

largest_of_All :
    (P : ℤ → Type 0) (ranks : List ℤ) (rank : ℤ)
    → (All P ranks → P rank)
    → ((top : ℤ) → largest ranks ≡ some top → All P ranks)
    → P rank
unfolding largest
largest_of_All P [] rank each bounded = each tt
largest_of_All P (i ∷ ranks) rank each bounded =
    let (top, found) = largest-some ranks i in each (bounded top found)

-- If the rank that `local_adapter_rank` finds fits, every rank that the files name does.
pub local_adapter_rank-Fits :
    (files : AdapterFiles) (path : Text) (maximum : ℕ) (rank : ℤ)
    → ((top : ℤ) → local_adapter_rank files path ≡ ok (some top) → Fits maximum top)
    → IsNamed files path rank
    → Fits maximum rank
local_adapter_rank-Fits files path maximum rank fits named =
    let (fs, found, each) = ranks_of-All (Fits maximum) files path rank named in
    largest_of_All (Fits maximum) (ranks_of fs) rank each (λ top most.
      largest-Fits maximum (ranks_of fs) top most (fits top (found ∙ ap (λ o. ok o) most)))
