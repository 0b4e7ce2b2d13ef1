-- ===== src/Router/Affinity/Order.antt =====
-- How the operations on the items move an entry in the order of use.
use yeetllm.Common.{
  ℕ, ◌+◌, ◌≤◌, ◌<◌, ◌≡◌, ◌≢◌, true, false, none, List, [], ◌∷◌, ◌++◌, arith, length, length-append,
  contains, text_eq, eq_iff, eq_refl, ◌==◌, if◌then◌else◌,
}
use yeetllm.Common.Dict.{lookup, insert, remove, is_some}
use yeetllm.Common.Text.{Text}
use yeetllm.Router.Affinity.{Entry, Items, pop_all, evict}

-- How many entries are newer than the key's.
unfoldable pub newer : Text → Items → ℕ
newer k [] = 0
newer k ((j, e) ∷ d) = if j == k then length d else newer k d

newer-le-length : (k : Text) (d : Items) → newer k d ≤ length d
unfolding newer
newer-le-length k [] = omega arith
newer-le-length k ((j, e) ∷ d) = ground (arith, newer-le-length k d)

length-remove-le : (k : Text) (d : Items) → length (remove k d) ≤ length d
unfolding remove
length-remove-le k [] = omega arith
length-remove-le k ((j, e) ∷ d) = ground (arith, length-remove-le k d)

pub newer-remove-le : (k j : Text) (d : Items) → j ≢ k → newer k (remove j d) ≤ newer k d
unfolding newer remove
newer-remove-le k j [] h = omega arith
newer-remove-le k j ((i, e) ∷ d) h =
    ground (arith, eq_iff i j, eq_iff i k, newer-remove-le k j d h, length-remove-le j d)

pub newer-pop_all-le :
    (k : Text) (ks : List Text) (d : Items)
    → contains ks k ≡ false
    → newer k (pop_all ks d) ≤ newer k d
unfolding pop_all contains
newer-pop_all-le k [] d h = omega arith
newer-pop_all-le k (j ∷ ks) d h =
    ground (arith, eq_iff j k, newer-pop_all-le k ks (remove j d), newer-remove-le k j d)

pub newer-concat :
    (k j : Text) (v : Entry) (d : Items)
    → is_some (lookup k d) ≡ true
    → newer k (d ++ (j, v) ∷ []) ≡ newer k d + 1
unfolding newer lookup
newer-concat k j v [] h = cc
newer-concat k j v ((i, e) ∷ d) h =
    ground (arith, newer-concat k j v d, length-append d ((j, v) ∷ []))

pub newer-concat_self :
    (k : Text) (v : Entry) (d : Items) → lookup k d ≡ none → newer k (d ++ (k, v) ∷ []) ≡ 0
unfolding newer lookup
newer-concat_self k v [] h = ground (arith, eq_refl k)
newer-concat_self k v ((i, e) ∷ d) h = ground (arith, newer-concat_self k v d)

pub remove-insert : (k : Text) (v : Entry) (d : Items) → remove k (insert k v d) ≡ remove k d
unfolding remove insert
remove-insert k v [] = ground (arith, eq_refl k)
remove-insert k v ((j, e) ∷ d) = ground (arith, remove-insert k v d)

pub lookup-evict :
    (n : ℕ) (k : Text) (d : Items)
    → newer k d < n
    → (lookup k (evict n d) ≡ lookup k d)
      × (is_some (lookup k d) ≡ true → newer k (evict n d) ≡ newer k d)
unfolding newer lookup evict
lookup-evict n k [] h = ground arith
lookup-evict n k ((j, e) ∷ d) h = ground (arith, lookup-evict n k d)
