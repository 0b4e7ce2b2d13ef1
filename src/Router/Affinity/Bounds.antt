-- ===== src/Router/Affinity/Bounds.antt =====
-- What every call keeps: no response stands twice, and the map never holds more than its maximum.
use yeetllm.Common.{
  ℕ, ◌+◌, ◌≤◌, ◌<◌, ◌≡◌, refl, false, Option, none, some, List, [], ◌∷◌, ◌++◌, arith, leb, keep,
  length, length-append, contains, contains-append, IsDistinct, text_eq, eq_iff, eq_refl,
  Option-cases, inl, inr, if◌then◌else◌, not,
}
use yeetllm.Common.Dict.{
  keys, lookup, insert, remove, is_some, lookup-remove, contains-keys, contains-remove,
  IsDistinct-remove, IsDistinct-insert, keys-append,
}
use yeetllm.Common.Text.{Text}
use yeetllm.Router.Affinity.{
  Entry, Items, AffinityMap, move_to_end, is_expired, pop_all, expire, evict, put, get,
}

-- the entry of a key, unless it has expired
abbrev pub live : ℕ → Option Entry → Option Entry
live now none = none
live now (some entry) = if leb entry.1 now then none else some entry

lookup-pop_all :
    (ks : List Text) (k : Text) (d : Items)
    → lookup k (pop_all ks d) ≡ (if contains ks k then none else lookup k d)
unfolding pop_all contains
lookup-pop_all [] k d = refl
lookup-pop_all (j ∷ ks) k d = ground (arith, lookup-pop_all ks k (remove j d), lookup-remove j k d)

pub contains-expired :
    (now : ℕ) (k : Text) (d : Items)
    → IsDistinct (keys d)
    → contains (keys (keep (is_expired now) d)) k
      ≡ (if is_some (lookup k d) then not (is_some (live now (lookup k d))) else false)
unfolding contains keep lookup
contains-expired now k [] h = refl
contains-expired now k ((j, e) ∷ d) h =
    ground (arith, eq_iff j k, contains-keys j d, contains-expired now k d h.1)

-- Expiry hides exactly the entries whose time has come.
pub lookup-expire :
    (now : ℕ) (k : Text) (d : Items)
    → IsDistinct (keys d)
    → lookup k (expire now d) ≡ live now (lookup k d)
unfolding expire
lookup-expire now k d h =
    ground (arith, lookup-pop_all (keys (keep (is_expired now) d)) k d, contains-expired now k d h)

pop_all-IsDistinct :
    (ks : List Text) (d : Items) → IsDistinct (keys d) → IsDistinct (keys (pop_all ks d))
unfolding pop_all
pop_all-IsDistinct [] d h = h
pop_all-IsDistinct (k ∷ ks) d h = pop_all-IsDistinct ks (remove k d) (IsDistinct-remove k d h)

pub expire-IsDistinct :
    (now : ℕ) (d : Items) → IsDistinct (keys d) → IsDistinct (keys (expire now d))
unfolding expire
expire-IsDistinct now d h = pop_all-IsDistinct (keys (keep (is_expired now) d)) d h

IsDistinct-concat :
    (xs : List Text) (x : Text) → contains xs x ≡ false → IsDistinct xs → IsDistinct (xs ++ x ∷ [])
unfolding contains
IsDistinct-concat [] x h d = (refl, tt)
IsDistinct-concat (y ∷ xs) x h d =
    ground (arith, eq_iff x y, eq_iff y x, contains-append xs (x ∷ []) y, IsDistinct-concat xs x)

pub move_to_end_found :
    (k : Text) (d : Items) (v : Entry)
    → lookup k d ≡ some v
    → move_to_end k d ≡ remove k d ++ (k, v) ∷ []
unfolding move_to_end
move_to_end_found k d v e = rw (e, move_to_end) refl

move_to_end_missing : (k : Text) (d : Items) → lookup k d ≡ none → move_to_end k d ≡ d
unfolding move_to_end
move_to_end_missing k d e = rw (e, move_to_end) refl

pub move_to_end-IsDistinct :
    (k : Text) (d : Items) → IsDistinct (keys d) → IsDistinct (keys (move_to_end k d))
move_to_end-IsDistinct k d h = elim (Option-cases (lookup k d)) [
  | inl e ↦ rw (move_to_end_missing k d e) h
  | inr (v, e) ↦
      rw (move_to_end_found k d v e, keys-append (remove k d) ((k, v) ∷ []))
        (IsDistinct-concat (keys (remove k d)) k (ground (arith, contains-remove k k d, eq_refl k))
          (IsDistinct-remove k d h))
]

contains-evict :
    (n : ℕ) (k : Text) (d : Items)
    → contains (keys d) k ≡ false
    → contains (keys (evict n d)) k ≡ false
unfolding contains evict
contains-evict n k [] h = refl
contains-evict n k ((j, e) ∷ d) h = ground (arith, contains-evict n k d)

pub evict-IsDistinct : (n : ℕ) (d : Items) → IsDistinct (keys d) → IsDistinct (keys (evict n d))
unfolding evict
evict-IsDistinct n [] h = tt
evict-IsDistinct n ((j, e) ∷ d) h = ground (arith, evict-IsDistinct n d h.1)

length-evict-le : (n : ℕ) (d : Items) → length (evict n d) ≤ n
unfolding evict
length-evict-le n [] = omega arith
length-evict-le n (x ∷ d) = ground (arith, length-evict-le n d)

length-remove-le : (k : Text) (d : Items) → length (remove k d) ≤ length d
unfolding remove
length-remove-le k [] = omega arith
length-remove-le k ((j, e) ∷ d) = ground (arith, length-remove-le k d)

length-remove-lt :
    (k : Text) (d : Items) (v : Entry) → lookup k d ≡ some v → length (remove k d) < length d
unfolding remove lookup
length-remove-lt k [] v h = cc
length-remove-lt k ((j, e) ∷ d) v h = ground (arith, length-remove-le k d, length-remove-lt k d v)

length-move_to_end-le : (k : Text) (d : Items) → length (move_to_end k d) ≤ length d
length-move_to_end-le k d = elim (Option-cases (lookup k d)) [
  | inl e ↦ rw (move_to_end_missing k d e) (omega arith)
  | inr (v, e) ↦
      rw (move_to_end_found k d v e, length-append (remove k d) ((k, v) ∷ []))
        (omega (arith, length-remove-lt k d v e))
]

length-pop_all-le : (ks : List Text) (d : Items) → length (pop_all ks d) ≤ length d
unfolding pop_all
length-pop_all-le [] d = omega arith
length-pop_all-le (k ∷ ks) d =
    omega (arith, length-remove-le k d, length-pop_all-le ks (remove k d))

length-expire-le : (now : ℕ) (d : Items) → length (expire now d) ≤ length d
unfolding expire
length-expire-le now d = length-pop_all-le (keys (keep (is_expired now) d)) d

pub record IsValid (m : AffinityMap) : Type 0 where
  pub distinct : IsDistinct (keys m.items)
  pub bounded : length m.items ≤ m.maximum

-- Storing keeps the map valid, whatever is stored and when.
pub put-IsValid :
    (now later : ℕ) (id engine : Text) (m : AffinityMap)
    → IsValid m
    → IsValid (put now later id engine m)
unfolding put
put-IsValid now later id engine m v =
    let stored = insert id (engine, later + m.ttl) (expire now m.items) in
    record {
      distinct = evict-IsDistinct m.maximum (move_to_end id stored) (
          move_to_end-IsDistinct id stored (
            IsDistinct-insert id (engine, later + m.ttl) (expire now m.items)
              (expire-IsDistinct now m.items v.distinct)));
      bounded = length-evict-le m.maximum (move_to_end id stored);
    }

module _ (now : ℕ) (id : Text) (m : AffinityMap) where
  pub get_missing :
      lookup id (expire now m.items) ≡ none
      → get now id m ≡ (record m { items = expire now m.items }, none)
  unfolding get
  get_missing e = rw (e, get) refl

  pub get_found :
      (entry : Entry)
      → lookup id (expire now m.items) ≡ some entry
      → get now id m ≡ (record m { items = move_to_end id (expire now m.items) }, some entry.0)
  unfolding get
  get_found entry e = rw (e, get) refl

-- Reading keeps the map valid, whether the response is found or not.
pub get-IsValid : (now : ℕ) (id : Text) (m : AffinityMap) → IsValid m → IsValid (get now id m).0
get-IsValid now id m v =
    let d = expire now m.items in
    let distinct = expire-IsDistinct now m.items v.distinct in
    let short : length d ≤ m.maximum = omega (arith, length-expire-le now m.items, v.bounded) in
    elim (Option-cases (lookup id d)) [
      | inl e ↦ rw (get_missing now id m e) (record { distinct = distinct; bounded = short })
      | inr (entry, e) ↦ rw (get_found now id m entry e) (record {
        distinct = move_to_end-IsDistinct id d distinct;
        bounded = omega (arith, length-move_to_end-le id d);
      })
    ]
