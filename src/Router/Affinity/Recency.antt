-- ===== src/Router/Affinity/Recency.antt =====
-- Which responses the map still knows: those used recently, until their time comes.
use yeetllm.Common.{
  ℕ, ◌+◌, ◌≤◌, ◌<◌, ◌≡◌, ◌≢◌, ◌∙◌, none, some, [], ◌∷◌, ◌++◌, arith, keep, IsDistinct, text_eq,
  eq_iff, eq_refl, ◌==◌, Option-cases, Bool-cases, inl, inr,
}
use yeetllm.Common.Dict.{
  keys, lookup, insert, remove, lookup-insert, lookup-remove, lookup-append, IsDistinct-insert,
}
use yeetllm.Common.Text.{Text}
use yeetllm.Router.Affinity.{
  Entry, Items, AffinityMap, is_expired, move_to_end, expire, evict, put, get,
}
use yeetllm.Router.Affinity.Order.{
  newer, newer-pop_all-le, newer-remove-le, newer-concat, newer-concat_self, remove-insert,
  lookup-evict,
}
use yeetllm.Router.Affinity.Bounds.{
  contains-expired, lookup-expire, expire-IsDistinct, move_to_end_found, move_to_end-IsDistinct,
  evict-IsDistinct, IsValid, get_found, get_missing,
}

-- `k` is known with its entry, and at most `n` entries were used after it.
pub record IsRecent (k : Text) (e : Entry) (n : ℕ) (d : Items) : Type 0 where
  pub distinct : IsDistinct (keys d)
  pub found : lookup k d ≡ some e
  pub near : newer k d ≤ n

expire-IsRecent :
    (now : ℕ) {k : Text} {e : Entry} {n : ℕ} {d : Items}
    → now < e.1
    → IsRecent k e n d
    → IsRecent k e n (expire now d)
unfolding expire
expire-IsRecent now {k} {e} {n} {d} early r = record {
  distinct = expire-IsDistinct now d r.distinct;
  found = ground (arith, lookup-expire now k d r.distinct, r.found);
  near = ground (
    arith,
    contains-expired now k d r.distinct,
    r.found,
    r.near,
    newer-pop_all-le k (keys (keep (is_expired now) d)) d,
  );
}

-- Another key, found or new, goes to the end.
append-IsRecent :
    (j : Text) (v : Entry) {k : Text} {e : Entry} {n : ℕ} {d : Items}
    → j ≢ k
    → IsRecent k e n d
    → (lookup k (remove j d ++ (j, v) ∷ []) ≡ some e)
      × (newer k (remove j d ++ (j, v) ∷ []) ≤ n + 1)
append-IsRecent j v {k} {e} {n} {d} other r =
    let kept : lookup k (remove j d) ≡ some e =
      ground (arith, lookup-remove j k d, eq_iff j k, r.found) in
    (
      ground (arith, lookup-append k (remove j d) ((j, v) ∷ []), kept),
      ground (arith, newer-concat k j v (remove j d), kept, newer-remove-le k j d other, r.near),
    )

lookup-one : (k : Text) (e : Entry) → lookup k ((k, e) ∷ []) ≡ some e
unfolding lookup
lookup-one k e = ground (arith, eq_refl k)

-- The key that was used last is the newest.
moved-IsRecent :
    (k : Text) (e : Entry) (n : ℕ) (d : Items)
    → IsDistinct (keys d)
    → lookup k d ≡ some e
    → IsRecent k e n (move_to_end k d)
moved-IsRecent k e n d distinct found =
    let gone : lookup k (remove k d) ≡ none = ground (arith, lookup-remove k k d, eq_refl k) in
    record {
      distinct = move_to_end-IsDistinct k d distinct;
      found =
          rw (move_to_end_found k d e found)
            (ground (arith, lookup-append k (remove k d) ((k, e) ∷ []), gone, lookup-one k e));
      near =
          rw (move_to_end_found k d e found)
            (omega (arith, newer-concat_self k e (remove k d) gone));
    }

move_to_end-IsRecent :
    (j : Text) (v : Entry) {k : Text} {e : Entry} {n : ℕ} {d : Items}
    → lookup j d ≡ some v
    → IsRecent k e n d
    → IsRecent k e (n + 1) (move_to_end j d)
move_to_end-IsRecent j v {k} {e} {n} {d} found r = elim (Bool-cases (j == k)) [
  | inl same ↦ rw ((eq_iff j k).0 same) (moved-IsRecent k e (n + 1) d r.distinct r.found)
  | inr other ↦
      let (kept, near) = append-IsRecent j v (λ p. ground (arith, eq_iff j k)) r in
      record {
        distinct = move_to_end-IsDistinct j d r.distinct;
        found = rw (move_to_end_found j d v found) kept;
        near = rw (move_to_end_found j d v found) near;
      }
]

evict-IsRecent :
    (most : ℕ) {k : Text} {e : Entry} {n : ℕ} {d : Items}
    → n < most
    → IsRecent k e n d
    → IsRecent k e n (evict most d)
evict-IsRecent most {k} {e} {n} {d} room r =
    let (same, order) = lookup-evict most k d (omega (arith, r.near)) in
    record {
      distinct = evict-IsDistinct most d r.distinct;
      found = same ∙ r.found;
      near = ground (arith, order, r.found, r.near);
    }

-- Storing another response.
pub put-IsRecent :
    (now later : ℕ) (j engine : Text) (m : AffinityMap) {k : Text} {e : Entry} {n : ℕ}
    → j ≢ k
    → now < e.1
    → n + 1 < m.maximum
    → IsRecent k e n m.items
    → IsRecent k e (n + 1) (put now later j engine m).items
unfolding put
put-IsRecent now later j engine m {k} {e} {n} other early room r =
    let v : Entry = (engine, later + m.ttl) in
    let r' = expire-IsRecent now early r in
    let stored = insert j v (expire now m.items) in
    let distinct = IsDistinct-insert j v (expire now m.items) r'.distinct in
    let found : lookup j stored ≡ some v =
      ground (arith, lookup-insert j j v (expire now m.items), eq_refl j) in
    let (kept, near) = append-IsRecent j v other r' in
    evict-IsRecent m.maximum {d = move_to_end j stored} room (record {
      distinct = move_to_end-IsDistinct j stored distinct;
      found = rw (move_to_end_found j stored v found, remove-insert j v (expire now m.items)) kept;
      near = rw (move_to_end_found j stored v found, remove-insert j v (expire now m.items)) near;
    })

-- Reading any response.
pub get-IsRecent :
    (now : ℕ) (j : Text) (m : AffinityMap) {k : Text} {e : Entry} {n : ℕ}
    → now < e.1
    → IsRecent k e n m.items
    → IsRecent k e (n + 1) (get now j m).0.items
get-IsRecent now j m early r =
    let r' = expire-IsRecent now early r in
    elim (Option-cases (lookup j (expire now m.items))) [
      | inl p ↦
          rw (get_missing now j m p)
            (record { distinct = r'.distinct; found = r'.found; near = omega (arith, r'.near) })
      | inr (v, p) ↦ rw (get_found now j m v p) (move_to_end-IsRecent j v p r')
    ]

-- What a call stores is the newest entry.
pub put-newest :
    (now later : ℕ) (k engine : Text) (m : AffinityMap)
    → IsValid m
    → 0 < m.maximum
    → IsRecent k (engine, later + m.ttl) 0 (put now later k engine m).items
unfolding put
put-newest now later k engine m valid room =
    let v : Entry = (engine, later + m.ttl) in
    let d = expire now m.items in
    let found : lookup k (insert k v d) ≡ some v =
      ground (arith, lookup-insert k k v d, eq_refl k) in
    evict-IsRecent m.maximum room (
      moved-IsRecent k v 0 (insert k v d)
        (IsDistinct-insert k v d (expire-IsDistinct now m.items valid.distinct)) found)
