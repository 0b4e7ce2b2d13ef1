-- ===== src/Router/Affinity.antt =====
-- `AffinityMap`: which engine produced a response, for a bounded number of responses and a limited
-- time. Times are ticks of the monotonic clock; each call is given what the clock reads in it.
pub mod Bounds
pub mod Order
pub mod Recency
pub mod History
use yeetllm.Common.{
  ℕ, ◌+◌, Bool, Option, none, some, List, [], ◌∷◌, ◌++◌, ltb, leb, keep, length, text_eq,
  if◌then◌else◌,
}
use yeetllm.Common.Dict.{Dict, keys, lookup, insert, remove}
use yeetllm.Common.Text.{Text}

-- an engine and the time at which it is forgotten
abbrev pub Entry : Type 0
Entry = Text × ℕ

abbrev pub Items : Type 0
Items = Dict Text Entry

-- `_items` has the least recently used response first.
pub record AffinityMap : Type 0 where
  pub maximum : ℕ
  pub ttl : ℕ
  pub items : Items

-- `OrderedDict.move_to_end`; its callers have the key in the dictionary
unfoldable pub move_to_end : Text → Items → Items
move_to_end key items = elim (lookup key items) [
  | none ↦ items
  | some entry ↦ remove key items ++ (key, entry) ∷ []
]

abbrev pub is_expired : ℕ → Text × Entry → Bool
is_expired now item = leb item.1.1 now

unfoldable pub pop_all : List Text → Items → Items
pop_all [] items = items
pop_all (key ∷ rest) items = pop_all rest (remove key items)

-- `_expire`: the expired keys are collected first
unfoldable pub expire : ℕ → Items → Items
unfolding pop_all
expire now items = pop_all (keys (keep (is_expired now) items)) items

-- `while len(self._items) > self.maximum: self._items.popitem(last=False)`
unfoldable pub evict : ℕ → Items → Items
evict maximum [] = []
evict maximum (item ∷ rest) =
    let fewer = evict maximum rest in
    if ltb maximum (length (item ∷ rest)) then fewer else item ∷ rest

-- `put`; the clock reads `now` in `_expire` and `later` for the deadline
unfoldable pub put : ℕ → ℕ → Text → Text → AffinityMap → AffinityMap
unfolding move_to_end expire evict
put now later response_id engine_id m =
    let stored = insert response_id (engine_id, later + m.ttl) (expire now m.items) in
    record m { items = evict m.maximum (move_to_end response_id stored) }

unfoldable pub get : ℕ → Text → AffinityMap → AffinityMap × Option Text
unfolding move_to_end expire
get now response_id m =
    let items = expire now m.items in
    elim (lookup response_id items) [
      | none ↦ (record m { items = items }, none)
      | some entry ↦ (record m { items = move_to_end response_id items }, some entry.0)
    ]
