-- ===== src/Router/Headers/EndToEnd.antt =====
-- Which headers the proxy passes on.
use mathlib.Core.List.{Memᴰ}
use mathlib.Core.List.Memᴰ.{head, tail}
use yeetllm.Common.{
  ◌≡◌, refl, ap, ◌↔◌, inl, inr, Bool, true, false, not, List, [], ◌∷◌, ◌++◌, arith, contains, keep,
  All-mem, All-keep, keep_of_mem, contains-append, text_eq, eq_iff, eq_refl, ◌==◌, Bool-cases,
}
use yeetllm.Common.Text.{Bytes, codes, is_empty, is_ascii_space, strip_by, lower, split}
use yeetllm.Router.Headers.{
  Headers, hop_by_hop, tokens_of, connection_header_tokens, without, filter_request_headers,
}

-- A part of a `Connection` value names a header.
abbrev Names : List Bytes → Bytes → Type 0
Names parts name =
    (part : Bytes) × Memᴰ part parts
    × (is_empty (strip_by is_ascii_space part) ≡ false)
    × (lower (strip_by is_ascii_space part) ≡ name)

-- A `Connection` header among `raw` names the header with this lower-case name.
pub record IsNominated (raw : Headers) (name : Bytes) : Type 0 where
  pub field : Bytes
  pub value : Bytes
  pub listed : Memᴰ (field, value) raw
  pub is_connection : lower field ≡ codes "connection"
  pub part : Bytes
  pub among : Memᴰ part (split b',' value)
  pub nonblank : is_empty (strip_by is_ascii_space part) ≡ false
  pub names : lower (strip_by is_ascii_space part) ≡ name

-- A `Connection` header of a list, still one of a longer list.
IsNominated-tail :
    (header : Bytes × Bytes) (raw : Headers) (name : Bytes)
    → IsNominated raw name
    → IsNominated (header ∷ raw) name
IsNominated-tail header raw name n = record {
  field = n.field;
  value = n.value;
  listed = tail n.listed;
  is_connection = n.is_connection;
  part = n.part;
  among = n.among;
  nonblank = n.nonblank;
  names = n.names;
}

module _ (name : Bytes) where
  tokens_of_sound : (parts : List Bytes) → contains (tokens_of parts) name ≡ true → Names parts name
  unfolding tokens_of contains
  tokens_of_sound [] h = cc
  tokens_of_sound (p ∷ rest) h =
      let later : contains (tokens_of rest) name ≡ true → Names (p ∷ rest) name =
        λ k. let (part, m, full, named) = tokens_of_sound rest k in (part, tail m, full, named) in
      elim (Bool-cases (is_empty (strip_by is_ascii_space p))) [
        | inl blank ↦ later (rw blank at h)
        | inr full ↦ elim (Bool-cases (lower (strip_by is_ascii_space p) == name)) [
          | inl same ↦
              (p, head refl, full, (eq_iff (lower (strip_by is_ascii_space p)) name).0 same)
          | inr other ↦ later (ground arith)
        ]
      ]

  tokens_of_complete :
      (parts : List Bytes) → Names parts name → contains (tokens_of parts) name ≡ true
  unfolding tokens_of contains
  tokens_of_complete [] (part, m, full, named) = elim m [ ]
  tokens_of_complete (p ∷ rest) (part, head e, full, named) =
      let here : is_empty (strip_by is_ascii_space p) ≡ false = rw (← e) full in
      let same : lower (strip_by is_ascii_space p) ≡ name = rw (← e) named in
      rw (here, same, eq_refl name) refl
  tokens_of_complete (p ∷ rest) (part, tail m, full, named) =
      let more = tokens_of_complete rest (part, m, full, named) in ground arith

  connection_header_tokens_sound :
      (raw : Headers) → contains (connection_header_tokens raw) name ≡ true → IsNominated raw name
  unfolding connection_header_tokens contains
  connection_header_tokens_sound [] h = cc
  connection_header_tokens_sound ((field, value) ∷ rest) h =
      let parts = split b',' value in
      let later : contains (connection_header_tokens rest) name ≡ true
          → IsNominated ((field, value) ∷ rest) name =
        λ k. IsNominated-tail (field, value) rest name (connection_header_tokens_sound rest k) in
      elim (Bool-cases (lower field == codes "connection")) [
        | inl listed ↦ elim (Bool-cases (contains (tokens_of parts) name)) [
          | inl named ↦
              let (part, among, full, names) = tokens_of_sound parts named in
              record {
                field = field;
                value = value;
                listed = head refl;
                is_connection = (eq_iff (lower field) (codes "connection")).0 listed;
                part = part;
                among = among;
                nonblank = full;
                names = names;
              }
          | inr other ↦ later (
              ground
                (arith, contains-append (tokens_of parts) (connection_header_tokens rest) name))
        ]
        | inr other ↦ later (rw other at h)
      ]

  connection_header_tokens-of_mem :
      (raw : Headers) (field value : Bytes)
      → Memᴰ (field, value) raw
      → lower field ≡ codes "connection"
      → contains (tokens_of (split b',' value)) name ≡ true
      → contains (connection_header_tokens raw) name ≡ true
  unfolding connection_header_tokens contains
  connection_header_tokens-of_mem [] field value m c h = elim m [ ]
  connection_header_tokens-of_mem ((f, v) ∷ rest) field value (head e) c h =
      let same : lower f ≡ codes "connection" = rw (← ap (λ x. x.0) e) c in
      let named : contains (tokens_of (split b',' v)) name ≡ true = rw (← ap (λ x. x.1) e) h in
      ground (
        arith,
        eq_iff (lower f) (codes "connection"),
        contains-append (tokens_of (split b',' v)) (connection_header_tokens rest) name,
      )
  connection_header_tokens-of_mem ((f, v) ∷ rest) field value (tail m) c h = ground (
    arith,
    connection_header_tokens-of_mem rest field value m c h,
    contains-append (tokens_of (split b',' v)) (connection_header_tokens rest) name,
  )

  -- The tokens are the names that some `Connection` header nominates.
  pub connection_header_tokens_iff :
      (raw : Headers) → (contains (connection_header_tokens raw) name ≡ true) ↔ IsNominated raw name
  connection_header_tokens_iff raw = (
    connection_header_tokens_sound raw,
    λ n.
        connection_header_tokens-of_mem raw n.field n.value n.listed n.is_connection
          (tokens_of_complete (split b',' n.value) (n.part, n.among, n.nonblank, n.names)),
  )

-- What a filter keeps comes from the list and passes its test.
pub mem_of_keep {ℓ} :
    {A : Type ℓ} (p : A → Bool) {a : A} (xs : List A) → Memᴰ a (keep p xs) → Memᴰ a xs
unfolding keep
mem_of_keep p [] m = elim m [ ]
mem_of_keep p (x ∷ xs) m = elim (Bool-cases (p x)) [
  | inl kept ↦ elim (rw kept at m) [ head e ↦ head e | tail n ↦ tail (mem_of_keep p xs n) ]
  | inr cut ↦ tail (mem_of_keep p xs (rw cut at m))
]

-- Neither hop-by-hop, nor among `extra`, nor nominated by a `Connection` header.
abbrev pub IsEndToEnd : List Bytes → Headers → Bytes → Type 0
IsEndToEnd extra raw name =
    (contains hop_by_hop name ≡ false) × (contains extra name ≡ false) × ¬ IsNominated raw name

-- What the filters block is what is not end-to-end.
pub blocked_iff :
    (extra : List Bytes) (raw : Headers) (name : Bytes)
    → (contains (hop_by_hop ++ connection_header_tokens raw ++ extra) name ≡ false)
      ↔ IsEndToEnd extra raw name
blocked_iff extra raw name = ground (
  arith,
  contains-append hop_by_hop (connection_header_tokens raw ++ extra) name,
  contains-append (connection_header_tokens raw) extra name,
  connection_header_tokens_iff name raw,
)

without_iff :
    (blocked : List Bytes) (raw : Headers) (name value : Bytes)
    → Memᴰ (name, value) (without blocked raw)
      ↔ (Memᴰ (name, value) raw × (contains blocked (lower name) ≡ false))
unfolding without
without_iff blocked raw name value = (
  λ m. (
    mem_of_keep (λ item. not (contains blocked (lower item.0))) raw m,
    ground (
      arith,
      All-mem (λ item. not (contains blocked (lower item.0)) ≡ true)
          (keep (λ item. not (contains blocked (lower item.0))) raw)
          (All-keep (λ item. not (contains blocked (lower item.0))) raw) m,
    ),
  ),
  λ (m, free). keep_of_mem (λ item. not (contains blocked (lower item.0))) raw m (ground arith),
)

-- A request keeps exactly the headers that are end-to-end: those of the client's request whose
-- lower-case name is not a hop-by-hop name, is neither `host` nor `content-length`, and is named by
-- no part of a `Connection` header.
pub filter_request_headers_iff :
    (raw : Headers) (name value : Bytes)
    → Memᴰ (name, value) (filter_request_headers raw) ↔ (
        Memᴰ (name, value) raw
        × IsEndToEnd (codes "host" ∷ codes "content-length" ∷ []) raw (lower name))
unfolding filter_request_headers
filter_request_headers_iff raw name value = ground (
  arith,
  without_iff
      (hop_by_hop ++ connection_header_tokens raw ++ codes "host" ∷ codes "content-length" ∷ []) raw
      name value,
  blocked_iff (codes "host" ∷ codes "content-length" ∷ []) raw (lower name),
)
