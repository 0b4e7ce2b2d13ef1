-- ===== src/Cluster/Ports.antt =====
-- `validate_cluster_ports` of cluster.py: the control port and the engines' rendezvous ports.
use yeetllm.Common.{
  ℕ, zero, suc, ◌+◌, ◌-◌, ◌≤◌, ◌<◌, ◌≡◌, refl, sym, ◌∙◌, ◌↔◌, arith, Bool, true, not, ◌&&◌, none,
  some, [], ◌∷◌, ◌++◌, leb, ltb, ◌==◌, nat_eq, eq_iff, text_eq, Result, ok, err, if◌then◌else◌, All,
  Bool-cases, Option-cases, inl, inr, ◌⊎◌, subst,
}
use yeetllm.Common.Dict.{Dict, keys, lookup, insert}
use yeetllm.Common.Text.{Text, codes}
use yeetllm.Common.Text.Decimal.{decimal}
use yeetllm.Cluster.Detection.{
  ClusterInfo, ClusterError, rendezvous_range_exceeded, control_overlap, port_taken,
}

-- `cluster_ports.update({base + index: ...})` for `index` from `first`
unfoldable pub rendezvous_ports : ℕ → ℕ → ℕ → Dict ℕ Text → Dict ℕ Text
rendezvous_ports base first zero ports = ports
rendezvous_ports base first (suc n) ports =
    rendezvous_ports base (suc first) n
      (insert (base + first) (codes "cluster rendezvous for engine " ++ decimal first) ports)

unfoldable pub check_taken : Dict ℕ Text → Dict ℕ Text → Result ClusterError (Unit {0})
check_taken claims [] = ok tt
check_taken claims ((port, owner) ∷ rest) = elim (lookup port claims) [
  | none ↦ check_taken claims rest
  | some previous ↦ err (port_taken port previous)
]

abbrev pub last_port : ClusterInfo → ℕ → ℕ
last_port info model_count = info.rendezvous_port_base + model_count - 1

unfoldable pub validate_cluster_ports :
    ClusterInfo → ℕ → Dict ℕ Text → Result ClusterError (Unit {0})
unfolding rendezvous_ports check_taken
validate_cluster_ports info model_count reserved =
    if not info.enabled
    then ok tt
    else if ltb 65535 (last_port info model_count)
    then err rendezvous_range_exceeded
    else if leb info.rendezvous_port_base info.control_port
        && ltb info.control_port (info.rendezvous_port_base + model_count)
    then err control_overlap
    else check_taken reserved (
        rendezvous_ports info.rendezvous_port_base 0 model_count
          ((info.control_port, codes "cluster control") ∷ []))

module _ (P : ℕ → Type 0) where
  All-insert_iff :
      (k : ℕ) (v : Text) (d : Dict ℕ Text) → All P (keys (insert k v d)) ↔ (P k × All P (keys d))
  unfolding insert
  All-insert_iff k v [] = (λ h. h, λ h. h)
  All-insert_iff k v ((j, w) ∷ d) = elim (Bool-cases (j == k)) [
    | inl same ↦
        let p : j ≡ k = (eq_iff j k).0 same in rw same ((λ h. (subst P p h.0, h), λ h. h.1))
    | inr other ↦
        let (to, from) = All-insert_iff k v d in
        rw other ((λ h. ((to h.1).0, (h.0, (to h.1).1)), λ h. (h.1.0, from (h.0, h.1.1))))
  ]

  All-rendezvous_ports :
      (base first n : ℕ) (d : Dict ℕ Text)
      → All P (keys (rendezvous_ports base first n d))
        ↔ (((i : ℕ) → first ≤ i → i < first + n → P (base + i)) × All P (keys d))
  unfolding rendezvous_ports
  All-rendezvous_ports base first zero d =
      (λ h. ((λ i low high. absurd (omega arith)), h), λ h. h.1)
  All-rendezvous_ports base first (suc n) d =
      let owner = codes "cluster rendezvous for engine " ++ decimal first in
      let (to, from) = All-rendezvous_ports base (suc first) n (insert (base + first) owner d) in
      let (to', from') = All-insert_iff (base + first) owner d in
      (
        λ h.
            let (rest, all) = to h in
            let (here, others) = to' all in
            (
              (λ i low high. elim (Bool-cases (first == i)) [
                | inl same ↦ subst (λ (k : ℕ). P (base + k)) ((eq_iff first i).0 same) here
                | inr other ↦ rest i (ground arith) (omega arith)
              ]),
              others,
            ),
        λ (h, others). from (
          (λ i low high. h i (omega arith) (omega arith)),
          from' (h first (omega arith) (omega arith), others),
        ),
      )

-- No reserved port is under this number.
abbrev pub IsFree : Dict ℕ Text → ℕ → Type 0
IsFree reserved port = lookup port reserved ≡ none

check_taken_iff :
    (claims d : Dict ℕ Text) → (check_taken claims d ≡ ok tt) ↔ All (IsFree claims) (keys d)
unfolding check_taken
check_taken_iff claims [] = (λ h. tt, λ h. refl)
check_taken_iff claims ((port, owner) ∷ rest) = elim (Option-cases (lookup port claims)) [
  | inl free ↦
      let (to, from) = check_taken_iff claims rest in
      let next : check_taken claims ((port, owner) ∷ rest) ≡ check_taken claims rest =
        rw (free, check_taken) refl in
      (λ h. (free, to (sym next ∙ h)), λ h. next ∙ from h.1)
  | inr (previous, taken) ↦
      let stop : check_taken claims ((port, owner) ∷ rest) ≡ err (port_taken port previous) =
        rw (taken, check_taken) refl in
      (λ h. cc, λ h. let free : lookup port claims ≡ none = h.0 in cc)
]

-- The ports of a cluster: in range, apart from one another, and free.
abbrev pub PortsFit : ClusterInfo → ℕ → Dict ℕ Text → Type 0
PortsFit info model_count reserved =
    (info.rendezvous_port_base + model_count ≤ 65536)
    × ((info.control_port < info.rendezvous_port_base)
        ⊎ (info.rendezvous_port_base + model_count ≤ info.control_port))
    × ((i : ℕ) → i < model_count → IsFree reserved (info.rendezvous_port_base + i))
    × IsFree reserved info.control_port

-- The ports in range and apart, as one test.
abbrev ports_apart : ClusterInfo → ℕ → Bool
ports_apart info model_count =
    not (ltb 65535 (last_port info model_count))
    && not (
        leb info.rendezvous_port_base info.control_port
        && ltb info.control_port (info.rendezvous_port_base + model_count))

ports_apart_iff :
    (info : ClusterInfo) (model_count : ℕ)
    → (ports_apart info model_count ≡ true) ↔ (
        (info.rendezvous_port_base + model_count ≤ 65536)
        × ((info.control_port < info.rendezvous_port_base)
            ⊎ (info.rendezvous_port_base + model_count ≤ info.control_port)))
ports_apart_iff info model_count = ground arith

all_ports : ClusterInfo → ℕ → Dict ℕ Text
all_ports info model_count =
    rendezvous_ports info.rendezvous_port_base 0 model_count
      ((info.control_port, codes "cluster control") ∷ [])

validate-apart :
    (info : ClusterInfo) (model_count : ℕ) (reserved : Dict ℕ Text)
    → info.enabled ≡ true
    → (validate_cluster_ports info model_count reserved ≡ ok tt) ↔ (
        (ports_apart info model_count ≡ true)
        × (check_taken reserved (all_ports info model_count) ≡ ok tt))
unfolding validate_cluster_ports all_ports
validate-apart info model_count reserved h = ground arith

all_ports-IsFree :
    (info : ClusterInfo) (model_count : ℕ) (reserved : Dict ℕ Text)
    → (check_taken reserved (all_ports info model_count) ≡ ok tt) ↔ (
        ((i : ℕ) → i < model_count → IsFree reserved (info.rendezvous_port_base + i))
        × IsFree reserved info.control_port)
unfolding all_ports
all_ports-IsFree info model_count reserved =
    let base = info.rendezvous_port_base in
    let control : Dict ℕ Text = (info.control_port, codes "cluster control") ∷ [] in
    let (to, from) = check_taken_iff reserved (all_ports info model_count) in
    let (to', from') = All-rendezvous_ports (IsFree reserved) base 0 model_count control in
    (
      λ h. let (each, rest) = to' (to h) in ((λ i low. each i (omega arith) (omega arith)), rest.0),
      λ (each, free). from (from' ((λ i low high. each i (omega arith)), (free, tt))),
    )

-- For an enabled cluster the ports are accepted exactly when the last rendezvous port is at most
-- 65535, the control port is outside the rendezvous ports, and none of these is reserved.
pub validate_cluster_ports_iff :
    (info : ClusterInfo) (model_count : ℕ) (reserved : Dict ℕ Text)
    → info.enabled ≡ true
    → (validate_cluster_ports info model_count reserved ≡ ok tt)
      ↔ PortsFit info model_count reserved
validate_cluster_ports_iff info model_count reserved h =
    let (a, b) = validate-apart info model_count reserved h in
    let (c, d) = ports_apart_iff info model_count in
    let (e, f) = all_ports-IsFree info model_count reserved in
    (
      λ v. let (apart, taken) = a v in ((c apart).0, (c apart).1, (e taken).0, (e taken).1),
      λ (low, apart, each, free). b (d (low, apart), f (each, free)),
    )
