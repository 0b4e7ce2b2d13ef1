-- ===== src/Cluster/Membership.antt =====
-- What `detect_cluster` promises of a cluster that it accepts.
use yeetllm.Common.{
  ℕ, zero, suc, ◌+◌, ◌*◌, ◌≤◌, ◌<◌, ◌≡◌, refl, sym, subst, ◌⊎◌, inl, inr, arith, Bool, true, false,
  not, ◌&&◌, Option, none, some, leb, ltb, ◌==◌, nat_eq, text_eq, eq_iff, any, Result, ok, ◌>>◌,
  >>=-eq-ok, >>-eq-ok, raise_if, if◌then◌else◌, Bool-cases,
}
use yeetllm.Common.Dict.{Dict, lookup, is_some}
use yeetllm.Common.Text.{Text, codes}
use yeetllm.Config.Types.{ClusterConfig, ClusterMode}
use yeetllm.Cluster.Detection.{
  ClusterInfo, ClusterError, Role, Numbers, at, exceeds, or_default, parse_nonnegative_int,
  parse_positive_int, read_numbers, check_numbers, cluster_info, single_node, cluster_keys,
  detect_by, check_variables, check_interface, bounded, enable, detect_checked, detect_present,
  detect_cluster, is_auto,
}

-- A node of a cluster whose numbers fit together.
abbrev pub IsConsistent : ClusterInfo → Type 0
IsConsistent info =
    (info.node_rank < info.node_count)
    × (info.world_size ≡ info.node_count * info.trainers_per_node)
    × (1 ≤ info.trainers_per_node)
    × (info.role ≡ (if info.node_rank == 0 then Role.primary else Role.worker))
    × (info.node_rank ≡ 0 → info.primary_addr ≡ info.node_addr)
    × (1 ≤ info.control_port)
    × (1 ≤ info.rendezvous_port_base)
    × (info.rendezvous_port_base ≤ 65535)

guard-ok :
    {A : Type 0} (b : Bool) (e : ClusterError) (m : Result ClusterError A) {a : A}
    → (raise_if b e >> m) ≡ ok a
    → (b ≡ false) × (m ≡ ok a)
guard-ok true e m h = cc
guard-ok false e m h = (refl, h)

parse_positive_int-low :
    (env : Dict Text Text) (name : Text) (maximum : Option ℕ) (n : ℕ)
    → parse_positive_int env name maximum ≡ ok n
    → 1 ≤ n
unfolding parse_positive_int
parse_positive_int-low env name maximum n h =
    let (v, read, checked) = >>=-eq-ok (parse_nonnegative_int env name) _ h in
    elim (Bool-cases (exceeds v maximum)) [ inl over ↦ ground arith | inr under ↦ ground arith ]

read_numbers-low :
    (env : Dict Text Text) (n : Numbers)
    → read_numbers env ≡ ok n
    → (1 ≤ n.primary_port) × (1 ≤ n.trainers)
unfolding read_numbers
read_numbers-low env n h =
    let (port, p, h1) =
      >>=-eq-ok (parse_positive_int env (codes "PRIMARY_PORT") (some 65535)) _ h in
    let (rank, r, h2) = >>=-eq-ok (parse_nonnegative_int env (codes "NODE_RANK")) _ h1 in
    let (count, c, h3) = >>=-eq-ok (parse_positive_int env (codes "NUM_NODES") none) _ h2 in
    let (trainers, t, h4) = >>=-eq-ok (parse_positive_int env (codes "NUM_TRAINERS") none) _ h3 in
    let (world, w, h5) = >>=-eq-ok (parse_positive_int env (codes "WORLD_SIZE") none) _ h4 in
    ground (
      arith,
      parse_positive_int-low env (codes "PRIMARY_PORT") (some 65535) port p,
      parse_positive_int-low env (codes "NUM_TRAINERS") none trainers t,
    )

or_default-low : (o : Option ℕ) (d : ℕ) → 1 ≤ d → 1 ≤ or_default o d
or_default-low none d h = h
or_default-low (some zero) d h = h
or_default-low (some (suc n)) d h = omega arith

-- What the checks after the integers leave.
abbrev Fits : Dict Text Text → Numbers → Type 0
Fits env n =
    (n.node_rank < n.node_count)
    × (n.world_size ≡ n.node_count * n.trainers)
    × (n.node_rank ≡ 0 → at env (codes "PRIMARY_ADDR") ≡ at env (codes "NODE_ADDR"))

check_numbers-ok : (env : Dict Text Text) (n : Numbers) → check_numbers env n ≡ ok tt → Fits env n
unfolding check_numbers
check_numbers-ok env n h =
    let primary = at env (codes "PRIMARY_ADDR") in
    let node = at env (codes "NODE_ADDR") in
    let range : leb n.node_count n.node_rank ≡ false = ground arith in
    let zero_node : (n.node_rank == 0 && not (primary == node)) ≡ false = ground arith in
    let world : (n.world_size == n.node_count * n.trainers) ≡ true = ground arith in
    (
      ground arith,
      (eq_iff n.world_size (n.node_count * n.trainers)).0 world,
      λ z. ground (arith, eq_iff primary node),
    )

cluster_info-IsConsistent :
    (config : ClusterConfig) (env : Dict Text Text) (n : Numbers)
    → read_numbers env ≡ ok n
    → check_numbers env n ≡ ok tt
    → (cluster_info config env n).rendezvous_port_base ≤ 65535
    → IsConsistent (cluster_info config env n)
cluster_info-IsConsistent config env n r c h =
    let (port, trainers) = read_numbers-low env n r in
    let (rank, world, addr) = check_numbers-ok env n c in
    (
      rank,
      world,
      trainers,
      refl,
      addr,
      or_default-low config.control_port n.primary_port port,
      or_default-low config.rendezvous_port_base (n.primary_port + 1) (omega arith),
      h,
    )

module _ (verify : Text → Text → Result ClusterError (Unit {0})) where
  enable-IsConsistent :
      (config : ClusterConfig) (env : Dict Text Text) (n : Numbers) (info : ClusterInfo)
      → read_numbers env ≡ ok n
      → check_numbers env n ≡ ok tt
      → enable verify config env n ≡ ok info
      → (info ≡ single_node) ⊎ IsConsistent info
  enable-IsConsistent config env n info r c h =
      elim (Bool-cases (n.node_count == 1 && is_auto config.mode)) [
        | inl single ↦ inl (sym (ground arith))
        | inr several ↦
            let found = cluster_info config env n in
            let (before, last) =
              >>-eq-ok (check_interface verify config env) (bounded verify found)
                (rw several at h) in
            elim (Bool-cases (ltb 65535 found.rendezvous_port_base)) [
              | inl high ↦ absurd (ground arith)
              | inr low ↦
                  let same : found ≡ info = ground arith in
                  inr (
                    subst (λ (i : ClusterInfo). IsConsistent i) same
                      (cluster_info-IsConsistent config env n r c (ground arith)))
            ]
      ]

  detect_present-ok :
      (config : ClusterConfig) (env : Dict Text Text) (info : ClusterInfo)
      → detect_present verify config env ≡ ok info
      → (info ≡ single_node) ⊎ IsConsistent info
  detect_present-ok config env info h =
      let (before, read) = >>-eq-ok (check_variables env) (detect_checked verify config env) h in
      let (n, r, more) = >>=-eq-ok (read_numbers env) _ read in
      let (checked, last) = >>-eq-ok (check_numbers env n) (enable verify config env n) more in
      enable-IsConsistent config env n info r checked.1 last

  detect_by-ok :
      (mode : ClusterMode) (present : Bool) (config : ClusterConfig) (env : Dict Text Text)
      (info : ClusterInfo)
      → detect_by verify mode present config env ≡ ok info
      → (info ≡ single_node) ⊎ IsConsistent info
  detect_by-ok ClusterMode.off present config env info h = inl (cc)
  detect_by-ok ClusterMode.runpod false config env info h = cc
  detect_by-ok ClusterMode.auto false config env info h = inl (cc)
  detect_by-ok ClusterMode.runpod true config env info h = detect_present-ok config env info h
  detect_by-ok ClusterMode.auto true config env info h = detect_present-ok config env info h

  -- A detected cluster is disabled, a single node, or its numbers fit: the rank is below the number of
  -- nodes, the world size is the number of nodes times the trainers of each, the role is the primary's
  -- exactly for rank 0, whose address is then the primary's, and the ports are at least 1, the
  -- rendezvous base at most 65535.
  pub detect_cluster-IsConsistent :
      (config : ClusterConfig) (env : Dict Text Text) (info : ClusterInfo)
      → detect_cluster verify config env ≡ ok info
      → (info ≡ single_node) ⊎ IsConsistent info
  unfolding detect_cluster
  detect_cluster-IsConsistent config env info h =
      detect_by-ok config.mode (any (λ key. is_some (lookup key env)) cluster_keys) config env info
        h
