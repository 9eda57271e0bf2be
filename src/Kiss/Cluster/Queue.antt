-- ===== src/Kiss/Cluster/Queue.antt =====
-- The boxes of a cluster join one at a time.
use open_ark.Prelude.{
  both_true, ℕ, ◌≤◌, ◌<◌, ◌≡◌, ◌∙◌, refl, sym, ap, subst, Bool, true, false, not, ◌&&◌, ◌||◌, inl,
  inr, List, [], ◌∷◌, ◌++◌, length, All, if◌then◌else◌, eqb, eqb_iff, Bool-cases, arith,
}
use open_ark.Sort.{filter_by, filter_by-All}
use open_ark.Kiss.{BoxCrd, is_default}
use open_ark.Kiss.Cluster.{
  Node, ClusterState, load, load_control_planes, contains_node, is_next, num_ready, num_running,
  is_control_plane_ready, is_control_plane_running, is_node_control_plane, is_joinable,
}

is_next_unique :
    (u v : ℕ) (nodes : List Node) → is_next u nodes ≡ true → is_next v nodes ≡ true → u ≡ v
unfolding is_next
is_next_unique u v [] h k = absurd (cc)
is_next_unique u v (node ∷ nodes) h k = elim (Bool-cases node.is_running) [
  | inl e ↦ is_next_unique u v nodes (rw (is_next, e) at h) (rw (is_next, e) at k)
  | inr e ↦
      sym ((eqb_iff node.uuid u).0 (rw (is_next, e) at h))
      ∙ (eqb_iff node.uuid v).0 (rw (is_next, e) at k)
]

filter_by_le : {A : Type 0} (p : A → Bool) (xs : List A) → length (filter_by p xs) ≤ length xs
unfolding filter_by
filter_by_le p [] = omega arith
filter_by_le p (x ∷ xs) = elim (Bool-cases (p x)) [
  | inl e ↦ rw e (omega (arith, filter_by_le p xs))
  | inr e ↦ rw e (omega (arith, filter_by_le p xs))
]

-- A filter that drops nothing finds its test true everywhere.
filter_by_full :
    {A : Type 0} (p : A → Bool) (xs : List A)
    → length (filter_by p xs) ≡ length xs
    → All (λ x. p x ≡ true) xs
unfolding filter_by
filter_by_full p [] h = tt
filter_by_full p (x ∷ xs) h = elim (Bool-cases (p x)) [
  | inl e ↦ (e, filter_by_full p xs (omega (arith, rw (filter_by, e) at h)))
  | inr e ↦ absurd (omega (arith, filter_by_le p xs, rw (filter_by, e) at h))
]

or_true : (b : Bool) → b || true ≡ true
or_true b = ground arith

-- The node that joins next.
pub record Next (uuid : ℕ) (nodes : List Node) : Type 0 where
  pub before : List Node
  pub node : Node
  pub after : List Node
  pub nodes_eq : nodes ≡ before ++ node ∷ after
  pub uuid_eq : node.uuid ≡ uuid
  pub not_running : node.is_running ≡ false
  pub before_running : All (λ n. n.is_running ≡ true) before

is_next-Next : (uuid : ℕ) (nodes : List Node) → is_next uuid nodes ≡ true → Next uuid nodes
unfolding is_next
is_next-Next uuid [] h = absurd (cc)
is_next-Next uuid (node ∷ nodes) h = elim (Bool-cases node.is_running) [
  | inl e ↦
      let rest = is_next-Next uuid nodes (rw (is_next, e) at h) in
      record {
        before = node ∷ rest.before;
        node = rest.node;
        after = rest.after;
        nodes_eq = ap (λ l. node ∷ l) rest.nodes_eq;
        uuid_eq = rest.uuid_eq;
        not_running = rest.not_running;
        before_running = (e, rest.before_running);
      }
  | inr e ↦ record {
    before = [];
    node = node;
    after = nodes;
    nodes_eq = refl;
    uuid_eq = (eqb_iff node.uuid uuid).0 (rw (is_next, e) at h);
    not_running = e;
    before_running = tt;
  }
]

-- The control planes' numbers that let a worker in.
running_parts :
    (n all : ℕ) (default : Bool)
    → (if eqb n 0 && not default then false else eqb n all) ≡ true
    → (n ≡ all) × (default ≡ false → 0 < n)
running_parts n all default h = (ground arith, λ e. ground arith)

-- A node does not run.
unfoldable pub any_stopped : List Node → Bool
any_stopped [] = false
any_stopped (node ∷ nodes) = not node.is_running || any_stopped nodes

next_exists :
    (nodes : List Node)
    → any_stopped nodes ≡ true
    → (uuid : ℕ) × (contains_node uuid nodes ≡ true) × (is_next uuid nodes ≡ true)
unfolding any_stopped contains_node is_next
next_exists [] h = absurd (cc)
next_exists (node ∷ nodes) h = elim (Bool-cases node.is_running) [
  | inl e ↦
      let (uuid, inside, next) = next_exists nodes (rw (any_stopped, e) at h) in
      (uuid, rw (contains_node, inside) (or_true (eqb node.uuid uuid)), rw (is_next, e) next)
  | inr e ↦ (
    node.uuid,
    rw (contains_node, (eqb_iff node.uuid node.uuid).1 refl),
    rw (is_next, e) ((eqb_iff node.uuid node.uuid).1 refl),
  )
]

module _ (s : ClusterState) where
  joinable_parts :
      is_node_control_plane s ≡ true
      → is_joinable s ≡ true
      → (is_control_plane_ready s ≡ true) × (is_next s.owner_uuid s.control_planes ≡ true)
  unfolding is_joinable
  joinable_parts inside h =
      both_true (is_control_plane_ready s) (is_next s.owner_uuid s.control_planes)
        (rw (is_joinable, inside) at h)

  -- A control plane may join only where every control plane of its cluster is ready or running, and
  -- it is the first of them that does not run.
  pub joins_control_plane :
      is_node_control_plane s ≡ true
      → is_joinable s ≡ true
      → All (λ node. node.is_ready ≡ true) s.control_planes × Next s.owner_uuid s.control_planes
  unfolding is_control_plane_ready
  joins_control_plane inside h =
      let (all_ready, next) = joinable_parts inside h in
      (
        filter_by_full (λ node. node.is_ready) s.control_planes
            ((eqb_iff (num_ready s.control_planes) (length s.control_planes)).0 all_ready),
        is_next-Next s.owner_uuid s.control_planes next,
      )

  -- A box that is no control plane may join only where every control plane of its cluster runs, and,
  -- outside the default cluster, only where there is one.
  pub joins_worker :
      is_node_control_plane s ≡ false
      → is_joinable s ≡ true
      → All (λ node. node.is_running ≡ true) s.control_planes
        × (is_default s.owner_group ≡ false → 0 < length s.control_planes)
  unfolding is_joinable is_control_plane_running
  joins_worker outside h =
      let (full, some_run) =
        running_parts (num_running s.control_planes) (length s.control_planes)
          (is_default s.owner_group) (rw (is_joinable, outside) at h) in
      (
        filter_by_full (λ node. node.is_running) s.control_planes full,
        λ e. omega (arith, some_run e),
      )

  -- The queue does not stall: where all control planes of a cluster are ready or running and one of
  -- them does not run, one of them may join.
  pub joins_next :
      All (λ node. node.is_ready ≡ true) s.control_planes
      → any_stopped s.control_planes ≡ true
      → (uuid : ℕ) × (is_joinable (record s { owner_uuid = uuid }) ≡ true)
  unfolding is_joinable is_control_plane_ready
  joins_next all_ready stopped =
      let (uuid, inside, next) = next_exists s.control_planes stopped in
      let ready : eqb (num_ready s.control_planes) (length s.control_planes) ≡ true =
        (eqb_iff _ _).1
          (ap length (filter_by-All (λ node. node.is_ready) s.control_planes all_ready)) in
      (uuid, rw (is_joinable, inside, is_control_plane_ready, ready, next))

-- Of two control planes of a cluster that may join by the same list of boxes, both are the same box.
pub joinable_unique :
    (max max' : ℕ) (a b : BoxCrd) (workers workers' : Bool) (boxes : List BoxCrd)
    → a.group.cluster_name ≡ b.group.cluster_name
    → is_node_control_plane (load max a workers boxes) ≡ true
    → is_node_control_plane (load max' b workers' boxes) ≡ true
    → is_joinable (load max a workers boxes) ≡ true
    → is_joinable (load max' b workers' boxes) ≡ true
    → a.uuid ≡ b.uuid
unfolding load
joinable_unique max max' a b workers workers' boxes same in_a in_b h k =
    is_next_unique a.uuid b.uuid (load_control_planes b.group.cluster_name boxes)
      (subst (λ name. is_next a.uuid (load_control_planes name boxes) ≡ true) same
        (joinable_parts (load max a workers boxes) in_a h).1)
      (joinable_parts (load max' b workers' boxes) in_b k).1
