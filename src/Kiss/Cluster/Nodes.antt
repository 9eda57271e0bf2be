-- ===== src/Kiss/Cluster/Nodes.antt =====
-- The nodes that are handed to a job.
use open_ark.Prelude.{
  ℕ, zero, suc, ◌-◌, ◌%◌, ◌≤◌, ◌<◌, ◌≡◌, ◌∙◌, refl, sym, ap, subst, Bool, true, false, ◌||◌, inl,
  inr, List, [], ◌∷◌, length, take, if_rule, if◌then◌else◌, ltb, eqb, eqb_iff, Bool-cases,
  Option-cases, is_some, All, arith,
}
use open_ark.Sort.{filter_by, insert, sort, All-sort}
use open_ark.Kiss.Cluster.{
  Node, ClusterState, contains_node, is_node_control_plane, running_with, pop, is_even, etcd_nodes,
  hosts, etcd_hosts, by_date_le,
}

module _ {A : Type 0} where
  length-insert :
      (le : A → A → Bool) (x : A) (xs : List A) → length (insert le x xs) ≡ suc (length xs)
  unfolding insert
  length-insert le x [] = refl
  length-insert le x (y ∷ ys) = elim (Bool-cases (le x y)) [
    | inl e ↦ rw e
    | inr e ↦ rw (e, length-insert le x ys)
  ]

  length-sort : (le : A → A → Bool) (xs : List A) → length (sort le xs) ≡ length xs
  unfolding sort
  length-sort le [] = refl
  length-sort le (x ∷ xs) = length-insert le x (sort le xs) ∙ ap suc (length-sort le xs)

  length-pop : (xs : List A) → length (pop xs) ≡ length xs - 1
  length-pop [] = omega arith
  length-pop (x ∷ []) = omega arith
  length-pop (x ∷ y ∷ ys) = omega (arith, length-pop (y ∷ ys))

  take_bounds :
      (n : ℕ) (xs : List A)
      → (length (take n xs) ≤ n)
        × (length (take n xs) ≤ length xs)
        × (0 < n → 0 < length xs → 0 < length (take n xs))
  take_bounds zero xs = (omega arith, omega arith, λ h k. h)
  take_bounds (suc n) [] = (omega arith, omega arith, λ h k. k)
  take_bounds (suc n) (x ∷ xs) =
      (omega (arith, (take_bounds n xs).0), omega (arith, (take_bounds n xs).1), λ h k. omega arith)

not_owner : (r : Bool) (a b : ℕ) → r || eqb b a ≡ false → eqb a b ≡ false
not_owner r a b h = ground arith

-- The owner is among the nodes that may run, if it is a control plane.
owner_listed :
    (uuid : ℕ) (nodes : List Node)
    → contains_node uuid nodes ≡ true
    → 0 < length (filter_by (λ node. node.is_running || eqb uuid node.uuid) nodes)
unfolding contains_node filter_by
owner_listed uuid [] h = absurd (cc)
owner_listed uuid (node ∷ nodes) h = elim (Bool-cases (node.is_running || eqb uuid node.uuid)) [
  | inl e ↦ rw e (omega arith)
  | inr e ↦
      let other : eqb node.uuid uuid ≡ false = not_owner node.is_running node.uuid uuid e in
      rw e (owner_listed uuid nodes (rw (contains_node, other) at h))
]

-- Cutting the list leaves a node, and dropping one of an even number leaves an odd one.
cut_nodes :
    (max : ℕ) (nodes : List Node)
    → 0 < length nodes
    → (0 < length (if ltb 0 max then take max nodes else nodes))
      × (0 < max → length (if ltb 0 max then take max nodes else nodes) ≤ max)
cut_nodes max nodes some_node = elim (Bool-cases (ltb 0 max)) [
  | inl e ↦
      let (at_most, _, left) = take_bounds max nodes in
      rw e (left (ground arith) some_node, λ _. at_most)
  | inr e ↦ rw e (some_node, λ h. absurd (ground arith))
]

odd_nodes :
    (max : ℕ) (cut : List Node)
    → 0 < length cut
    → (0 < max → length cut ≤ max)
    → (length (if is_even (length cut) then pop cut else cut) % 2 ≡ 1)
      × (0 < max → length (if is_even (length cut) then pop cut else cut) ≤ max)
odd_nodes max cut some_node le =
    if_rule {A = List Node} (λ l. (length l % 2 ≡ 1) × (0 < max → length l ≤ max))
      (is_even (length cut))
      (λ even.
        let e : length cut % 2 ≡ 0 = (eqb_iff (length cut % 2) 0).0 even in
        (rw (length-pop cut) (omega arith), λ h. rw (length-pop cut) (omega (arith, le h))))
      (λ odd. (ground arith, le))

-- A node without an address is left out of what is printed.
length-hosts :
    (nodes : List Node)
    → All (λ (node : Node). is_some node.ip ≡ true) nodes
    → length (hosts nodes) ≡ length nodes
unfolding hosts
length-hosts [] h = refl
length-hosts (node ∷ nodes) h = elim (Option-cases node.ip) [
  | inl e ↦ absurd (cc (rw e at h.0))
  | inr (ip, e) ↦ rw (hosts, e) (ap suc (length-hosts nodes h.1))
]

module _ (s : ClusterState) (inside : is_node_control_plane s ≡ true) where
  etcd_nodes_lem :
      (length (etcd_nodes s) % 2 ≡ 1)
      × (0 < s.etcd_nodes_max → length (etcd_nodes s) ≤ s.etcd_nodes_max)
  unfolding etcd_nodes running_with
  etcd_nodes_lem =
      let listed : 0 < length (running_with s.owner_uuid s.control_planes) =
        rw (running_with, length-sort) (owner_listed s.owner_uuid s.control_planes inside) in
      let (left, at_most) =
        cut_nodes s.etcd_nodes_max (running_with s.owner_uuid s.control_planes) listed in
      odd_nodes s.etcd_nodes_max _ left at_most

  -- If every node that is chosen has an address, the etcd hosts that are printed for a job whose owner
  -- is a control plane are odd in number, and at most as many as the configuration allows, where it
  -- sets a limit.
  pub etcd_hosts_odd :
      All (λ (node : Node). is_some node.ip ≡ true) (etcd_nodes s)
      → (length (etcd_hosts s) % 2 ≡ 1)
        × (0 < s.etcd_nodes_max → length (etcd_hosts s) ≤ s.etcd_nodes_max)
  unfolding etcd_hosts
  etcd_hosts_odd addressed =
      let same : length (etcd_hosts s) ≡ length (etcd_nodes s) =
        length-hosts _ (All-sort _ by_date_le (etcd_nodes s) addressed)
        ∙ length-sort by_date_le (etcd_nodes s) in
      subst (λ n. (n % 2 ≡ 1) × (0 < s.etcd_nodes_max → n ≤ s.etcd_nodes_max)) (sym same)
        etcd_nodes_lem
