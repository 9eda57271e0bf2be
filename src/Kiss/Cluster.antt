-- ===== src/Kiss/Cluster.antt =====
-- The state of a cluster, by which the joining of its boxes is put in a row,
-- crates/kiss/ansible/src/cluster.rs.
--
-- The host name of a box is its machine's id as a text, and texts of ids are ordered as the ids are.
pub mod Queue
pub mod Nodes
use open_ark.Prelude.{
  ℕ, zero, suc, ◌+◌, ◌-◌, ◌%◌, Bool, true, false, not, ◌&&◌, ◌||◌, Option, none, some, List, [],
  ◌∷◌, length, take, map, ltb, leb, eqb, if◌then◌else◌,
}
use open_ark.Sort.{filter_by, sort}
use open_ark.Kiss.{
  BoxState, ready, running, state_eqb, BoxGroupRole, control_plane, role_eqb, BoxGroupSpec,
  is_default, BoxStatus, BoxCrd,
}

-- `ClusterBoxState`; `uuid` is the host name too.
pub record Node : Type 0 where
  pub created_at : Option ℕ
  pub ip : Option ℕ
  pub is_ready : Bool
  pub is_running : Bool
  pub uuid : ℕ

-- `ClusterBoxState::from_box`
abbrev pub from_box : BoxCrd → Node
from_box box = record {
  created_at = box.creation_timestamp;
  ip = elim box.status [ none ↦ none | some status ↦ status.access ];
  is_ready = elim box.status [
    | none ↦ false
    | some status ↦ state_eqb status.state ready || state_eqb status.state running
  ];
  is_running = elim box.status [ none ↦ false | some status ↦ state_eqb status.state running ];
  uuid = box.uuid;
}

-- The derived order of options (`None` first) and of Booleans.
abbrev pub option_ltb : Option ℕ → Option ℕ → Bool
option_ltb none none = false
option_ltb none (some b) = true
option_ltb (some a) none = false
option_ltb (some a) (some b) = ltb a b

abbrev pub bool_ltb : Bool → Bool → Bool
bool_ltb false true = true
bool_ltb false false = false
bool_ltb true b = false

-- The derived order of the nodes: by the fields, in their order.
abbrev pub node_ltb : Node → Node → Bool
node_ltb a b =
    option_ltb a.created_at b.created_at
    || not (option_ltb b.created_at a.created_at)
      && (ltb a.uuid b.uuid
          || eqb a.uuid b.uuid
            && (option_ltb a.ip b.ip
                || not (option_ltb b.ip a.ip)
                  && (bool_ltb a.is_ready b.is_ready
                      || not (bool_ltb b.is_ready a.is_ready)
                        && bool_ltb a.is_running b.is_running)))

-- `insert` into the `BTreeMap`, whose keys are the nodes.
unfoldable pub insert_node : Node → List Node → List Node
insert_node x [] = x ∷ []
insert_node x (y ∷ ys) =
    let rest = insert_node x ys in
    if node_ltb x y then x ∷ y ∷ ys else if node_ltb y x then y ∷ rest else x ∷ ys

unfoldable pub collect : List BoxCrd → List Node
collect [] = []
collect (box ∷ boxes) = insert_node (from_box box) (collect boxes)

-- `ClusterBoxGroup::load_control_planes` and `load_worker_nodes`
unfoldable pub load_control_planes : ℕ → List BoxCrd → List Node
load_control_planes cluster_name boxes = collect (
    filter_by
      (λ box. eqb box.group.cluster_name cluster_name && role_eqb box.group.role control_plane)
      boxes)

unfoldable pub load_worker_nodes : ℕ → List BoxCrd → List Node
load_worker_nodes cluster_name boxes = collect (
    filter_by
      (λ box.
        eqb box.group.cluster_name cluster_name && not (role_eqb box.group.role control_plane))
      boxes)

-- `ClusterState`, with what it reads of the configuration.
pub record ClusterState : Type 0 where
  pub etcd_nodes_max : ℕ
  pub control_planes : List Node
  pub owner_group : BoxGroupSpec
  pub owner_uuid : ℕ
  pub workers : Option (List Node)

-- `ClusterState::load`
unfoldable pub load : ℕ → BoxCrd → Bool → List BoxCrd → ClusterState
load etcd_nodes_max owner load_workers boxes = record {
  etcd_nodes_max = etcd_nodes_max;
  control_planes = load_control_planes owner.group.cluster_name boxes;
  owner_group = owner.group;
  owner_uuid = owner.uuid;
  workers = if load_workers then some (load_worker_nodes owner.group.cluster_name boxes) else none;
}

-- `ClusterBoxGroup::contains`
unfoldable pub contains_node : ℕ → List Node → Bool
contains_node uuid [] = false
contains_node uuid (node ∷ nodes) = eqb node.uuid uuid || contains_node uuid nodes

-- `ClusterBoxGroup::is_next`: the first node that is not running.
unfoldable pub is_next : ℕ → List Node → Bool
is_next uuid [] = false
is_next uuid (node ∷ nodes) =
    let rest = is_next uuid nodes in if not node.is_running then eqb node.uuid uuid else rest

-- `ClusterBoxGroup::is_running`
unfoldable pub any_running : List Node → Bool
any_running [] = false
any_running (node ∷ nodes) = node.is_running || any_running nodes

-- `num_ready`, `num_running` and `num_total`
abbrev pub num_ready : List Node → ℕ
num_ready nodes = length (filter_by (λ node. node.is_ready) nodes)

abbrev pub num_running : List Node → ℕ
num_running nodes = length (filter_by (λ node. node.is_running) nodes)

-- `is_control_plane_ready`
unfoldable pub is_control_plane_ready : ClusterState → Bool
is_control_plane_ready s = eqb (num_ready s.control_planes) (length s.control_planes)

-- `is_control_plane_running`
unfoldable pub is_control_plane_running : ClusterState → Bool
is_control_plane_running s =
    if eqb (num_running s.control_planes) 0 && not (is_default s.owner_group)
    then false
    else eqb (num_running s.control_planes) (length s.control_planes)

-- `is_node_control_plane`
abbrev pub is_node_control_plane : ClusterState → Bool
is_node_control_plane s = contains_node s.owner_uuid s.control_planes

-- `is_joinable`
unfoldable pub is_joinable : ClusterState → Bool
is_joinable s =
    if is_node_control_plane s
    then is_control_plane_ready s && is_next s.owner_uuid s.control_planes
    else is_control_plane_running s

-- `is_new`
unfoldable pub is_new : ClusterState → Bool
is_new s = is_node_control_plane s && not (any_running s.control_planes)

-- The orders by creation and by the whole node that `iter` sorts by.
abbrev pub date_le : Node → Node → Bool
date_le a b =
    option_ltb a.created_at b.created_at
    || not (option_ltb b.created_at a.created_at) && not (node_ltb b a)

-- `to_vec` of `ClusterBoxFilter::RunningWith`, and of `Running`.
unfoldable pub running_with : ℕ → List Node → List Node
running_with uuid nodes =
    sort date_le (filter_by (λ node. node.is_running || eqb uuid node.uuid) nodes)

unfoldable pub running_nodes : List Node → List Node
running_nodes nodes = sort date_le (filter_by (λ node. node.is_running) nodes)

-- `Vec::pop`
abbrev pub pop : {A : Type 0} → List A → List A
pop [] = []
pop (x ∷ []) = []
pop (x ∷ y ∷ ys) = x ∷ pop (y ∷ ys)

abbrev pub is_even : ℕ → Bool
is_even n = eqb (n % 2) 0

-- The nodes that `get_etcd_nodes_as_string` prints, before it looks for their addresses.
unfoldable pub etcd_nodes : ClusterState → List Node
etcd_nodes s =
    let nodes = running_with s.owner_uuid s.control_planes in
    let cut = if ltb 0 s.etcd_nodes_max then take s.etcd_nodes_max nodes else nodes in
    if is_even (length cut) then pop cut else cut

-- The keys of `sort_nodes_by_date` and `sort_nodes_by_name`: the nodes that do not run come last.
abbrev pub by_date_le : Node → Node → Bool
by_date_le a b =
    bool_ltb (not a.is_running) (not b.is_running)
    || not (bool_ltb (not b.is_running) (not a.is_running)) && date_le a b

abbrev pub by_name_le : Node → Node → Bool
by_name_le a b =
    bool_ltb (not a.is_running) (not b.is_running)
    || not (bool_ltb (not b.is_running) (not a.is_running)) && leb a.uuid b.uuid

-- `get_host`
abbrev pub get_host : Node → Option (ℕ × ℕ)
get_host node = elim node.ip [ none ↦ none | some ip ↦ some (node.uuid, ip) ]

unfoldable pub hosts : List Node → List (ℕ × ℕ)
hosts [] = []
hosts (node ∷ nodes) =
    let rest = hosts nodes in elim (get_host node) [ none ↦ rest | some host ↦ host ∷ rest ]

-- What `get_control_planes_as_string`, `get_etcd_nodes_as_string` and `get_worker_nodes_as_string`
-- print, as the list of the hosts.
unfoldable pub control_plane_hosts : ClusterState → List (ℕ × ℕ)
control_plane_hosts s = hosts (sort by_name_le (running_with s.owner_uuid s.control_planes))

unfoldable pub etcd_hosts : ClusterState → List (ℕ × ℕ)
etcd_hosts s = hosts (sort by_date_le (etcd_nodes s))

unfoldable pub worker_hosts : ClusterState → List (ℕ × ℕ)
worker_hosts s = elim s.workers [
  | none ↦ []
  | some nodes ↦ hosts (sort by_date_le (running_nodes nodes))
]
