-- ===== src/Kiss/Examples.antt =====
-- Boxes and clusters at work: runs, and the theorems at them.
use open_ark.Prelude.{
  ℕ, ◌+◌, ◌%◌, ◌≤◌, ◌<◌, ◌≡◌, refl, true, false, is_some, Option, none, some, List, [], ◌∷◌, length,
  All, ok,
}
use open_ark.Sort.{filter_by, sort, insert}
use open_ark.Kiss.{
  ready, joining, running, BoxGroupSpec, control_plane, compute, is_default, BoxStatus, BoxCrd,
}
use open_ark.Kiss.Operator.{
  World, wait_access, check_timeout, check_group, finish, spawn_job, gate, reconcile_on, reconcile,
}
use open_ark.Kiss.Operator.Moves.{IsMember, join}
use open_ark.Kiss.Operator.Effect.{Written, reconcile_sound}
use open_ark.Kiss.Operator.Progress.{IsServing, reconcile_complete}
use open_ark.Kiss.System.{System, operates, done, step}
use open_ark.Kiss.System.Safe.{BoxOk, Steps-BoxOk}
use open_ark.Kiss.Cluster.{
  ClusterState, Node, load, load_control_planes, collect, insert_node, contains_node, is_next,
  is_joinable, is_control_plane_ready, is_control_plane_running, is_node_control_plane, etcd_nodes,
  etcd_hosts, hosts, running_with,
}
use open_ark.Kiss.Cluster.Queue.{
  Next, any_stopped, joins_control_plane, joins_worker, joins_next, joinable_unique,
}
use open_ark.Kiss.Cluster.Nodes.{etcd_hosts_odd}

abbrev planes : BoxGroupSpec
planes = record { cluster_name = 5; role = control_plane }

abbrev workers : BoxGroupSpec
workers = record { cluster_name = 5; role = compute }

-- A box that has been commissioned, and has not joined yet.
abbrev idle : ℕ → BoxGroupSpec → BoxCrd
idle uuid group = record {
  uuid = uuid;
  creation_timestamp = some uuid;
  group = group;
  power = none;
  status = some (record { state = ready; access = some 80; bind_group = none; last_updated = 100 });
}

abbrev serving : ℕ → World
serving now = record {
  now = now;
  later = now + 1;
  group_enable_default_cluster = some false;
  spawn = λ job. ok true;
  accepts_patch = true;
}

abbrev joined : BoxStatus
joined = record { state = joining; access = some 80; bind_group = some planes; last_updated = 201 }

joins : (reconcile (serving 200) (idle 1 planes)).patch ≡ some joined
unfolding reconcile reconcile_on wait_access check_timeout check_group gate spawn_job finish
joins = refl

reconcile_sound_example : Written (serving 200) (idle 1 planes) joined
reconcile_sound_example = reconcile_sound (serving 200) (idle 1 planes) joined joins

is_serving : IsServing (serving 200) false
is_serving = record { configured = refl; spawns = λ job. refl; accepts = refl }

member : IsMember (idle 1 planes) false
member = record { not_external = λ e. cc; not_disabled = refl }

reconcile_complete_example : (reconcile (serving 200) (idle 1 planes)).patch ≡ some joined
reconcile_complete_example =
    reconcile_complete (serving 200) (idle 1 planes) false is_serving (join member (λ e. cc))

abbrev start : System
start = record { box = idle 1 planes; jobs = [] }

idle-BoxOk : BoxOk (idle 1 planes)
idle-BoxOk = record { not_group_changed = λ e. cc; joining_bound = λ e. absurd (cc) }

Steps-BoxOk_example : BoxOk (record start { box = record start.box { status = some joined } }).box
unfolding reconcile reconcile_on wait_access check_timeout check_group gate spawn_job finish
Steps-BoxOk_example = Steps-BoxOk (step done (operates (serving 200) start)) idle-BoxOk

abbrev fleet : List BoxCrd
fleet = idle 1 planes ∷ idle 2 planes ∷ idle 3 workers ∷ []

abbrev first_state : ClusterState
first_state = load 3 (idle 1 planes) false fleet

may_join : is_joinable first_state ≡ true
unfolding load load_control_planes collect insert_node filter_by is_joinable contains_node is_next
    is_control_plane_ready
may_join = refl

is_plane : is_node_control_plane first_state ≡ true
unfolding load load_control_planes collect insert_node filter_by contains_node
is_plane = refl

joinable_unique_example : (idle 1 planes).uuid ≡ (record (idle 1 planes) { power = some 4 }).uuid
unfolding load
joinable_unique_example =
    joinable_unique 3 3 (idle 1 planes) (record (idle 1 planes) { power = some 4 }) false false
      fleet refl is_plane is_plane may_join may_join

joins_control_plane_example :
    All (λ (node : Node). node.is_ready ≡ true) first_state.control_planes
    × Next 1 first_state.control_planes
unfolding load
joins_control_plane_example = joins_control_plane first_state is_plane may_join

abbrev run_plane : BoxCrd
run_plane = record (idle 1 planes) {
  status =
      some (record {
        state = running;
        access = some 80;
        bind_group = some planes;
        last_updated = 300;
      });
}

abbrev worker_state : ClusterState
worker_state = load 3 (idle 3 workers) false (run_plane ∷ idle 3 workers ∷ [])

worker_outside : is_node_control_plane worker_state ≡ false
unfolding load load_control_planes collect insert_node filter_by contains_node
worker_outside = refl

worker_joins : is_joinable worker_state ≡ true
unfolding load load_control_planes collect insert_node filter_by is_joinable contains_node
    is_control_plane_running
worker_joins = refl

joins_worker_example :
    All (λ (node : Node). node.is_running ≡ true) worker_state.control_planes
    × (is_default worker_state.owner_group ≡ false → 0 < length worker_state.control_planes)
joins_worker_example = joins_worker worker_state worker_outside worker_joins

All-is_ready : All (λ (node : Node). node.is_ready ≡ true) first_state.control_planes
unfolding load load_control_planes collect insert_node filter_by
All-is_ready = (refl, (refl, tt))

stopped : any_stopped first_state.control_planes ≡ true
unfolding load load_control_planes collect insert_node filter_by any_stopped
stopped = refl

joins_next_example : (uuid : ℕ) × (is_joinable (record first_state { owner_uuid = uuid }) ≡ true)
joins_next_example = joins_next first_state All-is_ready stopped

addressed : All (λ (node : Node). is_some node.ip ≡ true) (etcd_nodes first_state)
unfolding load load_control_planes collect insert_node filter_by etcd_nodes running_with sort insert
addressed = (refl, tt)

etcd_hosts_odd_example :
    (length (etcd_hosts first_state) % 2 ≡ 1) × (0 < 3 → length (etcd_hosts first_state) ≤ 3)
unfolding load
etcd_hosts_odd_example = etcd_hosts_odd first_state is_plane addressed

-- Three control planes run, of which one has no address: two hosts are printed.
abbrev running_node : ℕ → Option ℕ → Node
running_node uuid ip = record {
  created_at = some uuid;
  ip = ip;
  is_ready = true;
  is_running = true;
  uuid = uuid;
}

abbrev two_addresses : ClusterState
two_addresses = record first_state {
  control_planes = running_node 1 (some 80) ∷ running_node 2 none ∷ running_node 3 (some 82) ∷ [];
}

even_hosts : etcd_hosts two_addresses ≡ (1, 80) ∷ (3, 82) ∷ []
unfolding load etcd_hosts hosts etcd_nodes running_with filter_by sort insert
even_hosts = refl
