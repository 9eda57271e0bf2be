-- ===== src/Kiss.antt =====
-- Kiss, which provisions the boxes (machines) of a cluster: the resource of a box,
-- crates/kiss/api/src/box.rs, and what the controllers of crates/ark/core/k8s/src/manager.rs return.
--
-- Times are in seconds. A name, an address, a machine's id is a number that stands for it. A merge
-- patch of a `BoxStatus` writes every field of it, since a `None` is written as `null`, which
-- removes the old value.
pub mod Groups
pub mod Operator
pub mod Monitor
pub mod Gateway
pub mod Cluster
pub mod System
pub mod Examples
use open_ark.Prelude.{
  ℕ, Bool, true, false, Option, none, some, PartialEq, eqb, ◌&&◌, ◌≡◌, ◌↔◌, refl, ap, arith,
}

pub data BoxState : Type 0 where
  fresh commissioning ready joining running group_changed failed disconnected : BoxState

pub data Task : Type 0 where
  commission join ping reset : Task

-- The one schedule in use, `@hourly`.
pub data Cron : Type 0 where
  hourly : Cron

-- `BoxState::as_task`
abbrev pub as_task : BoxState → Option Task
as_task fresh = none
as_task commissioning = some commission
as_task ready = none
as_task joining = some join
as_task running = some ping
as_task group_changed = some reset
as_task failed = some reset
as_task disconnected = some reset

-- `BoxState::cron`
abbrev pub cron : BoxState → Option Cron
cron fresh = none
cron commissioning = none
cron ready = none
cron joining = none
cron running = some hourly
cron group_changed = some hourly
cron failed = some hourly
cron disconnected = some hourly

-- `BoxState::next`
abbrev pub next : BoxState → BoxState
next fresh = commissioning
next commissioning = commissioning
next ready = joining
next joining = joining
next running = running
next group_changed = group_changed
next failed = failed
next disconnected = disconnected

-- `BoxState::timeout`, two hours where there is one
abbrev pub timeout : BoxState → Option ℕ
timeout fresh = none
timeout commissioning = some 7200
timeout ready = none
timeout joining = some 7200
timeout running = none
timeout group_changed = none
timeout failed = none
timeout disconnected = none

-- `BoxState::timeout_new`
abbrev pub timeout_new : ℕ
timeout_new = 30

-- `BoxState::complete`
abbrev pub complete : BoxState → Option BoxState
complete fresh = none
complete commissioning = none
complete ready = none
complete joining = some running
complete running = none
complete group_changed = none
complete failed = none
complete disconnected = none

pub data BoxGroupRole : Type 0 where
  control_plane compute dashboard desktop gateway storage robot generic_worker external_worker :
      BoxGroupRole

-- A number for a role and for a state, by which their derived equality is read.
abbrev pub role_index : BoxGroupRole → ℕ
role_index control_plane = 0
role_index compute = 1
role_index dashboard = 2
role_index desktop = 3
role_index gateway = 4
role_index storage = 5
role_index robot = 6
role_index generic_worker = 7
role_index external_worker = 8

abbrev pub state_index : BoxState → ℕ
state_index fresh = 0
state_index commissioning = 1
state_index ready = 2
state_index joining = 3
state_index running = 4
state_index group_changed = 5
state_index failed = 6
state_index disconnected = 7

abbrev pub role_eqb : BoxGroupRole → BoxGroupRole → Bool
role_eqb a b = eqb (role_index a) (role_index b)

abbrev pub state_eqb : BoxState → BoxState → Bool
state_eqb a b = eqb (state_index a) (state_index b)

-- `BoxGroupSpec`
pub record BoxGroupSpec : Type 0 where
  pub cluster_name : ℕ
  pub role : BoxGroupRole

-- `DEFAULT_CLUSTER_NAME`
abbrev pub default_cluster_name : ℕ
default_cluster_name = 0

-- `BoxGroupSpec::default`
abbrev pub default_group : BoxGroupSpec
default_group = record { cluster_name = default_cluster_name; role = generic_worker }

-- `BoxGroupSpec::is_default`
abbrev pub is_default : BoxGroupSpec → Bool
is_default group = eqb group.cluster_name default_cluster_name

-- The derived equality of `BoxGroupSpec`.
abbrev pub group_eqb : BoxGroupSpec → BoxGroupSpec → Bool
group_eqb a b = eqb a.cluster_name b.cluster_name && role_eqb a.role b.role

-- `BoxStatus`; `access` is the address of the primary interface, if there is one.
pub record BoxStatus : Type 0 where
  pub state : BoxState
  pub access : Option ℕ
  pub bind_group : Option BoxGroupSpec
  pub last_updated : ℕ

-- `BoxCrd`, with the parts of its metadata and its spec that the code reads.
pub record BoxCrd : Type 0 where
  pub uuid : ℕ
  pub creation_timestamp : Option ℕ
  pub group : BoxGroupSpec
  pub power : Option ℕ
  pub status : Option BoxStatus

-- `BoxCrd::last_updated`
abbrev pub last_updated : BoxCrd → Option ℕ
last_updated box = elim box.status [
  | none ↦ box.creation_timestamp
  | some status ↦ some status.last_updated
]

-- `Action`: look again after some seconds, or when the object changes.
pub data Action : Type 0 where
  requeue : ℕ → Action
  await_change : Action

-- `Ctx::FALLBACK` of the managers, 30 minutes.
abbrev pub fallback : ℕ
fallback = 1800

-- An error of the Kubernetes API.
pub data KubeError : Type 0 where
  kube_error : KubeError
