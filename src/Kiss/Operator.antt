-- ===== src/Kiss/Operator.antt =====
-- The operator of the boxes, `reconcile` of crates/kiss/operator/src/ctx.rs.
--
-- What the code asks of others is in `World`: the two times it reads the clock, the configuration,
-- the spawning of an Ansible job, and whether a patch is accepted.
pub mod Moves
pub mod Effect
pub mod Progress
use open_ark.Prelude.{
  ℕ, ◌+◌, Bool, true, false, not, ◌&&◌, ◌||◌, Option, none, some, ltb, if◌then◌else◌, is_some,
  Result, ok, err,
}
use open_ark.Kiss.{
  BoxState, fresh, commissioning, ready, joining, running, group_changed, failed, disconnected,
  Task, Cron, as_task, cron, next, timeout, timeout_new, BoxGroupRole, generic_worker,
  external_worker, role_eqb, state_eqb, BoxGroupSpec, is_default, group_eqb, BoxStatus, BoxCrd,
  last_updated, Action, requeue, await_change, fallback, KubeError, kube_error,
}

-- `AnsibleJob`: what the operator asks to be spawned.
pub record AnsibleJob : Type 0 where
  pub cron : Option Cron
  pub task : Task
  pub new_group : Option BoxGroupSpec
  pub new_state : Option BoxState
  pub is_minimal : Bool

pub record World : Type 0 where
  pub now : ℕ
  pub later : ℕ
  pub group_enable_default_cluster : Option Bool
  pub spawn : AnsibleJob → Result KubeError Bool
  pub accepts_patch : Bool

-- What a run of `reconcile` does.
pub record Run : Type 0 where
  pub job : Option AnsibleJob
  pub patch : Option BoxStatus
  pub result : Result KubeError Action

-- A run that returns with nothing done.
abbrev pub return : Action → Run
return action = record { job = none; patch = none; result = ok action }

-- The status, with the defaults of the code where there is none.
abbrev pub state_of : BoxCrd → BoxState
state_of box = elim box.status [ none ↦ fresh | some status ↦ status.state ]

abbrev pub access_of : BoxCrd → Option ℕ
access_of box = elim box.status [ none ↦ none | some status ↦ status.access ]

abbrev pub bind_group_of : BoxCrd → Option BoxGroupSpec
bind_group_of box = elim box.status [ none ↦ none | some status ↦ status.bind_group ]

-- `is_bind_group_updated`
abbrev pub is_bind_group_updated : BoxCrd → Bool
is_bind_group_updated box = elim (bind_group_of box) [
  | none ↦ true
  | some group ↦ not (group_eqb group box.group)
]

-- `now > last_updated + limit`, where the time of the last update is known.
abbrev pub is_late : ℕ → BoxCrd → ℕ → Bool
is_late now box limit = elim (last_updated box) [
  | none ↦ false
  | some time ↦ ltb (time + limit) now
]

-- The wait of new boxes for an access; `err` is the early return.
unfoldable pub wait_access : ℕ → BoxCrd → BoxState → BoxState → Result Action BoxState
wait_access now box old_state new_state =
    if state_eqb old_state fresh && not (is_some (access_of box))
    then (if is_late now box timeout_new then ok disconnected else err (requeue timeout_new))
    else ok new_state

-- The capture of a timeout.
unfoldable pub check_timeout : ℕ → BoxCrd → BoxState → BoxState → BoxState
check_timeout now box old_state new_state = elim (timeout old_state) [
  | none ↦ new_state
  | some threshold ↦ if is_late now box threshold then failed else new_state
]

-- The capture of a change of the group.
unfoldable pub check_group : BoxCrd → BoxState → BoxState → BoxState
check_group box old_state new_state =
    if state_eqb old_state running && is_bind_group_updated box then disconnected else new_state

-- The state to move to, before the configuration is read.
abbrev pub target : ℕ → BoxCrd → BoxState → Result Action BoxState
target now box old_state = elim (wait_access now box old_state (next old_state)) [
  | err action ↦ err action
  | ok new_state ↦ ok (check_group box old_state (check_timeout now box old_state new_state))
]

-- `api.patch_status(…).await?`, and the return after it.
abbrev pub patch_status : World → Option AnsibleJob → BoxStatus → Run
patch_status w job status =
    if w.accepts_patch
    then record { job = job; patch = some status; result = ok (requeue fallback) }
    else record { job = job; patch = none; result = err kube_error }

-- The status that is written at last.
abbrev pub new_status : World → BoxCrd → BoxState → BoxStatus
new_status w box new_state = record {
  state = new_state;
  access = access_of box;
  bind_group = if state_eqb new_state joining then some box.group else bind_group_of box;
  last_updated = w.later;
}

-- What follows the spawning of a job, or its omission.
unfoldable pub finish : World → BoxCrd → BoxState → BoxState → Option AnsibleJob → Run
finish w box old_state new_state job =
    if state_eqb old_state new_state
    then record { job = job; patch = none; result = ok await_change }
    else patch_status w job (new_status w box new_state)

-- `AnsibleResourceType::Minimal`, for a box that may run a node.
abbrev pub is_minimal : BoxState → Bool
is_minimal fresh = false
is_minimal commissioning = false
is_minimal ready = false
is_minimal joining = false
is_minimal running = true
is_minimal group_changed = true
is_minimal failed = true
is_minimal disconnected = true

-- The job for a state.
abbrev pub job_of : BoxState → BoxState → Option BoxGroupSpec → Task → AnsibleJob
job_of old_state new_state new_group task = record {
  cron = cron new_state;
  task = task;
  new_group = new_group;
  new_state = some new_state;
  is_minimal = is_minimal old_state;
}

-- The spawning of the job and the patch.
unfoldable pub spawn_job : World → BoxCrd → BoxState → BoxState → Option BoxGroupSpec → Run
spawn_job w box old_state new_state new_group =
    if not (state_eqb old_state new_state) || is_some (cron new_state)
    then (elim (as_task new_state) [
      | none ↦ finish w box old_state new_state none
      | some task ↦
          let job = job_of old_state new_state new_group task in
          elim (w.spawn job) [
            | err e ↦ record { job = some job; patch = none; result = err e }
            | ok spawned ↦
                if spawned
                then finish w box old_state new_state (some job)
                else record { job = some job; patch = none; result = ok (requeue 60) }
          ]
    ])
    else return (requeue fallback)

-- The gate of joining.
unfoldable pub gate : World → BoxCrd → BoxState → Bool → BoxState → Run
gate w box old_state enabled new_state =
    if not (state_eqb old_state joining) && state_eqb new_state joining
    then (if role_eqb box.group.role external_worker
        then return (requeue fallback)
        else if not enabled && is_default box.group && role_eqb box.group.role generic_worker
        then return (requeue fallback)
        else if not (is_bind_group_updated box)
        then patch_status w none (record {
          state = running;
          access = access_of box;
          bind_group = bind_group_of box;
          last_updated = w.later;
        })
        else spawn_job w box old_state new_state (some box.group))
    else spawn_job w box old_state new_state none

-- What follows the choice of the state, by the configuration that is read.
unfoldable pub reconcile_on : World → BoxCrd → Result Action BoxState → Option Bool → Run
reconcile_on w box (err action) config = return action
reconcile_on w box (ok new_state) none = return (requeue fallback)
reconcile_on w box (ok new_state) (some enabled) = gate w box (state_of box) enabled new_state

-- `reconcile`
unfoldable pub reconcile : World → BoxCrd → Run
reconcile w box =
    reconcile_on w box (target w.now box (state_of box)) w.group_enable_default_cluster
