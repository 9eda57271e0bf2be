-- ===== src/Kiss/Monitor.antt =====
-- The monitor of the Ansible jobs, crates/kiss/monitor/src/ctx.rs: it moves a box when its job ends.
--
-- A label is what its text parses to; `none` stands for one that is missing or does not parse.
use open_ark.Prelude.{ℕ, Bool, false, Option, none, some, if◌then◌else◌, unwrap_or, Result, ok, err}
use open_ark.Prelude.Int.{ℤ, pos, ltb_ℤ}
use open_ark.Kiss.{
  BoxState, failed, BoxCrd, Action, requeue, await_change, fallback, KubeError, kube_error,
}

-- A `Job`, with the labels and the counts that the monitor reads.
pub record Job : Type 0 where
  pub box_name : Option ℕ
  pub critical : Option Bool
  pub completed_state : Option BoxState
  pub succeeded : Option ℤ
  pub failures : Option ℤ

-- What a run of the monitor asks for: a state for a box.
pub record Update : Type 0 where
  pub box_name : ℕ
  pub state : BoxState

pub record MonitorRun : Type 0 where
  pub update : Option Update
  pub result : Result KubeError Action

-- `update_box_state`
unfoldable pub update_box_state : Bool → ℕ → BoxState → MonitorRun
update_box_state accepts box_name state =
    if accepts
    then record {
      update = some (record { box_name = box_name; state = state });
      result = ok (requeue fallback);
    }
    else record { update = none; result = err kube_error }

-- `is_critical`
abbrev pub is_critical : Job → Bool
is_critical job = elim job.critical [ none ↦ false | some b ↦ b ]

abbrev pub counted : Option ℤ → Bool
counted count = ltb_ℤ (pos 0) (unwrap_or count (pos 0))

-- The part of `reconcile` for a job of a box that is not critical.
unfoldable pub follow : Bool → ℕ → Job → MonitorRun
follow accepts box_name job =
    if counted job.succeeded
    then (elim job.completed_state [
      | some state ↦ update_box_state accepts box_name state
      | none ↦ record { update = none; result = ok (requeue fallback) }
    ])
    else if counted job.failures
    then update_box_state accepts box_name failed
    else record { update = none; result = ok (requeue fallback) }

-- `reconcile`
unfoldable pub monitor : Bool → Job → MonitorRun
monitor accepts job = elim job.box_name [
  | none ↦ record { update = none; result = ok await_change }
  | some box_name ↦
      if is_critical job
      then record { update = none; result = ok await_change }
      else follow accepts box_name job
]

-- The server-side apply of `update_box_state`: the state and the time are set, the rest stays.
abbrev pub apply_state : ℕ → BoxState → BoxCrd → BoxCrd
apply_state now state box = elim box.status [
  | none ↦ record box {
    status = some (record { state = state; access = none; bind_group = none; last_updated = now });
  }
  | some status ↦ record box { status = some (record status { state = state; last_updated = now }) }
]
