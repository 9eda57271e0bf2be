-- ===== src/Kiss/System.antt =====
-- A box under all of its controllers: the steps that the operator (crates/kiss/operator), the
-- monitor (crates/kiss/monitor), the gateway (crates/kiss/gateway) and an administrator make, in any
-- order, with the Ansible jobs (crates/kiss/ansible/src/lib.rs) that were spawned on the way.
--
-- A job that was spawned may be followed at any time, also after a later one replaced it: the
-- deletion of the old jobs is a request that the cluster serves in the background.
pub mod Safe
use mathlib.Core.List.{Memᴰ}
use open_ark.Prelude.{
  ℕ, ◌≡◌, ◌≢◌, ◌⊎◌, ◌∙◌, refl, sym, Bool, false, inl, inr, Option, none, some, List, ◌∷◌, and_then,
  if_rule, Option-cases,
}
use open_ark.Prelude.Int.{ℤ}
use open_ark.Kiss.{
  BoxState, fresh, commissioning, ready, joining, running, group_changed, failed, disconnected,
  complete, BoxGroupSpec, BoxStatus, BoxCrd,
}
use open_ark.Kiss.Operator.{World, Run, AnsibleJob, reconcile, state_of, bind_group_of}
use open_ark.Kiss.Operator.Moves.{
  Moves, begin, give_up, join, rejoin, expire_commission, expire_join, regroup,
}
use open_ark.Kiss.Operator.Effect.{reconcile_sound}
use open_ark.Kiss.Monitor.{
  Job, MonitorRun, monitor, Update, apply_state, update_box_state, follow, counted,
}
use open_ark.Kiss.Gateway.{
  Calls, Reply, BoxNewQuery, BoxCommissionQuery, get_new, post_commission, register, commission_box,
}

pub record System : Type 0 where
  pub box : BoxCrd
  pub jobs : List AnsibleJob

-- `LABEL_COMPLETED_STATE` of the job that `AnsibleClient::spawn` makes.
abbrev pub completed_state : AnsibleJob → Option BoxState
completed_state job = and_then job.new_state complete

-- The job, as the monitor sees it once it has `succeeded` and `failures` pods.
abbrev pub seen : ℕ → AnsibleJob → Option ℤ → Option ℤ → Job
seen box_name job succeeded failures = record {
  box_name = some box_name;
  critical = some false;
  completed_state = completed_state job;
  succeeded = succeeded;
  failures = failures;
}

-- The box after a run of the operator, and after one of the monitor.
abbrev pub operated : BoxCrd → Run → BoxCrd
operated box run = elim run.patch [ none ↦ box | some status ↦ record box { status = some status } ]

abbrev pub spawned_jobs : List AnsibleJob → Run → List AnsibleJob
spawned_jobs jobs run = elim run.job [ none ↦ jobs | some job ↦ job ∷ jobs ]

abbrev pub updated : ℕ → BoxCrd → Option Update → BoxCrd
updated now box update = elim update [ none ↦ box | some u ↦ apply_state now u.state box ]

-- What is stored under the name of the box; it is never removed.
abbrev pub stored_box : BoxCrd → Option BoxCrd → BoxCrd
stored_box box stored = elim stored [ none ↦ box | some box' ↦ box' ]

pub data Step : System → System → Type 0 where
  operates :
      (w : World) (s : System)
      → Step s (record {
        box = operated s.box (reconcile w s.box);
        jobs = spawned_jobs s.jobs (reconcile w s.box);
      })
  follows :
      (now : ℕ) (accepts : Bool) (job : AnsibleJob) (succeeded failures : Option ℤ) (s : System)
      → Memᴰ job s.jobs
      → Step s (record s {
        box = updated now s.box (monitor accepts (seen s.box.uuid job succeeded failures)).update;
      })
  registers :
      (calls : Calls) (now : ℕ) (query : BoxNewQuery) (s : System)
      → Step s (record s { box = stored_box s.box (get_new calls now query (some s.box)).stored })
  commissions :
      (calls : Calls) (now : ℕ) (query : BoxCommissionQuery) (s : System)
      → Step s (record s {
        box = stored_box s.box (post_commission calls now query (some s.box)).stored;
      })
  moves_group :
      (group : BoxGroupSpec) (s : System)
      → Step s (record s { box = record s.box { group = group } })

pub data Steps : System → System → Type 0 where
  done : {s : System} → Steps s s
  step : {s t u : System} → Steps s t → Step t u → Steps s u
