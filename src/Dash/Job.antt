-- ===== src/Dash/Job.antt =====
-- The reconcile of a job, crates/dash/operator/src/ctx/job.rs, with the finalizers of
-- crates/ark/core/k8s/src/manager.rs.
pub mod Moves
pub mod Ends
pub mod Life
use open_ark.Prelude.{
  ℕ, Bool, true, false, not, ◌&&◌, Option, none, some, List, [], ◌∷◌, ◌+◌, eqb, leb, if◌then◌else◌,
  Result, ok, err,
}
use open_ark.Kiss.{Action, requeue, await_change, KubeError, kube_error}
use open_ark.Dash.{
  JobState, pending, running, error, completed, deleting, JobStatus, JobCrd, finalizer_name, Call,
  put_status, put_finalizers, remove, ApiServer,
}

-- What a reconcile meets: its time and that of its patch, whether Kubernetes accepts its request,
-- and what the session of the task answers.
pub record JobWorld : Type 0 where
  pub now : ℕ
  pub later : ℕ
  pub accepts : Bool
  pub create : Result KubeError ℕ
  pub exists : Result KubeError Bool
  pub delete : Result KubeError ℕ

-- What a reconcile does: the request that was accepted, and what it returns.
pub record JobRun : Type 0 where
  pub call : Option Call
  pub result : Result KubeError Action

-- `Ctx::FALLBACK`
abbrev pub job_fallback : ℕ
job_fallback = 30

-- `completed_job_gc_timeout`, twenty minutes
abbrev pub gc_timeout : ℕ
gc_timeout = 1200

abbrev pub job_state : JobCrd → JobState
job_state job = elim job.status [ none ↦ pending | some st ↦ st.state ]

abbrev pub is_deleting : JobState → Bool
is_deleting pending = false
is_deleting running = false
is_deleting error = false
is_deleting completed = false
is_deleting deleting = true

abbrev pub channel_of : JobCrd → Option ℕ
channel_of job = elim job.status [ none ↦ none | some st ↦ st.channel ]

abbrev pub has_finalizer : List ℕ → Bool
has_finalizer [] = false
has_finalizer (name ∷ names) = if eqb name finalizer_name then true else has_finalizer names

-- A request, and what is returned where it is accepted.
abbrev pub request : JobWorld → Call → Action → JobRun
request w call action =
    if w.accepts
    then record { call = some call; result = ok action }
    else record { call = none; result = ok (requeue job_fallback) }

abbrev pub idle_for : ℕ → JobRun
idle_for seconds = record { call = none; result = ok (requeue seconds) }

-- `update_spec_or_requeue`
abbrev pub update_spec_or_requeue : JobWorld → Option ℕ → JobState → JobRun
update_spec_or_requeue w channel state =
    request w (put_status (record { channel = channel; state = state; last_updated = w.later }))
      (requeue job_fallback)

-- `.map(|_| Action::await_change())`
abbrev pub then_await : JobRun → JobRun
then_await run = record run {
  result = elim run.result [ ok action ↦ ok await_change | err e ↦ err e ];
}

-- `add_finalizer_or_requeue`: a merge patch writes the whole list.
abbrev pub add_finalizer_or_requeue : JobWorld → JobRun
add_finalizer_or_requeue w = request w (put_finalizers (finalizer_name ∷ [])) await_change

-- `remove_finalizer_or_requeue`
abbrev pub remove_finalizer_or_requeue : JobWorld → JobRun
remove_finalizer_or_requeue w = request w (put_finalizers []) await_change

-- `delete_or_requeue`
abbrev pub delete_or_requeue : JobWorld → JobRun
delete_or_requeue w = request w remove await_change

-- The test of an ended job for its collection.
abbrev pub is_expired : JobWorld → JobCrd → Bool
is_expired w job = elim job.status [
  | none ↦ true
  | some st ↦ leb (gc_timeout + st.last_updated) w.now
]

-- The branch of `Running`, on the answers of the session.
abbrev pub close_session : JobWorld → Result KubeError ℕ → JobRun
close_session w (ok channel) = then_await (update_spec_or_requeue w (some channel) completed)
close_session w (err e) = idle_for job_fallback

abbrev pub watch : JobWorld → Result KubeError Bool → JobRun
watch w (ok true) = idle_for job_fallback
watch w (ok false) = close_session w w.delete
watch w (err e) = idle_for job_fallback

-- The branch of `Pending`.
abbrev pub start_session : JobWorld → Result KubeError ℕ → JobRun
start_session w (ok channel) = update_spec_or_requeue w (some channel) running
start_session w (err e) = then_await (update_spec_or_requeue w none error)

-- The branch of `Deleting`.
abbrev pub finalize : JobWorld → Result KubeError ℕ → JobRun
finalize w (ok channel) = remove_finalizer_or_requeue w
finalize w (err e) = idle_for job_fallback

-- The branch of `Error` and `Completed`.
abbrev pub collect_job : JobWorld → JobCrd → JobRun
collect_job w job = if is_expired w job then delete_or_requeue w else idle_for gc_timeout

-- The `match` on the state.
unfoldable pub manage : JobWorld → JobCrd → JobState → JobRun
manage w job pending = start_session w w.create
manage w job running = watch w w.exists
manage w job error = collect_job w job
manage w job completed = collect_job w job
manage w job deleting = finalize w w.delete

-- `reconcile`
unfoldable pub reconcile_job : JobWorld → JobCrd → JobRun
reconcile_job w job =
    if job.is_deleted && not (is_deleting (job_state job))
    then update_spec_or_requeue w (channel_of job) deleting
    else if not (has_finalizer job.finalizers)
    then add_finalizer_or_requeue w
    else manage w job (job_state job)

-- The object after a reconcile; one that is gone is not reconciled.
abbrev pub served : ApiServer → JobCrd → JobRun → Option JobCrd
served server job run = elim run.call [ none ↦ some job | some call ↦ server.serve call job ]

unfoldable pub turn : ApiServer → JobWorld → Option JobCrd → Option JobCrd
turn server w none = none
turn server w (some job) = served server job (reconcile_job w job)

unfoldable pub turns : ApiServer → List JobWorld → Option JobCrd → Option JobCrd
turns server [] job = job
turns server (w ∷ ws) job = turns server ws (turn server w job)
