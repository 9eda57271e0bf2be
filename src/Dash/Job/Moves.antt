-- ===== src/Dash/Job/Moves.antt =====
-- What a reconcile of a job asks for, and when an object goes.
use open_ark.Prelude.{
  not-eq-true, ℕ, Bool, true, false, not, ◌&&◌, Option, none, some, [], ◌∷◌, ◌+◌, ◌≤◌, ◌≡◌, ◌⊎◌,
  inl, inr, refl, sym, subst, if_rule, not-eq-false, Result, ok, err, arith,
}
use open_ark.Kiss.{Action, requeue, await_change, KubeError}
use open_ark.Dash.{
  JobState, pending, running, error, completed, deleting, JobStatus, JobCrd, finalizer_name, Call,
  put_status, put_finalizers, remove,
}
use open_ark.Dash.Job.{
  JobWorld, JobRun, job_state, is_deleting, channel_of, has_finalizer, gc_timeout, request,
  is_expired, close_session, watch, start_session, finalize, collect_job, manage, reconcile_job,
  then_await,
}

-- The moves of a job's state, with the channel that is stored.
pub data JobMove (w : JobWorld) (job : JobCrd) : JobState → Option ℕ → JobState → Type 0 where
  spawned : (channel : ℕ) → w.create ≡ ok channel → JobMove w job pending (some channel) running
  refused : (e : KubeError) → w.create ≡ err e → JobMove w job pending none error
  ended :
      (channel : ℕ)
      → w.exists ≡ ok false
      → w.delete ≡ ok channel
      → JobMove w job running (some channel) completed
  marked :
      (s : JobState)
      → job.is_deleted ≡ true
      → is_deleting s ≡ false
      → JobMove w job s (channel_of job) deleting

-- A job that has ended, and is old enough to go.
pub record IsOver (w : JobWorld) (job : JobCrd) : Type 0 where
  pub status : JobStatus
  pub stored : job.status ≡ some status
  pub has_ended : (status.state ≡ error) ⊎ (status.state ≡ completed)
  pub is_old : gc_timeout + status.last_updated ≤ w.now

-- What is right to ask for.
abbrev pub CallOk : JobWorld → JobCrd → Call → Type 0
CallOk w job (put_status st) =
    JobMove w job (job_state job) st.channel st.state × (st.last_updated ≡ w.later)
CallOk w job (put_finalizers []) =
    (job_state job ≡ deleting)
    × (has_finalizer job.finalizers ≡ true)
    × ((channel : ℕ) × (w.delete ≡ ok channel))
CallOk w job (put_finalizers (name ∷ names)) =
    (has_finalizer job.finalizers ≡ false) × (name ≡ finalizer_name) × (names ≡ [])
CallOk w job remove =
    (has_finalizer job.finalizers ≡ true) × (job.is_deleted ≡ false) × IsOver w job

abbrev pub JobRunOk : JobWorld → JobCrd → JobRun → Type 0
JobRunOk w job run = elim run.call [ none ↦ Unit | some call ↦ CallOk w job call ]

request-JobRunOk :
    (w : JobWorld) (job : JobCrd) (call : Call) (action : Action)
    → CallOk w job call
    → JobRunOk w job (request w call action)
request-JobRunOk w job call action h = if_rule (JobRunOk w job) w.accepts (λ _. h) (λ _. tt)

await-JobRunOk :
    (w : JobWorld) (job : JobCrd) (run : JobRun)
    → JobRunOk w job run
    → JobRunOk w job (then_await run)
await-JobRunOk w job run h = h

marked_parts : (b c : Bool) → b && not c ≡ true → (b ≡ true) × (c ≡ false)
marked_parts b c h = ground arith

and_true-false : (b : Bool) → b && true ≡ false → b ≡ false
and_true-false b h = ground arith

-- The state of a job that has ended stands in its status.
IsOver-IsOver :
    {w : JobWorld} {job : JobCrd}
    → (status : Option JobStatus) → job.status ≡ status
    → (job_state (record job { status = status }) ≡ error)
      ⊎ (job_state (record job { status = status }) ≡ completed)
    → is_expired w (record job { status = status }) ≡ true
    → IsOver w job
IsOver-IsOver none e over old = elim over [ inl h ↦ absurd (cc) | inr h ↦ absurd (cc) ]
IsOver-IsOver (some st) e over old = record {
  status = st;
  stored = e;
  has_ended = over;
  is_old = ground arith;
}

module _ (w : JobWorld) (job : JobCrd) where
  close_session-JobRunOk :
      (r : Result KubeError ℕ)
      → w.delete ≡ r
      → job_state job ≡ running
      → w.exists ≡ ok false
      → JobRunOk w job (close_session w r)
  close_session-JobRunOk (err x) e at_running gone = tt
  close_session-JobRunOk (ok channel) e at_running gone = request-JobRunOk w job _ (requeue 30) (
    subst (λ s. JobMove w job s (some channel) completed) (sym at_running) (ended channel gone e),
    refl,
  )

  watch-JobRunOk :
      (r : Result KubeError Bool)
      → w.exists ≡ r
      → job_state job ≡ running
      → JobRunOk w job (watch w r)
  watch-JobRunOk (err x) e at_running = tt
  watch-JobRunOk (ok true) e at_running = tt
  watch-JobRunOk (ok false) e at_running = close_session-JobRunOk w.delete refl at_running e

  start_session-JobRunOk :
      (r : Result KubeError ℕ)
      → w.create ≡ r
      → job_state job ≡ pending
      → JobRunOk w job (start_session w r)
  start_session-JobRunOk (ok channel) e at_pending = request-JobRunOk w job _ (requeue 30) (
    subst (λ s. JobMove w job s (some channel) running) (sym at_pending) (spawned channel e),
    refl,
  )
  start_session-JobRunOk (err x) e at_pending =
      request-JobRunOk w job _ (requeue 30)
        (subst (λ s. JobMove w job s none error) (sym at_pending) (refused x e), refl)

  module _ (held : has_finalizer job.finalizers ≡ true) where
    finalize-JobRunOk :
        (r : Result KubeError ℕ)
        → w.delete ≡ r
        → job_state job ≡ deleting
        → JobRunOk w job (finalize w r)
    finalize-JobRunOk (ok channel) e at_deleting =
        request-JobRunOk w job (put_finalizers []) await_change (at_deleting, held, (channel, e))
    finalize-JobRunOk (err x) e at_deleting = tt

    collect_job-JobRunOk :
        job.is_deleted ≡ false
        → (job_state job ≡ error) ⊎ (job_state job ≡ completed)
        → JobRunOk w job (collect_job w job)
    collect_job-JobRunOk alive over =
        if_rule (JobRunOk w job) (is_expired w job)
          (λ old.
            request-JobRunOk w job remove await_change
              (held, alive, IsOver-IsOver job.status refl over old))
          (λ _. tt)

    manage-JobRunOk :
        (s : JobState)
        → job_state job ≡ s
        → job.is_deleted && not (is_deleting s) ≡ false
        → JobRunOk w job (manage w job s)
    unfolding manage
    manage-JobRunOk pending e h = start_session-JobRunOk w.create refl e
    manage-JobRunOk running e h = watch-JobRunOk w.exists refl e
    manage-JobRunOk error e h = collect_job-JobRunOk (and_true-false job.is_deleted h) (inl e)
    manage-JobRunOk completed e h = collect_job-JobRunOk (and_true-false job.is_deleted h) (inr e)
    manage-JobRunOk deleting e h = finalize-JobRunOk w.delete refl e

-- Whatever the reconcile of a job asks for is right: a status is a move of the state machine, stored
-- with the time of the patch; the finalizer is added only to a job without it, and removed only from
-- a job that is being deleted, once its session has been deleted; a job is removed only when it has
-- ended, at least the timeout ago, and is not marked yet.
pub reconcile_job_sound : (w : JobWorld) (job : JobCrd) → JobRunOk w job (reconcile_job w job)
unfolding reconcile_job
reconcile_job_sound w job =
    if_rule (JobRunOk w job) (job.is_deleted && not (is_deleting (job_state job)))
      (λ h.
        let (del, s) = marked_parts job.is_deleted (is_deleting (job_state job)) h in
        request-JobRunOk w job _ (requeue 30) (marked (job_state job) del s, refl))
      (λ h.
        if_rule (JobRunOk w job) (not (has_finalizer job.finalizers))
          (λ free.
            request-JobRunOk w job (put_finalizers (finalizer_name ∷ [])) await_change
              (not-eq-true (has_finalizer job.finalizers) free, refl, refl))
          (λ held.
            manage-JobRunOk w job (not-eq-false (has_finalizer job.finalizers) held) (job_state job)
              refl h))
