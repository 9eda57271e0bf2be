-- ===== src/Dash/Job/Ends.antt =====
-- How the object of a job ends, with the requests that Kubernetes serves.
use open_ark.Prelude.{
  ℕ, Bool, true, false, not, ◌&&◌, Option, none, some, List, [], ◌∷◌, ◌+◌, ◌≤◌, ◌≡◌, ◌≢◌, refl, ap,
  ◌∙◌, leb, if_rule, Result, ok, arith,
}
use open_ark.Kiss.{Action, requeue, await_change, KubeError}
use open_ark.Dash.{
  JobState, pending, running, completed, deleting, JobStatus, JobCrd, finalizer_name, Call,
  put_status, put_finalizers, remove, ApiServer,
}
use open_ark.Dash.Job.{
  JobWorld, JobRun, job_state, is_deleting, channel_of, has_finalizer, gc_timeout, request,
  close_session, watch, start_session, finalize, manage, update_spec_or_requeue,
  remove_finalizer_or_requeue, delete_or_requeue, reconcile_job, served, turn,
}
use open_ark.Dash.Job.Moves.{JobRunOk, reconcile_job_sound}

finalizer_nonempty : (names : List ℕ) → has_finalizer names ≡ true → names ≢ []
finalizer_nonempty [] h e = absurd (cc)
finalizer_nonempty (name ∷ names) h e = absurd (cc)

call-gone :
    (server : ApiServer) (w : JobWorld) (job : JobCrd) (call : Option Call)
    (result : Result KubeError Action)
    → JobRunOk w job (record { call = call; result = result })
    → served server job (record { call = call; result = result }) ≡ none
    → (job_state job ≡ deleting) × ((channel : ℕ) × (w.delete ≡ ok channel))
call-gone server w job none result right gone = absurd (cc)
call-gone server w job (some (put_status st)) result right gone =
    let stored = server.serve_status st job in absurd (cc)
call-gone server w job (some (put_finalizers [])) result (at_deleting, held, deleted) gone =
    (at_deleting, deleted)
call-gone server w job (some (put_finalizers (name ∷ names))) result right gone =
    absurd (server.serve_added name names job gone)
call-gone server w job (some remove) result (held, alive, over) gone =
    let marked = server.serve_marked job (finalizer_nonempty job.finalizers held) in absurd (cc)

-- The object of a job goes with a reconcile only if the job was in the state `Deleting`, and its
-- session has been deleted without an error by that reconcile.
pub job_gone :
    (server : ApiServer) (w : JobWorld) (job : JobCrd)
    → turn server w (some job) ≡ none
    → (job_state job ≡ deleting) × ((channel : ℕ) × (w.delete ≡ ok channel))
unfolding turn
job_gone server w job gone =
    call-gone server w job ((λ (r : JobRun). r.call) (reconcile_job w job))
      ((λ (r : JobRun). r.result) (reconcile_job w job)) (reconcile_job_sound w job) gone

served-request :
    (server : ApiServer) (w : JobWorld) (job : JobCrd) (call : Call) (action : Action)
    → w.accepts ≡ true
    → served server job (request w call action) ≡ server.serve call job
served-request server w job call action accepted =
    if_rule (λ run. served server job run ≡ server.serve call job) w.accepts (λ _. refl)
      (λ refused. absurd (cc))

-- A job under the finalizer, with a status.
abbrev pub held_at : Option ℕ → JobState → ℕ → JobCrd
held_at channel state last_updated = record {
  is_deleted = false;
  finalizers = finalizer_name ∷ [];
  status = some (record { channel = channel; state = state; last_updated = last_updated });
}

marks_not : (b d : Bool) → d ≡ true → b && not d ≢ true
marks_not b d e h = ground arith

pub turn-watch :
    (server : ApiServer) (w : JobWorld) (channel : Option ℕ) (t : ℕ)
    → w.exists ≡ ok true
    → turn server w (some (held_at channel running t)) ≡ some (held_at channel running t)
unfolding turn reconcile_job manage
turn-watch server w channel t exists =
    ap (λ r. served server (held_at channel running t) (watch w r)) exists

module _ (server : ApiServer) (w : JobWorld) (accepted : w.accepts ≡ true) where
  turn-request :
      (job : JobCrd) (call : Call) (action : Action)
      → reconcile_job w job ≡ request w call action
      → turn server w (some job) ≡ server.serve call job
  unfolding turn
  turn-request job call action asks =
      ap (served server job) asks ∙ served-request server w job call action accepted

  pub turn-add :
      (status : Option JobStatus) (names : List ℕ)
      → has_finalizer names ≡ false
      → turn server w (some (record { is_deleted = false; finalizers = names; status = status }))
        ≡ some (record { is_deleted = false; finalizers = finalizer_name ∷ []; status = status })
  unfolding turn reconcile_job
  turn-add status names free =
      rw (free, served-request server w _ _ _ accepted)
        (server.serve_finalizers (finalizer_name ∷ []) _ refl)

  pub turn-start :
      (status : Option JobStatus) (channel : ℕ)
      → job_state (record { is_deleted = false; finalizers = []; status = status }) ≡ pending
      → w.create ≡ ok channel
      → turn server w
          (some (record { is_deleted = false; finalizers = finalizer_name ∷ []; status = status }))
        ≡ some (held_at (some channel) running w.later)
  unfolding reconcile_job manage
  turn-start status channel fresh created =
      turn-request _ _ (requeue 30) (
        ap
          (manage w
            (record { is_deleted = false; finalizers = finalizer_name ∷ []; status = status }))
          fresh
        ∙ ap (start_session w) created)
      ∙ server.serve_status _ _

  pub turn-close :
      (channel : Option ℕ) (t last : ℕ)
      → w.exists ≡ ok false
      → w.delete ≡ ok last
      → turn server w (some (held_at channel running t))
        ≡ some (held_at (some last) completed w.later)
  unfolding turn reconcile_job manage
  turn-close channel t last gone deleted =
      ap (λ r. served server (held_at channel running t) (watch w r)) gone
      ∙ ap (λ r. served server (held_at channel running t) (close_session w r)) deleted
      ∙ served-request server w (held_at channel running t)
          (put_status (record { channel = some last; state = completed; last_updated = w.later }))
          (requeue 30) accepted
      ∙ server.serve_status _ _

  pub turn-mark :
      (job : JobCrd)
      → job.is_deleted ≡ true
      → is_deleting (job_state job) ≡ false
      → turn server w (some job)
        ≡ some (record job {
          status =
              some (record { channel = channel_of job; state = deleting; last_updated = w.later });
        })
  unfolding reconcile_job
  turn-mark job del s =
      turn-request job _ (requeue 30) (
        if_rule (λ run. run ≡ update_spec_or_requeue w (channel_of job) deleting)
          (job.is_deleted && not (is_deleting (job_state job))) (λ _. refl) (λ h. absurd (cc)))
      ∙ server.serve_status _ job

  pub turn-collect :
      (channel : Option ℕ) (t : ℕ)
      → gc_timeout + t ≤ w.now
      → turn server w (some (held_at channel completed t))
        ≡ some (record (held_at channel completed t) { is_deleted = true })
  unfolding reconcile_job manage
  turn-collect channel t old =
      turn-request _ remove await_change (
        if_rule (λ run. run ≡ delete_or_requeue w) (leb (gc_timeout + t) w.now) (λ _. refl)
          (λ h. absurd (ground arith)))
      ∙ server.serve_marked _ (λ e. absurd (cc))

  pub turn-free :
      (job : JobCrd) (last : ℕ)
      → job.is_deleted ≡ true
      → has_finalizer job.finalizers ≡ true
      → job_state job ≡ deleting
      → w.delete ≡ ok last
      → turn server w (some job) ≡ none
  unfolding reconcile_job manage
  turn-free job last del held at_deleting deleted =
      turn-request job (put_finalizers []) await_change (
        if_rule (λ run. run ≡ remove_finalizer_or_requeue w)
          (job.is_deleted && not (is_deleting (job_state job)))
          (λ h.
            absurd (
              marks_not job.is_deleted (is_deleting (job_state job)) (ap is_deleting at_deleting)
                h))
          (λ _.
            if_rule (λ run. run ≡ remove_finalizer_or_requeue w)
              (not (has_finalizer job.finalizers)) (λ h. absurd (cc))
              (λ _. ap (manage w job) at_deleting ∙ ap (finalize w) deleted)))
      ∙ server.serve_freed job del
