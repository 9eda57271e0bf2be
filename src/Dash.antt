-- ===== src/Dash.antt =====
-- Dash, which runs jobs of tasks: the resource of a job, crates/dash/api/src/job.rs, and what the
-- reconcilers ask of Kubernetes.
--
-- A finalizer, a channel of a task is a number that stands for it; times are in seconds.
pub mod Job
pub mod Examples
use open_ark.Prelude.{ℕ, Bool, true, false, Option, none, some, List, [], ◌∷◌, ◌≡◌, ◌≢◌}

pub data JobState : Type 0 where
  pending running error completed deleting : JobState

-- `DashJobStatus`
pub record JobStatus : Type 0 where
  pub channel : Option ℕ
  pub state : JobState
  pub last_updated : ℕ

-- `DashJobCrd`: of its metadata, whether a deletion timestamp is set, and the finalizers.
pub record JobCrd : Type 0 where
  pub is_deleted : Bool
  pub finalizers : List ℕ
  pub status : Option JobStatus

-- `DashJobCrd::FINALIZER_NAME`
abbrev pub finalizer_name : ℕ
finalizer_name = 7

-- A request that changes the object of a job.
pub data Call : Type 0 where
  put_status : JobStatus → Call
  put_finalizers : List ℕ → Call
  remove : Call

-- What Kubernetes documents of a request that it accepts: `none` where the object is gone. A status
-- is stored; an object with finalizers is only marked by a deletion; a marked object goes with its
-- last finalizer, and no other patch makes it go.
pub record ApiServer : Type 0 where
  pub serve : Call → JobCrd → Option JobCrd
  pub serve_status :
      (st : JobStatus) (job : JobCrd)
      → serve (put_status st) job ≡ some (record job { status = some st })
  pub serve_finalizers :
      (names : List ℕ) (job : JobCrd)
      → job.is_deleted ≡ false
      → serve (put_finalizers names) job ≡ some (record job { finalizers = names })
  pub serve_added :
      (name : ℕ) (names : List ℕ) (job : JobCrd) → serve (put_finalizers (name ∷ names)) job ≢ none
  pub serve_freed : (job : JobCrd) → job.is_deleted ≡ true → serve (put_finalizers []) job ≡ none
  pub serve_marked :
      (job : JobCrd)
      → job.finalizers ≢ []
      → serve remove job ≡ some (record job { is_deleted = true })
