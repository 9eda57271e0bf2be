-- ===== src/Dash/Examples.antt =====
-- A job at work: a server that keeps one object, and the theorems at it.
use open_ark.Prelude.{
  ℕ, true, false, Option, none, some, List, [], ◌∷◌, ◌++◌, ◌≡◌, ◌≢◌, refl, ok, if◌then◌else◌,
  if_rule, arith,
}
use open_ark.Dash.{
  running, completed, deleting, JobCrd, Call, put_status, put_finalizers, remove, ApiServer,
}
use open_ark.Dash.Job.{JobWorld, job_state, manage, reconcile_job, turn, turns}
use open_ark.Dash.Job.Moves.{JobRunOk, reconcile_job_sound}
use open_ark.Dash.Job.Ends.{held_at, job_gone}
use open_ark.Dash.Job.Life.{job_deleted, job_completes}

abbrev mark_deleted : JobCrd → List ℕ → Option JobCrd
mark_deleted job [] = none
mark_deleted job (name ∷ names) = some (record job { is_deleted = true })

abbrev keep : Call → JobCrd → Option JobCrd
keep (put_status st) job = some (record job { status = some st })
keep (put_finalizers []) job =
    if job.is_deleted then none else some (record job { finalizers = [] })
keep (put_finalizers (name ∷ names)) job = some (record job { finalizers = name ∷ names })
keep remove job = mark_deleted job job.finalizers

keep_finalizers :
    (names : List ℕ) (job : JobCrd)
    → job.is_deleted ≡ false
    → keep (put_finalizers names) job ≡ some (record job { finalizers = names })
keep_finalizers [] job alive =
    if_rule (λ o. o ≡ some (record job { finalizers = [] })) job.is_deleted (λ h. absurd (cc))
      (λ _. refl)
keep_finalizers (name ∷ names) job alive = refl

keep_added :
    (name : ℕ) (names : List ℕ) (job : JobCrd) → keep (put_finalizers (name ∷ names)) job ≢ none
keep_added name names job e = absurd (cc)

keep_freed : (job : JobCrd) → job.is_deleted ≡ true → keep (put_finalizers []) job ≡ none
keep_freed job marked = if_rule (λ o. o ≡ none) job.is_deleted (λ _. refl) (λ h. absurd (cc))

mark_nonempty :
    (job : JobCrd) (names : List ℕ)
    → names ≢ []
    → mark_deleted job names ≡ some (record job { is_deleted = true })
mark_nonempty job [] h = absurd (h refl)
mark_nonempty job (name ∷ names) h = refl

abbrev keeper : ApiServer
keeper = record {
  serve = keep;
  serve_status = λ st job. refl;
  serve_finalizers = keep_finalizers;
  serve_added = keep_added;
  serve_freed = keep_freed;
  serve_marked = λ job h. mark_nonempty job job.finalizers h;
}

abbrev at_time : ℕ → JobWorld
at_time now = record {
  now = now;
  later = now;
  accepts = true;
  create = ok 1;
  exists = ok true;
  delete = ok 2;
}

abbrev gone_at : ℕ → JobWorld
gone_at now = record (at_time now) { exists = ok false }

abbrev leaving : JobCrd
leaving = record (held_at (some 1) deleting 5) { is_deleted = true }

reconcile_job_sound_example :
    JobRunOk
      (at_time 9)
      (held_at (some 1) running 5)
      (reconcile_job (at_time 9) (held_at (some 1) running 5))
reconcile_job_sound_example = reconcile_job_sound (at_time 9) (held_at (some 1) running 5)

leaving_gone : turn keeper (at_time 9) (some leaving) ≡ none
unfolding turn reconcile_job manage
leaving_gone = refl

job_gone_example :
    (job_state leaving ≡ deleting)
    × ((channel : ℕ) × ((λ (w : JobWorld). w.delete) (at_time 9) ≡ ok channel))
job_gone_example = job_gone keeper (at_time 9) leaving leaving_gone

job_deleted_example :
    turns keeper
      (at_time 9 ∷ at_time 10 ∷ [])
      (some (record (held_at (some 1) running 5) { is_deleted = true }))
    ≡ none
job_deleted_example =
    job_deleted keeper (at_time 9) (at_time 10)
      (record (held_at (some 1) running 5) { is_deleted = true }) 2 2 refl refl refl refl refl refl

job_completes_example :
    (turns keeper
        (at_time 1 ∷ at_time 2 ∷ (at_time 32 ∷ []) ++ gone_at 62 ∷ [])
        (some (record { is_deleted = false; finalizers = 3 ∷ []; status = none }))
      ≡ some (held_at (some 2) completed 62))
    × (turns keeper
          (at_time 1262 ∷ at_time 1263 ∷ at_time 1264 ∷ [])
          (some (held_at (some 2) completed 62))
        ≡ none)
job_completes_example =
    job_completes keeper (3 ∷ []) (at_time 1) (at_time 2) (at_time 32 ∷ []) (gone_at 62)
      (at_time 1262) (at_time 1263) (at_time 1264) 1 2 2 refl refl refl refl (refl, tt) refl refl
      refl refl (omega arith) refl refl refl
