-- ===== src/Dash/Job/Life.antt =====
-- The object of a job and of its marked deletion.
use open_ark.Prelude.{
  ℕ, Bool, true, false, Option, none, some, List, [], ◌∷◌, ◌++◌, ◌+◌, ◌≤◌, ◌≡◌, refl, ap, ◌∙◌, ok,
  All,
}
use open_ark.Dash.{JobState, pending, running, error, completed, deleting, JobCrd, ApiServer}
use open_ark.Dash.Job.{JobWorld, job_state, is_deleting, has_finalizer, gc_timeout, turn, turns}
use open_ark.Dash.Job.Ends.{
  held_at, turn-add, turn-start, turn-watch, turn-close, turn-mark, turn-collect, turn-free,
}

turns-none : (server : ApiServer) (ws : List JobWorld) → turns server ws none ≡ none
unfolding turns turn
turns-none server [] = refl
turns-none server (w ∷ ws) = turns-none server ws

turns-append :
    (server : ApiServer) (vs ws : List JobWorld) (job : Option JobCrd)
    → turns server (vs ++ ws) job ≡ turns server ws (turns server vs job)
unfolding turns
turns-append server [] ws job = refl
turns-append server (v ∷ vs) ws job = turns-append server vs ws (turn server v job)

turns-watch :
    (server : ApiServer) (checks : List JobWorld) (channel : Option ℕ) (t : ℕ)
    → All (λ (w : JobWorld). w.exists ≡ ok true) checks
    → turns server checks (some (held_at channel running t)) ≡ some (held_at channel running t)
unfolding turns
turns-watch server [] channel t h = refl
turns-watch server (w ∷ checks) channel t (exists, h) =
    ap (turns server checks) (turn-watch server w channel t exists)
    ∙ turns-watch server checks channel t h

is_deleting-eq : (s : JobState) → is_deleting s ≡ true → s ≡ deleting
is_deleting-eq pending e = absurd (cc)
is_deleting-eq running e = absurd (cc)
is_deleting-eq error e = absurd (cc)
is_deleting-eq completed e = absurd (cc)
is_deleting-eq deleting e = refl

module _ (server : ApiServer) (mark free : JobWorld) (job : JobCrd) (first last : ℕ)
    (h_mark : mark.accepts ≡ true) (h_free : free.accepts ≡ true) (del : job.is_deleted ≡ true)
    (held : has_finalizer job.finalizers ≡ true) (deleted : mark.delete ≡ ok first)
    (deleted' : free.delete ≡ ok last) where
  turns_on :
      (d : Bool)
      → is_deleting (job_state job) ≡ d
      → turn server free (turn server mark (some job)) ≡ none
  unfolding turn
  turns_on true e =
      ap (turn server free)
        (turn-free server mark h_mark job first del held (is_deleting-eq (job_state job) e) deleted)
  turns_on false e =
      ap (turn server free) (turn-mark server mark h_mark job del e)
      ∙ turn-free server free h_free _ last del held refl deleted'

-- A job that is marked for deletion and holds the finalizer is gone after two reconciles, whatever
-- its state is, if Kubernetes accepts their requests and the session can be deleted at both.
pub job_deleted :
    (server : ApiServer) (mark free : JobWorld) (job : JobCrd) (first last : ℕ)
    → mark.accepts ≡ true
    → free.accepts ≡ true
    → job.is_deleted ≡ true
    → has_finalizer job.finalizers ≡ true
    → mark.delete ≡ ok first
    → free.delete ≡ ok last
    → turns server (mark ∷ free ∷ []) (some job) ≡ none
unfolding turns
job_deleted server mark free job first last h_mark h_free del held deleted deleted' =
    turns_on server mark free job first last h_mark h_free del held deleted deleted'
      (is_deleting (job_state job)) refl

-- A new job without the finalizer ends: one reconcile adds the finalizer, the next starts the
-- session, any number of them find it running, one finds it ended and stores `Completed` with the
-- channel of the deleted session; once the timeout has passed, three more remove the object. It is
-- assumed that Kubernetes accepts their requests, and that the session is created and deleted.
pub job_completes :
    (server : ApiServer) (names : List ℕ) (add start : JobWorld) (checks : List JobWorld)
    (close collect mark free : JobWorld) (first last freed : ℕ)
    → has_finalizer names ≡ false
    → add.accepts ≡ true
    → start.accepts ≡ true
    → start.create ≡ ok first
    → All (λ (w : JobWorld). w.exists ≡ ok true) checks
    → close.accepts ≡ true
    → close.exists ≡ ok false
    → close.delete ≡ ok last
    → collect.accepts ≡ true
    → gc_timeout + close.later ≤ collect.now
    → mark.accepts ≡ true
    → free.accepts ≡ true
    → free.delete ≡ ok freed
    → (turns server
          (add ∷ start ∷ checks ++ close ∷ [])
          (some (record { is_deleted = false; finalizers = names; status = none }))
        ≡ some (held_at (some last) completed close.later))
      × (turns server
            (collect ∷ mark ∷ free ∷ [])
            (some (held_at (some last) completed close.later))
          ≡ none)
unfolding turns
job_completes server names add start checks close collect mark free first last freed unheld h_add
      h_start created h_checks h_close gone deleted h_collect old h_mark h_free deleted' =
    (
      turns-append server (add ∷ start ∷ checks) (close ∷ []) _
          ∙ ap (λ o. turn server close (turns server checks (turn server start o)))
              (turn-add server add h_add none names unheld)
          ∙ ap (λ o. turn server close (turns server checks o))
              (turn-start server start h_start none first refl created)
          ∙ ap (turn server close) (turns-watch server checks (some first) start.later h_checks)
          ∙ turn-close server close h_close (some first) start.later last gone deleted,
      ap (λ o. turn server free (turn server mark o))
            (turn-collect server collect h_collect (some last) close.later old)
          ∙ ap (turn server free) (turn-mark server mark h_mark _ refl refl)
          ∙ turn-free server free h_free _ freed refl refl refl deleted',
    )
