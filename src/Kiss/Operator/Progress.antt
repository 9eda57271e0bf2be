-- ===== src/Kiss/Operator/Progress.antt =====
-- The operator makes the moves of the state machine, where the job is spawned and the patch is
-- accepted, and otherwise leaves the box as it is.
use open_ark.Prelude.{
  ℕ, ◌≡◌, ◌≢◌, ◌∙◌, refl, sym, ap, subst, Bool, true, false, not, ◌&&◌, inl, inr, Option, none,
  some, if◌then◌else◌, is_some, Bool-cases, Option-cases, ok, arith,
}
use open_ark.Kiss.{
  BoxState, BoxGroupRole, fresh, commissioning, ready, joining, running, failed, disconnected,
  external_worker, role_eqb, state_eqb, BoxGroupSpec, BoxStatus, BoxCrd, timeout_new, as_task,
}
use open_ark.Kiss.Groups.{role_eqb_iff}
use open_ark.Kiss.Operator.{
  World, job_of, AnsibleJob, state_of, access_of, bind_group_of, is_bind_group_updated, is_late,
  wait_access, check_timeout, check_group, target, patch_status, new_status, finish, spawn_job,
  gate, reconcile_on, reconcile,
}
use open_ark.Kiss.Operator.Moves.{
  IsMember, Moves, begin, give_up, join, rejoin, expire_commission, expire_join, regroup,
  is_bind_group_updated_iff,
}

and_false : (b : Bool) → b && false ≡ false
and_false b = ground arith

not_role : (a b : BoxGroupRole) → a ≢ b → role_eqb a b ≡ false
not_role a b h = elim (Bool-cases (role_eqb a b)) [
  | inl e ↦ absurd (h ((role_eqb_iff a b).0 e))
  | inr e ↦ e
]

access_there : {A : Type 0} (o : Option A) → o ≢ none → is_some o ≡ true
access_there none h = absurd (h refl)
access_there (some a) h = refl

module _ (now : ℕ) (box : BoxCrd) where
  target-fresh_begins : is_some (access_of box) ≡ true → target now box fresh ≡ ok commissioning
  unfolding wait_access check_timeout check_group
  target-fresh_begins h = rw (target, wait_access, h)

  target-fresh_unreachable :
      is_some (access_of box) ≡ false
      → is_late now box timeout_new ≡ true
      → target now box fresh ≡ ok disconnected
  unfolding wait_access check_timeout check_group
  target-fresh_unreachable h late = rw (target, wait_access, h, late)

  target-ready : target now box ready ≡ ok joining
  unfolding wait_access check_timeout check_group
  target-ready = refl

  target-commissioning : is_late now box 7200 ≡ true → target now box commissioning ≡ ok failed
  unfolding wait_access check_timeout check_group
  target-commissioning late = rw (target, check_timeout, late)

  target-joining : is_late now box 7200 ≡ true → target now box joining ≡ ok failed
  unfolding wait_access check_timeout check_group
  target-joining late = rw (target, check_timeout, late)

  target-running : is_bind_group_updated box ≡ true → target now box running ≡ ok disconnected
  unfolding wait_access check_timeout check_group
  target-running h = rw (target, check_group, h)

-- Nothing stands in the way.
pub record IsServing (w : World) (enabled : Bool) : Type 0 where
  pub configured : w.group_enable_default_cluster ≡ some enabled
  pub spawns : (job : AnsibleJob) → w.spawn job ≡ ok true
  pub accepts : w.accepts_patch ≡ true

module _ (w : World) (box : BoxCrd) (enabled : Bool) (serving : IsServing w enabled) where
  patch_serves :
      (job : Option AnsibleJob) (st : BoxStatus) → (patch_status w job st).patch ≡ some st
  patch_serves job st = rw serving.accepts

  finish_serves :
      (s : BoxState) (job : Option AnsibleJob)
      → state_eqb (state_of box) s ≡ false
      → (finish w box (state_of box) s job).patch ≡ some (new_status w box s)
  unfolding finish
  finish_serves s job other = rw (finish, other) (patch_serves job (new_status w box s))

  spawn_serves :
      (s : BoxState) (group : Option BoxGroupSpec)
      → state_eqb (state_of box) s ≡ false
      → (spawn_job w box (state_of box) s group).patch ≡ some (new_status w box s)
  unfolding spawn_job
  spawn_serves s group other = elim (Option-cases (as_task s)) [
    | inl e ↦ rw (spawn_job, other, e) (finish_serves s none other)
    | inr (task, e) ↦
        rw (spawn_job, other, e, serving.spawns (job_of (state_of box) s group task))
          (finish_serves s (some (job_of (state_of box) s group task)) other)
  ]

  -- The gate is open to every state but `joining`.
  gate_stays :
      (s : BoxState)
      → state_eqb s joining ≡ false
      → gate w box (state_of box) enabled s ≡ spawn_job w box (state_of box) s none
  unfolding gate
  gate_stays s other = rw (gate, other, and_false (not (state_eqb (state_of box) joining)))

  aims_serve :
      (s : BoxState)
      → target w.now box (state_of box) ≡ ok s
      → state_eqb s joining ≡ false
      → state_eqb (state_of box) s ≡ false
      → (reconcile w box).patch ≡ some (new_status w box s)
  unfolding reconcile reconcile_on
  aims_serve s aim other moves =
      rw (reconcile, aim, serving.configured, reconcile_on, gate_stays s other)
        (spawn_serves s none moves)

  module _ (from_ready : state_of box ≡ ready) (member : IsMember box enabled) where
    gate_member : gate w box (state_of box) enabled joining ≡ (
        if not (is_bind_group_updated box)
        then patch_status w none (record {
          state = running;
          access = access_of box;
          bind_group = bind_group_of box;
          last_updated = w.later;
        })
        else spawn_job w box (state_of box) joining (some box.group))
    unfolding gate
    gate_member =
        let apart : state_eqb (state_of box) joining ≡ false = rw from_ready in
        let inside : role_eqb box.group.role external_worker ≡ false =
          not_role box.group.role external_worker member.not_external in
        rw (gate, apart, inside, member.not_disabled)

    ready_reconcile : reconcile w box ≡ gate w box (state_of box) enabled joining
    unfolding reconcile reconcile_on
    ready_reconcile =
        let aim : target w.now box (state_of box) ≡ ok joining =
          subst (λ old. target w.now box old ≡ ok joining) (sym from_ready)
            (target-ready w.now box) in
        ap (λ a. reconcile_on w box a w.group_enable_default_cluster) aim
        ∙ ap (λ c. reconcile_on w box (ok joining) c) serving.configured

  aims_from :
      {old s : BoxState}
      → state_of box ≡ old
      → target w.now box old ≡ ok s
      → state_eqb s joining ≡ false
      → state_eqb old s ≡ false
      → (reconcile w box).patch ≡ some (new_status w box s)
  aims_from {s = s} e aim other moves =
      aims_serve s (subst (λ old. target w.now box old ≡ ok s) (sym e) aim) other
        (subst (λ old. state_eqb old s ≡ false) (sym e) moves)

  updated : bind_group_of box ≢ some box.group → is_bind_group_updated box ≡ true
  updated h = elim (Bool-cases (is_bind_group_updated box)) [
    | inl e ↦ e
    | inr e ↦ absurd (h ((is_bind_group_updated_iff box).0 e))
  ]

  complete_from :
      {old s : BoxState}
      → Moves w.now box enabled old s
      → state_of box ≡ old
      → (reconcile w box).patch ≡ some (new_status w box s)
  complete_from (begin h) e =
      aims_from e (target-fresh_begins w.now box (access_there _ h)) refl refl
  complete_from (give_up h late) e =
      aims_from e (target-fresh_unreachable w.now box (ap is_some h) late) refl refl
  complete_from (join member h) e =
      rw (ready_reconcile e member, gate_member e member, updated h)
        (spawn_serves joining (some box.group)
          (subst (λ old. state_eqb old joining ≡ false) (sym e) refl))
  complete_from (rejoin member h) e =
      rw (ready_reconcile e member, gate_member e member, (is_bind_group_updated_iff box).1 h)
        (patch_serves none _)
  complete_from (expire_commission late) e =
      aims_from e (target-commissioning w.now box late) refl refl
  complete_from (expire_join late) e = aims_from e (target-joining w.now box late) refl refl
  complete_from (regroup h) e = aims_from e (target-running w.now box (updated h)) refl refl

  -- Where nothing stands in the way, each move of the state machine from the box's state is made.
  pub reconcile_complete :
      {s : BoxState}
      → Moves w.now box enabled (state_of box) s
      → (reconcile w box).patch ≡ some (new_status w box s)
  reconcile_complete {s} m = complete_from m refl
