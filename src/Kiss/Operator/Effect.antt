-- ===== src/Kiss/Operator/Effect.antt =====
-- What a run of the operator writes.
use open_ark.Prelude.{
  not-eq-true, ◌≡◌, ◌⊎◌, ◌∙◌, refl, sym, subst, Bool, true, false, not, ◌&&◌, ◌||◌, inl, inr,
  Option, none, some, if_rule, if◌then◌else◌, is_some, Option-cases, Result, ok, err, Result-cases,
  arith,
}
use open_ark.Kiss.{
  BoxState, ready, joining, running, generic_worker, external_worker, role_eqb, state_eqb,
  BoxGroupSpec, is_default, BoxStatus, BoxCrd, as_task, cron, Action, requeue, fallback,
}
use open_ark.Kiss.Groups.{role_eqb_iff, state_eqb_iff}
use open_ark.Kiss.Operator.{
  World, Run, return, job_of, AnsibleJob, state_of, access_of, bind_group_of, is_bind_group_updated,
  patch_status, new_status, finish, spawn_job, gate, reconcile_on, reconcile,
}
use open_ark.Kiss.Operator.Moves.{
  Aim, AimOk, target-AimOk, Aim-Moves, Aim-joining, IsMember, Moves, join, rejoin,
  is_bind_group_updated_iff,
}

-- A status that is written: a move, with the access kept, the time of the patch, and the group of
-- the spec bound where the box starts to join, the bound group kept elsewhere.
pub record Written (w : World) (box : BoxCrd) (st : BoxStatus) : Type 0 where
  pub enabled : Bool
  pub configured : w.group_enable_default_cluster ≡ some enabled
  pub moves : Moves w.now box enabled (state_of box) st.state
  pub access_eq : st.access ≡ access_of box
  pub bind_group_eq :
      st.bind_group ≡ (if state_eqb st.state joining then some box.group else bind_group_of box)
  pub last_updated_eq : st.last_updated ≡ w.later

joins_parts : (b c : Bool) → not b && c ≡ true → (b ≡ false) × (c ≡ true)
joins_parts b c h = ground arith

stays_here : (b c : Bool) → not b && c ≡ false → c ≡ true → b ≡ true
stays_here b c h k = ground arith

module _ (w : World) (box : BoxCrd) where
  abbrev PatchOk : Run → Type 0
  PatchOk run = elim run.patch [ none ↦ Unit | some st ↦ Written w box st ]

  patch_status-PatchOk :
      (job : Option AnsibleJob) (st : BoxStatus)
      → Written w box st
      → PatchOk (patch_status w job st)
  patch_status-PatchOk job st h = if_rule PatchOk w.accepts_patch (λ _. h) (λ _. tt)

  module _ (enabled : Bool) (configured : w.group_enable_default_cluster ≡ some enabled) where
    finish-PatchOk :
        (s : BoxState) (job : Option AnsibleJob)
        → (state_eqb (state_of box) s ≡ false → Moves w.now box enabled (state_of box) s)
        → PatchOk (finish w box (state_of box) s job)
    unfolding finish
    finish-PatchOk s job moves =
        if_rule PatchOk (state_eqb (state_of box) s) (λ _. tt)
          (λ other. patch_status-PatchOk job (new_status w box s) (record {
            enabled = enabled;
            configured = configured;
            moves = moves other;
            access_eq = refl;
            bind_group_eq = refl;
            last_updated_eq = refl;
          }))

    spawn_job-PatchOk :
        (s : BoxState) (group : Option BoxGroupSpec)
        → (state_eqb (state_of box) s ≡ false → Moves w.now box enabled (state_of box) s)
        → PatchOk (spawn_job w box (state_of box) s group)
    unfolding spawn_job
    spawn_job-PatchOk s group moves =
        if_rule PatchOk (not (state_eqb (state_of box) s) || is_some (cron s))
          (λ _. elim (Option-cases (as_task s)) [
            | inl e ↦ rw e (finish-PatchOk s none moves)
            | inr (task, e) ↦
                rw e (elim (Result-cases (w.spawn (job_of (state_of box) s group task))) [
                  | inl (spawned, e') ↦ rw e' (
                      if_rule PatchOk spawned
                        (λ _. finish-PatchOk s (some (job_of (state_of box) s group task)) moves)
                        (λ _. tt))
                  | inr (x, e') ↦ rw e' tt
                ])
          ])
          (λ _. tt)

    -- A box that is not joining yet and may join: it is held back, bound already, or sent to join.
    joins-PatchOk :
        (s : BoxState)
        → s ≡ joining
        → state_of box ≡ ready
        → PatchOk (
            if role_eqb box.group.role external_worker
            then return (requeue fallback)
            else if not enabled && is_default box.group && role_eqb box.group.role generic_worker
            then return (requeue fallback)
            else if not (is_bind_group_updated box)
            then patch_status w none (record {
              state = running;
              access = access_of box;
              bind_group = bind_group_of box;
              last_updated = w.later;
            })
            else spawn_job w box (state_of box) s (some box.group))
    joins-PatchOk s to_join from_ready =
        if_rule PatchOk (role_eqb box.group.role external_worker) (λ _. tt)
          (λ inside.
            if_rule PatchOk
              (not enabled && is_default box.group && role_eqb box.group.role generic_worker)
              (λ _. tt)
              (λ takes.
                let member : IsMember box enabled = record {
                  not_external =
                      λ e. cc (inside, (role_eqb_iff box.group.role external_worker).1 e);
                  not_disabled = takes;
                } in
                if_rule PatchOk (not (is_bind_group_updated box))
                  (λ same.
                    let bound = (is_bind_group_updated_iff box).0 (not-eq-true _ same) in
                    patch_status-PatchOk none _ (record {
                      enabled = enabled;
                      configured = configured;
                      moves =
                          subst (λ old. Moves w.now box enabled old running) (sym from_ready)
                            (rejoin member bound);
                      access_eq = refl;
                      bind_group_eq = refl;
                      last_updated_eq = refl;
                    }))
                  (λ changed. spawn_job-PatchOk s (some box.group) (λ _.
                    subst (λ old. Moves w.now box enabled old s) (sym from_ready)
                      (subst (λ to. Moves w.now box enabled ready to) (sym to_join)
                        (join member (λ e. cc (changed, (is_bind_group_updated_iff box).1 e))))))))

    gate-PatchOk :
        (s : BoxState)
        → (s ≡ state_of box) ⊎ Aim w.now box (state_of box) s
        → PatchOk (gate w box (state_of box) enabled s)
    unfolding gate
    gate-PatchOk s aim =
        if_rule PatchOk (not (state_eqb (state_of box) joining) && state_eqb s joining)
          (λ joins.
            let (apart, to) =
              joins_parts (state_eqb (state_of box) joining) (state_eqb s joining) joins in
            let to_join : s ≡ joining = (state_eqb_iff s joining).0 to in
            elim aim [
              | inl e ↦
                  absurd (cc (apart, (state_eqb_iff (state_of box) joining).1 (sym e ∙ to_join)))
              | inr a ↦ joins-PatchOk s to_join (Aim-joining a to_join)
            ])
          (λ stays. spawn_job-PatchOk s none (λ other. elim aim [
            | inl e ↦ absurd (cc (other, (state_eqb_iff (state_of box) s).1 (sym e)))
            | inr a ↦ Aim-Moves enabled a (λ to_join.
                let there = (state_eqb_iff s joining).1 to_join in
                let here =
                  stays_here (state_eqb (state_of box) joining) (state_eqb s joining) stays there in
                cc (
                  other,
                  (state_eqb_iff (state_of box) s).1
                      ((state_eqb_iff (state_of box) joining).0 here ∙ sym to_join),
                ))
          ]))

  reconcile_on-PatchOk :
      (aim : Result Action BoxState)
      → AimOk w.now box (state_of box) aim
      → (config : Option Bool) → w.group_enable_default_cluster ≡ config
      → PatchOk (reconcile_on w box aim config)
  unfolding reconcile_on
  reconcile_on-PatchOk (err action) h config e = tt
  reconcile_on-PatchOk (ok s) h none e = tt
  reconcile_on-PatchOk (ok s) h (some enabled) e = gate-PatchOk enabled e s h

  -- Whatever status the operator writes is a move of the state machine from the box's state, keeps
  -- the access, bears the time of the patch, and binds the group of the spec if the box starts to
  -- join, else the group that was bound.
  pub reconcile_sound : (st : BoxStatus) → (reconcile w box).patch ≡ some st → Written w box st
  unfolding reconcile
  reconcile_sound st h =
      subst (λ p. elim p [ none ↦ Unit | some x ↦ Written w box x ]) h
        (reconcile_on-PatchOk _ (target-AimOk w.now box (state_of box)) _ refl)
