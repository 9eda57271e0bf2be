-- ===== src/Kiss/System/Safe.antt =====
-- What no step of a controller breaks.
use open_ark.Prelude.{
  ℕ, ◌≡◌, ◌≢◌, ◌⊎◌, ◌∙◌, refl, sym, Bool, inl, inr, Option, none, some, and_then, if_rule,
  Option-cases,
}
use open_ark.Prelude.Int.{ℤ}
use open_ark.Kiss.{
  BoxState, fresh, commissioning, ready, joining, running, group_changed, failed, disconnected,
  complete, BoxGroupSpec, BoxStatus, BoxCrd,
}
use open_ark.Kiss.Operator.{World, AnsibleJob, reconcile, state_of, bind_group_of}
use open_ark.Kiss.Operator.Moves.{
  Moves, begin, give_up, join, rejoin, expire_commission, expire_join, regroup,
}
use open_ark.Kiss.Operator.Effect.{reconcile_sound}
use open_ark.Kiss.Monitor.{
  MonitorRun, monitor, Update, apply_state, update_box_state, follow, counted,
}
use open_ark.Kiss.Gateway.{
  Calls, Reply, BoxNewQuery, BoxCommissionQuery, get_new, post_commission, register, commission_box,
}
use open_ark.Kiss.System.{
  System, seen, operated, updated, stored_box, Step, operates, follows, registers, commissions,
  moves_group, Steps, done, step,
}

-- The invariant of a box.
pub record BoxOk (box : BoxCrd) : Type 0 where
  pub not_group_changed : state_of box ≢ group_changed
  pub joining_bound : state_of box ≡ joining → bind_group_of box ≢ none

Moves-other :
    {now : ℕ} {box : BoxCrd} {enabled : Bool} {old s : BoxState}
    → Moves now box enabled old s
    → s ≢ group_changed
Moves-other (begin h) e = cc
Moves-other (give_up h late) e = cc
Moves-other (join member h) e = cc
Moves-other (rejoin member h) e = cc
Moves-other (expire_commission late) e = cc
Moves-other (expire_join late) e = cc
Moves-other (regroup h) e = cc

operated-BoxOk : (w : World) (box : BoxCrd) → BoxOk box → BoxOk (operated box (reconcile w box))
operated-BoxOk w box h = elim (Option-cases (reconcile w box).patch) [
  | inl e ↦ rw e h
  | inr (st, e) ↦
      let written = reconcile_sound w box st e in
      rw e (record {
        not_group_changed = Moves-other written.moves;
        joining_bound = λ to_join unbound. cc (unbound, to_join, written.bind_group_eq);
      })
]

-- A job that ends moves its box to `running` or to `failed`, or not at all.
abbrev UpdateOk : Option Update → Type 0
UpdateOk none = Unit
UpdateOk (some u) = (u.state ≡ running) ⊎ (u.state ≡ failed)

completes :
    (new_state : Option BoxState)
    → (and_then new_state complete ≡ none) ⊎ (and_then new_state complete ≡ some running)
completes none = inl refl
completes (some fresh) = inl refl
completes (some commissioning) = inl refl
completes (some ready) = inl refl
completes (some joining) = inr refl
completes (some running) = inl refl
completes (some group_changed) = inl refl
completes (some failed) = inl refl
completes (some disconnected) = inl refl

update_box_state-UpdateOk :
    (accepts : Bool) (name : ℕ) (state : BoxState)
    → (state ≡ running) ⊎ (state ≡ failed)
    → UpdateOk (update_box_state accepts name state).update
unfolding update_box_state
update_box_state-UpdateOk accepts name state h =
    if_rule (λ (r : MonitorRun). UpdateOk r.update) accepts (λ _. h) (λ _. tt)

monitor-UpdateOk :
    (accepts : Bool) (name : ℕ) (job : AnsibleJob) (succeeded failures : Option ℤ)
    → UpdateOk (monitor accepts (seen name job succeeded failures)).update
unfolding monitor follow
monitor-UpdateOk accepts name job succeeded failures =
    if_rule (λ (r : MonitorRun). UpdateOk r.update) (counted succeeded)
      (λ _. elim (completes job.new_state) [
        | inl e ↦ rw e tt
        | inr e ↦ rw e (update_box_state-UpdateOk accepts name running (inl refl))
      ])
      (λ _.
        if_rule (λ (r : MonitorRun). UpdateOk r.update) (counted failures)
          (λ _. update_box_state-UpdateOk accepts name failed (inr refl)) (λ _. tt))

state-BoxOk :
    (state : BoxState) (box : BoxCrd)
    → state_of box ≡ state
    → state ≢ group_changed
    → state ≢ joining
    → BoxOk box
state-BoxOk state box e other apart = record {
  not_group_changed = λ k. other (sym e ∙ k);
  joining_bound = λ k. absurd (apart (sym e ∙ k));
}

apply_state-state_of :
    (now : ℕ) (state : BoxState) (box : BoxCrd) (status : Option BoxStatus)
    → state_of (apply_state now state (record box { status = status })) ≡ state
apply_state-state_of now state box none = refl
apply_state-state_of now state box (some status) = refl

updated-BoxOk :
    (now : ℕ) (box : BoxCrd) (update : Option Update)
    → UpdateOk update
    → BoxOk box
    → BoxOk (updated now box update)
updated-BoxOk now box none u h = h
updated-BoxOk now box (some u) (inl e) h =
    state-BoxOk running _ (apply_state-state_of now u.state box box.status ∙ e) (λ k. cc) (λ k. cc)
updated-BoxOk now box (some u) (inr e) h =
    state-BoxOk failed _ (apply_state-state_of now u.state box box.status ∙ e) (λ k. cc) (λ k. cc)

module _ (box : BoxCrd) (h : BoxOk box) where
  abbrev ReplyOk : Reply → Type 0
  ReplyOk reply = BoxOk (stored_box box reply.stored)

  register-ReplyOk :
      (calls : Calls) (now : ℕ) (access : Option ℕ) (bind_group : Option BoxGroupSpec)
      → ReplyOk (register calls now access bind_group box)
  unfolding register
  register-ReplyOk calls now none bind_group = h
  register-ReplyOk calls now (some address) bind_group =
      if_rule ReplyOk calls.patch_status_fails (λ _. h)
        (λ _. state-BoxOk fresh _ refl (λ k. cc) (λ k. cc))

  get_new-ReplyOk :
      (calls : Calls) (now : ℕ) (query : BoxNewQuery) → ReplyOk (get_new calls now query (some box))
  unfolding get_new
  get_new-ReplyOk calls now query =
      if_rule ReplyOk calls.get_fails (λ _. h)
        (λ _. register-ReplyOk calls now query.access_primary _)

  commission_box-ReplyOk :
      (calls : Calls) (now : ℕ) (query : BoxCommissionQuery) (access : Option ℕ)
      → ReplyOk (commission_box calls now query access box)
  unfolding commission_box
  commission_box-ReplyOk calls now query access =
      if_rule ReplyOk calls.patch_fails (λ _. h)
        (λ _.
          if_rule ReplyOk calls.patch_status_fails
            (λ _. record {
              not_group_changed = h.not_group_changed;
              joining_bound = h.joining_bound;
            })
            (λ _. state-BoxOk ready _ refl (λ k. cc) (λ k. cc)))

  post_commission-ReplyOk :
      (calls : Calls) (now : ℕ) (query : BoxCommissionQuery)
      → ReplyOk (post_commission calls now query (some box))
  unfolding post_commission
  post_commission-ReplyOk calls now query =
      if_rule ReplyOk calls.get_fails (λ _. h)
        (λ _. elim (Option-cases query.access) [
          | inl e ↦ rw e h
          | inr (access, e) ↦ rw e (commission_box-ReplyOk calls now query access)
        ])

Step-BoxOk : {s t : System} → Step s t → BoxOk s.box → BoxOk t.box
Step-BoxOk (operates w s) h = operated-BoxOk w s.box h
Step-BoxOk (follows now accepts job succeeded failures s m) h =
    updated-BoxOk now s.box _ (monitor-UpdateOk accepts s.box.uuid job succeeded failures) h
Step-BoxOk (registers calls now query s) h = get_new-ReplyOk s.box h calls now query
Step-BoxOk (commissions calls now query s) h = post_commission-ReplyOk s.box h calls now query
Step-BoxOk (moves_group group s) h = record {
  not_group_changed = h.not_group_changed;
  joining_bound = h.joining_bound;
}

-- Whatever steps its controllers make, in any order and with any failures, a box that is not in
-- `GroupChanged` does not come into it, and a box that is joining has a group that it is bound to,
-- if it had one where it was joining at first.
pub Steps-BoxOk : {s t : System} → Steps s t → BoxOk s.box → BoxOk t.box
Steps-BoxOk done h = h
Steps-BoxOk (step before last) h = Step-BoxOk last (Steps-BoxOk before h)
