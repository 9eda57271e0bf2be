-- ===== src/Kiss/Groups.antt =====
-- The derived equalities of the roles, the states and the groups decide equality.
use open_ark.Prelude.{
  both_true, ℕ, ◌≡◌, ◌↔◌, ◌∙◌, refl, sym, ap, subst, if◌then◌else◌, true, eqb, eqb_iff, arith,
}
use open_ark.Kiss.{
  BoxState, fresh, commissioning, ready, joining, running, group_changed, failed, disconnected,
  BoxGroupRole, control_plane, compute, dashboard, desktop, gateway, storage, robot, generic_worker,
  external_worker, role_index, state_index, role_eqb, state_eqb, BoxGroupSpec, group_eqb,
}

abbrev role_at : ℕ → BoxGroupRole
role_at n =
    if eqb n 0
    then control_plane
    else if eqb n 1
    then compute
    else if eqb n 2
    then dashboard
    else if eqb n 3
    then desktop
    else if eqb n 4
    then gateway
    else if eqb n 5
    then storage
    else if eqb n 6
    then robot
    else if eqb n 7
    then generic_worker
    else external_worker

role_at-role_index : (r : BoxGroupRole) → role_at (role_index r) ≡ r
role_at-role_index control_plane = refl
role_at-role_index compute = refl
role_at-role_index dashboard = refl
role_at-role_index desktop = refl
role_at-role_index gateway = refl
role_at-role_index storage = refl
role_at-role_index robot = refl
role_at-role_index generic_worker = refl
role_at-role_index external_worker = refl

pub role_eqb_iff : (a b : BoxGroupRole) → (role_eqb a b ≡ true) ↔ (a ≡ b)
role_eqb_iff a b = (
  λ h.
      sym (role_at-role_index a)
      ∙ ap role_at ((eqb_iff (role_index a) (role_index b)).0 h)
      ∙ role_at-role_index b,
  λ e. (eqb_iff (role_index a) (role_index b)).1 (ap role_index e),
)

abbrev state_at : ℕ → BoxState
state_at n =
    if eqb n 0
    then fresh
    else if eqb n 1
    then commissioning
    else if eqb n 2
    then ready
    else if eqb n 3
    then joining
    else if eqb n 4
    then running
    else if eqb n 5
    then group_changed
    else if eqb n 6
    then failed
    else disconnected

state_at-state_index : (s : BoxState) → state_at (state_index s) ≡ s
state_at-state_index fresh = refl
state_at-state_index commissioning = refl
state_at-state_index ready = refl
state_at-state_index joining = refl
state_at-state_index running = refl
state_at-state_index group_changed = refl
state_at-state_index failed = refl
state_at-state_index disconnected = refl

pub state_eqb_iff : (a b : BoxState) → (state_eqb a b ≡ true) ↔ (a ≡ b)
state_eqb_iff a b = (
  λ h.
      sym (state_at-state_index a)
      ∙ ap state_at ((eqb_iff (state_index a) (state_index b)).0 h)
      ∙ state_at-state_index b,
  λ e. (eqb_iff (state_index a) (state_index b)).1 (ap state_index e),
)

itself : (a : BoxGroupSpec) → group_eqb a a ≡ true
itself a = ground arith

pub group_eqb_iff : (a b : BoxGroupSpec) → (group_eqb a b ≡ true) ↔ (a ≡ b)
group_eqb_iff a b = (
  λ h.
      let (names, roles) = both_true _ _ h in
      let name : a.cluster_name ≡ b.cluster_name =
        (eqb_iff a.cluster_name b.cluster_name).0 names in
      let role : a.role ≡ b.role = (role_eqb_iff a.role b.role).0 roles in (cc (name, role)),
  λ e. subst (λ x. group_eqb a x ≡ true) e (itself a),
)
