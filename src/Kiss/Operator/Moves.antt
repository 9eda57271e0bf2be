-- ===== src/Kiss/Operator/Moves.antt =====
-- The state machine of a box, as a relation: which states the operator may move a box to, and why.
use open_ark.Prelude.{
  ℕ, ◌≡◌, ◌≢◌, ◌⊎◌, ◌↔◌, not-eq-false, refl, ap, Bool, true, false, not, ◌&&◌, inl, inr, Option,
  none, some, is_some, Bool-cases, Result, ok, err,
}
use mathlib.Core.Option.{some-injective}
use open_ark.Kiss.Groups.{group_eqb_iff}
use open_ark.Kiss.{
  BoxState, fresh, commissioning, ready, joining, running, group_changed, failed, disconnected,
  generic_worker, external_worker, role_eqb, BoxGroupSpec, is_default, group_eqb, BoxCrd, Action,
  timeout, timeout_new,
}
use open_ark.Kiss.Operator.{
  access_of, bind_group_of, is_bind_group_updated, is_late, wait_access, check_timeout, check_group,
  target,
}

-- The state that the operator aims at, other than the box's own.
pub data Aim (now : ℕ) (box : BoxCrd) : BoxState → BoxState → Type 0 where
  begins : is_some (access_of box) ≡ true → Aim now box fresh commissioning
  unreachable :
      is_some (access_of box) ≡ false
      → is_late now box timeout_new ≡ true
      → Aim now box fresh disconnected
  may_join : Aim now box ready joining
  expires :
      {old : BoxState} {limit : ℕ}
      → timeout old ≡ some limit
      → is_late now box limit ≡ true
      → Aim now box old failed
  regroups : is_bind_group_updated box ≡ true → Aim now box running disconnected

-- What is aimed at is the state itself, or a move to it.
abbrev pub AimOk : ℕ → BoxCrd → BoxState → Result Action BoxState → Type 0
AimOk now box old (err action) = Unit
AimOk now box old (ok s) = (s ≡ old) ⊎ Aim now box old s

pub target-AimOk :
    (now : ℕ) (box : BoxCrd) (old : BoxState) → AimOk now box old (target now box old)
unfolding wait_access check_timeout check_group
target-AimOk now box fresh = elim (Bool-cases (is_some (access_of box))) [
  | inl e ↦ rw (AimOk, wait_access, e) (inr (begins e))
  | inr e ↦ elim (Bool-cases (is_late now box timeout_new)) [
    | inl late ↦ rw (AimOk, wait_access, e, late) (inr (unreachable e late))
    | inr early ↦ rw (AimOk, wait_access, e, early) tt
  ]
]
target-AimOk now box commissioning = elim (Bool-cases (is_late now box 7200)) [
  | inl late ↦ rw (AimOk, check_timeout, late) (inr (expires refl late))
  | inr early ↦ rw (AimOk, check_timeout, early) (inl refl)
]
target-AimOk now box ready = inr may_join
target-AimOk now box joining = elim (Bool-cases (is_late now box 7200)) [
  | inl late ↦ rw (AimOk, check_timeout, late) (inr (expires refl late))
  | inr early ↦ rw (AimOk, check_timeout, early) (inl refl)
]
target-AimOk now box running = elim (Bool-cases (is_bind_group_updated box)) [
  | inl e ↦ rw (AimOk, check_group, e) (inr (regroups e))
  | inr e ↦ rw (AimOk, check_group, e) (inl refl)
]
target-AimOk now box group_changed = inl refl
target-AimOk now box failed = inl refl
target-AimOk now box disconnected = inl refl

-- A box may join a cluster.
pub record IsMember (box : BoxCrd) (enabled : Bool) : Type 0 where
  pub not_external : box.group.role ≢ external_worker
  pub not_disabled :
      not enabled && is_default box.group && role_eqb box.group.role generic_worker ≡ false

-- The moves of a box, `enabled` where the default cluster takes workers.
pub data Moves (now : ℕ) (box : BoxCrd) (enabled : Bool) : BoxState → BoxState → Type 0 where
  begin : access_of box ≢ none → Moves now box enabled fresh commissioning
  give_up :
      access_of box ≡ none
      → is_late now box timeout_new ≡ true
      → Moves now box enabled fresh disconnected
  join :
      IsMember box enabled
      → bind_group_of box ≢ some box.group
      → Moves now box enabled ready joining
  rejoin :
      IsMember box enabled
      → bind_group_of box ≡ some box.group
      → Moves now box enabled ready running
  expire_commission : is_late now box 7200 ≡ true → Moves now box enabled commissioning failed
  expire_join : is_late now box 7200 ≡ true → Moves now box enabled joining failed
  regroup : bind_group_of box ≢ some box.group → Moves now box enabled running disconnected

-- The group that the box is bound to is compared as a whole.
bind_group_cases :
    (bound : Option BoxGroupSpec) (group : BoxGroupSpec)
    → ((elim bound [ none ↦ true | some g ↦ not (group_eqb g group) ]) ≡ false)
      ↔ (bound ≡ some group)
bind_group_cases none group = (λ h. absurd (cc), λ h. absurd (cc))
bind_group_cases (some g) group = (
  λ h. ap (λ x. some x) ((group_eqb_iff g group).0 (not-eq-false _ h)),
  λ h. rw ((group_eqb_iff g group).1 (some-injective _ _ h)),
)

pub is_bind_group_updated_iff :
    (box : BoxCrd) → (is_bind_group_updated box ≡ false) ↔ (bind_group_of box ≡ some box.group)
is_bind_group_updated_iff box = bind_group_cases (bind_group_of box) box.group

pub is_some-none : {A : Type 0} (o : Option A) → is_some o ≡ false → o ≡ none
is_some-none none h = refl
is_some-none (some a) h = absurd (cc)

expire :
    (now : ℕ) (box : BoxCrd) (enabled : Bool) (old : BoxState) (limit : ℕ)
    → timeout old ≡ some limit
    → is_late now box limit ≡ true
    → Moves now box enabled old failed
expire now box enabled fresh limit h late = absurd (cc)
expire now box enabled commissioning limit h late =
    expire_commission (rw (some-injective _ _ h) late)
expire now box enabled ready limit h late = absurd (cc)
expire now box enabled joining limit h late = expire_join (rw (some-injective _ _ h) late)
expire now box enabled running limit h late = absurd (cc)
expire now box enabled group_changed limit h late = absurd (cc)
expire now box enabled failed limit h late = absurd (cc)
expire now box enabled disconnected limit h late = absurd (cc)

-- Any other state than `joining` that is aimed at is moved to.
pub Aim-Moves :
    {now : ℕ} {box : BoxCrd} {old s : BoxState} (enabled : Bool)
    → Aim now box old s
    → s ≢ joining
    → Moves now box enabled old s
Aim-Moves enabled (begins h) other = begin (λ e. cc (h, ap is_some e))
Aim-Moves {box = box} enabled (unreachable h late) other =
    give_up (is_some-none (access_of box) h) late
Aim-Moves enabled may_join other = absurd (other refl)
Aim-Moves {now = now} {box = box} enabled (expires {old} {limit} h late) other =
    expire now box enabled old limit h late
Aim-Moves {box = box} enabled (regroups h) other =
    regroup (λ e. cc (h, (is_bind_group_updated_iff box).1 e))

pub Aim-joining :
    {now : ℕ} {box : BoxCrd} {old s : BoxState} → Aim now box old s → s ≡ joining → old ≡ ready
Aim-joining may_join e = refl
Aim-joining (begins h) e = absurd (cc)
Aim-joining (unreachable h late) e = absurd (cc)
Aim-joining (expires h late) e = absurd (cc)
Aim-joining (regroups h) e = absurd (cc)
