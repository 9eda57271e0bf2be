-- ===== src/Vine/Roles.antt =====
-- The role of a user, `get_user_role` of crates/vine/rbac/src/auth.rs: the union of the roles that
-- the bindings in force name.
use open_ark.Prelude.{
  both_true, or_cases, ℕ, Bool, true, false, ◌||◌, ◌&&◌, Option, none, some, List, [], ◌∷◌, ◌≡◌,
  ◌↔◌, ◌⊎◌, ◌<◌, ◌≢◌, inl, inr, refl, sym, ap, ◌∙◌, eqb, ltb, if◌then◌else◌, if_rule, unwrap_or,
  subst, eqb_iff, arith,
}
use mathlib.Core.Option.{some-injective}
use open_ark.Vine.{
  UserRoleSpec, no_role, bitor, reduce_roles, sum_roles, RoleBinding, User, preferred_name,
}

-- The map of the roles by name, of which the last entry of a name counts.
unfoldable pub find_role : ℕ → List (ℕ × UserRoleSpec) → Option UserRoleSpec
find_role name [] = none
find_role name ((key, role) ∷ roles) =
    let rest = find_role name roles in
    elim rest [ some r ↦ some r | none ↦ if eqb key name then some role else none ]

-- The two filters of the bindings.
abbrev pub is_in_force : ℕ → RoleBinding → Bool
is_in_force now binding = elim binding.expired_timestamp [
  | none ↦ true
  | some timestamp ↦ ltb timestamp now
]

abbrev pub binds : ℕ → ℕ → RoleBinding → Bool
binds user_name now binding = eqb binding.user user_name && is_in_force now binding

-- The roles that the bindings yield, the two filters and `filter_map`.
unfoldable pub bound_roles : List (ℕ × UserRoleSpec) → ℕ → ℕ → List RoleBinding → List UserRoleSpec
bound_roles roles user_name now [] = []
bound_roles roles user_name now (b ∷ bs) =
    let rest = bound_roles roles user_name now bs in
    if binds user_name now b
    then (elim (find_role b.role roles) [ none ↦ rest | some r ↦ r ∷ rest ])
    else rest

-- `get_user_role`; `none` where a listing fails.
unfoldable pub get_user_role :
    Option (List (ℕ × UserRoleSpec)) → Option (List RoleBinding) → User → ℕ → UserRoleSpec
get_user_role roles bindings user now =
    sum_roles (bound_roles (unwrap_or roles []) (preferred_name user) now (unwrap_or bindings []))

-- The three rights of a role.
pub data Right : Type 0 where
  admin dev ops : Right

abbrev pub holds : Right → UserRoleSpec → Bool
holds admin role = role.is_admin
holds dev role = role.is_dev
holds ops role = role.is_ops

abbrev pub gives : Right → Option UserRoleSpec → Bool
gives right none = false
gives right (some role) = holds right role

-- Some binding of the row that is the user's, and that the filter keeps, names a role with the right.
abbrev pub Granted : Right → List (ℕ × UserRoleSpec) → ℕ → ℕ → List RoleBinding → Type 0
Granted right roles user_name now [] = ⊥
Granted right roles user_name now (b ∷ bs) =
    ((b.user ≡ user_name)
      × ((t : ℕ) → b.expired_timestamp ≡ some t → t < now)
      × (gives right (find_role b.role roles) ≡ true))
    ⊎ Granted right roles user_name now bs

holds-bitor :
    (right : Right) (a b : UserRoleSpec) → holds right (bitor a b) ≡ holds right a || holds right b
holds-bitor admin a b = refl
holds-bitor dev a b = refl
holds-bitor ops a b = refl

holds-no_role : (right : Right) → holds right no_role ≡ false
holds-no_role admin = refl
holds-no_role dev = refl
holds-no_role ops = refl

or_left : (a b : Bool) → a ≡ true → a || b ≡ true
or_left a b h = ground arith

or_right : (a b : Bool) → b ≡ true → a || b ≡ true
or_right a b h = ground arith

and_not : (a b : Bool) → a && b ≡ false → a ≡ true → b ≢ true
and_not a b h k m = ground arith

ltb_lem : (a b : ℕ) → ltb a b ≡ true → a < b
ltb_lem a b h = ground arith

lt_ltb : (a b : ℕ) → a < b → ltb a b ≡ true
lt_ltb a b h = ground arith

-- Some role of the row holds the right.
abbrev any_holds : Right → List UserRoleSpec → Bool
any_holds right [] = false
any_holds right (r ∷ rs) = holds right r || any_holds right rs

or_assoc : (a b c : Bool) → (a || b) || c ≡ a || (b || c)
or_assoc a b c = ground arith

or_false : (a : Bool) → a || false ≡ a
or_false a = ground arith

holds-reduce_roles :
    (right : Right) (role : UserRoleSpec) (rs : List UserRoleSpec)
    → holds right (reduce_roles role rs) ≡ holds right role || any_holds right rs
unfolding reduce_roles
holds-reduce_roles right role [] = sym (or_false (holds right role))
holds-reduce_roles right role (r ∷ rs) =
    holds-reduce_roles right (bitor role r) rs
    ∙ ap (λ b. b || any_holds right rs) (holds-bitor right role r)
    ∙ or_assoc (holds right role) (holds right r) (any_holds right rs)

holds-sum_roles :
    (right : Right) (rs : List UserRoleSpec) → holds right (sum_roles rs) ≡ any_holds right rs
holds-sum_roles right [] = holds-no_role right
holds-sum_roles right (r ∷ rs) = holds-reduce_roles right r rs

cons_holds :
    (right : Right) (o : Option UserRoleSpec) (rest : List UserRoleSpec)
    → any_holds right (elim o [ none ↦ rest | some r ↦ r ∷ rest ])
      ≡ gives right o || any_holds right rest
cons_holds right none rest = refl
cons_holds right (some r) rest = refl

in_force_iff :
    (now : ℕ) (o : Option ℕ)
    → (elim o [ none ↦ true | some timestamp ↦ ltb timestamp now ] ≡ true)
      ↔ ((t : ℕ) → o ≡ some t → t < now)
in_force_iff now none = (λ _ t e. absurd (cc), λ _. refl)
in_force_iff now (some timestamp) = (
  λ h t e. subst (λ n. n < now) (some-injective timestamp t e) (ltb_lem timestamp now h),
  λ h. lt_ltb timestamp now (h timestamp refl),
)

module _ (right : Right) (roles : List (ℕ × UserRoleSpec)) (user_name now : ℕ) where
  Granted-holds :
      (bindings : List RoleBinding)
      → Granted right roles user_name now bindings
      → any_holds right (bound_roles roles user_name now bindings) ≡ true
  unfolding bound_roles
  Granted-holds [] g = absurd g
  Granted-holds (b ∷ bs) g =
      if_rule (λ rs. any_holds right rs ≡ true) (binds user_name now b)
        (λ mine. cons_holds right (find_role b.role roles) _ ∙ (elim g [
          | inl (user, unexpired, given) ↦ or_left _ _ given
          | inr rest ↦ or_right _ _ (Granted-holds bs rest)
        ]))
        (λ other. elim g [
          | inl (user, unexpired, given) ↦ absurd (
              and_not _ _ other ((eqb_iff b.user user_name).1 user)
                ((in_force_iff now b.expired_timestamp).1 unexpired))
          | inr rest ↦ Granted-holds bs rest
        ])

  holds-Granted :
      (bindings : List RoleBinding)
      → any_holds right (bound_roles roles user_name now bindings) ≡ true
      → Granted right roles user_name now bindings
  unfolding bound_roles
  holds-Granted [] = λ h. absurd (cc)
  holds-Granted (b ∷ bs) =
      if_rule (λ rs. any_holds right rs ≡ true → Granted right roles user_name now (b ∷ bs))
        (binds user_name now b)
        (λ mine h.
          elim (or_cases (gives right (find_role b.role roles)) _
            (sym (cons_holds right (find_role b.role roles) _) ∙ h)) [
              | inl given ↦ inl (
                (eqb_iff b.user user_name).0 (both_true _ _ mine).0,
                (in_force_iff now b.expired_timestamp).0 (both_true _ _ mine).1,
                given,
              )
              | inr rest ↦ inr (holds-Granted bs rest)
            ])
        (λ _ h. inr (holds-Granted bs h))

-- A user's role holds a right exactly if one of the bindings names the user and a role with the
-- right, and has no expiry or one that has passed; with a failed listing it holds none.
pub get_user_role_iff :
    (right : Right) (roles : Option (List (ℕ × UserRoleSpec)))
    (bindings : Option (List RoleBinding)) (user : User) (now : ℕ)
    → (holds right (get_user_role roles bindings user now) ≡ true)
      ↔ Granted right (unwrap_or roles []) (preferred_name user) now (unwrap_or bindings [])
unfolding get_user_role
get_user_role_iff right roles bindings user now =
    let rs = bound_roles (unwrap_or roles []) (preferred_name user) now (unwrap_or bindings []) in
    (
      λ h.
          holds-Granted right (unwrap_or roles []) (preferred_name user) now (unwrap_or bindings [])
            (sym (holds-sum_roles right rs) ∙ h),
      λ g.
          holds-sum_roles right rs
          ∙ Granted-holds right (unwrap_or roles []) (preferred_name user) now
              (unwrap_or bindings []) g,
    )
