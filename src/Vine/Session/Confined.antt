-- ===== src/Vine/Session/Confined.antt =====
-- Which namespaces a session may come to stand in.
use open_ark.Prelude.{
  or_cases, ℕ, true, ◌||◌, Option, none, some, List, [], ◌∷◌, ◌≡◌, ◌⊎◌, inl, inr, refl, sym, ap,
  subst, ◌∙◌, eqb_iff, if_rule, unwrap_or, Result, ok, err, ok-injective,
}
use open_ark.Vine.{
  UserRoleSpec, Namespace, vine_session, other_namespace, namespace_eqb, User, preferred_name,
  user_namespace, UserAuthError, user_not_registered,
}
use open_ark.Vine.Roles.{get_user_role, Granted, admin, get_user_role_iff}
use open_ark.Vine.Session.{
  Authorization, NamespaceHeader, absent, garbled, named, Services, UserSession, and_then, ok_or,
  get_user_token, get_user_name, check_user_namespace, get_user_namespace, new_session,
  open_session, from_request_with_timestamp, namespaced, namespaced_all,
}

-- A session as it should be: its role is that of its user at the time of the sign-in, its name is
-- the user's, and it stands in the user's own namespace or is an administrator's.
pub record IsConfined (services : Services) (now : ℕ) (session : UserSession) : Type 0 where
  pub role_eq : session.role ≡ get_user_role services.roles services.role_bindings session.user now
  pub user_name_eq : session.user_name ≡ preferred_name session.user
  pub stands : (session.namespace ≡ user_namespace session.user) ⊎ (session.role.is_admin ≡ true)

namespace_eqb-eq : (a b : Namespace) → namespace_eqb a b ≡ true → a ≡ b
namespace_eqb-eq (vine_session a) (vine_session b) h = ap vine_session ((eqb_iff a b).0 h)
namespace_eqb-eq (vine_session a) (other_namespace b) h = absurd (cc)
namespace_eqb-eq (other_namespace a) (vine_session b) h = absurd (cc)
namespace_eqb-eq (other_namespace a) (other_namespace b) h = ap other_namespace ((eqb_iff a b).0 h)

and_then-ok {ℓ κ} :
    {A : Type ℓ} {B : Type κ} (r : Result UserAuthError A) (f : A → Result UserAuthError B) (b : B)
    → and_then r f ≡ ok b
    → (a : A) × (r ≡ ok a) × (f a ≡ ok b)
and_then-ok (ok a) f b h = (a, refl, h)
and_then-ok (err e) f b h = absurd (cc)

check_stands :
    (wanted : Option Namespace) (user : User) (role : UserRoleSpec) (namespace : Namespace)
    → check_user_namespace wanted user role ≡ ok namespace
    → (namespace ≡ user_namespace user) ⊎ (role.is_admin ≡ true)
unfolding check_user_namespace
check_stands none user role namespace = λ h. inl (sym (ok-injective _ _ h))
check_stands (some asked) user role namespace =
    if_rule
      (λ (r : Result UserAuthError Namespace).
        r ≡ ok namespace → (namespace ≡ user_namespace user) ⊎ (role.is_admin ≡ true))
      (role.is_admin || namespace_eqb asked (user_namespace user))
      (λ allowed h.
        elim (or_cases role.is_admin (namespace_eqb asked (user_namespace user)) allowed) [
          | inl is_admin ↦ inr is_admin
          | inr same ↦ inl (
              sym (ok-injective asked namespace h)
              ∙ namespace_eqb-eq asked (user_namespace user) same)
        ])
      (λ _ h. absurd (cc))

header_stands :
    (header : NamespaceHeader) (user : User) (role : UserRoleSpec) (namespace : Namespace)
    → get_user_namespace header user role ≡ ok namespace
    → (namespace ≡ user_namespace user) ⊎ (role.is_admin ≡ true)
header_stands absent user role namespace h = inl (sym (ok-injective _ _ h))
header_stands garbled user role namespace h = absurd (cc)
header_stands (named asked) user role namespace h = check_stands (some asked) user role namespace h

module _ (services : Services) (now : ℕ) where
  open_session-IsConfined :
      (header : NamespaceHeader) (token : ℕ) (user : User) (session : UserSession)
      → open_session services header now token user ≡ ok session
      → IsConfined services now session
  open_session-IsConfined header token user session h =
      let role = get_user_role services.roles services.role_bindings user now in
      let (namespace, given, made) =
        and_then-ok (get_user_namespace header user role) _ session h in
      if_rule
        (λ (r : Result UserAuthError UserSession). r ≡ ok session → IsConfined services now session)
        services.has_client
        (λ _ e.
          subst (IsConfined services now)
            (ok-injective (new_session token user role namespace) session e)
            (record {
              role_eq = refl;
              user_name_eq = refl;
              stands = header_stands header user role namespace given;
            }))
        (λ _ e. absurd (cc)) made

  namespaced-IsConfined :
      (session next : UserSession) (wanted : Option Namespace)
      → IsConfined services now session
      → namespaced session wanted ≡ ok next
      → IsConfined services now next
  unfolding namespaced
  namespaced-IsConfined session next wanted held h =
      let (namespace, given, made) =
        and_then-ok (check_user_namespace wanted session.user session.role) _ next h in
      subst (IsConfined services now)
        (ok-injective (record session { namespace = namespace }) next made)
        (record {
          role_eq = held.role_eq;
          user_name_eq = held.user_name_eq;
          stands = check_stands wanted session.user session.role namespace given;
        })

  namespaced_all-IsConfined :
      (session last : UserSession) (wanted : List (Option Namespace))
      → IsConfined services now session
      → namespaced_all session wanted ≡ ok last
      → IsConfined services now last
  unfolding namespaced_all
  namespaced_all-IsConfined session last [] held h =
      subst (IsConfined services now) (ok-injective session last h) held
  namespaced_all-IsConfined session last (asked ∷ more) held h =
      let (next, moved, rest) = and_then-ok (namespaced session asked) _ last h in
      namespaced_all-IsConfined next last more (namespaced-IsConfined session next asked held moved)
        rest

Granted-admin :
    (services : Services) (now : ℕ) (session : UserSession)
    → IsConfined services now session
    → session.role.is_admin ≡ true
    → Granted admin
        (unwrap_or services.roles [])
        session.user_name
        now
        (unwrap_or services.role_bindings [])
Granted-admin services now session held is_admin =
    subst
      (λ name.
        Granted admin (unwrap_or services.roles []) name now (unwrap_or services.role_bindings []))
      (sym held.user_name_eq)
      ((get_user_role_iff admin services.roles services.role_bindings session.user now).0
        (ap (λ (r : UserRoleSpec). r.is_admin) (sym held.role_eq) ∙ is_admin))

-- After a sign-in and any row of changes of the namespace, the session stands in its user's own
-- namespace, or a binding that the filters keep names the user and a role of administrators.
pub sessions_confined :
    (services : Services) (authorization : Authorization) (header : NamespaceHeader) (now : ℕ)
    (first last : UserSession) (wanted : List (Option Namespace))
    → from_request_with_timestamp services authorization header now ≡ ok first
    → namespaced_all first wanted ≡ ok last
    → (last.namespace ≡ user_namespace last.user)
      ⊎ Granted admin
          (unwrap_or services.roles [])
          last.user_name
          now
          (unwrap_or services.role_bindings [])
unfolding from_request_with_timestamp
sessions_confined services authorization header now first last wanted signed moved =
    let (token, e1, h1) = and_then-ok (get_user_token authorization) _ first signed in
    let (key, e2, h2) = and_then-ok (get_user_name services token) _ first h1 in
    let (user, e3, h3) =
      and_then-ok (ok_or (services.find_user key) user_not_registered) _ first h2 in
    let held =
      namespaced_all-IsConfined services now first last wanted
        (open_session-IsConfined services now header token user first h3) moved in
    elim ((λ (c : IsConfined services now last). c.stands) held) [
      | inl own ↦ inl own
      | inr is_admin ↦ inr (Granted-admin services now last held is_admin)
    ]
