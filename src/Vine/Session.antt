-- ===== src/Vine/Session.antt =====
-- Signing in and changing the namespace of a session, crates/vine/rbac/src/auth.rs.
pub mod Confined
use open_ark.Prelude.{
  ℕ, Bool, true, false, ◌||◌, Option, none, some, List, [], ◌∷◌, ◌≡◌, ◌↔◌, ◌⊎◌, inl, inr, refl, sym,
  ap, subst, ◌∙◌, eqb, eqb_iff, if◌then◌else◌, if_rule, unwrap_or, Result, ok, err, ok-injective,
  Result-cases,
}
use open_ark.Vine.{
  UserRoleSpec, RoleBinding, Namespace, vine_session, other_namespace, namespace_eqb, User,
  preferred_name, user_namespace, UserAuthError, authorization_token_malformed,
  authorization_token_not_found, namespace_not_allowed, namespace_token_malformed,
  primary_key_malformed, user_not_admin, user_not_registered, session_not_binded,
}
use open_ark.Vine.Roles.{get_user_role, Granted, admin, get_user_role_iff}

-- The two headers of a request.
pub data Authorization : Type 0 where
  missing unreadable other_scheme : Authorization
  bearer : ℕ → Authorization

pub data NamespaceHeader : Type 0 where
  absent garbled : NamespaceHeader
  named : Namespace → NamespaceHeader

-- What a sign-in meets: the decoding of a token's payload and its primary key, and Kubernetes.
pub record Services : Type 0 where
  pub payload : ℕ → Option ℕ
  pub primary_key : ℕ → Option ℕ
  pub find_user : ℕ → Option User
  pub roles : Option (List (ℕ × UserRoleSpec))
  pub role_bindings : Option (List RoleBinding)
  pub has_client : Bool

-- `UserSession`, without the bindings of boxes and quotas, which are only shown, and the client.
pub record UserSession : Type 0 where
  pub box_name : Option ℕ
  pub namespace : Namespace
  pub role : UserRoleSpec
  pub token : ℕ
  pub user : User
  pub user_name : ℕ

-- The `?` of a result.
abbrev pub and_then {ℓ κ} :
    {A : Type ℓ} {B : Type κ}
    → Result UserAuthError A
    → (A → Result UserAuthError B)
    → Result UserAuthError B
and_then (ok a) f = f a
and_then (err e) f = err e

abbrev pub ok_or {ℓ} : {A : Type ℓ} → Option A → UserAuthError → Result UserAuthError A
ok_or none e = err e
ok_or (some a) e = ok a

-- `get_user_token`
abbrev pub get_user_token : Authorization → Result UserAuthError ℕ
get_user_token missing = err authorization_token_not_found
get_user_token unreadable = err authorization_token_malformed
get_user_token other_scheme = err authorization_token_not_found
get_user_token (bearer token) = ok token

-- `get_user_name_with_timestamp_impl`
abbrev pub get_user_name : Services → ℕ → Result UserAuthError ℕ
get_user_name services token =
    and_then (ok_or (services.payload token) authorization_token_malformed)
      (λ payload. ok_or (services.primary_key payload) primary_key_malformed)

-- `check_user_namespace`
unfoldable pub check_user_namespace :
    Option Namespace → User → UserRoleSpec → Result UserAuthError Namespace
check_user_namespace (some namespace) user role =
    if role.is_admin || namespace_eqb namespace (user_namespace user)
    then ok namespace
    else err namespace_not_allowed
check_user_namespace none user role = ok (user_namespace user)

-- `get_user_namespace`
abbrev pub get_user_namespace :
    NamespaceHeader → User → UserRoleSpec → Result UserAuthError Namespace
get_user_namespace absent user role = ok (user_namespace user)
get_user_namespace garbled user role = err namespace_token_malformed
get_user_namespace (named namespace) user role = check_user_namespace (some namespace) user role

-- The session that a sign-in makes of its parts.
abbrev pub new_session : ℕ → User → UserRoleSpec → Namespace → UserSession
new_session token user role namespace = record {
  box_name = if user.is_bound then user.bind_node else none;
  namespace = namespace;
  role = role;
  token = token;
  user = user;
  user_name = preferred_name user;
}

-- `UserSession::from_request_with_timestamp`, from the user on and as a whole
abbrev pub open_session :
    Services → NamespaceHeader → ℕ → ℕ → User → Result UserAuthError UserSession
open_session services header now token user =
    let role = get_user_role services.roles services.role_bindings user now in
    and_then (get_user_namespace header user role) (λ namespace.
      if services.has_client
      then ok (new_session token user role namespace)
      else err namespace_not_allowed)

unfoldable pub from_request_with_timestamp :
    Services → Authorization → NamespaceHeader → ℕ → Result UserAuthError UserSession
from_request_with_timestamp services authorization header now =
    and_then (get_user_token authorization) (λ token.
      and_then (get_user_name services token) (λ key.
        and_then (ok_or (services.find_user key) user_not_registered)
          (λ user. open_session services header now token user)))

-- `UserSession::namespaced`
unfoldable pub namespaced : UserSession → Option Namespace → Result UserAuthError UserSession
namespaced session wanted =
    and_then (check_user_namespace wanted session.user session.role)
      (λ namespace. ok (record session { namespace = namespace }))

-- A row of changes of the namespace, each on the session that the one before it returns.
unfoldable pub namespaced_all :
    UserSession → List (Option Namespace) → Result UserAuthError UserSession
namespaced_all session [] = ok session
namespaced_all session (wanted ∷ more) =
    and_then (namespaced session wanted) (λ next. namespaced_all next more)
