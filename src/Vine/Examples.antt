-- ===== src/Vine/Examples.antt =====
-- A sign-in at work, and the theorems at it.
use open_ark.Prelude.{
  ℕ, true, false, Option, none, some, List, [], ◌∷◌, ◌≡◌, ◌↔◌, ◌⊎◌, refl, unwrap_or, ok, eqb,
  if◌then◌else◌,
}
use open_ark.Vine.{
  UserRoleSpec, reduce_roles, RoleBinding, other_namespace, User, preferred_name, user_namespace,
}
use open_ark.Vine.Roles.{
  get_user_role, find_role, bound_roles, admin, holds, Granted, get_user_role_iff,
}
use open_ark.Vine.Session.{
  bearer, absent, Services, UserSession, new_session, check_user_namespace,
  from_request_with_timestamp, namespaced, namespaced_all,
}
use open_ark.Vine.Session.Confined.{sessions_confined}

abbrev admins : UserRoleSpec
admins = record { is_admin = true; is_dev = false; is_ops = false }

abbrev known : Option (List (ℕ × UserRoleSpec))
known = some ((1, admins) ∷ [])

abbrev bound : Option (List RoleBinding)
bound = some (record { user = 5; role = 1; expired_timestamp = none } ∷ [])

abbrev carol : User
carol = record { name = 4; alias = some 5; is_bound = false; bind_node = none }

abbrev site : Services
site = record {
  payload = λ token. some token;
  primary_key = λ payload. some payload;
  find_user = λ key. if eqb key 4 then some carol else none;
  roles = known;
  role_bindings = bound;
  has_client = true;
}

get_user_role_iff_example :
    (holds admin (get_user_role known bound carol 9) ≡ true)
    ↔ Granted admin (unwrap_or known []) (preferred_name carol) 9 (unwrap_or bound [])
get_user_role_iff_example = get_user_role_iff admin known bound carol 9

abbrev opened : UserSession
opened = new_session 4 carol admins (user_namespace carol)

abbrev visiting : UserSession
visiting = record opened { namespace = other_namespace 3 }

opens : from_request_with_timestamp site (bearer 4) absent 9 ≡ ok opened
unfolding from_request_with_timestamp get_user_role bound_roles find_role reduce_roles
opens = refl

visits : namespaced_all opened (some (other_namespace 3) ∷ []) ≡ ok visiting
unfolding namespaced_all namespaced check_user_namespace
visits = refl

sessions_confined_example :
    (visiting.namespace ≡ user_namespace visiting.user)
    ⊎ Granted admin (unwrap_or known []) visiting.user_name 9 (unwrap_or bound [])
sessions_confined_example =
    sessions_confined site (bearer 4) absent 9 opened visiting (some (other_namespace 3) ∷ []) opens
      visits
