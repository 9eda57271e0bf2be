-- ===== src/Vine.antt =====
-- Vine, which signs users in: the resources of crates/vine/api/src.
--
-- A name, a token is a number that stands for it; times are in seconds.
pub mod Roles
pub mod Session
pub mod Examples
use open_ark.Prelude.{ℕ, Bool, true, false, ◌||◌, Option, none, some, List, [], ◌∷◌, eqb, unwrap_or}

-- `UserRoleSpec`
pub record UserRoleSpec : Type 0 where
  pub is_admin : Bool
  pub is_dev : Bool
  pub is_ops : Bool

-- `UserRoleSpec::default`
abbrev pub no_role : UserRoleSpec
no_role = record { is_admin = false; is_dev = false; is_ops = false }

-- `UserRoleSpec::bitor`
abbrev pub bitor : UserRoleSpec → UserRoleSpec → UserRoleSpec
bitor a b = record {
  is_admin = a.is_admin || b.is_admin;
  is_dev = a.is_dev || b.is_dev;
  is_ops = a.is_ops || b.is_ops;
}

-- `UserRoleSpec::sum`, `reduce` with the default for an empty row.
unfoldable pub reduce_roles : UserRoleSpec → List UserRoleSpec → UserRoleSpec
reduce_roles role [] = role
reduce_roles role (r ∷ rs) = reduce_roles (bitor role r) rs

abbrev pub sum_roles : List UserRoleSpec → UserRoleSpec
sum_roles [] = no_role
sum_roles (r ∷ rs) = reduce_roles r rs

-- `UserRoleBindingSpec`
pub record RoleBinding : Type 0 where
  pub user : ℕ
  pub role : ℕ
  pub expired_timestamp : Option ℕ

-- A namespace: `vine-session-` before a user's name, or another text.
pub data Namespace : Type 0 where
  vine_session other_namespace : ℕ → Namespace

abbrev pub namespace_eqb : Namespace → Namespace → Bool
namespace_eqb (vine_session a) (vine_session b) = eqb a b
namespace_eqb (vine_session a) (other_namespace b) = false
namespace_eqb (other_namespace a) (vine_session b) = false
namespace_eqb (other_namespace a) (other_namespace b) = eqb a b

-- `UserCrd`, with the labels of its bound box.
pub record User : Type 0 where
  pub name : ℕ
  pub alias : Option ℕ
  pub is_bound : Bool
  pub bind_node : Option ℕ

-- `UserCrd::preferred_name`
abbrev pub preferred_name : User → ℕ
preferred_name user = unwrap_or user.alias user.name

-- `UserCrd::user_namespace`
abbrev pub user_namespace : User → Namespace
user_namespace user = vine_session (preferred_name user)

-- `UserAuthError`
pub data UserAuthError : Type 0 where
  authorization_token_malformed authorization_token_not_found namespace_not_allowed
        namespace_token_malformed primary_key_malformed user_not_admin user_not_registered
        session_not_binded :
      UserAuthError
