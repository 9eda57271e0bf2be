-- ===== src/Kiss/Gateway.antt =====
-- The gateway that the boxes report to, crates/kiss/gateway/src/main.rs: a box that boots registers
-- itself, and a commissioned one hands in its access.
--
-- `Calls` says which calls of the Kubernetes API fail. The access of a query is `none` where its
-- link speed does not parse.
use open_ark.Prelude.{ℕ, Bool, Option, none, some, if◌then◌else◌, Result, ok, err}
use open_ark.Kiss.{fresh, ready, BoxGroupSpec, default_group, BoxCrd}

pub data GatewayError : Type 0 where
  api_failed bad_query no_such_box : GatewayError

pub record Calls : Type 0 where
  pub get_fails : Bool
  pub create_fails : Bool
  pub patch_fails : Bool
  pub patch_status_fails : Bool

-- The reply, and what is stored under the name of the box after it.
pub record Reply : Type 0 where
  pub result : Result {0, 0} GatewayError Unit
  pub stored : Option BoxCrd

-- `BoxNewQuery`
pub record BoxNewQuery : Type 0 where
  pub access_primary : Option ℕ
  pub uuid : ℕ

-- `BoxCommissionQuery`; the access has no primary interface where the inner option is `none`.
pub record BoxCommissionQuery : Type 0 where
  pub access : Option (Option ℕ)
  pub uuid : ℕ
  pub power : Option ℕ
  pub reset : Bool

abbrev pub bound : BoxCrd → Option BoxGroupSpec
bound box = elim box.status [ none ↦ none | some status ↦ status.bind_group ]

-- The patch of the status that both branches of `get_new` end in.
unfoldable pub register : Calls → ℕ → Option ℕ → Option BoxGroupSpec → BoxCrd → Reply
register calls now access bind_group box = elim access [
  | none ↦ record { result = err bad_query; stored = some box }
  | some address ↦
      if calls.patch_status_fails
      then record { result = err api_failed; stored = some box }
      else record {
        result = ok tt;
        stored = some (record box {
          status = some (record {
            state = fresh;
            access = some address;
            bind_group = bind_group;
            last_updated = now;
          });
        });
      }
]

-- `get_new`
unfoldable pub get_new : Calls → ℕ → BoxNewQuery → Option BoxCrd → Reply
get_new calls now query stored =
    if calls.get_fails then record { result = err api_failed; stored = stored } else elim stored [
      | some box ↦ register calls now query.access_primary (bound box) box
      | none ↦
          if calls.create_fails
          then record { result = err api_failed; stored = none }
          else register calls now query.access_primary none (record {
            uuid = query.uuid;
            creation_timestamp = some now;
            group = default_group;
            power = none;
            status = none;
          })
    ]

-- The two patches of `post_commission`.
unfoldable pub commission_box : Calls → ℕ → BoxCommissionQuery → Option ℕ → BoxCrd → Reply
commission_box calls now query access box =
    if calls.patch_fails
    then record { result = err api_failed; stored = some box }
    else let patched = record box { uuid = query.uuid; power = query.power } in
      if calls.patch_status_fails
      then record { result = err api_failed; stored = some patched }
      else record {
        result = ok tt;
        stored = some (record patched {
          status = some (record {
            state = ready;
            access = access;
            bind_group = if query.reset then none else bound box;
            last_updated = now;
          });
        });
      }

-- `post_commission`
unfoldable pub post_commission : Calls → ℕ → BoxCommissionQuery → Option BoxCrd → Reply
post_commission calls now query stored =
    if calls.get_fails then record { result = err api_failed; stored = stored } else elim stored [
      | none ↦ record { result = err no_such_box; stored = none }
      | some box ↦ elim query.access [
        | none ↦ record { result = err bad_query; stored = some box }
        | some access ↦ commission_box calls now query access box
      ]
    ]
