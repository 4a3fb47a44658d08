-- ===== src/Gateway/Audit.antt =====
-- services/gateway/utils/audit.py: `log_audit`, the entries of `audit_log`, and who makes them.
use openradiusweb.Prelude.{Bool, true, ◌&&◌, Option, none, some, if◌then◌else◌}
use openradiusweb.Prelude.Text.{Text}
use openradiusweb.Prelude.Result.{Result, ok, err, db_error, key_error}
use openradiusweb.Prelude.Exec.{Exec, raise, modify}
use openradiusweb.Value.{Fields}

-- A row of `audit_log`.
pub record Audit : Type 0 where
  pub user_id : Option Text
  pub action : Text
  pub resource_type : Text
  pub resource_id : Option Text
  pub details : Fields
  pub ip_address : Option Text
  pub tenant_id : Option Text

-- A decoded token, of which `sub` and `tenant_id` are read.
pub record Actor : Type 0 where
  pub sub : Option Text
  pub tenant_id : Option Text

abbrev pub castable : (Text → Bool) → Option Text → Bool
castable test none = true
castable test (some s) = test s

-- `actor["sub"]` and `actor["tenant_id"]`.
abbrev pub required : Option Text → Result Text
required none = err key_error
required (some t) = ok t

module _ (is_uuid is_inet : Text → Bool) where
  -- Whether the database takes the identifiers and the address of an entry.
  abbrev pub entry_casts : Actor → Option Text → Option Text → Bool
  entry_casts user resource_id ip_address =
      castable is_uuid user.sub
      && (castable is_uuid user.tenant_id
          && (castable is_uuid resource_id && castable is_inet ip_address))

  -- `log_audit`, on a state that entries are added to.
  unfoldable pub write_audit :
      {S : Type 0}
      → (Audit → S → S)
      → Actor
      → Text
      → Text
      → Option Text
      → Fields
      → Option Text
      → Exec S (Unit {0})
  write_audit add user action resource_type resource_id details ip_address =
      if entry_casts user resource_id ip_address
      then modify (
          add (record {
            user_id = user.sub;
            action = action;
            resource_type = resource_type;
            resource_id = resource_id;
            details = details;
            ip_address = ip_address;
            tenant_id = user.tenant_id;
          }))
      else raise db_error
