-- ===== src/Config/State.antt =====
-- freeradius_config_manager.py: the state of the manager, the tracker in the table
-- `freeradius_config`, and the files.
use openradiusweb.Prelude.{
  ℕ, Bool, true, false, ◌&&◌, not, Option, none, some, List, [], ◌∷◌, keep_if, first, if◌then◌else◌,
  is_some,
}
use openradiusweb.Prelude.Text.{Text, codes, text_eq}
use openradiusweb.Prelude.Result.{Result, db_error}
use openradiusweb.Prelude.Exec.{Exec, pure, raise, lift, gets, modify, ◌>>=◌, ◌>>◌}
use openradiusweb.Config.Tables.{Tenant, Db, File, Outside}
use openradiusweb.Prelude.Dict.{put, get_entry}

-- What becomes of a configuration, and of the reload.
pub data Status : Type 0 where
  applied unchanged error ok_status skipped : Status

-- A row of `freeradius_config`, the columns that are not time stamps.
pub record ConfigRow : Type 0 where
  pub config_type : Text
  pub config_name : Text
  pub config_content : Text
  pub config_hash : Text
  pub last_applied_hash : Option Text
  pub status : Status
  pub error_message : Option Text
  pub tenant_id : Option Text

-- The tables, the tenant that the process has cached, the tracker, the files, and how many signals
-- FreeRADIUS has got.
pub record World : Type 0 where
  pub db : Db
  pub default_tenant_id : Option Text
  pub rows : List ConfigRow
  pub files : List (Text × File)
  pub signals : ℕ

abbrev first_default : List Tenant → Option Text
first_default tenants = elim (first (keep_if (λ t. text_eq t.name (codes "default")) tenants)) [
  | none ↦ none
  | some t ↦ some t.id
]

abbrev pub same_tenant : Option Text → Option Text → Bool
same_tenant none none = true
same_tenant (some a) (some b) = text_eq a b
same_tenant none (some b) = false
same_tenant (some a) none = false

-- The condition of the queries on the tracker.
abbrev pub is_row : Text → Text → Option Text → ConfigRow → Bool
is_row config_type config_name tenant r =
    text_eq r.config_type config_type
    && (text_eq r.config_name config_name && same_tenant r.tenant_id tenant)

abbrev pub hash_of : Option ConfigRow → Option Text
hash_of none = none
hash_of (some r) = r.last_applied_hash

-- `ON CONFLICT (config_type, config_name, tenant_id) DO UPDATE`: the row of the key, which the
-- constraint has unique, is replaced; NULL is no key, so a row without a tenant never conflicts.
unfoldable pub upsert : ConfigRow → List ConfigRow → List ConfigRow
upsert r [] = r ∷ []
upsert r (s ∷ rows) =
    let later = upsert r rows in
    if is_some r.tenant_id && is_row r.config_type r.config_name r.tenant_id s
    then r ∷ rows
    else s ∷ later

module _ (o : Outside) where
  abbrev cached : Option Text → Exec World (Option Text)
  cached none = pure none
  cached (some id) = modify (λ w. record w { default_tenant_id = some id }) >> pure (some id)

  abbrev resolve : Option Text → Exec World (Option Text)
  resolve (some id) = pure (some id)
  resolve none =
      if not o.connected
      then raise db_error
      else if o.answers
      then gets (λ w. first_default w.db.tenants) >>= cached
      else pure none

  -- `_get_default_tenant_id`: a query that fails gives None, a connection that fails raises.
  unfoldable pub get_default_tenant_id : Exec World (Option Text)
  get_default_tenant_id = gets (λ w. w.default_tenant_id) >>= resolve

  unfoldable pub get_stored_hash : Text → Text → Exec World (Option Text)
  unfolding get_default_tenant_id
  get_stored_hash config_type config_name = do
    tenant ← get_default_tenant_id
    if not o.connected
        then raise db_error
        else if o.answers
        then gets (λ w. hash_of (first (keep_if (is_row config_type config_name tenant) w.rows)))
        else pure none

  -- `_save_config_state`: a statement that fails is rolled back and logged.
  unfoldable pub save_config_state :
      Text → Text → Text → Text → Status → Option Text → Exec World (Unit {0})
  unfolding get_default_tenant_id upsert
  save_config_state config_type config_name content hash status message = do
    tenant ← get_default_tenant_id
    if not o.connected
        then raise db_error
        else if o.saves config_name
        then modify (λ w. record w {
          rows =
              upsert
                (record {
                  config_type = config_type;
                  config_name = config_name;
                  config_content = content;
                  config_hash = hash;
                  last_applied_hash = some hash;
                  status = status;
                  error_message = message;
                  tenant_id = tenant;
                })
                w.rows;
        })
        else pure tt

  abbrev pub place : Text → Option File → List (Text × File) → List (Text × File)
  place path none files = keep_if (λ e. not (text_eq (e.0) path)) files
  place path (some f) files = put path f files

  abbrev pub written : Text → Result (Unit {0}) × Option File → Exec World (Unit {0})
  written path (outcome, f) w = (outcome, record w { files = place path f w.files })

  -- `_write_file`.
  unfoldable pub write_file : Text → Text → ℕ → Exec World (Unit {0})
  unfolding get_entry put
  write_file path content mode = do
    lift (o.make_parent path)
    λ w.
        written path
          (o.write path (record { content = content; mode = mode }) (get_entry path w.files)) w
