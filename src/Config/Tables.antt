-- ===== src/Config/Tables.antt =====
-- freeradius_config_manager.py: the tables, the loaders, and what stands outside of the code.
use openradiusweb.Prelude.Order.{order_by}
use openradiusweb.Prelude.{
  ℕ, Bool, ◌&&◌, ◌||◌, Option, List, [], ◌++◌, keep_if, if◌then◌else◌, ltb, ◌==◌,
}
use openradiusweb.Prelude.Text.{Text, codes, text_eq, lower, replace_code, starts_with, ends_with}
use openradiusweb.Prelude.Result.{Exn, Result, ok, err, db_error}

-- A row of `certificates`.
pub record Certificate : Type 0 where
  pub cert_type : Text
  pub name : Text
  pub pem_data : Option Text
  pub chain_pem : Option Text
  pub key_pem_encrypted : Option Text
  pub dh_params_pem : Option Text
  pub is_active : Bool
  pub enabled : Bool

-- A row of `ldap_servers`.
pub record LdapServer : Type 0 where
  pub name : Text
  pub host : Text
  pub port : ℕ
  pub bind_dn : Text
  pub bind_password_encrypted : Option Text
  pub base_dn : Text
  pub user_search_base : Option Text
  pub user_search_filter : Option Text
  pub group_search_base : Option Text
  pub group_search_filter : Option Text
  pub group_membership_attr : Option Text
  pub use_tls : Option Bool
  pub use_starttls : Option Bool
  pub tls_ca_cert : Option Text
  pub tls_require_cert : Option Text
  pub connect_timeout_seconds : Option ℕ
  pub search_timeout_seconds : Option ℕ
  pub idle_timeout_seconds : Option ℕ
  pub priority : ℕ
  pub enabled : Bool

-- A row of `radius_realms`.
pub record Realm : Type 0 where
  pub name : Text
  pub realm_type : Text
  pub proxy_host : Option Text
  pub proxy_port : Option ℕ
  pub proxy_secret_encrypted : Option Text
  pub proxy_dead_time_seconds : Option ℕ
  pub strip_username : Option Bool
  pub priority : ℕ
  pub enabled : Bool

-- A row of `radius_nas_clients`.
pub record NasClient : Type 0 where
  pub name : Text
  pub ip_address : Text
  pub shortname : Option Text
  pub secret_encrypted : Option Text
  pub nas_type : Option Text
  pub description : Option Text
  pub virtual_server : Option Text
  pub enabled : Bool

-- A row of `system_settings`.
pub record Setting : Type 0 where
  pub category : Text
  pub setting_key : Text
  pub setting_value : Option Text

pub record Tenant : Type 0 where
  pub id : Text
  pub name : Text

-- The tables that the code only reads.
pub record Db : Type 0 where
  pub certificates : List Certificate
  pub ldap_servers : List LdapServer
  pub realms : List Realm
  pub nas_clients : List NasClient
  pub system_settings : List Setting
  pub tenants : List Tenant

-- What the templates of servers and sites are given; the fields carry the names of the variables.
pub record EapVars : Type 0 where
  pub ca_cert_path : Text
  pub ca_path : Text
  pub server_cert_path : Text
  pub server_key_path : Text
  pub dh_file : Option Text
  pub default_eap_type : Option Text
  pub tls_min_version : Option Text
  pub tls_max_version : Option Text

pub record LdapVars : Type 0 where
  pub module_name : Text
  pub host : Text
  pub port : ℕ
  pub bind_dn : Text
  pub bind_password : Text
  pub base_dn : Text
  pub user_search_base : Text
  pub user_search_filter : Option Text
  pub group_search_base : Text
  pub group_search_filter : Option Text
  pub group_membership_attr : Option Text
  pub use_tls : Option Bool
  pub use_starttls : Option Bool
  pub tls_ca_cert_path : Option Text
  pub tls_require_cert : Text
  pub connect_timeout_seconds : Option ℕ
  pub search_timeout_seconds : Option ℕ
  pub idle_timeout_seconds : Option ℕ

-- A module of LDAP in a site: `name` and `module_name`.
pub record SiteVars : Type 0 where
  pub has_eap : Option Bool
  pub has_python : Bool
  pub ldap_modules : List (Text × Text)
  pub realms_enabled : Bool

-- A file's content and its mode.
pub record File : Type 0 where
  pub content : Text
  pub mode : ℕ

-- What stands outside of the code: the database (is there a connection, does it answer a query, does
-- it take the row of a configuration, in what order does it put texts), `decrypt_secret`, SHA-256 of
-- UTF-8, the templates with the time that they are given (one for all templates of a round, another
-- for each round), the files, and the container.
-- `make_dirs` is that call for a directory, `make_parent` for the directory of a path. `write` says
-- what comes of writing a file, and of chmod, at a path where there was this file or none: the
-- outcome, and what is at the path then. `docker_sdk` is none where the package is not installed.
-- `message` is the text of an exception.
pub record Outside : Type 0 where
  pub connected : Bool
  pub answers : Bool
  pub saves : Text → Bool
  pub collate : Text → Text → Bool
  pub decrypt_secret : Option Text → Result (Option Text)
  pub sha256 : Text → Text
  pub generated_at : Text
  pub render_eap : Text → EapVars → Result Text
  pub render_ldap : Text → List LdapVars → Result Text
  pub render_python : Text → Text → Result Text
  pub render_default : Text → SiteVars → Result Text
  pub render_inner_tunnel : Text → SiteVars → Result Text
  pub has_python3_env : Option Text
  pub is_file : Text → Bool
  pub output_dir : Text
  pub cert_dir : Text
  pub make_dirs : Text → Result (Unit {0})
  pub make_parent : Text → Result (Unit {0})
  pub write : Text → File → Option File → Result (Unit {0}) × Option File
  pub docker_sdk : Option (Result (Unit {0}))
  pub docker_cli : Result (Unit {0})
  pub message : Exn → Text

-- `os.path.join` of two parts.
unfoldable pub join_path : Text → Text → Text
join_path a b =
    if starts_with b (codes "/")
    then b
    else if text_eq a [] || ends_with a (codes "/")
    then a ++ b
    else a ++ (codes "/" ++ b)

-- `name.lower().replace(" ", "_").replace("-", "_").replace(".", "_")`.
unfoldable pub safe_name : Text → Text
safe_name name =
    replace_code b'.' b'_' (replace_code b'-' b'_' (replace_code b' ' b'_' (lower name)))

module _ (o : Outside) where
  -- Of two rows, whether the first comes strictly first by two columns.
  abbrev pub before_text : Text → Text → Text → Text → Bool
  before_text a a' b b' = if text_eq a b then o.collate a' b' else o.collate a b

  abbrev pub before_number : ℕ → Text → ℕ → Text → Bool
  before_number m a n b = if m == n then o.collate a b else ltb m n

  -- `_fetch_all`: no connection, or a query that fails, raises.
  abbrev pub fetch_all : {A : Type 0} → List A → Result (List A)
  fetch_all rows = if o.connected && o.answers then ok rows else err db_error

  unfoldable pub load_active_certificates : Db → Result (List Certificate)
  load_active_certificates db = fetch_all (
      order_by (λ a b. before_text a.cert_type a.name b.cert_type b.name)
        (keep_if (λ c. c.is_active && c.enabled) db.certificates))

  unfoldable pub load_ldap_servers : Db → Result (List LdapServer)
  load_ldap_servers db = fetch_all (
      order_by (λ a b. before_number a.priority a.name b.priority b.name)
        (keep_if (λ s. s.enabled) db.ldap_servers))

  unfoldable pub load_realms : Db → Result (List Realm)
  load_realms db = fetch_all (
      order_by (λ a b. before_number a.priority a.name b.priority b.name)
        (keep_if (λ r. r.enabled) db.realms))

  unfoldable pub load_nas_clients : Db → Result (List NasClient)
  load_nas_clients db =
      fetch_all
        (order_by (λ a b. o.collate a.name b.name) (keep_if (λ c. c.enabled) db.nas_clients))

  unfoldable pub load_system_settings : Db → Text → Result (List Setting)
  load_system_settings db category =
      fetch_all (keep_if (λ s. text_eq s.category category) db.system_settings)
