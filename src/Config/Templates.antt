-- ===== src/Config/Templates.antt =====
-- freeradius_config_manager.py: what the templates of EAP, LDAP, Python and the sites are given.
use openradiusweb.Prelude.{
  Bool, true, false, ◌||◌, Option, none, some, List, [], ◌∷◌, ◌++◌, map, keep_if, first, drop,
  length, if◌then◌else◌, any,
}
use openradiusweb.Prelude.Text.{
  Text, codes, text_eq, text_in, truthy, opt_truthy, text_or_empty, strip, lower, starts_with,
}
use openradiusweb.Prelude.Result.{Result, ok, err, ◌>>=◌}
use openradiusweb.Config.Tables.{
  Certificate, LdapServer, Setting, Db, EapVars, LdapVars, Outside, join_path, safe_name,
  load_active_certificates, load_ldap_servers, load_system_settings,
}

-- `_rlm_python3_available`.
unfoldable pub rlm_python3_available : Outside → Bool
rlm_python3_available o =
    let override = lower (strip (text_or_empty o.has_python3_env)) in
    if text_in override (codes "true" ∷ codes "1" ∷ codes "yes" ∷ [])
    then true
    else if text_in override (codes "false" ∷ codes "0" ∷ codes "no" ∷ [])
    then false
    else any o.is_file (
        codes "/usr/lib/freeradius/rlm_python3.so"
        ∷ codes "/usr/lib/x86_64-linux-gnu/freeradius/rlm_python3.so"
        ∷ codes "/usr/lib/aarch64-linux-gnu/freeradius/rlm_python3.so"
        ∷ [])

-- `try: return template.render(…) except Exception: return ""`.
abbrev pub rendered : Result Text → Text
rendered (ok content) = content
rendered (err e) = []

-- `rows.get(key, default)` of the dict that the rows make: the last row with the key decides.
unfoldable pub setting_or : Text → Text → List Setting → Option Text
setting_or key default [] = some default
setting_or key default (s ∷ rows) =
    let later = setting_or key default rows in
    if any (λ r. text_eq r.setting_key key) rows
    then later
    else if text_eq s.setting_key key
    then s.setting_value
    else later

abbrev pub of_type : Text → List Certificate → Option Certificate
of_type cert_type certs = first (keep_if (λ c. text_eq c.cert_type cert_type) certs)

abbrev pub has_dh_params : Option Certificate → Bool
has_dh_params none = false
has_dh_params (some c) = opt_truthy c.dh_params_pem

-- `value or default` of a nullable column.
abbrev pub or_text : Option Text → Text → Text
or_text none default = default
or_text (some s) default = if truthy s then s else default

abbrev given_or : Option Text → Text → Text
given_or none default = default
given_or (some s) default = s

abbrev ldap_prefix : Text
ldap_prefix = codes "ldap_"

module _ (o : Outside) where
  unfoldable pub eap_vars : List Certificate → List Setting → EapVars
  unfolding setting_or
  eap_vars certs settings = record {
    ca_cert_path = join_path o.cert_dir (codes "ca.pem");
    ca_path = join_path o.cert_dir (codes "trusted-cas/");
    server_cert_path = join_path o.cert_dir (codes "server.pem");
    server_key_path = join_path o.cert_dir (codes "server.key");
    dh_file =
        if has_dh_params (of_type (codes "server") certs)
          || has_dh_params (of_type (codes "ca") certs)
        then some (join_path o.cert_dir (codes "dh.pem"))
        else none;
    default_eap_type = setting_or (codes "default_eap_type") (codes "peap") settings;
    tls_min_version = setting_or (codes "tls_min_version") (codes "1.2") settings;
    tls_max_version = setting_or (codes "tls_max_version") (codes "1.2") settings;
  }

  unfoldable pub generate_eap_config : Db → Result Text
  unfolding load_active_certificates load_system_settings eap_vars
  generate_eap_config db = do
    certs ← load_active_certificates o db
    settings ← load_system_settings o db (codes "radius")
    ok (rendered (o.render_eap o.generated_at (eap_vars certs settings)))

  unfoldable pub ldap_vars : LdapServer → Result LdapVars
  ldap_vars server = do
    password ← o.decrypt_secret server.bind_password_encrypted
    ok record {
      module_name = ldap_prefix ++ safe_name server.name;
      host = server.host;
      port = server.port;
      bind_dn = server.bind_dn;
      bind_password = or_text password [];
      base_dn = server.base_dn;
      user_search_base = or_text server.user_search_base server.base_dn;
      user_search_filter = server.user_search_filter;
      group_search_base = or_text server.group_search_base server.base_dn;
      group_search_filter = server.group_search_filter;
      group_membership_attr = server.group_membership_attr;
      use_tls = server.use_tls;
      use_starttls = server.use_starttls;
      tls_ca_cert_path =
          if opt_truthy server.tls_ca_cert
          then some (
              join_path (join_path o.cert_dir (codes "ldap"))
                (safe_name server.name ++ codes "_ca.pem"))
          else none;
      tls_require_cert = given_or server.tls_require_cert (codes "demand");
      connect_timeout_seconds = server.connect_timeout_seconds;
      search_timeout_seconds = server.search_timeout_seconds;
      idle_timeout_seconds = server.idle_timeout_seconds;
    }

  unfoldable pub all_ldap_vars : List LdapServer → Result (List LdapVars)
  unfolding ldap_vars
  all_ldap_vars [] = ok []
  all_ldap_vars (s ∷ servers) = do v ← ldap_vars s; rest ← all_ldap_vars servers; ok (v ∷ rest)

  -- The files with their contents, and the names of the modules that they declare.
  abbrev combined : List LdapVars → Result Text → List (Text × Text) × List Text
  combined vars (ok content) = ((codes "ldap_orw", content) ∷ [], map (λ v. v.module_name) vars)
  combined vars (err e) = ([], [])

  abbrev pub render_servers : List LdapServer → Result (List (Text × Text) × List Text)
  render_servers [] = ok ([], [])
  render_servers (s ∷ servers) = do
    vars ← all_ldap_vars (s ∷ servers)
    ok (combined vars (o.render_ldap o.generated_at vars))

  unfoldable pub generate_ldap_configs : Db → Result (List (Text × Text) × List Text)
  unfolding load_ldap_servers all_ldap_vars
  generate_ldap_configs db = do servers ← load_ldap_servers o db; render_servers servers

  -- `m.removeprefix("ldap_")`.
  abbrev ldap_module_dict : Text → Text × Text
  ldap_module_dict m = (if starts_with m ldap_prefix then drop (length ldap_prefix) m else m, m)

  unfoldable pub generate_site_default : Bool → Bool → List Text → Bool → Text
  generate_site_default has_eap has_python ldap_modules realms_enabled = rendered (
      o.render_default o.generated_at record {
        has_eap = some has_eap;
        has_python = has_python;
        ldap_modules = map ldap_module_dict ldap_modules;
        realms_enabled = realms_enabled;
      })

  unfoldable pub generate_site_inner_tunnel : Bool → List Text → Bool → Text
  generate_site_inner_tunnel has_python ldap_modules realms_enabled = rendered (
      o.render_inner_tunnel o.generated_at record {
        has_eap = none;
        has_python = has_python;
        ldap_modules = map ldap_module_dict ldap_modules;
        realms_enabled = realms_enabled;
      })

  unfoldable pub generate_python_config : Text
  generate_python_config =
      rendered (o.render_python o.generated_at (codes "/etc/freeradius/mods-config/python"))
