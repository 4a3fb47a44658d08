-- ===== src/Config/Times.antt =====
-- freeradius_config_manager.py: what the time of a round has to do with the files. Every template
-- takes `generated_at`, the time at which it is rendered; `proxy.conf` and `clients.conf` do not.
use openradiusweb.Prelude.{◌≡◌, refl, List, [], ◌∷◌, ap}
use openradiusweb.Prelude.Text.{Text}
use openradiusweb.Prelude.Result.{◌>>=◌}
use openradiusweb.Config.Tables.{
  Realm, NasClient, LdapServer, Db, Outside, load_active_certificates, load_ldap_servers,
  load_realms, load_nas_clients, load_system_settings,
}
use openradiusweb.Config.Templates.{
  generate_eap_config, generate_ldap_configs, all_ldap_vars, ldap_vars, render_servers,
  generate_python_config, generate_site_default, generate_site_inner_tunnel, rlm_python3_available,
}
use openradiusweb.Config.Realms.{generate_proxy_config, all_home_server_lines}
use openradiusweb.Config.Clients.{generate_clients_config, all_client_lines}
use openradiusweb.Config.Files.{generate_all_configs}

-- No template prints the time: services/auth/tests/unit/test_template_determinism.py demands it.
abbrev pub IsTimeless : Outside → Type 0
IsTimeless o =
    ((a b : Text) → o.render_eap a ≡ o.render_eap b)
    × ((a b : Text) → o.render_ldap a ≡ o.render_ldap b)
    × ((a b : Text) → o.render_python a ≡ o.render_python b)
    × ((a b : Text) → o.render_default a ≡ o.render_default b)
    × ((a b : Text) → o.render_inner_tunnel a ≡ o.render_inner_tunnel b)

-- The same outside at another time.
abbrev pub at_time : Text → Outside → Outside
at_time later o = record o { generated_at = later }

module _ (o : Outside) (later : Text) where
  all_ldap_vars-at_time :
      (servers : List LdapServer)
      → all_ldap_vars (at_time later o) servers ≡ all_ldap_vars o servers
  unfolding all_ldap_vars ldap_vars
  all_ldap_vars-at_time [] = refl
  all_ldap_vars-at_time (s ∷ servers) = rw (all_ldap_vars-at_time servers) refl

  all_home_server_lines-at_time :
      (realms : List Realm)
      → all_home_server_lines (at_time later o) realms ≡ all_home_server_lines o realms
  unfolding all_home_server_lines
  all_home_server_lines-at_time [] = refl
  all_home_server_lines-at_time (r ∷ realms) = rw (all_home_server_lines-at_time realms) refl

  all_client_lines-at_time :
      (clients : List NasClient)
      → all_client_lines (at_time later o) clients ≡ all_client_lines o clients
  unfolding all_client_lines
  all_client_lines-at_time [] = refl
  all_client_lines-at_time (c ∷ clients) = rw (all_client_lines-at_time clients) refl

  generate_proxy_config-at_time :
      (db : Db) → generate_proxy_config (at_time later o) db ≡ generate_proxy_config o db
  unfolding generate_proxy_config load_realms
  generate_proxy_config-at_time db = simp (all_home_server_lines-at_time) refl

  generate_clients_config-at_time :
      (db : Db) → generate_clients_config (at_time later o) db ≡ generate_clients_config o db
  unfolding generate_clients_config load_nas_clients
  generate_clients_config-at_time db = simp (all_client_lines-at_time) refl

  module _ (timeless : IsTimeless o) where
    generate_eap_config-at_time :
        (db : Db) → generate_eap_config (at_time later o) db ≡ generate_eap_config o db
    unfolding generate_eap_config load_active_certificates load_system_settings
    generate_eap_config-at_time db = rw (timeless.0 later o.generated_at) refl

    render_servers-at_time :
        (servers : List LdapServer)
        → render_servers (at_time later o) servers ≡ render_servers o servers
    render_servers-at_time [] = refl
    render_servers-at_time (s ∷ servers) =
        rw (all_ldap_vars-at_time (s ∷ servers), timeless.1 later o.generated_at) refl

    generate_ldap_configs-at_time :
        (db : Db) → generate_ldap_configs (at_time later o) db ≡ generate_ldap_configs o db
    unfolding generate_ldap_configs load_ldap_servers
    generate_ldap_configs-at_time db =
        ap (λ k. load_ldap_servers o db >>= k) (λ i s. render_servers-at_time s i)

    -- The files are the same at any time.
    pub generate_all_configs-at_time :
        (db : Db) → generate_all_configs (at_time later o) db ≡ generate_all_configs o db
    unfolding generate_all_configs load_realms generate_python_config generate_site_default
        generate_site_inner_tunnel rlm_python3_available
    generate_all_configs-at_time db =
        let (eap, ldap, python, default, inner) = timeless in
        rw
          (
            generate_eap_config-at_time db,
            generate_ldap_configs-at_time db,
            generate_proxy_config-at_time db,
            generate_clients_config-at_time db,
            python later o.generated_at,
            default later o.generated_at,
            inner later o.generated_at,
          )
          refl
