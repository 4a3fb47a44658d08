-- ===== src/Config/Files.antt =====
-- freeradius_config_manager.py: `generate_all_configs`, the files of the configuration.
use openradiusweb.Prelude.{Bool, true, false, List, [], ◌∷◌, ◌++◌, if◌then◌else◌}
use openradiusweb.Prelude.Text.{Text, codes, truthy}
use openradiusweb.Prelude.Result.{Result, ok, ◌>>=◌}
use openradiusweb.Prelude.Dict.{put}
use openradiusweb.Config.Tables.{Realm, Db, Outside, load_realms}
use openradiusweb.Config.Templates.{
  generate_eap_config, generate_ldap_configs, generate_python_config, rlm_python3_available,
  generate_site_default, generate_site_inner_tunnel,
}
use openradiusweb.Config.Realms.{generate_proxy_config}
use openradiusweb.Config.Clients.{generate_clients_config}

-- `if content: configs[filename] = content`.
abbrev pub put_if : Text → Text → List (Text × Text) → List (Text × Text)
put_if filename content configs = if truthy content then put filename content configs else configs

unfoldable pub put_ldap : List (Text × Text) → List (Text × Text) → List (Text × Text)
unfolding put
put_ldap [] configs = configs
put_ldap ((filename, content) ∷ files) configs =
    put_ldap files (put (codes "mods-available/" ++ filename) content configs)

-- The files of the modules: EAP, LDAP and Python.
abbrev pub module_files : Text → List (Text × Text) → Text → List (Text × Text)
module_files eap ldap python =
    put_if (codes "mods-available/python") python
      (put_ldap ldap (put_if (codes "mods-available/eap") eap []))

-- `bool(realms)`.
abbrev pub some_realm : List Realm → Bool
some_realm [] = false
some_realm (_ ∷ _) = true

-- The other files; the inner tunnel only where there is one of EAP.
abbrev pub site_files : Bool → Text → Text → Text → Text → List (Text × Text) → List (Text × Text)
site_files has_eap proxy clients default inner configs =
    let sites =
      put_if (codes "sites-available/default") default
        (put_if (codes "clients.conf") clients (put_if (codes "proxy.conf") proxy configs)) in
    if has_eap then put_if (codes "sites-available/inner-tunnel") inner sites else sites

abbrev pub python_content : Outside → Text
python_content o = if rlm_python3_available o then generate_python_config o else []

unfoldable pub generate_all_configs : Outside → Db → Result (List (Text × Text))
generate_all_configs o db = do
  eap ← generate_eap_config o db
  ldap ← generate_ldap_configs o db
  realms ← load_realms o db
  proxy ← generate_proxy_config o db
  clients ← generate_clients_config o db
  let (ldap_files, modules) = ldap in
      let has_eap = truthy eap in
      let has_python = truthy (python_content o) in
      ok (
        site_files has_eap proxy clients
          (generate_site_default o has_eap has_python modules (some_realm realms))
          (generate_site_inner_tunnel o has_python modules (some_realm realms))
          (module_files eap ldap_files (python_content o)))
