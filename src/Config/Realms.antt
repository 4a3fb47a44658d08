-- ===== src/Config/Realms.antt =====
-- freeradius_config_manager.py: `generate_proxy_config`, the file proxy.conf.
use openradiusweb.Prelude.{
  Bool, false, Option, none, some, List, [], ◌∷◌, ◌++◌, keep_if, if◌then◌else◌, any,
}
use openradiusweb.Prelude.Text.{Text, codes, text_eq, text_in}
use openradiusweb.Prelude.Result.{Result, ok, ◌>>=◌}
use openradiusweb.Prelude.Repr.{repr_opt_nat}
use openradiusweb.Config.Tables.{Realm, Db, Outside, safe_name, load_realms}
use openradiusweb.Config.Templates.{or_text}

-- `"\n".join(lines)`.
unfoldable pub join_lines : List Text → Text
join_lines [] = []
join_lines (l ∷ []) = l
join_lines (l ∷ m ∷ rest) = l ++ (10 ∷ join_lines (m ∷ rest))

-- A nullable text as an f-string writes it.
abbrev pub str_opt : Option Text → Text
str_opt none = codes "None"
str_opt (some s) = s

abbrev opt_true : Option Bool → Bool
opt_true none = false
opt_true (some b) = b

abbrev proxy_header : List Text
proxy_header =
    codes "# OpenRadiusWeb Generated Configuration - DO NOT EDIT MANUALLY"
    ∷ codes "#"
    ∷ codes "# Proxy configuration"
    ∷ codes "# Template: proxy.conf (inline)"
    ∷ []
    ∷ codes "proxy server {"
    ∷ codes "    default_fallback = no"
    ∷ codes "}"
    ∷ []
    ∷ []

-- `home_server` and its pool, for a realm with the decrypted secret.
unfoldable pub home_server_lines : Realm → Option Text → List Text
home_server_lines realm secret =
    (codes "home_server hs_" ++ (safe_name realm.name ++ codes " {"))
    ∷ codes "    type = auth+acct"
    ∷ (codes "    ipaddr = " ++ str_opt realm.proxy_host)
    ∷ (codes "    port = " ++ repr_opt_nat realm.proxy_port)
    ∷ (codes "    secret = " ++ or_text secret (codes "changeme"))
    ∷ codes "    response_window = 20"
    ∷ (codes "    zombie_period = " ++ repr_opt_nat realm.proxy_dead_time_seconds)
    ∷ (codes "    revive_interval = " ++ repr_opt_nat realm.proxy_dead_time_seconds)
    ∷ codes "}"
    ∷ []
    ∷ (codes "home_server_pool pool_" ++ (safe_name realm.name ++ codes " {"))
    ∷ codes "    type = fail-over"
    ∷ (codes "    home_server = hs_" ++ safe_name realm.name)
    ∷ codes "}"
    ∷ []
    ∷ []

abbrev realm_opening : Realm → Text
realm_opening realm = codes "realm " ++ (realm.name ++ codes " {")

abbrev strip_line : Realm → Text
strip_line realm = if opt_true realm.strip_username then codes "    strip" else codes "    nostrip"

unfoldable pub realm_lines : Realm → List Text
realm_lines realm =
    if text_eq realm.realm_type (codes "proxy")
    then realm_opening realm
      ∷ (codes "    pool = pool_" ++ safe_name realm.name)
      ∷ strip_line realm
      ∷ codes "}"
      ∷ []
      ∷ []
    else if text_eq realm.realm_type (codes "local")
    then realm_opening realm ∷ strip_line realm ∷ codes "}" ∷ [] ∷ []
    else if text_eq realm.realm_type (codes "reject")
    then realm_opening realm ∷ codes "    auth_pool = reject" ∷ codes "}" ∷ [] ∷ []
    else []

unfoldable pub all_realm_lines : List Realm → List Text
unfolding realm_lines
all_realm_lines [] = []
all_realm_lines (r ∷ realms) = realm_lines r ++ all_realm_lines realms

abbrev is_default : Realm → Bool
is_default r = text_in r.name (codes "DEFAULT" ∷ codes "default" ∷ codes "*" ∷ [])

unfoldable pub default_realm_lines : List Realm → List Text
default_realm_lines realms =
    if any is_default realms
    then []
    else codes "# Default realm - handle locally"
      ∷ codes "realm DEFAULT {"
      ∷ codes "    strip"
      ∷ codes "}"
      ∷ []
      ∷ codes "realm NULL {"
      ∷ codes "    strip"
      ∷ codes "}"
      ∷ []
      ∷ []

module _ (o : Outside) where
  unfoldable pub all_home_server_lines : List Realm → Result (List Text)
  unfolding home_server_lines
  all_home_server_lines [] = ok []
  all_home_server_lines (r ∷ realms) = do
    secret ← o.decrypt_secret r.proxy_secret_encrypted
    rest ← all_home_server_lines realms
    ok (home_server_lines r secret ++ rest)

  unfoldable pub generate_proxy_config : Db → Result Text
  unfolding all_home_server_lines join_lines
  generate_proxy_config db = do
    realms ← load_realms o db
    servers ← all_home_server_lines (keep_if (λ r. text_eq r.realm_type (codes "proxy")) realms)
    ok (
        join_lines
          (proxy_header ++ (servers ++ (all_realm_lines realms ++ default_realm_lines realms))))
