-- ===== src/Config/Clients.antt =====
-- freeradius_config_manager.py: `generate_clients_config`, the file clients.conf.
use openradiusweb.Prelude.{Option, List, [], ◌∷◌, ◌++◌, take, if◌then◌else◌}
use openradiusweb.Prelude.Text.{Text, codes, opt_truthy, text_or_empty, strip, replace_code}
use openradiusweb.Prelude.Result.{Result, ok, ◌>>=◌}
use openradiusweb.Config.Tables.{NasClient, Db, Outside, load_nas_clients}
use openradiusweb.Config.Templates.{or_text}
use openradiusweb.Config.Realms.{join_lines, str_opt}

abbrev clients_header : List Text
clients_header =
    codes "# OpenRadiusWeb Generated Configuration - DO NOT EDIT MANUALLY"
    ∷ codes "#"
    ∷ codes "# RADIUS client (NAS) configuration"
    ∷ []
    ∷ codes "client localhost {"
    ∷ codes "    ipaddr = 127.0.0.1"
    ∷ codes "    secret = testing123"
    ∷ codes "    shortname = localhost"
    ∷ codes "    nas_type = other"
    ∷ codes "}"
    ∷ []
    ∷ codes "client localhost_ipv6 {"
    ∷ codes "    ipv6addr = ::1"
    ∷ codes "    secret = testing123"
    ∷ codes "    shortname = localhost_v6"
    ∷ codes "}"
    ∷ []
    ∷ []

unfoldable pub shortname_of : NasClient → Text
shortname_of client = or_text client.shortname (take 31 client.name)

-- `description.replace("\n", " ").strip()`.
unfoldable pub safe_desc : Text → Text
safe_desc description = strip (replace_code 10 32 description)

-- The block of one client, with the decrypted secret.
unfoldable pub client_lines : NasClient → Option Text → List Text
client_lines client secret =
    (codes "client " ++ (shortname_of client ++ codes " {"))
    ∷ (codes "    ipaddr = " ++ client.ip_address)
    ∷ (codes "    secret = " ++ or_text secret (codes "changeme"))
    ∷ (codes "    shortname = " ++ shortname_of client)
    ∷ (codes "    nas_type = " ++ str_opt client.nas_type)
    ∷ ((if opt_truthy client.virtual_server
          then (codes "    virtual_server = " ++ text_or_empty client.virtual_server) ∷ []
          else [])
        ++ ((if opt_truthy client.description
              then (codes "    # " ++ safe_desc (text_or_empty client.description)) ∷ []
              else [])
            ++ codes "}" ∷ [] ∷ []))

module _ (o : Outside) where
  unfoldable pub all_client_lines : List NasClient → Result (List Text)
  unfolding client_lines
  all_client_lines [] = ok []
  all_client_lines (c ∷ clients) = do
    secret ← o.decrypt_secret c.secret_encrypted
    rest ← all_client_lines clients
    ok (client_lines c secret ++ rest)

  unfoldable pub generate_clients_config : Db → Result Text
  unfolding all_client_lines
  generate_clients_config db = do
    clients ← load_nas_clients o db
    lines ← all_client_lines clients
    ok (join_lines (clients_header ++ lines))
