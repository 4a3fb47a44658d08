-- ===== src/Config/Tests.antt =====
-- The theorems on the configuration of FreeRADIUS at a concrete database, disk and switch.
use openradiusweb.Prelude.Order.{order_by}
use openradiusweb.Prelude.{
  ◌≡◌, refl, true, false, Option, none, some, List, [], ◌∷◌, if◌then◌else◌, All,
}
use openradiusweb.Prelude.Text.{Text, codes, ends_with}
use openradiusweb.Prelude.Result.{Result, ok, err, os_error}
use openradiusweb.Config.Tables.{NasClient, Db, Outside, File, load_realms, load_nas_clients}
use openradiusweb.Config.Templates.{generate_eap_config, generate_ldap_configs}
use openradiusweb.Config.Realms.{generate_proxy_config}
use openradiusweb.Config.Files.{generate_all_configs}
use openradiusweb.Config.State.{World}
use openradiusweb.Config.Clients.{client_lines, generate_clients_config}
use openradiusweb.Config.Apply.{info_unchanged, apply_config}
use openradiusweb.Config.Rounds.{apply_config-again}
use openradiusweb.Config.Lines.{
  IsLine, literal, client_lines-IsLine, Decrypts, generate_all_configs-Decrypts,
}

-- A switch, and a disk on which clients.conf cannot be written.
abbrev floor_switch : NasClient
floor_switch = record {
  name = codes "floor";
  ip_address = codes "10.0.0.1";
  shortname = none;
  secret_encrypted = some (codes "s");
  nas_type = some (codes "cisco");
  description = some (98 ∷ 10 ∷ 98 ∷ []);
  virtual_server = none;
  enabled = true;
}

abbrev one_switch : Db
one_switch = record {
  certificates = [];
  ldap_servers = [];
  realms = [];
  nas_clients = floor_switch ∷ [];
  system_settings = [];
  tenants = [];
}

abbrev no_clients_file : Text → File → Option File → Result (Unit {0}) × Option File
no_clients_file path f old =
    if ends_with path (codes "clients.conf") then (err os_error, old) else (ok tt, some f)

abbrev test_outside : Outside
test_outside = record {
  connected = true;
  answers = true;
  saves = λ _. true;
  collate = λ _ _. true;
  decrypt_secret = λ s. ok s;
  sha256 = λ s. codes "#";
  generated_at = [];
  render_eap = λ _ _. ok (codes "eap");
  render_ldap = λ _ _. ok [];
  render_python = λ _ _. ok (codes "python");
  render_default = λ _ _. ok (codes "site");
  render_inner_tunnel = λ _ _. ok (codes "inner");
  has_python3_env = some (codes "true");
  is_file = λ _. false;
  output_dir = codes "/o";
  cert_dir = codes "/c";
  make_dirs = λ _. ok tt;
  make_parent = λ _. ok tt;
  write = no_clients_file;
  docker_sdk = none;
  docker_cli = ok tt;
  message = λ _. codes "failed";
}

abbrev fresh_world : World
fresh_world = record {
  db = one_switch;
  default_tenant_id = some (codes "t");
  rows = [];
  files = [];
  signals = 0;
}

abbrev or_nothing : Result (List (Text × Text)) → List (Text × Text)
or_nothing (ok configs) = configs
or_nothing (err e) = []

is_generated :
    generate_all_configs test_outside one_switch
    ≡ ok (or_nothing (generate_all_configs test_outside one_switch))
unfolding generate_all_configs generate_eap_config generate_ldap_configs order_by load_realms
    generate_proxy_config generate_clients_config load_nas_clients
is_generated = refl

apply_config-again_example :
    apply_config test_outside
      (codes "clients.conf")
      []
      (apply_config test_outside (codes "clients.conf") [] fresh_world).1
    ≡ (
      ok (info_unchanged (codes "#")),
      (apply_config test_outside (codes "clients.conf") [] fresh_world).1,
    )
apply_config-again_example =
    apply_config-again test_outside test_outside (codes "t") refl refl (λ _. refl) refl refl
      (λ _. refl) (codes "clients.conf") [] fresh_world refl refl

client_lines-IsLine_example : All IsLine (client_lines floor_switch (some (codes "s")))
client_lines-IsLine_example =
    client_lines-IsLine floor_switch (some (codes "s"))
      (
        literal (codes "floor") refl,
        literal (codes "10.0.0.1") refl,
        tt,
        literal (codes "cisco") refl,
        tt,
      )
      (literal (codes "s") refl)

generate_all_configs-Decrypts_example :
    (clients : List NasClient) × (load_nas_clients test_outside one_switch ≡ ok clients)
    × Decrypts test_outside clients
generate_all_configs-Decrypts_example =
    generate_all_configs-Decrypts test_outside one_switch
      (or_nothing (generate_all_configs test_outside one_switch)) is_generated
