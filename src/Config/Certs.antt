-- ===== src/Config/Certs.antt =====
-- freeradius_config_manager.py: `_compute_cert_files_hash` and `write_cert_files`, the certificates
-- on disk.
use openradiusweb.Prelude.Order.{order_by}
use openradiusweb.Prelude.{
  ℕ, Bool, true, false, ◌&&◌, ◌||◌, Option, List, [], ◌∷◌, ◌++◌, if◌then◌else◌, ltb, ◌==◌, not,
}
use openradiusweb.Prelude.Text.{
  Text, codes, text_eq, lower, replace_code, opt_truthy, text_or_empty,
}
use openradiusweb.Prelude.Result.{Result, ok, and_then}
use openradiusweb.Prelude.Exec.{Exec, pure, lift, gets, ◌>>=◌, ◌>>◌}
use openradiusweb.Config.Tables.{
  Certificate, LdapServer, Db, Outside, join_path, safe_name, load_active_certificates,
  load_ldap_servers,
}
use openradiusweb.Config.State.{World, write_file}

-- Python's order of texts.
text_lt : Text → Text → Bool
text_lt [] [] = false
text_lt [] (_ ∷ _) = true
text_lt (_ ∷ _) [] = false
text_lt (a ∷ s) (b ∷ t) = ltb a b || (a == b && text_lt s t)

abbrev cert_lt : Certificate → Certificate → Bool
cert_lt a b =
    text_lt a.cert_type b.cert_type || (text_eq a.cert_type b.cert_type && text_lt a.name b.name)

-- `sep.join(parts)`.
join_with : Text → List Text → Text
join_with sep [] = []
join_with sep (p ∷ []) = p
join_with sep (p ∷ q ∷ rest) = p ++ (sep ++ join_with sep (q ∷ rest))

cert_parts : List Certificate → List Text
cert_parts [] = []
cert_parts (c ∷ certs) =
    (codes "cert:" ++ (c.cert_type ++ (codes ":" ++ c.name)))
    ∷ text_or_empty c.pem_data
    ∷ text_or_empty c.chain_pem
    ∷ text_or_empty c.key_pem_encrypted
    ∷ text_or_empty c.dh_params_pem
    ∷ cert_parts certs

server_parts : List LdapServer → List Text
server_parts [] = []
server_parts (s ∷ servers) =
    (codes "ldap_ca:" ++ s.name) ∷ text_or_empty s.tls_ca_cert ∷ server_parts servers

-- The text that is hashed.
unfoldable pub cert_blob : List Certificate → List LdapServer → Text
unfolding text_lt join_with cert_parts server_parts
cert_blob certs servers = join_with (10 ∷ codes "---" ++ 10 ∷ []) (
    cert_parts (order_by cert_lt certs)
    ++ server_parts (order_by (λ a b. text_lt a.name b.name) servers))

unfoldable pub compute_cert_files_hash : Outside → Db → Result Text
unfolding cert_blob
compute_cert_files_hash o db = and_then (load_active_certificates o db) (λ certs.
    and_then (load_ldap_servers o db) (λ servers. ok (o.sha256 (cert_blob certs servers))))

-- The names of files of a certificate: spaces become underscores, then the case is lowered.
abbrev trusted_name : Certificate → Text
trusted_name cert = lower (replace_code b' ' b'_' cert.name)

abbrev pub public_mode : ℕ
public_mode = 420

-- 0o600.
abbrev pub private_mode : ℕ
private_mode = 384

module _ (o : Outside) where
  abbrev pub trusted_cas_dir : Text
  trusted_cas_dir = join_path o.cert_dir (codes "trusted-cas")

  abbrev pub ldap_certs_dir : Text
  ldap_certs_dir = join_path o.cert_dir (codes "ldap")

  -- `if content: self._write_file(path, content, mode)`.
  unfoldable pub write_if : Text → Option Text → ℕ → Exec World (Unit {0})
  unfolding write_file
  write_if path content mode =
      if opt_truthy content then write_file o path (text_or_empty content) mode else pure tt

  unfoldable pub write_ca : Certificate → Exec World (Unit {0})
  unfolding write_if
  write_ca cert = do
    write_file o (join_path o.cert_dir (codes "ca.pem")) (text_or_empty cert.pem_data) public_mode
    write_file o (join_path trusted_cas_dir (trusted_name cert ++ codes ".pem"))
        (text_or_empty cert.pem_data) public_mode
    write_if (join_path trusted_cas_dir (trusted_name cert ++ codes "_chain.pem")) cert.chain_pem
        public_mode

  unfoldable pub write_server : Certificate → Exec World (Unit {0})
  unfolding write_if
  write_server cert = do
    write_file o (join_path o.cert_dir (codes "server.pem")) (text_or_empty cert.pem_data)
        public_mode
    key_pem ← lift (o.decrypt_secret cert.key_pem_encrypted)
    write_if (join_path o.cert_dir (codes "server.key")) key_pem private_mode
    write_if (join_path o.cert_dir (codes "dh.pem")) cert.dh_params_pem public_mode

  abbrev pub write_cert : Certificate → Exec World (Unit {0})
  write_cert cert =
      if not (opt_truthy cert.pem_data)
      then pure tt
      else if text_eq cert.cert_type (codes "ca")
      then write_ca cert
      else if text_eq cert.cert_type (codes "server")
      then write_server cert
      else pure tt

  unfoldable pub write_certs : List Certificate → Exec World (Unit {0})
  unfolding write_ca write_server
  write_certs [] = pure tt
  write_certs (c ∷ certs) = write_cert c >> write_certs certs

  unfoldable pub write_ldap_cas : List LdapServer → Exec World (Unit {0})
  unfolding write_if
  write_ldap_cas [] = pure tt
  write_ldap_cas (s ∷ servers) =
      write_if (join_path ldap_certs_dir (safe_name s.name ++ codes "_ca.pem")) s.tls_ca_cert
        public_mode
      >> write_ldap_cas servers

  -- The rows are loaded, the directories made, the files written.
  unfoldable pub write_rows : Db → Exec World (Unit {0})
  unfolding write_certs write_ldap_cas
  write_rows db = do
    certs ← lift (load_active_certificates o db)
    servers ← lift (load_ldap_servers o db)
    lift (o.make_dirs o.cert_dir)
    lift (o.make_dirs trusted_cas_dir)
    lift (o.make_dirs ldap_certs_dir)
    write_certs certs
    write_ldap_cas servers

  unfoldable pub write_cert_files : Exec World (Unit {0})
  unfolding write_rows
  write_cert_files = gets (λ w. w.db) >>= write_rows
