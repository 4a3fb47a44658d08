-- ===== src/Config/Apply.antt =====
-- freeradius_config_manager.py: `apply_configs`, which writes what has changed and tracks it.
use openradiusweb.Prelude.{Bool, false, Option, none, some, List, [], ◌∷◌, if◌then◌else◌}
use openradiusweb.Prelude.Text.{Text, codes, text_eq, contains, replace_code}
use openradiusweb.Prelude.Result.{Result, ok, err}
use openradiusweb.Prelude.Exec.{Exec, pure, lift, gets, catch, ◌>>=◌, ◌>>◌}
use openradiusweb.Prelude.Dict.{put}
use openradiusweb.Config.Tables.{Outside, join_path}
use openradiusweb.Config.Files.{generate_all_configs}
use openradiusweb.Config.State.{Status, World, write_file, get_stored_hash, save_config_state}
use openradiusweb.Config.Certs.{compute_cert_files_hash, write_cert_files, public_mode}

-- What `apply_configs` says of one kind of configuration.
pub record Info : Type 0 where
  pub status : Status
  pub hash : Text
  pub error : Option Text

abbrev pub Results : Type 0
Results = List (Text × Info)

abbrev pub info_applied : Text → Info
info_applied hash = record { status = Status.applied; hash = hash; error = none }

abbrev pub info_unchanged : Text → Info
info_unchanged hash = record { status = Status.unchanged; hash = hash; error = none }

abbrev pub info_error : Text → Text → Info
info_error hash message = record { status = Status.error; hash = hash; error = some message }

-- The kind of a file, from its name.
unfoldable pub config_type_of : Text → Text
config_type_of filename =
    if contains filename (codes "eap")
    then codes "eap"
    else if contains filename (codes "ldap")
    then codes "ldap"
    else if contains filename (codes "proxy")
    then codes "proxy"
    else if contains filename (codes "clients")
    then codes "clients"
    else if contains filename (codes "inner-tunnel")
    then codes "inner-tunnel"
    else if contains filename (codes "default")
    then codes "site-default"
    else if contains filename (codes "python")
    then codes "python"
    else replace_code b'.' b'_' (replace_code b'/' b'_' filename)

-- Whether the hash stored is the one at hand.
abbrev pub is_stored : Option Text → Text → Bool
is_stored none hash = false
is_stored (some stored) hash = text_eq stored hash

module _ (o : Outside) where
  abbrev pub write_new_certs : Text → Exec World Info
  write_new_certs hash = do
    write_cert_files o
    save_config_state o (codes "certificates") (codes "_cert_files") [] hash Status.applied none
    pure (info_applied hash)

  unfoldable pub apply_certs : Exec World Info
  unfolding write_cert_files save_config_state get_stored_hash compute_cert_files_hash
  apply_certs =
      catch
        (do
          db ← gets (λ w. w.db)
          hash ← lift (compute_cert_files_hash o db)
          stored ← get_stored_hash o (codes "certificates") (codes "_cert_files")
          if is_stored stored hash then pure (info_unchanged hash) else write_new_certs hash)
        (λ e. pure (info_error [] (o.message e)))

  -- The writing of a file whose hash is not the one stored, and what follows an exception.
  unfoldable pub write_config : Text → Text → Exec World Info
  unfolding write_file save_config_state
  write_config filename content =
      catch
        (do
          lift (o.make_parent (join_path o.output_dir filename))
          write_file o (join_path o.output_dir filename) content public_mode
          save_config_state o (config_type_of filename) filename content (o.sha256 content)
              Status.applied none
          pure (info_applied (o.sha256 content)))
        (λ e. do
          save_config_state o (config_type_of filename) filename content (o.sha256 content)
              Status.error (some (o.message e))
          pure (info_error (o.sha256 content) (o.message e)))

  unfoldable pub apply_config : Text → Text → Exec World Info
  unfolding write_config get_stored_hash
  apply_config filename content = do
    stored ← get_stored_hash o (config_type_of filename) filename
    if is_stored stored (o.sha256 content)
        then pure (info_unchanged (o.sha256 content))
        else write_config filename content

  unfoldable pub apply_files : List (Text × Text) → Results → Exec World Results
  unfolding apply_config put config_type_of
  apply_files [] results = pure results
  apply_files ((filename, content) ∷ configs) results = do
    info ← apply_config filename content
    apply_files configs (put (config_type_of filename) info results)

  abbrev apply_generated : Info → Result (List (Text × Text)) → Exec World Results
  apply_generated certs (ok configs) = apply_files configs ((codes "certificates", certs) ∷ [])
  apply_generated certs (err e) = pure ((codes "_generate_error", info_error [] (o.message e)) ∷ [])

  unfoldable pub apply_configs : Exec World Results
  unfolding apply_certs apply_files generate_all_configs
  apply_configs = do
    certs ← apply_certs
    db ← gets (λ w. w.db)
    apply_generated certs (generate_all_configs o db)
