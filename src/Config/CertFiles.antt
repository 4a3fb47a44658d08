-- ===== src/Config/CertFiles.antt =====
-- What the writing of certificates changes, and when it is done again.
use openradiusweb.Prelude.{
  ℕ, ◌≡◌, refl, ◌∙◌, ap, inl, inr, Bool, true, false, not, Option, none, some, List, [], ◌∷◌,
  Bool-cases, if_both,
}
use openradiusweb.Prelude.Text.{Text, codes, text_eq, opt_truthy, text_eq_refl}
use openradiusweb.Prelude.Result.{Result, ok, err}
use openradiusweb.Prelude.Exec.{Exec, pure, catch, continue, ◌>>=◌}
use openradiusweb.Config.Tables.{
  Db, Outside, join_path, File, Certificate, LdapServer, load_active_certificates,
  load_ldap_servers,
}
use openradiusweb.Config.State.{Status, World, written, place, write_file}
use openradiusweb.Prelude.Dict.{get_entry}
use openradiusweb.Config.Certs.{
  compute_cert_files_hash, public_mode, private_mode, trusted_cas_dir, ldap_certs_dir, write_if,
  write_ca, write_server, write_cert, write_certs, write_ldap_cas, write_rows, write_cert_files,
}
use openradiusweb.Config.Apply.{
  Info, info_unchanged, info_error, is_stored, write_new_certs, apply_certs,
}
use openradiusweb.Config.Tracker.{
  stored, stored-upsert, get_stored_hash-cached, save_config_state-cached,
}
use openradiusweb.Config.Rounds.{SameRest, stored_text}

-- Nothing but files is changed, even where an exception is raised.
KeepsRest : {A : Type 0} → Exec World A → Type 0
KeepsRest m = (w : World) → (files : List (Text × File)) × ((m w).1 ≡ record w { files = files })

module _ {A B : Type 0} where
  continue-KeepsRest :
      (r : Result A) (f : A → Exec World B) → ((a : A) → KeepsRest (f a)) → KeepsRest (continue r f)
  unfolding KeepsRest
  continue-KeepsRest (ok a) f k w = k a w
  continue-KeepsRest (err e) f k w = (w.files, refl)

  >>=-KeepsRest :
      (m : Exec World A) (f : A → Exec World B)
      → KeepsRest m
      → ((a : A) → KeepsRest (f a))
      → KeepsRest (m >>= f)
  unfolding KeepsRest
  >>=-KeepsRest m f km kf w =
      let (files, e) = km w in
      let (files', e') = continue-KeepsRest (m w).0 f kf (m w).1 in
      (files', e' ∙ ap {A = World} {B = World} (λ s. record s { files = files' }) e)

pure-KeepsRest : {A : Type 0} (a : A) → KeepsRest (pure {S = World} a)
unfolding KeepsRest
pure-KeepsRest a w = (w.files, refl)

module _ (o : Outside) where
  set_file : (path : Text) (out : Result (Unit {0}) × Option File) → KeepsRest (written o path out)
  unfolding KeepsRest
  set_file path out w = (place o path (out.1) w.files, refl)

  write_file-KeepsRest :
      (path content : Text) (mode : ℕ) → KeepsRest (write_file o path content mode)
  unfolding write_file KeepsRest
  write_file-KeepsRest path content mode = continue-KeepsRest _ _ (λ _. λ w.
      set_file path
        (o.write path (record { content = content; mode = mode }) (get_entry path w.files)) w)

  write_if-KeepsRest :
      (path : Text) (content : Option Text) (mode : ℕ) → KeepsRest (write_if o path content mode)
  unfolding write_if
  write_if-KeepsRest path content mode =
      if_both KeepsRest (opt_truthy content) _ _ (write_file-KeepsRest path _ mode)
        (pure-KeepsRest tt)

  write_ca-KeepsRest : (c : Certificate) → KeepsRest (write_ca o c)
  unfolding write_ca
  write_ca-KeepsRest c =
      >>=-KeepsRest _ _ (write_file-KeepsRest _ _ _)
        (λ _. >>=-KeepsRest _ _ (write_file-KeepsRest _ _ _) (λ _. write_if-KeepsRest _ _ _))

  write_server-KeepsRest : (c : Certificate) → KeepsRest (write_server o c)
  unfolding write_server
  write_server-KeepsRest c = >>=-KeepsRest _ _ (write_file-KeepsRest _ _ _) (λ _.
      continue-KeepsRest (o.decrypt_secret c.key_pem_encrypted) _ (λ key.
        >>=-KeepsRest _ _
          (write_if-KeepsRest (join_path o.cert_dir (codes "server.key")) key private_mode)
          (λ _.
            write_if-KeepsRest (join_path o.cert_dir (codes "dh.pem")) c.dh_params_pem
              public_mode)))

  write_cert-KeepsRest : (c : Certificate) → KeepsRest (write_cert o c)
  write_cert-KeepsRest c = if_both KeepsRest (not (opt_truthy c.pem_data)) _ _ (pure-KeepsRest tt) (
      if_both KeepsRest (text_eq c.cert_type (codes "ca")) _ _ (write_ca-KeepsRest c) (
        if_both KeepsRest (text_eq c.cert_type (codes "server")) _ _ (write_server-KeepsRest c)
          (pure-KeepsRest tt)))

  write_certs-KeepsRest : (certs : List Certificate) → KeepsRest (write_certs o certs)
  unfolding write_certs
  write_certs-KeepsRest [] = pure-KeepsRest tt
  write_certs-KeepsRest (c ∷ certs) =
      >>=-KeepsRest _ _ (write_cert-KeepsRest c) (λ _. write_certs-KeepsRest certs)

  write_ldap_cas-KeepsRest : (servers : List LdapServer) → KeepsRest (write_ldap_cas o servers)
  unfolding write_ldap_cas
  write_ldap_cas-KeepsRest [] = pure-KeepsRest tt
  write_ldap_cas-KeepsRest (s ∷ servers) =
      >>=-KeepsRest _ _ (write_if-KeepsRest _ _ _) (λ _. write_ldap_cas-KeepsRest servers)

  write_rows-KeepsRest : (db : Db) → KeepsRest (write_rows o db)
  unfolding write_rows
  write_rows-KeepsRest db = continue-KeepsRest (load_active_certificates o db) _ (λ certs.
      continue-KeepsRest (load_ldap_servers o db) _ (λ servers.
        continue-KeepsRest (o.make_dirs o.cert_dir) _ (λ _.
          continue-KeepsRest (o.make_dirs (trusted_cas_dir o)) _ (λ _.
            continue-KeepsRest (o.make_dirs (ldap_certs_dir o)) _ (λ _.
              >>=-KeepsRest _ _ (write_certs-KeepsRest certs)
                (λ _. write_ldap_cas-KeepsRest servers))))))

  write_cert_files-KeepsRest : KeepsRest (write_cert_files o)
  unfolding write_cert_files KeepsRest
  write_cert_files-KeepsRest w = write_rows-KeepsRest w.db w

abbrev pub cert_kind : Text
cert_kind = codes "certificates"

abbrev pub cert_entry : Text
cert_entry = codes "_cert_files"

abbrev pub is_error : Info → Bool
is_error info = elim info.status [ Status.error ↦ true | _ ↦ false ]

not_error :
    {P : Type 0} (hash message : Text) (info : Info)
    → ok (info_error hash message) ≡ ok info
    → is_error info ≡ false
    → P
not_error hash message info e no_error =
    let same : info_error hash message ≡ info = cc in
    let impossible : true ≡ false = rw (← same) at no_error in cc

-- The tracker has the hash of the certificates at hand.
abbrev pub CertsStored : Outside → Text → World → Type 0
CertsStored o t w =
    (hash : Text) × (compute_cert_files_hash o w.db ≡ ok hash)
    × (stored t cert_kind cert_entry w.rows ≡ some hash)

module _ (o : Outside) (t : Text) (connected : o.connected ≡ true) (answers : o.answers ≡ true)
    (saves : (name : Text) → o.saves name ≡ true) where
  unfoldable pub CertsDone : World → Result Info × World → Type 0
  CertsDone w end =
      (info : Info)
      → (end.0 ≡ ok info)
      → is_error info ≡ false
      → CertsStored o t (end.1) × SameRest w (end.1)

  write_new_certs-CertsDone :
      (w : World) (hash : Text)
      → w.default_tenant_id ≡ some t
      → compute_cert_files_hash o w.db ≡ ok hash
      → CertsDone w (catch (write_new_certs o hash) (λ e. pure (info_error [] (o.message e))) w)
  unfolding CertsDone KeepsRest
  write_new_certs-CertsDone w hash h k =
      by_out (write_cert_files o w) refl (write_cert_files-KeepsRest o w)
    where
      by_out :
          (out : Result (Unit {0}) × World)
          → write_cert_files o w ≡ out
          → (files : List (Text × File)) × (out.1 ≡ record w { files = files })
          → CertsDone w (catch (write_new_certs o hash) (λ e. pure (info_error [] (o.message e))) w)
      by_out (ok _, w1) e (files, same) =
          rw
            (
              e,
              same,
              save_config_state-cached o t connected answers saves cert_kind cert_entry [] hash
                  Status.applied none (record w { files = files }) h,
            )
            (λ info done no_error. (
              (hash, k, stored-upsert cert_kind cert_entry [] hash Status.applied none t w.rows),
              (refl, refl, refl),
            ))
      by_out (err x, w1) e (files, same) =
          rw e (λ info done no_error. not_error [] (o.message x) info done no_error)

  pub apply_certs-CertsDone :
      (w : World) → w.default_tenant_id ≡ some t → CertsDone w (apply_certs o w)
  unfolding apply_certs CertsDone
  apply_certs-CertsDone w h = by_hash (compute_cert_files_hash o w.db) refl
    where
      by_hash :
          (r : Result Text) → compute_cert_files_hash o w.db ≡ r → CertsDone w (apply_certs o w)
      by_hash (err e) k = rw k (λ info done no_error. not_error [] (o.message e) info done no_error)
      by_hash (ok hash) k =
          let found = get_stored_hash-cached o t connected answers saves cert_kind cert_entry w h in
          elim (Bool-cases (is_stored (stored t cert_kind cert_entry w.rows) hash)) [
            | inl e ↦
                rw (k, found, e)
                  (λ info done no_error. (
                    (hash, k, stored_text o t connected answers saves _ hash e),
                    (refl, refl, refl),
                  ))
            | inr e ↦ rw (k, found, e) (write_new_certs-CertsDone w hash h k)
          ]

  -- Where the hash is stored, nothing is done.
  pub apply_certs-again :
      (w : World)
      → w.default_tenant_id ≡ some t
      → (certs : CertsStored o t w) → apply_certs o w ≡ (ok (info_unchanged certs.0), w)
  unfolding apply_certs
  apply_certs-again w h (hash, computed, found) =
      rw
        (
          computed,
          get_stored_hash-cached o t connected answers saves cert_kind cert_entry w h,
          found,
          text_eq_refl hash,
        )
        refl
