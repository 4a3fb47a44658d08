-- ===== src/Config/Tracker.antt =====
-- What a run of `apply_configs` leaves in the tracker, and what the next run finds there.
use openradiusweb.Prelude.{
  &&_true, ◌∙◌, sym, ◌≡◌, refl, inl, inr, true, false, Option, none, some, List, [], ◌∷◌, keep_if,
  first, Bool-cases,
}
use openradiusweb.Prelude.Text.{Text, text_eq, text_eq_refl, eq_of_text_eq}
use openradiusweb.Prelude.Result.{Result, ok, err}
use openradiusweb.Prelude.Dict.{get_entry}
use openradiusweb.Config.Tables.{Outside, join_path, File}
use openradiusweb.Config.State.{
  Status, ConfigRow, World, is_row, hash_of, upsert, place, get_default_tenant_id, get_stored_hash,
  save_config_state, write_file,
}
use openradiusweb.Config.Certs.{public_mode}
use openradiusweb.Config.Apply.{Info, info_applied, info_error, config_type_of, write_config}

-- The hash that the tracker has for a configuration of the tenant.
abbrev pub stored : Text → Text → Text → List ConfigRow → Option Text
stored t config_type name rows = hash_of (first (keep_if (is_row config_type name (some t)) rows))

abbrev pub row_of : Text → Text → Text → Text → Status → Option Text → Text → ConfigRow
row_of config_type name content hash st message t = record {
  config_type = config_type;
  config_name = name;
  config_content = content;
  config_hash = hash;
  last_applied_hash = some hash;
  status = st;
  error_message = message;
  tenant_id = some t;
}

-- A row that is written is the one that is found.
pub stored-upsert :
    (ty nm c h : Text) (st : Status) (m : Option Text) (t : Text) (rows : List ConfigRow)
    → stored t ty nm (upsert (row_of ty nm c h st m t) rows) ≡ some h
unfolding upsert
stored-upsert ty nm c h st m t [] = rw (text_eq_refl ty, text_eq_refl nm, text_eq_refl t) refl
stored-upsert ty nm c h st m t (s ∷ rows) = elim (Bool-cases (is_row ty nm (some t) s)) [
  | inl e ↦ rw (e, text_eq_refl ty, text_eq_refl nm, text_eq_refl t) refl
  | inr e ↦ rw (e, e) (stored-upsert ty nm c h st m t rows)
]

not_row :
    (ty nm : Text) (x : Option Text) (r : ConfigRow)
    → text_eq r.config_name nm ≡ false
    → is_row ty nm x r ≡ false
not_row ty nm x r h = elim (Bool-cases (text_eq r.config_type ty)) [
  | inl e ↦ simp (e, h)
  | inr e ↦ simp (e)
]

row_name :
    (ty nm : Text) (x : Option Text) (r : ConfigRow) → is_row ty nm x r ≡ true → r.config_name ≡ nm
row_name ty nm x r h =
    let (e, rest) = &&_true (text_eq r.config_type ty) _ h in
    eq_of_text_eq r.config_name nm (&&_true (text_eq r.config_name nm) _ rest).0

not_stored :
    (ty nm t : Text) (r : ConfigRow) (rows : List ConfigRow)
    → text_eq r.config_name nm ≡ false
    → stored t ty nm (r ∷ rows) ≡ stored t ty nm rows
not_stored ty nm t r rows h = rw (not_row ty nm (some t) r h) refl

keep_first :
    (ty nm t : Text) (s : ConfigRow) (l l' : List ConfigRow)
    → stored t ty nm l ≡ stored t ty nm l'
    → stored t ty nm (s ∷ l) ≡ stored t ty nm (s ∷ l')
keep_first ty nm t s l l' h = elim (Bool-cases (is_row ty nm (some t) s)) [
  | inl e ↦ rw e refl
  | inr e ↦ rw e h
]

-- The rows of other names are found as before.
pub stored-upsert_other :
    (ty nm c h : Text) (st : Status) (m : Option Text) (t ty' nm' : Text) (rows : List ConfigRow)
    → text_eq nm nm' ≡ false
    → stored t ty' nm' (upsert (row_of ty nm c h st m t) rows) ≡ stored t ty' nm' rows
unfolding upsert
stored-upsert_other ty nm c h st m t ty' nm' [] ne =
    not_stored ty' nm' t (row_of ty nm c h st m t) [] ne
stored-upsert_other ty nm c h st m t ty' nm' (s ∷ rows) ne =
    elim (Bool-cases (is_row ty nm (some t) s)) [
      | inl e ↦ rw e (
          not_stored ty' nm' t (row_of ty nm c h st m t) rows ne
          ∙ sym (not_stored ty' nm' t s rows (rw (row_name ty nm (some t) s e) ne)))
      | inr e ↦
          rw e
            (keep_first ty' nm' t s _ rows (stored-upsert_other ty nm c h st m t ty' nm' rows ne))
    ]

module _ (o : Outside) (t : Text) (connected : o.connected ≡ true) (answers : o.answers ≡ true)
    (saves : (name : Text) → o.saves name ≡ true) where
  pub get_stored_hash-cached :
      (config_type name : Text) (w : World)
      → w.default_tenant_id ≡ some t
      → get_stored_hash o config_type name w ≡ (ok (stored t config_type name w.rows), w)
  unfolding get_stored_hash get_default_tenant_id
  get_stored_hash-cached config_type name w h = rw (h, connected, answers) refl

  pub save_config_state-cached :
      (config_type name content hash : Text) (st : Status) (message : Option Text) (w : World)
      → w.default_tenant_id ≡ some t
      → save_config_state o config_type name content hash st message w ≡ (
        ok tt,
        record w { rows = upsert (row_of config_type name content hash st message t) w.rows },
      )
  unfolding save_config_state get_default_tenant_id
  save_config_state-cached config_type name content hash st message w h =
      rw (h, connected, saves name) refl

  -- What `write_config` does, whatever comes of the writing: it changes the files, and it stores the
  -- hash.
  abbrev pub Writes : Text → Text → World → Result Info → World → Type 0
  Writes filename content w r w' =
      (files : List (Text × File)) × (st : Status) × (message : Option Text) × (info : Info) × (r
        ≡ ok info)
      × (w' ≡ record w {
        files = files;
        rows =
            upsert
              (row_of (config_type_of filename) filename content (o.sha256 content) st message t)
              w.rows;
      })

  pub write_config-Writes :
      (filename content : Text) (w : World)
      → w.default_tenant_id ≡ some t
      → Writes filename content w
          (write_config o filename content w).0
          (write_config o filename content w).1
  unfolding write_config write_file
  write_config-Writes filename content w h =
      by_parent (o.make_parent (join_path o.output_dir filename)) refl
    where
      by_parent :
          (r : Result (Unit {0}))
          → o.make_parent (join_path o.output_dir filename) ≡ r
          → Writes filename content w
              (write_config o filename content w).0
              (write_config o filename content w).1
      by_parent (err e) k =
          rw
            (
              k,
              save_config_state-cached (config_type_of filename) filename content (o.sha256 content)
                  Status.error (some (o.message e)) w h,
            )
            (
              w.files,
              Status.error,
              some (o.message e),
              info_error (o.sha256 content) (o.message e),
              refl,
              refl,
            )
      by_parent (ok _) k =
          by_write
            (o.write (join_path o.output_dir filename)
              (record { content = content; mode = public_mode })
              (get_entry (join_path o.output_dir filename) w.files))
            refl
        where
          by_write :
              (out : Result (Unit {0}) × Option File)
              → o.write
                  (join_path o.output_dir filename)
                  (record { content = content; mode = public_mode })
                  (get_entry (join_path o.output_dir filename) w.files)
                ≡ out
              → Writes filename content w
                  (write_config o filename content w).0
                  (write_config o filename content w).1
          by_write (ok _, f) e =
              let files = place o (join_path o.output_dir filename) f w.files in
              rw
                (
                  k,
                  e,
                  save_config_state-cached (config_type_of filename) filename content
                      (o.sha256 content) Status.applied none (record w { files = files }) h,
                )
                (files, Status.applied, none, info_applied (o.sha256 content), refl, refl)
          by_write (err x, f) e =
              let files = place o (join_path o.output_dir filename) f w.files in
              rw
                (
                  k,
                  e,
                  save_config_state-cached (config_type_of filename) filename content
                      (o.sha256 content) Status.error (some (o.message x))
                      (record w { files = files }) h,
                )
                (
                  files,
                  Status.error,
                  some (o.message x),
                  info_error (o.sha256 content) (o.message x),
                  refl,
                  refl,
                )
