-- ===== src/Config/Rounds.antt =====
-- Two rounds of the watcher with the same database: what the second one finds and does.
use openradiusweb.Prelude.{
  ◌||◌, subst, ◌≡◌, refl, ◌∙◌, sym, ap, inl, inr, Bool, true, false, Option, none, some, List, [],
  ◌∷◌, All, Bool-cases,
}
use openradiusweb.Prelude.Text.{Text, text_eq, text_eq_refl, eq_of_text_eq}
use openradiusweb.Prelude.Result.{Result, ok, err}
use openradiusweb.Prelude.Dict.{put}
use openradiusweb.Config.Tables.{Outside}
use openradiusweb.Config.State.{World}
use openradiusweb.Config.Apply.{
  Info, Results, info_unchanged, config_type_of, is_stored, apply_config, apply_files, write_config,
}
use openradiusweb.Config.Watcher.{any_applied, is_applied}
use openradiusweb.Config.Tracker.{
  stored, stored-upsert, stored-upsert_other, get_stored_hash-cached, write_config-Writes,
}

-- No two entries have one name.
abbrev pub IsDistinct : List (Text × Text) → Type 0
IsDistinct [] = Unit
IsDistinct ((f, c) ∷ configs) = All (λ e. text_eq (e.0) f ≡ false) configs × IsDistinct configs

-- The tracker has the hash of each file.
abbrev pub IsCurrent : Outside → Text → List (Text × Text) → World → Type 0
IsCurrent o t configs w =
    All (λ e. stored t (config_type_of (e.0)) (e.0) w.rows ≡ some (o.sha256 (e.1))) configs

-- Nothing but files and the tracker differs.
abbrev pub SameRest : World → World → Type 0
SameRest w w' =
    (w'.db ≡ w.db) × (w'.signals ≡ w.signals) × (w'.default_tenant_id ≡ w.default_tenant_id)

-- The tracker has the same of all names but those of a list.
abbrev SameOthers : Text → List (Text × Text) → World → World → Type 0
SameOthers t configs w w' =
    (ty nm : Text)
    → All (λ e. text_eq (e.0) nm ≡ false) configs
    → stored t ty nm w'.rows ≡ stored t ty nm w.rows

abbrev is_ok : {A : Type 0} → Result A → Bool
is_ok (ok a) = true
is_ok (err e) = false

module _ (o : Outside) (t : Text) (connected : o.connected ≡ true) (answers : o.answers ≡ true)
    (saves : (name : Text) → o.saves name ≡ true) where
  After : Text → Text → World → Result Info → World → Type 0
  After f c w r w' =
      ((info : Info) × (r ≡ ok info))
      × (stored t (config_type_of f) f w'.rows ≡ some (o.sha256 c))
      × SameRest w w'
      × SameOthers t ((f, c) ∷ []) w w'

  -- A hash that is stored is the one that is found.
  pub stored_text : (x : Option Text) (hash : Text) → is_stored x hash ≡ true → x ≡ some hash
  stored_text none hash e = cc
  stored_text (some s) hash e = ap some (eq_of_text_eq s hash e)

  After-write :
      (f c : Text) (w : World)
      → w.default_tenant_id ≡ some t
      → After f c w (write_config o f c w).0 (write_config o f c w).1
  unfolding After
  After-write f c w h =
      let (files, st, message, info, e, e') =
        write_config-Writes o t connected answers saves f c w h in
      rw (e, e')
        (
          (info, refl),
          stored-upsert (config_type_of f) f c (o.sha256 c) st message t w.rows,
          (refl, refl, refl),
          λ ty nm ne.
              stored-upsert_other (config_type_of f) f c (o.sha256 c) st message t ty nm w.rows
                ne.0,
        )

  apply_config-After :
      (f c : Text) (w : World)
      → w.default_tenant_id ≡ some t
      → After f c w (apply_config o f c w).0 (apply_config o f c w).1
  unfolding apply_config After
  apply_config-After f c w h =
      let found = get_stored_hash-cached o t connected answers saves (config_type_of f) f w h in
      elim (Bool-cases (is_stored (stored t (config_type_of f) f w.rows) (o.sha256 c))) [
        | inl e ↦
            rw (found, e)
              (
                (info_unchanged (o.sha256 c), refl),
                stored_text _ (o.sha256 c) e,
                (refl, refl, refl),
                λ ty nm ne. refl,
              )
        | inr e ↦ rw (found, e) (After-write f c w h)
      ]

  -- The files in their order: each hash is stored, and what follows does not change it.
  unfoldable pub AfterAll : List (Text × Text) → World → Result Results × World → Type 0
  AfterAll configs w end =
      ((results : Results) × (end.0 ≡ ok results))
      × IsCurrent o t configs (end.1)
      × SameRest w (end.1)
      × SameOthers t configs w (end.1)

  pub apply_files-AfterAll :
      (configs : List (Text × Text)) (results : Results) (w : World)
      → IsDistinct configs
      → w.default_tenant_id ≡ some t
      → AfterAll configs w (apply_files o configs results w)
  unfolding apply_files AfterAll After
  apply_files-AfterAll [] results w d h =
      ((results, refl), tt, (refl, refl, refl), λ ty nm ne. refl)
  apply_files-AfterAll ((f, c) ∷ configs) results w d h =
      by_first (apply_config o f c w) refl (apply_config-After f c w h)
        (λ later w1. apply_files-AfterAll configs later w1 d.1)
    where
      by_first :
          (r : Result Info × World)
          → apply_config o f c w ≡ r
          → After f c w r.0 r.1
          → ((later : Results) (w1 : World)
              → w1.default_tenant_id ≡ some t
              → AfterAll configs w1 (apply_files o configs later w1))
          → AfterAll ((f, c) ∷ configs) w (apply_files o ((f, c) ∷ configs) results w)
      by_first (err x, w1) e k rest = let (info, never) = k.0 in cc
      by_first (ok info, w1) e (returned, found, (same_db, same_signals, same_tenant), others)
            rest =
          let (total, current, (db', signals', tenant'), others') =
            rest (put (config_type_of f) info results) w1 (same_tenant ∙ h) in
          let step : apply_files o ((f, c) ∷ configs) results w
              ≡ apply_files o configs (put (config_type_of f) info results) w1 =
            rw e refl in
          subst (AfterAll ((f, c) ∷ configs) w) (sym step) (
            total,
            (others' (config_type_of f) f d.0 ∙ found, current),
            (db' ∙ same_db, signals' ∙ same_signals, tenant' ∙ same_tenant),
            λ ty nm ne. others' ty nm ne.1 ∙ others ty nm (ne.0, tt),
          )

  -- What a run makes of files whose hashes are all stored.
  abbrev pub all_unchanged : List (Text × Text) → Results → Results
  all_unchanged [] results = results
  all_unchanged ((f, c) ∷ configs) results =
      all_unchanged configs (put (config_type_of f) (info_unchanged (o.sha256 c)) results)

  pub apply_files-again :
      (configs : List (Text × Text)) (results : Results) (w : World)
      → IsCurrent o t configs w
      → w.default_tenant_id ≡ some t
      → apply_files o configs results w ≡ (ok (all_unchanged configs results), w)
  unfolding apply_files apply_config
  apply_files-again [] results w current h = refl
  apply_files-again ((f, c) ∷ configs) results w (found, current) h =
      rw
        (
          get_stored_hash-cached o t connected answers saves (config_type_of f) f w h,
          found,
          text_eq_refl (o.sha256 c),
        )
        (apply_files-again configs (put (config_type_of f) (info_unchanged (o.sha256 c)) results) w
          current h)

  neither : (a b : Bool) → (a || b) ≡ false → (a ≡ false) × (b ≡ false)
  neither true b h = cc
  neither false b h = (refl, h)

  -- The same of one file.
  pub apply_config_current :
      (f c : Text) (w : World)
      → IsCurrent o t ((f, c) ∷ []) w
      → w.default_tenant_id ≡ some t
      → apply_config o f c w ≡ (ok (info_unchanged (o.sha256 c)), w)
  unfolding apply_config
  apply_config_current f c w (found, _) h =
      rw
        (
          get_stored_hash-cached o t connected answers saves (config_type_of f) f w h,
          found,
          text_eq_refl (o.sha256 c),
        )
        refl

  any_applied-put :
      (key : Text) (info : Info) (results : Results)
      → is_applied (key, info) ≡ false
      → any_applied results ≡ false
      → any_applied (put key info results) ≡ false
  unfolding put
  any_applied-put key info [] i h = rw i refl
  any_applied-put key info ((k, v) ∷ results) i h =
      let (first_not, rest_not) = neither (is_applied (k, v)) (any_applied results) h in
      elim (Bool-cases (text_eq k key)) [
        | inl e ↦ rw (e, i) rest_not
        | inr e ↦ rw (e, first_not) (any_applied-put key info results i rest_not)
      ]

  pub all_unchanged-any_applied :
      (configs : List (Text × Text)) (results : Results)
      → any_applied results ≡ false
      → any_applied (all_unchanged configs results) ≡ false
  all_unchanged-any_applied [] results h = h
  all_unchanged-any_applied ((f, c) ∷ configs) results h =
      all_unchanged-any_applied configs _
        (any_applied-put (config_type_of f) (info_unchanged (o.sha256 c)) results refl h)

-- Once a file has been handled, with a database that takes the row, a later run with the same content
-- reports it as unchanged and does nothing, also where the first could not write the file.
pub apply_config-again :
    (o o' : Outside) (t : Text)
    → o.connected ≡ true
    → o.answers ≡ true
    → ((name : Text) → o.saves name ≡ true)
    → o'.connected ≡ true
    → o'.answers ≡ true
    → ((name : Text) → o'.saves name ≡ true)
    → (f c : Text) (w : World) → w.default_tenant_id ≡ some t
    → o'.sha256 c ≡ o.sha256 c
    → apply_config o' f c (apply_config o f c w).1
      ≡ (ok (info_unchanged (o'.sha256 c)), (apply_config o f c w).1)
unfolding After
apply_config-again o o' t connected answers saves connected' answers' saves' f c w h same =
    let w1 = (apply_config o f c w).1 in
    let (returned, found, (same_db, same_signals, same_tenant), others) =
      apply_config-After o t connected answers saves f c w h in
    let current : IsCurrent o' t ((f, c) ∷ []) w1 = (rw same found, tt) in
    apply_config_current o' t connected' answers' saves' f c w1 current (same_tenant ∙ h)
