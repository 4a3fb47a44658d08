-- ===== src/Gateway/Mab/Import.antt =====
-- features/mab_devices/service.py: what `bulk_import` counts, and what a second import does.
pub mod Rounds
use openradiusweb.Prelude.{
  ◌≡◌, refl, ◌∙◌, sym, ap, ℕ, ◌+◌, Bool, true, false, ◌&&◌, ◌||◌, Option, none, List, [], ◌∷◌, ◌++◌,
  any, length, length-append, if◌then◌else◌, All, Bool-cases, Option-cases, suc, All-map, subst,
  inl, inr, arith,
}
use openradiusweb.Prelude.Text.{Text, text_eq, text_eq_refl}
use openradiusweb.Prelude.Result.{Exn, Result, ok, err, key_error, db_error}
use openradiusweb.Prelude.Exec.{Exec, pure, continue, ◌>>◌}
use openradiusweb.Gateway.Audit.{Actor, entry_casts}
use openradiusweb.Gateway.Rows.{Outside, Table, same_opt, log_audit}
use openradiusweb.Gateway.Mab.{
  MabDevice, NewDevice, accepts_device, device_row, bulk_insert_mab_device, append_row, as_enabled,
}
use openradiusweb.Gateway.Mab.Service.{Imported, import_one, import_all, log_import, bulk_import}
use Rounds.{count_of, Skips, Done, import_one-Done, Skips-rows}

module _ (o : Outside) (actor : Actor) where
  -- What the loop has done when it returns.
  record Counted (ds : List NewDevice) (t : Table MabDevice) (c s c' s' : ℕ) (u : Table MabDevice)
      : Type 0 where
    all_counted : c' + s' ≡ (c + s) + length ds
    grown_by : length u.rows + c ≡ length t.rows + c'
    all_settled : All (λ d. Skips o actor d u) ds
    still_settled : (e : NewDevice) → Skips o actor e t → Skips o actor e u

  next-Counted :
      (b : Bool) (d : NewDevice) (ds : List NewDevice) (t u v : Table MabDevice) (c s c' s' : ℕ)
      → Done o actor d t b u
      → Counted ds u (if b then c + 1 else c) (if b then s else s + 1) c' s' v
      → Counted (d ∷ ds) t c s c' s' v
  next-Counted true d ds t u v c s c' s' one rest = record {
    all_counted = omega (arith, rest.all_counted);
    grown_by = omega (arith, rest.grown_by, one.grown);
    all_settled = (rest.still_settled d one.settled, rest.all_settled);
    still_settled = λ e h. rest.still_settled e (one.keeps e h);
  }
  next-Counted false d ds t u v c s c' s' one rest = record {
    all_counted = omega (arith, rest.all_counted);
    grown_by = omega (arith, rest.grown_by, one.grown);
    all_settled = (rest.still_settled d one.settled, rest.all_settled);
    still_settled = λ e h. rest.still_settled e (one.keeps e h);
  }

  import_all-Counted :
      (ds : List NewDevice) (t : Table MabDevice) (c s c' s' : ℕ)
      → (import_all o actor ds c s t).0 ≡ ok (c', s')
      → Counted ds t c s c' s' (import_all o actor ds c s t).1
  unfolding import_all
  import_all-Counted [] t c s c' s' h =
      let same : ◌≡◌ {A = ℕ × ℕ} (c, s) (c', s') = cc in
      let same_c : c ≡ c' = ap (λ x. x.0) same in
      let same_s : s ≡ s' = ap (λ x. x.1) same in
      record {
        all_counted = omega (arith, same_c, same_s);
        grown_by = omega (arith, same_c);
        all_settled = tt;
        still_settled = λ e k. k;
      }
  import_all-Counted (d ∷ ds) t c s c' s' h =
      by_result (import_one o actor d t).0 refl
        (λ b k. import_all-Counted ds u (if b then c + 1 else c) (if b then s else s + 1) c' s' k) h
    where
      u : Table MabDevice
      u = (import_one o actor d t).1

      later : Bool → Exec (Table MabDevice) (ℕ × ℕ)
      later b = import_all o actor ds (if b then c + 1 else c) (if b then s else s + 1)

      by_result :
          (r : Result Bool)
          → (import_one o actor d t).0 ≡ r
          → ((b : Bool)
              → (later b u).0 ≡ ok (c', s')
              → Counted ds u (if b then c + 1 else c) (if b then s else s + 1) c' s' (later b u).1)
          → (continue r later u).0 ≡ ok (c', s')
          → Counted (d ∷ ds) t c s c' s' (continue r later u).1
      by_result (err x) e ih k = cc
      by_result (ok b) e ih k =
          next-Counted b d ds t u _ c s c' s' (import_one-Done o actor d t b e) (ih b k)

  -- A run over devices that are all found.
  import_all-again :
      (ds : List NewDevice) (t : Table MabDevice) (c s : ℕ)
      → All (λ d. Skips o actor d t) ds
      → import_all o actor ds c s t ≡ (ok (c, s + length ds), t)
  unfolding import_all
  import_all-again [] t c s h = λ i. (ok (c, sum_zero i), t)
    where
      sum_zero : s ≡ s + 0
      sum_zero = omega arith
  import_all-again (d ∷ ds) t c s (e, h) =
      rw e (import_all-again ds t c (s + 1) h ∙ (λ i. (ok (c, next i), t)))
    where
      next : (s + 1) + length ds ≡ s + suc (length ds)
      next = omega arith

  -- The entry of the audit log is written where the database takes it, whatever the numbers.
  log_import_lem :
      (total : ℕ) (ip : Option Text) (cs : ℕ × ℕ) (t : Table MabDevice)
      → ((log_import o actor total ip cs t).0 ≡ (
          if entry_casts o.is_uuid o.is_inet actor none ip
          then ok (record { created = cs.0; skipped = cs.1; total = total })
          else err db_error))
        × ((log_import o actor total ip cs t).1.rows ≡ t.rows)
  unfolding log_audit
  log_import_lem total ip (c, s) t =
      elim (Bool-cases (entry_casts o.is_uuid o.is_inet actor none ip)) [
        | inl e ↦ rw e (refl, refl)
        | inr e ↦ rw e (refl, refl)
      ]

  -- What `bulk_import` says of an import, and what it says of the same import made again.
  abbrev pub Repeatable :
      List NewDevice → Option Text → Table MabDevice → Imported → Table MabDevice → Type 0
  Repeatable devices ip t imp u =
      (imp.created + imp.skipped ≡ length devices)
      × (imp.total ≡ length devices)
      × (length u.rows ≡ length t.rows + imp.created)
      × ((bulk_import o actor devices ip u).0
          ≡ ok (record { created = 0; skipped = length devices; total = length devices }))
      × ((bulk_import o actor devices ip u).1.rows ≡ u.rows)

  -- The answers of two runs that are logged.
  ok_if :
      (b : Bool) (x y imp : Imported)
      → (if b then ok x else err db_error) ≡ ok imp
      → (x ≡ imp) × ((if b then ok y else err db_error) ≡ ok y)
  ok_if true x y imp h = (cc, refl)
  ok_if false x y imp h = cc

  counts :
      (devices : List NewDevice) (ip : Option Text) (t v u : Table MabDevice) (c s : ℕ)
      → Counted devices t 0 0 c s v
      → u.rows ≡ v.rows
      → ((bulk_import o actor devices ip u).0
          ≡ ok (record { created = 0; skipped = length devices; total = length devices }))
        × ((bulk_import o actor devices ip u).1.rows ≡ u.rows)
      → Repeatable devices ip t (record { created = c; skipped = s; total = length devices }) u
  counts devices ip t v u c s k same again = (
    omega (arith, k.all_counted),
    refl,
    omega (arith, k.grown_by, ap (λ l. length l) same),
    again.0,
    again.1,
  )

  logged :
      (devices : List NewDevice) (ip : Option Text) (t v : Table MabDevice) (c s : ℕ)
      (imp : Imported)
      → Counted devices t 0 0 c s v
      → (log_import o actor (length devices) ip (c, s) v).0 ≡ ok imp
      → Repeatable devices ip t imp (log_import o actor (length devices) ip (c, s) v).1
  unfolding bulk_import
  logged devices ip t v c s imp k h =
      let total = length devices in
      let u = (log_import o actor total ip (c, s) v).1 in
      let (said, same) = log_import_lem total ip (c, s) v in
      let (is_said, said_again) =
        ok_if (entry_casts o.is_uuid o.is_inet actor none ip)
          (record { created = c; skipped = s; total = total })
          (record { created = 0; skipped = total; total = total }) imp (sym said ∙ h) in
      let found = All-map (λ d. Skips-rows o actor d v u (sym same)) devices k.all_settled in
      let zero_sum : 0 + total ≡ total = omega arith in
      let loop : import_all o actor devices 0 0 u ≡ (ok (0, total), u) =
        import_all-again devices u 0 0 found ∙ (λ i. (ok (0, zero_sum i), u)) in
      let (log_said, log_same) = log_import_lem total ip (0, total) u in
      subst (λ x. Repeatable devices ip t x u) is_said
        (counts devices ip t v u c s k same (rw loop (log_said ∙ said_again, log_same)))

  -- An import that returns has added as many rows as it says, and counts every device once; the
  -- same import made again returns, adds nothing and counts all as skipped.
  pub bulk_import-Repeatable :
      (devices : List NewDevice) (ip : Option Text) (t : Table MabDevice) (imp : Imported)
      → (bulk_import o actor devices ip t).0 ≡ ok imp
      → Repeatable devices ip t imp (bulk_import o actor devices ip t).1
  unfolding bulk_import
  bulk_import-Repeatable devices ip t imp h = by_loop (import_all o actor devices 0 0 t).0 refl h
    where
      v : Table MabDevice
      v = (import_all o actor devices 0 0 t).1

      by_loop :
          (r : Result (ℕ × ℕ))
          → (import_all o actor devices 0 0 t).0 ≡ r
          → (continue r (log_import o actor (length devices) ip) v).0 ≡ ok imp
          → Repeatable devices ip t imp (continue r (log_import o actor (length devices) ip) v).1
      by_loop (err x) e k = cc
      by_loop (ok (c, s)) e k =
          logged devices ip t v c s imp (import_all-Counted devices t 0 0 c s e) k
