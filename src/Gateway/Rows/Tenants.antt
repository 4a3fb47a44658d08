-- ===== src/Gateway/Rows/Tenants.antt =====
-- What the statements on a table of a tenant leave as it is: the rows of the other tenants.
use openradiusweb.Prelude.{
  ◌≡◌, refl, ◌∙◌, ap, Bool, true, false, not, Option, some, List, [], ◌∷◌, ◌++◌, keep_if,
  if◌then◌else◌, All, Bool-cases, inl, inr, &&_true,
}
use openradiusweb.Prelude.Text.{Text, text_eq}
use openradiusweb.Prelude.Result.{Exn, Result, ok, err}
use openradiusweb.Prelude.Exec.{Exec, pure, continue, catch, raise, lift, ◌>>=◌}
use openradiusweb.Value.{Fields}
use openradiusweb.Gateway.Audit.{Actor, entry_casts, required}
use openradiusweb.Gateway.Sql.{build_safe_set_clause}
use openradiusweb.Gateway.Sql.Allowed.{IsParameter, build_safe_set_clause-IsAssignment}
use openradiusweb.Gateway.Rows.{
  Updates, Outside, Table, Columns, SameKeys, same_opt, after, log_audit, is_row, lookup_row,
  set_columns, add_row, clashes, unless_clash, set_rows, store_rows, execute_update, update_row,
  delete_row,
}

module _ {R : Type 0} (tenant_id : R → Option Text) (tenant : Text) where
  -- The rows of the other tenants.
  abbrev pub others : List R → List R
  others rows = keep_if (λ r. not (same_opt (tenant_id r) tenant)) rows

  -- Whatever comes of it, the rows of the other tenants are as before.
  unfoldable pub KeepsOthers : {A : Type 0} → Exec (Table R) A → Type 0
  KeepsOthers m = (t : Table R) → others (m t).1.rows ≡ others t.rows

  continue-KeepsOthers :
      {A B : Type 0} (r : Result A) (f : A → Exec (Table R) B) (t : Table R)
      → ((a : A) → KeepsOthers (f a))
      → others (continue r f t).1.rows ≡ others t.rows
  unfolding KeepsOthers
  continue-KeepsOthers (ok a) f t h = h a t
  continue-KeepsOthers (err e) f t h = refl

  pub pure-KeepsOthers : {A : Type 0} (a : A) → KeepsOthers (pure a)
  unfolding KeepsOthers
  pure-KeepsOthers a t = refl

  pub raise-KeepsOthers : (A : Type 0) (e : Exn) → KeepsOthers (raise {A = A} e)
  unfolding KeepsOthers
  raise-KeepsOthers A e t = refl

  -- One operation after another.
  pub >>=-KeepsOthers :
      {A B : Type 0} (m : Exec (Table R) A) (f : A → Exec (Table R) B)
      → KeepsOthers m
      → ((a : A) → KeepsOthers (f a))
      → KeepsOthers (m >>= f)
  unfolding KeepsOthers
  >>=-KeepsOthers m f h k t = continue-KeepsOthers (m t).0 f (m t).1 k ∙ h t

  pub lift-KeepsOthers :
      {A B : Type 0} (r : Result A) (f : A → Exec (Table R) B)
      → ((a : A) → r ≡ ok a → KeepsOthers (f a))
      → KeepsOthers (lift r >>= f)
  unfolding KeepsOthers
  lift-KeepsOthers (ok a) f h = h a refl
  lift-KeepsOthers (err e) f h = λ t. refl

  pub catch-KeepsOthers :
      {A : Type 0} (m : Exec (Table R) A) (f : Exn → Exn)
      → KeepsOthers m
      → KeepsOthers (catch m (λ e. raise (f e)))
  unfolding KeepsOthers
  catch-KeepsOthers {A} m f h t = handled (m t).0 (m t).1 ∙ h t
    where
      handled :
          (r : Result A) (u : Table R)
          → others (catch (λ (s : Table R). (r, u)) (λ e. raise (f e)) u).1.rows ≡ others u.rows
      handled (ok a) u = refl
      handled (err e) u = refl

  -- A row of another tenant, or none, at the end.
  pub others-append :
      (rows : List R) (r : R)
      → tenant_id r ≡ some tenant
      → text_eq tenant tenant ≡ true
      → others (rows ++ r ∷ []) ≡ others rows
  others-append [] r e k = rw (e, k) refl
  others-append (s ∷ rows) r e k = elim (Bool-cases (same_opt (tenant_id s) tenant)) [
    | inl own ↦ rw own (others-append rows r e k)
    | inr other ↦ rw other (ap (λ l. s ∷ l) (others-append rows r e k))
  ]

  -- `actor["tenant_id"]` of an actor of the tenant.
  pub own_tenant-KeepsOthers :
      {A : Type 0} (actor : Actor) (f : Text → Exec (Table R) A)
      → actor.tenant_id ≡ some tenant
      → KeepsOthers (f tenant)
      → KeepsOthers (lift (required actor.tenant_id) >>= f)
  unfolding KeepsOthers
  own_tenant-KeepsOthers actor f e h = rw e h

  pub if-KeepsOthers :
      {A : Type 0} (b : Bool) (m n : Exec (Table R) A)
      → KeepsOthers m
      → KeepsOthers n
      → KeepsOthers (if b then m else n)
  if-KeepsOthers true m n h k = h
  if-KeepsOthers false m n h k = k

module _ (o : Outside) {R : Type 0} (c : Columns R) (tenant : Text) where
  pub log_audit-KeepsOthers :
      (actor : Actor) (action kind : Text) (resource : Option Text) (details : Fields)
      (ip : Option Text)
      → KeepsOthers c.tenant_id tenant (log_audit o {R = R} actor action kind resource details ip)
  unfolding KeepsOthers log_audit
  log_audit-KeepsOthers actor action kind resource details ip t =
      elim (Bool-cases (entry_casts o.is_uuid o.is_inet actor resource ip)) [
        | inl e ↦ rw e refl
        | inr e ↦ rw e refl
      ]

  pub lookup_row-KeepsOthers :
      (row_id : Text) → KeepsOthers c.tenant_id tenant (lookup_row o c tenant row_id)
  unfolding KeepsOthers lookup_row
  lookup_row-KeepsOthers row_id t = elim (Bool-cases (o.is_uuid tenant)) [
    | inl e ↦ rw e refl
    | inr e ↦ rw e refl
  ]

  others-delete :
      (row_id : Text) (rows : List R)
      → others c.tenant_id tenant (keep_if (λ r. not (is_row o c tenant row_id r)) rows)
        ≡ others c.tenant_id tenant rows
  others-delete row_id [] = refl
  others-delete row_id (r ∷ rows) = elim (Bool-cases (is_row o c tenant row_id r)) [
    | inl e ↦
        let own : same_opt (c.tenant_id r) tenant ≡ true = (&&_true _ _ e).1 in
        rw (e, own) (others-delete row_id rows)
    | inr e ↦ elim (Bool-cases (same_opt (c.tenant_id r) tenant)) [
      | inl own ↦ rw (e, own) (others-delete row_id rows)
      | inr other ↦ rw (e, other) (ap (λ l. r ∷ l) (others-delete row_id rows))
    ]
  ]

  pub delete_row-KeepsOthers :
      (row_id : Text) → KeepsOthers c.tenant_id tenant (delete_row o c tenant row_id)
  unfolding KeepsOthers delete_row
  delete_row-KeepsOthers row_id t = elim (Bool-cases (o.is_uuid tenant)) [
    | inl e ↦ rw e (others-delete row_id t.rows)
    | inr e ↦ rw e refl
  ]

  join-SameKeys :
      (r s : R) (q : Result R)
      → (c.id s ≡ c.id r) × (c.tenant_id s ≡ c.tenant_id r)
      → SameKeys c.id c.tenant_id s q
      → SameKeys c.id c.tenant_id r q
  join-SameKeys r s (ok u) (i, k) (i', k') = (i' ∙ i, k' ∙ k)
  join-SameKeys r s (err e) h k = tt

  after-SameKeys :
      (r : R) (q : Result R) (f : R → Result R)
      → SameKeys c.id c.tenant_id r q
      → ((s : R) → SameKeys c.id c.tenant_id s (f s))
      → SameKeys c.id c.tenant_id r (after q f)
  after-SameKeys r (ok s) f h k = join-SameKeys r s (f s) h (k s)
  after-SameKeys r (err e) f h k = tt

  set_columns-SameKeys :
      (params : Updates) (r : R)
      → All (IsParameter c.allowed) params
      → SameKeys c.id c.tenant_id r (set_columns o c params r)
  unfolding set_columns
  set_columns-SameKeys [] r h = (refl, refl)
  set_columns-SameKeys ((column, v) ∷ params) r (p, h) =
      after-SameKeys r (c.assign column v r) (set_columns o c params)
        (c.assign-SameKeys column v r p) (λ s. set_columns-SameKeys params s h)

  unless_clash-SameKeys :
      (table : List R) (r : R) → SameKeys c.id c.tenant_id r (unless_clash o c table r)
  unless_clash-SameKeys table r = elim (Bool-cases (clashes o c table r)) [
    | inl e ↦ rw e tt
    | inr e ↦ rw e (refl, refl)
  ]

  KeepsRows : List R → Result (List R) → Type 0
  KeepsRows rows (ok rows') = others c.tenant_id tenant rows' ≡ others c.tenant_id tenant rows
  KeepsRows rows (err e) = Unit

  add_row-KeepsRows :
      (r : R) (rows : List R) (q : Result R) (rest : Result (List R))
      → same_opt (c.tenant_id r) tenant ≡ true
      → SameKeys c.id c.tenant_id r q
      → KeepsRows rows rest
      → KeepsRows (r ∷ rows) (add_row o c q rest)
  unfolding KeepsRows
  add_row-KeepsRows r rows (ok s) (ok rows') own (i, k) h =
      let still : same_opt (c.tenant_id s) tenant ≡ true = rw k own in rw (still, own) h
  add_row-KeepsRows r rows (ok s) (err e) own k h = tt
  add_row-KeepsRows r rows (err e) rest own k h = tt

  same_row-KeepsRows :
      (r : R) (rows : List R) (rest : Result (List R))
      → KeepsRows rows rest
      → KeepsRows (r ∷ rows) (add_row o c (ok r) rest)
  unfolding KeepsRows
  same_row-KeepsRows r rows (ok rows') h = elim (Bool-cases (same_opt (c.tenant_id r) tenant)) [
    | inl own ↦ rw own h
    | inr other ↦ rw other (ap (λ l. r ∷ l) h)
  ]
  same_row-KeepsRows r rows (err e) h = tt

  set_rows-KeepsRows :
      (table : List R) (row_id : Text) (params : Updates) (rows : List R)
      → All (IsParameter c.allowed) params
      → KeepsRows rows (set_rows o c table tenant row_id params rows)
  unfolding set_rows KeepsRows
  set_rows-KeepsRows table row_id params [] h = refl
  set_rows-KeepsRows table row_id params (r ∷ rows) h =
      let later = set_rows-KeepsRows table row_id params rows h in
      elim (Bool-cases (is_row o c tenant row_id r)) [
        | inl e ↦
            let changed =
              after-SameKeys r (set_columns o c params r) (unless_clash o c table)
                (set_columns-SameKeys params r h) (unless_clash-SameKeys table) in
            rw e (add_row-KeepsRows r rows _ _ (&&_true _ _ e).1 changed later)
        | inr e ↦ rw e (same_row-KeepsRows r rows _ later)
      ]

  execute_update-KeepsOthers :
      (row_id clause : Text) (params : Updates)
      → All (IsParameter c.allowed) params
      → KeepsOthers c.tenant_id tenant (execute_update o c tenant row_id (clause, params))
  unfolding KeepsOthers KeepsRows
  execute_update-KeepsOthers row_id clause params h t = elim (Bool-cases (o.is_uuid tenant)) [
    | inl e ↦ rw e (
        stored (set_rows o c t.rows tenant row_id params t.rows)
          (set_rows-KeepsRows t.rows row_id params t.rows h))
    | inr e ↦ rw e refl
  ]
    where
      stored :
          (q : Result (List R))
          → KeepsRows t.rows q
          → others c.tenant_id tenant (store_rows o c tenant row_id q t).1.rows
            ≡ others c.tenant_id tenant t.rows
      stored (ok rows) k = k
      stored (err x) k = refl

  pub update_row-KeepsOthers :
      (row_id : Text) (updates : Updates)
      → KeepsOthers c.tenant_id tenant (update_row o c tenant row_id updates)
  unfolding update_row
  update_row-KeepsOthers row_id updates =
      lift-KeepsOthers c.tenant_id tenant (build_safe_set_clause c.allowed [] [] updates)
        (execute_update o c tenant row_id)
        (λ (clause, params) built.
          let (parts, made, assigned, allowed) =
            build_safe_set_clause-IsAssignment c.allowed [] [] updates clause params built in
          execute_update-KeepsOthers row_id clause params allowed)
