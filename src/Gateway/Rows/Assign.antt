-- ===== src/Gateway/Rows/Assign.antt =====
-- The assignments of SET by the types of the columns: what each takes, and that it leaves the
-- identifier and the tenant of a row.
use openradiusweb.Prelude.{
  ◌≡◌, ℕ, Bool, true, false, Option, none, some, List, [], ◌∷◌, ◌++◌, map, if◌then◌else◌, leb,
  length, All, Bool-cases, Option-cases, inl, inr,
}
use openradiusweb.Prelude.Text.{Text, text_eq, text_in}
use openradiusweb.Prelude.Result.{Result, ok, err, db_error}
use openradiusweb.Gateway.Rows.{Param, nothing, text, number, flag, time, SameKeys, fits_integer}

-- A column by its type, with the writing of a value; VARCHAR(n) has a length, and `not_null` is a
-- column of text that takes no NULL. A column with a cast takes the texts that have one.
pub data Column (R : Type 0) : Type 0 where
  varchar : ℕ → (Option Text → R → R) → Column R
  plain_text : (Option Text → R → R) → Column R
  not_null : ℕ → (Text → R → R) → Column R
  integer : (Option ℕ → R → R) → Column R
  not_null_integer : (ℕ → R → R) → Column R
  boolean : (Option Bool → R → R) → Column R
  not_null_boolean : (Bool → R → R) → Column R
  timestamp : (Option ℕ → R → R) → Column R
  cast : (Text → Option Text) → (Option Text → R → R) → Column R

-- What the database makes of a parameter for a column.
unfoldable pub set : {R : Type 0} → Column R → Param → R → Result R
set (varchar n f) nothing r = ok (f none r)
set (varchar n f) (text s) r = if leb (length s) n then ok (f (some s) r) else err db_error
set (plain_text f) nothing r = ok (f none r)
set (plain_text f) (text s) r = ok (f (some s) r)
set (not_null n f) (text s) r = if leb (length s) n then ok (f s r) else err db_error
set (integer f) nothing r = ok (f none r)
set (integer f) (number k) r = if fits_integer k then ok (f (some k) r) else err db_error
set (not_null_integer f) (number k) r = if fits_integer k then ok (f k r) else err db_error
set (boolean f) nothing r = ok (f none r)
set (boolean f) (flag b) r = ok (f (some b) r)
set (not_null_boolean f) (flag b) r = ok (f b r)
set (timestamp f) nothing r = ok (f none r)
set (timestamp f) (time t) r = ok (f (some t) r)
set (cast c f) nothing r = ok (f none r)
set (cast c f) (text s) r = elim (c s) [ none ↦ err db_error | some t ↦ ok (f (some t) r) ]
set _ _ r = err db_error

-- The assignment of a column, among those that a table has.
unfoldable pub assign_by : {R : Type 0} → List (Text × Column R) → Text → Param → R → Result R
unfolding set
assign_by [] column v r = err db_error
assign_by ((name, c) ∷ rest) column v r =
    if text_eq column name then set c v r else assign_by rest column v r

module _ {R : Type 0} (id : R → Text) (tenant_id : R → Option Text) where
  abbrev Kept : {A : Type 0} → (A → R → R) → Type 0
  Kept {A} f = (a : A) (r : R) → (id (f a r) ≡ id r) × (tenant_id (f a r) ≡ tenant_id r)

  -- A column that is neither the identifier nor the tenant.
  abbrev pub IsOther : Column R → Type 0
  IsOther (varchar n f) = Kept f
  IsOther (plain_text f) = Kept f
  IsOther (not_null n f) = Kept f
  IsOther (integer f) = Kept f
  IsOther (not_null_integer f) = Kept f
  IsOther (boolean f) = Kept f
  IsOther (not_null_boolean f) = Kept f
  IsOther (timestamp f) = Kept f
  IsOther (cast c f) = Kept f

  if_ok :
      (b : Bool) (r s : R)
      → (id s ≡ id r) × (tenant_id s ≡ tenant_id r)
      → SameKeys id tenant_id r (if b then ok s else err db_error)
  if_ok true r s h = h
  if_ok false r s h = tt

  set-SameKeys :
      (c : Column R) (v : Param) (r : R) → IsOther c → SameKeys id tenant_id r (set c v r)
  unfolding set
  set-SameKeys (varchar n f) nothing r h = h none r
  set-SameKeys (varchar n f) (text s) r h = if_ok (leb (length s) n) r (f (some s) r) (h (some s) r)
  set-SameKeys (plain_text f) nothing r h = h none r
  set-SameKeys (plain_text f) (text s) r h = h (some s) r
  set-SameKeys (not_null n f) (text s) r h = if_ok (leb (length s) n) r (f s r) (h s r)
  set-SameKeys (integer f) nothing r h = h none r
  set-SameKeys (integer f) (number k) r h = if_ok (fits_integer k) r (f (some k) r) (h (some k) r)
  set-SameKeys (not_null_integer f) (number k) r h = if_ok (fits_integer k) r (f k r) (h k r)
  set-SameKeys (boolean f) nothing r h = h none r
  set-SameKeys (boolean f) (flag b) r h = h (some b) r
  set-SameKeys (not_null_boolean f) (flag b) r h = h b r
  set-SameKeys (timestamp f) nothing r h = h none r
  set-SameKeys (timestamp f) (time t) r h = h (some t) r
  set-SameKeys (cast c f) nothing r h = h none r
  set-SameKeys (cast c f) (text s) r h = elim (Option-cases (c s)) [
    | inl e ↦ rw e tt
    | inr (t, e) ↦ rw e (h (some t) r)
  ]
  set-SameKeys (varchar n f) _ r h = tt
  set-SameKeys (plain_text f) _ r h = tt
  set-SameKeys (not_null n f) _ r h = tt
  set-SameKeys (integer f) _ r h = tt
  set-SameKeys (not_null_integer f) _ r h = tt
  set-SameKeys (boolean f) _ r h = tt
  set-SameKeys (not_null_boolean f) _ r h = tt
  set-SameKeys (timestamp f) _ r h = tt
  set-SameKeys (cast c f) _ r h = tt

  -- Where the allowed columns come first, an allowed assignment leaves the keys.
  pub assign_by-SameKeys :
      (allowed others : List (Text × Column R))
      → All (λ e. IsOther (e.1)) allowed
      → (column : Text) (v : Param) (r : R) → text_in column (map (λ e. e.0) allowed) ≡ true
      → SameKeys id tenant_id r (assign_by (allowed ++ others) column v r)
  unfolding assign_by
  assign_by-SameKeys [] others h column v r found = cc
  assign_by-SameKeys ((name, c) ∷ allowed) others (k, h) column v r found =
      elim (Bool-cases (text_eq column name)) [
        | inl e ↦ rw e (set-SameKeys c v r k)
        | inr e ↦
            let later : text_in column (map (λ x. x.0) allowed) ≡ true = rw e at found in
            rw e (assign_by-SameKeys allowed others h column v r later)
      ]
