-- ===== src/Gateway/Auth/Kept.antt =====
-- features/auth/service.py: what `update_user` leaves as it is.
use openradiusweb.Prelude.{
  subst, ◌≡◌, refl, ◌∙◌, sym, ap, inl, inr, true, false, not, Option, none, some, List, [], ◌∷◌,
  keep_if, map, Bool-cases, All, leb, length,
}
use openradiusweb.Prelude.Text.{Text, codes, text_eq, text_in}
use openradiusweb.Prelude.Result.{Result, ok, err}
use openradiusweb.Value.{Value, null, bool, int, str, list, dict}
use openradiusweb.Gateway.Sql.{build_safe_set_clause}
use openradiusweb.Gateway.Sql.Allowed.{IsParameter, build_safe_set_clause-IsAssignment}
use openradiusweb.Gateway.Auth.Tables.{User, World, Actor, Outside, casts, log_audit}
use openradiusweb.Gateway.Auth.Update.{
  user_update_columns, set_text, set_role, set_enabled, assign, after, set_columns, add_row,
  set_rows, update_user_fields, update_user, execute_update, store, log_update, no_valid_fields,
  update_cleaned, cleaned_of,
}
use openradiusweb.Prelude.Exec.{Exec, continue, handle, raise}

-- The columns of a user that no client may set, but for the times.
pub record Fixed : Type 0 where
  pub id : Text
  pub username : Text
  pub password_hash : Text
  pub tenant_id : Text

abbrev pub fixed : User → Fixed
fixed u = record {
  id = u.id;
  username = u.username;
  password_hash = u.password_hash;
  tenant_id = u.tenant_id;
}

-- Where there is a row, it has the fixed columns of the other.
SameFixed : User → Result User → Type 0
SameFixed u (ok v) = fixed v ≡ fixed u
SameFixed u (err e) = Unit

set_text-SameFixed :
    (v : Value) (u : User) → SameFixed u (set_text (λ s u'. record u' { email = some s }) v u)
unfolding SameFixed
set_text-SameFixed (str s) u = refl
set_text-SameFixed null u = tt
set_text-SameFixed (bool b) u = tt
set_text-SameFixed (int n) u = tt
set_text-SameFixed (list vs) u = tt
set_text-SameFixed (dict d) u = tt

set_role-SameFixed : (v : Value) (u : User) → SameFixed u (set_role v u)
unfolding SameFixed
set_role-SameFixed (str s) u = elim (Bool-cases (leb (length s) 20)) [
  | inl e ↦ rw e refl
  | inr e ↦ rw e tt
]
set_role-SameFixed null u = tt
set_role-SameFixed (bool b) u = tt
set_role-SameFixed (int n) u = tt
set_role-SameFixed (list vs) u = tt
set_role-SameFixed (dict d) u = tt

set_enabled-SameFixed : (v : Value) (u : User) → SameFixed u (set_enabled v u)
unfolding SameFixed
set_enabled-SameFixed (bool b) u = refl
set_enabled-SameFixed null u = tt
set_enabled-SameFixed (str s) u = tt
set_enabled-SameFixed (int n) u = tt
set_enabled-SameFixed (list vs) u = tt
set_enabled-SameFixed (dict d) u = tt

assign-SameFixed :
    (column : Text) (v : Value) (u : User)
    → text_in column user_update_columns ≡ true
    → SameFixed u (assign column v u)
unfolding assign
assign-SameFixed column v u h = elim (Bool-cases (text_eq column (codes "email"))) [
  | inl e ↦ rw e (set_text-SameFixed v u)
  | inr e ↦ elim (Bool-cases (text_eq column (codes "role"))) [
    | inl k ↦ rw (e, k) (set_role-SameFixed v u)
    | inr k ↦ elim (Bool-cases (text_eq column (codes "enabled"))) [
      | inl l ↦ rw (e, k, l) (set_enabled-SameFixed v u)
      | inr l ↦ let none_of : text_in column user_update_columns ≡ false = rw (e, k, l) refl in cc
    ]
  ]
]

join-SameFixed : (u a : User) (r : Result User) → fixed a ≡ fixed u → SameFixed a r → SameFixed u r
unfolding SameFixed
join-SameFixed u a (ok b) e k = k ∙ e
join-SameFixed u a (err x) e k = tt

after-SameFixed :
    (u : User) (r : Result User) (f : User → Result User)
    → SameFixed u r
    → ((a : User) → SameFixed a (f a))
    → SameFixed u (after r f)
unfolding SameFixed
after-SameFixed u (ok a) f e k = join-SameFixed u a (f a) e (k a)
after-SameFixed u (err x) f e k = tt

set_columns-SameFixed :
    (params : List (Text × Value)) (u : User)
    → All (IsParameter user_update_columns) params
    → SameFixed u (set_columns params u)
unfolding set_columns SameFixed
set_columns-SameFixed [] u h = refl
set_columns-SameFixed ((column, v) ∷ params) u (p, h) =
    after-SameFixed u (assign column v u) (set_columns params) (assign-SameFixed column v u p)
      (λ a. set_columns-SameFixed params a h)

-- The fixed columns of every row, and the rows of other identifiers, are as before.
abbrev pub others : Text → List User → List User
others user_id users = keep_if (λ u. not (text_eq u.id user_id)) users

abbrev pub Kept : Text → List User → List User → Type 0
Kept user_id users users' =
    (map fixed users' ≡ map fixed users) × (others user_id users' ≡ others user_id users)

KeptRows : Text → List User → Result (List User) → Type 0
KeptRows user_id users (ok users') = Kept user_id users users'
KeptRows user_id users (err e) = Unit

set_rows-KeptRows :
    (user_id : Text) (params : List (Text × Value)) (users : List User)
    → All (IsParameter user_update_columns) params
    → KeptRows user_id users (set_rows user_id params users)
unfolding set_rows KeptRows SameFixed
set_rows-KeptRows user_id params [] h = (refl, refl)
set_rows-KeptRows user_id params (u ∷ users) h =
    let later = set_rows-KeptRows user_id params users h in
    elim (Bool-cases (text_eq u.id user_id)) [
      | inl e ↦ rw e (
          changed e (set_columns params u) (set_columns-SameFixed params u h)
            (set_rows user_id params users) later)
      | inr e ↦ rw e (unchanged e (set_rows user_id params users) later)
    ]
  where
    changed :
        text_eq u.id user_id ≡ true
        → (r : Result User) → SameFixed u r
        → (rest : Result (List User)) → KeptRows user_id users rest
        → KeptRows user_id (u ∷ users) (add_row r rest)
    changed e (ok v) s (ok users') (f, o) =
        let same_id : v.id ≡ u.id = ap (λ x. x.id) s in (rw (s, f) refl, rw (same_id, e) o)
    changed e (ok v) s (err x) k = tt
    changed e (err x) s rest k = tt

    unchanged :
        text_eq u.id user_id ≡ false
        → (rest : Result (List User)) → KeptRows user_id users rest
        → KeptRows user_id (u ∷ users) (add_row (ok u) rest)
    unchanged e (ok users') (f, o) = (ap (λ l. fixed u ∷ l) f, rw (e, o) refl)
    unchanged e (err x) k = tt

-- The users are as before.
SameUsers : {A : Type 0} → Exec World A → Type 0
SameUsers m = (w : World) → (m w).1.users ≡ w.users

module _ (o : Outside) where
  execute_update-Kept :
      (user_id clause : Text) (params : List (Text × Value)) (w : World)
      → All (IsParameter user_update_columns) params
      → Kept user_id w.users (execute_update o user_id (clause, params) w).1.users
  unfolding KeptRows
  execute_update-Kept user_id clause params w h = elim (Bool-cases (o.is_uuid user_id)) [
    | inl e ↦
        rw e (stored (set_rows user_id params w.users) (set_rows-KeptRows user_id params w.users h))
    | inr e ↦ rw e (refl, refl)
  ]
    where
      stored :
          (r : Result (List User))
          → KeptRows user_id w.users r
          → Kept user_id w.users (store o user_id r w).1.users
      stored (ok users) k = k
      stored (err x) k = (refl, refl)

  update_user_fields-Kept :
      (user_id : Text) (updates : List (Text × Value)) (w : World)
      → Kept user_id w.users (update_user_fields o user_id updates w).1.users
  unfolding update_user_fields
  update_user_fields-Kept user_id updates w =
      by_clause (build_safe_set_clause user_update_columns [] [] updates) refl
    where
      by_clause :
          (r : Result (Text × List (Text × Value)))
          → build_safe_set_clause user_update_columns [] [] updates ≡ r
          → Kept user_id w.users (continue r (execute_update o user_id) w).1.users
      by_clause (err e) k = (refl, refl)
      by_clause (ok (clause, params)) k =
          let (parts, made, assigned, allowed) =
            build_safe_set_clause-IsAssignment user_update_columns [] [] updates clause params k in
          execute_update-Kept user_id clause params w allowed

  log_update-SameUsers :
      (actor : Actor) (user_id : Text) (cleaned : List (Text × Value)) (found : Option User)
      → SameUsers (log_update o actor user_id cleaned found)
  unfolding SameUsers log_audit
  log_update-SameUsers actor user_id cleaned none w = refl
  log_update-SameUsers actor user_id cleaned (some user) w =
      elim (Bool-cases (casts o actor (some user_id) none)) [
        | inl e ↦ rw e refl
        | inr e ↦ rw e refl
      ]

  -- What follows the UPDATE.
  abbrev catch_log : Actor → Text → List (Text × Value) → Result (Option User) → Exec World User
  catch_log actor user_id cleaned r w =
      let caught = handle r (λ x. raise (no_valid_fields x)) w in
      continue (caught.0) (log_update o actor user_id cleaned) (caught.1)

  update_cleaned-Kept :
      (actor : Actor) (user_id : Text) (cleaned : List (Text × Value)) (w : World)
      → Kept user_id w.users (update_cleaned o actor user_id cleaned w).1.users
  unfolding SameUsers
  update_cleaned-Kept actor user_id [] w = (refl, refl)
  update_cleaned-Kept actor user_id (e ∷ cleaned) w =
      let r = update_user_fields o user_id (e ∷ cleaned) w in
      subst (Kept user_id w.users) (sym (logged (r.0) (r.1)))
        (update_user_fields-Kept user_id (e ∷ cleaned) w)
    where
      logged :
          (r : Result (Option User)) (w' : World)
          → (catch_log actor user_id (e ∷ cleaned) r w').1.users ≡ w'.users
      logged (ok found) w' = log_update-SameUsers actor user_id (e ∷ cleaned) found w'
      logged (err x) w' = refl

  -- Whatever comes of `update_user`, and whatever fields the request names, each user keeps the
  -- identifier, the name, the hash of the password and the tenant, and the rows of other users are as
  -- before.
  pub update_user-Kept :
      (actor : Actor) (user_id : Text) (updates : List (Text × Value)) (w : World)
      → Kept user_id w.users (update_user o actor user_id updates w).1.users
  unfolding update_user
  update_user-Kept actor user_id updates w =
      update_cleaned-Kept actor user_id (cleaned_of updates) w
