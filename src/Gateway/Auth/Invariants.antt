-- ===== src/Gateway/Auth/Invariants.antt =====
-- features/auth/service.py: what holds of the accounts after an operation.
use openradiusweb.Prelude.{
  ◌≡◌, refl, ap, sym, inl, inr, Bool, true, false, not, ◌||◌, ◌&&◌, Option, none, some, List, [],
  ◌∷◌, ◌++◌, Bool-cases, All, All-append, keep_if, any,
}
use openradiusweb.Prelude.Text.{Text, text_eq, eq_of_text_eq}
use openradiusweb.Prelude.Result.{ok, err, conflict_error}
use openradiusweb.Gateway.Auth.Tables.{
  User, World, Actor, Outside, casts, castable, log_audit, username_exists, insert_user, delete_row,
  user_of,
}
use openradiusweb.Gateway.Auth.Users.{create_user, delete_user}

neither : (a b : Bool) → (a || b) ≡ false → (a ≡ false) × (b ≡ false)
neither true b h = cc
neither false b h = (refl, h)

-- The rows of other identifiers stay.
keep_if-other :
    (user_id sub : Text) (users : List User)
    → text_eq user_id sub ≡ false
    → user_of sub (keep_if (λ u. not (text_eq u.id user_id)) users) ≡ user_of sub users
keep_if-other user_id sub [] h = refl
keep_if-other user_id sub (u ∷ users) h = elim (Bool-cases (text_eq u.id user_id)) [
  | inl e ↦
      let same : u.id ≡ user_id = eq_of_text_eq u.id user_id e in
      let other : text_eq u.id sub ≡ false = rw same h in
      rw (e, other) (keep_if-other user_id sub users h)
  | inr e ↦ elim (Bool-cases (text_eq u.id sub)) [
    | inl k ↦ rw (e, k) refl
    | inr k ↦ rw (e, k) (keep_if-other user_id sub users h)
  ]
]

-- Whatever comes of `delete_user`, the row of the one who calls it stays.
pub delete_user-own :
    (o : Outside) (actor : Actor) (user_id sub : Text) (w : World)
    → actor.sub ≡ some sub
    → user_of sub (delete_user o actor user_id w).1.users ≡ user_of sub w.users
unfolding delete_user delete_row log_audit
delete_user-own o actor user_id sub w h = elim (Bool-cases (text_eq user_id sub)) [
  | inl e ↦ rw (h, e) refl
  | inr e ↦ elim (Bool-cases (o.is_uuid user_id)) [
    | inl k ↦ elim (Bool-cases (any (λ u. text_eq u.id user_id) w.users)) [
      | inl f ↦ elim (Bool-cases (o.is_uuid sub && (castable o.is_uuid actor.tenant_id && true))) [
        | inl c ↦ rw (h, e, k, f, c) (keep_if-other user_id sub w.users e)
        | inr c ↦ rw (h, e, k, f, c) (keep_if-other user_id sub w.users e)
      ]
      | inr f ↦ rw (h, e, k, f) (keep_if-other user_id sub w.users e)
    ]
    | inr k ↦ rw (h, e, k) refl
  ]
]

-- No two names that the database takes for one.
abbrev pub IsUnique : Outside → List User → Type 0
IsUnique o [] = Unit
IsUnique o (u ∷ users) =
    All (λ v. o.same_name u.username v.username ≡ false) users × IsUnique o users

append-IsUnique :
    (o : Outside) (new : User) (users : List User)
    → any (λ u. o.same_name u.username new.username) users ≡ false
    → IsUnique o users
    → IsUnique o (users ++ new ∷ [])
append-IsUnique o new [] h k = (tt, tt)
append-IsUnique o new (u ∷ users) h (p, k) =
    let (first_not, rest_not) = neither (o.same_name u.username new.username) _ h in
    (All-append _ users _ p (first_not, tt), append-IsUnique o new users rest_not k)

abbrev new_user : Outside → Text → Option Text → Text → Text → User
new_user o username email password role = record {
  id = o.new_id;
  username = username;
  email = email;
  password_hash = o.hash_password password;
  role = role;
  tenant_id = o.default_tenant;
  enabled = true;
  last_login = none;
  created_at = o.now;
}

-- No two users have names that the database takes for one after `create_user`, if none had before.
-- Where a user has such a name, the request ends with ConflictError, and nothing has changed. And
-- where a user comes back, no user had the name, and it is the new row at the end of the table, with
-- the name that was asked for.
pub create_user-IsUnique :
    (o : Outside) (actor : Actor) (username : Text) (email : Option Text) (password role : Text)
    (w : World)
    → IsUnique o w.users
    → IsUnique o (create_user o actor username email password role w).1.users
      × (any (λ u. o.same_name u.username username) w.users ≡ true
          → create_user o actor username email password role w ≡ (err conflict_error, w))
      × ((user : User)
          → (create_user o actor username email password role w).0 ≡ ok user
          → ((create_user o actor username email password role w).1.users ≡ w.users ++ user ∷ [])
            × (user.username ≡ username)
            × (any (λ u. o.same_name u.username username) w.users ≡ false))
unfolding create_user username_exists insert_user log_audit
create_user-IsUnique o actor username email password role w h =
    elim (Bool-cases (any (λ u. o.same_name u.username username) w.users)) [
      | inl e ↦ rw e (h, λ _. refl, λ user k. cc)
      | inr e ↦ elim (Bool-cases (casts o actor (some o.new_id) none)) [
        | inl c ↦
            rw (e, e, c)
              (
                append-IsUnique o _ w.users e h,
                λ k. cc,
                λ user k.
                    let same : new_user o username email password role ≡ user = cc in
                    (ap (λ x. w.users ++ x ∷ []) same, ap (λ x. x.username) (sym same), refl),
              )
        | inr c ↦ rw (e, e, c) (append-IsUnique o _ w.users e h, λ k. cc, λ user k. cc)
      ]
    ]
