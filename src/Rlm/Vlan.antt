-- ===== src/Rlm/Vlan.antt =====
-- The VLAN that `post_auth` of rlm_orw.py assigns and logs, and the realms of its two hooks.
use mathlib.Core.Path.{subst}
use openradiusweb.Prelude.{
  ℕ, String, ◌≡◌, refl, ◌⊎◌, inl, inr, arith, ap, sym, Bool, true, false, ◌&&◌, Option, none, some,
  List, [], ◌∷◌, ◌++◌, any, Bool-cases, if_both, ◌==◌,
}
use openradiusweb.Prelude.Text.{Text, codes, contains, starts_with, lower}
use openradiusweb.Prelude.Repr.{repr_dict}
use openradiusweb.Prelude.Text.Digits.{parse_digits-show}
use openradiusweb.Prelude.Result.{Result, ok, err, >>=-eq-ok}
use openradiusweb.Rlm.Attrs.{one, Attrs, get_or_empty, extract_attrs}
use openradiusweb.Rlm.Method.{detect_auth_method}
use openradiusweb.Rlm.Failure.{
  Reply, only_reason, reply_get, detect_failure_reason, first_reason, source_reason, ad_entry,
  mschap_entry, word_reason,
}
use openradiusweb.Rlm.Tables.{AuthLog, Db, Outside}
use openradiusweb.Rlm.Mab.{HookReply, detect_realm, vlan_attrs}
use openradiusweb.Rlm.PostAuth.{
  is_success, choose_vlan, post_auth, post_auth_request, user_domain, log_row, log_auth_to_db,
  log_and_answer, after_marker, assigned, insert, auth_row, hook_reply, reply_of, logged_vlan,
}

-- The hooks name one realm for a user's name that does not hold both an `@` and a backslash.
-- (With both, `authorize` takes what follows the last `@`, and `post_auth` and the log what stands
-- before the first backslash.)
pub detect_realm-user_domain :
    (t : Text)
    → (any (λ d. d == b'@') t && any (λ d. d == b'\\') t) ≡ false
    → detect_realm (one t) ≡ user_domain (one t)
unfolding detect_realm user_domain
detect_realm-user_domain t h = ground arith

-- What the log of one database holds more than that of another: nothing, or one row that P holds of.
abbrev pub Logged : Db → Db → (AuthLog → Type 0) → Type 0
Logged db db' P =
    (db'.radius_auth_log ≡ db.radius_auth_log)
    ⊎ ((row : AuthLog) × (db'.radius_auth_log ≡ db.radius_auth_log ++ row ∷ []) × P row)

insert-Logged :
    (o : Outside) (r : Result AuthLog) (db : Db) (P : AuthLog → Type 0)
    → ((row : AuthLog) → r ≡ ok row → P row)
    → Logged db (insert o r db) P
insert-Logged o (err e) db P h = inl refl
insert-Logged o (ok row) db P h =
    if_both (λ db'. Logged db db' P) (o.accepts_row row) _ _ (inr (row, refl, h row refl))
      (inl refl)

row_of :
    (o : Outside) (request : Attrs) (reply : Reply) (success : Bool) (P : AuthLog → Type 0)
    → ((method : Text) (domain : Option Text) → P (auth_row o request reply success method domain))
    → (row : AuthLog) → log_row o request reply success ≡ ok row
    → P row
unfolding log_row
row_of o request reply success P h row e =
    let (method, m, e1) = >>=-eq-ok (detect_auth_method request) _ e in
    let (domain, d, e2) = >>=-eq-ok (user_domain (get_or_empty "User-Name" request)) _ e1 in
    let same : auth_row o request reply success method domain ≡ row = cc in
    subst P same (h method domain)

log_auth_to_db-Logged :
    (o : Outside) (request : Attrs) (reply : Reply) (success : Bool) (db : Db)
    (P : AuthLog → Type 0)
    → ((method : Text) (domain : Option Text) → P (auth_row o request reply success method domain))
    → Logged db (log_auth_to_db o request reply success db) P
unfolding log_auth_to_db
log_auth_to_db-Logged o request reply success db P h =
    if_both (λ db'. Logged db db' P) o.connected _ _
      (insert-Logged o (log_row o request reply success) db P (row_of o request reply success P h))
      (inl refl)

reply_vlan :
    (v : Option ℕ)
    → (hook_reply (assigned v)).reply_attrs
      ≡ vlan_attrs
          (logged_vlan (reply_get (codes "Tunnel-Private-Group-Id") (reply_of (assigned v))))
reply_vlan none = refl
reply_vlan (some n) = elim (Bool-cases (n == 0)) [
  | inl h ↦ rw h
  | inr h ↦ rw (h, parse_digits-show n, h)
]

-- What `post_auth` did where it answered: the result of the marker, and the VLAN chosen.
abbrev Answered : Outside → Db → Attrs → HookReply → Db → Bool → Option ℕ → Type 0
Answered o db request reply db' success v =
    (is_success request ≡ ok success)
    × (reply ≡ hook_reply (assigned v))
    × (db' ≡ log_auth_to_db o request (reply_of (assigned v)) success db)
    × (success ≡ false → v ≡ none)

post_auth-Answered :
    (o : Outside) (db : Db) (p : List (String × Text)) {reply : HookReply} {db' : Db}
    → post_auth o p db ≡ (ok reply, db')
    → (success : Bool) × (v : Option ℕ) × Answered o db (extract_attrs p) reply db' success v
unfolding post_auth post_auth_request
post_auth-Answered o db p {reply} {db'} h = by_marker (is_success (extract_attrs p)) refl h
  where
    request : Attrs
    request = extract_attrs p

    by_choice :
        (success : Bool) (c : Result (Option ℕ))
        → is_success (extract_attrs p) ≡ ok success
        → (success ≡ false → c ≡ ok none)
        → log_and_answer o (extract_attrs p) success db c ≡ (ok reply, db')
        → (s : Bool) × (v : Option ℕ) × Answered o db (extract_attrs p) reply db' s v
    by_choice success (err e) m f k = let no : err e ≡ ok reply = ap (λ q. q.0) k in cc
    by_choice success (ok v) m f k =
        let answer : ok (hook_reply (assigned v)) ≡ ok reply = ap (λ q. q.0) k in
        (success, v, (m, cc, sym (ap (λ q. q.1) k), λ e. (let g = f e in cc)))

    by_marker :
        (r : Result Bool)
        → is_success (extract_attrs p) ≡ r
        → after_marker o db (extract_attrs p) r ≡ (ok reply, db')
        → (s : Bool) × (v : Option ℕ) × Answered o db (extract_attrs p) reply db' s v
    by_marker (err e) m k = let no : err e ≡ ok reply = ap (λ q. q.0) k in cc
    by_marker (ok true) m k = by_choice true (choose_vlan o db (extract_attrs p)) m (λ e. cc) k
    by_marker (ok false) m k = by_choice false (ok none) m (λ e. refl) k

-- Where `post_auth` answers, it writes no row, or one whose `assigned_vlan` is the VLAN that the
-- reply carries, none where it carries none.
pub post_auth-Logged :
    (o : Outside) (db : Db) (p : List (String × Text)) {reply : HookReply} {db' : Db}
    → post_auth o p db ≡ (ok reply, db')
    → Logged db db' (λ row. reply.reply_attrs ≡ vlan_attrs row.assigned_vlan)
unfolding auth_row
post_auth-Logged o db p {reply} {db'} h =
    let (success, v, (m, answer, log, f)) = post_auth-Answered o db p h in
    rw (answer, log)
      (log_auth_to_db-Logged o (extract_attrs p) (reply_of (assigned v)) success db
        (λ row. (hook_reply (assigned v)).reply_attrs ≡ vlan_attrs row.assigned_vlan)
        (λ method domain. reply_vlan v))

rejected_reason : detect_failure_reason [] false ≡ only_reason (codes "Authentication rejected")
unfolding detect_failure_reason first_reason source_reason ad_entry mschap_entry word_reason
    contains starts_with repr_dict lower
rejected_reason = refl

-- Where `post_auth` answers a request that the site templates mark as rejected, it writes no
-- row, or one with the reason "Authentication rejected" and no code of AD, whatever the request
-- says of the failure.
pub post_auth-rejected :
    (o : Outside) (db : Db) (p : List (String × Text)) {reply : HookReply} {db' : Db}
    → is_success (extract_attrs p) ≡ ok false
    → post_auth o p db ≡ (ok reply, db')
    → Logged db db' (λ row. row.failure ≡ only_reason (codes "Authentication rejected"))
unfolding auth_row
post_auth-rejected o db p {reply} {db'} marker h =
    let (success, v, (m, answer, log, f)) = post_auth-Answered o db p h in
    let rejected : success ≡ false = cc in
    let nothing : v ≡ none = f rejected in
    rw (log, rejected, nothing)
      (log_auth_to_db-Logged o (extract_attrs p) [] false db
        (λ row. row.failure ≡ only_reason (codes "Authentication rejected"))
        (λ method domain. rejected_reason))
