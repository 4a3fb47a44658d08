-- ===== src/Gateway/Auth/Counters.antt =====
-- The counters of logins in Redis: what a command leaves at its key and at the others.
use openradiusweb.Prelude.{
  ℕ, suc, ◌+◌, ◌<◌, ◌≡◌, refl, ◌∙◌, ap, inl, inr, true, false, Option, none, some, [], ◌∷◌, ◌==◌,
  ltb, Bool-cases, if_both, arith,
}
use openradiusweb.Prelude.Text.{Text, text_eq, text_eq_refl}
use openradiusweb.Prelude.Dict.{put, get_entry-put_same, get_entry-put_other}
use openradiusweb.Gateway.Auth.Redis.{
  Entry, Store, live, find, next, incr, expire, set_expiry, key_exists, setex,
}
use openradiusweb.Gateway.Auth.Login.{count_up}

pub find-put_same :
    (now : ℕ) (key : Text) (e : Entry) (s : Store) → find now key (put key e s) ≡ live now (some e)
unfolding find
find-put_same now key e s = rw (get_entry-put_same key e s) refl

pub find-put_other :
    (now : ℕ) (key other : Text) (e : Entry) (s : Store)
    → text_eq key other ≡ false
    → find now other (put key e s) ≡ find now other s
unfolding find
find-put_other now key other e s h = rw (get_entry-put_other key other e s h) refl

set_expiry-other :
    (now ttl : ℕ) (key other : Text) (o : Option Entry) (s : Store)
    → text_eq key other ≡ false
    → find now other (set_expiry now ttl key o s) ≡ find now other s
set_expiry-other now ttl key other none s h = refl
set_expiry-other now ttl key other (some e) s h = find-put_other now key other _ s h

-- A counter that goes up leaves the other keys.
pub count_up-other :
    (now : ℕ) (key other : Text) (ttl : ℕ) (s : Store)
    → text_eq key other ≡ false
    → find now other (count_up now key ttl s).1 ≡ find now other s
unfolding count_up incr expire
count_up-other now key other ttl s h =
    let e = next (find now key s) in
    let counted = find-put_other now key other e s h in
    if_both (λ t. find now other t ≡ find now other s) (e.value == 1) _ _
      (set_expiry-other now ttl key other _ (put key e s) h ∙ counted) counted

put-put : (key : Text) (e e' : Entry) (s : Store) → put key e' (put key e s) ≡ put key e' s
unfolding put
put-put key e e' [] = rw (text_eq_refl key) refl
put-put key e e' ((k, v) ∷ s) = elim (Bool-cases (text_eq k key)) [
  | inl h ↦ rw (h, h) refl
  | inr h ↦ rw (h, h) (ap (λ l. (k, v) ∷ l) (put-put key e e' s))
]

-- The value that a counter has reached.
pub count_up_value :
    (now : ℕ) (key : Text) (ttl : ℕ) (s : Store) (e : Entry)
    → find now key s ≡ some e
    → (count_up now key ttl s).0 ≡ suc e.value
unfolding count_up incr
count_up_value now key ttl s e h = rw h refl

-- A key that was set with a life is there until its end.
pub setex-key_exists :
    (now later : ℕ) (key : Text) (ttl value : ℕ) (s : Store)
    → later < now + ttl
    → key_exists later key (setex now key ttl value s) ≡ true
unfolding setex key_exists
setex-key_exists now later key ttl value s h =
    let early : ltb later (now + ttl) ≡ true = ground arith in
    rw (find-put_same later key (record { value = value; expires = some (now + ttl) }) s, early)
      refl
