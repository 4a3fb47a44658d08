-- ===== src/Gateway/Auth/Redis.antt =====
-- The commands of Redis that the feature uses, on keys with a value and a time of expiry.
use openradiusweb.Prelude.{
  ℕ, suc, ◌+◌, Bool, true, Option, none, some, List, ltb, if◌then◌else◌, is_some,
}
use openradiusweb.Prelude.Text.{Text}
use openradiusweb.Prelude.Dict.{put, get_entry, remove}

-- A counter; the value that `setex` writes is not read.
pub record Entry : Type 0 where
  pub value : ℕ
  pub expires : Option ℕ

abbrev pub Store : Type 0
Store = List (Text × Entry)

abbrev pub not_over : ℕ → Option ℕ → Bool
not_over now none = true
not_over now (some t) = ltb now t

abbrev pub live : ℕ → Option Entry → Option Entry
live now none = none
live now (some e) = if not_over now e.expires then some e else none

-- What a key holds at a time: an entry past its expiry is gone.
unfoldable pub find : ℕ → Text → Store → Option Entry
unfolding get_entry
find now key s = live now (get_entry key s)

abbrev pub next : Option Entry → Entry
next none = record { value = 1; expires = none }
next (some e) = record { value = suc e.value; expires = e.expires }

-- INCR: the new value, and the store; the expiry stays.
unfoldable pub incr : ℕ → Text → Store → ℕ × Store
unfolding find put
incr now key s = let e = next (find now key s) in (e.value, put key e s)

abbrev pub set_expiry : ℕ → ℕ → Text → Option Entry → Store → Store
set_expiry now ttl key none s = s
set_expiry now ttl key (some e) s = put key (record e { expires = some (now + ttl) }) s

-- EXPIRE.
unfoldable pub expire : ℕ → Text → ℕ → Store → Store
unfolding find put
expire now key ttl s = set_expiry now ttl key (find now key s) s

unfoldable pub key_exists : ℕ → Text → Store → Bool
unfolding find
key_exists now key s = is_some (find now key s)

-- SETEX.
unfoldable pub setex : ℕ → Text → ℕ → ℕ → Store → Store
unfolding put
setex now key ttl value s = put key (record { value = value; expires = some (now + ttl) }) s

-- DEL of a key.
unfoldable pub delete_key : Text → Store → Store
unfolding remove
delete_key key s = remove key s
