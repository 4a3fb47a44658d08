-- ===== src/Coa/Lookup.antt =====
-- Which sessions the queries of services/auth/coa_manager.py find.
use mathlib.Core.List.{Memᴰ}
use openradiusweb.Prelude.{
  ℕ, ◌≡◌, ◌≢◌, inl, inr, refl, Bool, true, false, ◌&&◌, none, some, List, [], ◌∷◌, ◌++◌, arith,
  Bool-cases, ◌==◌, ap, map, All, any, keep_if, Memᴰ-keep_if, ◌∙◌, Option-cases, if_both,
}
use openradiusweb.Prelude.Text.{
  Text, truthy, text_eq, eq_of_text_eq, lower, lower_code, remove_code,
}
use openradiusweb.Coa.Like.{like, ilike, some_suffix}
use openradiusweb.Coa.Tables.{
  Session, World, NetworkDevice, join, mac_clean, station_matches, find_by_mac, find_by_user,
}

abbrev pub has_dot : Text → Bool
has_dot s = any (λ c. c == b'.') s

has_dot-lower : (s : Text) → has_dot (lower s) ≡ has_dot s
unfolding lower
has_dot-lower [] = refl
has_dot-lower (c ∷ s) = ground (arith, has_dot-lower s)

has_dot-remove_dot : (s : Text) → has_dot (remove_code b'.' s) ≡ false
unfolding remove_code
has_dot-remove_dot [] = refl
has_dot-remove_dot (c ∷ s) = ground (arith, has_dot-remove_dot s)

has_dot-remove_code : (d : ℕ) (s : Text) → d ≢ b'.' → has_dot (remove_code d s) ≡ has_dot s
unfolding remove_code
has_dot-remove_code d [] h = refl
has_dot-remove_code d (c ∷ s) h = ground (arith, has_dot-remove_code d s)

has_dot-mac_clean : (mac : Text) → has_dot (mac_clean mac) ≡ false
unfolding mac_clean
has_dot-mac_clean mac = rw has_dot-lower (has_dot-remove_dot _)

-- A session whose station is written with dots, as Cisco switches write it.
abbrev pub IsDotted : Session → Type 0
IsDotted s = (station : Text) → s.calling_station_id ≡ some station → has_dot station ≡ true

key_dotted :
    (station mac : Text)
    → has_dot station ≡ true
    → text_eq (remove_code b'-' (remove_code b':' (lower station))) (mac_clean mac) ≡ false
key_dotted station mac h =
    let key = remove_code b'-' (remove_code b':' (lower station)) in
    let dotted : has_dot key ≡ true =
      has_dot-remove_code b'-' _ (omega arith)
      ∙ has_dot-remove_code b':' _ (omega arith)
      ∙ has_dot-lower station
      ∙ h in
    elim (Bool-cases (text_eq key (mac_clean mac))) [
      | inr e ↦ e
      | inl e ↦ cc (dotted, has_dot-mac_clean mac, eq_of_text_eq key (mac_clean mac) e)
    ]

station_matches_dotted :
    (mac : Text) (s : Session) → IsDotted s → station_matches (mac_clean mac) s ≡ false
unfolding station_matches
station_matches_dotted mac s h = elim (Option-cases s.calling_station_id) [
  | inl missing ↦ rw missing
  | inr (station, e) ↦ rw e (key_dotted station mac (h station e))
]

keep_if_none :
    (mac : Text) (sessions : List Session)
    → All IsDotted sessions
    → keep_if (λ s. station_matches (mac_clean mac) s && s.active) sessions ≡ []
keep_if_none mac [] h = refl
keep_if_none mac (s ∷ rest) (d, h) = rw (station_matches_dotted mac s d) (keep_if_none mac rest h)

-- Where the stations of all sessions are written with dots, no MAC address finds a session, however
-- the address itself is written.
pub find_by_mac_dotted :
    (mac : Text) (w : World) → All IsDotted w.sessions → find_by_mac mac w ≡ none
unfolding find_by_mac
find_by_mac_dotted mac w h =
    rw (keep_if_none mac w.sessions h) (if_both (λ r. r ≡ none) (truthy mac) none none refl refl)

-- Of the characters that a pattern reads in its own way, only `_` is left.
abbrev pub IsPlain : Text → Type 0
IsPlain = All (λ c. (c ≢ b'%') × (c ≢ b'\\'))

IsPlain-lower : (s : Text) → IsPlain s → IsPlain (lower s)
unfolding lower
IsPlain-lower [] h = tt
IsPlain-lower (c ∷ s) (h, k) = ((ground arith, ground arith), IsPlain-lower s k)

like_prefix : (p t : Text) → IsPlain p → like (p ++ b'%' ∷ []) (p ++ t) ≡ true
unfolding like
like_prefix [] t h = refl
like_prefix (c ∷ []) t (h, _) = ground arith
like_prefix (c ∷ e ∷ p) t (h, k) = ground (arith, like_prefix (e ∷ p) t k)

some_suffix-append : (f : Text → Bool) (a t : Text) → f t ≡ true → some_suffix f (a ++ t) ≡ true
some_suffix-append f [] [] h = h
some_suffix-append f [] (c ∷ t) h = rw h
some_suffix-append f (c ∷ a) t h = ground (arith, some_suffix-append f a t h)

like_inside : (p a t : Text) → IsPlain p → like (b'%' ∷ (p ++ b'%' ∷ [])) (a ++ (p ++ t)) ≡ true
unfolding like
like_inside [] a t h = some_suffix-append (like (b'%' ∷ [])) a t refl
like_inside (e ∷ p) a t h =
    some_suffix-append (like (e ∷ (p ++ b'%' ∷ []))) a (e ∷ (p ++ t)) (like_prefix (e ∷ p) t h)

lower-append : (s t : Text) → lower (s ++ t) ≡ lower s ++ lower t
unfolding lower
lower-append [] t = refl
lower-append (c ∷ s) t = λ i. lower_code c ∷ lower-append s t i

lower_pattern : (u : Text) → lower (b'%' ∷ (u ++ b'%' ∷ [])) ≡ b'%' ∷ (lower u ++ b'%' ∷ [])
unfolding lower
lower_pattern u = ap (λ s. b'%' ∷ s) (lower-append u (b'%' ∷ []))

ilike_inside : (u a b : Text) → IsPlain u → ilike (a ++ (u ++ b)) (b'%' ∷ (u ++ b'%' ∷ [])) ≡ true
unfolding ilike
ilike_inside u a b h =
    rw (lower_pattern u, lower-append a (u ++ b), lower-append u b)
      (like_inside (lower u) (lower a) (lower b) (IsPlain-lower u h))

Memᴰ-map_join :
    (devices : List NetworkDevice) {s : Session} (l : List Session)
    → Memᴰ s l
    → Memᴰ (join devices s) (map (join devices) l)
Memᴰ-map_join devices [] m = elim m [ ]
Memᴰ-map_join devices (x ∷ l) (Memᴰ.head e) = Memᴰ.head (ap (join devices) e)
Memᴰ-map_join devices (x ∷ l) (Memᴰ.tail m) = Memᴰ.tail (Memᴰ-map_join devices l m)

-- `_find_active_sessions_by_user` finds every active session whose user's name has the given one
-- inside it, in any case of the letters: a change for one user also reaches the others.
pub find_by_user_inside :
    (u before after : Text) (s : Session) (w : World)
    → IsPlain u
    → s.username ≡ some (before ++ (u ++ after))
    → s.active ≡ true
    → Memᴰ s w.sessions
    → Memᴰ (join w.devices s) (find_by_user u w)
unfolding find_by_user
find_by_user_inside u before after s w plain name active m =
    Memᴰ-map_join w.devices _
      (Memᴰ-keep_if _ w.sessions m (rw (name, active, ilike_inside u before after plain)))
