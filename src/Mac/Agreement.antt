-- ===== src/Mac/Agreement.antt =====
-- Where the normalisation of the FreeRADIUS module and that of the gateway agree.
use mathlib.Core.Bool.{and-eq-true_iff}
use openradiusweb.Prelude.{
  ℕ, suc, ◌≡◌, ◌⊎◌, refl, ap, true, ◌&&◌, [], ◌∷◌, ◌==◌, length, any, keep_if, All, arith,
  Bool-cases, inl, inr,
}
use openradiusweb.Prelude.Text.{Text, codes, lower, remove_code}
use openradiusweb.Prelude.Result.{ok}
use openradiusweb.Mac.{colon_pairs, strip_separators, normalize_mac, is_hex, validate_mac}

-- Hex digits, and one separator among the three that the FreeRADIUS module removes.
abbrev pub IsSeparator : ℕ → Type 0
IsSeparator c = (c ≡ b':') ⊎ (c ≡ b'-') ⊎ (c ≡ b'.')

abbrev pub IsWritten : ℕ → Text → Type 0
IsWritten sep = All (λ c. (is_hex c ≡ true) ⊎ (c ≡ sep))

strip_separators-keep_if :
    (sep : ℕ) (v : Text) → IsSeparator sep → IsWritten sep v → strip_separators v ≡ keep_if is_hex v
unfolding strip_separators remove_code
strip_separators-keep_if sep [] s h = refl
strip_separators-keep_if sep (c ∷ v) s (h, k) = ground (arith, strip_separators-keep_if sep v s k)

remove_dot-keep_if : (v : Text) → IsWritten b'.' v → remove_code b'.' v ≡ keep_if is_hex v
unfolding remove_code
remove_dot-keep_if [] h = refl
remove_dot-keep_if (c ∷ v) (h, k) = ground (arith, remove_dot-keep_if v k)

separator_of_dot :
    (sep : ℕ) (v : Text) → IsWritten sep v → any (λ c. c == b'.') v ≡ true → sep ≡ b'.'
separator_of_dot sep [] h d = cc
separator_of_dot sep (c ∷ v) (h, k) d = ground (arith, separator_of_dot sep v k)

length-lower : (s : Text) → length (lower s) ≡ length s
unfolding lower
length-lower [] = refl
length-lower (c ∷ s) = ap suc (length-lower s)

-- A MAC address of hex digits and one kind of separator, colons, dashes or dots, in any grouping: if
-- the gateway accepts it, the FreeRADIUS module looks it up in the form in which the gateway has
-- stored it.
pub normalize_mac-validate_mac :
    (sep : ℕ) (v m : Text)
    → IsSeparator sep
    → IsWritten sep v
    → validate_mac v ≡ ok m
    → normalize_mac v ≡ m
unfolding normalize_mac validate_mac
normalize_mac-validate_mac sep v m s h e =
    let same = strip_separators-keep_if sep v s h in
    elim (Bool-cases (length (keep_if is_hex v) == 12)) [
      | inr short ↦ absurd (cc (short, e))
      | inl twelve ↦
          let stored : colon_pairs (lower (keep_if is_hex v)) ≡ m = ground (arith, twelve, e) in
          elim (Bool-cases (any (λ c. c == b'.') v && length v == 14)) [
            | inl cisco ↦
                let dot = separator_of_dot sep v h ((and-eq-true_iff _ _).0 cisco).0 in
                let bare = remove_dot-keep_if v (rw dot at h) in rw (cisco, bare) stored
            | inr other ↦ rw (other, same, length-lower, twelve) stored
          ]
    ]

-- Ten digits and a dash in Cisco's grouping: the FreeRADIUS module looks up another address.
mixed_separators :
    (validate_mac (codes "aabb.ccdd-eeff") ≡ ok (codes "aa:bb:cc:dd:ee:ff"))
    × (normalize_mac (codes "aabb.ccdd-eeff") ≡ codes "aa:bb:cc:dd:-e:ef")
unfolding normalize_mac validate_mac colon_pairs strip_separators lower remove_code
mixed_separators = (refl, refl)
