-- ===== src/Prelude/Text/Split.antt =====
-- `split` after `join`.
use openradiusweb.Prelude.Tests.{◌==◌}
use openradiusweb.Prelude.Lists.{All}
use openradiusweb.Prelude.Text.{Text, split, split_from, join}
use Prim.Native.Nat.{ℕ}
use mathlib.Core.Path.{◌≡◌, sym, ap, ◌∙◌}
use mathlib.Core.Bool.{true, false}
use mathlib.Core.List.{List, [], ◌∷◌, ◌++◌, append-nil, append_assoc}
use native.Mathlib.Omega.{arith}

-- A text without a character.
abbrev pub Without : ℕ → Text → Type 0
Without c = All (λ a. (a == c) ≡ false)

split_from-append :
    (c : ℕ) (cur g s : Text) → Without c g → split_from c cur (g ++ s) ≡ split_from c (cur ++ g) s
unfolding split_from
split_from-append c cur [] s h = ap (λ t. split_from c t s) (sym (append-nil cur))
split_from-append c cur (a ∷ g) s (k, h) = rw k (
    split_from-append c (cur ++ a ∷ []) g s h
    ∙ ap (λ t. split_from c t s) (append_assoc cur (a ∷ []) g))

same_code : (c : ℕ) → (c == c) ≡ true
same_code c = ground arith

split_from-join :
    (c : ℕ) (cur g : Text) (gs : List Text)
    → Without c g
    → All (Without c) gs
    → split_from c cur (join (c ∷ []) (g ∷ gs)) ≡ (cur ++ g) ∷ gs
unfolding split_from
split_from-join c cur g [] h k =
    ap (λ t. split_from c cur t) (sym (append-nil g)) ∙ split_from-append c cur g [] h
split_from-join c cur g (g' ∷ gs) h (h', k) =
    split_from-append c cur g _ h
    ∙ rw (same_code c) (ap (λ l. (cur ++ g) ∷ l) (split_from-join c [] g' gs h' k))

-- The parts of a text that was joined are those that were joined.
pub split-join :
    (c : ℕ) (g : Text) (gs : List Text)
    → Without c g
    → All (Without c) gs
    → split c (join (c ∷ []) (g ∷ gs)) ≡ g ∷ gs
unfolding split
split-join c g gs h k = split_from-join c [] g gs h k
