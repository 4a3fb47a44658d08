-- ===== src/Prelude/Text/Digits.antt =====
-- A number that is printed is read back.
use Prim.Native.Nat.{ℕ, zero, suc, ◌+◌, ◌-◌, ◌*◌, ◌/◌, ◌%◌, ◌<◌, ◌≤◌}
use mathlib.Core.Path.{◌≡◌, refl, ap, ◌∙◌}
use mathlib.Core.Logic.{inl, inr}
use mathlib.Core.Bool.{true, false}
use mathlib.Core.Option.{some}
use mathlib.Core.List.{[], ◌∷◌}
use native.Mathlib.Omega.{arith}
use openradiusweb.Prelude.Tests.{ltb, Bool-cases, ltb→lt, if_both}
use openradiusweb.Prelude.Text.{Text, is_digit, digits_value, parse_digits, show_from, show}

ltb→ge : (a b : ℕ) → ltb a b ≡ false → b ≤ a
ltb→ge a b h = ground arith

digits_value-digit :
    (a d : ℕ) (acc : Text)
    → d < 10
    → digits_value a ((b'0' + d) ∷ acc) ≡ digits_value (a * 10 + d) acc
unfolding digits_value
digits_value-digit a d acc h =
    let digit : is_digit (48 + d) ≡ true = ground arith in
    let back : 48 + d - 48 ≡ d = omega arith in rw (digit, back)

digits_value-show_from :
    (f n : ℕ) (acc : Text) → n < f → digits_value 0 (show_from f n acc) ≡ digits_value n acc
unfolding show_from
digits_value-show_from zero n acc h = ground arith
digits_value-show_from (suc f) n acc h =
    let large = digits_value-show_from f (n / 10) ((48 + n % 10) ∷ acc) in
    let last = digits_value-digit (n / 10) (n % 10) acc omega arith in
    let split_n : n / 10 * 10 + n % 10 ≡ n = omega arith in
    elim (Bool-cases (ltb n 10)) [
      | inl small ↦ rw small (
          digits_value-digit 0 n acc (ltb→lt n 10 small)
          ∙ ap (λ m. digits_value m acc) (let start : 0 * 10 + n ≡ n = omega arith in start))
      | inr big ↦ rw big (
          large (let ge = ltb→ge n 10 big in omega arith)
          ∙ (last ∙ ap (λ m. digits_value m acc) split_n))
    ]

show_from_cons : (f n c : ℕ) (acc : Text) → (d : ℕ) × (t : Text) × (show_from f n (c ∷ acc) ≡ d ∷ t)
unfolding show_from
show_from_cons zero n c acc = (c, acc, refl)
show_from_cons (suc f) n c acc =
    if_both (λ s. (d : ℕ) × (t : Text) × (s ≡ d ∷ t)) (ltb n 10) _ _ (48 + n, c ∷ acc, refl)
      (show_from_cons f (n / 10) (48 + n % 10) (c ∷ acc))

show_cons : (n : ℕ) → (d : ℕ) × (t : Text) × (show n ≡ d ∷ t)
unfolding show show_from
show_cons n =
    if_both (λ s. (d : ℕ) × (t : Text) × (s ≡ d ∷ t)) (ltb n 10) _ _ (48 + n, [], refl)
      (show_from_cons n (n / 10) (48 + n % 10) [])

parse_digits_cons : (s : Text) (d : ℕ) (t : Text) → s ≡ d ∷ t → parse_digits s ≡ digits_value 0 s
unfolding parse_digits
parse_digits_cons s d t h = rw h

show_eq : (n : ℕ) → show n ≡ show_from (suc n) n []
unfolding show
show_eq n = refl

pub parse_digits-show : (n : ℕ) → parse_digits (show n) ≡ some n
parse_digits-show n =
    let (d, t, e) = show_cons n in
    parse_digits_cons (show n) d t e
    ∙ (ap (digits_value 0) (show_eq n)
        ∙ (digits_value-show_from (suc n) n [] omega arith ∙ (unfold digits_value in refl)))
