-- ===== src/Prelude/Text.antt =====
-- Python's `str` as the list of its code points, and the methods of it that the program uses.
-- Texts are ASCII wherever their case or their blanks matter: `lower`, `upper` and `strip` act on
-- ASCII alone.
pub mod Digits
pub mod Split
use Prim.Native.Char.{code}
use openradiusweb.Prelude.Tests.{ltb, leb, ◌==◌, if◌then◌else◌}
use openradiusweb.Prelude.Lists.{any, length}
use Prim.Native.Nat.{ℕ, zero, suc, ◌+◌, ◌-◌, ◌*◌, ◌/◌, ◌%◌}
use Prim.Native.String.{String}
use mathlib.Core.Path.{◌≡◌, refl}
use mathlib.Core.Bool.{Bool, true, false, ◌&&◌, ◌||◌}
use mathlib.Core.Option.{Option, none, some}
use mathlib.Core.List.{List, [], ◌∷◌, ◌++◌, map, reverse}
use native.Mathlib.Omega.{arith}

abbrev pub Text : Type 0
Text = List ℕ

-- The text of a literal.
abbrev pub codes : String → Text
codes String.[] = []
codes (String.◌∷◌ c s) = code c ∷ codes s

abbrev pub text_eq : Text → Text → Bool
text_eq [] [] = true
text_eq [] (_ ∷ _) = false
text_eq (_ ∷ _) [] = false
text_eq (a ∷ s) (b ∷ t) = a == b && text_eq s t

pub text_eq_refl : (s : Text) → text_eq s s ≡ true
text_eq_refl [] = refl
text_eq_refl (a ∷ s) = ground (arith, text_eq_refl s)

pub eq_of_text_eq : (s t : Text) → text_eq s t ≡ true → s ≡ t
eq_of_text_eq [] [] h = refl
eq_of_text_eq [] (_ ∷ _) h = cc
eq_of_text_eq (_ ∷ _) [] h = cc
eq_of_text_eq (a ∷ s) (b ∷ t) h = ground (arith, eq_of_text_eq s t)

-- Python's truth value of a text.
abbrev pub truthy : Text → Bool
truthy [] = false
truthy (_ ∷ _) = true

abbrev pub text_or_empty : Option Text → Text
text_or_empty none = []
text_or_empty (some s) = s

abbrev pub opt_truthy : Option Text → Bool
opt_truthy none = false
opt_truthy (some s) = truthy s

abbrev pub text_in : Text → List Text → Bool
text_in s xs = any (text_eq s) xs

unfoldable pub lower_code : ℕ → ℕ
lower_code c = if leb b'A' c && leb c b'Z' then c + 32 else c

unfoldable pub lower : Text → Text
unfolding lower_code
lower s = map lower_code s

unfoldable pub upper_code : ℕ → ℕ
upper_code c = if leb b'a' c && leb c b'z' then c - 32 else c

unfoldable pub upper : Text → Text
unfolding upper_code
upper s = map upper_code s

-- `s.replace(c, "")` for one character.
unfoldable pub remove_code : ℕ → Text → Text
remove_code c [] = []
remove_code c (a ∷ s) = let rest = remove_code c s in if a == c then rest else a ∷ rest

-- `s.replace(c, d)` for two characters.
unfoldable pub replace_code : ℕ → ℕ → Text → Text
replace_code c d s = map (λ a. if a == c then d else a) s

-- `s.startswith(t)` and `s.endswith(t)`.
unfoldable pub starts_with : Text → Text → Bool
starts_with s [] = true
starts_with [] (_ ∷ _) = false
starts_with (a ∷ s) (b ∷ t) = a == b && starts_with s t

unfoldable pub ends_with : Text → Text → Bool
unfolding starts_with
ends_with s t = starts_with (reverse s) (reverse t)

-- `t in s`.
unfoldable pub contains : Text → Text → Bool
unfolding starts_with
contains [] t = starts_with [] t
contains (a ∷ s) t = starts_with (a ∷ s) t || contains s t

abbrev pub is_blank : ℕ → Bool
is_blank c = c == 32 || (leb 9 c && leb c 13) || (leb 28 c && leb c 31)

unfoldable pub left_strip : Text → Text
left_strip [] = []
left_strip (a ∷ s) = let rest = left_strip s in if is_blank a then rest else a ∷ s

unfoldable pub strip : Text → Text
unfolding left_strip
strip s = reverse (left_strip (reverse (left_strip s)))

-- `s.split(c, 1)` where `c` occurs: the parts before and after its first occurrence.
unfoldable pub split_first : ℕ → Text → Option (Text × Text)
split_first c [] = none
split_first c (a ∷ s) =
    let rest = split_first c s in
    if a == c
    then some ([], s)
    else elim rest [ none ↦ none | some (before, after) ↦ some (a ∷ before, after) ]

-- `s.rsplit(c, 1)` where `c` occurs: the parts before and after its last occurrence.
unfoldable pub split_last : ℕ → Text → Option (Text × Text)
split_last c [] = none
split_last c (a ∷ s) = elim (split_last c s) [
  | none ↦ (if a == c then some ([], s) else none)
  | some (before, after) ↦ some (a ∷ before, after)
]

-- `s.split(c)`: the parts between all the occurrences, one at least.
split_from : ℕ → Text → Text → List Text
split_from c cur [] = cur ∷ []
split_from c cur (a ∷ s) =
    let closed = split_from c [] s in
    let longer = split_from c (cur ++ a ∷ []) s in if a == c then cur ∷ closed else longer

unfoldable pub split : ℕ → Text → List Text
unfolding split_from
split c s = split_from c [] s

abbrev pub is_digit : ℕ → Bool
is_digit c = leb b'0' c && leb c b'9'

unfoldable pub digits_value : ℕ → Text → Option ℕ
digits_value acc [] = some acc
digits_value acc (c ∷ s) =
    let rest = digits_value (acc * 10 + (c - b'0')) s in if is_digit c then rest else none

-- The value of a text of digits, one at least.
unfoldable pub parse_digits : Text → Option ℕ
unfolding digits_value
parse_digits [] = none
parse_digits (c ∷ s) = digits_value 0 (c ∷ s)

-- `str(n)` of a number that is not negative. The first argument bounds the number of digits.
show_from : ℕ → ℕ → Text → Text
show_from zero n acc = acc
show_from (suc f) n acc =
    let rest = show_from f (n / 10) ((b'0' + n % 10) ∷ acc) in
    if ltb n 10 then (b'0' + n) ∷ acc else rest

unfoldable pub show : ℕ → Text
unfolding show_from
show n = show_from (suc n) n []

abbrev pub join : Text → List Text → Text
join sep [] = []
join sep (x ∷ []) = x
join sep (x ∷ y ∷ xs) = x ++ (sep ++ join sep (y ∷ xs))

-- `s.replace(old, new)` for an old text that is not empty; the first argument counts the
-- characters that are still to be left out.
replace_from : ℕ → Text → Text → Text → Text
replace_from skip old new [] = []
replace_from (suc skip) old new (c ∷ s) = replace_from skip old new s
replace_from zero old new (c ∷ s) =
    let skipped = replace_from (length old - 1) old new s in
    let kept = replace_from zero old new s in
    if starts_with (c ∷ s) old then new ++ skipped else c ∷ kept

unfoldable pub replace_text : Text → Text → Text → Text
unfolding replace_from
replace_text old new s = replace_from zero old new s
