-- ===== src/Prelude/Repr.antt =====
-- Python's `repr` of the values that the program prints into SQL parameters.
use openradiusweb.Prelude.Text.{Text, codes, show}
use openradiusweb.Prelude.Tests.{ltb, ◌==◌, if◌then◌else◌}
use openradiusweb.Prelude.Lists.{any}
use Prim.Native.Nat.{ℕ, ◌+◌, ◌/◌, ◌%◌}
use mathlib.Core.Bool.{Bool, true, false, not, ◌&&◌, ◌||◌}
use mathlib.Core.Option.{Option, none, some}
use mathlib.Core.List.{List, [], ◌∷◌, ◌++◌}

abbrev hex_digit : ℕ → ℕ
hex_digit n = if ltb n 10 then b'0' + n else 87 + n

-- One character of a text that is quoted by `quote`. Printable ASCII is written as it is; what is
-- not ASCII is taken to be printable.
abbrev repr_code : ℕ → ℕ → Text
repr_code quote c =
    if c == quote || c == b'\\'
    then b'\\' ∷ c ∷ []
    else if c == 10
    then b'\\' ∷ b'n' ∷ []
    else if c == 13
    then b'\\' ∷ b'r' ∷ []
    else if c == 9
    then b'\\' ∷ b't' ∷ []
    else if ltb c 32 || c == 127
    then b'\\' ∷ b'x' ∷ hex_digit (c / 16) ∷ hex_digit (c % 16) ∷ []
    else c ∷ []

repr_body : ℕ → Text → Text
repr_body quote [] = []
repr_body quote (c ∷ s) = repr_code quote c ++ repr_body quote s

-- Single quotes, unless the text holds one and no double quote.
abbrev quote_of : Text → ℕ
quote_of s = if any (λ c. c == 39) s && not (any (λ c. c == 34) s) then 34 else 39

unfoldable pub repr_text : Text → Text
unfolding repr_body
repr_text s = let quote = quote_of s in quote ∷ (repr_body quote s ++ quote ∷ [])

abbrev pub repr_opt : Option Text → Text
repr_opt none = codes "None"
repr_opt (some s) = repr_text s

abbrev pub repr_opt_nat : Option ℕ → Text
repr_opt_nat none = codes "None"
repr_opt_nat (some n) = show n

abbrev pub repr_bool : Bool → Text
repr_bool true = codes "True"
repr_bool false = codes "False"

repr_items : List (Text × Text) → Text
repr_items [] = []
repr_items ((k, v) ∷ []) = repr_text k ++ (codes ": " ++ v)
repr_items ((k, v) ∷ next ∷ rest) =
    repr_text k ++ (codes ": " ++ (v ++ (codes ", " ++ repr_items (next ∷ rest))))

-- The `repr` of a dict with text keys, from the `repr`s of its values.
unfoldable pub repr_dict : List (Text × Text) → Text
unfolding repr_items
repr_dict items = b'{' ∷ (repr_items items ++ b'}' ∷ [])
