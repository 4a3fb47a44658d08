-- ===== src/Value.antt =====
-- The values of decoded JSON (policies, device contexts, messages on the bus), as Python holds them.
-- Numbers with a fraction are left out.
use openradiusweb.Prelude.{
  ℕ, zero, suc, Bool, true, false, Option, none, some, List, [], ◌∷◌, if◌then◌else◌,
}
use openradiusweb.Prelude.Int.{ℤ, pos, negsuc}
use openradiusweb.Prelude.Text.{Text, text_eq}

mutual
  pub data Value : Type 0 where
    null : Value
    bool : Bool → Value
    int : ℤ → Value
    str : Text → Value
    list : Items → Value
    dict : Fields → Value

  pub data Items : Type 0 where
    nil : Items
    cons : Value → Items → Items

  pub data Fields : Type 0 where
    end : Fields
    field : Text → Value → Fields → Fields

abbrev pub num : ℕ → Value
num n = int (pos n)

abbrev pub items : Items → List Value
items nil = []
items (cons v vs) = v ∷ items vs

abbrev pub of_list : List Value → Items
of_list [] = nil
of_list (v ∷ vs) = cons v (of_list vs)

-- `d.get(key)`; keys are unique, so the first one is the one.
abbrev pub get : Text → Fields → Option Value
get key end = none
get key (field k v rest) = if text_eq k key then some v else get key rest

-- `d.get(key)` where a missing key is as good as `None`.
abbrev pub get_or_null : Text → Fields → Value
get_or_null key d = elim (get key d) [ none ↦ null | some v ↦ v ]

abbrev pub fields : List (Text × Value) → Fields
fields [] = end
fields ((k, v) ∷ rest) = field k v (fields rest)

-- The text that a value is, if it is one.
abbrev pub text_of : Value → Option Text
text_of (str s) = some s
text_of _ = none

abbrev pub nat_of : Value → Option ℕ
nat_of (int (pos n)) = some n
nat_of _ = none

-- Python's truth value.
abbrev pub is_true : Value → Bool
is_true null = false
is_true (bool b) = b
is_true (int (pos zero)) = false
is_true (int (pos (suc _))) = true
is_true (int (negsuc _)) = true
is_true (str []) = false
is_true (str (_ ∷ _)) = true
is_true (list nil) = false
is_true (list (cons _ _)) = true
is_true (dict end) = false
is_true (dict (field _ _ _)) = true
