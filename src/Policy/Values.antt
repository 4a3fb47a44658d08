-- ===== src/Policy/Values.antt =====
-- shared/orw_common/policy_evaluator.py: how Python writes, compares and normalises the values of
-- conditions and contexts, `_normalize` and `_equals`.
use openradiusweb.Prelude.{
  ℕ, suc, ◌+◌, Bool, true, false, not, ◌&&◌, ◌||◌, Option, none, some, List, [], ◌∷◌, ◌++◌,
  if◌then◌else◌, ◌==◌,
}
use openradiusweb.Prelude.Int.{ℤ, pos, negsuc, int_eq}
use openradiusweb.Prelude.Text.{Text, codes, text_eq, lower, strip, show, join}
use openradiusweb.Prelude.Repr.{repr_text, repr_bool}
use openradiusweb.Value.{
  Value, null, bool, int, str, list, dict, Items, nil, cons, Fields, end, field, get, is_true,
}

abbrev show_int : ℤ → Text
show_int (pos n) = show n
show_int (negsuc n) = codes "-" ++ show (n + 1)

-- `repr(value)`.
unfoldable mutual
  pub repr : Value → Text
  repr null = codes "None"
  repr (bool b) = repr_bool b
  repr (int n) = show_int n
  repr (str s) = repr_text s
  repr (list vs) = codes "[" ++ (join (codes ", ") (repr_items vs) ++ codes "]")
  repr (dict d) = codes "{" ++ (join (codes ", ") (repr_fields d) ++ codes "}")

  pub repr_items : Items → List Text
  repr_items nil = []
  repr_items (cons v vs) = repr v ∷ repr_items vs

  pub repr_fields : Fields → List Text
  repr_fields end = []
  repr_fields (field k v rest) = (repr_text k ++ (codes ": " ++ repr v)) ∷ repr_fields rest

-- `str(value)`.
abbrev pub to_text : Value → Text
to_text (str s) = s
to_text v = repr v

abbrev int_of_bool : Bool → ℤ
int_of_bool true = pos 1
int_of_bool false = pos 0

abbrev count : Fields → ℕ
count end = 0
count (field k v rest) = suc (count rest)

abbrev equals_found : Option Value → (Value → Bool) → Bool
equals_found none test = false
equals_found (some w) test = test w

-- `a == b`: True is 1 and False is 0; two dicts are equal with their keys in any order.
unfoldable mutual
  pub value_eq : Value → Value → Bool
  value_eq null null = true
  value_eq (bool b) (bool c) = int_eq (int_of_bool b) (int_of_bool c)
  value_eq (bool b) (int n) = int_eq (int_of_bool b) n
  value_eq (int n) (bool b) = int_eq n (int_of_bool b)
  value_eq (int m) (int n) = int_eq m n
  value_eq (str s) (str t) = text_eq s t
  value_eq (list vs) (list ws) = items_eq vs ws
  value_eq (dict d) (dict e) = (count d == count e) && fields_in d e
  value_eq _ _ = false

  items_eq : Items → Items → Bool
  items_eq nil nil = true
  items_eq (cons v vs) (cons w ws) = value_eq v w && items_eq vs ws
  items_eq _ _ = false

  fields_in : Fields → Fields → Bool
  fields_in end e = true
  fields_in (field k v rest) e = equals_found (get k e) (value_eq v) && fields_in rest e

abbrev is_one_of : Text → List Text → Bool
is_one_of t [] = false
is_one_of t (s ∷ rest) = text_eq t s || is_one_of t rest

abbrev word : Text → Value
word v =
    if is_one_of v (codes "true" ∷ codes "yes" ∷ codes "1" ∷ [])
    then bool true
    else if is_one_of v (codes "false" ∷ codes "no" ∷ codes "0" ∷ [])
    then bool false
    else str v

-- `_normalize`.
unfoldable pub normalize : Value → Value
normalize (str s) = word (strip (lower s))
normalize v = v

-- `_equals`.
unfoldable pub equals : Value → Value → Bool
equals null null = true
equals null _ = false
equals _ null = false
equals (str s) (str t) = text_eq (lower s) (lower t)
equals (bool a) b = if is_true b then a else not a
equals a (bool b) = if is_true a then b else not b
equals a b = value_eq a b
