-- ===== src/Policy/Evaluator.antt =====
-- shared/orw_common/policy_evaluator.py: the class `PolicyEvaluator`.
use openradiusweb.Prelude.{
  ℕ, zero, Bool, true, false, not, ◌&&◌, ◌||◌, Option, none, some, List, [], ◌∷◌, if◌then◌else◌,
  any, all, take, map,
}
use openradiusweb.Prelude.Int.{ℤ, pos}
use openradiusweb.Prelude.Text.{Text, codes, text_eq, lower, contains, starts_with, ends_with}
use openradiusweb.Prelude.Result.{Result, ok, err, value_error, type_error, re_error, ◌>>=◌}
use openradiusweb.Value.{Value, null, bool, int, str, list, dict, Items, items, is_true, num}
use openradiusweb.Policy.Values.{to_text, value_eq, normalize, equals}

-- `datetime.now(timezone.utc)`, as far as it is read; weekdays count from Monday, 0.
pub record Clock : Type 0 where
  pub hour : ℕ
  pub minute : ℕ
  pub weekday : ℕ
  pub day : ℕ
  pub month : ℕ
  pub date : Text

-- What Python brings: `float` of an int (an `OverflowError`, if it is too large) and of a text
-- (a `ValueError`, if it is no number), the orders on floats, `re.search` (none where the pattern
-- is refused with `re.error`), and the clock.
pub record Python : Type 1 where
  pub Float : Type 0
  pub of_int : ℤ → Result Float
  pub of_text : Text → Option Float
  pub lt : Float → Float → Bool
  pub le : Float → Float → Bool
  pub search : Text → Text → Option Bool
  pub clock : Clock

-- The operators of `_compare`, each with its spellings in `operator_of`.
pub data Operator : Type 0 where
  op_equals op_not_equals op_in op_not_in op_contains op_not_contains : Operator
  op_starts_with op_ends_with op_gt op_gte op_lt op_lte op_between op_regex : Operator
  op_exists op_not_exists op_is_empty op_is_not_empty op_is_member_of op_matches_oui : Operator

abbrev spellings : List (Text × Operator)
spellings =
    (codes "equals", op_equals)
    ∷ (codes "eq", op_equals)
    ∷ (codes "==", op_equals)
    ∷ (codes "not_equals", op_not_equals)
    ∷ (codes "ne", op_not_equals)
    ∷ (codes "!=", op_not_equals)
    ∷ (codes "in", op_in)
    ∷ (codes "not_in", op_not_in)
    ∷ (codes "contains", op_contains)
    ∷ (codes "not_contains", op_not_contains)
    ∷ (codes "starts_with", op_starts_with)
    ∷ (codes "ends_with", op_ends_with)
    ∷ (codes "gt", op_gt)
    ∷ (codes ">", op_gt)
    ∷ (codes "gte", op_gte)
    ∷ (codes ">=", op_gte)
    ∷ (codes "lt", op_lt)
    ∷ (codes "<", op_lt)
    ∷ (codes "lte", op_lte)
    ∷ (codes "<=", op_lte)
    ∷ (codes "between", op_between)
    ∷ (codes "regex", op_regex)
    ∷ (codes "exists", op_exists)
    ∷ (codes "not_exists", op_not_exists)
    ∷ (codes "is_empty", op_is_empty)
    ∷ (codes "is_not_empty", op_is_not_empty)
    ∷ (codes "is_member_of", op_is_member_of)
    ∷ (codes "matches_oui", op_matches_oui)
    ∷ []

abbrev pub find_text {ℓ} : {A : Type ℓ} → Text → List (Text × A) → Option A
find_text t [] = none
find_text t ((s, a) ∷ rest) = if text_eq t s then some a else find_text t rest

-- What the `match` makes of an operator; a value that is no text matches no case.
unfoldable pub operator_of : Value → Option Operator
operator_of (str s) = find_text s spellings
operator_of _ = none

-- `value or 0`.
abbrev or_zero : Value → Value
or_zero v = if is_true v then v else num 0

abbrev is_in : Value → List Value → Bool
is_in v vs = any (λ w. value_eq v w) vs

abbrev hashable : Value → Bool
hashable (list _) = false
hashable (dict _) = false
hashable _ = true

abbrev pub is_null : Value → Bool
is_null null = true
is_null _ = false

abbrev is_empty_text : Value → Bool
is_empty_text (str []) = true
is_empty_text _ = false

abbrev is_empty_list : Value → Bool
is_empty_list (list Items.nil) = true
is_empty_list _ = false

-- The cases of `is_empty` and `is_not_empty`.
abbrev pub is_empty : Value → Bool
is_empty v = is_null v || (is_empty_text v || is_empty_list v)

abbrev pub is_not_empty : Value → Bool
is_not_empty v = not (is_null v) && (not (is_empty_text v) && not (is_empty_list v))

-- The case of `in`.
abbrev pub in_expected : Value → Value → Bool
in_expected actual (list vs) = is_in (normalize actual) (map normalize (items vs))
in_expected actual expected =
    if is_true (normalize actual)
    then contains (to_text (normalize expected)) (to_text (normalize actual))
    else false

-- The case of `not_in`.
abbrev pub not_in_expected : Value → Value → Bool
not_in_expected actual (list vs) = not (is_in (normalize actual) (map normalize (items vs)))
not_in_expected actual expected =
    if is_true (normalize actual)
    then not (contains (to_text (normalize expected)) (to_text (normalize actual)))
    else true

abbrev lower_text : Value → Text
lower_text v = lower (to_text v)

abbrev pub when_true : Value → Bool → Bool
when_true actual b = if is_true actual then b else false

-- Two sets have a common member; a list or a dict cannot be in a set.
abbrev sets_meet : List Value → List Value → Result Bool
sets_meet es as' =
    if all hashable es && all hashable as' then ok (any (λ e. is_in e as') es) else err type_error

abbrev is_member_of : Value → Value → Result Bool
is_member_of (list actual) (list expected) =
    sets_meet (map normalize (items expected)) (map normalize (items actual))
is_member_of (list actual) expected = ok (is_in (normalize expected) (map normalize (items actual)))
is_member_of actual expected = ok false

abbrev found : Option Bool → Result Bool
found none = err re_error
found (some b) = ok b

abbrev parsed {ℓ} : {A : Type ℓ} → Option A → Result A
parsed none = err value_error
parsed (some a) = ok a

module _ (p : Python) where
  -- `float(value)`.
  abbrev pub to_float : Value → Result p.Float
  to_float (int n) = p.of_int n
  to_float (bool true) = p.of_int (pos 1)
  to_float (bool false) = p.of_int (pos zero)
  to_float (str s) = parsed (p.of_text s)
  to_float _ = err type_error

  abbrev compare_floats : (p.Float → p.Float → Bool) → Value → Value → Result Bool
  compare_floats test actual expected = do
    a ← to_float (or_zero actual)
    e ← to_float (or_zero expected)
    ok (test a e)

  -- The second bound is not read where the first has failed.
  abbrev upper_bound : Bool → p.Float → Value → Result Bool
  upper_bound false a high = ok false
  upper_bound true a high = do h ← to_float high; ok (p.le a h)

  abbrev between : Value → List Value → Result Bool
  between actual (low ∷ high ∷ []) = do
    l ← to_float low
    a ← to_float (or_zero actual)
    upper_bound (p.le l a) a high
  between actual _ = ok false

  abbrev bounds : Value → List Value
  bounds (list vs) = items vs
  bounds _ = []

  -- The body of the `try` in `_compare`.
  unfoldable pub apply_operator : Operator → Value → Value → Result Bool
  apply_operator op_equals a e = ok (equals (normalize a) (normalize e))
  apply_operator op_not_equals a e = ok (not (equals (normalize a) (normalize e)))
  apply_operator op_in a e = ok (in_expected a e)
  apply_operator op_not_in a e = ok (not_in_expected a e)
  apply_operator op_contains a e =
      ok (when_true a (contains (lower_text a) (lower_text (normalize e))))
  apply_operator op_not_contains a e =
      ok (if is_true a then not (contains (lower_text a) (lower_text (normalize e))) else true)
  apply_operator op_starts_with a e =
      ok (when_true a (starts_with (lower_text a) (lower_text (normalize e))))
  apply_operator op_ends_with a e =
      ok (when_true a (ends_with (lower_text a) (lower_text (normalize e))))
  apply_operator op_gt a e = compare_floats (λ x y. p.lt y x) a e
  apply_operator op_gte a e = compare_floats (λ x y. p.le y x) a e
  apply_operator op_lt a e = compare_floats p.lt a e
  apply_operator op_lte a e = compare_floats p.le a e
  apply_operator op_between a e = between a (bounds e)
  apply_operator op_regex a e =
      if is_true a then found (p.search (to_text e) (to_text a)) else ok false
  apply_operator op_exists a e = ok (not (is_null a))
  apply_operator op_not_exists a e = ok (is_null a)
  apply_operator op_is_empty a e = ok (is_empty a)
  apply_operator op_is_not_empty a e = ok (is_not_empty a)
  apply_operator op_is_member_of a e = is_member_of a e
  apply_operator op_matches_oui a e = ok (
      is_true a
      && (is_true (normalize e)
          && text_eq (lower (take 8 (to_text a))) (lower (take 8 (to_text (normalize e))))))

  -- `except (ValueError, TypeError)`.
  abbrev pub caught : Result Bool → Result Bool
  caught (ok b) = ok b
  caught (err value_error) = ok false
  caught (err type_error) = ok false
  caught (err e) = err e

  abbrev apply_known : Option Operator → Value → Value → Result Bool
  apply_known none a e = ok false
  apply_known (some op) a e = caught (apply_operator op a e)

  -- `_compare`.
  unfoldable pub compare : Value → Value → Value → Result Bool
  compare actual operator expected = apply_known (operator_of operator) actual expected
