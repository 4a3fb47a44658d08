-- ===== src/Policy/Negations.antt =====
-- Which operators of `_compare` are the negations of others.
use openradiusweb.Prelude.{◌≡◌, refl, ap, Bool, true, false, not, ◌&&◌, ◌||◌, if◌then◌else◌}
use openradiusweb.Prelude.Text.{codes}
use openradiusweb.Prelude.Result.{Result, ok, err}
use openradiusweb.Value.{Value, null, bool, int, str, list, dict, is_true}
use openradiusweb.Policy.Values.{normalize}
use openradiusweb.Policy.Evaluator.{
  Python, operator_of, apply_operator, compare, when_true, is_null, in_expected, not_in_expected,
}

abbrev pub negated : Result Bool → Result Bool
negated (ok b) = ok (not b)
negated (err e) = err e

not-not : (b : Bool) → b ≡ not (not b)
not-not true = refl
not-not false = refl

not-when_true : (a : Value) (b : Bool) → (if is_true a then not b else true) ≡ not (when_true a b)
not-when_true a b = by_test (is_true a)
  where
    by_test : (t : Bool) → (if t then not b else true) ≡ not (if t then b else false)
    by_test true = refl
    by_test false = refl

not-if : (t b : Bool) → (if t then not b else true) ≡ not (if t then b else false)
not-if true b = refl
not-if false b = refl

not_in-in : (a e : Value) → not_in_expected a e ≡ not (in_expected a e)
not_in-in a (list vs) = refl
not_in-in a null = not-if (is_true (normalize a)) _
not_in-in a (bool b) = not-if (is_true (normalize a)) _
not_in-in a (int n) = not-if (is_true (normalize a)) _
not_in-in a (str s) = not-if (is_true (normalize a)) _
not_in-in a (dict f) = not-if (is_true (normalize a)) _

not-or : (a b c : Bool) → (not a && (not b && not c)) ≡ not (a || (b || c))
not-or true b c = refl
not-or false true c = refl
not-or false false c = refl

-- Whatever the values, and with no exception in either case, each of the operators not_equals,
-- not_in, not_contains, not_exists and is_not_empty gives the negation of its counterpart.
pub compare-not :
    (p : Python) (a e : Value)
    → (compare p a (str (codes "not_equals")) e ≡ negated (compare p a (str (codes "equals")) e))
      × (compare p a (str (codes "not_in")) e ≡ negated (compare p a (str (codes "in")) e))
      × (compare p a (str (codes "not_contains")) e
          ≡ negated (compare p a (str (codes "contains")) e))
      × (compare p a (str (codes "not_exists")) e ≡ negated (compare p a (str (codes "exists")) e))
      × (compare p a (str (codes "is_not_empty")) e
          ≡ negated (compare p a (str (codes "is_empty")) e))
unfolding compare operator_of apply_operator
compare-not p a e = (
  refl,
  ap ok (not_in-in a e),
  ap ok (not-when_true a _),
  ap ok (not-not (is_null a)),
  ap ok (not-or (is_null a) _ _),
)
