-- ===== src/Policy/Tests.antt =====
-- The theorems on the evaluator at a concrete policy.
use openradiusweb.Policy.Values.{equals, normalize}
use openradiusweb.Prelude.{ℕ, ◌≡◌, refl, true, some, [], ◌∷◌, all, ltb, leb}
use openradiusweb.Prelude.Int.{pos, negsuc}
use openradiusweb.Prelude.Text.{codes, parse_digits, contains, strip, lower}
use openradiusweb.Prelude.Result.{ok, overflow_error, err}
use openradiusweb.Value.{Value, str, list, dict, Fields, of_list, num, fields}
use openradiusweb.Policy.Evaluator.{Python, compare, apply_operator, operator_of}
use openradiusweb.Policy.Conditions.{
  Details, evaluate, evaluate_with_details, resolve_field, details_of, check,
}
use openradiusweb.Policy.Negations.{negated, compare-not}
use openradiusweb.Policy.Agreement.{evaluate_with_details-Agrees}

-- Floats as natural numbers, and patterns without special characters, on a Wednesday at noon.
abbrev python : Python
python = record {
  Float = ℕ;
  of_int = λ n. (elim n [ pos k ↦ ok k | negsuc k ↦ err overflow_error ]);
  of_text = parse_digits;
  lt = ltb;
  le = leb;
  search = λ p t. some (contains t p);
  clock = record {
    hour = 12;
    minute = 0;
    weekday = 2;
    day = 5;
    month = 6;
    date = codes "2024-06-05";
  };
}

abbrev high_risk : Fields
high_risk = fields (
    (codes "field", str (codes "device.risk_score"))
    ∷ (codes "operator", str (codes "gte"))
    ∷ (codes "value", num 70)
    ∷ [])

abbrev is_printer : Fields
is_printer =
    fields
      ((codes "field", str (codes "device.type")) ∷ (codes "value", str (codes "Printer")) ∷ [])

abbrev policy : Fields
policy = fields ((codes "conditions", list (of_list (dict high_risk ∷ dict is_printer ∷ []))) ∷ [])

abbrev device : Fields
device = fields ((codes "risk_score", num 80) ∷ (codes "device_type", str (codes "printer")) ∷ [])

abbrev both_matched : Details
both_matched = record {
  all_matched = true;
  conditions =
      record { condition = high_risk; matched = true }
      ∷ record { condition = is_printer; matched = true }
      ∷ [];
}

matched_with_details : evaluate_with_details python policy device ≡ ok both_matched
unfolding evaluate_with_details details_of check resolve_field compare operator_of apply_operator
    equals normalize strip lower
matched_with_details = refl

evaluate_with_details-Agrees_example :
    (evaluate python policy device ≡ ok true)
    × (true ≡ all (λ c. c.matched) both_matched.conditions)
evaluate_with_details-Agrees_example =
    evaluate_with_details-Agrees python policy device matched_with_details

compare-not_example :
    let a : Value = str (codes "PEAP") in
    let e : Value = list (of_list (str (codes "peap") ∷ [])) in
    (compare python a (str (codes "not_equals")) e
      ≡ negated (compare python a (str (codes "equals")) e))
    × (compare python a (str (codes "not_in")) e ≡ negated (compare python a (str (codes "in")) e))
    × (compare python a (str (codes "not_contains")) e
        ≡ negated (compare python a (str (codes "contains")) e))
    × (compare python a (str (codes "not_exists")) e
        ≡ negated (compare python a (str (codes "exists")) e))
    × (compare python a (str (codes "is_not_empty")) e
        ≡ negated (compare python a (str (codes "is_empty")) e))
compare-not_example =
    compare-not python (str (codes "PEAP")) (list (of_list (str (codes "peap") ∷ [])))
