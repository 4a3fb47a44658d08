-- ===== src/Policy/Agreement.antt =====
-- `evaluate` and `evaluate_with_details` on one policy.
use openradiusweb.Prelude.{◌≡◌, refl, Bool, true, false, List, [], ◌∷◌, all, Bool-cases, inl, inr}
use openradiusweb.Prelude.Result.{ok, >>=-eq-ok}
use openradiusweb.Value.{Value, null, bool, int, str, list, dict, nil, cons, Fields, is_true}
use openradiusweb.Policy.Evaluator.{Python}
use openradiusweb.Policy.Conditions.{
  check, evaluate_all, iterated, conditions_of, evaluate, Details, add_detail, details_of,
  evaluate_with_details,
}

abbrev Agrees : Python → Fields → List Value → Details → Type 0
Agrees p context l d =
    (evaluate_all p context l ≡ ok d.all_matched)
    × (d.all_matched ≡ all (λ c. c.matched) d.conditions)

cons-Agrees :
    (p : Python) (context c : Fields) (b : Bool) (rest : List Value) (later : Details)
    → check p context c ≡ ok b
    → Agrees p context rest later
    → Agrees p context (dict c ∷ rest) (add_detail c b later)
unfolding evaluate_all
cons-Agrees p context c true rest later h (same, every) = (rw h same, every)
cons-Agrees p context c false rest later h agrees = (rw h refl, refl)

details_of-Agrees :
    (p : Python) (context : Fields) (l : List Value) {d : Details}
    → details_of p context l ≡ ok d
    → Agrees p context l d
unfolding details_of evaluate_all
details_of-Agrees p context [] {d} h =
    let same : record { all_matched = true; conditions = [] } ≡ d = cc in rw (← same) (refl, refl)
details_of-Agrees p context (dict c ∷ rest) {d} h =
    let (b, checked, h1) = >>=-eq-ok (check p context c) _ h in
    let (later, e, h2) = >>=-eq-ok (details_of p context rest) _ h1 in
    let same : add_detail c b later ≡ d = cc in
    rw (← same) (
      cons-Agrees p context c b rest later checked (details_of-Agrees p context rest {d = later} e))
details_of-Agrees p context (null ∷ rest) h = details_of-Agrees p context rest h
details_of-Agrees p context (bool b ∷ rest) h = details_of-Agrees p context rest h
details_of-Agrees p context (int n ∷ rest) h = details_of-Agrees p context rest h
details_of-Agrees p context (str s ∷ rest) h = details_of-Agrees p context rest h
details_of-Agrees p context (list vs ∷ rest) h = details_of-Agrees p context rest h

false_empty : (v : Value) {cs : List Value} → is_true v ≡ false → iterated v ≡ ok cs → cs ≡ []
false_empty null f h = cc
false_empty (bool b) f h = cc
false_empty (int n) f h = cc
false_empty (str s) f h = cc
false_empty (list nil) f h = cc
false_empty (list (cons v vs)) f h = cc
false_empty (dict d) f h = cc

-- Where `evaluate_with_details` returns, `evaluate` returns its result, though it stops at the
-- first condition that fails; and this result is that every condition listed has matched.
pub evaluate_with_details-Agrees :
    (p : Python) (policy context : Fields) {d : Details}
    → evaluate_with_details p policy context ≡ ok d
    → (evaluate p policy context ≡ ok d.all_matched)
      × (d.all_matched ≡ all (λ c. c.matched) d.conditions)
unfolding evaluate_with_details evaluate evaluate_all
evaluate_with_details-Agrees p policy context {d} h =
    let (cs, i, h1) = >>=-eq-ok (iterated (conditions_of policy)) _ h in
    let agrees = details_of-Agrees p context cs {d = d} h1 in
    elim (Bool-cases (is_true (conditions_of policy))) [
      | inl t ↦ (rw (t, i) agrees.0, agrees.1)
      | inr f ↦ (
        let none_left : cs ≡ [] = false_empty (conditions_of policy) f i in
            let ended : evaluate_all p context [] ≡ ok d.all_matched = rw none_left at agrees.0 in
            rw f ended,
        agrees.1,
      )
    ]
