-- ===== src/Engine/Evaluations/Tests.antt =====
-- The theorems on the runs over policies at two policies without conditions.
use openradiusweb.Prelude.{ℕ, ◌≡◌, refl, true, not, some, [], ◌∷◌, ltb, leb}
use openradiusweb.Prelude.Int.{pos, negsuc}
use openradiusweb.Prelude.Text.{codes, contains, starts_with, parse_digits}
use openradiusweb.Prelude.Result.{ok, err, overflow_error, db_error}
use openradiusweb.Value.{str, dict, list, nil, cons, end, field}
use openradiusweb.Policy.Evaluator.{Python}
use openradiusweb.Policy.Conditions.{evaluate}
use openradiusweb.Engine.Device.{Policy, World, Outside, run_policies}
use openradiusweb.Engine.Evaluations.{run_policies-KnowsJson}

abbrev python : Python
python = record {
  Float = ℕ;
  of_int = λ n. (elim n [ pos k ↦ ok k | negsuc k ↦ err overflow_error ]);
  of_text = parse_digits;
  lt = ltb;
  le = leb;
  search = λ p t. some (contains t p);
  clock = record {
    hour = 12;
    minute = 0;
    weekday = 2;
    day = 5;
    month = 6;
    date = codes "2024-06-05";
  };
}

-- A database that takes any text, and one that takes no list of dicts in Python's spelling.
abbrev lenient : Outside
lenient = record { python = python; accepts_json = λ t. true; is_uuid = λ t. true }

abbrev strict : Outside
strict = record {
  python = python;
  accepts_json = λ t. not (starts_with t (codes "[{'"));
  is_uuid = λ t. true;
}

-- A policy with the action to log, whatever the device.
abbrev log_all : Policy
log_all = record {
  id = codes "p";
  tenant_id = codes "t";
  enabled = true;
  priority = 1;
  conditions = list nil;
  match_actions = list (cons (dict (field (codes "type") (str (codes "none")) end)) nil);
  no_match_actions = list nil;
}

abbrev log_more : Policy
log_more = record log_all { id = codes "q" }

abbrev no_rows : World
no_rows = record { devices = []; properties = []; policies = []; evaluations = []; published = [] }

run_policies-KnowsJson_example :
    run_policies strict (codes "d") end (log_all ∷ log_more ∷ []) no_rows ≡ (err db_error, no_rows)
unfolding evaluate starts_with
run_policies-KnowsJson_example =
    run_policies-KnowsJson strict (codes "d") end log_all (log_more ∷ []) no_rows true
      (str (codes "none")) end nil (λ rest. refl) refl refl
