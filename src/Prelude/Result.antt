-- ===== src/Prelude/Result.antt =====
-- Python exceptions as values.
use mathlib.Core.Path.{◌≡◌, refl}

-- The exceptions that the modelled code raises or catches, by class.
pub data Exn : Type 0 where
  struct_error value_error type_error attribute_error key_error overflow_error re_error
        timeout_error db_error os_error template_error called_process_error file_not_found_error
        rate_limit_error authentication_error conflict_error not_found_error validation_error
        runtime_error invalid_tag :
      Exn

pub data Result {ℓ} (A : Type ℓ) : Type ℓ where
  err : Exn → Result A
  ok : A → Result A

module _ {ℓ κ} {A : Type ℓ} {B : Type κ} where
  infixl 5 ◌>>=◌
  -- What follows a statement that may raise.
  abbrev pub ◌>>=◌ : Result A → (A → Result B) → Result B
  err raised >>= next = err raised
  ok value >>= next = next value

  -- The same outside a `do` block.
  abbrev pub and_then : Result A → (A → Result B) → Result B
  and_then first next = first >>= next

module _ {κ} {B : Type κ} where
  infixl 5 ◌>>◌
  abbrev pub ◌>>◌ : Result (Unit {0}) → Result B → Result B
  first >> later = first >>= λ _. later

-- Where two statements in a row have not raised, the first has given a value to the second.
module _ {ℓ κ} {A : Type ℓ} {B : Type κ} where
  pub >>=-eq-ok :
      (first : Result A) (next : A → Result B) {result : B}
      → (first >>= next) ≡ ok result
      → (value : A) × (first ≡ ok value) × (next value ≡ ok result)
  >>=-eq-ok (err raised) next none_raised = cc
  >>=-eq-ok (ok value) next none_raised = (value, refl, none_raised)
