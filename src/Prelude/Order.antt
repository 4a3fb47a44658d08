-- ===== src/Prelude/Order.antt =====
-- The order in which a query gives its rows.
use Prim.Native.Nat.{suc}
use mathlib.Core.Path.{◌≡◌, refl, ◌∙◌, ap}
use mathlib.Core.Logic.{inl, inr}
use mathlib.Core.Bool.{Bool}
use mathlib.Core.List.{List, [], ◌∷◌}
use openradiusweb.Prelude.Tests.{if◌then◌else◌, Bool-cases}
use openradiusweb.Prelude.Lists.{length}

-- `ORDER BY`: rows that the test does not tell apart keep their order.
module _ {A : Type 0} where
  insert_by : (A → A → Bool) → A → List A → List A
  insert_by before a [] = a ∷ []
  insert_by before a (b ∷ l) =
      let rest = insert_by before a l in if before b a then b ∷ rest else a ∷ b ∷ l

  unfoldable pub order_by : (A → A → Bool) → List A → List A
  unfolding insert_by
  order_by before [] = []
  order_by before (a ∷ l) = insert_by before a (order_by before l)

  length-insert_by :
      (before : A → A → Bool) (a : A) (l : List A) → length (insert_by before a l) ≡ suc (length l)
  unfolding insert_by
  length-insert_by before a [] = refl
  length-insert_by before a (b ∷ l) = elim (Bool-cases (before b a)) [
    | inl e ↦ rw e (ap suc (length-insert_by before a l))
    | inr e ↦ rw e refl
  ]

  pub length-order_by : (before : A → A → Bool) (l : List A) → length (order_by before l) ≡ length l
  unfolding order_by
  length-order_by before [] = refl
  length-order_by before (a ∷ l) =
      length-insert_by before a (order_by before l) ∙ ap suc (length-order_by before l)
