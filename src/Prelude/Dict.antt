-- ===== src/Prelude/Dict.antt =====
-- Python dicts with text keys, as lists of entries in the order of insertion.
use openradiusweb.Prelude.Tests.{if◌then◌else◌, Bool-cases}
use openradiusweb.Prelude.Text.{Text, text_eq, text_eq_refl, eq_of_text_eq}
use mathlib.Core.Path.{◌≡◌, refl}
use mathlib.Core.Logic.{inl, inr}
use mathlib.Core.Bool.{false}
use mathlib.Core.Option.{Option, none, some}
use mathlib.Core.List.{List, [], ◌∷◌}

module _ {A : Type 0} where
  -- `d[key] = value`: a key that the dict has keeps its place.
  unfoldable pub put : Text → A → List (Text × A) → List (Text × A)
  put key value [] = (key, value) ∷ []
  put key value ((k, v) ∷ rest) =
      let later = put key value rest in if text_eq k key then (k, value) ∷ rest else (k, v) ∷ later

  -- `d.get(key)`.
  unfoldable pub get_entry : Text → List (Text × A) → Option A
  get_entry key [] = none
  get_entry key ((k, v) ∷ rest) =
      let later = get_entry key rest in if text_eq k key then some v else later

  -- `d.pop(key, None)`.
  unfoldable pub remove : Text → List (Text × A) → List (Text × A)
  remove key [] = []
  remove key ((k, v) ∷ rest) =
      let later = remove key rest in if text_eq k key then later else (k, v) ∷ later

  pub get_entry-put_same :
      (key : Text) (value : A) (d : List (Text × A)) → get_entry key (put key value d) ≡ some value
  unfolding put get_entry
  get_entry-put_same key value [] = rw (text_eq_refl key) refl
  get_entry-put_same key value ((k, v) ∷ d) = elim (Bool-cases (text_eq k key)) [
    | inl e ↦ rw (e, e) refl
    | inr e ↦ rw (e, e) (get_entry-put_same key value d)
  ]

  pub get_entry-put_other :
      (key other : Text) (value : A) (d : List (Text × A))
      → text_eq key other ≡ false
      → get_entry other (put key value d) ≡ get_entry other d
  unfolding put get_entry
  get_entry-put_other key other value [] h = rw h refl
  get_entry-put_other key other value ((k, v) ∷ d) h = elim (Bool-cases (text_eq k key)) [
    | inl e ↦ let same : k ≡ key = eq_of_text_eq k key e in rw (e, same, h) refl
    | inr e ↦ elim (Bool-cases (text_eq k other)) [
      | inl e' ↦ rw (e, e') refl
      | inr e' ↦ rw (e, e') (get_entry-put_other key other value d h)
    ]
  ]
