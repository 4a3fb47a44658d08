-- ===== src/Prelude/Members.antt =====
-- Members of a list that is kept by a test or searched.
use Prim.Native.Nat.{ℕ, ◌≤◌}
use mathlib.Core.Path.{◌≡◌, refl, ap}
use mathlib.Core.Logic.{inl, inr}
use mathlib.Core.Bool.{Bool, true, false}
use mathlib.Core.Option.{Option, none, some}
use mathlib.Core.List.{List, [], ◌∷◌, map, Memᴰ}
use native.Mathlib.Omega.{arith}
use openradiusweb.Prelude.Tests.{if◌then◌else◌, if_both, Bool-cases, ltb, ltb→lt}
use openradiusweb.Prelude.Lists.{keep_if, first, All}

module _ {ℓ} {A : Type ℓ} where
  pub Memᴰ-keep_if :
      (p : A → Bool) {a : A} (l : List A) → Memᴰ a l → p a ≡ true → Memᴰ a (keep_if p l)
  Memᴰ-keep_if p [] m h = elim m [ ]
  Memᴰ-keep_if p (x ∷ l) (Memᴰ.head e) h = rw (← e, h) (Memᴰ.head refl)
  Memᴰ-keep_if p {a} (x ∷ l) (Memᴰ.tail m) h =
      if_both (Memᴰ a) (p x) _ _ (Memᴰ.tail (Memᴰ-keep_if p l m h)) (Memᴰ-keep_if p l m h)

  pub keep_if-Memᴰ :
      (p : A → Bool) {a : A} (l : List A) → Memᴰ a (keep_if p l) → Memᴰ a l × (p a ≡ true)
  keep_if-Memᴰ p [] m = elim m [ ]
  keep_if-Memᴰ p {a} (x ∷ l) m = by_test (p x) refl (keep_if-Memᴰ p l) m
    where
      by_test :
          (b : Bool)
          → p x ≡ b
          → (Memᴰ a (keep_if p l) → Memᴰ a l × (p a ≡ true))
          → Memᴰ a (if b then x ∷ keep_if p l else keep_if p l)
          → Memᴰ a (x ∷ l) × (p a ≡ true)
      by_test true h rest (Memᴰ.head e) = (Memᴰ.head e, rw (e, h))
      by_test true h rest (Memᴰ.tail n) = let (n', e) = rest n in (Memᴰ.tail n', e)
      by_test false h rest n = let (n', e) = rest n in (Memᴰ.tail n', e)

  pub first-Memᴰ : {a : A} (l : List A) → first l ≡ some a → Memᴰ a l
  first-Memᴰ [] h = cc
  first-Memᴰ (x ∷ l) h = Memᴰ.head cc

  pub first-some : {a : A} (l : List A) → Memᴰ a l → (b : A) × (first l ≡ some b)
  first-some [] m = elim m [ ]
  first-some (x ∷ l) m = (x, refl)

  abbrev pub least_of : (A → ℕ) → A → Option A → Option A
  least_of f a none = some a
  least_of f a (some b) = some (if ltb (f b) (f a) then b else a)

  -- `ORDER BY … ASC LIMIT 1`; of rows with one key, the first of the table stands for the one
  -- that the database gives.
  abbrev pub least_by : (A → ℕ) → List A → Option A
  least_by f [] = none
  least_by f (a ∷ rest) = least_of f a (least_by f rest)

  pub least_by-Memᴰ : (f : A → ℕ) {a : A} (l : List A) → least_by f l ≡ some a → Memᴰ a l
  least_by-Memᴰ f [] h = cc
  least_by-Memᴰ f {a} (x ∷ l) h = by_rest (least_by f l) refl (least_by-Memᴰ f l) h
    where
      by_rest :
          (o : Option A)
          → least_by f l ≡ o
          → (least_by f l ≡ some a → Memᴰ a l)
          → least_of f x o ≡ some a
          → Memᴰ a (x ∷ l)
      by_rest none e rest k = Memᴰ.head cc
      by_rest (some b) e rest k = elim (Bool-cases (ltb (f b) (f x))) [
        | inl t ↦ Memᴰ.tail (rest (ground (arith, e, k, t)))
        | inr t ↦ Memᴰ.head (ground (arith, k, t))
      ]

  pub least_by-some :
      (f : A → ℕ) {a : A} (l : List A) → Memᴰ a l → (b : A) × (least_by f l ≡ some b)
  least_by-some f [] m = elim m [ ]
  least_by-some f (x ∷ l) m = by_rest (least_by f l)
    where
      by_rest : (o : Option A) → (b : A) × (least_of f x o ≡ some b)
      by_rest none = (x, refl)
      by_rest (some b) = (if ltb (f b) (f x) then b else x, refl)

  -- What is at most the number of the member found.
  least_le : (f : A → ℕ) (x a c : A) → some x ≡ some a → f x ≤ f c → f a ≤ f c
  least_le f x a c e h = let same : x ≡ a = cc in rw (← same) h

  All-weaken :
      (f : A → ℕ) (m n : ℕ) (l : List A) → m ≤ n → All (λ b. n ≤ f b) l → All (λ b. m ≤ f b) l
  All-weaken f m n [] le h = tt
  All-weaken f m n (x ∷ l) le (h, k) = (omega arith, All-weaken f m n l le k)

  pub least_by_le :
      (f : A → ℕ) {a : A} (l : List A) → least_by f l ≡ some a → All (λ b. f a ≤ f b) l
  least_by_le f [] h = tt
  least_by_le f {a} (x ∷ l) h = by_rest l (least_by f l) refl (λ b. least_by_le f {a = b} l) h
    where
      none_empty : (l : List A) → least_by f l ≡ none → All (λ c. f a ≤ f c) l
      none_empty [] e = tt
      none_empty (y ∷ l) e = let (b, k) = least_by-some f {a = y} (y ∷ l) (Memᴰ.head refl) in cc

      by_rest :
          (l : List A) (o : Option A)
          → least_by f l ≡ o
          → ((b : A) → least_by f l ≡ some b → All (λ c. f b ≤ f c) l)
          → least_of f x o ≡ some a
          → All (λ c. f a ≤ f c) (x ∷ l)
      by_rest l none e rest k = (least_le f x a x k omega arith, none_empty l e)
      by_rest l (some b) e rest k = elim (Bool-cases (ltb (f b) (f x))) [
        | inl t ↦ (
          least_le f b a x (rw t at k) (let t' = ltb→lt (f b) (f x) t in omega arith),
          All-weaken f (f a) (f b) l (least_le f b a b (rw t at k) omega arith) (rest b e),
        )
        | inr t ↦ (
          least_le f x a x (rw t at k) omega arith,
          All-weaken f (f a) (f b) l (least_le f x a b (rw t at k) (ground arith)) (rest b e),
        )
      ]

  pub All-Memᴰ {κ} : (P : A → Type κ) (l : List A) {a : A} → All P l → Memᴰ a l → P a
  All-Memᴰ P [] h m = elim m [ ]
  All-Memᴰ P (x ∷ l) (h, k) (Memᴰ.head e) = rw e h
  All-Memᴰ P (x ∷ l) (h, k) (Memᴰ.tail m) = All-Memᴰ P l k m

module _ {ℓ κ} {A : Type ℓ} {B : Type κ} (f : A → B) where
  pub Memᴰ-map : {a : A} (l : List A) → Memᴰ a l → Memᴰ (f a) (map f l)
  Memᴰ-map [] m = elim m [ ]
  Memᴰ-map (x ∷ l) (Memᴰ.head e) = Memᴰ.head (ap f e)
  Memᴰ-map (x ∷ l) (Memᴰ.tail m) = Memᴰ.tail (Memᴰ-map l m)

  pub map-Memᴰ : {b : B} (l : List A) → Memᴰ b (map f l) → (a : A) × Memᴰ a l × (b ≡ f a)
  map-Memᴰ [] m = elim m [ ]
  map-Memᴰ (x ∷ l) (Memᴰ.head e) = (x, Memᴰ.head refl, e)
  map-Memᴰ (x ∷ l) (Memᴰ.tail m) = let (a, n, e) = map-Memᴰ l m in (a, Memᴰ.tail n, e)
