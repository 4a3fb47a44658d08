-- ===== src/Gateway/Sql/Allowed.antt =====
-- utils/safe_sql.py: what stands in a SET clause, and when there is none.
use openradiusweb.Prelude.{
  ◌≡◌, refl, ◌↔◌, inl, inr, Bool, true, false, List, [], ◌∷◌, any, subst, Bool-cases, if_both, All,
  All-append,
}
use openradiusweb.Prelude.Text.{Text, text_eq, text_in}
use openradiusweb.Prelude.Result.{ok, err, value_error}
use openradiusweb.Prelude.Dict.{put}
use openradiusweb.Gateway.Sql.{
  get_or, set_part, join_parts, column_of, clause_of, collect, build_safe_set_clause,
}

-- A part is the assignment of an allowed column.
abbrev pub IsAssignment : List Text → List (Text × Text) → Text → Type 0
IsAssignment allowed type_casts part =
    (column : Text) × (text_in column allowed ≡ true)
    × (part ≡ set_part column (get_or column [] type_casts))

-- A parameter has the name of an allowed column.
abbrev pub IsParameter : {V : Type 0} → List Text → Text × V → Type 0
IsParameter allowed (column, value) = text_in column allowed ≡ true

module _ {V : Type 0} (allowed : List Text) (column_map type_casts : List (Text × Text)) where
  put-IsParameter :
      (column : Text) (value : V) (params : List (Text × V))
      → text_in column allowed ≡ true
      → All (IsParameter allowed) params
      → All (IsParameter allowed) (put column value params)
  unfolding put
  put-IsParameter column value [] p h = (p, tt)
  put-IsParameter column value ((c, v) ∷ params) p (q, h) =
      if_both (All (IsParameter allowed)) (text_eq c column) _ _ (q, h)
        (q, put-IsParameter column value params p h)

  abbrev Collects : List Text × List (Text × V) → Type 0
  Collects (parts, params) =
      All (IsAssignment allowed type_casts) parts × All (IsParameter allowed) params

  collect-Collects :
      (updates : List (Text × V)) (parts : List Text) (params : List (Text × V))
      → Collects (parts, params)
      → Collects (collect allowed column_map type_casts updates parts params)
  unfolding collect
  collect-Collects [] parts params h = h
  collect-Collects ((field, value) ∷ updates) parts params (h, k) =
      elim (Bool-cases (text_in (column_of column_map field) allowed)) [
        | inl e ↦ rw e (
            collect-Collects updates _ _ (
              All-append _ parts _ h ((column_of column_map field, e, refl), tt),
              put-IsParameter (column_of column_map field) value params e k,
            ))
        | inr e ↦ rw e (collect-Collects updates parts params (h, k))
      ]

  -- A clause that is built assigns allowed columns alone, each to the parameter of its own name, and
  -- no other parameter is passed.
  pub build_safe_set_clause-IsAssignment :
      (updates : List (Text × V)) (clause : Text) (params : List (Text × V))
      → build_safe_set_clause allowed column_map type_casts updates ≡ ok (clause, params)
      → (parts : List Text) × (clause ≡ join_parts parts)
        × All (IsAssignment allowed type_casts) parts
        × All (IsParameter allowed) params
  unfolding build_safe_set_clause
  build_safe_set_clause-IsAssignment updates clause params built =
      by_parts (collect allowed column_map type_casts updates [] [])
        (collect-Collects updates [] [] (tt, tt)) built
    where
      by_parts :
          (c : List Text × List (Text × V))
          → Collects c
          → clause_of allowed column_map type_casts c ≡ ok (clause, params)
          → (parts : List Text) × (clause ≡ join_parts parts)
            × All (IsAssignment allowed type_casts) parts
            × All (IsParameter allowed) params
      by_parts ([], ps) h e = cc
      by_parts (p ∷ parts, ps) h e =
          let same : ps ≡ params = cc in
          (p ∷ parts, cc, h.0, subst (All (IsParameter allowed)) same h.1)

  abbrev pub is_allowed : Text × V → Bool
  is_allowed (field, value) = text_in (column_of column_map field) allowed

  -- Parts that are there stay.
  collect-some :
      (updates : List (Text × V)) (part : Text) (parts : List Text) (params : List (Text × V))
      → (rest : List Text) × ((collect allowed column_map type_casts updates
            (part ∷ parts)
            params).0
          ≡ part ∷ rest)
  unfolding collect
  collect-some [] part parts params = (parts, refl)
  collect-some ((field, value) ∷ updates) part parts params =
      elim (Bool-cases (text_in (column_of column_map field) allowed)) [
        | inl e ↦ rw e (collect-some updates part _ _)
        | inr e ↦ rw e (collect-some updates part parts params)
      ]

  clause_of-some :
      {P : Type 0} (c : List Text × List (Text × V)) (part : Text) (rest : List Text)
      → c.0 ≡ part ∷ rest
      → clause_of allowed column_map type_casts c ≡ err value_error
      → P
  clause_of-some ([], ps) part rest e h = cc
  clause_of-some (p ∷ parts, ps) part rest e h = cc

  -- There is no clause exactly where no field has an allowed column.
  pub build_safe_set_clause-error_iff :
      (updates : List (Text × V))
      → (build_safe_set_clause allowed column_map type_casts updates ≡ err value_error)
        ↔ (any is_allowed updates ≡ false)
  unfolding build_safe_set_clause collect
  build_safe_set_clause-error_iff [] = (λ h. refl, λ h. refl)
  build_safe_set_clause-error_iff ((field, value) ∷ updates) =
      elim (Bool-cases (text_in (column_of column_map field) allowed)) [
        | inl e ↦ rw e (
          λ h. let (rest, same) = collect-some updates _ [] _ in clause_of-some _ _ rest same h,
          λ h. cc,
        )
        | inr e ↦ rw e (build_safe_set_clause-error_iff updates)
      ]
