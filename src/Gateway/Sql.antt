-- ===== src/Gateway/Sql.antt =====
-- services/gateway/utils/safe_sql.py: the SET clause of an UPDATE, from the fields of a request.
pub mod Allowed
mod Tests
use openradiusweb.Prelude.{
  Bool, true, false, Option, none, some, List, [], ◌∷◌, ◌++◌, if◌then◌else◌,
}
use openradiusweb.Prelude.Text.{Text, codes, text_eq, text_in, truthy}
use openradiusweb.Prelude.Result.{Result, ok, err, value_error}
use openradiusweb.Prelude.Dict.{put, get_entry}

-- `d.get(key, default)`.
abbrev pub get_or : Text → Text → List (Text × Text) → Text
get_or key default d = elim (get_entry key d) [ none ↦ default | some value ↦ value ]

-- One assignment: a cast where the column has one.
unfoldable pub set_part : Text → Text → Text
set_part db_col cast =
    if truthy cast
    then db_col ++ (codes " = CAST(:" ++ (db_col ++ (codes " AS " ++ (cast ++ codes ")"))))
    else db_col ++ (codes " = :" ++ db_col)

-- `", ".join(parts)`.
unfoldable pub join_parts : List Text → Text
join_parts [] = []
join_parts (p ∷ []) = p
join_parts (p ∷ q ∷ rest) = p ++ (codes ", " ++ join_parts (q ∷ rest))

-- The column of a field of the request.
abbrev pub column_of : List (Text × Text) → Text → Text
column_of column_map field = get_or field field column_map

module _ {V : Type 0} (allowed : List Text) (column_map type_casts : List (Text × Text)) where
  -- The parts of the clause and the parameters; a column that is not allowed is skipped.
  unfoldable pub collect :
      List (Text × V) → List Text → List (Text × V) → List Text × List (Text × V)
  unfolding set_part get_entry
  collect [] parts params = (parts, params)
  collect ((field, value) ∷ updates) parts params =
      let skipped = collect updates parts params in
      let taken =
        collect updates
          (parts
            ++ set_part (column_of column_map field)
                (get_or (column_of column_map field) [] type_casts)
              ∷ [])
          (put (column_of column_map field) value params) in
      if text_in (column_of column_map field) allowed then taken else skipped

  abbrev pub clause_of : List Text × List (Text × V) → Result (Text × List (Text × V))
  clause_of ([], params) = err value_error
  clause_of (p ∷ parts, params) = ok (join_parts (p ∷ parts), params)

  unfoldable pub build_safe_set_clause : List (Text × V) → Result (Text × List (Text × V))
  unfolding collect join_parts
  build_safe_set_clause updates = clause_of (collect updates [] [])
