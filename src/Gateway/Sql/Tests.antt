-- ===== src/Gateway/Sql/Tests.antt =====
-- The theorems on SET clauses at a concrete request.
use openradiusweb.Prelude.{◌≡◌, refl, List, [], ◌∷◌, All}
use openradiusweb.Prelude.Text.{Text, codes}
use openradiusweb.Prelude.Result.{ok}
use openradiusweb.Prelude.Dict.{put, get_entry}
use openradiusweb.Gateway.Sql.{set_part, join_parts, collect, build_safe_set_clause}
use openradiusweb.Gateway.Sql.Allowed.{
  IsAssignment, IsParameter, build_safe_set_clause-IsAssignment,
}

-- A request for the enabled flag, and for a column that no client may set.
abbrev request : List (Text × Text)
request = (codes "id; --", codes "1") ∷ (codes "enabled", codes "x") ∷ []

abbrev columns : List Text
columns = codes "email" ∷ codes "enabled" ∷ []

is_built :
    build_safe_set_clause columns [] [] request
    ≡ ok (codes "enabled = :enabled", (codes "enabled", codes "x") ∷ [])
unfolding build_safe_set_clause collect get_entry put set_part join_parts
is_built = refl

build_safe_set_clause-IsAssignment_example :
    (parts : List Text) × (codes "enabled = :enabled" ≡ join_parts parts)
    × All (IsAssignment columns []) parts
    × All (IsParameter columns) ((codes "enabled", codes "x") ∷ [])
build_safe_set_clause-IsAssignment_example =
    build_safe_set_clause-IsAssignment columns [] [] request _ _ is_built
