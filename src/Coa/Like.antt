-- ===== src/Coa/Like.antt =====
-- PostgreSQL's `LIKE`, which the query of `_find_active_sessions_by_user` uses as `ILIKE`.
use openradiusweb.Prelude.{ℕ, Bool, true, false, ◌&&◌, ◌||◌, [], ◌∷◌, ◌==◌, if◌then◌else◌}
use openradiusweb.Prelude.Text.{Text, lower}

-- Some suffix of the text passes.
abbrev pub some_suffix : (Text → Bool) → Text → Bool
some_suffix p [] = p []
some_suffix p (c ∷ s) = p (c ∷ s) || some_suffix p s

abbrev pub next_is : (ℕ → Bool) → (Text → Bool) → Text → Bool
next_is test p [] = false
next_is test p (c ∷ s) = test c && p s

abbrev pub is_empty : Text → Bool
is_empty [] = true
is_empty (_ ∷ _) = false

-- `%` stands for any text, `_` for any character, and a backslash takes the next one as it is. (One
-- at the end is an error there; here it matches nothing.)
unfoldable pub like : Text → Text → Bool
like [] s = is_empty s
like (c ∷ []) s =
    if c == b'%'
    then true
    else if c == b'\\'
    then false
    else next_is (λ d. c == b'_' || c == d) is_empty s
like (c ∷ e ∷ p) s =
    let rest = like (e ∷ p) in
    let escaped = next_is (λ d. e == d) (like p) s in
    if c == b'%'
    then some_suffix rest s
    else if c == b'\\'
    then escaped
    else next_is (λ d. c == b'_' || c == d) rest s

unfoldable pub ilike : Text → Text → Bool
unfolding like
ilike s pattern' = like (lower pattern') (lower s)
