-- ===== src/Rlm/Failure/Codes.antt =====
-- The second loop over `AD_ERROR_MAP` in `_detect_failure_reason` never finds what the first has not.
use openradiusweb.Prelude.{
  ◌≡◌, refl, Bool, true, none, List, [], ◌∷◌, ◌++◌, Option-cases, inl, inr, arith,
}
use openradiusweb.Prelude.Text.{Text, codes, contains, starts_with}
use openradiusweb.Rlm.Failure.{
  AdError, ad_error_map, find_entry, names_code, ad_entry, mschap_entry, word_reason, source_reason,
  or_after,
}

starts_with-append : (s a t : Text) → starts_with s (a ++ t) ≡ true → contains s t ≡ true
unfolding starts_with contains
starts_with-append [] [] [] h = refl
starts_with-append [] [] (c ∷ t) h = cc
starts_with-append (x ∷ s) [] t h = rw h
starts_with-append [] (c ∷ a) t h = cc
starts_with-append (x ∷ s) (c ∷ a) t h = ground (arith, starts_with-append s a t)

-- What contains a text contains its end.
contains-append : (s a t : Text) → contains s (a ++ t) ≡ true → contains s t ≡ true
unfolding contains
contains-append [] a t h = starts_with-append [] a t h
contains-append (x ∷ s) a t h =
    ground (arith, starts_with-append (x ∷ s) a t, contains-append s a t)

find_entry_some :
    (p q : AdError → Bool) (l : List AdError)
    → ((e : AdError) → p e ≡ true → q e ≡ true)
    → find_entry q l ≡ none
    → find_entry p l ≡ none
find_entry_some p q [] h k = refl
find_entry_some p q (e ∷ l) h k = ground (arith, h e, find_entry_some p q l h)

-- Where the loop over AD codes finds nothing, the one over MS-CHAP codes finds nothing.
mschap_entry-none : (source : Text) → ad_entry source ≡ none → mschap_entry source ≡ none
unfolding ad_entry mschap_entry
mschap_entry-none source h =
    let none_found =
      find_entry_some (λ e. contains source (codes "E=" ++ e.code)) (names_code source) ad_error_map
        (λ e found. rw (contains-append source (codes "E=") e.code found)) h in
    ground arith

-- A source gives the result that it would give without the loop over MS-CHAP codes: that of the
-- first AD code that it contains, or else that of its words.
pub source_reason_lem :
    (source : Text) → source_reason source ≡ or_after source (ad_entry source) (word_reason source)
unfolding source_reason
source_reason_lem source = elim (Option-cases (ad_entry source)) [
  | inr (e, found) ↦ rw (found, or_after)
  | inl missing ↦ rw (missing, mschap_entry-none source missing, or_after)
]
