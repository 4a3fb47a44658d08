-- ===== src/Rlm/Attrs.antt =====
-- rlm_orw.py: the attributes of a packet as a dict, `_extract_attrs`.
use text.Mathlib.Text.{◌==◌ as str_eq}
use openradiusweb.Prelude.{
  ℕ, String, Bool, true, false, Option, none, some, List, [], ◌∷◌, ◌++◌, if◌then◌else◌, any, ◌==◌,
}
use openradiusweb.Prelude.Text.{Text, truthy, text_eq}
use openradiusweb.Prelude.Result.{Result, ok, err, attribute_error}

-- A text, or the list of texts of an attribute that the packet has more than once.
pub data AttrValue : Type 0 where
  one : Text → AttrValue
  many : List Text → AttrValue

abbrev pub Attrs : Type 0
Attrs = List (String × AttrValue)

-- `attrs.get(name)`.
unfoldable pub get : String → Attrs → Option AttrValue
get name [] = none
get name ((k, v) ∷ rest) = if str_eq k name then some v else get name rest

abbrev pub extend : AttrValue → Text → AttrValue
extend (one v) w = many (v ∷ w ∷ [])
extend (many vs) w = many (vs ++ w ∷ [])

-- One round of the loop: a new key goes to the end, a known one gathers a list.
unfoldable pub add_attr : String → Text → Attrs → Attrs
add_attr name value [] = (name, one value) ∷ []
add_attr name value ((k, v) ∷ rest) =
    if str_eq k name then (k, extend v value) ∷ rest else (k, v) ∷ add_attr name value rest

extract_from : Attrs → List (String × Text) → Attrs
extract_from attrs [] = attrs
extract_from attrs ((name, value) ∷ pairs) = extract_from (add_attr name value attrs) pairs

-- `_extract_attrs`.
unfoldable pub extract_attrs : List (String × Text) → Attrs
unfolding extract_from add_attr
extract_attrs pairs = extract_from [] pairs

-- `request.get(name, "")`.
abbrev pub get_or_empty : String → Attrs → AttrValue
get_or_empty name attrs = elim (get name attrs) [ none ↦ one [] | some v ↦ v ]

abbrev pub is_true : AttrValue → Bool
is_true (one s) = truthy s
is_true (many _) = true

-- A value that a method of `str` is called on: a list has none of them.
abbrev pub as_text : AttrValue → Result Text
as_text (one s) = ok s
as_text (many _) = err attribute_error

-- `"c" in value`, for a text of one character.
abbrev pub has_code : ℕ → AttrValue → Bool
has_code c (one s) = any (λ d. d == c) s
has_code c (many vs) = any (λ s. text_eq s (c ∷ [])) vs

-- `value == "…"`.
abbrev pub is_text : Text → Option AttrValue → Bool
is_text s (some (one v)) = text_eq v s
is_text s _ = false
