-- ===== src/Strings.antt =====
-- src/qbrain/util/string_util.cpp: the helpers on texts, in the "C" locale.
pub mod Laws
pub mod Tests
use qbrain.Prelude.{
  ℕ, zero, suc, ◌+◌, ◌-◌, ◌&&◌, ◌||◌, Bool, true, false, not, List, [], ◌∷◌, ◌++◌, map, Bytes,
  codes, length, drop, is_empty, ◌==◌, leb, in_range, if◌then◌else◌, starts_with, text_eq,
}

abbrev pub is_space : ℕ → Bool
is_space c = c == 0x20 || in_range 0x09 0x0d c

abbrev pub trim_front : Bytes → Bytes
trim_front [] = []
trim_front (c ∷ s) = if is_space c then trim_front s else c ∷ s

-- A trailing run of the bytes that pass a test is left out.
abbrev pub trim_back : (ℕ → Bool) → Bytes → Bytes
trim_back test [] = []
trim_back test (c ∷ s) =
    let rest = trim_back test s in if test c && is_empty rest then [] else c ∷ rest

unfoldable pub trim : Bytes → Bytes
trim s = trim_back is_space (trim_front s)

abbrev pub add_to_first : ℕ → List Bytes → List Bytes
add_to_first c [] = (c ∷ []) ∷ []
add_to_first c (piece ∷ pieces) = (c ∷ piece) ∷ pieces

-- One piece more than there are delimiters, the pieces in order.
unfoldable pub split : ℕ → Bytes → List Bytes
split delim [] = [] ∷ []
split delim (c ∷ s) =
    let rest = split delim s in if c == delim then [] ∷ rest else add_to_first c rest

abbrev pub lower_byte : ℕ → ℕ
lower_byte c = if in_range b'A' b'Z' c then c - b'A' + b'a' else c

unfoldable pub to_lower : Bytes → Bytes
to_lower s = map lower_byte s

abbrev pub is_alnum : ℕ → Bool
is_alnum c = in_range b'a' b'z' c || in_range b'A' b'Z' c || in_range b'0' b'9' c

-- The loop of `slugify`: was the last byte written a dash, and has any byte been written?
unfoldable pub slug_from : Bool → Bool → Bytes → Bytes
slug_from dash started [] = []
slug_from dash started (c ∷ s) =
    let letter = slug_from false true s in
    let dashed = slug_from true true s in
    let skipped = slug_from dash started s in
    if is_alnum c
    then lower_byte c ∷ letter
    else if leb 0x80 c
    then c ∷ letter
    else if not dash && started
    then b'-' ∷ dashed
    else skipped

abbrev pub or_untitled : Bytes → Bytes
or_untitled [] = codes "untitled"
or_untitled (c ∷ s) = c ∷ s

unfoldable pub slugify : Bytes → Bytes
slugify title = or_untitled (trim_back (λ c. c == b'-') (slug_from false false title))

unfoldable pub ends_with : Bytes → Bytes → Bool
ends_with s suffix =
    leb (length suffix) (length s) && text_eq (drop (length s - length suffix) s) suffix

-- The loop of `replace_all`; after a hit the rest of the part is passed over.
unfoldable pub replace_from : Bytes → Bytes → ℕ → Bytes → Bytes
replace_from part to skip [] = []
replace_from part to (suc skip) (c ∷ s) = replace_from part to skip s
replace_from part to zero (c ∷ s) =
    let hit = replace_from part to (length part - 1) s in
    let miss = replace_from part to 0 s in if starts_with (c ∷ s) part then to ++ hit else c ∷ miss

unfoldable pub replace_all : Bytes → Bytes → Bytes → Bytes
replace_all s part to = if is_empty part then s else replace_from part to 0 s
