-- ===== src/Cli/Query.antt =====
-- The two ways to pass any text as the query of a search.
use qbrain.Prelude.{
  ℕ, zero, suc, ◌≡◌, refl, arith, Bool, true, false, List, [], ◌∷◌, ◌++◌, Bytes, codes, length,
  is_empty, if◌then◌else◌, text_eq, text_mem, starts_with, Checked, ok, error, Bool-cases, inl, inr,
}
use qbrain.Strings.{trim}
use qbrain.Cli.{
  key_of, value_of, SearchArguments, Scan, scan_argument, scan_arguments, finish, no_arguments,
  parse_search_arguments,
}

-- The words joined by blanks; empty words at the front leave nothing.
abbrev pub joined : Bytes → List Bytes → Bytes
joined done [] = done
joined done (word ∷ words) =
    joined ((if is_empty done then [] else done ++ (b' ' ∷ [])) ++ word) words

abbrev literal_state : Bool → Bytes → Scan
literal_state any text = record no_arguments {
  literal = true;
  has_positional = any;
  positional = text;
}

scan_arguments-words :
    (fuel : ℕ) (words : List Bytes) (any : Bool) (text : Bytes)
    → length words ≡ fuel
    → (any' : Bool) × (scan_arguments fuel words (literal_state any text)
        ≡ ok (literal_state any' (joined text words)))
unfolding scan_arguments scan_argument
scan_arguments-words fuel [] any text e = (any, refl)
scan_arguments-words zero (w ∷ ws) any text e = absurd (omega arith)
scan_arguments-words (suc fuel) (w ∷ ws) any text e =
    scan_arguments-words fuel ws true ((if is_empty text then [] else text ++ (b' ' ∷ [])) ++ w)
      (omega arith)

-- The result for a query alone, unless it is blank.
abbrev pub only_query : Bytes → List (Bytes × Bytes) → Checked SearchArguments
only_query query values =
    if is_empty (trim query)
    then error "search_query_required"
    else ok (record { query = query; values = values; flags = [] })

finish-words :
    (any : Bool) (text : Bytes) → finish (literal_state any text) ≡ only_query (trim text) []
unfolding finish
finish-words any text = elim (Bool-cases (is_empty (trim (trim text)))) [
  | inl e ↦ rw e refl
  | inr e ↦ rw e refl
]

parse-words :
    (words : List Bytes)
    → parse_search_arguments (codes "--" ∷ words) ≡ only_query (trim (joined [] words)) []
unfolding parse_search_arguments scan_arguments scan_argument text_eq
parse-words words =
    let (any, scanned) = scan_arguments-words (length words) words false [] refl in
    rw scanned (finish-words any (joined [] words))

parse-query :
    (query : Bytes)
    → parse_search_arguments (codes "--query" ∷ query ∷ [])
      ≡ only_query query ((codes "--query", query) ∷ [])
unfolding parse_search_arguments scan_arguments scan_argument finish key_of value_of text_eq
    text_mem starts_with
parse-query query = elim (Bool-cases (is_empty (trim query))) [
  | inl e ↦ rw e refl
  | inr e ↦ rw e refl
]

-- Any text is a query: after `--` the words, whatever they look like, are joined by blanks and
-- trimmed, and the argument after `--query` is taken as it is, also a switch or `--`. Such a query
-- comes without options, and only a blank one is refused.
pub parse_search_arguments-query :
    (words : List Bytes) (query : Bytes)
    → (parse_search_arguments (codes "--" ∷ words) ≡ only_query (trim (joined [] words)) [])
      × (parse_search_arguments (codes "--query" ∷ query ∷ [])
          ≡ only_query query ((codes "--query", query) ∷ []))
parse_search_arguments-query words query = (parse-words words, parse-query query)
