-- ===== src/Cli/Tests.antt =====
-- The arguments of single search commands.
use qbrain.Prelude.{◌≡◌, refl, [], ◌∷◌, codes, ok, error, text_eq, starts_with}
use qbrain.Strings.{trim}
use qbrain.Cli.{parse_search_arguments}
use qbrain.Cli.Parsed.{IsParsed, parse_search_arguments-IsParsed}
use qbrain.Cli.Query.{joined, only_query, parse_search_arguments-query}

parse_search_arguments-query_example :
    (parse_search_arguments (codes "--" ∷ codes "--json" ∷ codes "x" ∷ [])
      ≡ only_query (trim (joined [] (codes "--json" ∷ codes "x" ∷ []))) [])
    × (parse_search_arguments (codes "--query" ∷ codes "--" ∷ [])
        ≡ only_query (codes "--") ((codes "--query", codes "--") ∷ []))
parse_search_arguments-query_example =
    parse_search_arguments-query (codes "--json" ∷ codes "x" ∷ []) (codes "--")

parse_search_arguments-IsParsed_example : IsParsed (record {
  query = codes "a b";
  values = (codes "--mode", codes "balanced") ∷ [];
  flags = codes "--json" ∷ [];
})
unfolding parse_search_arguments trim text_eq starts_with
parse_search_arguments-IsParsed_example =
    parse_search_arguments-IsParsed
      (codes "--mode=balanced" ∷ codes "a" ∷ codes "--json" ∷ codes "b" ∷ []) refl

parse_tests :
    (parse_search_arguments (codes "--limit=+5" ∷ codes "a" ∷ codes "--json" ∷ codes "b" ∷ [])
      ≡ ok (record {
        query = codes "a b";
        values = (codes "--limit", codes "+5") ∷ [];
        flags = codes "--json" ∷ [];
      }))
    × (parse_search_arguments (codes "--limit" ∷ codes "2147483648" ∷ codes "a" ∷ [])
        ≡ error "invalid_search_limit")
    × (parse_search_arguments (codes "--mode" ∷ codes "--json" ∷ []) ≡ error "missing_search_value")
    × (parse_search_arguments (codes "--json" ∷ codes "--json" ∷ [])
        ≡ error "duplicate_search_argument")
    × (parse_search_arguments (codes "--json=1" ∷ []) ≡ error "invalid_search_argument")
    × (parse_search_arguments (codes "--query=x" ∷ codes "y" ∷ []) ≡ error "mixed_search_query")
    × (parse_search_arguments (codes " " ∷ []) ≡ error "search_query_required")
unfolding parse_search_arguments trim text_eq starts_with
parse_tests = (refl, refl, refl, refl, refl, refl, refl)
