-- ===== src/Graph/Tests.antt =====
-- Walks over three links, one of them of another source.
use Prim.Native.String.{String}
use qbrain.Prelude.{
  text_eq, ◌≡◌, ◌≤◌, refl, arith, Option, none, some, List, [], ◌∷◌, Bytes, codes, All, map, inl,
  inr, Elem,
}
use qbrain.Prelude.Int.{pos, negsuc}
use qbrain.Graph.{Link, Neighbor, neighbors, query_source, canonical_source_id}
use qbrain.Graph.Walks.{Reach, here, along, IsListed, neighbors_ends}
use qbrain.Graph.Complete.{neighbors_complete}

abbrev link : String → String → String → Link
link source from to = record {
  id = 1;
  source_id = codes source;
  from_slug = codes from;
  to_slug = codes to;
  link_type = codes "related";
  context = [];
  link_source = codes "markdown";
}

abbrev links : List Link
links = link "default" "a" "b" ∷ link "default" "c" "b" ∷ link "team" "a" "d" ∷ []

-- From a over b, against its link, to c.
to_c : Reach links (query_source []) (codes "a") 2 (codes "c")
unfolding query_source text_eq
to_c =
    along (link "default" "c" "b")
      (along (link "default" "a" "b") here (inl refl, refl, inl (refl, refl)))
      (inr (inl refl), refl, inr (refl, refl))

neighbors_ends_example :
    (out : List Neighbor) × (neighbors links (codes "a") (pos 2) [] ≡ some out)
    × All (IsListed links [] 2 (codes "a")) out
neighbors_ends_example = neighbors_ends links (codes "a") (pos 2) []

neighbors_complete_example :
    (out : List Neighbor) × (neighbors links (codes "a") (pos 2) [] ≡ some out)
    × (n : Neighbor) × Elem n out
    × (n.slug ≡ codes "c")
    × (n.depth ≤ 2)
neighbors_complete_example =
    neighbors_complete links (codes "a") (pos 2) [] 2 (codes "c") (omega arith) (omega arith) to_c

abbrev slugs_of : Option (List Neighbor) → List Bytes
slugs_of none = []
slugs_of (some out) = map (λ n. n.slug) out

neighbors_tests :
    (slugs_of (neighbors links (codes "a") (pos 2) []) ≡ codes "b" ∷ codes "a" ∷ codes "c" ∷ [])
    × (slugs_of (neighbors links (codes "a") (pos 1) (codes "TEAM")) ≡ codes "d" ∷ [])
    × (neighbors links (codes "a") (negsuc 0) [] ≡ some [])
    × (canonical_source_id (codes "con") ≡ none)
unfolding neighbors canonical_source_id text_eq
neighbors_tests = (refl, refl, refl, refl)
