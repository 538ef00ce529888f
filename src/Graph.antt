-- ===== src/Graph.antt =====
-- src/qbrain/graph/traverse.cpp and the link queries of src/qbrain/core/brain.cpp: the breadth-first
-- walk from a page over its links, in both directions.
pub mod Work
pub mod Walks
pub mod Levels
pub mod Closed
pub mod Complete
mod Tests
use Prim.Native.String.{String}
use qbrain.Prelude.{
  ℕ, zero, suc, ◌+◌, ◌-◌, ◌*◌, Bool, true, false, not, ◌&&◌, ◌||◌, Option, none, some, List, [],
  ◌∷◌, ◌++◌, Bytes, codes, length, select, is_empty, ◌==◌, ltb, leb, in_range, if◌then◌else◌,
  text_eq, text_mem,
}
use qbrain.Prelude.Int.{ℤ, pos_part}

pub record Link : Type 0 where
  pub id : ℕ
  pub source_id : Bytes
  pub from_slug : Bytes
  pub to_slug : Bytes
  pub link_type : Bytes
  pub context : Bytes
  pub link_source : Bytes

pub record Neighbor : Type 0 where
  pub slug : Bytes
  pub link_type : Bytes
  pub direction : Bytes
  pub depth : ℕ

-- The loop of `canonical_source_id_impl`; a character that is not allowed ends it.
abbrev pub canonical_char : ℕ → Option ℕ
canonical_char c =
    if in_range b'A' b'Z' c
    then some (c - b'A' + b'a')
    else if in_range b'a' b'z' c || in_range b'0' b'9' c || c == b'_' || c == b'-'
    then some c
    else none

abbrev joined : Option ℕ → Option Bytes → Option Bytes
joined (some c) (some s) = some (c ∷ s)
joined _ _ = none

unfoldable pub canonical_chars : Bytes → Option Bytes
canonical_chars [] = some []
canonical_chars (c ∷ s) = joined (canonical_char c) (canonical_chars s)

abbrev reserved : List Bytes
reserved =
    codes "con"
    ∷ codes "prn"
    ∷ codes "aux"
    ∷ codes "nul"
    ∷ codes "com1"
    ∷ codes "com2"
    ∷ codes "com3"
    ∷ codes "com4"
    ∷ codes "com5"
    ∷ codes "com6"
    ∷ codes "com7"
    ∷ codes "com8"
    ∷ codes "com9"
    ∷ codes "lpt1"
    ∷ codes "lpt2"
    ∷ codes "lpt3"
    ∷ codes "lpt4"
    ∷ codes "lpt5"
    ∷ codes "lpt6"
    ∷ codes "lpt7"
    ∷ codes "lpt8"
    ∷ codes "lpt9"
    ∷ []

abbrev unreserved : Option Bytes → Option Bytes
unreserved none = none
unreserved (some canon) = if text_mem canon reserved then none else some canon

unfoldable pub canonical_source_id : Bytes → Option Bytes
unfolding canonical_chars text_mem
canonical_source_id source_id =
    if is_empty source_id || ltb 64 (length source_id)
    then none
    else unreserved (canonical_chars source_id)

-- The source that a query looks in.
unfoldable pub query_source : Bytes → Option Bytes
unfolding canonical_source_id
query_source source_id =
    canonical_source_id (if is_empty source_id then codes "default" else source_id)

-- The rows of the table `links` that a query selects, in the order of the rows.
abbrev pub rows_where : List Link → Option Bytes → (Link → Bytes) → Bytes → List Link
rows_where links none column slug = []
rows_where links (some canon) column slug =
    select (λ l. text_eq l.source_id canon && text_eq (column l) slug) links

unfoldable pub get_links_from : List Link → Bytes → Bytes → List Link
unfolding query_source
get_links_from links slug source_id =
    rows_where links (query_source source_id) (λ l. l.from_slug) slug

unfoldable pub get_links_to : List Link → Bytes → Bytes → List Link
unfolding query_source
get_links_to links slug source_id = rows_where links (query_source source_id) (λ l. l.to_slug) slug

-- The local variables of `neighbors`.
pub record Walk : Type 0 where
  pub visited : List Bytes
  pub queue : List (Bytes × ℕ)
  pub out : List Neighbor

-- The bodies of the two loops over links, at depth `d`; `other` is the end that is listed.
unfoldable pub visit : String → (Link → Bytes) → ℕ → Walk → Link → Walk
unfolding text_mem
visit direction other d w l =
    let n : Neighbor = record {
      slug = other l;
      link_type = l.link_type;
      direction = codes direction;
      depth = suc d;
    } in
    record {
      visited = if text_mem (other l) w.visited then w.visited else other l ∷ w.visited;
      queue = if text_mem (other l) w.visited then w.queue else w.queue ++ ((other l, suc d) ∷ []);
      out = w.out ++ (n ∷ []);
    }

unfoldable pub visit_all : String → (Link → Bytes) → ℕ → List Link → Walk → Walk
unfolding visit
visit_all direction other d [] w = w
visit_all direction other d (l ∷ ls) w =
    visit_all direction other d ls (visit direction other d w l)

module _ (links : List Link) (source_id : Bytes) (depth : ℕ) where
  -- One round of the `while` loop, after the front has left the queue.
  unfoldable pub take_page : Bytes → ℕ → Walk → Walk
  unfolding visit_all get_links_from get_links_to
  take_page cur d w =
      if leb depth d
      then w
      else visit_all "in" (λ l. l.from_slug) d (get_links_to links cur source_id)
          (visit_all "out" (λ l. l.to_slug) d (get_links_from links cur source_id) w)

  -- `none` is the end of the fuel.
  unfoldable pub loop : ℕ → Walk → Option (List Neighbor)
  unfolding take_page
  loop zero w = elim w.queue [ [] ↦ some w.out | _ ↦ none ]
  loop (suc fuel) w = elim w.queue [
    | [] ↦ some w.out
    | (cur, d) ∷ rest ↦ loop fuel (take_page cur d (record w { queue = rest }))
  ]

-- The fuel is one round for the start and one for each end of a link.
unfoldable pub neighbors : List Link → Bytes → ℤ → Bytes → Option (List Neighbor)
unfolding loop
neighbors links slug depth source_id =
    if not (ltb 0 (pos_part depth))
    then some []
    else loop links source_id (pos_part depth) (suc (2 * length links))
        (record { visited = slug ∷ []; queue = (slug, 0) ∷ []; out = [] })
