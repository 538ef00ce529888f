-- ===== src/Graph/Walks.antt =====
-- What the walk lists: pages that as many links as their depth lead to.
use Prim.Native.String.{String}
use qbrain.Prelude.{
  Elem, All-Elem, ℕ, suc, ◌*◌, ◌≤◌, ◌<◌, ◌≡◌, refl, sym, ap, arith, true, ◌&&◌, Option, none, some,
  List, [], ◌∷◌, ◌++◌, Bytes, length, All, All-map, All-append, Bool-cases, ◌⊎◌, inl, inr, text_eq,
  text_eq_sound, text_mem, if◌then◌else◌, leb, ltb,
}
use qbrain.Prelude.Int.{ℤ, pos_part}
use qbrain.Graph.{
  Link, Neighbor, Walk, visit, visit_all, get_links_from, get_links_to, rows_where, query_source,
  take_page, neighbors,
}
use qbrain.Graph.Work.{select-All, loop_rule, start-work}

module _ (links : List Link) (source : Option Bytes) where
  -- A link of the source that leads from one page to the other, in either direction.
  abbrev pub Joins : Link → Bytes → Bytes → Type 0
  Joins l u v =
      Elem l links
      × (source ≡ some l.source_id)
      × (((l.from_slug ≡ u) × (l.to_slug ≡ v)) ⊎ ((l.to_slug ≡ u) × (l.from_slug ≡ v)))

  -- A page that a number of links lead to from the start.
  pub data Reach (start : Bytes) : ℕ → Bytes → Type 0 where
    here : Reach start 0 start
    along : {d : ℕ} {u v : Bytes} (l : Link) → Reach start d u → Joins l u v → Reach start (suc d) v

module _ (links : List Link) (source_id : Bytes) (depth : ℕ) (start : Bytes) where
  abbrev source : Option Bytes
  source = query_source source_id

  abbrev Led : ℕ → Bytes → Type 0
  Led = Reach links source start

  -- What a listed page is: within the depth, and led to by as many links as it says.
  abbrev pub IsListed : Neighbor → Type 0
  IsListed n = (1 ≤ n.depth) × (n.depth ≤ depth) × Led n.depth n.slug

  -- Everything in the queue is led to, and everything listed is.
  abbrev pub IsSound : Walk → Type 0
  IsSound w = All (λ e. Led e.1 e.0) w.queue × All IsListed w.out

  visit_all-IsSound :
      (direction : String) (end : Link → Bytes) (d : ℕ) (ls : List Link) (w : Walk)
      → d < depth
      → All (λ l. Led (suc d) (end l)) ls
      → IsSound w
      → IsSound (visit_all direction end d ls w)
  unfolding visit_all visit
  visit_all-IsSound direction end d [] w le a s = s
  visit_all-IsSound direction end d (l ∷ ls) w le (r, a) (q, o) =
      let queued : All (λ e. Led e.1 e.0)
          (if text_mem (end l) w.visited then w.queue else w.queue ++ ((end l, suc d) ∷ [])) =
        elim (Bool-cases (text_mem (end l) w.visited)) [
          | inl e ↦ rw e q
          | inr e ↦ rw e (All-append (λ e. Led e.1 e.0) w.queue ((end l, suc d) ∷ []) q (r, tt))
        ] in
      visit_all-IsSound direction end d ls (visit direction end d w l) le a
        (queued, All-append IsListed w.out _ o ((omega arith, omega arith, r), tt))

  -- The rows that a query selects are links at the page.
  rows_where-Joins :
      (column end : Link → Bytes) (cur : Bytes)
      → ((l : Link)
          → column l ≡ cur
          → ((l.from_slug ≡ cur) × (l.to_slug ≡ end l))
            ⊎ ((l.to_slug ≡ cur) × (l.from_slug ≡ end l)))
      → (s : Option Bytes) → All (λ l. Joins links s l cur (end l)) (rows_where links s column cur)
  rows_where-Joins column end cur side none = tt
  rows_where-Joins column end cur side (some canon) =
      All-map
        (λ l h.
          let both : (text_eq l.source_id canon ≡ true) × (text_eq (column l) cur ≡ true) =
            ground (arith, h.1) in
          (
            h.0,
            ap some (sym (text_eq_sound l.source_id canon both.0)),
            side l (text_eq_sound (column l) cur both.1),
          ))
        (rows_where links (some canon) column cur)
        (select-All (λ l. Elem l links) (λ l. text_eq l.source_id canon && text_eq (column l) cur)
          links (All-Elem links))

  pub take_page-IsSound :
      (cur : Bytes) (d : ℕ) (w : Walk)
      → Led d cur
      → IsSound w
      → IsSound (take_page links source_id depth cur d w)
  unfolding take_page get_links_from get_links_to
  take_page-IsSound cur d w r s = elim (Bool-cases (leb depth d)) [
    | inl e ↦ rw e s
    | inr e ↦
        let inside : d < depth = ground arith in
        let outward = get_links_from links cur source_id in
        let inward = get_links_to links cur source_id in
        let first =
          visit_all-IsSound "out" (λ l. l.to_slug) d outward w inside
            (All-map (λ l j. along l r j) outward
              (rows_where-Joins (λ l. l.from_slug) (λ l. l.to_slug) cur (λ l h. inl (h, refl))
                source))
            s in
        rw e (
          visit_all-IsSound "in" (λ l. l.from_slug) d inward
            (visit_all "out" (λ l. l.to_slug) d outward w) inside
            (All-map (λ l j. along l r j) inward
              (rows_where-Joins (λ l. l.to_slug) (λ l. l.from_slug) cur (λ l h. inr (h, refl))
                source))
            first)
  ]

-- The walk always ends, within one round for the start and one for each end of a link, with a
-- list; each page in it has a depth from 1 to the one asked for, and as many links of the source,
-- in either direction, lead to it from the start. No depth below 1 lists anything.
pub neighbors_ends :
    (links : List Link) (slug : Bytes) (depth : ℤ) (source_id : Bytes)
    → (out : List Neighbor) × (neighbors links slug depth source_id ≡ some out)
      × All (IsListed links source_id (pos_part depth) slug) out
unfolding neighbors
neighbors_ends links slug depth source_id = elim (Bool-cases (ltb 0 (pos_part depth))) [
  | inl e ↦
      let keep =
        λ (cur : Bytes) (d : ℕ) (rest : List (Bytes × ℕ)) (w : Walk)
            (s : IsSound links source_id (pos_part depth) slug
              (record w { queue = (cur, d) ∷ rest })).
          take_page-IsSound links source_id (pos_part depth) slug cur d (record w { queue = rest })
            s.0.0 (s.0.1, s.1) in
      let (t, done, _, s) =
        loop_rule links source_id (pos_part depth) (IsSound links source_id (pos_part depth) slug)
          keep (suc (2 * length links))
          (record { visited = slug ∷ []; queue = (slug, 0) ∷ []; out = [] }) (start-work links slug)
          ((here, tt), tt) in
      (t.out, rw e done, s.1)
  | inr e ↦ ([], rw e refl, tt)
]
