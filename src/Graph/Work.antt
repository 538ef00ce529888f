-- ===== src/Graph/Work.antt =====
-- The walk ends: each round takes an entry off the queue, and an entry is queued only with a page
-- that is marked as visited for the first time.
use qbrain.Prelude.{
  ℕ, zero, suc, ◌+◌, ◌*◌, ◌≤◌, ◌<◌, ◌≡◌, refl, ap, ◌∙◌, arith, Bool, true, false, not, ◌&&◌, Option,
  none, some, List, [], ◌∷◌, Bytes, length, length-append, count, count-le-length, select, All,
  All-map, Bool-cases, ◌⊎◌, inl, inr, text_eq, text_eq_sound, text_eq_refl, text_eq_comm, text_mem,
  leb,
}
use mathlib.Core.Path.{subst}
use Prim.Native.String.{String}
use qbrain.Graph.{
  Link, Walk, visit, visit_all, get_links_from, get_links_to, rows_where, query_source, take_page,
  loop,
}

-- The pages at the ends of the links.
abbrev pub ends : List Link → List Bytes
ends [] = []
ends (l ∷ ls) = l.from_slug ∷ l.to_slug ∷ ends ls

length-ends : (links : List Link) → length (ends links) ≡ 2 * length links
length-ends [] = refl
length-ends (l ∷ ls) = omega (arith, length-ends ls)

-- How many ends are not visited.
abbrev unvisited : List Bytes → List Bytes → ℕ
unvisited visited = count (λ e. not (text_mem e visited))

unvisited-le :
    (v : Bytes) (visited pages : List Bytes)
    → unvisited (v ∷ visited) pages ≤ unvisited visited pages
unfolding text_mem
unvisited-le v visited [] = omega arith
unvisited-le v visited (e ∷ es) = ground (arith, unvisited-le v visited es)

-- A page that is marked for the first time is one less.
unvisited-lt :
    (v : Bytes) (visited pages : List Bytes)
    → text_mem v pages ≡ true
    → text_mem v visited ≡ false
    → unvisited (v ∷ visited) pages < unvisited visited pages
unfolding text_mem
unvisited-lt v visited [] m n = absurd (cc)
unvisited-lt v visited (e ∷ es) m n = elim (Bool-cases (text_eq v e)) [
  | inl same ↦
      let old : text_mem e visited ≡ false =
        subst (λ k. text_mem k visited ≡ false) (text_eq_sound v e same) n in
      rw (text_eq_comm e v, same, old) (omega (arith, unvisited-le v visited es))
  | inr other ↦ let rest = unvisited-lt v visited es (rw other at m) n in ground (arith, rest)
]

-- What is left to do.
abbrev work : List Bytes → Walk → ℕ
work pages w = unvisited w.visited pages + length w.queue

visit-work :
    (pages : List Bytes) (direction : String) (other : Link → Bytes) (d : ℕ) (w : Walk) (l : Link)
    → text_mem (other l) pages ≡ true
    → work pages (visit direction other d w l) ≤ work pages w
unfolding visit
visit-work pages direction other d w l m = elim (Bool-cases (text_mem (other l) w.visited)) [
  | inl e ↦ rw e (omega arith)
  | inr e ↦ rw e (
      omega (
        arith,
        unvisited-lt (other l) w.visited pages m e,
        length-append w.queue ((other l, suc d) ∷ []),
      ))
]

visit_all-work :
    (pages : List Bytes) (direction : String) (other : Link → Bytes) (d : ℕ) (ls : List Link)
    (w : Walk)
    → All (λ l. text_mem (other l) pages ≡ true) ls
    → work pages (visit_all direction other d ls w) ≤ work pages w
unfolding visit_all
visit_all-work pages direction other d [] w a = omega arith
visit_all-work pages direction other d (l ∷ ls) w (m, a) = omega (
  arith,
  visit_all-work pages direction other d ls (visit direction other d w l) a,
  visit-work pages direction other d w l m,
)

pub select-All :
    {A : Type 0} (P : A → Type 0) (p : A → Bool) (xs : List A)
    → All P xs
    → All (λ x. P x × (p x ≡ true)) (select p xs)
select-All P p [] a = tt
select-All P p (x ∷ xs) (px, a) = elim (Bool-cases (p x)) [
  | inl e ↦ rw e ((px, e), select-All P p xs a)
  | inr e ↦ rw e (select-All P p xs a)
]

-- Both ends of each link are among the pages.
ends-All :
    (links : List Link)
    → All
        (λ l. (text_mem l.from_slug (ends links) ≡ true) × (text_mem l.to_slug (ends links) ≡ true))
        links
unfolding text_mem
ends-All [] = tt
ends-All (l ∷ ls) = (
  (ground (arith, text_eq_refl l.from_slug), ground (arith, text_eq_refl l.to_slug)),
  All-map (λ k h. (ground (arith, h.0), ground (arith, h.1))) ls (ends-All ls),
)

cases :
    (q : List (Bytes × ℕ))
    → (q ≡ []) ⊎ ((cur : Bytes) × (d : ℕ) × (rest : List (Bytes × ℕ)) × (q ≡ (cur, d) ∷ rest))
cases [] = inl refl
cases ((cur, d) ∷ rest) = inr (cur, d, rest, refl)

Queue-cases :
    (w : Walk)
    → (w.queue ≡ [])
      ⊎ ((cur : Bytes) × (d : ℕ) × (rest : List (Bytes × ℕ)) × (w.queue ≡ (cur, d) ∷ rest))
Queue-cases w = cases w.queue

module _ (P : Link → Type 0) where
  rows_where-All :
      (links : List Link) (source : Option Bytes) (column : Link → Bytes) (slug : Bytes)
      → All P links
      → All P (rows_where links source column slug)
  rows_where-All links none column slug a = tt
  rows_where-All links (some canon) column slug a =
      All-map (λ l h. h.0) (rows_where links (some canon) column slug)
        (select-All P (λ l. text_eq l.source_id canon && text_eq (column l) slug) links a)

module _ (links : List Link) (source_id : Bytes) (depth : ℕ) where
  take_page-work :
      (cur : Bytes) (d : ℕ) (w : Walk)
      → work (ends links) (take_page links source_id depth cur d w) ≤ work (ends links) w
  unfolding take_page get_links_from get_links_to
  take_page-work cur d w =
      let source = query_source source_id in
      let pages = ends links in
      let outward = get_links_from links cur source_id in
      let inward = get_links_to links cur source_id in
      let first = visit_all "out" (λ l. l.to_slug) d outward w in
      let forth =
        visit_all-work pages "out" (λ l. l.to_slug) d outward w
          (rows_where-All (λ l. text_mem l.to_slug pages ≡ true) links source (λ l. l.from_slug) cur
            (All-map (λ l h. h.1) links (ends-All links))) in
      let back =
        visit_all-work pages "in" (λ l. l.from_slug) d inward first
          (rows_where-All (λ l. text_mem l.from_slug pages ≡ true) links source (λ l. l.to_slug) cur
            (All-map (λ l h. h.0) links (ends-All links))) in
      elim (Bool-cases (leb depth d)) [
        | inl e ↦ rw e (omega arith)
        | inr e ↦ rw e (omega (arith, forth, back))
      ]

  loop-step :
      (cur : Bytes) (d : ℕ) (rest : List (Bytes × ℕ)) (fuel : ℕ) (w : Walk)
      → w.queue ≡ (cur, d) ∷ rest
      → loop links source_id depth (suc fuel) w
        ≡ loop links source_id depth fuel
            (take_page links source_id depth cur d (record w { queue = rest }))
  unfolding loop
  loop-step cur d rest fuel w e = rw e refl

  -- With fuel for the work that is left the loop ends, and what each round keeps holds at the end.
  pub loop_rule :
      (P : Walk → Type 0)
      → ((cur : Bytes) (d : ℕ) (rest : List (Bytes × ℕ)) (w : Walk)
          → P (record w { queue = (cur, d) ∷ rest })
          → P (take_page links source_id depth cur d (record w { queue = rest })))
      → (fuel : ℕ) (w : Walk) → work (ends links) w ≤ fuel
      → P w
      → (t : Walk) × (loop links source_id depth fuel w ≡ some t.out) × (t.queue ≡ []) × P t
  unfolding loop
  loop_rule P keep zero w le p = elim (Queue-cases w) [
    | inl e ↦ (w, rw e refl, e, p)
    | inr (cur, d, rest, e) ↦ absurd (ground (arith, ap length e))
  ]
  loop_rule P keep (suc fuel) w le p = elim (Queue-cases w) [
    | inl e ↦ (w, rw e refl, e, p)
    | inr (cur, d, rest, e) ↦
        let next : Walk = record w { queue = rest } in
        let kept = keep cur d rest w (subst (λ q. P (record w { queue = q })) e p) in
        let (t, ends', empty, q) =
          loop_rule P keep fuel (take_page links source_id depth cur d next)
            (omega (arith, take_page-work cur d next, ap length e)) kept in
        (t, loop-step cur d rest fuel w e ∙ ends', empty, q)
  ]

-- The fuel of `neighbors` is enough for its first walk.
pub start-work :
    (links : List Link) (slug : Bytes)
    → work (ends links) (record { visited = slug ∷ []; queue = (slug, 0) ∷ []; out = [] })
      ≤ suc (2 * length links)
start-work links slug =
    omega
      (arith, count-le-length (λ e. not (text_mem e (slug ∷ []))) (ends links), length-ends links)
