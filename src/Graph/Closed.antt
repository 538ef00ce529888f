-- ===== src/Graph/Closed.antt =====
-- What a round of the walk does to its state: pages that have left the queue stay closed.
use mathlib.Core.Path.{subst}
use native.Mathlib.Decide.{dec_lt}
use qbrain.Prelude.{
  ℕ, suc, ◌≤◌, ◌<◌, ◌≡◌, refl, arith, true, false, ◌&&◌, Option, List, ◌∷◌, Bytes, All, All-map,
  All-at, Bool-cases, ◌⊎◌, inl, inr, text_eq, text_eq_refl, leb, Elem, select-Elem,
}
use qbrain.Graph.{Link, Walk, visit_all, get_links_from, get_links_to, query_source, take_page}
use qbrain.Graph.Walks.{Joins}
use qbrain.Graph.Levels.{
  ListedAt, Grows, Grows-refl, Grows-trans, Known, IsLevel, Covers, Covers-Grows, visit_all-Grows,
  visit_all-Covers, visit_all-IsLevel,
}

selects : (s a b : Bytes) → a ≡ b → (text_eq s s && text_eq a b) ≡ true
selects s a b e = rw (text_eq_refl s, e, text_eq_refl b) refl

-- An entry leaves the queue.
left :
    (past : List (Bytes × ℕ)) (cur : Bytes) (d : ℕ) (rest : List (Bytes × ℕ)) (w : Walk)
    (e : Bytes × ℕ)
    → Known past (record w { queue = (cur, d) ∷ rest }) e
    → Known ((cur, d) ∷ past) (record w { queue = rest }) e
left past cur d rest w e (inl p) = inl (inr p)
left past cur d rest w e (inr (inl h)) = inl (inl h)
left past cur d rest w e (inr (inr q)) = inr q

left-IsLevel :
    (past : List (Bytes × ℕ)) (low : ℕ) (cur : Bytes) (d : ℕ) (rest : List (Bytes × ℕ)) (w : Walk)
    → IsLevel past low (record w { queue = (cur, d) ∷ rest })
    → IsLevel ((cur, d) ∷ past) d (record w { queue = rest })
left-IsLevel past low cur d rest w i =
    let up : suc low ≤ suc d = omega (arith, i.queue_ge.0) in
    record {
      marked = λ v h. let (k, known) = i.marked v h in (k, left past cur d rest w (v, k) known);
      past_le = (omega arith, All-map (λ e le. omega (arith, le, up)) past i.past_le);
      queue_le = All-map (λ e le. omega (arith, le, up)) rest i.queue_le.1;
      queue_ge = i.ascending.0;
      ascending = i.ascending.1;
    }

Known-Grows :
    (past : List (Bytes × ℕ)) {w x : Walk} (e : Bytes × ℕ)
    → Grows w x
    → Known past w e
    → Known past x e
Known-Grows past e g (inl p) = inl p
Known-Grows past e g (inr q) = inr (g.queued e q)

Known-le :
    (past : List (Bytes × ℕ)) (low : ℕ) (w : Walk) (e : Bytes × ℕ)
    → IsLevel past low w
    → Known past w e
    → e.1 ≤ suc low
Known-le past low w e i (inl p) = All-at (λ x. x.1 ≤ suc low) e past i.past_le p
Known-le past low w e i (inr q) = All-at (λ x. x.1 ≤ suc low) e w.queue i.queue_le q

module _ (links : List Link) (source_id : Bytes) (depth : ℕ) (start : Bytes) where
  abbrev pub source : Option Bytes
  source = query_source source_id

  -- Every page that a link joins to this one is listed at the next depth and was queued by then.
  abbrev pub Closed : List (Bytes × ℕ) → Walk → Bytes × ℕ → Type 0
  Closed past w e =
      (l : Link) (v : Bytes)
      → Joins links source l e.0 v
      → ListedAt v (suc e.1) w.out × (k : ℕ) × (k ≤ suc e.1) × Known past w (v, k)

  -- The state between two rounds, with the entries that have left the queue.
  pub record IsWalk (w : Walk) : Type 0 where
    pub past : List (Bytes × ℕ)
    pub low : ℕ
    pub level : IsLevel past low w
    pub closed : All (λ e. (depth ≤ e.1) ⊎ Closed past w e) past
    pub begun : Known past w (start, 0)

  -- What a page of a link becomes in a round at its other page.
  take_page-Covers :
      (cur : Bytes) (d : ℕ) (w : Walk) (l : Link) (v : Bytes)
      → d < depth
      → Joins links source l cur v
      → Covers d v (take_page links source_id depth cur d w)
  unfolding take_page get_links_from get_links_to
  take_page-Covers cur d w l v inside (row, src, side) =
      let beyond : leb depth d ≡ false = ground arith in
      let outward = get_links_from links cur source_id in
      let inward = get_links_to links cur source_id in
      let first = visit_all "out" (λ l. l.to_slug) d outward w in
      rw beyond (elim side [
        | inl (from, to) ↦
            let selected : Elem l outward =
              rw src (select-Elem _ l links row (selects l.source_id l.from_slug cur from)) in
            subst (λ t. Covers d t (visit_all "in" (λ l. l.from_slug) d inward first)) to
              (Covers-Grows d l.to_slug (visit_all-Grows "in" (λ l. l.from_slug) d inward first)
                (All-at _ l outward (visit_all-Covers "out" (λ l. l.to_slug) d outward w) selected))
        | inr (to, from) ↦
            let selected : Elem l inward =
              rw src (select-Elem _ l links row (selects l.source_id l.to_slug cur to)) in
            subst (λ t. Covers d t (visit_all "in" (λ l. l.from_slug) d inward first)) from
              (All-at _ l inward (visit_all-Covers "in" (λ l. l.from_slug) d inward first) selected)
      ])

  take_page-Grows :
      (cur : Bytes) (d : ℕ) (w : Walk) → Grows w (take_page links source_id depth cur d w)
  unfolding take_page
  take_page-Grows cur d w = elim (Bool-cases (leb depth d)) [
    | inl e ↦ rw e (Grows-refl w)
    | inr e ↦
        let outward = get_links_from links cur source_id in
        rw e (
          Grows-trans (visit_all-Grows "out" (λ l. l.to_slug) d outward w) (
            visit_all-Grows "in" (λ l. l.from_slug) d (get_links_to links cur source_id)
              (visit_all "out" (λ l. l.to_slug) d outward w)))
  ]

  take_page-IsLevel :
      (past : List (Bytes × ℕ)) (cur : Bytes) (d : ℕ) (w : Walk)
      → IsLevel past d w
      → IsLevel past d (take_page links source_id depth cur d w)
  unfolding take_page
  take_page-IsLevel past cur d w i = elim (Bool-cases (leb depth d)) [
    | inl e ↦ rw e i
    | inr e ↦
        let outward = get_links_from links cur source_id in
        rw e (
          visit_all-IsLevel "in" (λ l. l.from_slug) d past (get_links_to links cur source_id)
            (visit_all "out" (λ l. l.to_slug) d outward w)
            (visit_all-IsLevel "out" (λ l. l.to_slug) d past outward w i))
  ]

  -- The entry that is walked is closed, unless it is at the last level.
  take_page-Closed :
      (past : List (Bytes × ℕ)) (cur : Bytes) (d : ℕ) (w : Walk)
      → IsLevel past d (take_page links source_id depth cur d w)
      → (depth ≤ d) ⊎ Closed past (take_page links source_id depth cur d w) (cur, d)
  take_page-Closed past cur d w i = elim (dec_lt d depth) [
    | no outside ↦ inl (omega arith)
    | yes inside ↦ inr λ l v j.
        let (listed, marked) = take_page-Covers cur d w l v inside j in
        let (k, known) = i.marked v marked in
        (listed, k, Known-le past d (take_page links source_id depth cur d w) (v, k) i known, known)
  ]

  -- A closed entry stays closed.
  Closed-kept :
      (past : List (Bytes × ℕ)) (cur : Bytes) (d : ℕ) (rest : List (Bytes × ℕ)) (w x : Walk)
      (e : Bytes × ℕ)
      → Grows (record w { queue = rest }) x
      → Closed past (record w { queue = (cur, d) ∷ rest }) e
      → Closed ((cur, d) ∷ past) x e
  Closed-kept past cur d rest w x e g c l v j =
      let ((n, en, sn, dn), k, le, known) = c l v j in
      (
        (n, g.listed n en, sn, dn),
        k,
        le,
        Known-Grows ((cur, d) ∷ past) (v, k) g (left past cur d rest w (v, k) known),
      )

  pub take_page-IsWalk :
      (cur : Bytes) (d : ℕ) (rest : List (Bytes × ℕ)) (w : Walk)
      → IsWalk (record w { queue = (cur, d) ∷ rest })
      → IsWalk (take_page links source_id depth cur d (record w { queue = rest }))
  take_page-IsWalk cur d rest w s =
      let next : Walk = record w { queue = rest } in
      let past = (cur, d) ∷ s.past in
      let grown = take_page-Grows cur d next in
      let level =
        take_page-IsLevel past cur d next (left-IsLevel s.past s.low cur d rest w s.level) in
      record {
        past = past;
        low = d;
        level = level;
        closed = (
          take_page-Closed past cur d next level,
          All-map
              (λ e h. elim h [
                | inl deep ↦ inl deep
                | inr c ↦ inr (
                    Closed-kept s.past cur d rest w (take_page links source_id depth cur d next) e
                      grown c)
              ])
              s.past s.closed,
        );
        begun = Known-Grows past (start, 0) grown (left s.past cur d rest w (start, 0) s.begun);
      }
