-- ===== src/Graph/Complete.antt =====
-- The walk lists every page within the depth, at the least number of links that lead to it.
use mathlib.Core.Path.{subst}
use qbrain.Prelude.{
  ℕ, suc, ◌*◌, ◌≤◌, ◌≡◌, refl, ap, arith, true, false, some, List, [], ◌∷◌, Bytes, length, All-at,
  ◌⊎◌, inl, inr, text_eq_sound, text_mem, ltb, Elem,
}
use qbrain.Prelude.Int.{ℤ, pos_part}
use qbrain.Graph.{Link, Neighbor, Walk, query_source, neighbors}
use qbrain.Graph.Work.{loop_rule, start-work}
use qbrain.Graph.Walks.{Reach, here, along}
use qbrain.Graph.Levels.{Known}
use qbrain.Graph.Closed

-- With an empty queue, what is known has left it.
gone_from :
    (past queue : List (Bytes × ℕ)) (e : Bytes × ℕ)
    → queue ≡ []
    → Elem e past ⊎ Elem e queue
    → Elem e past
gone_from past queue e empty (inl p) = p
gone_from past queue e empty (inr q) =
    let none_left : true ≡ false = subst (Elem e) empty q in absurd (cc)

module _ (links : List Link) (source_id : Bytes) (depth : ℕ) (start : Bytes) where
  abbrev IsWalk : Walk → Type 0
  IsWalk = Closed.IsWalk links source_id depth start

  gone :
      (w : Walk) (s : IsWalk w) → w.queue ≡ [] → (e : Bytes × ℕ) → Known s.past w e → Elem e s.past
  gone w s empty e known = gone_from s.past w.queue e empty known

  -- At the end a page that is led to has left the queue, and is listed unless it is the start.
  reached :
      (w : Walk) (s : IsWalk w)
      → w.queue ≡ []
      → {d : ℕ} {v : Bytes} → Reach links (query_source source_id) start d v
      → d ≤ depth
      → (k : ℕ) × (k ≤ d)
        × Elem (v, k) s.past
        × ((d ≡ 0) ⊎ ((n : Neighbor) × Elem n w.out × (n.slug ≡ v) × (n.depth ≤ d)))
  reached w s empty here le = (0, omega arith, gone w s empty (start, 0) s.begun, inl refl)
  reached w s empty (along {d} {u} {v} l r j) le =
      let (k, kd, past, _) = reached w s empty r (omega arith) in
      elim (All-at (λ e. (depth ≤ e.1) ⊎ Closed.Closed links source_id depth start s.past w e)
        (u, k) s.past s.closed past) [
          | inl deep ↦ absurd (omega arith)
          | inr c ↦
              let ((n, en, sn, dn), m, le', known) = c l v j in
              (m, omega arith, gone w s empty (v, m) known, inr (n, en, sn, omega arith))
        ]

-- Each page that some links of the source, at most as many as the depth asked for, lead to from the
-- start, in either direction, is listed by the walk, at a depth of at most their number.
pub neighbors_complete :
    (links : List Link) (slug : Bytes) (depth : ℤ) (source_id : Bytes) (d : ℕ) (v : Bytes)
    → 1 ≤ d
    → d ≤ pos_part depth
    → Reach links (query_source source_id) slug d v
    → (out : List Neighbor) × (neighbors links slug depth source_id ≡ some out)
      × (n : Neighbor) × Elem n out
      × (n.slug ≡ v)
      × (n.depth ≤ d)
unfolding neighbors text_mem
neighbors_complete links slug depth source_id d v least most r =
    let first : Walk = record { visited = slug ∷ []; queue = (slug, 0) ∷ []; out = [] } in
    let begun : IsWalk links source_id (pos_part depth) slug first = record {
      past = [];
      low = 0;
      level = record {
        marked =
            λ u h. (0, inr (inl (ap (λ t. (t, 0)) (text_eq_sound u slug (ground (arith, h))))));
        past_le = tt;
        queue_le = (omega arith, tt);
        queue_ge = (omega arith, tt);
        ascending = (tt, tt);
      };
      closed = tt;
      begun = inr (inl refl);
    } in
    let (t, ended, empty, s) =
      loop_rule links source_id (pos_part depth) (IsWalk links source_id (pos_part depth) slug)
        (λ cur k rest w i.
          Closed.take_page-IsWalk links source_id (pos_part depth) slug cur k rest w i)
        (suc (2 * length links)) first (start-work links slug) begun in
    let positive : ltb 0 (pos_part depth) ≡ true = ground arith in
    let (k, le, _, found) = reached links source_id (pos_part depth) slug t s empty r most in
    elim found [
      | inl none_left ↦ absurd (omega arith)
      | inr (n, listed, same, within) ↦ (t.out, rw positive ended, n, listed, same, within)
    ]
