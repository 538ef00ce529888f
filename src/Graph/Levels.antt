-- ===== src/Graph/Levels.antt =====
-- The walk goes level by level: what it queues, marks and lists in one scan of links.
use mathlib.Core.Path.{subst}
use Prim.Native.String.{String}
use qbrain.Prelude.{
  ℕ, suc, ◌≤◌, ◌≡◌, refl, sym, arith, true, List, [], ◌∷◌, ◌++◌, Bytes, All, All-append, Bool-cases,
  ◌⊎◌, inl, inr, text_eq, text_eq_sound, text_eq_refl, text_mem, Elem, Elem-append, Elem-last,
}
use qbrain.Graph.{Link, Neighbor, Walk, visit, visit_all}

-- A page is listed at a depth.
abbrev pub ListedAt : Bytes → ℕ → List Neighbor → Type 0
ListedAt v d out = (n : Neighbor) × Elem n out × (n.slug ≡ v) × (n.depth ≡ d)

-- What one state has, the other has too.
pub record Grows (w x : Walk) : Type 0 where
  pub listed : (n : Neighbor) → Elem n w.out → Elem n x.out
  pub queued : (e : Bytes × ℕ) → Elem e w.queue → Elem e x.queue
  pub marked : (v : Bytes) → text_mem v w.visited ≡ true → text_mem v x.visited ≡ true

-- The queue is in the order of its depths.
abbrev pub Ascending : List (Bytes × ℕ) → Type 0
Ascending [] = Unit
Ascending (e ∷ es) = All (λ x. e.1 ≤ x.1) es × Ascending es

Ascending-append :
    (es : List (Bytes × ℕ)) (last : Bytes × ℕ)
    → Ascending es
    → All (λ e. e.1 ≤ last.1) es
    → Ascending (es ++ (last ∷ []))
Ascending-append [] last a b = (tt, tt)
Ascending-append (e ∷ es) last (h, a) (le, b) =
    (All-append (λ x. e.1 ≤ x.1) es (last ∷ []) h (le, tt), Ascending-append es last a b)

-- Every marked page was queued: it is in the queue or among those that have left it.
abbrev pub Known : List (Bytes × ℕ) → Walk → Bytes × ℕ → Type 0
Known past w e = Elem e past ⊎ Elem e w.queue

abbrev pub Marked : List (Bytes × ℕ) → Walk → Type 0
Marked past w = (v : Bytes) → text_mem v w.visited ≡ true → (d : ℕ) × Known past w (v, d)

-- Between two levels: the queue has entries of the level `low` and the next one, in this order.
pub record IsLevel (past : List (Bytes × ℕ)) (low : ℕ) (w : Walk) : Type 0 where
  pub marked : Marked past w
  pub past_le : All (λ e. e.1 ≤ suc low) past
  pub queue_le : All (λ e. e.1 ≤ suc low) w.queue
  pub queue_ge : All (λ e. low ≤ e.1) w.queue
  pub ascending : Ascending w.queue

-- A page that is marked with its queueing.
fresh-marked :
    (past : List (Bytes × ℕ)) (w : Walk) (u v : Bytes) (d : ℕ)
    → Marked past w
    → text_mem v (u ∷ w.visited) ≡ true
    → (k : ℕ) × (Elem (v, k) past ⊎ Elem (v, k) (w.queue ++ ((u, d) ∷ [])))
unfolding text_mem
fresh-marked past w u v d m h = elim (Bool-cases (text_eq v u)) [
  | inl e ↦ (
    d,
    inr (
        subst (λ t. Elem (t, d) (w.queue ++ ((u, d) ∷ []))) (sym (text_eq_sound v u e))
          (Elem-last (u, d) w.queue)),
  )
  | inr e ↦
      let (k, known) = m v (rw e at h) in
      (k, elim known [ inl p ↦ inl p | inr q ↦ inr (Elem-append (v, k) w.queue ((u, d) ∷ []) q) ])
]

-- Growing step by step.
pub Grows-refl : (w : Walk) → Grows w w
Grows-refl w = record { listed = λ n h. h; queued = λ e h. h; marked = λ v h. h }

pub Grows-trans : {w x y : Walk} → Grows w x → Grows x y → Grows w y
Grows-trans g h = record {
  listed = λ n e. h.listed n (g.listed n e);
  queued = λ k e. h.queued k (g.queued k e);
  marked = λ v e. h.marked v (g.marked v e);
}

-- A page that is listed and marked.
abbrev pub Covers : ℕ → Bytes → Walk → Type 0
Covers d v w = ListedAt v (suc d) w.out × (text_mem v w.visited ≡ true)

pub Covers-Grows : {w x : Walk} (d : ℕ) (v : Bytes) → Grows w x → Covers d v w → Covers d v x
Covers-Grows d v g ((n, e, s, k), m) = ((n, g.listed n e, s, k), g.marked v m)

module _ (direction : String) (other : Link → Bytes) (d : ℕ) where
  visit-Grows : (w : Walk) (l : Link) → Grows w (visit direction other d w l)
  unfolding visit text_mem
  visit-Grows w l = elim (Bool-cases (text_mem (other l) w.visited)) [
    | inl e ↦ record {
      listed = λ n h. Elem-append n w.out _ h;
      queued = λ k h. rw e h;
      marked = λ v h. rw e h;
    }
    | inr e ↦ record {
      listed = λ n h. Elem-append n w.out _ h;
      queued = λ k h. rw e (Elem-append k w.queue _ h);
      marked = λ v h. rw e (ground (arith, h));
    }
  ]

  -- The page of the link is listed at the next depth, and marked.
  visit-Covers : (w : Walk) (l : Link) → Covers d (other l) (visit direction other d w l)
  unfolding visit text_mem
  visit-Covers w l = elim (Bool-cases (text_mem (other l) w.visited)) [
    | inl e ↦ ((_, Elem-last _ w.out, refl, refl), rw e e)
    | inr e ↦ ((_, Elem-last _ w.out, refl, refl), rw e (ground (arith, text_eq_refl (other l))))
  ]

  visit-IsLevel :
      (past : List (Bytes × ℕ)) (w : Walk) (l : Link)
      → IsLevel past d w
      → IsLevel past d (visit direction other d w l)
  unfolding visit text_mem
  visit-IsLevel past w l i = elim (Bool-cases (text_mem (other l) w.visited)) [
    | inl e ↦ record {
      marked = λ v h. rw e (i.marked v (rw e at h));
      past_le = i.past_le;
      queue_le = rw e i.queue_le;
      queue_ge = rw e i.queue_ge;
      ascending = rw e i.ascending;
    }
    | inr e ↦ record {
      marked = λ v h. rw e (fresh-marked past w (other l) v (suc d) i.marked (rw e at h));
      past_le = i.past_le;
      queue_le = rw e (All-append _ w.queue ((other l, suc d) ∷ []) i.queue_le (omega arith, tt));
      queue_ge = rw e (All-append _ w.queue ((other l, suc d) ∷ []) i.queue_ge (omega arith, tt));
      ascending = rw e (Ascending-append w.queue (other l, suc d) i.ascending i.queue_le);
    }
  ]

  pub visit_all-Grows : (ls : List Link) (w : Walk) → Grows w (visit_all direction other d ls w)
  unfolding visit_all
  visit_all-Grows [] w = Grows-refl w
  visit_all-Grows (l ∷ ls) w =
      Grows-trans (visit-Grows w l) (visit_all-Grows ls (visit direction other d w l))

  pub visit_all-Covers :
      (ls : List Link) (w : Walk)
      → All (λ l. Covers d (other l) (visit_all direction other d ls w)) ls
  unfolding visit_all
  visit_all-Covers [] w = tt
  visit_all-Covers (l ∷ ls) w =
      let next = visit direction other d w l in
      (
        Covers-Grows d (other l) (visit_all-Grows ls next) (visit-Covers w l),
        visit_all-Covers ls next,
      )

  pub visit_all-IsLevel :
      (past : List (Bytes × ℕ)) (ls : List Link) (w : Walk)
      → IsLevel past d w
      → IsLevel past d (visit_all direction other d ls w)
  unfolding visit_all
  visit_all-IsLevel past [] w i = i
  visit_all-IsLevel past (l ∷ ls) w i =
      visit_all-IsLevel past ls (visit direction other d w l) (visit-IsLevel past w l i)
