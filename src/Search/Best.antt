-- ===== src/Search/Best.antt =====
-- What the ranking of a list of hits is: strictly ordered, one hit of a page, the best of each.
use mathlib.Core.Path.{subst}
use qbrain.Prelude.{
  ◌≡◌, refl, sym, ◌∙◌, arith, Bool, true, false, ◌⊎◌, inl, inr, Option, none, some, List, [], ◌∷◌,
  Bytes, All, text_eq, text_eq_sound, text_eq_refl, Bool-cases, Option-cases,
}
use qbrain.Search.{Score, is_finite, erase}
use qbrain.Search.Ranking.{find_page, rank_hit, rank_all}
use qbrain.Search.Order.{Laws, IsWeak, ScoreLaws}
use qbrain.Search.Order
use qbrain.Search.Index
use qbrain.Search.Threshold

module _ {A : Type 0} (page : A → Bytes) (better improves : A → A → Bool) (score : A → Score)
    (Good : A → Type 0) (laws : Laws page better improves Good) (weak : IsWeak improves)
    (scores : ScoreLaws better improves score) where
  -- The ranking has a hit of the same page that is not improved by this one.
  abbrev pub Best : List A → A → Type 0
  Best ranks h = (p : A) × (find_page page (page h) ranks ≡ some p) × (improves h p ≡ false)

  irreflexive : (h : A) → improves h h ≡ false
  irreflexive h = elim (Bool-cases (improves h h)) [ inl e ↦ weak.asym h h e | inr e ↦ e ]

  -- A hit that comes in is the best of its page, or leaves a better one.
  rank_hit-Best :
      (h : A) (ranks : List A)
      → Order.IsRanking page better improves Good laws ranks
      → is_finite (score h) ≡ true
      → Best (rank_hit page better improves score h ranks) h
  unfolding rank_hit
  rank_hit-Best h ranks r f = elim (Option-cases (find_page page (page h) ranks)) [
    | inl e ↦
        let absent = Order.find_page-Absent page better improves Good laws (page h) ranks e in
        rw (f, e)
          (
            h,
            Index.find-place page better improves Good laws h ranks (page h) absent
                ∙ rw (text_eq_refl (page h)) refl,
            irreflexive h,
          )
    | inr (p, e) ↦ elim (Bool-cases (improves h p)) [
      | inl i ↦
          let absent = Order.erase-Absent page better improves Good laws (page h) ranks r in
          rw (f, e, i)
            (
              h,
              Index.find-place page better improves Good laws h (erase page (page h) ranks) (page h)
                    absent
                  ∙ rw (text_eq_refl (page h)) refl,
              irreflexive h,
            )
      | inr i ↦ rw (f, e, i) (p, e, i)
    ]
  ]

  -- What improves the best hit of a page is not improved by what does not.
  passed :
      (g h old p : A) {o : Option A}
      → improves g old ≡ true
      → o ≡ some old
      → o ≡ some p
      → improves h p ≡ false
      → improves h g ≡ false
  passed g h old p i e fp np = elim (Bool-cases (improves h g)) [
    | inr n ↦ n
    | inl n ↦
        let kept : improves h old ≡ false =
          subst (λ q. improves h q ≡ false) (Order.some_injective (sym fp ∙ e)) np in
        absurd (ground (arith, weak.cuts h old g n kept, weak.asym g old i))
  ]

  -- A later hit of the page only makes it better.
  rank_hit-kept :
      (g h : A) (ranks : List A)
      → Order.IsRanking page better improves Good laws ranks
      → Best ranks h
      → Best (rank_hit page better improves score g ranks) h
  unfolding rank_hit
  rank_hit-kept g h ranks r (p, fp, np) = elim (Bool-cases (is_finite (score g))) [
    | inr f ↦ rw f (p, fp, np)
    | inl f ↦ elim (Option-cases (find_page page (page g) ranks)) [
      | inl e ↦
          let absent = Order.find_page-Absent page better improves Good laws (page g) ranks e in
          let other : text_eq (page g) (page h) ≡ false =
            Order.text_eq_ne page better improves Good laws (page g) (page h) λ key.
              let missing = subst (λ k. find_page page k ranks ≡ none) key e in absurd (cc) in
          rw (f, e)
            (
              p,
              Index.find-place page better improves Good laws g ranks (page h) absent ∙ rw other fp,
              np,
            )
      | inr (old, e) ↦ elim (Bool-cases (improves g old)) [
        | inr i ↦ rw (f, e, i) (p, fp, np)
        | inl i ↦
            let absent = Order.erase-Absent page better improves Good laws (page g) ranks r in
            let found =
              Index.find-place page better improves Good laws g (erase page (page g) ranks) (page h)
                absent in
            elim (Bool-cases (text_eq (page g) (page h))) [
              | inl here ↦
                  rw (f, e, i)
                    (
                      g,
                      found ∙ rw here refl,
                      passed g h old p i
                          (subst (λ k. find_page page k ranks ≡ some old)
                            (text_eq_sound (page g) (page h) here) e)
                          fp np,
                    )
              | inr away ↦
                  rw (f, e, i)
                    (
                      p,
                      found
                          ∙ rw away (
                              Index.find-erase page better improves Good laws (page g) ranks
                                (page h) r
                              ∙ rw away fp),
                      np,
                    )
            ]
      ]
    ]
  ]

  rank_all-kept :
      (hits : List A) (h : A) (ranks : List A)
      → All Good hits
      → Order.IsRanking page better improves Good laws ranks
      → Best ranks h
      → Best (rank_all page better improves score hits ranks) h
  unfolding rank_all
  rank_all-kept [] h ranks good r b = b
  rank_all-kept (g ∷ hits) h ranks (gg, good) r b =
      rank_all-kept hits h (rank_hit page better improves score g ranks) good
        (Threshold.rank_hit-IsRanking page better improves score Good laws scores g ranks gg r)
        (rank_hit-kept g h ranks r b)

  -- Every finite hit is the best of its page or leaves a better one in the ranking.
  pub rank_all-Best :
      (hits ranks : List A)
      → All Good hits
      → Order.IsRanking page better improves Good laws ranks
      → All
          (λ h.
            (is_finite (score h) ≡ false) ⊎ Best (rank_all page better improves score hits ranks) h)
          hits
  unfolding rank_all
  rank_all-Best [] ranks good r = tt
  rank_all-Best (h ∷ hits) ranks (g, good) r =
      let next =
        Threshold.rank_hit-IsRanking page better improves score Good laws scores h ranks g r in
      let later = rank_all-Best hits (rank_hit page better improves score h ranks) good next in
      elim (Bool-cases (is_finite (score h))) [
        | inl f ↦ (
          inr (
              rank_all-kept hits h (rank_hit page better improves score h ranks) good next
                (rank_hit-Best h ranks r f)),
          later,
        )
        | inr f ↦ (inl f, later)
      ]

  rank_hit-All :
      (P : A → Type 0) (h : A) (ranks : List A)
      → P h
      → All (λ p. P p × (is_finite (score p) ≡ true)) ranks
      → All (λ p. P p × (is_finite (score p) ≡ true)) (rank_hit page better improves score h ranks)
  unfolding rank_hit
  rank_hit-All P h ranks p rs =
      let Q = λ (q : A). P q × (is_finite (score q) ≡ true) in
      elim (Bool-cases (is_finite (score h))) [
        | inr f ↦ rw f rs
        | inl f ↦ elim (Option-cases (find_page page (page h) ranks)) [
          | inl e ↦ rw (f, e) (Order.place-All page better improves Good laws Q h ranks (p, f) rs)
          | inr (old, e) ↦ elim (Bool-cases (improves h old)) [
            | inl i ↦
                rw (f, e, i)
                  (Order.place-All page better improves Good laws Q h (erase page (page h) ranks)
                    (p, f) (Order.erase-All page better improves Good laws Q (page h) ranks rs))
            | inr i ↦ rw (f, e, i) rs
          ]
        ]
      ]

  -- The ranking has finite hits of the list only.
  pub rank_all-All :
      (P : A → Type 0) (hits ranks : List A)
      → All P hits
      → All (λ p. P p × (is_finite (score p) ≡ true)) ranks
      → All
          (λ p. P p × (is_finite (score p) ≡ true))
          (rank_all page better improves score hits ranks)
  unfolding rank_all rank_hit
  rank_all-All P [] ranks ps rs = rs
  rank_all-All P (h ∷ hits) ranks (p, ps) rs =
      rank_all-All P hits (rank_hit page better improves score h ranks) ps
        (rank_hit-All P h ranks p rs)
