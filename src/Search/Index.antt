-- ===== src/Search/Index.antt =====
-- The index of the retained hits by page follows every change of the ordered set.
use mathlib.Core.Path.{subst}
use qbrain.Prelude.{
  ◌≡◌, refl, sym, ◌∙◌, ◌≢◌, arith, Bool, false, Option, none, some, List, [], ◌∷◌, Bytes, All,
  All-map, if◌then◌else◌, text_eq, text_eq_sound, text_eq_refl, Bool-cases, inl, inr,
}
use qbrain.Search.{TopK, erase, init, last?, changed, insert_hit, Score}
use qbrain.Search.Ranking.{find_page, place}
use qbrain.Search.Order.{Laws}
use qbrain.Search.Order
use qbrain.Search.Retained

module _ {A : Type 0} (page : A → Bytes) (better improves : A → A → Bool) (Good : A → Type 0)
    (laws : Laws page better improves Good) where
  abbrev last?-All {κ} : (P : A → Type κ) (xs : List A) {w : A} → All P xs → last? xs ≡ some w → P w
  last?-All = Retained.last?-All page better improves Good laws

  abbrev IsRanking : List A → Type 0
  IsRanking = Order.IsRanking page better improves Good laws

  abbrev Absent : Bytes → List A → Type 0
  Absent = Order.Absent page better improves Good laws

  -- The index finds what a search of the set finds.
  abbrev pub Matches : (Bytes → Option A) → List A → Type 0
  Matches index xs = (key : Bytes) → index key ≡ find_page page key xs

  pub find-place :
      (h : A) (xs : List A) (key : Bytes)
      → Absent (page h) xs
      → find_page page key (place better h xs)
        ≡ (if text_eq (page h) key then some h else find_page page key xs)
  find-place h [] key a = refl
  find-place h (x ∷ xs) key (ne, a) = elim (Bool-cases (better h x)) [
    | inl e ↦ rw e refl
    | inr e ↦ elim (Bool-cases (text_eq (page x) key)) [
      | inl here ↦
          let other : text_eq (page h) key ≡ false =
            Order.text_eq_ne page better improves Good laws (page h) key
              λ s. ne (text_eq_sound (page x) key here ∙ sym s) in
          rw (e, here, other) refl
      | inr there ↦ rw (e, there) (find-place h xs key a)
    ]
  ]

  pub find-Absent : (key : Bytes) (xs : List A) → Absent key xs → find_page page key xs ≡ none
  find-Absent key [] a = refl
  find-Absent key (x ∷ xs) (ne, a) =
      rw (Order.text_eq_ne page better improves Good laws (page x) key ne) (find-Absent key xs a)

  -- The pages of later hits differ from that of an earlier one.
  others :
      (x : A) (xs : List A)
      → All (Order.Before page better improves Good laws x) xs
      → Absent (page x) xs
  others x xs b = All-map (λ y c. c.1) xs b

  -- A key equal to one page is no other one.
  differs :
      (gone : Bytes) (x : A) (key : Bytes)
      → page x ≡ key
      → text_eq (page x) gone ≡ false
      → text_eq gone key ≡ false
  differs gone x key here e =
      Order.text_eq_ne page better improves Good laws gone key
        λ s. absurd (ground (arith, e, text_eq_refl gone, here, s))

  pub find-erase :
      (gone : Bytes) (xs : List A) (key : Bytes)
      → IsRanking xs
      → find_page page key (erase page gone xs)
        ≡ (if text_eq gone key then none else find_page page key xs)
  unfolding erase
  find-erase gone [] key r = ground arith
  find-erase gone (x ∷ xs) key (g, b, r) = elim (Bool-cases (text_eq (page x) gone)) [
    | inl e ↦
        let p = text_eq_sound (page x) gone e in
        elim (Bool-cases (text_eq gone key)) [
          | inl at_gone ↦
              rw (e, at_gone)
                (find-Absent key xs
                  (subst (λ k. Absent k xs) (p ∙ text_eq_sound gone key at_gone) (others x xs b)))
          | inr elsewhere ↦
              let other : text_eq (page x) key ≡ false =
                subst (λ k. text_eq k key ≡ false) (sym p) elsewhere in
              rw (e, elsewhere, other) refl
        ]
    | inr e ↦ elim (Bool-cases (text_eq (page x) key)) [
      | inl here ↦
          let away : text_eq gone key ≡ false =
            differs gone x key (text_eq_sound (page x) key here) e in
          rw (e, here, away) refl
      | inr there ↦ rw (e, there) (find-erase gone xs key r)
    ]
  ]

  find-init :
      (xs : List A) (key : Bytes) {w : A}
      → IsRanking xs
      → last? xs ≡ some w
      → find_page page key (init xs)
        ≡ (if text_eq (page w) key then none else find_page page key xs)
  unfolding init last?
  find-init [] key r l = absurd (cc)
  find-init (x ∷ []) key {w} r l =
      subst (λ v. none ≡ (if text_eq (page v) key then none else find_page page key (x ∷ [])))
        (Order.some_injective l) (ground arith)
  find-init (x ∷ y ∷ xs) key {w} (g, b, r) l = elim (Bool-cases (text_eq (page x) key)) [
    | inl here ↦
        let apart = last?-All (λ v. page v ≢ page x) (y ∷ xs) (others x (y ∷ xs) b) l in
        let away : text_eq (page w) key ≡ false =
          Order.text_eq_ne page better improves Good laws (page w) key
            λ s. apart (s ∙ sym (text_eq_sound (page x) key here)) in
        rw (here, away) refl
    | inr there ↦ rw there (find-init (y ∷ xs) key r l)
  ]

  -- After the insertion of a page that is not there, the index matches if it did before.
  pub insert_hit-Matches :
      (score : A → Score) (h : A) (xs : List A) (index : Bytes → Option A) (k : TopK A)
      → Absent (page h) xs
      → Matches index xs
      → let after = insert_hit page better improves score h xs index k in
        (after.limit ≡ k.limit)
        × (after.ordered ≡ place better h xs)
        × Matches after.by_page (place better h xs)
  unfolding insert_hit
  insert_hit-Matches score h xs index k a m = (
    refl,
    Order.set_insert-place page better improves Good laws h xs a,
    λ key.
        rw (Order.is_new-Absent page better improves Good laws h xs a, m key)
          (sym (find-place h xs key a)),
  )

  pub erase-Matches :
      (gone : Bytes) (xs : List A) (index : Bytes → Option A)
      → IsRanking xs
      → Matches index xs
      → Matches (changed index gone none) (erase page gone xs)
  erase-Matches gone xs index r m key = rw (m key) (sym (find-erase gone xs key r))

  pub init-Matches :
      (xs : List A) (index : Bytes → Option A) {w : A}
      → IsRanking xs
      → last? xs ≡ some w
      → Matches index xs
      → Matches (changed index (page w) none) (init xs)
  init-Matches xs index r l m key = rw (m key) (sym (find-init xs key r l))
