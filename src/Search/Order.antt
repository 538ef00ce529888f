-- ===== src/Search/Order.antt =====
-- Lists of hits in strict order with one hit of a page.
use mathlib.Core.Path.{subst}
use qbrain.Prelude.{
  ◌≤◌, ◌≡◌, refl, sym, ap, ◌∙◌, ◌≢◌, arith, Bool, true, false, none, some, List, [], ◌∷◌, Bytes,
  All, All-map, All-zip, ◌⊎◌, text_eq, text_eq_sound, text_eq_refl, Bool-cases, inl, inr,
}
use qbrain.Search.{place_of, Score, erase, set_insert, is_new}
use qbrain.Search.Ranking.{find_page, place}

-- A strict order up to equivalents.
pub record IsWeak {A : Type 0} (less : A → A → Bool) : Type 0 where
  pub asym : (a b : A) → less a b ≡ true → less b a ≡ false
  pub cuts : (a b c : A) → less a c ≡ true → less a b ≡ false → less b c ≡ true

-- The laws of `Better` and of the replacement of a hit of the same page, for hits that are `Good`.
pub record Laws {A : Type 0} (page : A → Bytes) (better improves : A → A → Bool) (Good : A → Type 0)
    : Type 0 where
  pub asym : (a b : A) → better a b ≡ true → better b a ≡ false
  pub cuts : (a b c : A) → better a c ≡ true → better a b ≡ false → better b c ≡ true
  pub same : (a b : A) → better a b ≡ false → better b a ≡ false → page a ≡ page b
  pub not_below :
      (h p : A) → Good h → Good p → page h ≡ page p → improves h p ≡ true → better p h ≡ false
  pub above :
      (h p : A) → Good h → Good p → page h ≡ page p → better h p ≡ true → improves h p ≡ true

pub some_injective {ℓ} : {A : Type ℓ} {a b : A} → some a ≡ some b → a ≡ b
some_injective h = cc

-- The laws that tie the comparisons to the scores.
pub record ScoreLaws {A : Type 0} (better improves : A → A → Bool) (score : A → Score)
    : Type 0 where
  pub ranks : (a b : A) → better a b ≡ true → place_of (score b) ≤ place_of (score a)
  pub worse : (h p : A) → improves h p ≡ true → place_of (score p) ≤ place_of (score h)

module _ {A : Type 0} (page : A → Bytes) (better improves : A → A → Bool) (Good : A → Type 0)
    (laws : Laws page better improves Good) where
  open laws use {asym, cuts, same}

  abbrev pub Absent : Bytes → List A → Type 0
  Absent key = All (λ x. page x ≢ key)

  abbrev pub Before : A → A → Type 0
  Before x y = (better x y ≡ true) × (page y ≢ page x)

  -- Strictly ordered, one hit of a page, and all `Good`.
  abbrev pub IsRanking : List A → Type 0
  IsRanking [] = Unit
  IsRanking (x ∷ xs) = Good x × All (Before x) xs × IsRanking xs

  pub better_trans : (a b c : A) → better a b ≡ true → better b c ≡ true → better a c ≡ true
  better_trans a b c ab bc = elim (Bool-cases (better a c)) [
    | inl yes' ↦ yes'
    | inr not_ac ↦ absurd (ground (arith, cuts a c b ab not_ac, asym b c bc))
  ]

  pub text_eq_ne : (s t : Bytes) → s ≢ t → text_eq s t ≡ false
  text_eq_ne s t h = elim (Bool-cases (text_eq s t)) [
    | inl e ↦ absurd (h (text_eq_sound s t e))
    | inr e ↦ e
  ]

  pub find_page-Absent : (key : Bytes) (xs : List A) → find_page page key xs ≡ none → Absent key xs
  find_page-Absent key [] h = tt
  find_page-Absent key (x ∷ xs) h = elim (Bool-cases (text_eq (page x) key)) [
    | inl e ↦ absurd (ground (arith, e))
    | inr e ↦ (
      λ same_key. absurd (ground (arith, e, text_eq_refl key, same_key)),
      find_page-Absent key xs (rw e at h),
    )
  ]

  pub page_cases :
      (x : A) (key : Bytes)
      → ((page x ≡ key) × (text_eq (page x) key ≡ true))
        ⊎ ((page x ≢ key) × (text_eq (page x) key ≡ false))
  page_cases x key = elim (Bool-cases (text_eq (page x) key)) [
    | inl e ↦ inl (text_eq_sound (page x) key e, e)
    | inr e ↦ inr ((λ same_key. absurd (ground (arith, e, text_eq_refl key, same_key))), e)
  ]

  pub find_page-page :
      (key : Bytes) (xs : List A) {p : A} → find_page page key xs ≡ some p → page p ≡ key
  find_page-page key [] h = absurd (cc)
  find_page-page key (x ∷ xs) h = elim (page_cases x key) [
    | inl (k, e) ↦ subst (λ q. page q ≡ key) (some_injective (rw e at h)) k
    | inr (k, e) ↦ find_page-page key xs (rw e at h)
  ]

  pub find_page-All {κ} :
      (P : A → Type κ) (key : Bytes) (xs : List A) {p : A}
      → All P xs
      → find_page page key xs ≡ some p
      → P p
  find_page-All P key [] a h = absurd (cc)
  find_page-All P key (x ∷ xs) (px, a) h = elim (page_cases x key) [
    | inl (k, e) ↦ subst P (some_injective (rw e at h)) px
    | inr (k, e) ↦ find_page-All P key xs a (rw e at h)
  ]

  pub erase-All {κ} :
      (P : A → Type κ) (key : Bytes) (xs : List A) → All P xs → All P (erase page key xs)
  unfolding erase
  erase-All P key [] a = tt
  erase-All P key (x ∷ xs) (px, a) = elim (page_cases x key) [
    | inl (k, e) ↦ rw e a
    | inr (k, e) ↦ rw e (px, erase-All P key xs a)
  ]

  pub place-All {κ} :
      (P : A → Type κ) (h : A) (xs : List A) → P h → All P xs → All P (place better h xs)
  place-All P h [] ph a = (ph, tt)
  place-All P h (x ∷ xs) ph (px, a) = elim (Bool-cases (better h x)) [
    | inl e ↦ rw e (ph, (px, a))
    | inr e ↦ rw e (px, place-All P h xs ph a)
  ]

  pub erase-Absent : (key : Bytes) (xs : List A) → IsRanking xs → Absent key (erase page key xs)
  unfolding erase
  erase-Absent key [] r = tt
  erase-Absent key (x ∷ xs) (g, b, r) = elim (page_cases x key) [
    | inl (k, e) ↦ rw e (All-map (λ y. λ c. λ same_key. c.1 (same_key ∙ sym k)) xs b)
    | inr (k, e) ↦ rw e (k, erase-Absent key xs r)
  ]

  pub erase-IsRanking : (key : Bytes) (xs : List A) → IsRanking xs → IsRanking (erase page key xs)
  unfolding erase
  erase-IsRanking key [] r = tt
  erase-IsRanking key (x ∷ xs) (g, b, r) = elim (page_cases x key) [
    | inl (k, e) ↦ rw e r
    | inr (k, e) ↦ rw e (g, erase-All (Before x) key xs b, erase-IsRanking key xs r)
  ]

  -- A hit that is not better than one of another page comes after it.
  pub beyond : (h x : A) → better h x ≡ false → page x ≢ page h → better x h ≡ true
  beyond h x e ne = elim (Bool-cases (better x h)) [
    | inl b ↦ b
    | inr b ↦ absurd (ne (same x h b e))
  ]

  -- The set insertion of a page that is not there is the insertion into the ranking.
  pub set_insert-place :
      (h : A) (xs : List A) → Absent (page h) xs → set_insert better h xs ≡ place better h xs
  unfolding set_insert
  set_insert-place h [] a = refl
  set_insert-place h (x ∷ xs) (ax, a) = elim (Bool-cases (better h x)) [
    | inl e ↦ rw e refl
    | inr e ↦ rw (e, beyond h x e ax) (ap (◌∷◌ x) (set_insert-place h xs a))
  ]

  pub is_new-Absent : (h : A) (xs : List A) → Absent (page h) xs → is_new better h xs ≡ true
  unfolding is_new
  is_new-Absent h [] a = refl
  is_new-Absent h (x ∷ xs) (ax, a) = elim (Bool-cases (better h x)) [
    | inl e ↦ rw e (is_new-Absent h xs a)
    | inr e ↦ rw (e, beyond h x e ax) (is_new-Absent h xs a)
  ]

  pub place-IsRanking :
      (h : A) (xs : List A)
      → Good h
      → Absent (page h) xs
      → IsRanking xs
      → IsRanking (place better h xs)
  place-IsRanking h [] gh a r = (gh, tt, tt)
  place-IsRanking h (x ∷ xs) gh (ax, a) (g, b, r) = elim (Bool-cases (better h x)) [
    | inl e ↦
        rw e
          (gh, ((e, ax), All-zip (λ y. λ c. λ d. (better_trans h x y e c.0, d)) xs b a), (g, b, r))
    | inr e ↦ rw e (
      g,
      place-All (Before x) h xs (beyond h x e ax, λ s. ax (sym s)) b,
      place-IsRanking h xs gh a r,
    )
  ]

  pub IsRanking-All : (xs : List A) → IsRanking xs → All Good xs
  IsRanking-All [] r = tt
  IsRanking-All (x ∷ xs) (g, b, r) = (g, IsRanking-All xs r)
