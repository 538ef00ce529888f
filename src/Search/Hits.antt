-- ===== src/Search/Hits.antt =====
-- The laws of the comparisons of hits.
use qbrain.Prelude.{
  ◌≡◌, refl, sym, ap, ◌∙◌, arith, Bool, true, false, not, ◌&&◌, ◌||◌, [], ◌∷◌, Bytes, text_less,
  text_less_total, text_eq, text_eq_sound, ltb, Bool-cases, inl, inr,
}
use qbrain.Prelude.Int.{ℤ, pos, negsuc, leb_ℤ}
use qbrain.Search.{SearchHit, place_of, result_identity, result_identity_less, better, improves}
use qbrain.Search.Order.{Laws, ScoreLaws, IsWeak}

-- By one order, then by another.
abbrev lex : {A : Type 0} → (A → A → Bool) → (A → A → Bool) → A → A → Bool
lex f g a b = f a b || not (f b a) && g a b

lex-IsWeak : {A : Type 0} (f g : A → A → Bool) → IsWeak f → IsWeak g → IsWeak (lex f g)
lex-IsWeak f g hf hg = record {
  asym = λ a b e. ground (arith, hf.asym a b, hf.asym b a, hg.asym a b);
  cuts = λ a b c e n. ground (
    arith,
    hf.cuts a b c,
    hf.cuts b c a,
    hf.cuts c a b,
    hf.asym a b,
    hf.asym b a,
    hf.asym a c,
    hf.asym c a,
    hf.asym b c,
    hf.asym c b,
    hg.cuts a b c,
  );
}

text_less-asym : (s t : Bytes) → text_less s t ≡ true → text_less t s ≡ false
unfolding text_less
text_less-asym [] [] e = refl
text_less-asym [] (b ∷ t) e = refl
text_less-asym (a ∷ s) [] e = absurd (cc)
text_less-asym (a ∷ s) (b ∷ t) e = ground (arith, text_less-asym s t)

text_less-cuts :
    (s t u : Bytes) → text_less s u ≡ true → text_less s t ≡ false → text_less t u ≡ true
unfolding text_less
text_less-cuts [] [] u e n = e
text_less-cuts [] (b ∷ t) u e n = absurd (cc)
text_less-cuts (a ∷ s) t [] e n = absurd (cc)
text_less-cuts (a ∷ s) [] (c ∷ u) e n = refl
text_less-cuts (a ∷ s) (b ∷ t) (c ∷ u) e n = ground (arith, text_less-cuts s t u)

-- The three parts of `result_identity_less` and the score, as orders of hits.
abbrev by_source : SearchHit → SearchHit → Bool
by_source a b = text_less a.source_id b.source_id

abbrev by_slug : SearchHit → SearchHit → Bool
by_slug a b = text_less a.slug b.slug

abbrev by_id : SearchHit → SearchHit → Bool
by_id a b = not (leb_ℤ b.page_id a.page_id)

abbrev by_score : SearchHit → SearchHit → Bool
by_score a b = ltb (place_of b.score) (place_of a.score)

keys-IsWeak : IsWeak (lex by_source (lex by_slug by_id))
keys-IsWeak =
    lex-IsWeak by_source (lex by_slug by_id)
      (record {
        asym = λ a b. text_less-asym a.source_id b.source_id;
        cuts = λ a b c. text_less-cuts a.source_id b.source_id c.source_id;
      })
      (lex-IsWeak by_slug by_id
        (record {
          asym = λ a b. text_less-asym a.slug b.slug;
          cuts = λ a b c. text_less-cuts a.slug b.slug c.slug;
        })
        (record { asym = λ a b e. ground arith; cuts = λ a b c e n. ground arith }))

better-lex : (a b : SearchHit) → better a b ≡ lex by_score (lex by_source (lex by_slug by_id)) a b
unfolding better result_identity_less
better-lex a b = ground arith

better-IsWeak : IsWeak (lex by_score (lex by_source (lex by_slug by_id)))
better-IsWeak =
    lex-IsWeak by_score (lex by_source (lex by_slug by_id))
      (record { asym = λ a b e. ground arith; cuts = λ a b c e n. ground arith }) keys-IsWeak

-- Do two hits have the same fields that identify a page?
abbrev pub SamePage : SearchHit → SearchHit → Type 0
SamePage a b = (a.source_id ≡ b.source_id) × (a.slug ≡ b.slug) × (a.page_id ≡ b.page_id)

text_equal : (s t : Bytes) → text_less s t ≡ false → text_less t s ≡ false → s ≡ t
text_equal s t e n = elim (Bool-cases (text_eq s t)) [
  | inl same ↦ text_eq_sound s t same
  | inr other ↦ absurd (ground (arith, text_less_total s t other n))
]

id_equal : (a b : ℤ) → leb_ℤ a b ≡ true → leb_ℤ b a ≡ true → a ≡ b
id_equal (pos a) (pos b) e n = ap pos (ground arith)
id_equal (pos a) (negsuc b) e n = absurd (ground arith)
id_equal (negsuc a) (pos b) e n = absurd (ground arith)
id_equal (negsuc a) (negsuc b) e n = ap negsuc (ground arith)

identity-same : (a b : SearchHit) → SamePage a b → result_identity a ≡ result_identity b
identity-same a b (s, l, i) = rw (s, l, i) refl

better-same :
    (a b : SearchHit)
    → better a b ≡ false
    → better b a ≡ false
    → result_identity a ≡ result_identity b
unfolding better result_identity_less
better-same a b e n = identity-same a b (
  text_equal a.source_id b.source_id (ground arith) (ground arith),
  text_equal a.slug b.slug (ground arith) (ground arith),
  id_equal a.page_id b.page_id (ground arith) (ground arith),
)

-- A hit is not below one with the same fields.
less-same : (a b : SearchHit) → SamePage a b → result_identity_less a b ≡ false
unfolding result_identity_less
less-same a b (s, l, i) =
    let self = λ (t : Bytes) (e : text_less t t ≡ true). text_less-asym t t e in
    rw (s, l, i) (ground (arith, self b.source_id, self b.slug))

-- The hits of one database: the identity of a page determines its fields.
abbrev pub Consistent : (Bytes → SearchHit) → SearchHit → Type 0
Consistent home a = SamePage a (home (result_identity a))

meet :
    (home : Bytes → SearchHit) (a b : SearchHit)
    → Consistent home a
    → Consistent home b
    → result_identity a ≡ result_identity b
    → SamePage a b
meet home a b (s, l, i) (s', l', i') e = (
  s ∙ ap (λ k. (home k).source_id) e ∙ sym s',
  l ∙ ap (λ k. (home k).slug) e ∙ sym l',
  i ∙ ap (λ k. (home k).page_id) e ∙ sym i',
)

pub hit_laws : (home : Bytes → SearchHit) → Laws result_identity better improves (Consistent home)
unfolding better improves
hit_laws home = record {
  asym = λ a b e. better-lex b a ∙ better-IsWeak.asym a b (sym (better-lex a b) ∙ e);
  cuts = λ a b c e n.
      better-lex b c
      ∙ better-IsWeak.cuts a b c (sym (better-lex a c) ∙ e) (sym (better-lex a b) ∙ n);
  same = better-same;
  not_below =
      λ h p gh gp e i. let same = meet home p h gp gh (sym e) in ground (arith, less-same p h same);
  above = λ h p gh gp e b. let same = meet home h p gh gp e in ground (arith, less-same h p same);
}

pub hit_scores : ScoreLaws better improves (λ h. h.score)
unfolding better improves
hit_scores = record { ranks = λ a b e. ground arith; worse = λ h p e. ground arith }

improves-lex :
    (a b : SearchHit) → improves a b ≡ lex by_score (λ x y. text_less x.snippet y.snippet) a b
unfolding improves
improves-lex a b = ground arith

snippet_order-IsWeak : IsWeak (lex by_score (λ x y. text_less x.snippet y.snippet))
snippet_order-IsWeak =
    lex-IsWeak by_score (λ x y. text_less x.snippet y.snippet)
      (record { asym = λ a b e. ground arith; cuts = λ a b c e n. ground arith })
      (record {
        asym = λ a b. text_less-asym a.snippet b.snippet;
        cuts = λ a b c. text_less-cuts a.snippet b.snippet c.snippet;
      })

pub improves-IsWeak : IsWeak improves
improves-IsWeak = record {
  asym = λ a b e. improves-lex b a ∙ snippet_order-IsWeak.asym a b (sym (improves-lex a b) ∙ e);
  cuts = λ a b c e n.
      improves-lex b c
      ∙ snippet_order-IsWeak.cuts a b c (sym (improves-lex a c) ∙ e) (sym (improves-lex a b) ∙ n);
}
