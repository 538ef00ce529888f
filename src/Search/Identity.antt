-- ===== src/Search/Identity.antt =====
-- include/qbrain/search/result_identity.hpp: no two pages have the same identity.
use mathlib.Core.Path.{subst}
use qbrain.Prelude.{
  ℕ, ◌<◌, ◌^◌, ◌≡◌, refl, sym, ap, ◌∙◌, arith, true, false, ◌⊎◌, inl, inr, [], ◌∷◌, ◌++◌, Bytes,
  length, drop, All, Bool-cases, to_string, IsDigit, digits_of-All, value, value-digits_of,
}
use qbrain.Prelude.Int.{ℤ, pos, negsuc, pos_part}
use qbrain.Search.{SearchHit, is_positive, identity_of, result_identity}

abbrev first_of : ℕ → Bytes → ℕ
first_of d [] = d
first_of d (c ∷ s) = c

abbrev rest_of : Bytes → Bytes
rest_of [] = []
rest_of (c ∷ s) = s

∷-injective : {a b : ℕ} {s t : Bytes} → a ∷ s ≡ b ∷ t → (a ≡ b) × (s ≡ t)
∷-injective {a} h = (ap (first_of a) h, ap rest_of h)

to_string-injective : (m n : ℕ) → m < 10 ^ 20 → n < 10 ^ 20 → to_string m ≡ to_string n → m ≡ n
unfolding to_string
to_string-injective m n hm hn e =
    sym (value-digits_of 20 m hm) ∙ ap (value 0) e ∙ value-digits_of 20 n hn

-- Digits end at the first colon.
split_colon :
    (s t u v : Bytes)
    → All IsDigit s
    → All IsDigit t
    → s ++ (b':' ∷ u) ≡ t ++ (b':' ∷ v)
    → (s ≡ t) × (u ≡ v)
split_colon [] [] u v _ _ e = (refl, (∷-injective e).1)
split_colon [] (d ∷ t) u v _ (hd, ht) e =
    let same = (∷-injective e).0 in absurd (ground (arith, subst IsDigit (sym same) hd))
split_colon (c ∷ s) [] u v (hc, hs) _ e =
    let same = (∷-injective e).0 in absurd (ground (arith, subst IsDigit same hc))
split_colon (c ∷ s) (d ∷ t) u v (hc, hs) (hd, ht) e =
    let (head, tail) = ∷-injective e in
    let (same, rest) = split_colon s t u v hs ht tail in (rw (head, same) refl, rest)

-- Texts of the same length end at the same place.
split_length : (s t u v : Bytes) → length s ≡ length t → s ++ u ≡ t ++ v → (s ≡ t) × (u ≡ v)
split_length [] [] u v l e = (refl, e)
split_length [] (d ∷ t) u v l e = absurd (omega arith)
split_length (c ∷ s) [] u v l e = absurd (omega arith)
split_length (c ∷ s) (d ∷ t) u v l e =
    let (head, tail) = ∷-injective e in
    let (same, rest) = split_length s t u v (omega arith) tail in (rw (head, same) refl, rest)

framed-injective :
    (s t u v : Bytes)
    → length s < 2 ^ 64
    → length t < 2 ^ 64
    → to_string (length s) ++ (b':' ∷ s ++ u) ≡ to_string (length t) ++ (b':' ∷ t ++ v)
    → (s ≡ t) × (u ≡ v)
unfolding to_string
framed-injective s t u v hs ht e =
    let (digits, rest) =
      split_colon (to_string (length s)) (to_string (length t)) (s ++ u) (t ++ v)
        (digits_of-All 20 (length s)) (digits_of-All 20 (length t)) e in
    split_length s t u v
      (to_string-injective (length s) (length t) (omega arith) (omega arith) digits) rest

id_of_positive :
    (a b : ℤ) → is_positive a ≡ true → is_positive b ≡ true → pos_part a ≡ pos_part b → a ≡ b
id_of_positive (pos a) (pos b) ha hb e = ap pos e
id_of_positive (pos a) (negsuc b) ha hb e = absurd (ground arith)
id_of_positive (negsuc a) b ha hb e = absurd (ground arith)

-- Hits of 64-bit ids and of sources of less than 2^64 bytes have the same identity only if both
-- have the same positive id, or both have none and the same source and slug.
pub result_identity-injective :
    (a b : SearchHit)
    → pos_part a.page_id < 2 ^ 63
    → pos_part b.page_id < 2 ^ 63
    → length a.source_id < 2 ^ 64
    → length b.source_id < 2 ^ 64
    → result_identity a ≡ result_identity b
    → ((is_positive a.page_id ≡ true) × (a.page_id ≡ b.page_id))
      ⊎ ((is_positive a.page_id ≡ false)
          × (is_positive b.page_id ≡ false)
          × (a.source_id ≡ b.source_id)
          × (a.slug ≡ b.slug))
unfolding identity_of
result_identity-injective a b ia ib sa sb e = elim (Bool-cases (is_positive a.page_id)) [
  | inl pa ↦ elim (Bool-cases (is_positive b.page_id)) [
    | inl pb ↦
        let same = ap (drop 3) (rw (pa, pb) at e) in
        inl (
          pa,
          id_of_positive a.page_id b.page_id pa pb (
              to_string-injective (pos_part a.page_id) (pos_part b.page_id) (omega arith)
                (omega arith) same),
        )
    | inr pb ↦
        let heads : 105 ≡ 115 = ap (first_of 0) (rw (pa, pb) at e) in absurd (omega (arith, heads))
  ]
  | inr pa ↦ elim (Bool-cases (is_positive b.page_id)) [
    | inl pb ↦
        let heads : 115 ≡ 105 = ap (first_of 0) (rw (pa, pb) at e) in absurd (omega (arith, heads))
    | inr pb ↦
        let (source, slug) =
          framed-injective a.source_id b.source_id a.slug b.slug sa sb
            (ap (drop 5) (rw (pa, pb) at e)) in
        inr (pa, pb, source, slug)
  ]
]
