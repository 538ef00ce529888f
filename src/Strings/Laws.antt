-- ===== src/Strings/Laws.antt =====
-- What splitting a text and making a slug return.
use qbrain.Prelude.{
  ℕ, suc, ◌≤◌, ◌≡◌, refl, ◌&&◌, ◌||◌, Bool, true, false, not, List, [], ◌∷◌, ◌++◌, Bytes, length,
  count, is_empty, ◌==◌, leb, in_range, arith, All, Bool-cases, inl, inr,
}
use qbrain.Strings.{split, add_to_first, slugify, slug_from, trim_back, or_untitled, is_alnum}

-- The pieces with the delimiter between each two.
unfoldable pub join : ℕ → List Bytes → Bytes
join delim [] = []
join delim (piece ∷ []) = piece
join delim (piece ∷ next ∷ pieces) = piece ++ (delim ∷ join delim (next ∷ pieces))

join-add_to_first :
    (delim c : ℕ) (pieces : List Bytes) → join delim (add_to_first c pieces) ≡ c ∷ join delim pieces
unfolding join
join-add_to_first delim c [] = refl
join-add_to_first delim c (piece ∷ []) = refl
join-add_to_first delim c (piece ∷ next ∷ pieces) = refl

join-nil :
    (delim : ℕ) (pieces : List Bytes)
    → 1 ≤ length pieces
    → join delim ([] ∷ pieces) ≡ delim ∷ join delim pieces
unfolding join
join-nil delim [] h = absurd (omega arith)
join-nil delim (piece ∷ pieces) h = refl

length-add_to_first :
    (c : ℕ) (pieces : List Bytes)
    → 1 ≤ length pieces
    → length (add_to_first c pieces) ≡ length pieces
length-add_to_first c [] h = absurd (omega arith)
length-add_to_first c (piece ∷ pieces) h = refl

length-split : (delim : ℕ) (s : Bytes) → length (split delim s) ≡ suc (count (λ c. c == delim) s)
unfolding split
length-split delim [] = refl
length-split delim (c ∷ s) = elim (Bool-cases (c == delim)) [
  | inl hit ↦ rw (hit, length-split delim s) refl
  | inr miss ↦
      rw (miss, length-add_to_first c (split delim s) (omega (arith, length-split delim s)))
        (length-split delim s)
]

join-split : (delim : ℕ) (s : Bytes) → join delim (split delim s) ≡ s
unfolding split
join-split delim [] = unfold join in refl
join-split delim (c ∷ s) = elim (Bool-cases (c == delim)) [
  | inl hit ↦
      rw
        (
          hit,
          join-nil delim (split delim s) (omega (arith, length-split delim s)),
          join-split delim s,
        )
        (ground arith)
  | inr miss ↦ rw (miss, join-add_to_first delim c (split delim s), join-split delim s) refl
]

add_to_first-All :
    (delim c : ℕ) (pieces : List Bytes)
    → (c == delim) ≡ false
    → All (All (λ x. (x == delim) ≡ false)) pieces
    → All (All (λ x. (x == delim) ≡ false)) (add_to_first c pieces)
add_to_first-All delim c [] h hs = ((h, tt), tt)
add_to_first-All delim c (piece ∷ pieces) h (p, hs) = ((h, p), hs)

split-All : (delim : ℕ) (s : Bytes) → All (All (λ x. (x == delim) ≡ false)) (split delim s)
unfolding split
split-All delim [] = (tt, tt)
split-All delim (c ∷ s) = elim (Bool-cases (c == delim)) [
  | inl hit ↦ rw hit (tt, split-All delim s)
  | inr miss ↦ rw miss (add_to_first-All delim c (split delim s) miss (split-All delim s))
]

-- Splitting a text gives pieces without the delimiter, one more than it occurs, that joined by the
-- delimiter are the text.
pub split-join :
    (delim : ℕ) (s : Bytes)
    → (join delim (split delim s) ≡ s)
      × (length (split delim s) ≡ suc (count (λ c. c == delim) s))
      × All (All (λ x. (x == delim) ≡ false)) (split delim s)
split-join delim s = (join-split delim s, length-split delim s, split-All delim s)

-- A byte of a slug: a small letter, a digit, a byte of a longer character, or a dash.
abbrev pub is_slug_byte : ℕ → Bool
is_slug_byte c = in_range b'a' b'z' c || in_range b'0' b'9' c || leb 0x80 c || c == b'-'

slug_from-All :
    (dash started : Bool) (s : Bytes) → All (λ c. is_slug_byte c ≡ true) (slug_from dash started s)
unfolding slug_from
slug_from-All dash started [] = tt
slug_from-All dash started (c ∷ s) = elim (Bool-cases (is_alnum c)) [
  | inl letter ↦ rw letter (ground arith, slug_from-All false true s)
  | inr other ↦ rw other (elim (Bool-cases (leb 0x80 c)) [
    | inl long ↦ rw long (ground arith, slug_from-All false true s)
    | inr short ↦ rw short (elim (Bool-cases (not dash && started)) [
      | inl first ↦ rw first (refl, slug_from-All true true s)
      | inr skip ↦ rw skip (slug_from-All dash started s)
    ])
  ])
]

trim_back-All :
    (test : ℕ → Bool) (s : Bytes)
    → All (λ c. is_slug_byte c ≡ true) s
    → All (λ c. is_slug_byte c ≡ true) (trim_back test s)
trim_back-All test [] h = tt
trim_back-All test (c ∷ s) (h, hs) = elim (Bool-cases (test c && is_empty (trim_back test s))) [
  | inl gone ↦ rw gone tt
  | inr kept ↦ rw kept (h, trim_back-All test s hs)
]

or_untitled-All :
    (s : Bytes)
    → All (λ c. is_slug_byte c ≡ true) s
    → (is_empty (or_untitled s) ≡ false) × All (λ c. is_slug_byte c ≡ true) (or_untitled s)
or_untitled-All [] h = (refl, ground arith)
or_untitled-All (c ∷ s) h = (refl, h)

-- Whatever the title, its slug is not empty and has only small letters, digits, dashes and the bytes
-- of longer characters.
pub slugify-All :
    (title : Bytes)
    → (is_empty (slugify title) ≡ false) × All (λ c. is_slug_byte c ≡ true) (slugify title)
unfolding slugify
slugify-All title = or_untitled-All _ (trim_back-All _ _ (slug_from-All false false title))
