-- ===== src/Utf8/Valid.antt =====
-- `valid_utf8` accepts the encodings of sequences of scalar values, and nothing else.
use mathlib.Core.Path.{subst}
use qbrain.Prelude.{
  ℕ, zero, suc, ◌≤◌, ◌≡◌, inl, inr, refl, ap, ◌∙◌, ◌↔◌, Bytes, true, List, [], ◌∷◌, ◌++◌, length,
  take, drop, All, Bool-cases, ◌==◌, arith, length-append, take-append-drop,
}
use qbrain.Utf8.{utf8_scalar_size, valid_from, valid_utf8}
use qbrain.Utf8.Scalars.{IsScalar, encode, decode, utf8_scalar_size-encode, utf8_scalar_size_sound}

-- The text that spells a sequence of scalar values.
unfoldable pub encode_all : List ℕ → Bytes
encode_all [] = []
encode_all (cp ∷ cps) = encode cp ++ encode_all cps

abbrev pub Scalars : List ℕ → Type 0
Scalars = All IsScalar

-- A text is well formed if it spells some sequence of scalar values.
unfoldable pub IsText : Bytes → Type 0
IsText s = (cps : List ℕ) × Scalars cps × (encode_all cps ≡ s)

pub encode-length : (cp : ℕ) → (1 ≤ length (encode cp)) × (length (encode cp) ≤ 4)
unfolding encode
encode-length cp = ground arith

pub utf8_scalar_size-le : (s : Bytes) → utf8_scalar_size s ≤ length s
unfolding utf8_scalar_size
utf8_scalar_size-le [] = omega arith
utf8_scalar_size-le (a ∷ []) = ground arith
utf8_scalar_size-le (a ∷ b ∷ []) = ground arith
utf8_scalar_size-le (a ∷ b ∷ c ∷ []) = ground arith
utf8_scalar_size-le (a ∷ b ∷ c ∷ d ∷ r) = ground arith

pub drop-append : (p rest : Bytes) → drop (length p) (p ++ rest) ≡ rest
drop-append [] rest = refl
drop-append (a ∷ p) rest = drop-append p rest

pub take-append : (p rest : Bytes) → take (length p) (p ++ rest) ≡ p
take-append [] rest = refl
take-append (a ∷ p) rest = ap (◌∷◌ a) (take-append p rest)

-- One round of the loop at a character.
valid_step :
    (fuel : ℕ) (u rest : Bytes)
    → 1 ≤ length u
    → utf8_scalar_size (u ++ rest) ≡ length u
    → valid_from (suc fuel) (u ++ rest) ≡ valid_from fuel rest
unfolding valid_from
valid_step fuel [] rest pos e = absurd (omega arith)
valid_step fuel (a ∷ p) rest pos e = rw (e, drop-append p rest) (ground arith)

valid_from-encode_all :
    (cps : List ℕ) (fuel : ℕ)
    → Scalars cps
    → length (encode_all cps) ≤ fuel
    → valid_from fuel (encode_all cps) ≡ true
unfolding encode_all
valid_from-encode_all [] zero h f = unfold valid_from in refl
valid_from-encode_all [] (suc fuel) h f = unfold valid_from in refl
valid_from-encode_all (cp ∷ cps) zero (h, hs) f =
    absurd (omega (arith, length-append (encode cp) (encode_all cps), encode-length cp))
valid_from-encode_all (cp ∷ cps) (suc fuel) (h, hs) f =
    valid_step fuel (encode cp) (encode_all cps) (encode-length cp).0
      (utf8_scalar_size-encode cp (encode_all cps) h)
    ∙ valid_from-encode_all cps fuel hs
        (omega (arith, length-append (encode cp) (encode_all cps), encode-length cp))

-- Every sequence of scalar values, encoded, is accepted.
pub valid_utf8-encode_all : (cps : List ℕ) → Scalars cps → valid_utf8 (encode_all cps) ≡ true
unfolding valid_utf8
valid_utf8-encode_all cps h = valid_from-encode_all cps (length (encode_all cps)) h (omega arith)

IsText-cons :
    (u rest : Bytes) (cp : ℕ) → IsScalar cp → encode cp ≡ u → IsText rest → IsText (u ++ rest)
unfolding IsText encode_all
IsText-cons u rest cp h e (cps, hs, es) = (cp ∷ cps, (h, hs), rw (e, es))

valid_from_sound : (fuel : ℕ) (s : Bytes) → valid_from fuel s ≡ true → IsText s
unfolding valid_from
valid_from_sound zero [] h = unfold IsText encode_all in ([], tt, refl)
valid_from_sound zero (a ∷ s) h = absurd (cc)
valid_from_sound (suc fuel) [] h = unfold IsText encode_all in ([], tt, refl)
valid_from_sound (suc fuel) (a ∷ s) h = elim (Bool-cases (utf8_scalar_size (a ∷ s) == 0)) [
  | inl bad ↦ absurd (ground arith)
  | inr good ↦
      let n = utf8_scalar_size (a ∷ s) in
      let (scalar, e) = utf8_scalar_size_sound (a ∷ s) (λ z. ground arith) in
      rw (← take-append-drop n (a ∷ s)) (
        IsText-cons (take n (a ∷ s)) (drop n (a ∷ s)) (decode (take n (a ∷ s))) scalar e
          (valid_from_sound fuel (drop n (a ∷ s)) (ground arith)))
]

-- What is accepted is the encoding of a sequence of scalar values.
pub valid_utf8_sound : (s : Bytes) → valid_utf8 s ≡ true → IsText s
unfolding valid_utf8
valid_utf8_sound s = valid_from_sound (length s) s

-- The validator is true exactly of the texts that are sequences of encoded Unicode scalar values.
pub valid_utf8_iff : (s : Bytes) → (valid_utf8 s ≡ true) ↔ IsText s
unfolding IsText
valid_utf8_iff s = (
  valid_utf8_sound s,
  λ (cps, hs, e). subst (λ t. valid_utf8 t ≡ true) e (valid_utf8-encode_all cps hs),
)
