-- ===== src/Jobs/Display.antt =====
-- The UTF-8 scanner of minions.cpp against that of util/utf8_display.hpp.
use native.Mathlib.Decide.{dec_lt}
use qbrain.Prelude.{
  Bool, if◌then◌else◌, ℕ, zero, suc, ◌≤◌, ◌<◌, ◌≡◌, refl, Bytes, IsByteText, ◌||◌, true, false, [],
  ◌∷◌, ◌++◌, length, get_or, take, drop, ◌==◌, arith, Bool-cases, inl, inr, length-append,
  length-take, codes, map, any, contains,
}
use qbrain.Utf8.{
  utf8_scalar_size, valid_utf8, valid_from, utf8_excerpt, copy_from, finish_excerpt, replacement,
}
use qbrain.Utf8.Mask.{mask_cont}
use qbrain.Utf8.Excerpt.{utf8_excerpt_bound, utf8_excerpt-valid_utf8}
use qbrain.Jobs.Text.{
  utf8_sequence_length, is_valid_from, is_valid_utf8, bounded_from, bounded_utf8,
  safe_progress_error, secret_markers, has_bare_secret_key, lower_ascii,
}

get_or_byte : (s : Bytes) (k : ℕ) → IsByteText s → get_or s k 0 < 256
get_or_byte [] k h = omega arith
get_or_byte (c ∷ s) zero h = h.0
get_or_byte (c ∷ s) (suc k) h = get_or_byte s k h.1

IsByteText-drop : (n : ℕ) (s : Bytes) → IsByteText s → IsByteText (drop n s)
IsByteText-drop zero s h = h
IsByteText-drop (suc n) [] h = tt
IsByteText-drop (suc n) (c ∷ s) h = IsByteText-drop n s h.1

-- On a text of bytes that is not empty, both scanners find the same width of the first character.
pub utf8_sequence_length_lem :
    (c : ℕ) (s : Bytes)
    → IsByteText (c ∷ s)
    → utf8_sequence_length (c ∷ s) ≡ utf8_scalar_size (c ∷ s)
unfolding utf8_sequence_length utf8_scalar_size
utf8_sequence_length_lem c s h =
    let m = λ (k : ℕ). mask_cont (get_or (c ∷ s) k 0) (get_or_byte (c ∷ s) k h) in
    rw (m 1, m 2, m 3)
      (elim (dec_lt c 0x80) [
        | yes b10 ↦ ground arith
        | no b10 ↦ elim (dec_lt c 0xc2) [
          | yes b9 ↦ ground arith
          | no b9 ↦ elim (dec_lt c 0xe0) [
            | yes b8 ↦ ground arith
            | no b8 ↦ elim (dec_lt c 0xe1) [
              | yes b7 ↦ ground arith
              | no b7 ↦ elim (dec_lt c 0xed) [
                | yes b6 ↦ ground arith
                | no b6 ↦ elim (dec_lt c 0xee) [
                  | yes b5 ↦ ground arith
                  | no b5 ↦ elim (dec_lt c 0xf0) [
                    | yes b4 ↦ ground arith
                    | no b4 ↦ elim (dec_lt c 0xf1) [
                      | yes b3 ↦ ground arith
                      | no b3 ↦ elim (dec_lt c 0xf4) [
                        | yes b2 ↦ ground arith
                        | no b2 ↦ elim (dec_lt c 0xf5) [
                          | yes b1 ↦ ground arith
                          | no b1 ↦ ground arith
                        ]
                      ]
                    ]
                  ]
                ]
              ]
            ]
          ]
        ]
      ])

is_valid_from_lem : (fuel : ℕ) (s : Bytes) → IsByteText s → is_valid_from fuel s ≡ valid_from fuel s
unfolding is_valid_from valid_from
is_valid_from_lem zero s h = refl
is_valid_from_lem (suc fuel) [] h = refl
is_valid_from_lem (suc fuel) (c ∷ s) h = rw (utf8_sequence_length_lem c s h) (
    ground (
      arith,
      is_valid_from_lem fuel (drop (utf8_scalar_size (c ∷ s)) (c ∷ s))
          (IsByteText-drop _ (c ∷ s) h),
    ))

-- On any text of bytes the validator of the job queue and that of the display helper agree.
pub is_valid_utf8-valid_utf8 : (s : Bytes) → IsByteText s → is_valid_utf8 s ≡ valid_utf8 s
unfolding is_valid_utf8 valid_utf8
is_valid_utf8-valid_utf8 s h = is_valid_from_lem (length s) s h

bounded_from_lem :
    (fuel : ℕ) (s out : Bytes)
    → IsByteText s
    → length out ≤ 500
    → bounded_from fuel s out ≡ (copy_from 500 fuel s out).0
unfolding bounded_from copy_from
bounded_from_lem zero s out h le = refl
bounded_from_lem (suc fuel) [] out h le = refl
bounded_from_lem (suc fuel) (c ∷ s) out h le = elim (Bool-cases (n == 0)) [
  | inl bad ↦
      rw (same, bad)
        (ground
          (arith, bounded_from_lem fuel s (out ++ replacement) h.1, length-append out replacement))
  | inr good ↦
      rw (same, good)
        (ground (
          arith,
          bounded_from_lem fuel (drop n (c ∷ s)) (out ++ take n (c ∷ s))
              (IsByteText-drop n (c ∷ s) h),
          length-append out (take n (c ∷ s)),
          length-take n (c ∷ s),
        ))
]
  where
    n : ℕ
    n = utf8_scalar_size (c ∷ s)

    same : utf8_sequence_length (c ∷ s) ≡ n
    same = utf8_sequence_length_lem c s h

-- On any text of bytes the bounded copy that the queue stores is the excerpt of 500 bytes without a
-- mark.
pub bounded_utf8-utf8_excerpt :
    (s : Bytes) → IsByteText s → bounded_utf8 s ≡ utf8_excerpt s 500 false
unfolding bounded_utf8 utf8_excerpt finish_excerpt
bounded_utf8-utf8_excerpt s h = bounded_from_lem (length s) s [] h (omega arith)

redacted_valid : valid_utf8 (codes "[redacted]") ≡ true
unfolding valid_utf8 utf8_scalar_size
redacted_valid = refl

-- May the text hold a secret?
abbrev pub looks_secret : Bytes → Bool
looks_secret s =
    any (contains (map lower_ascii s)) secret_markers || has_bare_secret_key (map lower_ascii s)

-- Of any text of bytes, what is shown of an error is at most 500 bytes of well-formed UTF-8: the
-- word "[redacted]" if the lower-case text has a marker of a secret or a bare key, and otherwise the
-- excerpt of 500 bytes.
pub safe_progress_error_safe :
    (s : Bytes)
    → IsByteText s
    → (length (safe_progress_error s) ≤ 500)
      × (valid_utf8 (safe_progress_error s) ≡ true)
      × (safe_progress_error s
          ≡ (if looks_secret s then codes "[redacted]" else utf8_excerpt s 500 false))
unfolding safe_progress_error
safe_progress_error_safe s h =
    elim (Bool-cases (any (contains (map lower_ascii s)) secret_markers)) [
      | inl hit ↦ rw hit (omega arith, redacted_valid, refl)
      | inr clean ↦ elim (Bool-cases (has_bare_secret_key (map lower_ascii s))) [
        | inl hit ↦ rw (clean, hit) (omega arith, redacted_valid, refl)
        | inr safe ↦
            rw (clean, safe, bounded_utf8-utf8_excerpt s h)
              (utf8_excerpt_bound s 500 false, utf8_excerpt-valid_utf8 s 500 false, refl)
      ]
    ]
