-- ===== src/Utf8/Prefix.antt =====
-- What `utf8_excerpt` copies of well-formed text.
use mathlib.Core.Path.{subst}
use qbrain.Prelude.{
  ℕ, zero, suc, ◌+◌, ◌-◌, ◌≤◌, ◌<◌, ◌≡◌, ◌⊎◌, inl, inr, refl, sym, ap, ◌∙◌, Bytes, Bool, true,
  false, List, [], ◌∷◌, ◌++◌, append_assoc, append-nil, length, Bool-cases, ◌==◌, arith,
  length-append, if◌then◌else◌, ltb,
}
use qbrain.Utf8.{utf8_scalar_size, valid_utf8, utf8_excerpt, copy_from, finish_excerpt}
use qbrain.Utf8.Scalars.{IsScalar, encode, utf8_scalar_size-encode}
use qbrain.Utf8.Valid.{
  Scalars, IsText, encode_all, encode-length, valid_utf8_sound, valid_utf8_iff, take-append,
  drop-append,
}
use qbrain.Utf8.Excerpt.{utf8_excerpt_bound, utf8_excerpt-valid_utf8}

-- The first loop on well-formed text: it stops at the end of the text, or before a character that
-- does not fit.
abbrev pub Stops : ℕ → Bytes → Bytes × Bytes → Type 0
Stops m text (out, unread) =
    (out ++ unread ≡ text)
    × ((unread ≡ [])
        ⊎ ((cp : ℕ) × (rest : Bytes) × IsScalar cp
            × (unread ≡ encode cp ++ rest)
            × (m < length out + length (encode cp))))

-- The prefix of whole characters that fits and that the next character would make too long.
abbrev pub LongestPrefix : ℕ → Bytes → Bytes → Type 0
LongestPrefix m text out =
    (unread : Bytes) × Stops m text (out, unread) × IsText out × (length out ≤ m)

suc_eq_zero : (n : ℕ) → (suc n == 0) ≡ false
suc_eq_zero n = ground arith

copy_step :
    (m fuel : ℕ) (u rest out : Bytes)
    → 1 ≤ length u
    → utf8_scalar_size (u ++ rest) ≡ length u
    → copy_from m (suc fuel) (u ++ rest) out ≡ (
        if ltb (m - length out) (length u)
        then (out, u ++ rest)
        else copy_from m fuel rest (out ++ u))
unfolding copy_from
copy_step m fuel [] rest out pos e = absurd (omega arith)
copy_step m fuel (a ∷ p) rest out pos e =
    rw (e, suc_eq_zero (length p), drop-append p rest, take-append p rest)

copy_from-Stops :
    (m fuel : ℕ) (cps : List ℕ) (out : Bytes)
    → Scalars cps
    → length (encode_all cps) ≤ fuel
    → length out ≤ m
    → Stops m (out ++ encode_all cps) (copy_from m fuel (encode_all cps) out)
unfolding encode_all
copy_from-Stops m zero [] out h f b = unfold copy_from in (refl, inl refl)
copy_from-Stops m (suc fuel) [] out h f b = unfold copy_from in (refl, inl refl)
copy_from-Stops m zero (cp ∷ cps) out (h, hs) f b =
    absurd (omega (arith, length-append (encode cp) (encode_all cps), encode-length cp))
copy_from-Stops m (suc fuel) (cp ∷ cps) out (h, hs) f b =
    let u = encode cp in
    let rest = encode_all cps in
    let size = utf8_scalar_size-encode cp rest h in
    let longer = length-append u rest in
    let positive = encode-length cp in
    rw (copy_step m fuel u rest out positive.0 size)
      (elim (Bool-cases (ltb (m - length out) (length u))) [
        | inl full ↦ rw full (refl, inr (cp, rest, h, refl, ground arith))
        | inr room ↦ rw room (
            subst (λ t. Stops m t (copy_from m fuel rest (out ++ u))) (append_assoc out u rest)
              (copy_from-Stops m fuel cps (out ++ u) hs (omega arith)
                (ground (arith, length-append out u))))
      ])

unmarked-Stops :
    (s : Bytes) (m : ℕ)
    → valid_utf8 s ≡ true
    → (unread : Bytes) × Stops m s (utf8_excerpt s m false, unread)
unfolding utf8_excerpt finish_excerpt IsText
unmarked-Stops s m h =
    let (cps, hs, e) = valid_utf8_sound s h in
    (
      (copy_from m (length s) s []).1,
      subst (λ t. Stops m t (copy_from m (length t) t [])) e
          (copy_from-Stops m (length (encode_all cps)) cps [] hs (omega arith) (omega arith)),
    )

-- On well-formed text the unmarked copy is the longest prefix of whole characters that fits: it is
-- well-formed and within the budget, and either it is the whole text, or with the next character of
-- the text it would be over the budget.
pub utf8_excerpt_prefix :
    (s : Bytes) (max_bytes : ℕ)
    → valid_utf8 s ≡ true
    → LongestPrefix max_bytes s (utf8_excerpt s max_bytes false)
utf8_excerpt_prefix s m h =
    let (unread, stops) = unmarked-Stops s m h in
    (
      unread,
      stops,
      (valid_utf8_iff _).0 (utf8_excerpt-valid_utf8 s m false),
      utf8_excerpt_bound s m false,
    )

Stops-fits : (m : ℕ) (s : Bytes) (r : Bytes × Bytes) → Stops m s r → length s ≤ m → r ≡ (s, [])
Stops-fits m s (out, unread) (e, inl done) fits =
    let e' : out ≡ s = sym (append-nil out) ∙ rw done at e in rw (done, e')
Stops-fits m s (out, unread) (e, inr (cp, rest, _, next, over)) fits = absurd (
    omega (
      arith,
      ap length e,
      length-append out unread,
      ap length next,
      length-append (encode cp) rest,
    ))

copy_all :
    (m : ℕ) (s : Bytes) → valid_utf8 s ≡ true → length s ≤ m → copy_from m (length s) s [] ≡ (s, [])
unfolding IsText
copy_all m s h fits =
    let (cps, hs, e) = valid_utf8_sound s h in
    Stops-fits m s (copy_from m (length s) s [])
      (subst (λ t. Stops m t (copy_from m (length t) t [])) e
        (copy_from-Stops m (length (encode_all cps)) cps [] hs (omega arith) (omega arith)))
      fits

finish_all : (m : ℕ) (mark : Bool) (s : Bytes) → finish_excerpt m mark (s, []) ≡ s
unfolding finish_excerpt
finish_all m true s = refl
finish_all m false s = refl

-- Text that fits is copied unchanged, marked or not.
pub utf8_excerpt_fits :
    (s : Bytes) (max_bytes : ℕ) (mark : Bool)
    → valid_utf8 s ≡ true
    → length s ≤ max_bytes
    → utf8_excerpt s max_bytes mark ≡ s
unfolding utf8_excerpt
utf8_excerpt_fits s m mark h fits = rw (copy_all m s h fits) (finish_all m mark s)
