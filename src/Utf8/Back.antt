-- ===== src/Utf8/Back.antt =====
-- A text from its last character on, and how the second loop of `utf8_excerpt` takes that one off.
use native.Mathlib.Decide.{dec_lt}
use native.Mathlib.Nat.{zero-add, suc-add}
use qbrain.Prelude.{
  ℕ, zero, suc, ◌+◌, ◌-◌, ◌/◌, ◌%◌, ◌≤◌, ◌<◌, ◌≡◌, inl, inr, refl, sym, ap, ◌∙◌, Bytes, false, List,
  [], ◌∷◌, ◌++◌, append_assoc, append-nil, length, get_or, take, drop, All, Bool-cases, ◌==◌, arith,
  length-append,
}
use qbrain.Utf8.{byte_at, utf8_scalar_size, copy_from, char_start, replacement, cont}
use qbrain.Utf8.Mask.{mask_cont}
use qbrain.Utf8.Scalars.{IsScalar, encode, decode, utf8_scalar_size_sound}
use qbrain.Utf8.Valid.{Scalars, IsText, encode_all, take-append}

-- A text from its last character on, as the excerpt's two loops see it.
unfoldable pub from_back : List ℕ → Bytes
from_back [] = []
from_back (cp ∷ cps) = from_back cps ++ encode cp

unfoldable pub IsBack : Bytes → Type 0
IsBack s = (cps : List ℕ) × Scalars cps × (from_back cps ≡ s)

turn : List ℕ → List ℕ → List ℕ
turn [] done = done
turn (cp ∷ cps) done = turn cps (cp ∷ done)

turn-Scalars : (cps done : List ℕ) → Scalars cps → Scalars done → Scalars (turn cps done)
unfolding turn
turn-Scalars [] done h hd = hd
turn-Scalars (cp ∷ cps) done (h, hs) hd = turn-Scalars cps (cp ∷ done) hs (h, hd)

encode_all-turn :
    (cps done : List ℕ) → encode_all (turn cps done) ≡ from_back cps ++ encode_all done
unfolding turn from_back encode_all
encode_all-turn [] done = refl
encode_all-turn (cp ∷ cps) done =
    encode_all-turn cps (cp ∷ done)
    ∙ sym (append_assoc (from_back cps) (encode cp) (encode_all done))

pub IsBack-IsText : (s : Bytes) → IsBack s → IsText s
unfolding IsBack IsText
IsBack-IsText s (cps, hs, e) = (
  turn cps [],
  turn-Scalars cps [] hs tt,
  encode_all-turn cps [] ∙ unfold encode_all in append-nil (from_back cps) ∙ e,
)

pub IsBack-nil : IsBack []
unfolding IsBack from_back
IsBack-nil = ([], tt, refl)

pub IsBack-snoc :
    (out u : Bytes) (cp : ℕ) → IsScalar cp → encode cp ≡ u → IsBack out → IsBack (out ++ u)
unfolding IsBack from_back
IsBack-snoc out u cp h e (cps, hs, es) = (cp ∷ cps, (h, hs), rw (e, es))

-- Each round adds a character or the replacement character.
pub copy_from-IsBack : (m fuel : ℕ) (s out : Bytes) → IsBack out → IsBack (copy_from m fuel s out).0
unfolding copy_from
copy_from-IsBack m zero s out h = h
copy_from-IsBack m (suc fuel) [] out h = h
copy_from-IsBack m (suc fuel) (a ∷ s) out h = elim (Bool-cases (utf8_scalar_size (a ∷ s) == 0)) [
  | inl bad ↦ ground (
    arith,
    copy_from-IsBack m fuel s (out ++ replacement)
        (IsBack-snoc out replacement 0xfffd (omega arith) (unfold encode in refl) h),
  )
  | inr good ↦
      let n = utf8_scalar_size (a ∷ s) in
      let (scalar, e) = utf8_scalar_size_sound (a ∷ s) (λ z. ground arith) in
      ground (
        arith,
        copy_from-IsBack m fuel (drop n (a ∷ s)) (out ++ take n (a ∷ s))
            (IsBack-snoc out (take n (a ∷ s)) (decode (take n (a ∷ s))) scalar e h),
      )
]

Continues : Bytes → Type 0
Continues = All (λ c. (0x80 ≤ c) × (c ≤ 0xbf))

get_or-append : (p q : Bytes) (k : ℕ) → get_or (p ++ q) (length p + k) 0 ≡ get_or q k 0
get_or-append [] q k = rw zero-add
get_or-append (a ∷ p) q k = rw (suc-add) (get_or-append p q k)

Continues-at :
    (tail : Bytes) (k : ℕ)
    → Continues tail
    → k < length tail
    → (0x80 ≤ get_or tail k 0) × (get_or tail k 0 ≤ 0xbf)
unfolding Continues
Continues-at [] k h lt = absurd (omega arith)
Continues-at (c ∷ tail) zero h lt = h.0
Continues-at (c ∷ tail) (suc k) h lt = Continues-at tail k h.1 (omega arith)

-- From inside a character the scan stops at its first byte.
char_start_lem :
    (p : Bytes) (lead : ℕ) (tail : Bytes) (i k : ℕ)
    → lead < 256
    → cont lead ≡ false
    → Continues tail
    → k ≤ length tail
    → i ≡ length p + k
    → char_start (p ++ lead ∷ tail) i ≡ length p
unfolding char_start
char_start_lem p lead tail zero k b h c f e = omega arith
char_start_lem p lead tail (suc i) zero b h c f e =
    let at_lead = ap (byte_at (p ++ lead ∷ tail)) e ∙ get_or-append p (lead ∷ tail) 0 in
    rw at_lead (ground (arith, mask_cont lead b))
char_start_lem p lead tail (suc i) (suc k) b h c f e =
    let at_tail = ap (byte_at (p ++ lead ∷ tail)) e ∙ get_or-append p (lead ∷ tail) (suc k) in
    let range = Continues-at tail k c f in
    rw at_tail
      (ground (arith, range, mask_cont (get_or tail k 0), char_start_lem p lead tail i k b h c))

-- An encoding is a byte that starts a character and bytes that continue it.
encode_shape :
    (cp : ℕ)
    → IsScalar cp
    → (lead : ℕ) × (tail : Bytes) × (encode cp ≡ lead ∷ tail)
      × (lead < 256)
      × (cont lead ≡ false)
      × Continues tail
unfolding encode Continues
encode_shape cp h = elim (dec_lt cp 0x80) [
  | yes one ↦ (cp, [], ground arith, omega arith, ground arith, tt)
  | no above1 ↦ elim (dec_lt cp 0x800) [
    | yes two ↦ (
      0xc0 + cp / 64,
      (0x80 + cp % 64) ∷ [],
      ground arith,
      omega arith,
      ground arith,
      omega arith,
    )
    | no above2 ↦ elim (dec_lt cp 0x10000) [
      | yes three ↦ (
        0xe0 + cp / 4096,
        (0x80 + cp / 64 % 64) ∷ (0x80 + cp % 64) ∷ [],
        ground arith,
        omega arith,
        ground arith,
        omega arith,
      )
      | no above3 ↦ (
        0xf0 + cp / 262144,
        (0x80 + cp / 4096 % 64) ∷ (0x80 + cp / 64 % 64) ∷ (0x80 + cp % 64) ∷ [],
        ground arith,
        omega arith,
        ground arith,
        omega arith,
      )
    ]
  ]
]

-- A round of the second loop takes off exactly the last character.
pub drop_last :
    (p : Bytes) (cp : ℕ)
    → IsScalar cp
    → take (char_start (p ++ encode cp) (length (p ++ encode cp) - 1)) (p ++ encode cp) ≡ p
drop_last p cp h =
    let (lead, tail, e, b, c, t) = encode_shape cp h in
    rw
      (
        e,
        char_start_lem p lead tail (length (p ++ lead ∷ tail) - 1) (length tail) b c t (omega arith)
            (omega (arith, length-append p (lead ∷ tail))),
      )
      (take-append p (lead ∷ tail))
