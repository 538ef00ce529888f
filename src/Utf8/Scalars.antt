-- ===== src/Utf8/Scalars.antt =====
-- The encoding form of a Unicode scalar value, as the standard defines it, and what
-- `utf8_scalar_size` says of it.
use qbrain.Prelude.{
  ℕ, ◌+◌, ◌*◌, ◌/◌, ◌%◌, ◌≤◌, ◌<◌, ◌≡◌, ◌≢◌, ◌⊎◌, inl, inr, refl, Bytes, [], ◌∷◌, ◌++◌, length,
  take, ltb, if◌then◌else◌, arith,
}
use native.Mathlib.Decide.{dec_lt}
use qbrain.Utf8.{utf8_scalar_size}

abbrev pub IsScalar : ℕ → Type 0
IsScalar cp = (cp < 0xd800) ⊎ ((0xe000 ≤ cp) × (cp < 0x110000))

-- The bytes of a scalar value.
unfoldable pub encode : ℕ → Bytes
encode cp =
    if ltb cp 0x80
    then cp ∷ []
    else if ltb cp 0x800
    then (0xc0 + cp / 64) ∷ (0x80 + cp % 64) ∷ []
    else if ltb cp 0x10000
    then (0xe0 + cp / 4096) ∷ (0x80 + cp / 64 % 64) ∷ (0x80 + cp % 64) ∷ []
    else (0xf0 + cp / 262144)
      ∷ (0x80 + cp / 4096 % 64)
      ∷ (0x80 + cp / 64 % 64)
      ∷ (0x80 + cp % 64)
      ∷ []

abbrev pub SizeEncode : ℕ → Bytes → Type 0
SizeEncode cp rest = utf8_scalar_size (encode cp ++ rest) ≡ length (encode cp)

size_below_0x800 : (cp : ℕ) (rest : Bytes) → cp < 0x800 → SizeEncode cp rest
unfolding utf8_scalar_size encode
size_below_0x800 cp rest h = ground arith

size_below_0x10000 :
    (cp : ℕ) (rest : Bytes) → IsScalar cp → 0x800 ≤ cp → cp < 0x10000 → SizeEncode cp rest
unfolding utf8_scalar_size encode
size_below_0x10000 cp rest h lo hi = ground arith

size_of_four :
    (q b c d : ℕ) (rest : Bytes)
    → q ≤ 4
    → b < 64
    → c < 64
    → d < 64
    → (q ≡ 0 → 16 ≤ b)
    → (q ≡ 4 → b < 16)
    → utf8_scalar_size ((0xf0 + q) ∷ (0x80 + b) ∷ (0x80 + c) ∷ (0x80 + d) ∷ rest) ≡ 4
unfolding utf8_scalar_size
size_of_four q b c d rest hq hb hc hd first last = ground arith

size_from_0x10000 : (cp : ℕ) (rest : Bytes) → cp < 0x110000 → 0x10000 ≤ cp → SizeEncode cp rest
unfolding encode
size_from_0x10000 cp rest h lo = ground (
  arith,
  size_of_four (cp / 262144) (cp / 4096 % 64) (cp / 64 % 64) (cp % 64) rest (omega arith)
      (omega arith) (omega arith) (omega arith) (λ e. omega arith) (λ e. omega arith),
)

-- A scalar value's encoding has the size that `utf8_scalar_size` reads off, whatever follows.
pub utf8_scalar_size-encode : (cp : ℕ) (rest : Bytes) → IsScalar cp → SizeEncode cp rest
utf8_scalar_size-encode cp rest h = elim (dec_lt cp 0x800) [
  | yes low ↦ size_below_0x800 cp rest low
  | no not_low ↦ elim (dec_lt cp 0x10000) [
    | yes mid ↦ size_below_0x10000 cp rest h (omega arith) mid
    | no high ↦ size_from_0x10000 cp rest (omega arith) (omega arith)
  ]
]

-- What `cjk_literal_eligible` computes of a character's bytes, by arithmetic.
unfoldable pub decode : Bytes → ℕ
decode (a ∷ []) = a
decode (a ∷ b ∷ []) = a % 32 * 64 + b % 64
decode (a ∷ b ∷ c ∷ []) = (a % 16 * 64 + b % 64) * 64 + c % 64
decode (a ∷ b ∷ c ∷ d ∷ []) = ((a % 8 * 64 + b % 64) * 64 + c % 64) * 64 + d % 64
decode _ = 0

pub decode-encode : (cp : ℕ) → IsScalar cp → decode (encode cp) ≡ cp
unfolding decode encode
decode-encode cp h = ground arith

-- What `utf8_scalar_size` accepts is the encoding of the scalar value that is decoded from it.
abbrev pub IsEncoded : Bytes → Type 0
IsEncoded u = IsScalar (decode u) × (encode (decode u) ≡ u)

abbrev Sound : Bytes → Type 0
Sound s = utf8_scalar_size s ≢ 0 → IsEncoded (take (utf8_scalar_size s) s)

Sound-three : (a b c d : ℕ) (r : Bytes) → 0xe0 ≤ a → a ≤ 0xef → Sound (a ∷ b ∷ c ∷ d ∷ r)
unfolding utf8_scalar_size decode encode
Sound-three a b c d r lo hi h = ground arith

Sound-four : (a b c d : ℕ) (r : Bytes) → 0xf0 ≤ a → a ≤ 0xf4 → Sound (a ∷ b ∷ c ∷ d ∷ r)
unfolding utf8_scalar_size decode encode
Sound-four a b c d r lo hi h = ground arith

Sound-other : (a b c d : ℕ) (r : Bytes) → (a < 0xe0) ⊎ (0xf4 < a) → Sound (a ∷ b ∷ c ∷ d ∷ r)
unfolding utf8_scalar_size decode encode
Sound-other a b c d r out h = ground arith

pub utf8_scalar_size_sound :
    (s : Bytes) → utf8_scalar_size s ≢ 0 → IsEncoded (take (utf8_scalar_size s) s)
unfolding utf8_scalar_size decode encode
utf8_scalar_size_sound [] h = absurd (h refl)
utf8_scalar_size_sound (a ∷ []) h = ground arith
utf8_scalar_size_sound (a ∷ b ∷ []) h = ground arith
utf8_scalar_size_sound (a ∷ b ∷ c ∷ []) h = ground arith
utf8_scalar_size_sound (a ∷ b ∷ c ∷ d ∷ r) h = elim (dec_lt a 0xe0) [
  | yes low ↦ Sound-other a b c d r (inl low) h
  | no le3 ↦ elim (dec_lt a 0xf0) [
    | yes three ↦ Sound-three a b c d r (omega arith) (omega arith) h
    | no le4 ↦ elim (dec_lt a 0xf5) [
      | yes four ↦ Sound-four a b c d r (omega arith) (omega arith) h
      | no le5 ↦ Sound-other a b c d r (inr (omega arith)) h
    ]
  ]
]
