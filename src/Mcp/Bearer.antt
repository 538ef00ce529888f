-- ===== src/Mcp/Bearer.antt =====
-- Which configured token a bearer value authenticates.
use Prim.Native.Nat.{bit_and}
use qbrain.Prelude.{
  ℕ, ◌≡◌, ◌≢◌, ◌⊎◌, codes, refl, sym, ap, Option, none, some, List, [], ◌∷◌, ◌++◌, Bytes, length,
  ◌==◌, arith, All, Bool-cases, inl, inr,
}
use qbrain.Mcp.{
  ScopedToken, TokenAuth, constant_time_equal, capability_of, audit_hash_prefix,
  authenticate_bearer,
}
use qbrain.Mcp.Equal.{constant_time_equal_iff}

-- No token of a list is the bearer value.
abbrev pub NoneMatch : Bytes → List ScopedToken → Type 0
NoneMatch bearer = All (λ st. bearer ≢ st.token)

-- The capability that scopes give: that of the administrator's bit, else that of the writer's.
abbrev pub Grants : ℕ → Bytes → Type 0
Grants scopes capability =
    (bit_and scopes 4 ≢ 0) × (capability ≡ codes "admin")
    ⊎ (bit_and scopes 4 ≡ 0) × (bit_and scopes 2 ≢ 0) × (capability ≡ codes "write")
    ⊎ (bit_and scopes 4 ≡ 0) × (bit_and scopes 2 ≡ 0) × (capability ≡ [])

capability_of-Grants : (scopes : ℕ) → Grants scopes (capability_of scopes)
capability_of-Grants scopes = elim (Bool-cases (bit_and scopes 4 == 0)) [
  | inr admin ↦ rw admin (inl (ground arith, refl))
  | inl none_of_it ↦ rw none_of_it (elim (Bool-cases (bit_and scopes 2 == 0)) [
    | inr writer ↦ rw writer (inr (inl (ground arith, ground arith, refl)))
    | inl reader ↦ rw reader (inr (inr (ground arith, ground arith, refl)))
  ])
]

-- What an authentication answers: nothing only if no token matches; otherwise the name, the
-- capability and the audit prefix of the first entry whose token is the bearer value.
abbrev pub Authenticates : (Bytes → Bytes) → List ScopedToken → Bytes → Option TokenAuth → Type 0
Authenticates sha256_hex tokens bearer none = NoneMatch bearer tokens
Authenticates sha256_hex tokens bearer (some auth) =
    (before : List ScopedToken) × (st : ScopedToken) × (after : List ScopedToken) × (tokens
      ≡ before ++ st ∷ after)
    × NoneMatch bearer before
    × (bearer ≡ st.token)
    × (auth.name ≡ st.name)
    × Grants st.scopes auth.capability
    × (auth.hash_prefix ≡ audit_hash_prefix sha256_hex bearer)

skip :
    (sha256_hex : Bytes → Bytes) (st : ScopedToken) (tokens : List ScopedToken) (bearer : Bytes)
    (o : Option TokenAuth)
    → bearer ≢ st.token
    → Authenticates sha256_hex tokens bearer o
    → Authenticates sha256_hex (st ∷ tokens) bearer o
skip sha256_hex st tokens bearer none miss h = (miss, h)
skip sha256_hex st tokens bearer (some auth) miss
      (before, found, after, e, none_before, x, y, z, w) =
    (st ∷ before, found, after, ap (◌∷◌ st) e, (miss, none_before), x, y, z, w)

-- A bearer value is accepted exactly if it is one of the configured tokens, and then with the name
-- and the capability of the first entry that has this token: "admin" if its scopes hold the
-- administrator's bit, else "write" if they hold the writer's, else none.
pub authenticate_bearer-Authenticates :
    (sha256_hex : Bytes → Bytes) (tokens : List ScopedToken) (bearer : Bytes)
    → Authenticates sha256_hex tokens bearer (authenticate_bearer sha256_hex tokens bearer)
unfolding authenticate_bearer
authenticate_bearer-Authenticates sha256_hex [] bearer = tt
authenticate_bearer-Authenticates sha256_hex (st ∷ tokens) bearer =
    let rest = authenticate_bearer-Authenticates sha256_hex tokens bearer in
    elim (Bool-cases (length bearer == length st.token)) [
      | inr other ↦
          rw other
            (skip sha256_hex st tokens bearer _ (λ e. absurd (ground (arith, ap length e))) rest)
      | inl sized ↦ rw sized (elim (Bool-cases (constant_time_equal bearer st.token)) [
        | inr other ↦ rw other (
            skip sha256_hex st tokens bearer _
              (λ e. absurd (ground (arith, (constant_time_equal_iff bearer st.token).1 e))) rest)
        | inl same ↦
            let e = (constant_time_equal_iff bearer st.token).0 same in
            rw same (
              [],
              st,
              tokens,
              refl,
              tt,
              e,
              refl,
              capability_of-Grants st.scopes,
              ap (audit_hash_prefix sha256_hex) (sym e),
            )
      ])
    ]
