-- ===== src/Mcp.antt =====
-- src/qbrain/mcp/auth.cpp: the token-scoped authentication of the HTTP server. The hash of the
-- audit prefix (util/hash.cpp) is a parameter. A `string_view` that advances is the list of its
-- bytes; a loop over one has its length as fuel, and takes at least one byte off in each round.
pub mod Equal
pub mod Bearer
pub mod Entries
pub mod Tests
use Prim.Native.Nat.{bit_and, bit_or, bit_xor}
use qbrain.Prelude.{
  ℕ, zero, suc, ◌&&◌, ◌||◌, Bool, true, false, not, Option, none, some, List, [], ◌∷◌, Bytes, codes,
  length, take, is_empty, all, ◌==◌, ltb, in_range, if◌then◌else◌, text_eq,
}

pub record ScopedToken : Type 0 where
  pub name : Bytes
  pub token : Bytes
  pub scopes : ℕ

pub record TokenAuth : Type 0 where
  pub name : Bytes
  pub capability : Bytes
  pub hash_prefix : Bytes

-- The bits of `TokenScope`.
abbrev pub read_scope : ℕ
read_scope = 1

abbrev pub write_scope : ℕ
write_scope = 2

abbrev pub admin_scope : ℕ
admin_scope = 4

-- `find` and `substr` at the first separator: what is before it, and what is behind it if there is
-- one.
unfoldable pub cut : ℕ → Bytes → Bytes × Option Bytes
cut sep [] = ([], none)
cut sep (c ∷ s) =
    let (before, behind) = cut sep s in if c == sep then ([], some s) else (c ∷ before, behind)

abbrev pub scope_bit : Bytes → Option ℕ
scope_bit item =
    if text_eq item (codes "read")
    then some read_scope
    else if text_eq item (codes "write")
    then some write_scope
    else if text_eq item (codes "admin")
    then some admin_scope
    else none

unfoldable pub scopes_from : ℕ → Bytes → ℕ → ℕ
scopes_from zero rest scopes = scopes
scopes_from (suc fuel) rest scopes =
    let (item, behind) = cut b',' rest in
    let more = λ (s : Bytes) (bits : ℕ). scopes_from fuel s bits in
    if is_empty rest then scopes else elim (scope_bit item) [
      | none ↦ 0
      | some bit ↦ elim behind [ none ↦ bit_or scopes bit | some s ↦ more s (bit_or scopes bit) ]
    ]

unfoldable pub parse_scope_list : Bytes → ℕ
parse_scope_list text = scopes_from (length text) text 0

-- The loop of `constant_time_equal`.
unfoldable pub difference : ℕ → Bytes → Bytes → ℕ
difference diff (x ∷ a) (y ∷ b) = difference (bit_or diff (bit_xor x y)) a b
difference diff _ _ = diff

unfoldable pub constant_time_equal : Bytes → Bytes → Bool
constant_time_equal a b = if length a == length b then difference 0 a b == 0 else false

unfoldable pub token_shape_valid : Bytes → Bool
token_shape_valid token =
    if ltb (length token) 16 || ltb 256 (length token)
    then false
    else all (λ c. in_range 0x21 0x7e c) token

-- An entry `name:token:scope[,scope]`, or nothing if it is invalid.
abbrev pub accept : ScopedToken → Option ScopedToken
accept st =
    if not (is_empty st.name) && token_shape_valid st.token && not (st.scopes == 0)
    then some st
    else none

-- The three separators are looked for in turn; the third must be missing.
abbrev pub entry_end : Bytes → Bytes → Bytes → Bytes × Option Bytes → Option ScopedToken
entry_end name token scopes (before, some extra) = none
entry_end name token scopes (before, none) =
    accept (record { name = name; token = token; scopes = parse_scope_list scopes })

abbrev pub entry_token : Bytes → Bytes × Option Bytes → Option ScopedToken
entry_token name (token, none) = none
entry_token name (token, some s) = entry_end name token s (cut b':' s)

abbrev pub entry_name : Bytes × Option Bytes → Option ScopedToken
entry_name (name, none) = none
entry_name (name, some r) = entry_token name (cut b':' r)

unfoldable pub parse_entry : Bytes → Option ScopedToken
parse_entry entry = entry_name (cut b':' entry)

abbrev pub or_empty : Option Bytes → Bytes
or_empty none = []
or_empty (some s) = s

abbrev pub add_entry : Option ScopedToken → List ScopedToken → List ScopedToken
add_entry none out = out
add_entry (some st) out = st ∷ out

-- An empty entry is passed over, an invalid one skipped.
unfoldable pub tokens_from : ℕ → Bytes → List ScopedToken
tokens_from zero rest = []
tokens_from (suc fuel) rest =
    let (entry, behind) = cut b';' rest in
    let out = tokens_from fuel (or_empty behind) in
    if is_empty rest then [] else if is_empty entry then out else add_entry (parse_entry entry) out

unfoldable pub parse_scoped_tokens : Bytes → List ScopedToken
parse_scoped_tokens config = tokens_from (length config) config

-- `if (scopes & admin) … else if (scopes & write) … else read-only`.
abbrev pub capability_of : ℕ → Bytes
capability_of scopes =
    if not (bit_and scopes admin_scope == 0)
    then codes "admin"
    else if not (bit_and scopes write_scope == 0)
    then codes "write"
    else []

module _ (sha256_hex : Bytes → Bytes) where
  unfoldable pub audit_hash_prefix : Bytes → Bytes
  audit_hash_prefix secret = take 16 (sha256_hex secret)

  unfoldable pub authenticate_bearer : List ScopedToken → Bytes → Option TokenAuth
  authenticate_bearer [] bearer = none
  authenticate_bearer (st ∷ tokens) bearer =
      let rest = authenticate_bearer tokens bearer in
      if not (length bearer == length st.token)
      then rest
      else if not (constant_time_equal bearer st.token)
      then rest
      else some (record {
        name = st.name;
        capability = capability_of st.scopes;
        hash_prefix = audit_hash_prefix st.token;
      })
