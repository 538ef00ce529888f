-- ===== src/Mcp/Tests.antt =====
-- Runs of the token authentication, and the theorems on it at concrete configurations.
use qbrain.Prelude.{◌≡◌, ◌↔◌, refl, true, List, [], ◌∷◌, Bytes, codes, All, map, arith, text_eq}
use qbrain.Mcp.{
  ScopedToken, constant_time_equal, parse_scoped_tokens, authenticate_bearer, parse_scope_list,
  scopes_from, token_shape_valid, tokens_from, parse_entry, cut,
}
use qbrain.Mcp.Equal.{constant_time_equal_iff}
use qbrain.Mcp.Bearer.{Authenticates, authenticate_bearer-Authenticates}
use qbrain.Mcp.Entries.{
  IsUsable, IsWritable, entry_of, config_text, parse_scoped_tokens-All,
  parse_scoped_tokens-config_text,
}

abbrev secret : Bytes
secret = codes "0123456789abcdef"

abbrev sample_tokens : List ScopedToken
sample_tokens = record { name = codes "ci"; token = secret; scopes = 3 } ∷ []

-- A hash that stands for the real one.
abbrev same_text : Bytes → Bytes
same_text s = s

abbrev parts : List (Bytes × Bytes × Bytes)
parts = (codes "ci", secret, codes "read,write") ∷ []

parsed :
    parse_scoped_tokens (codes "x;;ci:0123456789abcdef:read,write;bad:short:read") ≡ sample_tokens
unfolding parse_scoped_tokens tokens_from cut parse_entry parse_scope_list scopes_from
    token_shape_valid text_eq
parsed = refl

sample_scopes : parse_scope_list (codes "read,write") ≡ 3
unfolding parse_scope_list scopes_from cut text_eq
sample_scopes = refl

sample_shape : token_shape_valid secret ≡ true
unfolding token_shape_valid
sample_shape = refl

constant_time_equal_iff_example :
    (constant_time_equal secret (codes "0123456789abcdeg") ≡ true)
    ↔ (secret ≡ codes "0123456789abcdeg")
constant_time_equal_iff_example = constant_time_equal_iff secret (codes "0123456789abcdeg")

authenticate_bearer-Authenticates_example :
    Authenticates same_text sample_tokens secret
      (authenticate_bearer same_text sample_tokens secret)
authenticate_bearer-Authenticates_example =
    authenticate_bearer-Authenticates same_text sample_tokens secret

config_entries : All IsUsable (parse_scoped_tokens (codes "a:b:c;;d"))
config_entries = parse_scoped_tokens-All (codes "a:b:c;;d")

parts-IsWritable : All IsWritable parts
parts-IsWritable = (
  (
    ground arith,
    ground arith,
    ground arith,
    ground arith,
    (refl, sample_shape, λ e. ground (arith, sample_scopes)),
  ),
  tt,
)

parse_scoped_tokens-config_text_example :
    parse_scoped_tokens (config_text parts) ≡ map entry_of parts
parse_scoped_tokens-config_text_example = parse_scoped_tokens-config_text parts parts-IsWritable
