-- ===== src/Mcp/Entries.antt =====
-- The entries of the token configuration: what is taken, and that a well-formed configuration is
-- read back.
use qbrain.Prelude.{
  ℕ, zero, suc, ◌≤◌, ◌≡◌, ◌≢◌, refl, ap, ◌∙◌, ◌&&◌, true, false, not, Option, none, some, List, [],
  ◌∷◌, ◌++◌, Bytes, length, length-append, is_empty, ◌==◌, arith, All, Bool-cases, inl, inr, map,
}
use qbrain.Mcp.{
  ScopedToken, cut, parse_scope_list, token_shape_valid, accept, entry_name, entry_token, entry_end,
  parse_entry, or_empty, add_entry, tokens_from, parse_scoped_tokens,
}

-- An entry that can be in use.
abbrev pub IsUsable : ScopedToken → Type 0
IsUsable st = (is_empty st.name ≡ false) × (token_shape_valid st.token ≡ true) × (st.scopes ≢ 0)

AllSome : Option ScopedToken → Type 0
AllSome none = Unit
AllSome (some st) = IsUsable st

accept-AllSome : (st : ScopedToken) → AllSome (accept st)
unfolding AllSome
accept-AllSome st =
    elim (Bool-cases
      (not (is_empty st.name) && token_shape_valid st.token && not (st.scopes == 0))) [
        | inl good ↦ rw good (ground arith, ground arith, λ e. absurd (ground arith))
        | inr bad ↦ rw bad tt
      ]

entry_end-AllSome :
    (name token s : Bytes) (r : Bytes × Option Bytes) → AllSome (entry_end name token s r)
unfolding AllSome
entry_end-AllSome name token s (before, none) = accept-AllSome _
entry_end-AllSome name token s (before, some extra) = tt

entry_token-AllSome : (name : Bytes) (r : Bytes × Option Bytes) → AllSome (entry_token name r)
unfolding AllSome
entry_token-AllSome name (token, none) = tt
entry_token-AllSome name (token, some s) = entry_end-AllSome name token s (cut b':' s)

entry_name-AllSome : (r : Bytes × Option Bytes) → AllSome (entry_name r)
unfolding AllSome
entry_name-AllSome (name, none) = tt
entry_name-AllSome (name, some r) = entry_token-AllSome name (cut b':' r)

parse_entry-AllSome : (entry : Bytes) → AllSome (parse_entry entry)
unfolding parse_entry
parse_entry-AllSome entry = entry_name-AllSome (cut b':' entry)

add_entry-All :
    (o : Option ScopedToken) (out : List ScopedToken)
    → AllSome o
    → All IsUsable out
    → All IsUsable (add_entry o out)
unfolding AllSome
add_entry-All none out h hs = hs
add_entry-All (some st) out h hs = (h, hs)

tokens_from-All : (fuel : ℕ) (rest : Bytes) → All IsUsable (tokens_from fuel rest)
unfolding tokens_from
tokens_from-All zero rest = tt
tokens_from-All (suc fuel) rest =
    let out = tokens_from-All fuel (or_empty (cut b';' rest).1) in
    elim (Bool-cases (is_empty rest)) [
      | inl done ↦ rw done tt
      | inr more ↦ rw more (elim (Bool-cases (is_empty (cut b';' rest).0)) [
        | inl gap ↦ rw gap out
        | inr entry ↦ rw entry (add_entry-All _ _ (parse_entry-AllSome _) out)
      ])
    ]

-- Whatever the configuration, every entry that is taken has a name, a token of the required shape,
-- and at least one scope.
pub parse_scoped_tokens-All : (config : Bytes) → All IsUsable (parse_scoped_tokens config)
unfolding parse_scoped_tokens
parse_scoped_tokens-All config = tokens_from-All (length config) config

-- The separator does not occur in the text.
abbrev pub IsFree : ℕ → Bytes → Type 0
IsFree sep = All (λ c. (c == sep) ≡ false)

cut-append : (sep : ℕ) (s t : Bytes) → IsFree sep s → cut sep (s ++ (sep ∷ t)) ≡ (s, some t)
unfolding cut
cut-append sep [] t h = ground arith
cut-append sep (c ∷ s) t (h, hs) = rw (h, cut-append sep s t hs) refl

cut_free : (sep : ℕ) (s : Bytes) → IsFree sep s → cut sep s ≡ (s, none)
unfolding cut
cut_free sep [] h = refl
cut_free sep (c ∷ s) (h, hs) = rw (h, cut_free sep s hs) refl

-- The text of an entry.
abbrev pub entry_text : Bytes → Bytes → Bytes → Bytes
entry_text name token scopes = name ++ (b':' ∷ (token ++ (b':' ∷ scopes)))

pub accept_usable : (st : ScopedToken) → IsUsable st → accept st ≡ some st
accept_usable st (n, t, s) = ground (arith)

-- An entry whose three parts have no colon is read as these parts, if it is usable.
parse_entry_text :
    (name token scopes : Bytes)
    → IsFree b':' name
    → IsFree b':' token
    → IsFree b':' scopes
    → parse_entry (entry_text name token scopes)
      ≡ accept (record { name = name; token = token; scopes = parse_scope_list scopes })
unfolding parse_entry
parse_entry_text name token scopes n t s =
    ap entry_name (cut-append b':' name (token ++ (b':' ∷ scopes)) n)
    ∙ ap (entry_token name) (cut-append b':' token scopes t)
    ∙ ap (entry_end name token scopes) (cut_free b':' scopes s)

-- The text of a configuration with an entry for each name, token and list of scopes.
unfoldable pub config_text : List (Bytes × Bytes × Bytes) → Bytes
config_text [] = []
config_text ((name, token, scopes) ∷ entries) =
    entry_text name token scopes ++ (b';' ∷ config_text entries)

-- The entry that three parts stand for.
abbrev pub entry_of : Bytes × Bytes × Bytes → ScopedToken
entry_of (name, token, scopes) = record {
  name = name;
  token = token;
  scopes = parse_scope_list scopes;
}

-- The parts have no separators, and the entry is usable.
abbrev pub IsWritable : Bytes × Bytes × Bytes → Type 0
IsWritable (name, token, scopes) =
    IsFree b':' name
    × IsFree b':' token
    × IsFree b':' scopes
    × IsFree b';' (entry_text name token scopes)
    × IsUsable (entry_of (name, token, scopes))

entry_text_not_empty : (name token scopes : Bytes) → is_empty (entry_text name token scopes) ≡ false
entry_text_not_empty [] token scopes = refl
entry_text_not_empty (c ∷ name) token scopes = refl

append_not_empty : (s t : Bytes) → is_empty s ≡ false → is_empty (s ++ t) ≡ false
append_not_empty [] t h = absurd (cc)
append_not_empty (c ∷ s) t h = refl

tokens_from-config_text :
    (fuel : ℕ) (entries : List (Bytes × Bytes × Bytes))
    → length (config_text entries) ≤ fuel
    → All IsWritable entries
    → tokens_from fuel (config_text entries) ≡ map entry_of entries
unfolding config_text tokens_from
tokens_from-config_text zero [] h w = refl
tokens_from-config_text (suc fuel) [] h w = refl
tokens_from-config_text zero ((name, token, scopes) ∷ entries) h w =
    absurd
      (omega (arith, length-append (entry_text name token scopes) (b';' ∷ config_text entries)))
tokens_from-config_text (suc fuel) ((name, token, scopes) ∷ entries) h
      ((n, t, s, free, usable), w) =
    let text = entry_text name token scopes in
    let rest =
      tokens_from-config_text fuel entries
        (omega (arith, length-append text (b';' ∷ config_text entries))) w in
    rw
      (
        append_not_empty text (b';' ∷ config_text entries) (entry_text_not_empty name token scopes),
        cut-append b';' text (config_text entries) free,
        entry_text_not_empty name token scopes,
        parse_entry_text name token scopes n t s,
        accept_usable (entry_of (name, token, scopes)) usable,
        rest,
      )
      refl

-- A configuration that is written from usable entries whose parts have no separators is read back as
-- these entries, in order.
pub parse_scoped_tokens-config_text :
    (entries : List (Bytes × Bytes × Bytes))
    → All IsWritable entries
    → parse_scoped_tokens (config_text entries) ≡ map entry_of entries
unfolding parse_scoped_tokens
parse_scoped_tokens-config_text entries w =
    tokens_from-config_text (length (config_text entries)) entries (omega arith) w
