-- ===== src/Cli/Parsed.antt =====
-- The arguments that the parser accepts.
use qbrain.Prelude.{
  ◌≡◌, arith, true, false, not, ◌||◌, Option, none, some, List, Bytes, codes, is_empty, text_mem,
  ok, need, need-ok, >>=-elim, ok_injective, Bool-cases, inl, inr, All, length, ◌⊎◌,
}
use mathlib.Core.Path.{subst}
use qbrain.Strings.{trim}
use qbrain.Cli.{
  value_keys, flag_keys, modes, SearchArguments, Scan, scan_arguments, find_value, or_empty,
  choose_query, is_int, finish, no_arguments, parse_search_arguments,
}
use qbrain.Cli.Scanned.{keys, IsDistinct, IsScan, scan_arguments-IsScan, no_arguments-IsScan}

pub record IsParsed (r : SearchArguments) : Type 0 where
  pub query_written : is_empty (trim r.query) ≡ false
  pub values_known : All (λ k. text_mem k value_keys ≡ true) (keys r.values)
  pub flags_known : All (λ k. text_mem k flag_keys ≡ true) r.flags
  pub values_distinct : IsDistinct (keys r.values)
  pub flags_distinct : IsDistinct r.flags
  pub query_given : (q : Bytes) → find_value (codes "--query") r.values ≡ some q → r.query ≡ q
  pub mode_known :
      (mode : Bytes)
      → find_value (codes "--mode") r.values ≡ some mode
      → (is_empty mode ≡ true) ⊎ (text_mem mode modes ≡ true)

choose_query_given :
    (st : Scan) (given : Option Bytes) {query : Bytes}
    → choose_query st given ≡ ok query
    → (q : Bytes) → given ≡ some q
    → query ≡ q
choose_query_given st none e q h = absurd (cc)
choose_query_given st (some given) e q h =
    >>=-elim (need (not st.has_positional) "mixed_search_query") _ e
      λ _ _ e1. let e2 = ok_injective e1 in cc

mode_cases :
    (mode : Bytes)
    → is_empty mode || text_mem mode modes ≡ true
    → (is_empty mode ≡ true) ⊎ (text_mem mode modes ≡ true)
mode_cases mode h = elim (Bool-cases (is_empty mode)) [ inl t ↦ inl t | inr t ↦ inr (ground arith) ]

finish-IsParsed : (st : Scan) {r : SearchArguments} → IsScan st → finish st ≡ ok r → IsParsed r
unfolding finish
finish-IsParsed st h e =
    let limit = or_empty (find_value (codes "--limit") st.values) in
    let mode = or_empty (find_value (codes "--mode") st.values) in
    >>=-elim (choose_query st (find_value (codes "--query") st.values)) _ e λ query eq e1.
      >>=-elim (need (not (is_empty (trim query))) "search_query_required") _ e1 λ _ w e2.
        >>=-elim (need (is_empty limit || is_int limit) "invalid_search_limit") _ e2 λ _ _ e3.
          >>=-elim (need (is_empty mode || text_mem mode modes) "invalid_search_mode") _ e3
            λ _ m e4.
              let written = need-ok (not (is_empty (trim query))) "search_query_required" w in
              let known = need-ok (is_empty mode || text_mem mode modes) "invalid_search_mode" m in
              subst IsParsed (ok_injective e4) (record {
                query_written = ground arith;
                values_known = h.values_known;
                flags_known = h.flags_known;
                values_distinct = h.values_distinct;
                flags_distinct = h.flags_distinct;
                query_given = choose_query_given st (find_value (codes "--query") st.values) eq;
                mode_known = λ mode found. mode_cases mode (rw found at known);
              })

-- Of accepted arguments the query is not blank, and it is the value of `--query` if that was given;
-- the keys of the values and the switches are those of the command, and none occurs twice; a mode
-- that was given is empty or one of the three.
pub parse_search_arguments-IsParsed :
    (args : List Bytes) {r : SearchArguments} → parse_search_arguments args ≡ ok r → IsParsed r
unfolding parse_search_arguments
parse_search_arguments-IsParsed args h =
    >>=-elim (scan_arguments (length args) args no_arguments) _ h λ st e e1.
      finish-IsParsed st
        (scan_arguments-IsScan (length args) args no_arguments no_arguments-IsScan e) e1
