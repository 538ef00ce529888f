-- ===== src/Cli/Scanned.antt =====
-- What the rounds of the loop over the arguments keep.
use qbrain.Prelude.{
  ℕ, zero, suc, ◌≡◌, refl, arith, true, false, not, ◌||◌, ◌&&◌, Option, none, some, List, [], ◌∷◌,
  ◌++◌, Bytes, codes, text_eq, text_eq_comm, text_mem, starts_with, ok, error, need, need-ok,
  >>=-elim, ok_injective, Bool-cases, inl, inr, All, All-append,
}
use mathlib.Core.Path.{subst}
use qbrain.Cli.{
  value_keys, flag_keys, key_of, value_of, Scan, add_seen, add_flag, add_value, add_option,
  scan_argument, scan_arguments, no_arguments,
}

abbrev pub keys : List (Bytes × Bytes) → List Bytes
keys [] = []
keys ((k, v) ∷ values) = k ∷ keys values

-- No text stands twice in the list.
abbrev pub IsDistinct : List Bytes → Type 0
IsDistinct [] = Unit
IsDistinct (k ∷ ks) = (text_mem k ks ≡ false) × IsDistinct ks

keys-append :
    (values : List (Bytes × Bytes)) (k v : Bytes)
    → keys (values ++ ((k, v) ∷ [])) ≡ keys values ++ (k ∷ [])
keys-append [] k v = refl
keys-append ((l, w) ∷ values) k v = rw (keys-append values k v) refl

text_mem-append :
    (s : Bytes) (ks : List Bytes) (k : Bytes)
    → text_mem s ks ≡ false
    → text_eq s k ≡ false
    → text_mem s (ks ++ (k ∷ [])) ≡ false
unfolding text_mem
text_mem-append s [] k h e = ground arith
text_mem-append s (l ∷ ks) k h e = ground (arith, text_mem-append s ks k)

IsDistinct-append :
    (ks : List Bytes) (k : Bytes)
    → IsDistinct ks
    → text_mem k ks ≡ false
    → IsDistinct (ks ++ (k ∷ []))
unfolding text_mem
IsDistinct-append [] k h e = (refl, tt)
IsDistinct-append (l ∷ ks) k (h, hs) e =
    let apart : text_eq k l ≡ false = ground arith in
    let other : text_mem k ks ≡ false = ground arith in
    (text_mem-append l ks k h (rw (text_eq_comm l k) apart), IsDistinct-append ks k hs other)

-- What holds of the local variables in every round.
pub record IsScan (st : Scan) : Type 0 where
  pub values_known : All (λ k. text_mem k value_keys ≡ true) (keys st.values)
  pub flags_known : All (λ k. text_mem k flag_keys ≡ true) st.flags
  pub values_distinct : IsDistinct (keys st.values)
  pub flags_distinct : IsDistinct st.flags
  kept :
      (k : Bytes)
      → text_mem k st.seen ≡ false
      → (text_mem k (keys st.values) ≡ false) × (text_mem k st.flags ≡ false)

add_flag-IsScan :
    (st : Scan) (key : Bytes) (value : Option Bytes) {st' : Scan}
    → IsScan st
    → text_mem key st.seen ≡ false
    → text_mem key flag_keys ≡ true
    → add_flag (add_seen st key) key value ≡ ok st'
    → IsScan st'
unfolding text_mem
add_flag-IsScan st key (some v) h new known e = absurd (cc)
add_flag-IsScan st key none h new known e = subst IsScan (ok_injective e) (record {
  values_known = h.values_known;
  flags_known = (known, h.flags_known);
  values_distinct = h.values_distinct;
  flags_distinct = ((h.kept key new).1, h.flags_distinct);
  kept = λ k unseen.
      let apart : text_eq k key ≡ false = ground arith in
      let (in_values, in_flags) = h.kept k (ground arith) in (in_values, ground arith);
})

-- The state after a value is entered.
abbrev entered : Scan → Bytes → Bytes → Scan
entered st key v = record st { seen = key ∷ st.seen; values = st.values ++ ((key, v) ∷ []) }

entered-IsScan :
    (st : Scan) (key v : Bytes)
    → IsScan st
    → text_mem key st.seen ≡ false
    → text_mem key value_keys ≡ true
    → IsScan (entered st key v)
unfolding text_mem
entered-IsScan st key v h new known = record {
  values_known = rw (keys-append st.values key v) (
      All-append (λ k. text_mem k value_keys ≡ true) (keys st.values) (key ∷ []) h.values_known
        (known, tt));
  flags_known = h.flags_known;
  values_distinct =
      rw (keys-append st.values key v)
        (IsDistinct-append (keys st.values) key h.values_distinct (h.kept key new).0);
  flags_distinct = h.flags_distinct;
  kept = λ k unseen.
      let apart : text_eq k key ≡ false = ground arith in
      let (in_values, in_flags) = h.kept k (ground arith) in
      (
        rw (keys-append st.values key v) (text_mem-append k (keys st.values) key in_values apart),
        in_flags,
      );
}

add_value-IsScan :
    (st : Scan) (key : Bytes) (value : Option Bytes) (rest : List Bytes) {out : List Bytes × Scan}
    → IsScan st
    → text_mem key st.seen ≡ false
    → text_mem key value_keys ≡ true
    → add_value (add_seen st key) key value rest ≡ ok out
    → IsScan out.1
add_value-IsScan st key (some v) rest h new known e =
    subst (λ o. IsScan o.1) (ok_injective e) (entered-IsScan st key v h new known)
add_value-IsScan st key none [] h new known e = absurd (cc)
add_value-IsScan st key none (next ∷ rest) {out} h new known e =
    elim (Bool-cases (not (text_eq key (codes "--query")) && starts_with next (codes "--"))) [
      | inl t ↦ let no : error "missing_search_value" ≡ ok out = rw t at e in absurd (cc)
      | inr t ↦
          subst (λ o. IsScan o.1) (ok_injective (rw t at e))
            (entered-IsScan st key next h new known)
    ]

add_option-IsScan :
    (st : Scan) (key : Bytes) (value : Option Bytes) (rest : List Bytes) {out : List Bytes × Scan}
    → IsScan st
    → text_mem key st.seen ≡ false
    → text_mem key value_keys || text_mem key flag_keys ≡ true
    → add_option st key value rest ≡ ok out
    → IsScan out.1
add_option-IsScan st key value rest h new known e = elim (Bool-cases (text_mem key flag_keys)) [
  | inl t ↦ >>=-elim (add_flag (add_seen st key) key value) _ (rw t at e) λ next added e1.
      subst (λ o. IsScan o.1) (ok_injective e1) (add_flag-IsScan st key value h new t added)
  | inr t ↦ add_value-IsScan st key value rest h new (ground arith) (rw t at e)
]

scan_argument-IsScan :
    (arg : Bytes) (rest : List Bytes) (st : Scan) {out : List Bytes × Scan}
    → IsScan st
    → scan_argument arg rest st ≡ ok out
    → IsScan out.1
unfolding scan_argument
scan_argument-IsScan arg rest st h e =
    elim (Bool-cases (not st.literal && text_eq arg (codes "--"))) [
      | inl t ↦
          subst (λ o. IsScan o.1) (ok_injective (rw t at e))
            (record {
              values_known = h.values_known;
              flags_known = h.flags_known;
              values_distinct = h.values_distinct;
              flags_distinct = h.flags_distinct;
              kept = h.kept;
            })
      | inr t ↦ elim (Bool-cases (st.literal || not (starts_with arg (codes "--")))) [
        | inl t' ↦
            subst (λ o. IsScan o.1) (ok_injective (rw (t, t') at e))
              (record {
                values_known = h.values_known;
                flags_known = h.flags_known;
                values_distinct = h.values_distinct;
                flags_distinct = h.flags_distinct;
                kept = h.kept;
              })
        | inr t' ↦
            let known = text_mem (key_of arg) value_keys || text_mem (key_of arg) flag_keys in
            let new = not (text_mem (key_of arg) st.seen) in
            >>=-elim (need known "invalid_search_argument") _ (rw (t, t') at e) λ _ k e1.
              >>=-elim (need new "duplicate_search_argument") _ e1 λ _ n e2.
                let fresh = need-ok new "duplicate_search_argument" n in
                add_option-IsScan st (key_of arg) (value_of arg) rest h (ground arith)
                  (need-ok known "invalid_search_argument" k) e2
      ]
    ]

pub scan_arguments-IsScan :
    (fuel : ℕ) (args : List Bytes) (st : Scan) {st' : Scan}
    → IsScan st
    → scan_arguments fuel args st ≡ ok st'
    → IsScan st'
unfolding scan_arguments
scan_arguments-IsScan fuel [] st h e = subst IsScan (ok_injective e) h
scan_arguments-IsScan zero (arg ∷ args) st h e = subst IsScan (ok_injective e) h
scan_arguments-IsScan (suc fuel) (arg ∷ args) st h e =
    >>=-elim (scan_argument arg args st) _ e
      λ out e1 e2. scan_arguments-IsScan fuel out.0 out.1 (scan_argument-IsScan arg args st h e1) e2

pub no_arguments-IsScan : IsScan no_arguments
unfolding text_mem
no_arguments-IsScan = record {
  values_known = tt;
  flags_known = tt;
  values_distinct = tt;
  flags_distinct = tt;
  kept = λ k unseen. (refl, refl);
}
