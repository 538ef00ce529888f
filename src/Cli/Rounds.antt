-- ===== src/Cli/Rounds.antt =====
-- The number of the arguments is enough fuel for the loop.
use Prim.Native.String.{String}
use qbrain.Prelude.{
  ℕ, zero, suc, ◌≤◌, ◌≡◌, refl, arith, not, ◌||◌, ◌&&◌, Option, none, some, List, [], ◌∷◌, Bytes,
  codes, text_eq, text_mem, starts_with, Checked, ok, error, need, >>=-elim, ok_injective,
  Bool-cases, inl, inr, length, ◌⊎◌,
}
use mathlib.Core.Path.{subst}
use qbrain.Cli.{
  value_keys, flag_keys, key_of, value_of, Scan, add_seen, add_flag, add_value, add_option,
  scan_argument, scan_arguments,
}

add_value_shorter :
    (st : Scan) (key : Bytes) (value : Option Bytes) (rest : List Bytes) {out : List Bytes × Scan}
    → add_value st key value rest ≡ ok out
    → length out.0 ≤ length rest
add_value_shorter st key (some v) rest e =
    subst (λ o. length o.0 ≤ length rest) (ok_injective e) (omega arith)
add_value_shorter st key none [] e = absurd (cc)
add_value_shorter st key none (next ∷ rest) {out} e =
    elim (Bool-cases (not (text_eq key (codes "--query")) && starts_with next (codes "--"))) [
      | inl t ↦ let no : error "missing_search_value" ≡ ok out = rw t at e in absurd (cc)
      | inr t ↦ subst (λ o. length o.0 ≤ suc (length rest)) (ok_injective (rw t at e)) (omega arith)
    ]

add_option_shorter :
    (st : Scan) (key : Bytes) (value : Option Bytes) (rest : List Bytes) {out : List Bytes × Scan}
    → add_option st key value rest ≡ ok out
    → length out.0 ≤ length rest
add_option_shorter st key value rest e = elim (Bool-cases (text_mem key flag_keys)) [
  | inl t ↦
      >>=-elim (add_flag (add_seen st key) key value) _ (rw t at e)
        λ next added e1. subst (λ o. length o.0 ≤ length rest) (ok_injective e1) (omega arith)
  | inr t ↦ add_value_shorter (add_seen st key) key value rest (rw t at e)
]

-- A round leaves no more arguments than there are behind the one that it takes.
scan_argument_shorter :
    (arg : Bytes) (rest : List Bytes) (st : Scan) {out : List Bytes × Scan}
    → scan_argument arg rest st ≡ ok out
    → length out.0 ≤ length rest
unfolding scan_argument
scan_argument_shorter arg rest st e =
    elim (Bool-cases (not st.literal && text_eq arg (codes "--"))) [
      | inl t ↦ subst (λ o. length o.0 ≤ length rest) (ok_injective (rw t at e)) (omega arith)
      | inr t ↦ elim (Bool-cases (st.literal || not (starts_with arg (codes "--")))) [
        | inl t' ↦
            subst (λ o. length o.0 ≤ length rest) (ok_injective (rw (t, t') at e)) (omega arith)
        | inr t' ↦
            let known = text_mem (key_of arg) value_keys || text_mem (key_of arg) flag_keys in
            let new = not (text_mem (key_of arg) st.seen) in
            >>=-elim (need known "invalid_search_argument") _ (rw (t, t') at e) λ _ _ e1.
              >>=-elim (need new "duplicate_search_argument") _ e1
                λ _ _ e2. add_option_shorter st (key_of arg) (value_of arg) rest e2
      ]
    ]

Checked-cases :
    {A : Type 0} (m : Checked A) → ((a : A) × (m ≡ ok a)) ⊎ ((code : String) × (m ≡ error code))
Checked-cases (ok a) = inl (a, refl)
Checked-cases (error code) = inr (code, refl)

-- Any two amounts of fuel that are no less than the number of arguments have the same result.
pub scan_arguments_same :
    (fuel more : ℕ) (args : List Bytes) (st : Scan)
    → length args ≤ fuel
    → length args ≤ more
    → scan_arguments fuel args st ≡ scan_arguments more args st
unfolding scan_arguments
scan_arguments_same fuel more [] st enough larger = refl
scan_arguments_same zero more (arg ∷ args) st enough larger = absurd (omega arith)
scan_arguments_same (suc fuel) zero (arg ∷ args) st enough larger = absurd (omega arith)
scan_arguments_same (suc fuel) (suc more) (arg ∷ args) st enough larger =
    elim (Checked-cases (scan_argument arg args st)) [
      | inl (out, e) ↦
          let least = scan_argument_shorter arg args st e in
          rw e (scan_arguments_same fuel more out.0 out.1 (omega arith) (omega arith))
      | inr (code, e) ↦ rw e refl
    ]
