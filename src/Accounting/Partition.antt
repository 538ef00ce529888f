-- ===== src/Accounting/Partition.antt =====
-- The buckets of an accepted response of `openai_usage`.
use Prim.Native.String.{String}
use mathlib.Core.Path.{subst}
use qbrain.Prelude.{
  ℕ, ◌+◌, ◌-◌, ◌≤◌, ◌≡◌, refl, ◌⊎◌, inl, inr, ap, Bool-cases, arith, Bool, Option, none, some, [],
  ◌∷◌, ok, need, need-ok, >>=-elim, ok_injective, leb, ◌==◌,
}
use qbrain.Prelude.Int.{pos, negsuc}
use qbrain.Accounting.{add, token_cap}
use qbrain.Accounting.Input.{Value, null, integer_number, string, array, object, other, field}
use qbrain.Accounting.Amounts.{Within, AllWithin}
use qbrain.Accounting.Usage.{
  Mapped, Names, openai_names, openai_fields, input_detail_fields, output_detail_fields, fields,
  count_of, count_tokens, detail, zero_audio, members, output_details, least_output, check_input,
  check_total, check_least, equality, sum, count_or, if_no_input, rest_of_input, partition,
  openai_usage, subset,
}

-- The three parts of the input are known and are the whole of it, or the first is left open with a note.
abbrev pub Splits : Option ℕ → Mapped → Type 0
Splits input m =
    ((n r w : ℕ) × (m.tokens.input_uncached ≡ some n)
      × (m.tokens.input_cache_read ≡ some r)
      × (m.tokens.input_cache_write ≡ some w)
      × (input ≡ some (n + r + w))
      × (m.notes ≡ []))
    ⊎ ((m.tokens.input_uncached ≡ none) × (m.notes ≡ "input_partition_unknown" ∷ []))

-- Of a known input, output and total, the total is the sum.
abbrev pub Sums : (input output total : Option ℕ) → Type 0
Sums (some i) (some o) (some t) = t ≡ i + o
Sums _ _ _ = Unit

pub record IsPartition (input total : Option ℕ) (m : Mapped) : Type 0 where
  pub splits : Splits input m
  pub sums : Sums input m.tokens.output total
  pub within : AllWithin token_cap m.tokens

count_of-Within : (j : Value) {c : Option ℕ} → count_of j ≡ ok c → Within token_cap c
unfolding count_of
count_of-Within null h = subst (Within token_cap) (ok_injective h) tt
count_of-Within (integer_number (pos n)) h =
    >>=-elim (need (leb n token_cap) "usage_quantity") _ h λ _ fits h1.
      subst (Within token_cap) (ok_injective h1)
        (ground (arith, need-ok (leb n token_cap) "usage_quantity" fits))
count_of-Within (integer_number (negsuc n)) h = absurd (cc)
count_of-Within (string s) h = absurd (cc)
count_of-Within (array es) h = absurd (cc)
count_of-Within (object ms) h = absurd (cc)
count_of-Within other h = absurd (cc)

count_tokens-Within :
    (j : Value) (key : String) {c : Option ℕ} → count_tokens j key ≡ ok c → Within token_cap c
count_tokens-Within j key h = count_of-Within (field j key) h

-- What the checks of the parts of a known input come to.
abbrev Fits : (input read write : Option ℕ) → Type 0
Fits (some i) read write = count_or read 0 + count_or write 0 ≤ i
Fits none read write = Unit

check_input-Fits :
    (input read write : Option ℕ) {x : Unit {0}}
    → check_input input read write ≡ ok x
    → Fits input read write
unfolding check_input
check_input-Fits none read write h = tt
check_input-Fits (some i) read write h = >>=-elim (subset read (some i)) _ h λ _ _ h1.
    >>=-elim (subset write (some i)) _ h1 λ _ _ h2. >>=-elim (sum read write) _ h2 λ both _ h3.
      >>=-elim (subset both (some i)) _ h3 λ _ _ h4.
        ground (arith, need-ok (leb (count_or read 0 + count_or write 0) i) "usage_inconsistent" h4)

sum_known : (i o : ℕ) {whole : Option ℕ} → sum (some i) (some o) ≡ ok whole → whole ≡ some (i + o)
unfolding add
sum_known i o h =
    >>=-elim (add i o) _ h λ s e h1. >>=-elim (need (leb o _) "cost_overflow") _ e λ _ _ e1. cc

equality_known : (t n : ℕ) {x : Unit {0}} → equality (some t) (some n) ≡ ok x → t ≡ n
equality_known t n h = ground (arith, need-ok (t == n) "usage_inconsistent" h)

check_total-Sums :
    (input output total read write : Option ℕ) (least : ℕ) {x : Unit {0}}
    → check_total input output total read write least ≡ ok x
    → Sums input output total
unfolding check_total
check_total-Sums (some i) (some o) (some t) read write least h =
    >>=-elim (check_least (some i) (some t) read write least) _ h λ _ _ h1.
      >>=-elim (sum (some i) (some o)) _ h1 λ whole e h2.
        let same : equality (some t) (some (i + o)) ≡ ok _ = rw (sum_known i o e) at h2 in
        equality_known t (i + o) same
check_total-Sums none output total read write least h = tt
check_total-Sums (some i) none total read write least h = tt
check_total-Sums (some i) (some o) none read write least h = tt

if_no_input-Fits :
    (input read write : Option ℕ)
    → Fits input read write
    → Fits input (if_no_input input read) (if_no_input input write)
if_no_input-Fits none read write f = tt
if_no_input-Fits (some i) read write f = elim (Bool-cases (i == 0)) [
  | inl e ↦ (rw e ground arith)
  | inr e ↦ (rw e f)
]

partition-Splits :
    (input output read write : Option ℕ)
    → Fits input read write
    → Splits input (partition input output read write)
unfolding partition
partition-Splits none output read write f = inr (refl, refl)
partition-Splits (some i) output none write f = inr (refl, refl)
partition-Splits (some i) output (some r) none f = inr (refl, refl)
partition-Splits (some i) output (some r) (some w) f =
    inl (i - r - w, r, w, refl, refl, refl, ap some (omega arith), refl)

rest_of_input-Within :
    (input read write : Option ℕ)
    → Within token_cap input
    → Within token_cap (rest_of_input input read write)
rest_of_input-Within (some i) (some r) (some w) f = omega arith
rest_of_input-Within none read write f = tt
rest_of_input-Within (some i) none write f = tt
rest_of_input-Within (some i) (some r) none f = tt

if_no_input-Within :
    (input part : Option ℕ) → Within token_cap part → Within token_cap (if_no_input input part)
if_no_input-Within none part f = f
if_no_input-Within (some i) part f = elim (Bool-cases (i == 0)) [
  | inl e ↦ (rw e ground arith)
  | inr e ↦ (rw e f)
]

partition-IsPartition :
    (input output total read write : Option ℕ)
    → Fits input read write
    → Sums input output total
    → Within token_cap input
    → Within token_cap output
    → Within token_cap read
    → Within token_cap write
    → IsPartition input total
        (partition input output (if_no_input input read) (if_no_input input write))
unfolding partition
partition-IsPartition input output total read write f s ci co cr cw =
    let fits = if_no_input-Fits input read write f in
    record {
      splits = partition-Splits input output _ _ fits;
      sums = s;
      within = (
        rest_of_input-Within input _ _ ci,
        if_no_input-Within input read cr,
        if_no_input-Within input write cw,
        co,
      );
    }

-- A response reports an input, an output and a total, and `m` partitions them.
abbrev pub Accounts : Value → Names → Mapped → Type 0
Accounts u n m =
    (input total : Option ℕ) × (count_tokens u n.input ≡ ok input)
    × (count_tokens u n.output ≡ ok m.tokens.output)
    × (count_tokens u "total_tokens" ≡ ok total)
    × IsPartition input total m

-- When the usage of a response is accepted, the output is the reported count. Either the uncached,
-- the read and the written tokens are known and sum to the reported input, or the first is unknown
-- and a note says so. Where input, output and total are reported, the total is the sum of the other
-- two. No known bucket exceeds the cap.
pub openai_usage-IsPartition :
    (u : Value) (responses : Bool) {m : Mapped}
    → openai_usage u responses ≡ ok m
    → Accounts u (openai_names responses) m
unfolding openai_usage
openai_usage-IsPartition u responses h =
    let n = openai_names responses in
    >>=-elim (fields u (openai_fields n)) _ h λ _ _ h1.
      >>=-elim (count_tokens u n.input) _ h1 λ input ei h2.
        >>=-elim (count_tokens u n.output) _ h2 λ output eo h3.
          >>=-elim (count_tokens u "total_tokens") _ h3 λ total et h4.
            >>=-elim (detail u n.input_details) _ h4 λ d _ h5.
              >>=-elim (fields d input_detail_fields) _ h5 λ _ _ h6.
                >>=-elim (zero_audio d) _ h6 λ _ _ h7.
                  >>=-elim (count_tokens d "cached_tokens") _ h7 λ read er h8.
                    >>=-elim (count_tokens d "cache_write_tokens") _ h8 λ write ew h9.
                      >>=-elim (check_input input read write) _ h9 λ _ ec h10.
                        >>=-elim (detail u n.output_details) _ h10 λ od _ h11.
                          >>=-elim (output_details od output output_detail_fields) _ h11 λ _ _ h12.
                            >>=-elim (least_output (members od) (count_or output 0)) _ h12
                              λ least _ h13.
                                >>=-elim (check_total input output total read write least) _ h13
                                  λ _ es h14. subst (Accounts u n) (ok_injective h14) (
                                    input,
                                    total,
                                    ei,
                                    eo,
                                    et,
                                    partition-IsPartition input output total read write
                                        (check_input-Fits input read write ec)
                                        (check_total-Sums input output total read write least es)
                                        (count_tokens-Within u n.input ei)
                                        (count_tokens-Within u n.output eo)
                                        (count_tokens-Within d "cached_tokens" er)
                                        (count_tokens-Within d "cache_write_tokens" ew),
                                  )
