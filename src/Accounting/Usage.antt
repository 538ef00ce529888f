-- ===== src/Accounting/Usage.antt =====
-- include/qbrain/accounting/provider_usage.hpp: the tokens of a provider's response, in the buckets of
-- the cost reports.
use Prim.Native.String.{String}
use qbrain.Prelude.{
  ℕ, ◌+◌, ◌-◌, max, Bool, true, false, Option, none, some, List, [], ◌∷◌, Bytes, codes, all, ◌==◌,
  leb, if◌then◌else◌, text_mem, Checked, ok, error, need, ◌>>=◌, ◌>>◌,
}
use qbrain.Prelude.Int.{pos}
use qbrain.Accounting.{add, token_cap}
use qbrain.Accounting.Input.{
  Value, null, integer_number, object, Members, done, member, find_member, field, Values,
}

abbrev pub names : Members → List Bytes
names done = []
names (member key v ms) = key ∷ names ms

abbrev has_only : Value → List Bytes → Bool
has_only (object ms) allowed = all (λ k. text_mem k allowed) (names ms)
has_only _ allowed = false

abbrev pub is_object : Value → Bool
is_object (object ms) = true
is_object _ = false

unfoldable pub fields : Value → List Bytes → Checked (Unit {0})
unfolding text_mem
fields j allowed = do need (is_object j) "usage_object"; need (has_only j allowed) "usage_fields"

-- A field that is missing reads as `null`.
unfoldable pub count_of : Value → Checked (Option ℕ)
count_of null = ok none
count_of (integer_number (pos n)) = do need (leb n token_cap) "usage_quantity"; ok (some n)
count_of _ = error "usage_quantity"

abbrev pub count_tokens : Value → String → Checked (Option ℕ)
count_tokens j key = count_of (field j key)

unfoldable pub detail : Value → String → Checked Value
unfolding field
detail j key = elim (field j key) [
  | null ↦ ok (object done)
  | object ms ↦ ok (object ms)
  | _ ↦ error "usage_detail_object"
]

abbrev pub subset : Option ℕ → Option ℕ → Checked (Unit {0})
subset (some part) (some whole) = need (leb part whole) "usage_inconsistent"
subset _ _ = ok tt

abbrev pub equality : Option ℕ → Option ℕ → Checked (Unit {0})
equality (some actual) (some expected) = need (actual == expected) "usage_inconsistent"
equality _ _ = ok tt

abbrev pub sum : Option ℕ → Option ℕ → Checked (Option ℕ)
sum (some a) (some b) = do s ← add a b; ok (some s)
sum _ _ = ok none

abbrev pub count_or : Option ℕ → ℕ → ℕ
count_or none d = d
count_or (some n) d = n

abbrev pub is_zero_audio : Option ℕ → Bool
is_zero_audio none = false
is_zero_audio (some n) = n == 0

abbrev pub has_field : Value → String → Bool
has_field (object ms) key = elim (find_member (codes key) ms) [ none ↦ false | some _ ↦ true ]
has_field _ key = false

unfoldable pub zero_audio : Value → Checked (Unit {0})
unfolding field count_of
zero_audio d =
    if has_field d "audio_tokens"
    then (do n ← count_tokens d "audio_tokens"; need (is_zero_audio n) "usage_audio_unsupported")
    else ok tt

abbrev pub members : Value → Members
members (object ms) = ms
members _ = done

-- The loop over the items of a detail: none is more than the output.
unfoldable pub within_output : Members → Option ℕ → Checked (Unit {0})
unfolding count_of
within_output done output = ok tt
within_output (member key v ms) output = do n ← count_of v; subset n output; within_output ms output

unfoldable pub output_details : Value → Option ℕ → List Bytes → Checked (Unit {0})
unfolding fields within_output zero_audio
output_details d output allowed = do
  fields d allowed
  within_output (members d) output
  zero_audio d

-- The greatest known number of output tokens.
unfoldable pub least_output : Members → ℕ → Checked ℕ
unfolding count_of
least_output done least = ok least
least_output (member key v ms) least = do n ← count_of v; least_output ms (max least (count_or n 0))

pub record Mapped : Type 0 where
  pub tokens : Values
  pub notes : List String

-- The names of the fields of a chat completion and of a response.
pub record Names : Type 0 where
  pub input : String
  pub output : String
  pub input_details : String
  pub output_details : String

abbrev pub openai_names : Bool → Names
openai_names true = record {
  input = "input_tokens";
  output = "output_tokens";
  input_details = "input_tokens_details";
  output_details = "output_tokens_details";
}
openai_names false = record {
  input = "prompt_tokens";
  output = "completion_tokens";
  input_details = "prompt_tokens_details";
  output_details = "completion_tokens_details";
}

abbrev pub openai_fields : Names → List Bytes
openai_fields n =
    codes n.input
    ∷ codes n.output
    ∷ codes "total_tokens"
    ∷ codes n.input_details
    ∷ codes n.output_details
    ∷ []

abbrev pub input_detail_fields : List Bytes
input_detail_fields = codes "cached_tokens" ∷ codes "cache_write_tokens" ∷ codes "audio_tokens" ∷ []

abbrev pub output_detail_fields : List Bytes
output_detail_fields =
    codes "reasoning_tokens"
    ∷ codes "accepted_prediction_tokens"
    ∷ codes "rejected_prediction_tokens"
    ∷ codes "audio_tokens"
    ∷ []

-- Known parts may not exceed a known whole.
unfoldable pub check_input : (input read write : Option ℕ) → Checked (Unit {0})
unfolding add
check_input input read write = do
  subset read input
  subset write input
  both ← sum read write
  subset both input
  need (elim input [ none ↦ true | some i ↦ leb (count_or read 0 + count_or write 0) i ])
      "usage_inconsistent"

unfoldable pub check_least : (input total read write : Option ℕ) → ℕ → Checked (Unit {0})
unfolding add
check_least input none read write least = ok tt
check_least input (some t) read write least = do
  s ← add (count_or input (count_or read 0 + count_or write 0)) least
  need (leb s t) "usage_inconsistent"

unfoldable pub check_total : (input output total read write : Option ℕ) → ℕ → Checked (Unit {0})
unfolding check_least add
check_total input output total read write least = do
  check_least input total read write least
  whole ← sum input output
  equality total whole

-- A reported input of no tokens has none in its parts.
abbrev pub if_no_input : Option ℕ → Option ℕ → Option ℕ
if_no_input none part = part
if_no_input (some n) part = if n == 0 then some 0 else part

abbrev pub rest_of_input : (input read write : Option ℕ) → Option ℕ
rest_of_input (some i) (some r) (some w) = some (i - r - w)
rest_of_input _ _ _ = none

abbrev pub is_known : Option ℕ → Bool
is_known none = false
is_known (some n) = true

unfoldable pub partition : (input output read write : Option ℕ) → Mapped
partition input output read write = record {
  tokens = record {
    input_uncached = rest_of_input input read write;
    input_cache_read = read;
    input_cache_write = write;
    output = output;
  };
  notes = if is_known (rest_of_input input read write) then [] else "input_partition_unknown" ∷ [];
}

unfoldable pub openai_usage : Value → Bool → Checked Mapped
unfolding fields field count_of detail zero_audio check_input output_details least_output
    check_total partition
openai_usage u responses =
    let n = openai_names responses in
    do
      fields u (openai_fields n)
      input ← count_tokens u n.input
      output ← count_tokens u n.output
      total ← count_tokens u "total_tokens"
      d ← detail u n.input_details
      fields d input_detail_fields
      zero_audio d
      read ← count_tokens d "cached_tokens"
      write ← count_tokens d "cache_write_tokens"
      check_input input read write
      od ← detail u n.output_details
      output_details od output output_detail_fields
      least ← least_output (members od) (count_or output 0)
      check_total input output total read write least
      ok (partition input output (if_no_input input read) (if_no_input input write))
