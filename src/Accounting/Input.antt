-- ===== src/Accounting/Input.antt =====
-- include/qbrain/accounting/token_cost.hpp and util/strict_json.hpp: the checked reading of the
-- input. A JSON value is what the vendored library returns; its parser is a parameter.
use Prim.Native.String.{String}
use qbrain.Prelude.{
  ℕ, suc, Bool, true, false, not, ◌&&◌, ◌||◌, Option, none, some, List, [], ◌∷◌, Bytes, codes,
  length, is_empty, all, any, ◌==◌, ltb, leb, in_range, if◌then◌else◌, text_eq, text_mem, Checked,
  ok, error, need, ◌>>=◌, ◌>>◌,
}
use qbrain.Prelude.Int.{ℤ, pos}
use qbrain.Accounting.{token_cap, rate}

-- `other` is a Boolean or a number that is no integer. The keys of an object are distinct.
mutual
  pub data Value : Type 0 where
    null : Value
    integer_number : ℤ → Value
    string : Bytes → Value
    array : Elements → Value
    object : Members → Value
    other : Value

  pub data Elements : Type 0 where
    end : Elements
    element : Value → Elements → Elements

  pub data Members : Type 0 where
    done : Members
    member : Bytes → Value → Members → Members

abbrev pub output_cap : ℕ
output_cap = 2097152

abbrev pub input_cap : ℕ
input_cap = 262144

-- Why the text is no value; `malformed` stands for an exception of the vendored parser.
pub data JsonInputFailure : Type 0 where
  duplicate_key depth_limit byte_limit raw_nul malformed : JsonInputFailure

pub data Parsed : Type 0 where
  parsed : Value → Parsed
  rejected : JsonInputFailure → Parsed

-- `parser` is the vendored parser with the callback that refuses depth and repeated keys.
unfoldable pub parse_unique_json : (ℕ → Bytes → Parsed) → Bytes → ℕ → ℕ → Parsed
parse_unique_json parser raw max_bytes max_depth =
    if ltb max_bytes (length raw)
    then rejected byte_limit
    else if any (λ c. c == 0) raw
    then rejected raw_nul
    else parser max_depth raw

abbrev pub elements : Elements → List Value
elements end = []
elements (element v vs) = v ∷ elements vs

abbrev size : Members → ℕ
size done = 0
size (member key v ms) = suc (size ms)

abbrev pub find_member : Bytes → Members → Option Value
find_member key done = none
find_member key (member k v ms) = if text_eq k key then some v else find_member key ms

abbrev or_null : Option Value → Value
or_null none = null
or_null (some v) = v

-- `j[field]`; the code reads a field after `exact` has found it.
unfoldable pub field : Value → String → Value
field (object ms) name = or_null (find_member (codes name) ms)
field _ name = null

abbrev has_member : Members → Bytes → Bool
has_member ms name = elim (find_member name ms) [ none ↦ false | some _ ↦ true ]

abbrev is_exact : Value → List Bytes → Bool
is_exact (object ms) fields = size ms == length fields && all (has_member ms) fields
is_exact _ fields = false

unfoldable pub exact : Value → List Bytes → Checked (Unit {0})
exact j fields = need (is_exact j fields) "cost_fields"

abbrev pub is_id_char : ℕ → Bool
is_id_char c =
    in_range b'a' b'z' c
    || in_range b'A' b'Z' c
    || in_range b'0' b'9' c
    || c == b'_'
    || c == b'-'
    || c == b'.'
    || c == b':'

unfoldable pub is_id : Bytes → Bool
is_id s = not (is_empty s) && leb (length s) 64 && all is_id_char s

unfoldable pub id : Value → Checked Bytes
unfolding is_id
id (string s) = do need (is_id s) "cost_identifier"; ok s
id _ = error "cost_identifier"

unfoldable pub integer : Value → ℕ → Checked ℕ
integer (integer_number (pos n)) maximum = do need (leb n maximum) "cost_quantity"; ok n
integer _ maximum = error "cost_quantity"

-- An array over the four `buckets`.
pub record Four {ℓ} (A : Type ℓ) : Type ℓ where
  pub input_uncached : A
  pub input_cache_read : A
  pub input_cache_write : A
  pub output : A

abbrev pub Values : Type 0
Values = Four (Option ℕ)

-- One amount: a price or a number of tokens, `none` for null.
unfoldable pub amount : Bool → Value → Checked (Option ℕ)
unfolding rate integer
amount prices null = ok none
amount true (string s) = do n ← rate s; ok (some n)
amount true _ = error "cost_rate_decimal"
amount false j = do n ← integer j token_cap; ok (some n)

abbrev pub bucket_names : List Bytes
bucket_names =
    codes "input_uncached"
    ∷ codes "input_cache_read"
    ∷ codes "input_cache_write"
    ∷ codes "output"
    ∷ []

unfoldable pub amounts : Value → Bool → Checked Values
unfolding amount exact field
amounts j prices = do
  exact j bucket_names
  a ← amount prices (field j "input_uncached")
  b ← amount prices (field j "input_cache_read")
  c ← amount prices (field j "input_cache_write")
  d ← amount prices (field j "output")
  ok (record { input_uncached = a; input_cache_read = b; input_cache_write = c; output = d })

pub record Rate : Type 0 where
  pub provider : Bytes
  pub model : Bytes
  pub values : Values

pub record Call : Type 0 where
  pub call_id : Bytes
  pub stage : Bytes
  pub rate_id : Bytes
  pub outcome : Bytes
  pub attempt : ℕ
  pub tokens : Values

abbrev pub root_fields : List Bytes
root_fields = codes "schema" ∷ codes "currency" ∷ codes "rates" ∷ codes "calls" ∷ []

abbrev pub rate_fields : List Bytes
rate_fields = codes "rate_id" ∷ codes "provider" ∷ codes "model" ∷ codes "per_million" ∷ []

unfoldable pub read_rate : Value → Checked (Bytes × Rate)
unfolding exact field id amounts
read_rate r = do
  exact r rate_fields
  key ← id (field r "rate_id")
  provider ← id (field r "provider")
  model ← id (field r "model")
  values ← amounts (field r "per_million") true
  ok (key, record { provider = provider; model = model; values = values })

abbrev pub stages : List Bytes
stages =
    codes "main"
    ∷ codes "embedding"
    ∷ codes "summary"
    ∷ codes "extraction"
    ∷ codes "rerank"
    ∷ codes "other"
    ∷ []

abbrev pub outcomes : List Bytes
outcomes = codes "success" ∷ codes "failure" ∷ codes "unknown" ∷ []

abbrev pub call_fields : List Bytes
call_fields =
    codes "call_id"
    ∷ codes "stage"
    ∷ codes "rate_id"
    ∷ codes "attempt"
    ∷ codes "outcome"
    ∷ codes "tokens"
    ∷ []

-- The checks of the loop over the calls, after the fields are read.
unfoldable pub check_call : Call → Checked (Unit {0})
unfolding text_mem
check_call c = do
  need (leb 1 c.attempt) "cost_attempt"
  need (text_mem c.stage stages) "cost_stage"
  need (text_mem c.outcome outcomes) "cost_outcome"

unfoldable pub read_call : Value → Checked Call
unfolding exact field id integer amounts check_call
read_call j = do
  exact j call_fields
  call_id ← id (field j "call_id")
  stage ← id (field j "stage")
  rate_id ← id (field j "rate_id")
  outcome ← id (field j "outcome")
  attempt ← integer (field j "attempt") 100
  tokens ← amounts (field j "tokens") false
  let c : Call = record {
    call_id = call_id;
    stage = stage;
    rate_id = rate_id;
    outcome = outcome;
    attempt = attempt;
    tokens = tokens;
  }
  check_call c
  ok c
