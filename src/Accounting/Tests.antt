-- ===== src/Accounting/Tests.antt =====
-- The accounting on small inputs: two calls, one of them without a rate card.
use Prim.Native.String.{String}
use qbrain.Prelude.{
  text_eq, true, false, ℕ, ◌≡◌, refl, none, some, [], Bytes, codes, ok, error, arith,
}
use qbrain.Prelude.Int.{pos}
use qbrain.Accounting.{rate, decimal}
use qbrain.Accounting.Input.{
  Value, null, integer_number, string, array, object, end, element, done, member, Parsed, parsed,
  Rate, Call,
}
use qbrain.Accounting.Pricing.{price_call}
use qbrain.Accounting.Report.{Report, report, parse_report, no_totals}
use qbrain.Accounting.Decimal.{rate-decimal}
use qbrain.Accounting.Exact.{subtotal, price_call-bounded}
use qbrain.Accounting.Accepted.{IsAccepted}
use qbrain.Accounting.Produced.{IsExact, parse_report-IsExact}
use qbrain.Accounting.Usage.{Mapped, openai_usage, openai_names}
use qbrain.Accounting.Partition.{Accounts, openai_usage-IsPartition}

abbrev four : Value → Value → Value → Value → Value
four a b c d = object (
    member (codes "input_uncached") a (
      member (codes "input_cache_read") b
        (member (codes "input_cache_write") c (member (codes "output") d done))))

abbrev text : String → Value
text s = string (codes s)

abbrev number : ℕ → Value
number n = integer_number (pos n)

abbrev card : Value
card = object (
    member (codes "rate_id") (text "r1") (
      member (codes "provider") (text "p") (
        member (codes "model") (text "m") (
          member (codes "per_million") (four (text "2.5") (text "0") null (text "10.000000"))
            done))))

abbrev call : String → String → Value → Value
call name rate_id tokens = object (
    member (codes "call_id") (text name) (
      member (codes "stage") (text "main") (
        member (codes "rate_id") (text rate_id) (
          member (codes "attempt") (number 1)
            (member (codes "outcome") (text "success") (member (codes "tokens") tokens done))))))

abbrev root : Value
root = object (
    member (codes "schema") (text "qbrain-cost-input-v1") (
      member (codes "currency") (text "USD") (
        member (codes "rates") (array (element card end)) (
          member (codes "calls")
            (array (
              element (call "b" "r2" (four (number 1) null (number 0) (number 7))) (
                element (call "a" "r1" (four (number 1000) (number 20) (number 3) (number 4)))
                  end)))
            done))))

-- A parser that knows one text.
abbrev one_text : ℕ → Bytes → Parsed
one_text depth raw = parsed root

abbrev no_size : Report → ℕ
no_size r = 0

-- What one line of input is reported as.
abbrev produced : Report
unfolding parse_report
produced = elim (parse_report no_size one_text (codes "{}")) [
  | ok r ↦ r
  | error code ↦ record {
    input = record { currency = []; rates = []; calls = [] };
    totals = no_totals;
  }
]

parse_report-IsExact_example : IsAccepted produced.input × IsExact produced
unfolding parse_report report text_eq
parse_report-IsExact_example = parse_report-IsExact no_size one_text (codes "{}") produced refl

read_rate_text : rate (decimal 1250000 1000000 6) ≡ ok 1250000
read_rate_text = rate-decimal 1250000 (omega arith)

abbrev dear : Rate
dear = record {
  provider = codes "p";
  model = codes "m";
  values = record {
    input_uncached = some 1000000000000;
    input_cache_read = none;
    input_cache_write = none;
    output = some 5;
  };
}

abbrev heavy : Call
heavy = record {
  call_id = codes "c";
  stage = codes "main";
  rate_id = codes "r";
  outcome = codes "success";
  attempt = 1;
  tokens = record {
    input_uncached = some 1000000000;
    input_cache_read = some 0;
    input_cache_write = none;
    output = some 3;
  };
}

-- A call within all caps whose cost is no 64-bit number.
price_call-bounded_example : subtotal (price_call (some dear) heavy) ≡ error "cost_overflow"
price_call-bounded_example = price_call-bounded (some dear) heavy

rate_tests :
    (rate (codes "0.5") ≡ ok 500000)
    × (rate (codes "7") ≡ ok 7000000)
    × (rate (codes "07") ≡ error "cost_rate_decimal")
    × (rate (codes "1.") ≡ error "cost_rate_decimal")
    × (rate (codes "1.2.3") ≡ error "cost_rate_decimal")
    × (rate (codes "1000000.000001") ≡ error "cost_rate_range")
    × (decimal 2540000000 1000000000000 12 ≡ codes "0.002540000000")
unfolding rate decimal
rate_tests = (refl, refl, refl, refl, refl, refl, refl)

abbrev usage : Value → Value → Value
usage total cached = object (
    member (codes "prompt_tokens") (number 10) (
      member (codes "completion_tokens") (number 4) (
        member (codes "total_tokens") total (
          member (codes "prompt_tokens_details")
            (object (
              member (codes "cached_tokens") cached
                (member (codes "cache_write_tokens") (number 1) done)))
            done))))

abbrev buckets : Mapped
buckets = record {
  tokens = record {
    input_uncached = some 3;
    input_cache_read = some 6;
    input_cache_write = some 1;
    output = some 4;
  };
  notes = [];
}

usage_mapped : openai_usage (usage (number 14) (number 6)) false ≡ ok buckets
unfolding openai_usage text_eq
usage_mapped = refl

openai_usage-IsPartition_example :
    Accounts (usage (number 14) (number 6)) (openai_names false) buckets
openai_usage-IsPartition_example =
    openai_usage-IsPartition (usage (number 14) (number 6)) false usage_mapped

usage_tests :
    (openai_usage (usage (number 15) (number 6)) false ≡ error "usage_inconsistent")
    × (openai_usage (usage null (number 10)) false ≡ error "usage_inconsistent")
    × (openai_usage (usage null (number 9)) true ≡ error "usage_fields")
unfolding openai_usage text_eq
usage_tests = (refl, refl, refl)
