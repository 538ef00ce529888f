-- ===== src/Accounting/Exact.antt =====
-- The price of a call is exact, or the report ends with an overflow.
use native.Mathlib.Decide.{dec_lt}
use qbrain.Prelude.{
  ℕ, zero, suc, ◌+◌, ◌*◌, ◌≤◌, ◌<◌, ◌≡◌, refl, arith, Bool, Option, none, some, leb, if◌then◌else◌,
  Checked, ok, error, ◌>>=◌,
}
use qbrain.Accounting.{amount_max}
use qbrain.Accounting.Arith.{add-exact, add-overflow, multiply-exact, multiply-overflow}
use qbrain.Accounting.Input.{Rate, Call, Values}
use qbrain.Accounting.Pricing.{
  Component, Sum, component, tally, price_bucket, card_price, is_some, price_call, Row, priced,
  unpriced,
}

-- What a bucket costs, without a bound, and whether its cost is unknown.
abbrev pub cost_of : Option ℕ → Option ℕ → ℕ
cost_of (some t) (some p) = t * p
cost_of _ _ = 0

abbrev pub gap_of : Option ℕ → Option ℕ → ℕ
gap_of none price = 1
gap_of (some zero) price = 0
gap_of (some (suc t)) none = 1
gap_of (some (suc t)) (some p) = 0

abbrev sum : ℕ → ℕ → Sum
sum known gaps = record { known = known; gaps = gaps }

-- The entry that a round writes, where nothing overflows.
abbrev entry : Bool → Option ℕ → Option ℕ → Component
entry carded none price = unpriced price "usage_unknown"
entry carded (some zero) price = priced price 0
entry carded (some (suc t)) none =
    unpriced none (if carded then "rate_unknown" else "rate_card_missing")
entry carded (some (suc t)) (some p) = priced (some p) (suc t * p)

price_bucket-exact :
    (carded : Bool) (tokens price : Option ℕ) (known gaps : ℕ)
    → known + cost_of tokens price ≤ amount_max
    → price_bucket carded tokens price (sum known gaps)
      ≡ ok (
        entry carded tokens price,
        sum (known + cost_of tokens price) (gaps + gap_of tokens price),
      )
unfolding price_bucket component tally
price_bucket-exact carded none price known gaps h = ground arith
price_bucket-exact carded (some zero) none known gaps h = rw (add-exact known 0 h) (ground arith)
price_bucket-exact carded (some zero) (some p) known gaps h =
    rw (add-exact known 0 (omega arith)) (ground arith)
price_bucket-exact carded (some (suc t)) none known gaps h = ground arith
price_bucket-exact carded (some (suc t)) (some p) known gaps h =
    rw (multiply-exact (suc t) p (omega arith), add-exact known (suc t * p) h) (ground arith)

price_bucket-overflow :
    (carded : Bool) (tokens price : Option ℕ) (known gaps : ℕ)
    → known ≤ amount_max
    → amount_max < known + cost_of tokens price
    → price_bucket carded tokens price (sum known gaps) ≡ error "cost_overflow"
unfolding price_bucket component tally
price_bucket-overflow carded none price known gaps h over = absurd (omega arith)
price_bucket-overflow carded (some zero) none known gaps h over = absurd (omega arith)
price_bucket-overflow carded (some zero) (some p) known gaps h over = absurd (omega arith)
price_bucket-overflow carded (some (suc t)) none known gaps h over = absurd (omega arith)
price_bucket-overflow carded (some (suc t)) (some p) known gaps h over =
    elim (dec_lt amount_max (suc t * p)) [
      | yes product ↦ rw (multiply-overflow (suc t) p product) refl
      | no product ↦
          rw (multiply-exact (suc t) p (omega arith), add-overflow known (suc t * p) over h) refl
    ]

-- The cost and the gaps of a bucket of a call under its card.
abbrev bucket_cost : Option Rate → Call → (Values → Option ℕ) → ℕ
bucket_cost card c bucket = cost_of (bucket c.tokens) (card_price card bucket)

abbrev bucket_gap : Option Rate → Call → (Values → Option ℕ) → ℕ
bucket_gap card c bucket = gap_of (bucket c.tokens) (card_price card bucket)

-- What a call costs without a bound: tokens times price, over the buckets with both known.
abbrev pub call_cost : Option Rate → Call → ℕ
call_cost card c =
    bucket_cost card c (λ v. v.input_uncached)
    + bucket_cost card c (λ v. v.input_cache_read)
    + bucket_cost card c (λ v. v.input_cache_write)
    + bucket_cost card c (λ v. v.output)

-- How many buckets have tokens without a price, or unknown tokens.
abbrev pub call_gaps : Option Rate → Call → ℕ
call_gaps card c =
    bucket_gap card c (λ v. v.input_uncached)
    + bucket_gap card c (λ v. v.input_cache_read)
    + bucket_gap card c (λ v. v.input_cache_write)
    + bucket_gap card c (λ v. v.output)

-- The subtotal and the number of unknown components of a row.
abbrev pub subtotal : Checked Row → Checked (ℕ × ℕ)
subtotal r = do row ← r; ok (row.known, row.gaps)

-- The total as it is, or the error where it is no amount.
abbrev pub bounded : ℕ → ℕ → Checked (ℕ × ℕ)
bounded total gaps = if leb total amount_max then ok (total, gaps) else error "cost_overflow"

bounded-fits :
    {known gaps : ℕ} (total all : ℕ)
    → known ≡ total
    → gaps ≡ all
    → known ≤ amount_max
    → ok (known, gaps) ≡ bounded total all
bounded-fits total all k g h = ground arith

-- A subtotal that is reached is the exact one.
pub bounded-ok :
    (total all : ℕ) {known gaps : ℕ}
    → ok (known, gaps) ≡ bounded total all
    → (known ≡ total) × (gaps ≡ all)
bounded-ok total all h = ground arith

-- A round comes to the bounded total if the rest does wherever the round does not overflow.
price_bucket-bounded :
    (carded : Bool) (tokens price : Option ℕ) (known gaps total all : ℕ)
    (f : Component × Sum → Checked Row)
    → known ≤ amount_max
    → known + cost_of tokens price ≤ total
    → (known + cost_of tokens price ≤ amount_max
        → subtotal (
            f (
              entry carded tokens price,
              sum (known + cost_of tokens price) (gaps + gap_of tokens price),
            ))
          ≡ bounded total all)
    → subtotal (price_bucket carded tokens price (sum known gaps) >>= f) ≡ bounded total all
price_bucket-bounded carded tokens price known gaps total all f h below rest =
    elim (dec_lt amount_max (known + cost_of tokens price)) [
      | yes over ↦ rw (price_bucket-overflow carded tokens price known gaps h over) (ground arith)
      | no fits ↦
          rw (price_bucket-exact carded tokens price known gaps (omega arith)) (rest (omega arith))
    ]

-- The subtotal of a call is the exact sum of tokens times price over the buckets with both known,
-- and its gaps count the other buckets, except those with no tokens; if that sum exceeds the
-- greatest 64-bit number, the call ends with `cost_overflow`.
pub price_call-bounded :
    (card : Option Rate) (c : Call)
    → subtotal (price_call card c) ≡ bounded (call_cost card c) (call_gaps card c)
unfolding price_call
price_call-bounded card c =
    let t = c.tokens in
    let k = is_some card in
    let pa = card_price card (λ v. v.input_uncached) in
    let pb = card_price card (λ v. v.input_cache_read) in
    let pw = card_price card (λ v. v.input_cache_write) in
    let po = card_price card (λ v. v.output) in
    let a = cost_of t.input_uncached pa in
    let b = cost_of t.input_cache_read pb in
    let w = cost_of t.input_cache_write pw in
    let total = call_cost card c in
    let all = call_gaps card c in
    price_bucket-bounded k t.input_uncached pa 0 0 total all _ (omega arith) (omega arith) λ ha.
      price_bucket-bounded k t.input_cache_read pb _ _ total all _ ha (omega arith) λ hb.
        price_bucket-bounded k t.input_cache_write pw _ _ total all _ hb (omega arith) λ hw.
          price_bucket-bounded k t.output po _ _ total all _ hw (omega arith)
            λ ho. bounded-fits total all (omega arith) (omega arith) ho
