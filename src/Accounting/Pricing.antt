-- ===== src/Accounting/Pricing.antt =====
-- include/qbrain/accounting/token_cost.hpp: the price of one call, and the totals it is added to.
use Prim.Native.String.{String}
use qbrain.Prelude.{
  ℕ, zero, suc, Bool, true, false, Option, none, some, codes, ltb, if◌then◌else◌, text_eq, Checked,
  ok, ◌>>=◌,
}
use qbrain.Accounting.{add, multiply}
use qbrain.Accounting.Input.{Four, Values, Rate, Call}

-- One entry of `components`: the price, the cost, or why there is none.
pub record Component : Type 0 where
  pub price : Option ℕ
  pub cost : Option ℕ
  pub missing : Option String

-- The subtotal and the number of unknown components after some buckets.
pub record Sum : Type 0 where
  pub known : ℕ
  pub gaps : ℕ

abbrev pub priced : Option ℕ → ℕ → Component
priced price cost = record { price = price; cost = some cost; missing = none }

abbrev pub unpriced : Option ℕ → String → Component
unpriced price why = record { price = price; cost = none; missing = some why }

-- `carded`: does the call's rate card exist?
unfoldable pub component : Bool → Option ℕ → Option ℕ → Checked Component
unfolding multiply
component carded none price = ok (unpriced price "usage_unknown")
component carded (some zero) price = ok (priced price 0)
component carded (some (suc t)) none =
    ok (unpriced none (if carded then "rate_unknown" else "rate_card_missing"))
component carded (some (suc t)) (some p) = do cost ← multiply (suc t) p; ok (priced (some p) cost)

-- `if(cost) known=add(known,*cost); else ++gaps`.
unfoldable pub tally : Sum → Option ℕ → Checked Sum
unfolding add
tally s none = ok (record s { gaps = suc s.gaps })
tally s (some cost) = do known ← add s.known cost; ok (record s { known = known })

pub record Row : Type 0 where
  pub call : Call
  pub components : Four Component
  pub known : ℕ
  pub gaps : ℕ

abbrev pub card_price : Option Rate → (Values → Option ℕ) → Option ℕ
card_price none bucket = none
card_price (some card) bucket = bucket card.values

abbrev pub is_some {ℓ} : {A : Type ℓ} → Option A → Bool
is_some none = false
is_some (some a) = true

-- One round of the loop over the buckets.
unfoldable pub price_bucket : Bool → Option ℕ → Option ℕ → Sum → Checked (Component × Sum)
unfolding component tally
price_bucket carded tokens price s = do
  c ← component carded tokens price
  next ← tally s c.cost
  ok (c, next)

-- The buckets in their order; the first overflow ends the report.
unfoldable pub price_call : Option Rate → Call → Checked Row
unfolding price_bucket
price_call card c = do
  let carded = is_some card
  let start : Sum = record { known = 0; gaps = 0 }
  (a, sa) ←
      price_bucket carded c.tokens.input_uncached (card_price card (λ v. v.input_uncached)) start
  (b, sb) ←
      price_bucket carded c.tokens.input_cache_read (card_price card (λ v. v.input_cache_read)) sa
  (w, sw) ←
      price_bucket carded c.tokens.input_cache_write (card_price card (λ v. v.input_cache_write)) sb
  (o, s) ← price_bucket carded c.tokens.output (card_price card (λ v. v.output)) sw
  ok (record {
    call = c;
    components = record {
      input_uncached = a;
      input_cache_read = b;
      input_cache_write = w;
      output = o;
    };
    known = s.known;
    gaps = s.gaps;
  })

pub record Aggregate : Type 0 where
  pub calls : ℕ
  pub failed : ℕ
  pub unknown_outcomes : ℕ
  pub retries : ℕ
  pub known : ℕ
  pub missing : ℕ
  pub tokens : Four ℕ
  pub unknown_tokens : Four ℕ

abbrev four_zeros : Four ℕ
four_zeros = record { input_uncached = 0; input_cache_read = 0; input_cache_write = 0; output = 0 }

abbrev pub no_calls : Aggregate
no_calls = record {
  calls = 0;
  failed = 0;
  unknown_outcomes = 0;
  retries = 0;
  known = 0;
  missing = 0;
  tokens = four_zeros;
  unknown_tokens = four_zeros;
}

-- `failed += test`.
abbrev pub plus : ℕ → Bool → ℕ
plus n test = if test then suc n else n

-- `if(c.tokens[i]) tokens[i]=add(tokens[i],*c.tokens[i])`.
unfoldable pub add_tokens : ℕ → Option ℕ → Checked ℕ
unfolding add
add_tokens n none = ok n
add_tokens n (some t) = add n t

-- `else ++unknown_tokens[i]`.
abbrev pub add_unknown : ℕ → Option ℕ → ℕ
add_unknown n none = suc n
add_unknown n (some t) = n

-- The four tokens totals.
unfoldable pub include_tokens : Four ℕ → Values → Checked (Four ℕ)
unfolding add_tokens
include_tokens t v = do
  a ← add_tokens t.input_uncached v.input_uncached
  b ← add_tokens t.input_cache_read v.input_cache_read
  w ← add_tokens t.input_cache_write v.input_cache_write
  o ← add_tokens t.output v.output
  ok (record { input_uncached = a; input_cache_read = b; input_cache_write = w; output = o })

abbrev include_unknown : Four ℕ → Values → Four ℕ
include_unknown u v = record {
  input_uncached = add_unknown u.input_uncached v.input_uncached;
  input_cache_read = add_unknown u.input_cache_read v.input_cache_read;
  input_cache_write = add_unknown u.input_cache_write v.input_cache_write;
  output = add_unknown u.output v.output;
}

unfoldable pub include : Aggregate → Row → Checked Aggregate
unfolding add include_tokens
include t row = do
  calls ← add t.calls 1
  known ← add t.known row.known
  missing ← add t.missing row.gaps
  tokens ← include_tokens t.tokens row.call.tokens
  ok (record {
    calls = calls;
    failed = plus t.failed (text_eq row.call.outcome (codes "failure"));
    unknown_outcomes = plus t.unknown_outcomes (text_eq row.call.outcome (codes "unknown"));
    retries = plus t.retries (ltb 1 row.call.attempt);
    known = known;
    missing = missing;
    tokens = tokens;
    unknown_tokens = include_unknown t.unknown_tokens row.call.tokens;
  })
