-- ===== src/Accounting.antt =====
-- include/qbrain/accounting/token_cost.hpp: amounts of 64 bits with checked arithmetic, decimal
-- texts, and the rates of a card.
pub mod Input
pub mod Pricing
pub mod Report
pub mod Arith
pub mod Decimal
pub mod Exact
pub mod Totals
pub mod Maps
pub mod Amounts
pub mod Accepted
pub mod Produced
pub mod Usage
pub mod Partition
mod Tests
use Prim.Native.String.{String}
use qbrain.Prelude.{
  digit, digits_of, to_string, zeros, is_digit, ℕ, zero, suc, ◌+◌, ◌-◌, ◌*◌, ◌/◌, ◌%◌, Bool, true,
  false, not, ◌&&◌, ◌||◌, Option, none, some, List, [], ◌∷◌, ◌++◌, Bytes, length, get_or, is_empty,
  ◌==◌, ltb, leb, in_range, if◌then◌else◌, Checked, ok, error, need, ◌>>=◌, ◌>>◌,
}

-- The greatest `std::uint64_t`.
abbrev pub amount_max : ℕ
amount_max = 18446744073709551615

abbrev pub rate_scale : ℕ
rate_scale = 1000000

abbrev pub cost_scale : ℕ
cost_scale = 1000000000000

abbrev pub token_cap : ℕ
token_cap = 1000000000

abbrev pub rate_cap : ℕ
rate_cap = 1000000000000

unfoldable pub add : ℕ → ℕ → Checked ℕ
add a b = do need (leb b (amount_max - a)) "cost_overflow"; ok (a + b)

unfoldable pub multiply : ℕ → ℕ → Checked ℕ
multiply a b = do need (a == 0 || leb b (amount_max / a)) "cost_overflow"; ok (a * b)

unfoldable pub decimal : ℕ → ℕ → ℕ → Bytes
unfolding to_string zeros
decimal n scale digits =
    let tail = to_string (n % scale) in
    to_string (n / scale) ++ (b'.' ∷ zeros (digits - length tail) ++ tail)

-- `s.find('.')`.
unfoldable pub find_dot : Bytes → Option ℕ
find_dot [] = none
find_dot (c ∷ s) =
    if c == b'.' then some 0 else elim (find_dot s) [ none ↦ none | some i ↦ some (suc i) ]

-- The digits from index `i` on, without the dot at index `dot`.
unfoldable pub read_digits : ℕ → ℕ → Bytes → ℕ → Checked ℕ
unfolding add multiply
read_digits dot i [] value = ok value
read_digits dot i (c ∷ s) value =
    let next = (do
      need (is_digit c) "cost_rate_decimal"
      tens ← multiply value 10
      sum ← add tens (c - b'0')
      read_digits dot (suc i) s sum) in
    let skipped = read_digits dot (suc i) s value in if i == dot then skipped else next

-- `for(i=decimals;i<6;++i) value=multiply(value,10)`, with the rounds that are left.
unfoldable pub scale_up : ℕ → ℕ → Checked ℕ
unfolding multiply
scale_up zero value = ok value
scale_up (suc left) value = do tens ← multiply value 10; scale_up left tens

-- `rate` on a text whose dot, if it has one, is at `dot`; without one `dot` is past the end.
unfoldable pub rate_at : Bytes → ℕ → ℕ → Checked ℕ
unfolding read_digits scale_up
rate_at s dot decimals = do
  value ← read_digits dot 0 s 0
  scaled ← scale_up (6 - decimals) value
  need (leb scaled rate_cap) "cost_rate_range"
  ok scaled

-- Where the digits before the dot end: at the end of a text without a dot.
abbrev pub whole_end : Bytes → Option ℕ → ℕ
whole_end s none = length s
whole_end s (some dot) = dot

unfoldable pub rate_parts : Bytes → ℕ → Checked ℕ
unfolding rate_at
rate_parts s whole = do
  need (in_range 1 7 whole && (whole == 1 || not (get_or s 0 0 == b'0'))) "cost_rate_decimal"
  let decimals = length s - whole - 1
  need (whole == length s || in_range 1 6 decimals) "cost_rate_decimal"
  rate_at s whole decimals

-- The value of a string, in units of 10^-6.
unfoldable pub rate : Bytes → Checked ℕ
unfolding find_dot rate_parts
rate s = do
  need (not (is_empty s) && leb (length s) 14) "cost_rate_decimal"
  rate_parts s (whole_end s (find_dot s))
