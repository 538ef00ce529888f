-- ===== src/Accounting/Amounts.antt =====
-- The amounts that the input check lets through.
use mathlib.Core.Path.{subst}
use qbrain.Prelude.{
  ℕ, ◌≤◌, ◌≡◌, arith, Bool, true, false, Option, none, some, Bytes, length, ok, need, need-ok,
  >>=-elim, ok_injective, in_range, leb, if◌then◌else◌,
}
use qbrain.Prelude.{not, ◌&&◌, ◌||◌, is_empty, get_or, ◌==◌, ◌-◌}
use qbrain.Prelude.Int.{pos, negsuc}
use qbrain.Accounting.{
  rate, rate_parts, rate_at, rate_cap, token_cap, whole_end, find_dot, read_digits, scale_up,
}
use qbrain.Accounting.Input.{
  null, integer_number, string, array, object, other, Values, amount, amounts, integer, exact,
  field, bucket_names, Value,
}

abbrev pub Within : ℕ → Option ℕ → Type 0
Within cap none = Unit
Within cap (some n) = n ≤ cap

-- Each of the four amounts that is known is within a bound.
abbrev pub AllWithin : ℕ → Values → Type 0
AllWithin cap v =
    Within cap v.input_uncached
    × Within cap v.input_cache_read
    × Within cap v.input_cache_write
    × Within cap v.output

rate-le : (s : Bytes) {n : ℕ} → rate s ≡ ok n → n ≤ rate_cap
unfolding rate rate_parts rate_at
rate-le s h =
    let whole = whole_end s (find_dot s) in
    let decimals = length s - whole - 1 in
    >>=-elim (need (not (is_empty s) && leb (length s) 14) "cost_rate_decimal") _ h λ _ _ h1.
      >>=-elim
        (need (in_range 1 7 whole && (whole == 1 || not (get_or s 0 0 == b'0')))
          "cost_rate_decimal")
        _ h1
        λ _ _ h2.
          >>=-elim (need (whole == length s || in_range 1 6 decimals) "cost_rate_decimal") _ h2
            λ _ _ h3. >>=-elim (read_digits whole 0 s 0) _ h3 λ value _ h4.
              >>=-elim (scale_up (6 - decimals) value) _ h4 λ scaled _ h5.
                >>=-elim (need (leb scaled rate_cap) "cost_rate_range") _ h5 λ u fits h6.
                  subst (λ n. n ≤ rate_cap) (ok_injective h6)
                    (ground (arith, need-ok (leb scaled rate_cap) "cost_rate_range" fits))

pub integer-le : (j : Value) (maximum : ℕ) {n : ℕ} → integer j maximum ≡ ok n → n ≤ maximum
unfolding integer
integer-le (integer_number (pos n)) maximum h =
    >>=-elim (need (leb n maximum) "cost_quantity") _ h λ u fits h1.
      subst (λ n. n ≤ maximum) (ok_injective h1)
        (ground (arith, need-ok (leb n maximum) "cost_quantity" fits))
integer-le (integer_number (negsuc n)) maximum h = absurd (cc)
integer-le null maximum h = absurd (cc)
integer-le (string s) maximum h = absurd (cc)
integer-le (array vs) maximum h = absurd (cc)
integer-le (object ms) maximum h = absurd (cc)
integer-le other maximum h = absurd (cc)

abbrev pub cap_of : Bool → ℕ
cap_of prices = if prices then rate_cap else token_cap

amount-Within :
    (prices : Bool) (j : Value) {o : Option ℕ} → amount prices j ≡ ok o → Within (cap_of prices) o
unfolding amount
amount-Within prices null h = subst (Within (cap_of prices)) (ok_injective h) tt
amount-Within true (string s) h =
    >>=-elim (rate s) _ h λ n e h1. subst (Within rate_cap) (ok_injective h1) (rate-le s e)
amount-Within true (integer_number i) h = absurd (cc)
amount-Within true (array vs) h = absurd (cc)
amount-Within true (object ms) h = absurd (cc)
amount-Within true other h = absurd (cc)
amount-Within false (string s) h = absurd (cc)
amount-Within false (array vs) h = absurd (cc)
amount-Within false (object ms) h = absurd (cc)
amount-Within false other h = absurd (cc)
amount-Within false (integer_number i) h =
    >>=-elim (integer (integer_number i) token_cap) _ h λ n e h1.
      subst (Within token_cap) (ok_injective h1) (integer-le (integer_number i) token_cap e)

pub amounts-AllWithin :
    (j : Value) (prices : Bool) {v : Values} → amounts j prices ≡ ok v → AllWithin (cap_of prices) v
unfolding amounts
amounts-AllWithin j prices h = >>=-elim (exact j bucket_names) _ h λ _ _ h1.
    >>=-elim (amount prices (field j "input_uncached")) _ h1 λ a ea h2.
      >>=-elim (amount prices (field j "input_cache_read")) _ h2 λ b eb h3.
        >>=-elim (amount prices (field j "input_cache_write")) _ h3 λ w ew h4.
          >>=-elim (amount prices (field j "output")) _ h4 λ o eo h5.
            subst (AllWithin (cap_of prices)) (ok_injective h5) (
              amount-Within prices (field j "input_uncached") ea,
              amount-Within prices (field j "input_cache_read") eb,
              amount-Within prices (field j "input_cache_write") ew,
              amount-Within prices (field j "output") eo,
            )
