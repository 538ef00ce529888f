-- ===== src/Accounting/Produced.antt =====
-- What a report that is produced says of its calls and rates.
use mathlib.Core.Path.{subst}
use qbrain.Prelude.{ℕ, ◌+◌, ◌≡◌, Bytes, length, ok, need, >>=-elim, ok_injective, leb}
use qbrain.Accounting.Input.{
  exact, Value, Parsed, parsed, rejected, parse_unique_json, input_cap, output_cap,
}
use qbrain.Accounting.Report.{
  read_input, Report, report, report_parsed, parse_report, account_all, no_totals,
}
use qbrain.Accounting.Totals.{Agrees, cost_sum, gap_sum, account_all-exact}
use qbrain.Accounting.Input.{byte_limit, duplicate_key, depth_limit, raw_nul, malformed}
use qbrain.Accounting.Accepted.{IsAccepted, read_input-IsAccepted}

-- The totals of a report are exact.
abbrev pub IsExact : Report → Type 0
IsExact r =
    Agrees r.totals
    × (r.totals.total.known ≡ cost_sum r.input.rates r.input.calls)
    × (r.totals.total.missing ≡ gap_sum r.input.rates r.input.calls)
    × (r.totals.total.calls ≡ length r.input.calls)

report-parts :
    (size : Report → ℕ) (root : Value) {r : Report}
    → report size root ≡ ok r
    → (read_input root ≡ ok r.input) × IsExact r
unfolding report
report-parts size root {r} h = >>=-elim (read_input root) _ h λ input ei h1.
    >>=-elim (account_all input.rates input.calls no_totals) _ h1 λ totals et h2.
      let out : Report = record { input = input; totals = totals } in
      >>=-elim (need (leb (size out + 1) output_cap) "cost_output_limit") _ h2 λ _ _ h3.
        subst (λ r. (read_input root ≡ ok r.input) × IsExact r) (ok_injective h3)
          (ei, account_all-exact input.rates input.calls totals et)

report_parsed-IsExact :
    (size : Report → ℕ) (p : Parsed) {r : Report}
    → report_parsed size p ≡ ok r
    → IsAccepted r.input × IsExact r
report_parsed-IsExact size (parsed root) h =
    let (input, exact) = report-parts size root h in (read_input-IsAccepted root input, exact)
report_parsed-IsExact size (rejected byte_limit) h = absurd (cc)
report_parsed-IsExact size (rejected duplicate_key) h = absurd (cc)
report_parsed-IsExact size (rejected depth_limit) h = absurd (cc)
report_parsed-IsExact size (rejected raw_nul) h = absurd (cc)
report_parsed-IsExact size (rejected malformed) h = absurd (cc)

-- A report that is produced, from any text, has an accepted input: at most 64 rate cards and 512
-- calls, each list in strictly increasing order of its distinct keys, every known rate at most
-- 10^12 and token count at most 10^9, attempts from 1 to 100, known stages and outcomes. Its
-- summary is the exact sum of tokens times price over all calls and buckets with both known; the
-- gaps are those of the calls, the count is their number, and the totals by stage, as those by rate
-- card, add up to the summary in all three.
pub parse_report-IsExact :
    (size : Report → ℕ) (parser : ℕ → Bytes → Parsed) (raw : Bytes) (r : Report)
    → parse_report size parser raw ≡ ok r
    → IsAccepted r.input × IsExact r
unfolding parse_report
parse_report-IsExact size parser raw r h =
    report_parsed-IsExact size (parse_unique_json parser raw input_cap 16) h
