-- ===== src/Accounting/Report.antt =====
-- include/qbrain/accounting/token_cost.hpp: the report. A `std::map` is the list of its entries in
-- the order of their keys.
use Prim.Native.String.{String}
use qbrain.Prelude.{
  text_less, ℕ, ◌+◌, Bool, false, ◌&&◌, Option, none, some, List, [], ◌∷◌, ◌++◌, Bytes, codes,
  length, all, ◌==◌, leb, in_range, if◌then◌else◌, text_eq, Checked, ok, error, need, ◌>>=◌, ◌>>◌,
}
use qbrain.Accounting.Input.{
  Value, array, string, elements, Parsed, parsed, rejected, byte_limit, duplicate_key, input_cap,
  output_cap, parse_unique_json, root_fields, exact, field, Rate, Call, read_rate, read_call,
}
use qbrain.Accounting.Pricing.{Row, price_call, Aggregate, no_calls, include}

module _ {ℓ} {A : Type ℓ} where
  -- `map.find(key)`.
  unfoldable pub map_find : Bytes → List (Bytes × A) → Option A
  map_find key [] = none
  map_find key ((k, a) ∷ entries) = if text_eq k key then some a else map_find key entries

  -- `map[key] = f(map[key])`, with what stands for a missing entry.
  unfoldable pub map_update :
      Bytes → (Option A → Checked A) → List (Bytes × A) → Checked (List (Bytes × A))
  unfolding text_less
  map_update key f [] = do a ← f none; ok ((key, a) ∷ [])
  map_update key f ((k, a) ∷ entries) =
      let here = (do b ← f (some a); ok ((k, b) ∷ entries)) in
      let before = (do b ← f none; ok ((key, b) ∷ (k, a) ∷ entries)) in
      let later = (do rest ← map_update key f entries; ok ((k, a) ∷ rest)) in
      if text_eq k key then here else if text_less key k then before else later

-- `need(map.emplace(key, a).second, code)`.
abbrev pub fresh {ℓ} : {A : Type ℓ} → String → A → Option A → Checked A
fresh code a none = ok a
fresh code a (some old) = error code

unfoldable pub read_rates : List Value → List (Bytes × Rate) → Checked (List (Bytes × Rate))
unfolding read_rate map_update
read_rates [] rates = ok rates
read_rates (j ∷ js) rates = do
  (key, card) ← read_rate j
  more ← map_update key (fresh "cost_duplicate_rate" card) rates
  read_rates js more

unfoldable pub read_calls : List Value → List (Bytes × Call) → Checked (List (Bytes × Call))
unfolding read_call map_update
read_calls [] calls = ok calls
read_calls (j ∷ js) calls = do
  c ← read_call j
  more ← map_update c.call_id (fresh "cost_duplicate_call" c) calls
  read_calls js more

pub record Totals : Type 0 where
  pub rows : List Row
  pub total : Aggregate
  pub stage_totals : List (Bytes × Aggregate)
  pub rate_totals : List (Bytes × Aggregate)

abbrev pub or_no_calls : Option Aggregate → Aggregate
or_no_calls none = no_calls
or_no_calls (some t) = t

-- `totals[key].include(…)`.
unfoldable pub include_at :
    Bytes → Row → List (Bytes × Aggregate) → Checked (List (Bytes × Aggregate))
unfolding map_update include
include_at key row totals = map_update key (λ old. include (or_no_calls old) row) totals

-- The body of the loop over the calls: the row, then the three totals.
unfoldable pub account : List (Bytes × Rate) → Call → Totals → Checked Totals
unfolding price_call include include_at map_find
account rates c t = do
  row ← price_call (map_find c.rate_id rates) c
  total ← include t.total row
  stage_totals ← include_at c.stage row t.stage_totals
  rate_totals ← include_at c.rate_id row t.rate_totals
  ok (record {
    rows = t.rows ++ (row ∷ []);
    total = total;
    stage_totals = stage_totals;
    rate_totals = rate_totals;
  })

unfoldable pub account_all : List (Bytes × Rate) → List (Bytes × Call) → Totals → Checked Totals
unfolding account
account_all rates [] t = ok t
account_all rates ((key, c) ∷ calls) t = do more ← account rates c t; account_all rates calls more

-- The checked input: its currency, rate cards and calls.
pub record Input : Type 0 where
  pub currency : Bytes
  pub rates : List (Bytes × Rate)
  pub calls : List (Bytes × Call)

pub record Report : Type 0 where
  pub input : Input
  pub totals : Totals

abbrev pub no_totals : Totals
no_totals = record { rows = []; total = no_calls; stage_totals = []; rate_totals = [] }

-- A string member, and an array member of at most `most` elements.
unfoldable pub read_string : Value → String → Checked Bytes
read_string (string s) code = ok s
read_string _ code = error code

unfoldable pub read_array : Value → ℕ → String → Checked (List Value)
read_array (array vs) most code = do need (leb (length (elements vs)) most) code; ok (elements vs)
read_array _ most code = error code

abbrev pub is_schema : Value → Bool
is_schema (string s) = text_eq s (codes "qbrain-cost-input-v1")
is_schema _ = false

abbrev pub max_rates : ℕ
max_rates = 64

abbrev pub max_calls : ℕ
max_calls = 512

abbrev pub is_currency : Bytes → Bool
is_currency s = length s == 3 && all (in_range b'A' b'Z') s

-- The first part of `report`, which reads and checks the input.
unfoldable pub read_input : Value → Checked Input
unfolding exact field read_string read_array read_rates read_calls
read_input root = do
  exact root root_fields
  need (is_schema (field root "schema")) "cost_schema"
  currency ← read_string (field root "currency") "cost_currency"
  need (is_currency currency) "cost_currency"
  rate_values ← read_array (field root "rates") max_rates "cost_rate_count"
  call_values ← read_array (field root "calls") max_calls "cost_call_count"
  rates ← read_rates rate_values []
  calls ← read_calls call_values []
  ok (record { currency = currency; rates = rates; calls = calls })

-- `size` is the length of the text that the vendored library writes for the report.
module _ (size : Report → ℕ) where
  unfoldable pub report : Value → Checked Report
  unfolding read_input account_all
  report root = do
    input ← read_input root
    totals ← account_all input.rates input.calls no_totals
    let out : Report = record { input = input; totals = totals }
    need (leb (size out + 1) output_cap) "cost_output_limit"
    ok out

  abbrev pub report_parsed : Parsed → Checked Report
  report_parsed (parsed root) = report root
  report_parsed (rejected byte_limit) = error "cost_input_limit"
  report_parsed (rejected duplicate_key) = error "cost_duplicate_key"
  report_parsed (rejected _) = error "cost_invalid_json"

  unfoldable pub parse_report : (ℕ → Bytes → Parsed) → Bytes → Checked Report
  unfolding parse_unique_json
  parse_report parser raw = report_parsed (parse_unique_json parser raw input_cap 16)
