-- ===== src/Accounting/Totals.antt =====
-- The totals of the report: by stage and by rate card they add up to the summary.
use mathlib.Core.Path.{subst}
use qbrain.Prelude.{
  text_less, ℕ, ◌+◌, ◌≡◌, refl, ◌∙◌, ap, sym, arith, Bool-cases, inl, inr, Option, none, some, List,
  [], ◌∷◌, ◌++◌, Bytes, length, text_eq, Checked, ok, >>=-ok, >>=-elim, ok_injective,
}
use qbrain.Accounting.{add}
use qbrain.Accounting.Input.{Rate, Call}
use qbrain.Accounting.Pricing.{Row, Aggregate, no_calls, include, include_tokens, price_call}
use qbrain.Accounting.Exact.{call_cost, call_gaps, price_call-bounded, bounded-ok, subtotal}
use qbrain.Accounting.Report.{
  map_update, map_find, include_at, account, account_all, Totals, no_totals, or_no_calls,
}

-- The sum of a number over the entries of a map.
abbrev pub sum_of : (Aggregate → ℕ) → List (Bytes × Aggregate) → ℕ
sum_of w [] = 0
sum_of w ((key, t) ∷ entries) = w t + sum_of w entries

-- `add` that succeeds is the sum.
add-ok : (a b : ℕ) {c : ℕ} → add a b ≡ ok c → c ≡ a + b
unfolding add
add-ok a b h = ground arith

include-ok :
    (t : Aggregate) (row : Row) {u : Aggregate}
    → include t row ≡ ok u
    → (u.known ≡ t.known + row.known) × (u.calls ≡ t.calls + 1) × (u.missing ≡ t.missing + row.gaps)
unfolding include
include-ok t row h =
    let (c, ec, h1) = >>=-ok (add t.calls 1) _ h in
    let (k, ek, h2) = >>=-ok (add t.known row.known) _ h1 in
    let (m, em, h3) = >>=-ok (add t.missing row.gaps) _ h2 in
    let (s, es, h4) = >>=-ok (include_tokens t.tokens row.call.tokens) _ h3 in
    ground (arith, add-ok t.calls 1 ec, add-ok t.known row.known ek, add-ok t.missing row.gaps em)

-- Updating an entry adds as much to the sum as to the entry.
map_update-sum :
    (w : Aggregate → ℕ) (d : ℕ) (key : Bytes) (f : Option Aggregate → Checked Aggregate)
    → w no_calls ≡ 0
    → ((old : Option Aggregate) (t : Aggregate) → f old ≡ ok t → w t ≡ w (or_no_calls old) + d)
    → (m : List (Bytes × Aggregate)) {n : List (Bytes × Aggregate)} → map_update key f m ≡ ok n
    → sum_of w n ≡ sum_of w m + d
unfolding map_update
map_update-sum w d key f z adds [] h =
    let (t, e, h') = >>=-ok (f none) _ h in ground (arith, adds none t e)
map_update-sum w d key f z adds ((k, a) ∷ m) h = elim (Bool-cases (text_eq k key)) [
  | inl same ↦
      let (b, e, h1) = >>=-ok (f (some a)) _ (rw same at h) in ground (arith, adds (some a) b e)
  | inr other ↦ elim (Bool-cases (text_less key k)) [
    | inl before ↦
        let (b, e, h1) = >>=-ok (f none) _ (rw (other, before) at h) in
        ground (arith, adds none b e)
    | inr after ↦
        let (rest, e, h1) = >>=-ok (map_update key f m) _ (rw (other, after) at h) in
        ground (arith, map_update-sum w d key f z adds m e)
  ]
]

include_at-sum :
    (key : Bytes) (row : Row) (m : List (Bytes × Aggregate)) {n : List (Bytes × Aggregate)}
    → include_at key row m ≡ ok n
    → (sum_of (λ t. t.known) n ≡ sum_of (λ t. t.known) m + row.known)
      × (sum_of (λ t. t.missing) n ≡ sum_of (λ t. t.missing) m + row.gaps)
      × (sum_of (λ t. t.calls) n ≡ sum_of (λ t. t.calls) m + 1)
unfolding include_at
include_at-sum key row m h =
    let f : Option Aggregate → Checked Aggregate = λ old. include (or_no_calls old) row in
    let ok_at = λ (old : Option Aggregate) (t : Aggregate) (e : f old ≡ ok t).
      include-ok (or_no_calls old) row e in
    (
      map_update-sum (λ t. t.known) row.known key f refl (λ old t e. (ok_at old t e).0) m h,
      map_update-sum (λ t. t.missing) row.gaps key f refl (λ old t e. (ok_at old t e).2) m h,
      map_update-sum (λ t. t.calls) 1 key f refl (λ old t e. (ok_at old t e).1) m h,
    )

-- The three totals agree on the amount, the gaps and the calls.
pub record Agrees (t : Totals) : Type 0 where
  pub known :
      (sum_of (λ a. a.known) t.stage_totals ≡ t.total.known)
      × (sum_of (λ a. a.known) t.rate_totals ≡ t.total.known)
  pub missing :
      (sum_of (λ a. a.missing) t.stage_totals ≡ t.total.missing)
      × (sum_of (λ a. a.missing) t.rate_totals ≡ t.total.missing)
  pub calls :
      (sum_of (λ a. a.calls) t.stage_totals ≡ t.total.calls)
      × (sum_of (λ a. a.calls) t.rate_totals ≡ t.total.calls)

-- What the calls cost together, without a bound.
abbrev pub cost_sum : List (Bytes × Rate) → List (Bytes × Call) → ℕ
cost_sum rates [] = 0
cost_sum rates ((key, c) ∷ calls) = call_cost (map_find c.rate_id rates) c + cost_sum rates calls

abbrev pub gap_sum : List (Bytes × Rate) → List (Bytes × Call) → ℕ
gap_sum rates [] = 0
gap_sum rates ((key, c) ∷ calls) = call_gaps (map_find c.rate_id rates) c + gap_sum rates calls

price_call-ok :
    (card : Option Rate) (c : Call) {row : Row}
    → price_call card c ≡ ok row
    → (row.known ≡ call_cost card c) × (row.gaps ≡ call_gaps card c)
price_call-ok card c e =
    bounded-ok (call_cost card c) (call_gaps card c)
      (ap subtotal (sym e) ∙ price_call-bounded card c)

-- One call more: the totals agree, and the summary has grown by the call.
abbrev Grown : List (Bytes × Rate) → Call → Totals → Totals → Type 0
Grown rates c t u =
    Agrees u
    × (u.total.known ≡ t.total.known + call_cost (map_find c.rate_id rates) c)
    × (u.total.missing ≡ t.total.missing + call_gaps (map_find c.rate_id rates) c)
    × (u.total.calls ≡ t.total.calls + 1)

account-Grown :
    (rates : List (Bytes × Rate)) (c : Call) (t : Totals) {u : Totals}
    → Agrees t
    → account rates c t ≡ ok u
    → Grown rates c t u
unfolding account
account-Grown rates c t a h =
    let card = map_find c.rate_id rates in
    >>=-elim (price_call card c) _ h λ row er h1. >>=-elim (include t.total row) _ h1 λ total et h2.
      >>=-elim (include_at c.stage row t.stage_totals) _ h2 λ stage_totals es h3.
        >>=-elim (include_at c.rate_id row t.rate_totals) _ h3 λ rate_totals ec h4.
          let (rk, rg) = price_call-ok card c er in
          let (tk, tc, tm) = include-ok t.total row et in
          let (sk, sm, sc) = include_at-sum c.stage row t.stage_totals es in
          let (ck, cm, cn) = include_at-sum c.rate_id row t.rate_totals ec in
          let (ak, ak') = a.known in
          let (am, am') = a.missing in
          let (ac, ac') = a.calls in
          let agrees : Agrees (record {
            rows = t.rows ++ (row ∷ []);
            total = total;
            stage_totals = stage_totals;
            rate_totals = rate_totals;
          }) =
            record {
              known = (sk ∙ rw (ak, tk) refl, ck ∙ rw (ak', tk) refl);
              missing = (sm ∙ rw (am, tm) refl, cm ∙ rw (am', tm) refl);
              calls = (sc ∙ rw (ac, tc) refl, cn ∙ rw (ac', tc) refl);
            } in
          subst (λ v. Grown rates c t v) (ok_injective h4)
            (agrees, tk ∙ ap (◌+◌ t.total.known) rk, tm ∙ ap (◌+◌ t.total.missing) rg, tc)

account_all-Agrees :
    (rates : List (Bytes × Rate)) (calls : List (Bytes × Call)) (t : Totals) {u : Totals}
    → Agrees t
    → account_all rates calls t ≡ ok u
    → Agrees u
      × (u.total.known ≡ t.total.known + cost_sum rates calls)
      × (u.total.missing ≡ t.total.missing + gap_sum rates calls)
      × (u.total.calls ≡ t.total.calls + length calls)
unfolding account_all
account_all-Agrees rates [] t a h =
    subst
      (λ v.
        Agrees v
        × (v.total.known ≡ t.total.known + 0)
        × (v.total.missing ≡ t.total.missing + 0)
        × (v.total.calls ≡ t.total.calls + 0))
      (ok_injective h) (a, omega arith, omega arith, omega arith)
account_all-Agrees rates ((key, c) ∷ calls) t a h = >>=-elim (account rates c t) _ h λ v ev h1.
    let (av, kv, mv, cv) = account-Grown rates c t a ev in
    let (au, ku, mu, cu) = account_all-Agrees rates calls v av h1 in
    (au, omega arith, omega arith, omega arith)

no_totals-Agrees : Agrees no_totals
no_totals-Agrees = record { known = (refl, refl); missing = (refl, refl); calls = (refl, refl) }

-- Where the accounting of all calls ends without an error, the summary's amount is the exact sum of
-- tokens times price over all calls and buckets with both known, its gaps are all those of the
-- calls, its count is the number of calls, and the totals by stage, as those by rate card, add up
-- to it in all three.
pub account_all-exact :
    (rates : List (Bytes × Rate)) (calls : List (Bytes × Call)) (t : Totals)
    → account_all rates calls no_totals ≡ ok t
    → Agrees t
      × (t.total.known ≡ cost_sum rates calls)
      × (t.total.missing ≡ gap_sum rates calls)
      × (t.total.calls ≡ length calls)
account_all-exact rates calls t h =
    let (a, k, m, c) = account_all-Agrees rates calls no_totals no_totals-Agrees h in
    (a, omega arith, omega arith, omega arith)
