-- ===== src/Accounting/Accepted.antt =====
-- The input that the check lets through.
use mathlib.Core.Path.{subst}
use qbrain.Prelude.{
  ℕ, ◌≤◌, ◌+◌, ◌≡◌, arith, true, false, Option, none, some, List, [], ◌∷◌, Bytes, length, ok, need,
  need-ok, >>=-elim, ok_injective, leb, text_mem,
}
use Prim.Native.String.{String}
use qbrain.Accounting.{rate_cap, token_cap}
use qbrain.Accounting.Input.{
  null, integer_number, string, array, object, other, amounts, integer, exact, field, Value, Call,
  Rate,
}
use qbrain.Accounting.Report.{Input, read_input}
use native.Mathlib.Nat.{zero-add}
use qbrain.Prelude.{All, suc}
use qbrain.Accounting.Input.{
  root_fields, elements, stages, outcomes, read_call, read_rate, check_call, id, call_fields,
  rate_fields,
}
use qbrain.Accounting.Report.{
  is_schema, is_currency, read_string, read_array, read_rates, read_calls, fresh, map_update,
  max_calls, max_rates,
}
use qbrain.Accounting.Maps.{IsSorted, map_update-IsSorted, map_update-All, length-map_update}
use qbrain.Accounting.Amounts.{AllWithin, integer-le, amounts-AllWithin}

-- A call that the check lets through.
pub record IsCall (c : Call) : Type 0 where
  pub attempt_pos : 1 ≤ c.attempt
  pub attempt_le : c.attempt ≤ 100
  pub stage_known : text_mem c.stage stages ≡ true
  pub outcome_known : text_mem c.outcome outcomes ≡ true
  pub tokens_bounded : AllWithin token_cap c.tokens

-- A rate card that the check lets through.
abbrev pub IsCard : Rate → Type 0
IsCard r = AllWithin rate_cap r.values

check_call-ok :
    (c : Call) {u : Unit {0}}
    → check_call c ≡ ok u
    → (1 ≤ c.attempt) × (text_mem c.stage stages ≡ true) × (text_mem c.outcome outcomes ≡ true)
unfolding check_call
check_call-ok c h = >>=-elim (need (leb 1 c.attempt) "cost_attempt") _ h λ _ e h1.
    >>=-elim (need (text_mem c.stage stages) "cost_stage") _ h1 λ _ e1 h2. (
      ground (arith, need-ok (leb 1 c.attempt) "cost_attempt" e),
      need-ok (text_mem c.stage stages) "cost_stage" e1,
      need-ok (text_mem c.outcome outcomes) "cost_outcome" h2,
    )

read_call-IsCall : (j : Value) {c : Call} → read_call j ≡ ok c → IsCall c
unfolding read_call check_call
read_call-IsCall j h = >>=-elim (exact j call_fields) _ h λ _ _ h1.
    >>=-elim (id (field j "call_id")) _ h1 λ call_id _ h2.
      >>=-elim (id (field j "stage")) _ h2 λ stage _ h3.
        >>=-elim (id (field j "rate_id")) _ h3 λ rate_id _ h4.
          >>=-elim (id (field j "outcome")) _ h4 λ outcome _ h5.
            >>=-elim (integer (field j "attempt") 100) _ h5 λ attempt ea h6.
              >>=-elim (amounts (field j "tokens") false) _ h6 λ tokens et h7.
                let c : Call = record {
                  call_id = call_id;
                  stage = stage;
                  rate_id = rate_id;
                  outcome = outcome;
                  attempt = attempt;
                  tokens = tokens;
                } in
                >>=-elim (check_call c) _ h7 λ _ e h8.
                  let (least, known, ended) = check_call-ok c e in
                  subst IsCall (ok_injective h8) (record {
                    attempt_pos = least;
                    attempt_le = integer-le (field j "attempt") 100 ea;
                    stage_known = known;
                    outcome_known = ended;
                    tokens_bounded = amounts-AllWithin (field j "tokens") false et;
                  })

read_rate-IsCard : (j : Value) {r : Bytes × Rate} → read_rate j ≡ ok r → IsCard r.1
unfolding read_rate
read_rate-IsCard j h = >>=-elim (exact j rate_fields) _ h λ _ _ h1.
    >>=-elim (id (field j "rate_id")) _ h1 λ key _ h2.
      >>=-elim (id (field j "provider")) _ h2 λ provider _ h3.
        >>=-elim (id (field j "model")) _ h3 λ model _ h4.
          >>=-elim (amounts (field j "per_million") true) _ h4 λ values e h5.
            subst (λ r. IsCard r.1) (ok_injective h5)
              (amounts-AllWithin (field j "per_million") true e)

fresh-keeps :
    {A : Type 0} (P : A → Type 0) (code : String) (a : A)
    → P a
    → (old : Option A) (b : A) → fresh code a old ≡ ok b
    → P b
fresh-keeps P code a p none b h = subst P (ok_injective h) p
fresh-keeps P code a p (some old) b h = absurd (cc)

-- What the check of the input ensures of the entries of a map that has grown by `n`.
pub record Holds {A : Type 0} (P : A → Type 0) (most : ℕ) (m : List (Bytes × A)) : Type 0 where
  pub sorted : IsSorted m
  pub all : All (λ e. P e.1) m
  pub bounded : length m ≤ most

Holds-most :
    {A : Type 0} (P : A → Type 0) {a b : ℕ} {m : List (Bytes × A)}
    → a ≡ b
    → Holds P a m
    → Holds P b m
Holds-most P {m = m} e h = subst (λ n. Holds P n m) e h

Holds-insert :
    {A : Type 0} (P : A → Type 0) (most : ℕ) (key : Bytes) (code : String) (a : A)
    (m : List (Bytes × A)) {n : List (Bytes × A)}
    → P a
    → Holds P most m
    → map_update key (fresh code a) m ≡ ok n
    → Holds P (suc most) n
Holds-insert P most key code a m p h e = record {
  sorted = map_update-IsSorted key (fresh code a) m h.sorted e;
  all = map_update-All key (fresh code a) P (fresh-keeps P code a p) m h.all e;
  bounded = omega (arith, h.bounded, length-map_update key (fresh code a) m e);
}

read_rates-Holds :
    (js : List Value) (most : ℕ) (rates : List (Bytes × Rate)) {m : List (Bytes × Rate)}
    → Holds IsCard most rates
    → read_rates js rates ≡ ok m
    → Holds IsCard (length js + most) m
unfolding read_rates
read_rates-Holds [] most rates h e =
    subst (Holds IsCard (0 + most)) (ok_injective e) (rw (zero-add most) h)
read_rates-Holds (j ∷ js) most rates h e = >>=-elim (read_rate j) _ e λ card ec e1.
    >>=-elim (map_update card.0 (fresh "cost_duplicate_rate" card.1) rates) _ e1 λ more em e2.
      let next =
        Holds-insert IsCard most card.0 "cost_duplicate_rate" card.1 rates (read_rate-IsCard j ec) h
          em in
      Holds-most IsCard (omega arith) (read_rates-Holds js (suc most) more next e2)

read_calls-Holds :
    (js : List Value) (most : ℕ) (calls : List (Bytes × Call)) {m : List (Bytes × Call)}
    → Holds IsCall most calls
    → read_calls js calls ≡ ok m
    → Holds IsCall (length js + most) m
unfolding read_calls
read_calls-Holds [] most calls h e =
    subst (Holds IsCall (0 + most)) (ok_injective e) (rw (zero-add most) h)
read_calls-Holds (j ∷ js) most calls h e = >>=-elim (read_call j) _ e λ c ec e1.
    >>=-elim (map_update c.call_id (fresh "cost_duplicate_call" c) calls) _ e1 λ more em e2.
      let next =
        Holds-insert IsCall most c.call_id "cost_duplicate_call" c calls (read_call-IsCall j ec) h
          em in
      Holds-most IsCall (omega arith) (read_calls-Holds js (suc most) more next e2)

-- What the check of the input ensures.
pub record IsAccepted (i : Input) : Type 0 where
  pub rates : Holds IsCard max_rates i.rates
  pub calls : Holds IsCall max_calls i.calls
  pub currency : is_currency i.currency ≡ true

read_array-length :
    (j : Value) (most : ℕ) (code : String) {vs : List Value}
    → read_array j most code ≡ ok vs
    → length vs ≤ most
unfolding read_array
read_array-length (array vs) most code h =
    >>=-elim (need (leb (length (elements vs)) most) code) _ h λ _ e h1.
      subst (λ vs. length vs ≤ most) (ok_injective h1)
        (ground (arith, need-ok (leb (length (elements vs)) most) code e))
read_array-length null most code h = absurd (cc)
read_array-length (integer_number i) most code h = absurd (cc)
read_array-length (string s) most code h = absurd (cc)
read_array-length (object ms) most code h = absurd (cc)
read_array-length other most code h = absurd (cc)

Holds-bound :
    {A : Type 0} (P : A → Type 0) {a : ℕ} (b : ℕ) {m : List (Bytes × A)}
    → a ≤ b
    → Holds P a m
    → Holds P b m
Holds-bound P b le h = record { sorted = h.sorted; all = h.all; bounded = omega (arith, h.bounded) }

Holds-empty : {A : Type 0} (P : A → Type 0) → Holds P 0 []
Holds-empty P = record { sorted = tt; all = tt; bounded = omega arith }

pub read_input-IsAccepted : (root : Value) {i : Input} → read_input root ≡ ok i → IsAccepted i
unfolding read_input
read_input-IsAccepted root h = >>=-elim (exact root root_fields) _ h λ _ _ h1.
    >>=-elim (need (is_schema (field root "schema")) "cost_schema") _ h1 λ _ _ h2.
      >>=-elim (read_string (field root "currency") "cost_currency") _ h2 λ currency _ h3.
        >>=-elim (need (is_currency currency) "cost_currency") _ h3 λ _ ec h4.
          >>=-elim (read_array (field root "rates") max_rates "cost_rate_count") _ h4 λ rs er h5.
            >>=-elim (read_array (field root "calls") max_calls "cost_call_count") _ h5 λ cs es h6.
              >>=-elim (read_rates rs []) _ h6 λ rates fr h7.
                >>=-elim (read_calls cs []) _ h7 λ calls fc h8.
                  let few = read_array-length (field root "rates") max_rates "cost_rate_count" er in
                  let short =
                    read_array-length (field root "calls") max_calls "cost_call_count" es in
                  subst IsAccepted (ok_injective h8) (record {
                    rates =
                        Holds-bound IsCard max_rates (omega arith)
                          (read_rates-Holds rs 0 [] (Holds-empty IsCard) fr);
                    calls =
                        Holds-bound IsCall max_calls (omega arith)
                          (read_calls-Holds cs 0 [] (Holds-empty IsCall) fc);
                    currency = need-ok (is_currency currency) "cost_currency" ec;
                  })
