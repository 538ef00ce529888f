-- ===== src/Accounting/Decimal.antt =====
-- The decimal texts of token_cost.hpp: a rate that is printed is read back.
use native.Mathlib.Nat.{add-zero}
use qbrain.Prelude.{
  digits_of, to_string, zeros, ℕ, zero, suc, ◌+◌, ◌-◌, ◌*◌, ◌/◌, ◌%◌, ◌^◌, ◌≤◌, ◌<◌, ◌≡◌, refl, ◌∙◌,
  ap, arith, true, false, not, ◌||◌, some, ◌⊎◌, inl, inr, [], ◌∷◌, ◌++◌, Bytes, length,
  length-append, get_or, is_empty, ◌==◌, leb, in_range, All, All-append, ok, append-nil,
}
use qbrain.Accounting.Arith.{add-exact, multiply-exact}
use qbrain.Accounting.{
  amount_max, decimal, find_dot, read_digits, scale_up, rate_at, rate_parts, rate, rate_cap,
  rate_scale,
}
use qbrain.Prelude.{
  IsDigit, value, value-le, value-append, value_linear, value-zeros, zeros-All, length-zeros,
  first-append, digits_of-All, length-digits_of, value-digits_of, digits_of-length, first_digit,
}

-- Digits that stand wholly before or wholly after the dot are read as their value.
read_digits-value :
    (dot i : ℕ) (s t : Bytes) (acc : ℕ)
    → All IsDigit s
    → (i + length s ≤ dot) ⊎ (dot < i)
    → value acc s ≤ amount_max
    → read_digits dot i (s ++ t) acc ≡ read_digits dot (i + length s) t (value acc s)
unfolding read_digits
read_digits-value dot i [] t acc d side h = rw (add-zero i) refl
read_digits-value dot i (c ∷ s) t acc (d, ds) side h =
    let le : acc * 10 + (c - b'0') ≤ amount_max =
      omega (arith, value-le (acc * 10 + (c - b'0')) s) in
    let off : (i == dot) ≡ false = elim side [ inl b ↦ ground arith | inr b ↦ ground arith ] in
    let next : (suc i + length s ≤ dot) ⊎ (dot < suc i) = elim side [
      | inl b ↦ inl (omega arith)
      | inr b ↦ inr (omega arith)
    ] in
    rw (off, d, multiply-exact acc 10 (omega arith), add-exact (acc * 10) (c - b'0') le)
      (read_digits-value dot (suc i) s t (acc * 10 + (c - b'0')) ds next h
        ∙ ap (λ j. read_digits dot j t (value acc (c ∷ s))) (omega arith))

find_dot-digits : (s t : Bytes) → All IsDigit s → find_dot (s ++ (b'.' ∷ t)) ≡ some (length s)
unfolding find_dot
find_dot-digits [] t d = refl
find_dot-digits (c ∷ s) t (d, ds) = ground (arith, find_dot-digits s t ds)

lead_digit :
    (n : ℕ)
    → n < 10 ^ 7
    → (length (to_string n) == 1 || not (get_or (to_string n) 0 0 == b'0')) ≡ true
unfolding to_string
lead_digit zero h = refl
lead_digit (suc n) h = rw (first_digit 19 (suc n) (omega arith) (omega arith)) (ground arith)

-- The shape of a printed rate.
digits_7 :
    (n : ℕ)
    → n < 10 ^ 7
    → let s = to_string n in
      All IsDigit s
      × (1 ≤ length s)
      × (length s ≤ 7)
      × (value 0 s ≡ n)
      × ((length s == 1 || not (get_or s 0 0 == b'0')) ≡ true)
unfolding to_string
digits_7 n h = (
  digits_of-All 20 n,
  digits_of-length 19 n,
  length-digits_of 19 6 n (omega arith) h,
  value-digits_of 20 n (omega arith),
  lead_digit n h,
)

fraction :
    (n : ℕ)
    → n < 10 ^ 6
    → let s = to_string n in
      let f = zeros (6 - length s) ++ s in All IsDigit f × (length f ≡ 6) × (value 0 f ≡ n)
unfolding to_string
fraction n h =
    let s = digits_of 20 n in
    let k = 6 - length s in
    (
      All-append IsDigit (zeros k) s (zeros-All k) (digits_of-All 20 n),
      omega (
        arith,
        length-append (zeros k) s,
        length-zeros k,
        length-digits_of 19 5 n (omega arith) h,
      ),
      value-zeros k s ∙ value-digits_of 20 n (omega arith),
    )

read_digits-dot :
    (dot i c : ℕ) (s : Bytes) (acc : ℕ)
    → i ≡ dot
    → read_digits dot i (c ∷ s) acc ≡ read_digits dot (suc dot) s acc
unfolding read_digits
read_digits-dot dot i c s acc h = ground arith

rate_at-digits :
    (s f : Bytes)
    → All IsDigit s
    → All IsDigit f
    → value 0 (s ++ f) ≤ rate_cap
    → rate_at (s ++ (b'.' ∷ f)) (length s) 6 ≡ ok (value 0 (s ++ f))
unfolding rate_at scale_up read_digits
rate_at-digits s f ds df below =
    let n = length s in
    let v = value 0 s in
    let whole : value v f ≤ rate_cap = omega (arith, value-append 0 s f) in
    let before =
      read_digits-value n 0 s (b'.' ∷ f) 0 ds (inl (omega arith)) (omega (arith, value-le v f)) in
    let after = read_digits-value n (suc n) f [] v df (inr (omega arith)) (omega arith) in
    let capped : leb (value v f) rate_cap ≡ true = ground arith in
    rw
      (
        before,
        read_digits-dot n (0 + n) (b'.') f v (omega arith),
        ← append-nil f,
        after,
        append-nil f,
        value-append 0 s f,
        capped,
      )
      refl

is_empty-false : (s : Bytes) → 1 ≤ length s → is_empty s ≡ false
is_empty-false [] h = absurd (omega arith)
is_empty-false (c ∷ s) h = refl

rate_text :
    (s f : Bytes)
    → All IsDigit s
    → All IsDigit f
    → 1 ≤ length s
    → length s ≤ 7
    → length f ≡ 6
    → (length s == 1 || not (get_or s 0 0 == b'0')) ≡ true
    → value 0 (s ++ f) ≤ rate_cap
    → rate (s ++ (b'.' ∷ f)) ≡ ok (value 0 (s ++ f))
unfolding rate rate_parts
rate_text s f ds df pos short six lead below =
    let t = s ++ (b'.' ∷ f) in
    let size : length t ≡ length s + 7 = omega (arith, length-append s (b'.' ∷ f)) in
    let full : is_empty t ≡ false = is_empty-false t (omega arith) in
    let first = first-append s (b'.' ∷ f) pos in
    let whole : in_range 1 7 (length s) ≡ true = ground arith in
    let rest : length s + 7 - length s - 1 ≡ 6 = omega arith in
    let long : leb (length s + 7) 14 ≡ true = ground arith in
    let end : (length s == length s + 7) ≡ false = ground arith in
    rw (full, size, long, find_dot-digits s f ds, whole, first, lead, end, rest)
      (rate_at-digits s f ds df below)

-- A rate of at most 10^6 units, in millionths, that is printed with six decimals is read back.
pub rate-decimal : (n : ℕ) → n ≤ rate_cap → rate (decimal n rate_scale 6) ≡ ok n
unfolding decimal
rate-decimal n h =
    let (ds, pos, short, vs, lead) = digits_7 (n / 1000000) (omega arith) in
    let (df, six, vf) = fraction (n % 1000000) (omega arith) in
    let s = to_string (n / 1000000) in
    let t = to_string (n % 1000000) in
    let f = zeros (6 - length t) ++ t in
    let whole : value 0 (s ++ f) ≡ n =
      omega
        (arith, value-append 0 s f, value_linear (value 0 s) f, ap (λ k. value 0 s * 10 ^ k) six) in
    rate_text s f ds df pos short six lead (omega arith) ∙ ap ok whole
