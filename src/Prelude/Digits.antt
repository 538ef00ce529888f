-- ===== src/Prelude/Digits.antt =====
-- The decimal digits of a number, and the number that digits spell.
use native.Mathlib.Nat.{pow-suc, add-mul, mul_assoc, mul_comm}
use Prim.Native.Nat.{ℕ, zero, suc, ◌+◌, ◌-◌, ◌*◌, ◌/◌, ◌%◌, ◌^◌, ◌≤◌, ◌<◌}
use mathlib.Core.Path.{◌≡◌, refl, ap}
use mathlib.Core.Bool.{Bool, true, false}
use mathlib.Core.List.{[], ◌∷◌, ◌++◌}
use native.Mathlib.Omega.{arith}
use qbrain.Prelude.Tests.{ltb, ◌==◌, in_range, if◌then◌else◌}
use qbrain.Prelude.Lists.{length, length-append, get_or, All, All-append}
use qbrain.Prelude.Texts.{Bytes}

abbrev pub digit : ℕ → ℕ
digit n = b'0' + n

-- The decimal digits of a number; the fuel is the number of digits it may have.
unfoldable pub digits_of : ℕ → ℕ → Bytes
digits_of zero n = []
digits_of (suc fuel) n =
    let high = digits_of fuel (n / 10) in
    if ltb n 10 then digit n ∷ [] else high ++ (digit (n % 10) ∷ [])

-- `std::to_string` of a `std::uint64_t`, which has at most 20 digits.
unfoldable pub to_string : ℕ → Bytes
unfolding digits_of
to_string n = digits_of 20 n

-- `std::string(n, '0')`.
unfoldable pub zeros : ℕ → Bytes
zeros zero = []
zeros (suc n) = b'0' ∷ zeros n

abbrev pub is_digit : ℕ → Bool
is_digit c = in_range b'0' b'9' c

abbrev pub IsDigit : ℕ → Type 0
IsDigit c = is_digit c ≡ true

-- The number that digits after those of `acc` spell.
abbrev pub value : ℕ → Bytes → ℕ
value acc [] = acc
value acc (c ∷ s) = value (acc * 10 + (c - b'0')) s

pub value-le : (acc : ℕ) (s : Bytes) → acc ≤ value acc s
value-le acc [] = omega arith
value-le acc (c ∷ s) = omega (arith, value-le (acc * 10 + (c - b'0')) s)

pub value-append : (acc : ℕ) (s t : Bytes) → value acc (s ++ t) ≡ value (value acc s) t
value-append acc [] t = refl
value-append acc (c ∷ s) t = value-append (acc * 10 + (c - b'0')) s t

pub value_linear : (acc : ℕ) (s : Bytes) → value acc s ≡ acc * 10 ^ length s + value 0 s
value_linear acc [] = omega arith
value_linear acc (c ∷ s) = omega (
  arith,
  value_linear (acc * 10 + (c - b'0')) s,
  value_linear (0 + (c - b'0')) s,
  ap (◌*◌ acc) (pow-suc 10 (length s)),
  mul_comm (10 ^ length s) 10,
  ap (◌*◌ acc) (mul_comm (10 ^ length s) 10),
  add-mul (acc * 10) (c - b'0') (10 ^ length s),
  mul_assoc acc 10 (10 ^ length s),
)

pub value-zeros : (n : ℕ) (s : Bytes) → value 0 (zeros n ++ s) ≡ value 0 s
unfolding zeros
value-zeros zero s = refl
value-zeros (suc n) s = value-zeros n s

pub zeros-All : (n : ℕ) → All IsDigit (zeros n)
unfolding zeros
zeros-All zero = tt
zeros-All (suc n) = (refl, zeros-All n)

pub length-zeros : (n : ℕ) → length (zeros n) ≡ n
unfolding zeros
length-zeros zero = refl
length-zeros (suc n) = ap suc (length-zeros n)

pub first-append : (s t : Bytes) → 1 ≤ length s → get_or (s ++ t) 0 0 ≡ get_or s 0 0
first-append [] t h = absurd (omega arith)
first-append (c ∷ s) t h = refl

pub digits_of-All : (fuel n : ℕ) → All IsDigit (digits_of fuel n)
unfolding digits_of
digits_of-All zero n = tt
digits_of-All (suc fuel) n = ground (
  arith,
  digits_of-All fuel (n / 10),
  All-append IsDigit (digits_of fuel (n / 10)) (digit (n % 10) ∷ []),
)

pub length-digits_of :
    (fuel k n : ℕ) → k ≤ fuel → n < 10 ^ suc k → length (digits_of (suc fuel) n) ≤ suc k
unfolding digits_of
length-digits_of zero zero n h b = ground arith
length-digits_of zero (suc k) n h b = absurd (omega arith)
length-digits_of (suc fuel) zero n h b = ground arith
length-digits_of (suc fuel) (suc k) n h b = ground (
  arith,
  pow-suc 10 (suc k),
  length-append (digits_of (suc fuel) (n / 10)) (digit (n % 10) ∷ []),
  length-digits_of fuel k (n / 10),
)

pub value-digits_of : (fuel n : ℕ) → n < 10 ^ fuel → value 0 (digits_of fuel n) ≡ n
unfolding digits_of
value-digits_of zero n h = omega arith
value-digits_of (suc fuel) n h = ground (
  arith,
  pow-suc 10 fuel,
  value-append 0 (digits_of fuel (n / 10)) (digit (n % 10) ∷ []),
  value-digits_of fuel (n / 10),
)

pub digits_of-length : (fuel n : ℕ) → 1 ≤ length (digits_of (suc fuel) n)
unfolding digits_of
digits_of-length fuel n =
    ground (arith, length-append (digits_of fuel (n / 10)) (digit (n % 10) ∷ []))

pub first_digit :
    (fuel n : ℕ) → 1 ≤ n → n < 10 ^ suc fuel → (get_or (digits_of (suc fuel) n) 0 0 == b'0') ≡ false
unfolding digits_of
first_digit zero n h b = ground arith
first_digit (suc fuel) n h b = ground (
  arith,
  pow-suc 10 (suc fuel),
  first-append (digits_of (suc fuel) (n / 10)) (digit (n % 10) ∷ [])
      (digits_of-length fuel (n / 10)),
  first_digit fuel (n / 10),
)
