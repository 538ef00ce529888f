-- ===== src/Mcp/Equal.antt =====
-- The comparison of secrets: what the difference of two texts says.
use Prim.Native.Nat.{bit_or, bit_xor, bit_or-bitwise, bit_xor-bitwise, digits, differ}
use qbrain.Prelude.{
  ℕ, zero, suc, ◌/◌, ◌%◌, ◌≤◌, ◌≡◌, ◌↔◌, refl, sym, ap, ◌∙◌, max, true, [], ◌∷◌, Bytes, length,
  arith,
}
use qbrain.Mcp.{difference, constant_time_equal}

differ_zero : (x y : ℕ) → differ x y ≡ 0 → x ≡ y
differ_zero zero y h = sym h
differ_zero (suc x) zero h = h
differ_zero (suc x) (suc y) h = ap suc (differ_zero x y h)

differ_self : (x : ℕ) → differ x x ≡ 0
differ_self zero = refl
differ_self (suc x) = differ_self x

digits_or_zero : (n a b : ℕ) → a ≤ n → digits (λ b. b) max n a b ≡ 0 → (a ≡ 0) × (b ≡ 0)
digits_or_zero zero zero b h e = (refl, e)
digits_or_zero zero (suc a) b h e = absurd (omega arith)
digits_or_zero (suc n) zero b h e = (refl, e)
digits_or_zero (suc n) (suc a) b h e =
    omega (arith, digits_or_zero n (suc a / 2) (b / 2) (omega arith) (omega arith))

digits_xor_zero : (n a b : ℕ) → a ≤ n → digits (λ b. b) differ n a b ≡ 0 → a ≡ b
digits_xor_zero zero zero b h e = sym e
digits_xor_zero zero (suc a) b h e = absurd (omega arith)
digits_xor_zero (suc n) zero b h e = sym e
digits_xor_zero (suc n) (suc a) b h e = omega (
  arith,
  digits_xor_zero n (suc a / 2) (b / 2) (omega arith) (omega arith),
  differ_zero (suc a % 2) (b % 2) (omega arith),
)

digits_xor_self : (n a : ℕ) → a ≤ n → digits (λ b. b) differ n a a ≡ 0
digits_xor_self zero zero h = refl
digits_xor_self zero (suc a) h = absurd (omega arith)
digits_xor_self (suc n) zero h = refl
digits_xor_self (suc n) (suc a) h =
    omega (arith, digits_xor_self n (suc a / 2) (omega arith), differ_self (suc a % 2))

or_digits : (a b : ℕ) → bit_or a b ≡ digits (λ b. b) max a a b
or_digits a b = λ i. bit_or-bitwise a b i

xor_digits : (a b : ℕ) → bit_xor a b ≡ digits (λ b. b) differ a a b
xor_digits a b = λ i. bit_xor-bitwise a b i

bit_or_zero : (a b : ℕ) → bit_or a b ≡ 0 → (a ≡ 0) × (b ≡ 0)
bit_or_zero a b h = digits_or_zero a a b (omega arith) (sym (or_digits a b) ∙ h)

bit_xor_zero : (a b : ℕ) → bit_xor a b ≡ 0 → a ≡ b
bit_xor_zero a b h = digits_xor_zero a a b (omega arith) (sym (xor_digits a b) ∙ h)

bit_xor_self : (a : ℕ) → bit_xor a a ≡ 0
bit_xor_self a = xor_digits a a ∙ digits_xor_self a a (omega arith)

difference_zero :
    (diff : ℕ) (a b : Bytes) → length a ≡ length b → difference diff a b ≡ 0 → (diff ≡ 0) × (a ≡ b)
unfolding difference
difference_zero diff [] [] h e = (e, refl)
difference_zero diff [] (y ∷ b) h e = absurd (omega arith)
difference_zero diff (x ∷ a) [] h e = absurd (omega arith)
difference_zero diff (x ∷ a) (y ∷ b) h e =
    let (d, same) = difference_zero (bit_or diff (bit_xor x y)) a b (omega arith) e in
    let (d', x') = bit_or_zero diff (bit_xor x y) d in (d', rw (same, bit_xor_zero x y x') refl)

difference_self : (a : Bytes) → difference 0 a a ≡ 0
unfolding difference
difference_self [] = refl
difference_self (x ∷ a) = rw (bit_xor_self x) (difference_self a)

-- The comparison that looks at every byte is true exactly of equal texts.
pub constant_time_equal_iff : (a b : Bytes) → (constant_time_equal a b ≡ true) ↔ (a ≡ b)
unfolding constant_time_equal
constant_time_equal_iff a b = (
  λ h. (difference_zero 0 a b (ground arith) (ground arith)).1,
  λ e. rw (← e) (ground (arith, difference_self a)),
)
