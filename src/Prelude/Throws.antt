-- ===== src/Prelude/Throws.antt =====
-- Results of code that may throw, with the text of the exception.
use Prim.Native.String.{String}
use mathlib.Core.Path.{◌≡◌, refl}
use mathlib.Core.Bool.{Bool, true, false}

pub data Checked {ℓ} (A : Type ℓ) : Type ℓ where
  ok : A → Checked A
  error : String → Checked A

infixl 5 ◌>>=◌ ◌>>◌
abbrev pub ◌>>=◌ {ℓ κ} : {A : Type ℓ} {B : Type κ} → Checked A → (A → Checked B) → Checked B
ok a >>= f = f a
error code >>= f = error code

abbrev pub ◌>>◌ {ℓ} : {B : Type ℓ} → Checked (Unit {0}) → Checked B → Checked B
m >> k = m >>= λ _. k

-- `if (!ok) throw Error(code)`.
abbrev pub need : Bool → String → Checked (Unit {0})
need true code = ok tt
need false code = error code

pub need-ok : (test : Bool) (code : String) {u : Unit {0}} → need test code ≡ ok u → test ≡ true
need-ok true code h = refl
need-ok false code h = absurd (cc)

-- A chain that succeeds has a first step that succeeds.
pub >>=-ok {ℓ κ} :
    {A : Type ℓ} {B : Type κ} (m : Checked A) (f : A → Checked B) {b : B}
    → (m >>= f) ≡ ok b
    → (a : A) × (m ≡ ok a) × (f a ≡ ok b)
>>=-ok (ok a) f h = (a, refl, h)
>>=-ok (error code) f h = absurd (cc)

-- The same, for a proof that goes on with the parts.
pub >>=-elim {ℓ κ μ} :
    {A : Type ℓ} {B : Type κ} {C : Type μ} (m : Checked A) (f : A → Checked B) {b : B}
    → (m >>= f) ≡ ok b
    → ((a : A) → m ≡ ok a → f a ≡ ok b → C)
    → C
>>=-elim (ok a) f h k = k a refl h
>>=-elim (error code) f h k = absurd (cc)

pub ok_injective {ℓ} : {A : Type ℓ} {a b : A} → ok a ≡ ok b → a ≡ b
ok_injective h = cc
