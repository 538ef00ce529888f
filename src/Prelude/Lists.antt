-- ===== src/Prelude/Lists.antt =====
-- Lists measured and indexed by native numbers, under the library's names, and predicates on them.
use Prim.Native.Nat.{ℕ, zero, suc, ◌+◌, ◌-◌, ◌≤◌, min}
use mathlib.Core.Path.{◌≡◌, refl, ap, sym, subst, ◌∙◌}
use mathlib.Core.Logic.{◌⊎◌, inl, inr}
use mathlib.Core.List.{List, [], ◌∷◌, ◌++◌, map}
use mathlib.Core.Option.{Option, none, some}
use mathlib.Core.Bool.{Bool, true, false, ◌&&◌, ◌||◌}
use native.Mathlib.Omega.{arith}
use qbrain.Prelude.Tests.{if◌then◌else◌, Bool-cases}

module _ {ℓ} {A : Type ℓ} where
  abbrev pub length : List A → ℕ
  length [] = 0
  length (x ∷ xs) = suc (length xs)

  abbrev pub get_elem? : List A → ℕ → Option A
  get_elem? [] i = none
  get_elem? (x ∷ xs) zero = some x
  get_elem? (x ∷ xs) (suc i) = get_elem? xs i

  abbrev pub get_or : List A → ℕ → A → A
  get_or [] i d = d
  get_or (x ∷ xs) zero d = x
  get_or (x ∷ xs) (suc i) d = get_or xs i d

  abbrev pub take : ℕ → List A → List A
  take zero xs = []
  take (suc n) [] = []
  take (suc n) (x ∷ xs) = x ∷ take n xs

  abbrev pub drop : ℕ → List A → List A
  drop zero xs = xs
  drop (suc n) [] = []
  drop (suc n) (x ∷ xs) = drop n xs

  abbrev pub is_empty : List A → Bool
  is_empty [] = true
  is_empty (x ∷ xs) = false

  -- The elements that pass a test, in order.
  abbrev pub select : (A → Bool) → List A → List A
  select p [] = []
  select p (x ∷ xs) = if p x then x ∷ select p xs else select p xs

  -- How many elements pass a test.
  abbrev pub count : (A → Bool) → List A → ℕ
  count p [] = 0
  count p (x ∷ xs) = if p x then suc (count p xs) else count p xs

  -- The first element that passes a test.
  abbrev pub find? : (A → Bool) → List A → Option A
  find? p [] = none
  find? p (x ∷ xs) = if p x then some x else find? p xs

  abbrev pub all : (A → Bool) → List A → Bool
  all p [] = true
  all p (x ∷ xs) = p x && all p xs

  abbrev pub any : (A → Bool) → List A → Bool
  any p [] = false
  any p (x ∷ xs) = p x || any p xs

module _ {ℓ} {A : Type ℓ} where
  pub length-append : (xs ys : List A) → length (xs ++ ys) ≡ length xs + length ys
  length-append [] ys = omega arith
  length-append (x ∷ xs) ys = omega (arith, length-append xs ys)

  pub length-take : (n : ℕ) (xs : List A) → length (take n xs) ≡ min n (length xs)
  length-take zero xs = omega arith
  length-take (suc n) [] = omega arith
  length-take (suc n) (x ∷ xs) = omega (arith, length-take n xs)

  pub length-drop : (n : ℕ) (xs : List A) → length (drop n xs) ≡ length xs - n
  length-drop zero xs = omega arith
  length-drop (suc n) [] = omega arith
  length-drop (suc n) (x ∷ xs) = omega (arith, length-drop n xs)

  pub drop-length : (n : ℕ) (xs : List A) → length xs ≤ n → drop n xs ≡ []
  drop-length zero [] h = refl
  drop-length zero (x ∷ xs) h = absurd (omega arith)
  drop-length (suc n) [] h = refl
  drop-length (suc n) (x ∷ xs) h = drop-length n xs (omega arith)

  pub take-append-drop : (n : ℕ) (xs : List A) → take n xs ++ drop n xs ≡ xs
  take-append-drop zero xs = refl
  take-append-drop (suc n) [] = refl
  take-append-drop (suc n) (x ∷ xs) = ap (◌∷◌ x) (take-append-drop n xs)

  pub length-map {κ} : {B : Type κ} (f : A → B) (xs : List A) → length (map f xs) ≡ length xs
  length-map f [] = refl
  length-map f (x ∷ xs) = ap suc (length-map f xs)

  pub count-le-length : (p : A → Bool) (xs : List A) → count p xs ≤ length xs
  count-le-length p [] = omega arith
  count-le-length p (x ∷ xs) = ground (arith, count-le-length p xs)

  pub count-append : (p : A → Bool) (xs ys : List A) → count p (xs ++ ys) ≡ count p xs + count p ys
  count-append p [] ys = omega arith
  count-append p (x ∷ xs) ys = ground (arith, count-append p xs ys)

module _ {ℓ κ} {A : Type ℓ} (P : A → Type κ) where
  abbrev pub All : List A → Type κ
  All [] = Unit
  All (x ∷ xs) = P x × All xs

  pub All-append : (xs ys : List A) → All xs → All ys → All (xs ++ ys)
  All-append [] ys _ hy = hy
  All-append (x ∷ xs) ys (px, hx) hy = (px, All-append xs ys hx hy)

module _ {ℓ κ μ} {A : Type ℓ} {P : A → Type κ} {Q : A → Type μ} where
  pub All-map : ((x : A) → P x → Q x) → (xs : List A) → All P xs → All Q xs
  All-map f [] _ = tt
  All-map f (x ∷ xs) (px, h) = (f x px, All-map f xs h)

  pub All-zip {ν} :
      {R : A → Type ν}
      → ((x : A) → P x → Q x → R x)
      → (xs : List A) → All P xs
      → All Q xs
      → All R xs
  All-zip f [] _ _ = tt
  All-zip f (x ∷ xs) (px, h) (qx, k) = (f x px qx, All-zip f xs h k)

-- Is the element one of the list?
module _ {A : Type 0} where
  abbrev pub Elem : A → List A → Type 0
  Elem a [] = true ≡ false
  Elem a (x ∷ xs) = (a ≡ x) ⊎ Elem a xs

  pub All-Elem : (xs : List A) → All (λ x. Elem x xs) xs
  All-Elem [] = tt
  All-Elem (x ∷ xs) = (inl refl, All-map (λ y e. inr e) xs (All-Elem xs))

  pub Elem-append : (a : A) (xs ys : List A) → Elem a xs → Elem a (xs ++ ys)
  Elem-append a [] ys e = absurd (cc)
  Elem-append a (x ∷ xs) ys (inl e) = inl e
  Elem-append a (x ∷ xs) ys (inr e) = inr (Elem-append a xs ys e)

  pub Elem-last : (a : A) (xs : List A) → Elem a (xs ++ (a ∷ []))
  Elem-last a [] = inl refl
  Elem-last a (x ∷ xs) = inr (Elem-last a xs)

  pub All-at {κ} : (P : A → Type κ) (a : A) (xs : List A) → All P xs → Elem a xs → P a
  All-at P a [] h e = absurd (cc)
  All-at P a (x ∷ xs) (px, h) (inl e) = subst P (sym e) px
  All-at P a (x ∷ xs) (px, h) (inr e) = All-at P a xs h e

  pub select-Elem :
      (p : A → Bool) (a : A) (xs : List A) → Elem a xs → p a ≡ true → Elem a (select p xs)
  select-Elem p a [] e h = absurd (cc)
  select-Elem p a (x ∷ xs) (inl e) h = rw (ap p (sym e) ∙ h) (inl e)
  select-Elem p a (x ∷ xs) (inr e) h = elim (Bool-cases (p x)) [
    | inl t ↦ rw t (inr (select-Elem p a xs e h))
    | inr f ↦ rw f (select-Elem p a xs e h)
  ]

-- The elements of two lists at the same place are related.
abbrev pub Pointwise {ℓ} : {A : Type ℓ} → (A → A → Type 0) → List A → List A → Type 0
Pointwise R [] [] = Unit
Pointwise R (x ∷ xs) (y ∷ ys) = R x y × Pointwise R xs ys
Pointwise R _ _ = true ≡ false

pub Pointwise-refl {ℓ} :
    {A : Type ℓ} (R : A → A → Type 0) (xs : List A) → ((x : A) → R x x) → Pointwise R xs xs
Pointwise-refl R [] h = tt
Pointwise-refl R (x ∷ xs) h = (h x, Pointwise-refl R xs h)

pub Pointwise-trans {ℓ} :
    {A : Type ℓ} (R : A → A → Type 0) (xs ys zs : List A)
    → ((x y z : A) → R x y → R y z → R x z)
    → Pointwise R xs ys
    → Pointwise R ys zs
    → Pointwise R xs zs
Pointwise-trans R [] [] [] t p q = tt
Pointwise-trans R [] [] (z ∷ zs) t p q = absurd (cc)
Pointwise-trans R [] (y ∷ ys) zs t p q = absurd (cc)
Pointwise-trans R (x ∷ xs) [] zs t p q = absurd (cc)
Pointwise-trans R (x ∷ xs) (y ∷ ys) [] t p q = absurd (cc)
Pointwise-trans R (x ∷ xs) (y ∷ ys) (z ∷ zs) t (p, ps) (q, qs) =
    (t x y z p q, Pointwise-trans R xs ys zs t ps qs)

pub All-take {ℓ κ} :
    {A : Type ℓ} (P : A → Type κ) (n : ℕ) (xs : List A) → All P xs → All P (take n xs)
All-take P zero xs h = tt
All-take P (suc n) [] h = tt
All-take P (suc n) (x ∷ xs) (p, h) = (p, All-take P n xs h)

pub All-append_right : {A : Type 0} (P : A → Type 0) (xs ys : List A) → All P (xs ++ ys) → All P ys
All-append_right P [] ys h = h
All-append_right P (x ∷ xs) ys (_, h) = All-append_right P xs ys h
