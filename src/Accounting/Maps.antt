-- ===== src/Accounting/Maps.antt =====
-- The ordered maps of the report: an update keeps the order of the keys.
use qbrain.Prelude.{
  text_less, text_less_total, suc, ◌≤◌, ◌≡◌, arith, true, Bool-cases, inl, inr, Option, none, some,
  List, [], ◌∷◌, Bytes, length, All, text_eq, Checked, ok, >>=-elim, ok_injective,
}
use mathlib.Core.Path.{subst}
use qbrain.Accounting.Report.{map_update}

-- Is the key below that of the first entry?
abbrev pub IsBelow {ℓ} : {A : Type ℓ} → Bytes → List (Bytes × A) → Type 0
IsBelow key [] = Unit
IsBelow key ((k, a) ∷ entries) = text_less key k ≡ true

-- Keys in strictly increasing order, so distinct.
abbrev pub IsSorted {ℓ} : {A : Type ℓ} → List (Bytes × A) → Type 0
IsSorted [] = Unit
IsSorted ((k, a) ∷ entries) = IsBelow k entries × IsSorted entries

module _ {ℓ} {A : Type ℓ} (key : Bytes) (f : Option A → Checked A) where
  -- The three ways in which an entry of the map is updated.
  map_update-cases {κ} :
      {C : Type κ} (k : Bytes) (a : A) (m : List (Bytes × A)) {n : List (Bytes × A)}
      → map_update key f ((k, a) ∷ m) ≡ ok n
      → ((b : A) → f (some a) ≡ ok b → (k, b) ∷ m ≡ n → C)
      → ((b : A) → f none ≡ ok b → text_less key k ≡ true → (key, b) ∷ (k, a) ∷ m ≡ n → C)
      → ((rest : List (Bytes × A))
          → map_update key f m ≡ ok rest
          → text_less k key ≡ true
          → (k, a) ∷ rest ≡ n
          → C)
      → C
  unfolding map_update
  map_update-cases k a m h here before later = elim (Bool-cases (text_eq k key)) [
    | inl same ↦ >>=-elim (f (some a)) _ (rw same at h) λ b e h1. here b e (ok_injective h1)
    | inr other ↦ elim (Bool-cases (text_less key k)) [
      | inl less ↦
          >>=-elim (f none) _ (rw (other, less) at h) λ b e h1. before b e less (ok_injective h1)
      | inr after ↦
          >>=-elim (map_update key f m) _ (rw (other, after) at h)
            λ rest e h1. later rest e (text_less_total k key other after) (ok_injective h1)
    ]
  ]

  map_update-IsBelow :
      (low : Bytes) (m : List (Bytes × A)) {n : List (Bytes × A)}
      → text_less low key ≡ true
      → IsBelow low m
      → map_update key f m ≡ ok n
      → IsBelow low n
  unfolding map_update
  map_update-IsBelow low [] l b h =
      >>=-elim (f none) _ h λ a e h1. subst (IsBelow low) (ok_injective h1) l
  map_update-IsBelow low ((k, a) ∷ m) l b h =
      map_update-cases k a m h (λ _ _ e. subst (IsBelow low) e b)
        (λ _ _ _ e. subst (IsBelow low) e l) (λ _ _ _ e. subst (IsBelow low) e b)

  pub map_update-IsSorted :
      (m : List (Bytes × A)) {n : List (Bytes × A)}
      → IsSorted m
      → map_update key f m ≡ ok n
      → IsSorted n
  unfolding map_update
  map_update-IsSorted [] s h =
      >>=-elim (f none) _ h λ a e h1. subst IsSorted (ok_injective h1) (tt, tt)
  map_update-IsSorted ((k, a) ∷ m) (b, s) h =
      map_update-cases k a m h (λ _ _ e. subst IsSorted e (b, s))
        (λ _ _ less e. subst IsSorted e (less, (b, s)))
        (λ rest u less e.
          subst IsSorted e (map_update-IsBelow k m less b u, map_update-IsSorted m s u))

  pub length-map_update :
      (m : List (Bytes × A)) {n : List (Bytes × A)}
      → map_update key f m ≡ ok n
      → length n ≤ suc (length m)
  unfolding map_update
  length-map_update [] h =
      >>=-elim (f none) _ h λ a e h1. subst (λ n. length n ≤ 1) (ok_injective h1) (omega arith)
  length-map_update ((k, a) ∷ m) h =
      map_update-cases k a m h
        (λ _ _ e. subst (λ n. length n ≤ suc (suc (length m))) e (omega arith))
        (λ _ _ _ e. subst (λ n. length n ≤ suc (suc (length m))) e (omega arith))
        (λ rest u _ e.
          subst (λ n. length n ≤ suc (suc (length m))) e (omega (arith, length-map_update m u)))

  module _ {κ} (P : A → Type κ) (keeps : (old : Option A) (b : A) → f old ≡ ok b → P b) where
    pub map_update-All :
        (m : List (Bytes × A)) {n : List (Bytes × A)}
        → All (λ e. P e.1) m
        → map_update key f m ≡ ok n
        → All (λ e. P e.1) n
    unfolding map_update
    map_update-All [] p h =
        >>=-elim (f none) _ h
          λ a e h1. subst (All (λ e. P e.1)) (ok_injective h1) (keeps none a e, tt)
    map_update-All ((k, a) ∷ m) (pa, p) h =
        map_update-cases k a m h (λ b u e. subst (All (λ e. P e.1)) e (keeps (some a) b u, p))
          (λ b u _ e. subst (All (λ e. P e.1)) e (keeps none b u, (pa, p)))
          (λ rest u _ e. subst (All (λ e. P e.1)) e (pa, map_update-All m p u))
