-- ===== src/Chunker/Blocks.antt =====
-- The text of a page as blocks between blank lines, and the paragraphs in them.
use Prim.{¬◌}
use mathlib.Core.Path.{subst}
use qbrain.Prelude.{
  ℕ, zero, suc, ◌≤◌, max, ◌≡◌, refl, sym, ap, ◌∙◌, ◌⊎◌, inl, inr, ◌&&◌, true, false, Option, none,
  some, List, [], ◌∷◌, ◌++◌, map, Bytes, length, length-append, drop, is_empty, arith, All,
  Bool-cases, append-nil, starts_with,
}
use qbrain.Strings.{is_space, trim, trim_front, trim_back}
use qbrain.Chunker.{blank_line, cut_blank, behind_or_end, paragraphs_from}

-- The text stands in another without a break.
abbrev pub Within : Bytes → Bytes → Type 0
Within p c = (a : Bytes) × (b : Bytes) × (c ≡ a ++ (p ++ b))

abbrev pub longest : List Bytes → ℕ
longest [] = 0
longest (p ∷ ps) = max (length p) (longest ps)

-- A stretch of text: its paragraph, and what is around it.
pub record Block : Type 0 where
  pub front : Bytes
  pub core : Bytes
  pub back : Bytes

abbrev pub whole : Block → Bytes
whole k = k.front ++ (k.core ++ k.back)

abbrev pub cores : List Block → List Bytes
cores ks = map (λ (k : Block). k.core) ks

-- One or more blocks with a blank line between each two.
abbrev pub joined : Block → List Block → Bytes
joined k [] = whole k
joined k (next ∷ ks) = whole k ++ (blank_line ++ joined next ks)

abbrev pub Spaces : Bytes → Type 0
Spaces = All (λ c. is_space c ≡ true)

-- A block has no blank line within it, only spaces around its paragraph, and a paragraph with a property
-- unless it is empty.
pub record IsBlock (P : Bytes → Type 0) (k : Block) : Type 0 where
  pub unbroken : ¬ (Within blank_line (whole k))
  pub front_spaces : Spaces k.front
  pub back_spaces : Spaces k.back
  pub kept : (k.core ≡ []) ⊎ P k.core

abbrev pub Blocks : (Bytes → Type 0) → Bytes → List Bytes → Type 0
Blocks P text paras =
    (k : Block) × (ks : List Block) × (joined k ks ≡ text)
    × All (IsBlock P) (k ∷ ks)
    × (longest (cores (k ∷ ks)) ≡ longest paras)

is_empty_lem : (s : Bytes) → is_empty s ≡ true → s ≡ []
is_empty_lem [] h = refl
is_empty_lem (c ∷ s) h = absurd (cc)

trim_front_lem : (s : Bytes) → (a : Bytes) × (s ≡ a ++ trim_front s) × Spaces a
trim_front_lem [] = ([], refl, tt)
trim_front_lem (c ∷ s) = elim (Bool-cases (is_space c)) [
  | inl space ↦ let (a, e, h) = trim_front_lem s in rw space (c ∷ a, ap (◌∷◌ c) e, (space, h))
  | inr other ↦ rw other ([], refl, tt)
]

trim_back_lem : (s : Bytes) → (b : Bytes) × (s ≡ trim_back is_space s ++ b) × Spaces b
trim_back_lem [] = ([], refl, tt)
trim_back_lem (c ∷ s) =
    let (b, e, h) = trim_back_lem s in
    elim (Bool-cases (is_space c && is_empty (trim_back is_space s))) [
      | inl gone ↦ rw gone (
        c ∷ b,
        ap (◌∷◌ c) (e ∙ ap (λ t. t ++ b) (is_empty_lem _ (ground arith))),
        (ground arith, h),
      )
      | inr kept ↦ rw kept (b, ap (◌∷◌ c) e, h)
    ]

-- A text is its trimmed part between spaces.
trim_lem : (s : Bytes) → (a : Bytes) × (b : Bytes) × (s ≡ a ++ (trim s ++ b)) × Spaces a × Spaces b
unfolding trim
trim_lem s =
    let (a, e, h) = trim_front_lem s in
    let (b, f, g) = trim_back_lem (trim_front s) in (a, b, e ∙ ap (λ t. a ++ t) f, h, g)

starts_blank : (s : Bytes) → starts_with s blank_line ≡ true → s ≡ blank_line ++ drop 2 s
unfolding starts_with
starts_blank [] h = absurd (cc)
starts_blank (c ∷ []) h = absurd (ground arith)
starts_blank (c ∷ d ∷ s) h =
    let first : c ≡ 0x0a = ground arith in
    let second : d ≡ 0x0a = ground arith in rw (first, second) refl

-- The text before the first blank line, and behind it.
Cuts : Bytes → Bytes → Option Bytes → Type 0
Cuts s before none = before ≡ s
Cuts s before (some t) = (before ++ (blank_line ++ t) ≡ s)

cut_blank-Cuts : (s : Bytes) → Cuts s (cut_blank s).0 (cut_blank s).1
unfolding cut_blank Cuts
cut_blank-Cuts [] = refl
cut_blank-Cuts (c ∷ s) = elim (Bool-cases (starts_with (c ∷ s) blank_line)) [
  | inl here ↦ rw here (sym (starts_blank (c ∷ s) here))
  | inr later ↦ rw later (more (cut_blank s).0 (cut_blank s).1 (cut_blank-Cuts s))
]
  where
    more :
        (before : Bytes) (behind : Option Bytes)
        → Cuts s before behind
        → Cuts (c ∷ s) (c ∷ before) behind
    more before none e = ap (◌∷◌ c) e
    more before (some t) e = ap (◌∷◌ c) e

cut_blank_prefix :
    (s before : Bytes) (behind : Option Bytes)
    → Cuts s before behind
    → (u : Bytes) × (before ++ u ≡ s)
unfolding Cuts
cut_blank_prefix s before none e = ([], append-nil before ∙ e)
cut_blank_prefix s before (some t) e = (blank_line ++ t, e)

-- The cut is at the first blank line.
cut_blank_unbroken : (s : Bytes) → ¬ (Within blank_line (cut_blank s).0)
unfolding cut_blank starts_with
cut_blank_unbroken [] (a, b, e) =
    absurd (omega (arith, ap length e, length-append a (blank_line ++ b)))
cut_blank_unbroken (c ∷ s) w = elim (Bool-cases (starts_with (c ∷ s) blank_line)) [
  | inl here ↦
      let w' : Within blank_line [] = rw here at w in
      let (a, b, e) = w' in absurd (omega (arith, ap length e, length-append a (blank_line ++ b)))
  | inr later ↦
      let w' : Within blank_line (c ∷ (cut_blank s).0) = rw later at w in
      more (cut_blank s).0 later (cut_blank_prefix s _ _ (cut_blank-Cuts s)) (cut_blank_unbroken s)
        w'
]
  where
    more :
        (before : Bytes)
        → starts_with (c ∷ s) blank_line ≡ false
        → (u : Bytes) × (before ++ u ≡ s)
        → ¬ (Within blank_line before)
        → ¬ (Within blank_line (c ∷ before))
    more before later (u, f) ih ([], b, e) =
        let first : c ≡ 0x0a = cc in
        let rest : before ≡ 0x0a ∷ b = cc in
        let tail : s ≡ 0x0a ∷ (b ++ u) = sym f ∙ ap (λ t. t ++ u) rest in
        let never : true ≡ false = rw (first, tail) at later in absurd (cc)
    more before later (u, f) ih (x ∷ a, b, e) = ih (a, b, cc)

-- A piece as a block.
block_of :
    (P : Bytes → Type 0) (piece : Bytes)
    → ¬ (Within blank_line piece)
    → ((trim piece ≡ []) ⊎ P (trim piece))
    → (k : Block) × (whole k ≡ piece) × (k.core ≡ trim piece) × IsBlock P k
block_of P piece h kept =
    let (a, b, e, sa, sb) = trim_lem piece in
    let k : Block = record { front = a; core = trim piece; back = b } in
    (
      k,
      sym e,
      refl,
      record {
        unbroken = λ w. h (subst (Within blank_line) (sym e) w);
        front_spaces = sa;
        back_spaces = sb;
        kept = kept;
      },
    )

paragraphs_from_end : (fuel : ℕ) → paragraphs_from fuel [] ≡ []
unfolding paragraphs_from
paragraphs_from_end zero = refl
paragraphs_from_end (suc fuel) = refl

no_text : (P : Bytes → Type 0) → Blocks P [] []
no_text P =
    let k : Block = record { front = []; core = []; back = [] } in
    let ok : IsBlock P k = record {
      unbroken =
          λ (a, b, e). absurd (omega (arith, ap length e, length-append a (blank_line ++ b)));
      front_spaces = tt;
      back_spaces = tt;
      kept = inl refl;
    } in
    (k, [], refl, (ok, tt), refl)

-- The piece before a cut, and the blocks behind it.
before_cut :
    (P : Bytes → Type 0) (text piece : Bytes) (behind : Option Bytes) (rest : List Bytes)
    → Cuts text piece behind
    → ¬ (Within blank_line piece)
    → (trim piece ≡ []) ⊎ P (trim piece)
    → (behind ≡ none → rest ≡ [])
    → Blocks P (behind_or_end behind) rest
    → Blocks P text (trim piece ∷ rest)
unfolding Cuts
before_cut P text piece none rest e h kept last blocks =
    let (k, w, c, ok) = block_of P piece h kept in (k, [], w ∙ e, (ok, tt), rw (c, last refl) refl)
before_cut P text piece (some t) rest e h kept last (next, ks, j, oks, l) =
    let (k, w, c, ok) = block_of P piece h kept in
    (k, next ∷ ks, rw (w, j) e, (ok, oks), rw (c) (ap (max (length (trim piece))) l))

length_behind :
    (text piece : Bytes) (behind : Option Bytes) (fuel : ℕ)
    → Cuts text piece behind
    → length text ≤ suc fuel
    → length (behind_or_end behind) ≤ fuel
unfolding Cuts
length_behind text piece none fuel e le = omega arith
length_behind text piece (some t) fuel e le =
    omega (arith, ap length e, length-append piece (blank_line ++ t))

last_piece :
    (fuel : ℕ) (behind : Option Bytes)
    → behind ≡ none
    → paragraphs_from fuel (behind_or_end behind) ≡ []
last_piece fuel behind e = rw (e) (paragraphs_from_end fuel)

zero_max : (n : ℕ) → max 0 n ≡ n
zero_max n = omega arith

-- The loop over a text loses nothing but spaces and blank lines.
pub paragraphs_from-Blocks :
    (P : Bytes → Type 0) (fuel : ℕ) (text : Bytes)
    → length text ≤ fuel
    → All P (paragraphs_from fuel text)
    → Blocks P text (paragraphs_from fuel text)
unfolding paragraphs_from
paragraphs_from-Blocks P zero [] le h = no_text P
paragraphs_from-Blocks P zero (c ∷ s) le h = absurd (omega arith)
paragraphs_from-Blocks P (suc fuel) [] le h = no_text P
paragraphs_from-Blocks P (suc fuel) (c ∷ s) le h =
    let text = c ∷ s in
    let piece = (cut_blank text).0 in
    let behind = (cut_blank text).1 in
    let rest = paragraphs_from fuel (behind_or_end behind) in
    let cuts = cut_blank-Cuts text in
    let short = length_behind text piece behind fuel cuts le in
    let step = before_cut P text piece behind rest cuts (cut_blank_unbroken text) in
    let ih = paragraphs_from-Blocks P fuel (behind_or_end behind) short in
    elim (Bool-cases (is_empty (trim piece))) [
      | inl blank ↦
          let none_here = is_empty_lem (trim piece) blank in
          let h' : All P rest = rw blank at h in
          let (k, ks, j, oks, l) = step (inl none_here) (last_piece fuel behind) (ih h') in
          rw blank
            (k, ks, j, oks, l ∙ ap (λ t. longest (t ∷ rest)) none_here ∙ zero_max (longest rest))
      | inr full ↦
          let h' : All P (trim piece ∷ rest) = rw full at h in
          rw full (step (inr h'.0) (last_piece fuel behind) (ih h'.1))
    ]
