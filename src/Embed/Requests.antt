-- ===== src/Embed/Requests.antt =====
-- What a batch takes of the rows that fit, and what the check of its answer gives.
use qbrain.Prelude.{
  ℕ, ◌+◌, ◌≡◌, refl, ap, inl, inr, ◌||◌, ◌==◌, ltb, Bool, true, false, not, List, [], ◌∷◌, ◌++◌,
  map, length, is_empty, Bool-cases, arith, All,
}
use qbrain.Embed.Tables.{Chunk, Config, returns, throws, unless, >>=-elim}
use qbrain.Embed.Batch.{
  pending_of, fill_batch, json_text_bytes, size_minus, http_max_request_bytes, EmbedResult,
  validate_result, check_vectors, is_bad_vector, invalid_result,
}
use qbrain.Embed.Changes.{unless-false}

-- A chunk whose text a request can carry, alone and beside others.
pub record Fits (envelope : ℕ) (c : Chunk) : Type 0 where
  pub short : ltb http_max_request_bytes (length c.text) ≡ false
  pub size : ℕ
  pub sized : json_text_bytes c.text ≡ returns size
  pub room : ltb (size_minus http_max_request_bytes envelope) size ≡ false

-- What a batch takes: a first part of the rows.
pub record Batched (first : Bool) (bytes : ℕ) (cs : List Chunk) : Type 0 where
  pub taken : List Chunk
  pub left : List Chunk
  pub parts : taken ++ left ≡ cs
  pub filled : fill_batch first bytes cs ≡ returns (map pending_of taken)
  pub some_taken : first ≡ true → is_empty cs ≡ false → is_empty taken ≡ false

pub fill_batch-Batched :
    (envelope : ℕ) (first : Bool) (bytes : ℕ) (cs : List Chunk)
    → (first ≡ true → bytes ≡ envelope)
    → All (Fits envelope) cs
    → Batched first bytes cs
unfolding fill_batch
fill_batch-Batched envelope first bytes [] same h = record {
  taken = [];
  left = [];
  parts = refl;
  filled = refl;
  some_taken = λ _ e. e;
}
fill_batch-Batched envelope true bytes (c ∷ cs) same (f, fs) =
    let rest = fill_batch-Batched envelope false (bytes + (f.size + 0)) cs (λ e. cc) fs in
    let room : ltb (size_minus http_max_request_bytes bytes) (f.size + 0) ≡ false =
      rw (same refl, native.Mathlib.Nat.add-zero) f.room in
    record {
      taken = c ∷ rest.taken;
      left = rest.left;
      parts = ap (◌∷◌ c) rest.parts;
      filled = rw (f.short, f.sized, room, rest.filled) refl;
      some_taken = λ _ _. refl;
    }
fill_batch-Batched envelope false bytes (c ∷ cs) same (f, fs) =
    let size = f.size + 1 in
    let rest = fill_batch-Batched envelope false (bytes + size) cs (λ e. cc) fs in
    elim (Bool-cases (ltb (size_minus http_max_request_bytes bytes) size)) [
      | inl full ↦ record {
        taken = [];
        left = c ∷ cs;
        parts = refl;
        filled = rw (f.short, f.sized, full) refl;
        some_taken = λ e. cc;
      }
      | inr room ↦ record {
        taken = c ∷ rest.taken;
        left = rest.left;
        parts = ap (◌∷◌ c) rest.parts;
        filled = rw (f.short, f.sized, room, rest.filled) refl;
        some_taken = λ e. cc;
      }
    ]

check_vectors-full :
    (cfg : Config) (total width : ℕ) (vs : List (List ℕ)) {u : Unit {0}}
    → check_vectors cfg total width vs ≡ returns u
    → All (λ v. is_empty v ≡ false) vs
unfolding check_vectors
check_vectors-full cfg total width [] h = tt
check_vectors-full cfg total width (v ∷ vs) {u} h =
    elim (Bool-cases (is_bad_vector cfg total width v)) [
      | inl bad ↦ let no : throws invalid_result ≡ returns u = rw bad at h in absurd (cc)
      | inr good ↦
          (ground arith, check_vectors-full cfg (total + length v) (length v) vs (rw good at h))
    ]

-- What the check of the vectors gives to their storing.
pub validate_result-full :
    (cfg : Config) (n : ℕ) (r : EmbedResult) {u : Unit {0}}
    → validate_result cfg n r ≡ returns u
    → (length r.vectors ≡ n) × All (λ v. is_empty v ≡ false) r.vectors
unfolding validate_result
validate_result-full cfg n r h = >>=-elim (unless (not r.good) _) _ h λ _ _ h1.
    >>=-elim (unless (not (length r.vectors == n) || _) invalid_result) _ h1 λ _ e h2. (
      let same = unless-false _ invalid_result e in ground arith,
      check_vectors-full cfg 0 0 r.vectors h2,
    )
