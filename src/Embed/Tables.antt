-- ===== src/Embed/Tables.antt =====
-- The tables `pages` and `content_chunks` beside those of the queue, what may stop an execution, and
-- the snapshot of a page (embedding_queue.cpp, include/qbrain/storage/schema_sql.hpp).
use Prim.Native.String.{String}
use qbrain.Prelude.{
  ℕ, ◌==◌, ◌≡◌, refl, ◌&&◌, Bool, true, false, not, Option, none, some, List, [], ◌∷◌, Bytes, count,
  find?, max, if◌then◌else◌, text_eq,
}
use qbrain.Prelude.Int.{ℤ}
use qbrain.Jobs.Table.{Brain}
use qbrain.Jobs.Replay.{text_or_empty}

-- A row of `pages`; `deleted` is `deleted_at IS NOT NULL`.
pub record Page : Type 0 where
  pub id : ℕ
  pub source_id : Bytes
  pub slug : Bytes
  pub content_hash : Option Bytes
  pub updated_at : Bytes
  pub deleted : Bool

-- A row of `content_chunks`.
pub record Chunk : Type 0 where
  pub id : ℕ
  pub page_id : ℕ
  pub chunk_index : ℕ
  pub text : Bytes
  pub embedding : Option Bytes
  pub dim : Option ℕ
  pub model : Option Bytes

-- The tables that the worker reads and writes, each by ascending id.
pub record World : Type 0 where
  pub brain : Brain
  pub pages : List Page
  pub chunks : List Chunk

-- The part of the configuration that the worker reads; `mock` is `embedding_mock_enabled()`.
pub record Config : Type 0 where
  pub embedding_model : Bytes
  pub embedding_dimensions : ℤ
  pub mock : Bool

-- `Stop`, `LostClaim` and any other exception.
pub data Failure : Type 0 where
  stop : (outcome message : String) → (cancelled : Bool) → Failure
  lost_claim : Failure
  exception : Failure

pub data Attempt {ℓ} (A : Type ℓ) : Type ℓ where
  returns : A → Attempt A
  throws : Failure → Attempt A

infixl 5 ◌>>=◌ ◌>>◌
abbrev pub ◌>>=◌ {ℓ κ} : {A : Type ℓ} {B : Type κ} → Attempt A → (A → Attempt B) → Attempt B
returns a >>= f = f a
throws e >>= f = throws e

abbrev pub ◌>>◌ {ℓ} : {B : Type ℓ} → Attempt (Unit {0}) → Attempt B → Attempt B
m >> k = m >>= λ _. k

abbrev pub unless : Bool → Failure → Attempt (Unit {0})
unless true e = throws e
unless false e = returns tt

-- For a proof that goes on with the parts of a chain that has returned.
pub >>=-elim {ℓ κ μ} :
    {A : Type ℓ} {B : Type κ} {C : Type μ} (m : Attempt A) (f : A → Attempt B) {b : B}
    → (m >>= f) ≡ returns b
    → ((a : A) → m ≡ returns a → f a ≡ returns b → C)
    → C
>>=-elim (returns a) f h k = k a refl h
>>=-elim (throws e) f h k = absurd (cc)

pub returns_injective {ℓ} : {A : Type ℓ} {a b : A} → returns a ≡ returns b → a ≡ b
returns_injective h = cc

pub record PageSnapshot : Type 0 where
  pub source : Bytes
  pub slug : Bytes
  pub hash : Bytes
  pub updated : Bytes
  pub chunk_count : ℕ
  pub max_id : ℕ

abbrev pub in_page : ℕ → Chunk → Bool
in_page page_id c = c.page_id == page_id

-- COALESCE(MAX(id),0) over the chunks of a page.
abbrev pub max_chunk_id : ℕ → List Chunk → ℕ
max_chunk_id page_id [] = 0
max_chunk_id page_id (c ∷ cs) =
    if in_page page_id c then max c.id (max_chunk_id page_id cs) else max_chunk_id page_id cs

abbrev pub snapshot_of : ℕ → List Chunk → Page → PageSnapshot
snapshot_of page_id cs p = record {
  source = p.source_id;
  slug = p.slug;
  hash = text_or_empty p.content_hash;
  updated = p.updated_at;
  chunk_count = count (in_page page_id) cs;
  max_id = max_chunk_id page_id cs;
}

unfoldable pub page_snapshot : ℕ → World → Attempt PageSnapshot
page_snapshot page_id w = elim (find? (λ p. p.id == page_id && not p.deleted) w.pages) [
  | none ↦ throws (stop "deleted" "embedding target is deleted or missing" true)
  | some p ↦ returns (snapshot_of page_id w.chunks p)
]

-- `PageSnapshot::operator==`.
unfoldable pub same_snapshot : PageSnapshot → PageSnapshot → Bool
same_snapshot a b =
    text_eq a.source b.source
    && text_eq a.slug b.slug
    && text_eq a.hash b.hash
    && text_eq a.updated b.updated
    && a.chunk_count == b.chunk_count
    && a.max_id == b.max_id

unfoldable pub check_snapshot : ℕ → PageSnapshot → World → Attempt (Unit {0})
unfolding page_snapshot same_snapshot
check_snapshot page_id expected w = do
  found ← page_snapshot page_id w
  unless (not (same_snapshot found expected))
      (stop "stale" "embedding target changed; retry explicitly" false)
