-- ===== src/Embed/Snapshots.antt =====
-- The snapshot of a page that nobody else changes.
use qbrain.Prelude.{
  ℕ, ◌≡◌, refl, ◌&&◌, ◌==◌, true, not, Option, none, some, List, find?, arith, text_eq_refl,
}
use qbrain.Embed.Tables.{
  World, Page, Chunk, returns, PageSnapshot, snapshot_of, same_snapshot, page_snapshot,
  check_snapshot,
}
use qbrain.Embed.Execute.{expect_snapshot}
use qbrain.Embed.Stored.{SamePage}

same_snapshot_refl : (s : PageSnapshot) → same_snapshot s s ≡ true
unfolding same_snapshot
same_snapshot_refl s =
    ground (
      arith,
      text_eq_refl s.source,
      text_eq_refl s.slug,
      text_eq_refl s.hash,
      text_eq_refl s.updated,
    )

-- The snapshot of the first transaction is that of the tables as they are.
abbrev pub IsExpected : ℕ → Page → Option PageSnapshot → List Chunk → Type 0
IsExpected page pg none cs = Unit
IsExpected page pg (some s) cs = s ≡ snapshot_of page cs pg

pub snapshot_kept :
    (page : ℕ) (pg : Page) (cs cs' : List Chunk)
    → SamePage page 0 cs cs'
    → snapshot_of page cs pg ≡ snapshot_of page cs' pg
snapshot_kept page pg cs cs' kept = rw (kept.counted, kept.highest) refl

module _ (page : ℕ) (pg : Page) (w : World)
    (there : find? (λ p. p.id == page && not p.deleted) w.pages ≡ some pg) where
  page_snapshot_found : page_snapshot page w ≡ returns (snapshot_of page w.chunks pg)
  unfolding page_snapshot
  page_snapshot_found = rw (there, page_snapshot) refl

  pub check_snapshot_same : check_snapshot page (snapshot_of page w.chunks pg) w ≡ returns tt
  unfolding check_snapshot
  check_snapshot_same =
      rw (page_snapshot_found, same_snapshot_refl (snapshot_of page w.chunks pg)) refl

  pub expect_snapshot_found :
      (expected : Option PageSnapshot)
      → IsExpected page pg expected w.chunks
      → expect_snapshot expected page w ≡ returns (snapshot_of page w.chunks pg)
  expect_snapshot_found none h = page_snapshot_found
  expect_snapshot_found (some s) h = rw (h, check_snapshot_same) refl
