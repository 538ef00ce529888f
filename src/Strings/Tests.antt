-- ===== src/Strings/Tests.antt =====
-- Runs of the text helpers, and the theorems on them at concrete texts.
use qbrain.Prelude.{
  suc, ◌≡◌, refl, codes, length, count, is_empty, ◌==◌, true, false, All, starts_with,
}
use qbrain.Strings.{split, slugify, slug_from, trim, replace_all, replace_from}
use qbrain.Strings.Laws.{join, is_slug_byte, split-join, slugify-All}

trimmed : trim (codes "  a b ") ≡ codes "a b"
unfolding trim
trimmed = refl

slug : slugify (codes " Hello,  World! ") ≡ codes "hello-world"
unfolding slugify slug_from
slug = refl

replaced : replace_all (codes "aaa") (codes "aa") (codes "b") ≡ codes "ba"
unfolding replace_all replace_from starts_with
replaced = refl

split_fields :
    (join b',' (split b',' (codes "a,,b")) ≡ codes "a,,b")
    × (length (split b',' (codes "a,,b")) ≡ suc (count (λ c. c == b',') (codes "a,,b")))
    × All (All (λ x. (x == b',') ≡ false)) (split b',' (codes "a,,b"))
split_fields = split-join b',' (codes "a,,b")

slug_bytes :
    (is_empty (slugify (codes "--")) ≡ false)
    × All (λ c. is_slug_byte c ≡ true) (slugify (codes "--"))
slug_bytes = slugify-All (codes "--")
