-- ===== src/Utf8/Mask.antt =====
-- The two tests for a continuation byte, by a mask and by a range, agree on bytes.
use Prim.Native.Nat.{bit_and}
use qbrain.Prelude.{
  ℕ, ◌<◌, ◌≡◌, refl, true, not, ◌==◌, if◌then◌else◌, arith, Bool, holds_below, holds_below_sound,
}
use qbrain.Utf8.{cont}

-- Which bytes continue a character, tested by a mask here and by a range in the scanner.
abbrev agree : ℕ → Bool
agree x = if bit_and x 0xc0 == 0x80 then cont x else not (cont x)

mask_table : holds_below agree 256 ≡ true
unfolding holds_below
mask_table = refl

pub mask_cont : (x : ℕ) → x < 256 → (bit_and x 0xc0 == 0x80) ≡ cont x
mask_cont x h = ground (arith, holds_below_sound agree 256 x h mask_table)
