-- ===== src/Utf8/Tests.antt =====
-- Runs of the display helpers, and the theorems on them at concrete texts.
use qbrain.Prelude.{◌≤◌, ◌≡◌, ◌↔◌, refl, Bytes, true, false, [], ◌∷◌, codes, length, arith}
use qbrain.Utf8.{
  utf8_scalar_size, valid_utf8, utf8_excerpt, copy_from, finish_excerpt, make_room, char_start,
}
use qbrain.Utf8.Scalars.{utf8_scalar_size-encode, SizeEncode}
use qbrain.Utf8.Valid.{IsText, valid_utf8_iff}
use qbrain.Utf8.Excerpt.{utf8_excerpt_bound, utf8_excerpt-valid_utf8}
use qbrain.Utf8.Prefix.{LongestPrefix, utf8_excerpt_prefix, utf8_excerpt_fits}

-- "a" and the euro sign, and a text with a stray continuation byte.
abbrev euro : Bytes
euro = 0x61 ∷ 0xe2 ∷ 0x82 ∷ 0xac ∷ []

abbrev stray : Bytes
stray = 0x61 ∷ 0x82 ∷ 0x62 ∷ []

euro_valid : valid_utf8 euro ≡ true
unfolding valid_utf8 utf8_scalar_size
euro_valid = refl

stray_valid : valid_utf8 stray ≡ false
unfolding valid_utf8 utf8_scalar_size
stray_valid = refl

stray_excerpt : utf8_excerpt stray 20 false ≡ 0x61 ∷ 0xef ∷ 0xbf ∷ 0xbd ∷ 0x62 ∷ []
unfolding utf8_excerpt copy_from finish_excerpt utf8_scalar_size
stray_excerpt = refl

marked : utf8_excerpt (codes "a long line of text") 13 true ≡ codes "a [truncated]"
unfolding utf8_excerpt copy_from finish_excerpt utf8_scalar_size make_room char_start
marked = refl

valid_utf8_iff_example : (valid_utf8 euro ≡ true) ↔ IsText euro
valid_utf8_iff_example = valid_utf8_iff euro

euro_size : SizeEncode 0x20ac stray
euro_size = utf8_scalar_size-encode 0x20ac stray (omega arith)

utf8_excerpt_bound_example : length (utf8_excerpt stray 4 true) ≤ 4
utf8_excerpt_bound_example = utf8_excerpt_bound stray 4 true

utf8_excerpt-valid_utf8_example : valid_utf8 (utf8_excerpt stray 4 true) ≡ true
utf8_excerpt-valid_utf8_example = utf8_excerpt-valid_utf8 stray 4 true

utf8_excerpt_prefix_example : LongestPrefix 3 euro (utf8_excerpt euro 3 false)
utf8_excerpt_prefix_example = utf8_excerpt_prefix euro 3 euro_valid

euro_whole : utf8_excerpt euro 4 true ≡ euro
euro_whole = utf8_excerpt_fits euro 4 true euro_valid (omega arith)
