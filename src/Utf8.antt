-- ===== src/Utf8.antt =====
-- include/qbrain/util/utf8_display.hpp: strict UTF-8 validation
-- and bounded display copies.
-- A `string_view` with an offset is the list of the bytes that are left; a loop that advances by
-- a width drops that many. Each round of a loop drops at least one byte, so the length is fuel.
pub mod Scalars
pub mod Valid
pub mod Mask
pub mod Back
pub mod Excerpt
pub mod Prefix
pub mod Tests
use qbrain.Prelude.{
  ℕ, zero, suc, ◌+◌, ◌-◌, ◌*◌, Bytes, Bool, true, false, not, ◌&&◌, ◌||◌, List, [], ◌∷◌, ◌++◌,
  codes, length, get_or, take, drop, is_empty, ltb, leb, ◌==◌, in_range, if◌then◌else◌,
}
use Prim.Native.Nat.{bit_and}

-- The lambda `cont`.
abbrev pub cont : ℕ → Bool
cont c = in_range 0x80 0xbf c

-- The lambda `b`: a byte of the text behind the offset.
abbrev pub byte_at : Bytes → ℕ → ℕ
byte_at s n = get_or s n 0

unfoldable pub utf8_scalar_size : Bytes → ℕ
utf8_scalar_size s =
    if is_empty s
    then 0
    else if leb (byte_at s 0) 0x7f
    then 1
    else if in_range 0xc2 0xdf (byte_at s 0)
    then (if leb 2 (length s) && cont (byte_at s 1) then 2 else 0)
    else if in_range 0xe0 0xef (byte_at s 0)
    then (if ltb (length s) 3 || not (cont (byte_at s 1)) || not (cont (byte_at s 2))
        then 0
        else if byte_at s 0 == 0xe0 && ltb (byte_at s 1) 0xa0
        then 0
        else if byte_at s 0 == 0xed && ltb 0x9f (byte_at s 1)
        then 0
        else 3)
    else if in_range 0xf0 0xf4 (byte_at s 0)
    then (if ltb (length s) 4
          || not (cont (byte_at s 1))
          || not (cont (byte_at s 2))
          || not (cont (byte_at s 3))
        then 0
        else if byte_at s 0 == 0xf0 && ltb (byte_at s 1) 0x90
        then 0
        else if byte_at s 0 == 0xf4 && ltb 0x8f (byte_at s 1)
        then 0
        else 4)
    else 0

-- The loop of `valid_utf8`.
unfoldable pub valid_from : ℕ → Bytes → Bool
valid_from zero s = is_empty s
valid_from (suc fuel) s =
    let n = utf8_scalar_size s in
    let rest = valid_from fuel (drop n s) in
    if is_empty s then true else if n == 0 then false else rest

unfoldable pub valid_utf8 : Bytes → Bool
unfolding valid_from
valid_utf8 s = valid_from (length s) s

-- U+FFFD.
abbrev pub replacement : Bytes
replacement = 0xef ∷ 0xbf ∷ 0xbd ∷ []

abbrev pub marker : Bytes
marker = codes "[truncated]"

-- The first loop of `utf8_excerpt`: what it has written, and what it has not read.
unfoldable pub copy_from : ℕ → ℕ → Bytes → Bytes → Bytes × Bytes
copy_from max_bytes zero s out = (out, s)
copy_from max_bytes (suc fuel) s out =
    let n = utf8_scalar_size s in
    let unit = if n == 0 then length replacement else n in
    let piece = if n == 0 then replacement else take n s in
    let rest = copy_from max_bytes fuel (drop (if n == 0 then 1 else n) s) (out ++ piece) in
    if is_empty s then (out, s) else if ltb (max_bytes - length out) unit then (out, s) else rest

-- `while (start > 0 && (out[start] & 0xC0) == 0x80) --start`.
unfoldable pub char_start : Bytes → ℕ → ℕ
char_start out zero = 0
char_start out (suc start) =
    if bit_and (byte_at out (suc start)) 0xc0 == 0x80 then char_start out start else suc start

-- The second loop: whole characters go until the marker fits.
unfoldable pub make_room : ℕ → ℕ → Bytes → Bytes
unfolding char_start
make_room limit zero out = out
make_room limit (suc fuel) out =
    let rest = make_room limit fuel (take (char_start out (length out - 1)) out) in
    if is_empty out then out else if ltb limit (length out) then rest else out

unfoldable pub finish_excerpt : ℕ → Bool → Bytes × Bytes → Bytes
unfolding make_room
finish_excerpt max_bytes mark_truncated (out, unread) =
    if mark_truncated && not (is_empty unread) && leb (length marker) max_bytes
    then make_room (max_bytes - length marker) (length out) out ++ marker
    else out

unfoldable pub utf8_excerpt : Bytes → ℕ → Bool → Bytes
unfolding copy_from finish_excerpt
utf8_excerpt s max_bytes mark_truncated =
    finish_excerpt max_bytes mark_truncated (copy_from max_bytes (length s) s [])
