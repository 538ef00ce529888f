-- ===== src/Jobs/Text.antt =====
-- The checks on texts of minions.cpp. Its UTF-8 scanner is a second one beside that of
-- util/utf8_display.hpp. The vendored JSON library is a parameter.
use Prim.Native.Nat.{bit_and}
use qbrain.Prelude.{
  ℕ, zero, suc, ◌+◌, ◌-◌, Bool, true, false, not, ◌&&◌, ◌||◌, Option, none, some, List, [], ◌∷◌,
  ◌++◌, map, Bytes, codes, length, take, drop, get_or, get_elem?, is_empty, all, any, ◌==◌, ltb,
  leb, in_range, if◌then◌else◌, starts_with, contains,
}

abbrev pub max_error_text_bytes : ℕ
max_error_text_bytes = 500

abbrev pub job_message_sender_max_bytes : ℕ
job_message_sender_max_bytes = 128

abbrev pub job_message_payload_max_bytes : ℕ
job_message_payload_max_bytes = 65536

-- What the operations use of the JSON library; `none` stands for a `json::exception`.
pub record Json : Type 0 where
  -- `json::parse(text).dump()`
  pub canonical : Bytes → Option Bytes
  -- `json({{"error", text}}).dump()`
  pub error_object : Bytes → Option Bytes
  -- the object with the keys `child_counts`, `errors` and `order` of an aggregation
  pub aggregate_object : List (Bytes × ℕ) → List (ℕ × Bytes) → Bytes

abbrev pub is_utf8_continuation : ℕ → Bool
is_utf8_continuation byte = bit_and byte 0xc0 == 0x80

abbrev byte_at : Bytes → ℕ → ℕ
byte_at s n = get_or s n 0

-- The text begins at the offset, so its length is `remaining`.
unfoldable pub utf8_sequence_length : Bytes → ℕ
utf8_sequence_length s =
    let first = byte_at s 0 in
    if leb first 0x7f
    then 1
    else if in_range 0xc2 0xdf first
    then (if leb 2 (length s) && is_utf8_continuation (byte_at s 1) then 2 else 0)
    else if first == 0xe0
    then (if leb 3 (length s)
          && in_range 0xa0 0xbf (byte_at s 1)
          && is_utf8_continuation (byte_at s 2)
        then 3
        else 0)
    else if in_range 0xe1 0xec first
    then (if leb 3 (length s)
          && is_utf8_continuation (byte_at s 1)
          && is_utf8_continuation (byte_at s 2)
        then 3
        else 0)
    else if first == 0xed
    then (if leb 3 (length s)
          && in_range 0x80 0x9f (byte_at s 1)
          && is_utf8_continuation (byte_at s 2)
        then 3
        else 0)
    else if in_range 0xee 0xef first
    then (if leb 3 (length s)
          && is_utf8_continuation (byte_at s 1)
          && is_utf8_continuation (byte_at s 2)
        then 3
        else 0)
    else if first == 0xf0
    then (if leb 4 (length s)
          && in_range 0x90 0xbf (byte_at s 1)
          && is_utf8_continuation (byte_at s 2)
          && is_utf8_continuation (byte_at s 3)
        then 4
        else 0)
    else if in_range 0xf1 0xf3 first
    then (if leb 4 (length s)
          && is_utf8_continuation (byte_at s 1)
          && is_utf8_continuation (byte_at s 2)
          && is_utf8_continuation (byte_at s 3)
        then 4
        else 0)
    else if first == 0xf4
    then (if leb 4 (length s)
          && in_range 0x80 0x8f (byte_at s 1)
          && is_utf8_continuation (byte_at s 2)
          && is_utf8_continuation (byte_at s 3)
        then 4
        else 0)
    else 0

-- The loops have the length of the text as fuel: each round drops at least one byte.
unfoldable pub is_valid_from : ℕ → Bytes → Bool
is_valid_from zero s = is_empty s
is_valid_from (suc fuel) s =
    let n = utf8_sequence_length s in
    let rest = is_valid_from fuel (drop n s) in
    if is_empty s then true else if n == 0 then false else rest

unfoldable pub is_valid_utf8 : Bytes → Bool
unfolding is_valid_from
is_valid_utf8 s = is_valid_from (length s) s

unfoldable pub is_valid_message_sender : Bytes → Bool
is_valid_message_sender sender =
    if is_empty sender
      || ltb job_message_sender_max_bytes (length sender)
      || not (is_valid_utf8 sender)
    then false
    else all (λ byte. not (leb byte 0x1f || byte == 0x7f)) sender

module _ (json : Json) where
  abbrev bounded_canonical : Option Bytes → Option Bytes
  bounded_canonical none = none
  bounded_canonical (some c) = if ltb job_message_payload_max_bytes (length c) then none else some c

  unfoldable pub canonical_message_payload : Bytes → Option Bytes
  canonical_message_payload payload =
      if is_empty payload
        || ltb job_message_payload_max_bytes (length payload)
        || not (is_valid_utf8 payload)
      then none
      else bounded_canonical (json.canonical payload)

-- U+FFFD.
abbrev replacement : Bytes
replacement = 0xef ∷ 0xbf ∷ 0xbd ∷ []

unfoldable pub bounded_from : ℕ → Bytes → Bytes → Bytes
bounded_from zero s out = out
bounded_from (suc fuel) s out =
    let n = utf8_sequence_length s in
    let piece = if n == 0 then replacement else take n s in
    let rest = bounded_from fuel (drop (if n == 0 then 1 else n) s) (out ++ piece) in
    if is_empty s
    then out
    else if ltb max_error_text_bytes (length out + (if n == 0 then length replacement else n))
    then out
    else rest

unfoldable pub bounded_utf8 : Bytes → Bytes
unfolding bounded_from
bounded_utf8 s = bounded_from (length s) s []

-- Is "sk-" here no part of a longer word? The argument is the byte before it.
abbrev at_boundary : Option ℕ → Bool
at_boundary none = true
at_boundary (some c) = not (in_range b'a' b'z' c || in_range b'0' b'9' c || c == b'_' || c == b'-')

abbrev not_space : Option ℕ → Bool
not_space none = false
not_space (some c) = not (c == b' ')

-- The search of `has_bare_secret_key`; after a hit the next three bytes are passed over.
unfoldable pub bare_key_from : Option ℕ → ℕ → Bytes → Bool
unfolding starts_with
bare_key_from before skip [] = false
bare_key_from before (suc skip) (c ∷ s) = bare_key_from (some c) skip s
bare_key_from before zero (c ∷ s) =
    let hit = starts_with (c ∷ s) (codes "sk-") in
    let rest = bare_key_from (some c) (if hit then 2 else 0) s in
    if hit && at_boundary before && not_space (get_elem? s 2) then true else rest

unfoldable pub has_bare_secret_key : Bytes → Bool
unfolding bare_key_from
has_bare_secret_key lower = bare_key_from none 0 lower

abbrev pub lower_ascii : ℕ → ℕ
lower_ascii c = if in_range b'A' b'Z' c then c - b'A' + b'a' else c

abbrev pub secret_markers : List Bytes
secret_markers =
    codes "api_key"
    ∷ codes "api-key"
    ∷ codes "api key"
    ∷ codes "apikey"
    ∷ codes "authorization"
    ∷ codes "bearer "
    ∷ codes "password"
    ∷ codes "secret"
    ∷ codes "token"
    ∷ codes "key="
    ∷ codes "https://"
    ∷ codes "http://"
    ∷ codes "provider"
    ∷ codes "model"
    ∷ []

unfoldable pub safe_progress_error : Bytes → Bytes
unfolding contains has_bare_secret_key bounded_utf8
safe_progress_error error =
    let lower = map lower_ascii error in
    if any (contains lower) secret_markers
    then codes "[redacted]"
    else if has_bare_secret_key lower
    then codes "[redacted]"
    else bounded_utf8 error
