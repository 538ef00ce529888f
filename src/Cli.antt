-- ===== src/Cli.antt =====
-- include/qbrain/cli/search_arguments.hpp: the arguments of the search command. The sets and the map
-- are lists; a key is entered once.
pub mod Parsed
pub mod Query
mod Rounds
mod Scanned
mod Tests
use Prim.Native.String.{String}
use qbrain.Prelude.{
  ℕ, zero, suc, ◌+◌, ◌-◌, ◌*◌, ◌^◌, ◌&&◌, ◌||◌, Bool, true, false, not, Option, none, some, List,
  [], ◌∷◌, ◌++◌, Bytes, codes, length, is_empty, is_digit, ◌==◌, leb, if◌then◌else◌, starts_with,
  text_eq, text_mem, Checked, ok, error, need, ◌>>=◌, ◌>>◌,
}
use qbrain.Strings.{trim}

pub record SearchArguments : Type 0 where
  pub query : Bytes
  pub values : List (Bytes × Bytes)
  pub flags : List Bytes

-- The local variables of the loop; `seen` holds the keys that were given.
pub record Scan : Type 0 where
  pub literal : Bool
  pub has_positional : Bool
  pub positional : Bytes
  pub seen : List Bytes
  pub values : List (Bytes × Bytes)
  pub flags : List Bytes

abbrev pub value_keys : List Bytes
value_keys = codes "--brain" ∷ codes "--limit" ∷ codes "--mode" ∷ codes "--query" ∷ []

abbrev pub flag_keys : List Bytes
flag_keys = codes "--json" ∷ codes "--no-vector" ∷ codes "--rerank" ∷ codes "--rerank-llm" ∷ []

-- `arg.substr(0, arg.find('='))`, and the text after the sign if there is one.
unfoldable pub key_of : Bytes → Bytes
key_of [] = []
key_of (c ∷ s) = let rest = key_of s in if c == b'=' then [] else c ∷ rest

unfoldable pub value_of : Bytes → Option Bytes
value_of [] = none
value_of (c ∷ s) = let rest = value_of s in if c == b'=' then some s else rest

abbrev pub add_positional : Scan → Bytes → Scan
add_positional st arg = record st {
  has_positional = true;
  positional = (if is_empty st.positional then [] else st.positional ++ (b' ' ∷ [])) ++ arg;
}

abbrev pub add_seen : Scan → Bytes → Scan
add_seen st key = record st { seen = key ∷ st.seen }

abbrev pub add_flag : Scan → Bytes → Option Bytes → Checked Scan
add_flag st key none = ok (record st { flags = key ∷ st.flags })
add_flag st key (some value) = error "invalid_search_argument"

-- A value in the argument itself, or else the next argument.
abbrev pub add_value : Scan → Bytes → Option Bytes → List Bytes → Checked (List Bytes × Scan)
add_value st key (some value) rest =
    ok (rest, record st { values = st.values ++ ((key, value) ∷ []) })
add_value st key none [] = error "missing_search_value"
add_value st key none (next ∷ rest) =
    if not (text_eq key (codes "--query")) && starts_with next (codes "--")
    then error "missing_search_value"
    else ok (rest, record st { values = st.values ++ ((key, next) ∷ []) })

abbrev pub add_option : Scan → Bytes → Option Bytes → List Bytes → Checked (List Bytes × Scan)
add_option st key value rest =
    if text_mem key flag_keys
    then (do next ← add_flag (add_seen st key) key value; ok (rest, next))
    else add_value (add_seen st key) key value rest

-- One round of the loop over the arguments: those that are left, and the state.
unfoldable pub scan_argument : Bytes → List Bytes → Scan → Checked (List Bytes × Scan)
unfolding key_of value_of starts_with text_eq text_mem
scan_argument arg rest st =
    if not st.literal && text_eq arg (codes "--")
    then ok (rest, record st { literal = true })
    else if st.literal || not (starts_with arg (codes "--"))
    then ok (rest, add_positional st arg)
    else (do
      need (text_mem (key_of arg) value_keys || text_mem (key_of arg) flag_keys)
          "invalid_search_argument"
      need (not (text_mem (key_of arg) st.seen)) "duplicate_search_argument"
      add_option st (key_of arg) (value_of arg) rest)

-- Each round takes an argument, so their number is enough fuel.
unfoldable pub scan_arguments : ℕ → List Bytes → Scan → Checked Scan
unfolding scan_argument
scan_arguments fuel [] st = ok st
scan_arguments zero (arg ∷ args) st = ok st
scan_arguments (suc fuel) (arg ∷ args) st = do
  (rest, next) ← scan_argument arg args st
  scan_arguments fuel rest next

abbrev pub find_value : Bytes → List (Bytes × Bytes) → Option Bytes
find_value key [] = none
find_value key ((k, v) ∷ values) = if text_eq k key then some v else find_value key values

-- `value(key)`.
abbrev pub or_empty : Option Bytes → Bytes
or_empty none = []
or_empty (some v) = v

abbrev pub choose_query : Scan → Option Bytes → Checked Bytes
choose_query st none = ok (trim st.positional)
choose_query st (some query) = do need (not st.has_positional) "mixed_search_query"; ok query

-- `std::from_chars` into an int: the decimal digits up to the end, in the range of a sign.
unfoldable pub decimal_below : ℕ → ℕ → Bytes → Bool
decimal_below most n [] = true
decimal_below most n (c ∷ s) =
    let rest = decimal_below most (n * 10 + (c - b'0')) s in
    is_digit c && leb (n * 10 + (c - b'0')) most && rest

abbrev pub is_unsigned : ℕ → Bytes → Bool
is_unsigned most s = not (is_empty s) && decimal_below most 0 s

abbrev pub is_int : Bytes → Bool
is_int [] = false
is_int (c ∷ s) =
    if c == b'+'
    then is_unsigned (2 ^ 31 - 1) s
    else if c == b'-'
    then is_unsigned (2 ^ 31) s
    else is_unsigned (2 ^ 31 - 1) (c ∷ s)

abbrev pub modes : List Bytes
modes = codes "balanced" ∷ codes "conservative" ∷ codes "tokenmax" ∷ []

-- The checks after the loop.
unfoldable pub finish : Scan → Checked SearchArguments
unfolding decimal_below text_eq text_mem trim
finish st = do
  query ← choose_query st (find_value (codes "--query") st.values)
  need (not (is_empty (trim query))) "search_query_required"
  let limit = or_empty (find_value (codes "--limit") st.values)
  need (is_empty limit || is_int limit) "invalid_search_limit"
  let mode = or_empty (find_value (codes "--mode") st.values)
  need (is_empty mode || text_mem mode modes) "invalid_search_mode"
  ok (record { query = query; values = st.values; flags = st.flags })

abbrev pub no_arguments : Scan
no_arguments = record {
  literal = false;
  has_positional = false;
  positional = [];
  seen = [];
  values = [];
  flags = [];
}

unfoldable pub parse_search_arguments : List Bytes → Checked SearchArguments
unfolding scan_arguments finish
parse_search_arguments args = do st ← scan_arguments (length args) args no_arguments; finish st
