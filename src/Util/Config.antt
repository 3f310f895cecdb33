-- ===== src/Util/Config.antt =====
-- Util/ConfigFileReader.h and ConfigFileReader.cpp. A file is its bytes, none if it cannot be opened.
-- The map is a list of pairs; `std::map` keeps it in the order of the keys.
pub mod Lines
pub mod Loading
pub mod Lookup
pub mod Order
pub mod Roundtrip
use ka_im.Prelude.{
  ℕ, zero, suc, ◌+◌, ◌≡◌, Bool, true, false, ◌||◌, List, [], ◌∷◌, ◌++◌, Option, none, some, Bytes,
  bytes_eq, bytes_lt, take, ltb, length, ◌==◌, if◌then◌else◌,
}
use ka_im.Prelude.Int.{ℤ, pos, negsuc}

-- `buf[256]` and `szPaire[128]`, each with a zero at its end.
abbrev pub line_size : ℕ
line_size = 255

abbrev pub pair_size : ℕ
pair_size = 127

abbrev pub Pairs : Type 0
Pairs = List (Bytes × Bytes)

-- `m_has_load` is not set by the constructor where the file cannot be opened.
pub record ConfigFileReader : Type 0 where
  pub has_load : Bool
  pub config_map : Pairs
  pub configfile : Bytes

abbrev pub find : Bytes → Pairs → Option Bytes
find name [] = none
find name ((key, value) ∷ rest) = if bytes_eq key name then some value else find name rest

abbrev pub place : Bytes → Bytes → Pairs → Pairs
place key value [] = (key, value) ∷ []
place key value ((k, v) ∷ rest) =
    if bytes_lt key k then (key, value) ∷ (k, v) ∷ rest else (k, v) ∷ place key value rest

-- `std::map::insert`, which leaves a key that is there alone.
unfoldable pub insert_pair : Bytes → Bytes → Pairs → Pairs
insert_pair key value pairs = elim (find key pairs) [
  | some old ↦ pairs
  | none ↦ place key value pairs
]

abbrev pub replace : Bytes → Bytes → Pairs → Pairs
replace key value [] = []
replace key value ((k, v) ∷ rest) =
    if bytes_eq k key then (k, value) ∷ rest else (k, v) ∷ replace key value rest

abbrev pub is_blank : ℕ → Bool
is_blank c = c == 32 || c == 9 || c == 13

abbrev pub skip_blanks : Bytes → Bytes
skip_blanks [] = []
skip_blanks (c ∷ cs) = if is_blank c then skip_blanks cs else c ∷ cs

abbrev pub cut_blanks : Bytes → Bytes
cut_blanks [] = []
cut_blanks (c ∷ cs) =
    let rest = cut_blanks cs in
    elim rest [ [] ↦ if is_blank c then [] else c ∷ [] | d ∷ ds ↦ c ∷ d ∷ ds ]

-- `TrimSpace`. On a text of blanks, or an empty one, the loop from the end goes on in front of the text, where its
-- writes are not modelled; the result is NULL in any case.
unfoldable pub trim_space : Bytes → Option Bytes
trim_space name = elim (cut_blanks (skip_blanks name)) [ [] ↦ none | c ∷ cs ↦ some (c ∷ cs) ]

-- `strchr(line, '=')`, with the text in front of it and behind it.
abbrev pub split_equals : Bytes → Option (Bytes × Bytes)
split_equals [] = none
split_equals (c ∷ cs) =
    if c == 61
    then some ([], cs)
    else elim (split_equals cs) [ none ↦ none | some (key, value) ↦ some (c ∷ key, value) ]

unfoldable pub parse_line : Bytes → Pairs → Pairs
unfolding trim_space insert_pair
parse_line line pairs = elim (split_equals line) [
  | none ↦ pairs
  | some (key, value) ↦ elim (trim_space key) [
    | none ↦ pairs
    | some k ↦ elim (trim_space value) [ none ↦ pairs | some v ↦ insert_pair k v pairs ]
  ]
]

-- `fgets`: up to `room` bytes, and no further than a newline.
abbrev pub next_line : ℕ → Bytes → Bytes × Bytes
next_line zero text = ([], text)
next_line (suc room) [] = ([], [])
next_line (suc room) (c ∷ cs) =
    let (line, rest) = next_line room cs in if c == 10 then (c ∷ [], cs) else (c ∷ line, rest)

-- A text up to its first zero, or up to its first '#'.
abbrev pub until : ℕ → Bytes → Bytes
until mark [] = []
until mark (c ∷ cs) = if c == mark then [] else c ∷ until mark cs

-- `if(buf[len-1] == '\n') buf[len-1] = 0;`. On an empty text, a line that begins with a zero, the
-- source reads the byte in front of the array and may write there, which leaves the text as it is.
abbrev pub drop_newline : Bytes → Bytes
drop_newline [] = []
drop_newline (c ∷ cs) = elim cs [
  | [] ↦ if c == 10 then [] else c ∷ []
  | d ∷ ds ↦ c ∷ drop_newline cs
]

-- The body of the loop of `LoadFile` on one line.
unfoldable pub load_line : Bytes → Pairs → Pairs
unfolding parse_line
load_line line pairs = elim (until 35 (drop_newline (until 0 line))) [
  | [] ↦ pairs
  | c ∷ cs ↦ parse_line (c ∷ cs) pairs
]

-- The loop, with fuel; none if it runs out.
unfoldable pub load_lines : ℕ → Bytes → Pairs → Option Pairs
load_lines zero text pairs = none
load_lines (suc fuel) [] pairs = some pairs
load_lines (suc fuel) (c ∷ cs) pairs =
    let (line, rest) = next_line line_size (c ∷ cs) in load_lines fuel rest (load_line line pairs)

-- `LoadFile`: each round takes a byte at least.
unfoldable pub load_file : Bytes → Option Bytes → ConfigFileReader → Option ConfigFileReader
load_file name none r = some (record r { configfile = name })
load_file name (some text) r = elim (load_lines (suc (length text)) text r.config_map) [
  | none ↦ none
  | some pairs ↦ some (record { has_load = true; config_map = pairs; configfile = name })
]

-- The constructor; `garbage` is what `m_has_load` happens to be.
abbrev pub open_file : Bool → Bytes → Option Bytes → Option ConfigFileReader
open_file garbage name text =
    load_file name text (record { has_load = garbage; config_map = []; configfile = [] })

-- `GetConfigName`
unfoldable pub get_config_name : Bytes → ConfigFileReader → Option Bytes
get_config_name name r = if r.has_load then find name r.config_map else none

-- What `snprintf` leaves of a pair.
abbrev pub pair_line : Bytes → Bytes → Bytes
pair_line key value = take pair_size (key ++ 61 ∷ value ++ 10 ∷ [])

abbrev pub file_text : Pairs → Bytes
file_text [] = []
file_text ((key, value) ∷ rest) = pair_line key value ++ file_text rest

-- The loop of `WriteToFile` from the i-th pair on: whether each `fwrite` succeeds, and what it wrote
-- before one that fails.
unfoldable pub write_pairs : (ℕ → Bool) → ℕ → Pairs → Bool × Bytes
write_pairs accepts i [] = (true, [])
write_pairs accepts i ((key, value) ∷ rest) =
    let (ok, text) = write_pairs accepts (i + 1) rest in
    if accepts i then (ok, pair_line key value ++ text) else (false, [])

-- `WriteToFile`: what `fopen` and the writes answer, the result, and the text of the file, none if it
-- could not be opened.
unfoldable pub write_to_file : Option (ℕ → Bool) → ConfigFileReader → ℤ × Option Bytes
unfolding write_pairs
write_to_file none r = (negsuc 0, none)
write_to_file (some accepts) r =
    let (ok, text) = write_pairs accepts 0 r.config_map in
    (if ok then pos 0 else negsuc 0, some text)

-- What `SetConfigValue` does to the map.
unfoldable pub store : Bytes → Bytes → Pairs → Pairs
unfolding insert_pair
store name value pairs = elim (find name pairs) [
  | some old ↦ replace name value pairs
  | none ↦ insert_pair name value pairs
]

-- `SetConfigValue`, with what the file answers: the result, the reader, and the file's new text.
unfoldable pub set_config_value :
    Option (ℕ → Bool) → Bytes → Bytes → ConfigFileReader → ℤ × ConfigFileReader × Option Bytes
unfolding store write_to_file
set_config_value answer name value r =
    let r' = record r { config_map = store name value r.config_map } in
    let (code, text) = write_to_file answer r' in
    if r.has_load then (code, r', text) else (negsuc 0, r, none)
