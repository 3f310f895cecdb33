-- ===== src/Util/Config/Loading.antt =====
-- What the lines of a file set, in Util/ConfigFileReader.cpp.
use ka_im.Prelude.{
  ℕ, zero, suc, ◌<◌, ◌≤◌, ◌≡◌, refl, sym, ap, ◌∙◌, Bool, true, not, ◌&&◌, ◌||◌, List, [], ◌∷◌, ◌++◌,
  Option, none, some, Bytes, bytes_eq, length, length-append, ◌==◌, if◌then◌else◌, arith,
  Bool-cases, inl, inr,
}
use ka_im.Util.Config.{
  Pairs, ConfigFileReader, find, insert_pair, skip_blanks, cut_blanks, trim_space, split_equals,
  parse_line, next_line, until, drop_newline, load_line, load_lines, load_file, open_file,
  get_config_name, line_size,
}
use ka_im.Util.Config.Lines.{loads, drop_newline_lem, has_equals}
use ka_im.Util.Config.Lookup.{find-insert_pair, or_else, or_else_assoc, or_else_if, or_else-none}

-- A line as it can stand in a text: no zero and no newline, and short enough for `buf`.
abbrev pub is_line : Bytes → Bool
is_line [] = true
is_line (c ∷ cs) = not (c == 0) && not (c == 10) && is_line cs

abbrev pub AreLines : List Bytes → Type 0
AreLines [] = Unit {0}
AreLines (line ∷ lines) = (is_line line ≡ true) × (length line < line_size) × AreLines lines

abbrev pub text_of : List Bytes → Bytes
text_of [] = []
text_of (line ∷ lines) = line ++ 10 ∷ text_of lines

abbrev blank : ℕ → Bool
blank c = c == 32 || c == 9 || c == 13

abbrev strip_front : Bytes → Bytes
strip_front [] = []
strip_front (c ∷ cs) = if blank c then strip_front cs else c ∷ cs

abbrev all_blank : Bytes → Bool
all_blank [] = true
all_blank (c ∷ cs) = blank c && all_blank cs

abbrev strip_end : Bytes → Bytes
strip_end [] = []
strip_end (c ∷ cs) = if all_blank (c ∷ cs) then [] else c ∷ strip_end cs

abbrev not_empty : Bytes → Option Bytes
not_empty [] = none
not_empty (c ∷ cs) = some (c ∷ cs)

abbrev both : Option Bytes → Option Bytes → Option (Bytes × Bytes)
both none value = none
both (some k) none = none
both (some k) (some v) = some (k, v)

abbrev behind_equals : Bytes → Bytes
behind_equals [] = []
behind_equals (c ∷ cs) = if c == 61 then cs else behind_equals cs

-- What a line sets: in front of a '#', the key before the first '=' and the value behind it, without
-- the blanks at their ends, if neither is empty then.
unfoldable pub setting : Bytes → Option (Bytes × Bytes)
setting line =
    let text = until 35 line in
    if has_equals text
    then both (not_empty (strip_end (strip_front (until 61 text))))
        (not_empty (strip_end (strip_front (behind_equals text))))
    else none

-- The value of a name: that of the first line that sets it.
unfoldable pub first_value : Bytes → List Bytes → Option Bytes
first_value name [] = none
first_value name (line ∷ lines) = elim (setting line) [
  | none ↦ first_value name lines
  | some (k, v) ↦ if bytes_eq k name then some v else first_value name lines
]

next_line_line :
    (room : ℕ) (line rest : Bytes)
    → is_line line ≡ true
    → length line < room
    → next_line room (line ++ 10 ∷ rest) ≡ (line ++ 10 ∷ [], rest)
next_line_line zero line rest h k = absurd (omega arith)
next_line_line (suc room) [] rest h k = ground arith
next_line_line (suc room) (c ∷ cs) rest h k = ground (arith, next_line_line room cs rest)

until_zero : (line : Bytes) → is_line line ≡ true → until 0 (line ++ 10 ∷ []) ≡ line ++ 10 ∷ []
until_zero [] h = ground arith
until_zero (c ∷ cs) h = ground (arith, until_zero cs)

strip_front_lem : (s : Bytes) → skip_blanks s ≡ strip_front s
strip_front_lem [] = refl
strip_front_lem (c ∷ cs) = ground (arith, strip_front_lem cs)

strip_end-all_blank :
    (s : Bytes)
    → if all_blank s then strip_end s ≡ [] else (c : ℕ) × (cs : Bytes) × (strip_end s ≡ c ∷ cs)
strip_end-all_blank [] = refl
strip_end-all_blank (c ∷ cs) = elim (Bool-cases (all_blank (c ∷ cs))) [
  | inl yes' ↦ rw yes' refl
  | inr no' ↦ rw no' (c, strip_end cs, refl)
]

strip_end_lem : (s : Bytes) → cut_blanks s ≡ strip_end s
strip_end_lem [] = refl
strip_end_lem (c ∷ cs) = ground (arith, strip_end_lem cs, strip_end-all_blank cs)

trim_space-strip : (s : Bytes) → trim_space s ≡ not_empty (strip_end (strip_front s))
unfolding trim_space
trim_space-strip s =
    some_of (cut_blanks (skip_blanks s))
    ∙ ap not_empty (strip_end_lem (skip_blanks s) ∙ ap strip_end (strip_front_lem s))
  where
    some_of : (t : Bytes) → elim t [ [] ↦ none | c ∷ cs ↦ some (c ∷ cs) ] ≡ not_empty t
    some_of [] = refl
    some_of (c ∷ cs) = refl

split_equals-has_equals :
    (s : Bytes)
    → split_equals s ≡ (if has_equals s then some (until 61 s, behind_equals s) else none)
split_equals-has_equals [] = refl
split_equals-has_equals (c ∷ cs) = ground (arith, split_equals-has_equals cs)

abbrev set_by : Option (Bytes × Bytes) → Pairs → Pairs
set_by none pairs = pairs
set_by (some (k, v)) pairs = insert_pair k v pairs

set_both :
    (key value : Option Bytes) (pairs : Pairs)
    → elim key [
      | none ↦ pairs
      | some k ↦ elim value [ none ↦ pairs | some v ↦ insert_pair k v pairs ]
    ]
      ≡ set_by (both key value) pairs
set_both none value pairs = refl
set_both (some k) none pairs = refl
set_both (some k) (some v) pairs = refl

parse_line-setting :
    (line : Bytes) (pairs : Pairs) → parse_line (until 35 line) pairs ≡ set_by (setting line) pairs
unfolding parse_line setting
parse_line-setting line pairs =
    let text = until 35 line in
    let split = split_equals-has_equals text in
    elim (Bool-cases (has_equals text)) [
      | inl yes' ↦
          let key = trim_space-strip (until 61 text) in
          let value = trim_space-strip (behind_equals text) in
          rw (parse_line, split, yes')
            (set_both (trim_space (until 61 text)) (trim_space (behind_equals text)) pairs
              ∙ ap (λ k. set_by (both k (trim_space (behind_equals text))) pairs) key
              ∙ ap
                  (λ v. set_by (both (not_empty (strip_end (strip_front (until 61 text)))) v) pairs)
                  value)
      | inr no' ↦ rw (parse_line, split, no') refl
    ]

parse_empty :
    (text : Bytes) (pairs : Pairs)
    → elim text [ [] ↦ pairs | c ∷ cs ↦ parse_line (c ∷ cs) pairs ] ≡ parse_line text pairs
unfolding parse_line
parse_empty [] pairs = refl
parse_empty (c ∷ cs) pairs = refl

load_line-setting :
    (line : Bytes) (pairs : Pairs)
    → is_line line ≡ true
    → load_line (line ++ 10 ∷ []) pairs ≡ set_by (setting line) pairs
unfolding load_line
load_line-setting line pairs h =
    parse_empty (until 35 (drop_newline (until 0 (line ++ 10 ∷ [])))) pairs
    ∙ ap (λ t. parse_line (until 35 (drop_newline t)) pairs) (until_zero line h)
    ∙ ap (λ t. parse_line (until 35 t) pairs) (drop_newline_lem line)
    ∙ parse_line-setting line pairs

-- What a name has once a line was read and the others are to come.
first_of :
    (name : Bytes) (s : Option (Bytes × Bytes)) (pairs : Pairs) (later : Option Bytes)
    → or_else (find name (set_by s pairs)) later
      ≡ or_else
          (find name pairs)
          (elim s [ none ↦ later | some (k, v) ↦ if bytes_eq k name then some v else later ])
first_of name none pairs later = refl
first_of name (some (k, v)) pairs later =
    ap (λ o. or_else o later) (find-insert_pair name k v pairs)
    ∙ or_else_assoc (find name pairs) (if bytes_eq k name then some v else none) later
    ∙ ap (or_else (find name pairs)) (or_else_if (bytes_eq k name) v later)

text_of-cons : (line rest : Bytes) → (c : ℕ) × (cs : Bytes) × (line ++ 10 ∷ rest ≡ c ∷ cs)
text_of-cons [] rest = (10, rest, refl)
text_of-cons (c ∷ cs) rest = (c, cs ++ 10 ∷ rest, refl)

load_lines-first_value :
    (fuel : ℕ) (lines : List Bytes) (pairs : Pairs)
    → AreLines lines
    → length lines < fuel
    → (result : Pairs) × (load_lines fuel (text_of lines) pairs ≡ some result)
      × ((name : Bytes) → find name result ≡ or_else (find name pairs) (first_value name lines))
unfolding load_lines first_value
load_lines-first_value zero lines pairs h k = absurd (omega arith)
load_lines-first_value (suc fuel) [] pairs h k =
    (pairs, refl, λ name. sym (or_else-none (find name pairs)))
load_lines-first_value (suc fuel) (line ∷ lines) pairs h k =
    let (result, e, f) =
      load_lines-first_value fuel lines (set_by (setting line) pairs) h.2 (omega arith) in
    let (c, cs, g) = text_of-cons line (text_of lines) in
    (
      result,
      loads fuel c cs (line ++ 10 ∷ []) (text_of lines) (text_of (line ∷ lines)) pairs g
            (next_line_line line_size line (text_of lines) h.0 h.1)
          ∙ ap (load_lines fuel (text_of lines)) (load_line-setting line pairs h.0)
          ∙ e,
      λ name. f name ∙ first_of name (setting line) pairs (first_value name lines),
    )

length-text_of : (lines : List Bytes) → length lines ≤ length (text_of lines)
length-text_of [] = omega arith
length-text_of (line ∷ lines) =
    omega (arith, length-append line (10 ∷ text_of lines), length-text_of lines)

-- A file of lines that each end in a newline, fit `buf` and hold no zero is loaded by the constructor,
-- and then every name has the value of the first line that sets it, and none if no line does. What
-- a line sets is what stands before and behind its first '=', in front of any '#', without the
-- blanks at the ends; it sets nothing if either is empty then.
pub get_config_name-open_file :
    (garbage : Bool) (file_name : Bytes) (lines : List Bytes)
    → AreLines lines
    → (r : ConfigFileReader) × (open_file garbage file_name (some (text_of lines)) ≡ some r)
      × ((name : Bytes) → get_config_name name r ≡ first_value name lines)
unfolding load_file get_config_name
get_config_name-open_file garbage file_name lines h =
    let text = text_of lines in
    let (pairs, e, f) =
      load_lines-first_value (suc (length text)) lines [] h (omega (arith, length-text_of lines)) in
    (
      record { has_load = true; config_map = pairs; configfile = file_name },
      rw (load_file, e) refl,
      f,
    )
