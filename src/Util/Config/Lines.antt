-- ===== src/Util/Config/Lines.antt =====
-- The lines of Util/ConfigFileReader.cpp: what stands in one, and how it is read.
use ka_im.Prelude.{
  ℕ, zero, suc, ◌+◌, ◌≤◌, ◌<◌, ◌≡◌, refl, sym, ap, ◌∙◌, Bool, true, false, not, ◌&&◌, ◌||◌, [], ◌∷◌,
  ◌++◌, append_assoc, some, Bytes, take_all, length, length-append, ◌==◌, arith,
}
use ka_im.Util.Config.{
  Pairs, insert_pair, trim_space, split_equals, parse_line, next_line, until, drop_newline,
  load_line, load_lines, pair_line, pair_size, line_size,
}

-- No zero, newline or '#'.
abbrev pub is_plain : Bytes → Bool
is_plain [] = true
is_plain (c ∷ cs) = not (c == 0) && not (c == 10) && not (c == 35) && is_plain cs

abbrev pub has_equals : Bytes → Bool
has_equals [] = false
has_equals (c ∷ cs) = c == 61 || has_equals cs

-- A pair that a line of the file can hold.
pub record IsClean (key value : Bytes) : Type 0 where
  pub plain_key : is_plain key ≡ true
  pub plain_value : is_plain value ≡ true
  pub no_equals : has_equals key ≡ false
  pub trimmed_key : trim_space key ≡ some key
  pub trimmed_value : trim_space value ≡ some value
  pub short : length key + length value + 2 ≤ pair_size

abbrev pub AreClean : Pairs → Type 0
AreClean [] = Unit {0}
AreClean ((key, value) ∷ rest) = IsClean key value × AreClean rest

pub next_line_lem :
    (room : ℕ) (line rest : Bytes)
    → is_plain line ≡ true
    → length line < room
    → next_line room (line ++ 10 ∷ rest) ≡ (line ++ 10 ∷ [], rest)
next_line_lem zero line rest h k = absurd (omega arith)
next_line_lem (suc room) [] rest h k = ground arith
next_line_lem (suc room) (c ∷ cs) rest h k = ground (arith, next_line_lem room cs rest)

is_plain-append :
    (xs ys : Bytes) → is_plain xs ≡ true → is_plain ys ≡ true → is_plain (xs ++ ys) ≡ true
is_plain-append [] ys h k = k
is_plain-append (x ∷ xs) ys h k = ground (arith, is_plain-append xs ys)

until-zero : (line : Bytes) → is_plain line ≡ true → until 0 (line ++ 10 ∷ []) ≡ line ++ 10 ∷ []
until-zero [] h = ground arith
until-zero (c ∷ cs) h = ground (arith, until-zero cs)

until-hash : (line : Bytes) → is_plain line ≡ true → until 35 line ≡ line
until-hash [] h = refl
until-hash (c ∷ cs) h = ground (arith, until-hash cs)

pub drop_newline_lem : (line : Bytes) → drop_newline (line ++ 10 ∷ []) ≡ line
drop_newline_lem [] = ground arith
drop_newline_lem (c ∷ []) = ground arith
drop_newline_lem (c ∷ d ∷ ds) = ap (◌∷◌ c) (drop_newline_lem (d ∷ ds))

split_equals_lem :
    (key value : Bytes)
    → has_equals key ≡ false
    → split_equals (key ++ 61 ∷ value) ≡ some (key, value)
split_equals_lem [] value h = ground arith
split_equals_lem (c ∷ cs) value h = ground (arith, split_equals_lem cs value)

-- The line of a clean pair, without its newline.
abbrev pub pair_text : Bytes → Bytes → Bytes
pair_text key value = key ++ 61 ∷ value

pub pair_text-plain :
    {key value : Bytes} → IsClean key value → is_plain (pair_text key value) ≡ true
pair_text-plain {key} {value} v =
    is_plain-append key (61 ∷ value) v.plain_key (ground (arith, v.plain_value))

pub length-pair_text :
    (key value : Bytes) → length (pair_text key value) ≡ length key + length value + 1
length-pair_text key value = omega (arith, length-append key (61 ∷ value))

pub pair_line_lem :
    {key value : Bytes} → IsClean key value → pair_line key value ≡ pair_text key value ++ 10 ∷ []
pair_line_lem {key} {value} v = take_all pair_size (pair_text key value ++ 10 ∷ []) (
    omega
      (arith, v.short, length-append (pair_text key value) (10 ∷ []), length-pair_text key value))

parse_pair :
    {key value : Bytes} (pairs : Pairs)
    → IsClean key value
    → parse_line (pair_text key value) pairs ≡ insert_pair key value pairs
unfolding parse_line
parse_pair {key} {value} pairs v =
    rw (parse_line, split_equals_lem key value v.no_equals, v.trimmed_key, v.trimmed_value)

pub pair_text-cons : (key value : Bytes) → (c : ℕ) × (cs : Bytes) × (pair_text key value ≡ c ∷ cs)
pair_text-cons [] value = (61, value, refl)
pair_text-cons (c ∷ key) value = (c, key ++ 61 ∷ value, refl)

load_line_step :
    (line : Bytes) (c : ℕ) (cs : Bytes) (pairs : Pairs)
    → until 35 (drop_newline (until 0 line)) ≡ c ∷ cs
    → load_line line pairs ≡ parse_line (c ∷ cs) pairs
unfolding load_line
load_line_step line c cs pairs e = rw (load_line, e)

pub load_pair :
    {key value : Bytes} (pairs : Pairs)
    → IsClean key value
    → load_line (pair_text key value ++ 10 ∷ []) pairs ≡ insert_pair key value pairs
load_pair {key} {value} pairs v =
    let (c, cs, e) = pair_text-cons key value in
    let plain = pair_text-plain v in
    load_line_step (pair_text key value ++ 10 ∷ []) c cs pairs (
      ap (λ t. until 35 (drop_newline t)) (until-zero (pair_text key value) plain)
      ∙ ap (until 35) (drop_newline_lem (pair_text key value))
      ∙ until-hash (pair_text key value) plain
      ∙ e)
    ∙ ap (λ t. parse_line t pairs) (sym e)
    ∙ parse_pair pairs v

pub loads :
    (fuel c : ℕ) (cs line rest text : Bytes) (pairs : Pairs)
    → text ≡ c ∷ cs
    → next_line line_size text ≡ (line, rest)
    → load_lines (suc fuel) text pairs ≡ load_lines fuel rest (load_line line pairs)
unfolding load_lines
loads fuel c cs line rest text pairs e f =
    ap (λ t. load_lines (suc fuel) t pairs) e
    ∙ ap (λ t. load_lines fuel t.1 (load_line t.0 pairs)) (ap (next_line line_size) (sym e) ∙ f)

pub file_text_lem :
    {key value : Bytes} (rest : Bytes)
    → IsClean key value
    → pair_line key value ++ rest ≡ pair_text key value ++ 10 ∷ rest
file_text_lem {key} {value} rest v =
    ap (λ t. t ++ rest) (pair_line_lem v) ∙ append_assoc (pair_text key value) (10 ∷ []) rest
