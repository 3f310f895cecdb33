-- ===== src/Util/Config/Order.antt =====
-- The list that stands for the map of Util/ConfigFileReader.cpp stays in the order of the keys, as
-- `std::map` is.
use ka_im.Prelude.{
  ℕ, ◌≡◌, refl, true, [], ◌∷◌, Option, none, some, Bytes, bytes_lt, bytes_lt_total, comes_before,
  ascends, comes_before_trans, arith, inl, inr, Option-cases, suc, zero,
}
use ka_im.Util.Config.{
  Pairs, find, place, insert_pair, replace, store, trim_space, split_equals, parse_line, until,
  drop_newline, load_line, next_line, line_size, load_lines,
}

comes_before-place :
    (a key value : Bytes) (pairs : Pairs)
    → bytes_lt a key ≡ true
    → comes_before a pairs ≡ true
    → comes_before a (place key value pairs) ≡ true
comes_before-place a key value [] h k = ground (arith, h)
comes_before-place a key value ((k, v) ∷ rest) h g =
    ground (arith, comes_before-place a key value rest)

ascends-place :
    (key value : Bytes) (pairs : Pairs)
    → find key pairs ≡ none
    → ascends pairs ≡ true
    → ascends (place key value pairs) ≡ true
ascends-place key value [] h g = refl
ascends-place key value ((k, v) ∷ rest) h g = ground (
  arith,
  ascends-place key value rest,
  bytes_lt_total key k,
  bytes_lt_total k key,
  comes_before_trans key k rest,
  comes_before-place k key value rest,
)

ascends-insert_pair :
    (key value : Bytes) (pairs : Pairs)
    → ascends pairs ≡ true
    → ascends (insert_pair key value pairs) ≡ true
unfolding insert_pair
ascends-insert_pair key value pairs g = elim (Option-cases (find key pairs)) [
  | inl e ↦ rw (insert_pair, e) (ascends-place key value pairs e g)
  | inr e ↦ rw (insert_pair, e.1) g
]

comes_before-replace :
    (a key value : Bytes) (pairs : Pairs)
    → comes_before a pairs ≡ true
    → comes_before a (replace key value pairs) ≡ true
comes_before-replace a key value [] h = refl
comes_before-replace a key value ((k, v) ∷ rest) h =
    ground (arith, comes_before-replace a key value rest)

ascends-replace :
    (key value : Bytes) (pairs : Pairs)
    → ascends pairs ≡ true
    → ascends (replace key value pairs) ≡ true
ascends-replace key value [] h = refl
ascends-replace key value ((k, v) ∷ rest) h =
    ground (arith, ascends-replace key value rest, comes_before-replace k key value rest)

ascends-store :
    (key value : Bytes) (pairs : Pairs)
    → ascends pairs ≡ true
    → ascends (store key value pairs) ≡ true
unfolding store
ascends-store key value pairs g = elim (Option-cases (find key pairs)) [
  | inl e ↦ rw (store, e) (ascends-insert_pair key value pairs g)
  | inr e ↦ rw (store, e.1) (ascends-replace key value pairs g)
]

value_inserted :
    (key : Bytes) (value : Option Bytes) (pairs : Pairs)
    → ascends pairs ≡ true
    → ascends (elim value [ none ↦ pairs | some v ↦ insert_pair key v pairs ]) ≡ true
value_inserted key none pairs g = g
value_inserted key (some v) pairs g = ascends-insert_pair key v pairs g

pair_inserted :
    (key value : Option Bytes) (pairs : Pairs)
    → ascends pairs ≡ true
    → ascends (elim key [
      | none ↦ pairs
      | some k ↦ elim value [ none ↦ pairs | some v ↦ insert_pair k v pairs ]
    ])
      ≡ true
pair_inserted none value pairs g = g
pair_inserted (some k) value pairs g = value_inserted k value pairs g

sides_inserted :
    (sides : Option (Bytes × Bytes)) (pairs : Pairs)
    → ascends pairs ≡ true
    → ascends (elim sides [
      | none ↦ pairs
      | some (key, value) ↦ elim (trim_space key) [
        | none ↦ pairs
        | some k ↦ elim (trim_space value) [ none ↦ pairs | some v ↦ insert_pair k v pairs ]
      ]
    ])
      ≡ true
sides_inserted none pairs g = g
sides_inserted (some (key, value)) pairs g =
    pair_inserted (trim_space key) (trim_space value) pairs g

ascends-parse_line :
    (line : Bytes) (pairs : Pairs) → ascends pairs ≡ true → ascends (parse_line line pairs) ≡ true
unfolding parse_line
ascends-parse_line line pairs g = sides_inserted (split_equals line) pairs g

text_parsed :
    (text : Bytes) (pairs : Pairs)
    → ascends pairs ≡ true
    → ascends (elim text [ [] ↦ pairs | c ∷ cs ↦ parse_line (c ∷ cs) pairs ]) ≡ true
text_parsed [] pairs g = g
text_parsed (c ∷ cs) pairs g = ascends-parse_line (c ∷ cs) pairs g

ascends-load_line :
    (line : Bytes) (pairs : Pairs) → ascends pairs ≡ true → ascends (load_line line pairs) ≡ true
unfolding load_line
ascends-load_line line pairs g = text_parsed (until 35 (drop_newline (until 0 line))) pairs g

ascends-load_lines :
    (fuel : ℕ) (text : Bytes) (pairs result : Pairs)
    → load_lines fuel text pairs ≡ some result
    → ascends pairs ≡ true
    → ascends result ≡ true
unfolding load_lines
ascends-load_lines zero text pairs result e g = absurd (ground (arith, e))
ascends-load_lines (suc fuel) [] pairs result e g = ground (arith, e, g)
ascends-load_lines (suc fuel) (c ∷ cs) pairs result e g =
    ascends-load_lines fuel (next_line line_size (c ∷ cs)).1
      (load_line (next_line line_size (c ∷ cs)).0 pairs) result e
      (ascends-load_line (next_line line_size (c ∷ cs)).0 pairs g)
