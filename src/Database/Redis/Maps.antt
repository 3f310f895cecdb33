-- ===== src/Database/Redis/Maps.antt =====
-- The commands of `CacheConn` that fill a container, whose contents are returned beside the result:
-- what was appended to a list, or stored in a map, in order.
use ka_im.Prelude.{
  ◌%◌, Bool, true, false, not, List, [], ◌∷◌, ◌++◌, Option, none, some, Bytes, bytes, bytes_eq,
  take, ltb, if◌then◌else◌, ◌==◌, length, map,
}
use ka_im.Database.Redis.Session.{
  Element, Reply, array_reply, str_of, formatted, words, Answers, CacheConn, Outcome, done, execute,
  init,
}

-- `keys[0] + " " + keys[1] …`
abbrev pub join_keys : List Bytes → Bytes
join_keys [] = []
join_keys (k ∷ []) = k
join_keys (k ∷ l ∷ ks) = k ++ b' ' ∷ join_keys (l ∷ ks)

-- A text up to its first zero, as `std::string(const char*)` reads it.
abbrev pub c_string : Bytes → Bytes
c_string [] = []
c_string (x ∷ xs) = if x == 0 then [] else x ∷ c_string xs

-- The loop of `mget`. More elements than keys are a read past the end of `keys`.
unfoldable pub pair_keys : List Bytes → List Element → Option (List (Bytes × Bytes))
pair_keys keys [] = some []
pair_keys [] (e ∷ es) = if e.is_string then none else pair_keys [] es
pair_keys (k ∷ ks) (e ∷ es) = elim (pair_keys ks es) [
  | none ↦ none
  | some rest ↦ some (if e.is_string then (k, c_string e.str) ∷ rest else rest)
]

-- The loop of `hgetAll`. A value is read over the length of its field: a value that is shorter is
-- read past its end, and one that is longer is cut.
unfoldable pub pair_fields : List Element → Option (List (Bytes × Bytes))
pair_fields [] = some []
pair_fields (f ∷ []) = some []
pair_fields (f ∷ v ∷ es) =
    if ltb (length v.str) (length f.str) then none else elim (pair_fields es) [
      | none ↦ none
      | some rest ↦ some ((f.str, take (length f.str) v.str) ∷ rest)
    ]

abbrev pub elements : List Element → List Bytes
elements es = map (λ e. e.str) es

abbrev pub flatten_pairs : List (Bytes × Bytes) → List Bytes
flatten_pairs [] = []
flatten_pairs ((k, v) ∷ ps) = k ∷ v ∷ flatten_pairs ps

-- The texts of an array, if the reply is one.
abbrev pub array_of : Reply → List Bytes
array_of r = elim r [ array_reply es ↦ elements es | _ ↦ [] ]

unfoldable pub mget_reply : List Bytes → Reply → Option (Bool × List (Bytes × Bytes))
unfolding pair_keys
mget_reply keys r = elim r [
  | array_reply es ↦ elim (pair_keys keys es) [ none ↦ none | some ps ↦ some (true, ps) ]
  | _ ↦ some (true, [])
]

unfoldable pub hget_all_reply : Reply → Option (Bool × List (Bytes × Bytes))
unfolding pair_fields
hget_all_reply r = elim r [
  | array_reply es ↦
      if length es % 2 == 0
      then elim (pair_fields es) [ none ↦ none | some ps ↦ some (true, ps) ]
      else some (true, [])
  | _ ↦ some (true, [])
]

module _ (db : Bytes) (a : Answers) (c : CacheConn) where
  -- No blank stands between "MGET" and the first key; the joined text is the format.
  unfoldable pub mget : List Bytes → Outcome (Bool × List (Bytes × Bytes))
  unfolding execute init mget_reply
  mget keys =
      let (code, c', before) = init db a c in
      if not (code == 0)
      then done (false, []) c' before
      else if bytes_eq (join_keys keys) []
      then done (false, []) c' before
      else execute (false, []) (formatted (bytes "MGET" ++ join_keys keys) []) (mget_reply keys) db
          a c

  -- The text of the command is "HEGTALL".
  unfoldable pub hget_all : Bytes → Outcome (Bool × List (Bytes × Bytes))
  unfolding execute hget_all_reply
  hget_all key =
      execute (false, []) (formatted (bytes "HEGTALL %s ") (key ∷ [])) hget_all_reply db a c

  -- `hash` is the map in its order.
  unfoldable pub hmset : Bytes → List (Bytes × Bytes) → Outcome Bytes
  unfolding execute
  hmset key hash =
      execute [] (words (bytes "HMSET" ∷ key ∷ flatten_pairs hash)) (λ r. some (str_of r)) db a c

  unfoldable pub hmget : Bytes → List Bytes → Outcome (Bool × List Bytes)
  unfolding execute
  hmget key fields =
      execute (false, []) (words (bytes "HMGET" ∷ key ∷ fields)) (λ r. some (true, array_of r)) db a
        c

  -- `start` and `end` in print.
  unfoldable pub lrange : Bytes → Bytes → Bytes → Outcome (Bool × List Bytes)
  unfolding execute
  lrange key start end =
      execute (false, []) (formatted (bytes "LRANGE %s %d %d") (key ∷ start ∷ end ∷ []))
        (λ r. some (true, array_of r)) db a c
