-- ===== src/Database/Mysql/Setup.antt =====
-- The rest of DataBase/KaMysql/KaDBManager.cpp: `KaDBManager::init`, the constructor and the destructor
-- of `KaDBPool`, and what `KaDBConn` does beside its queries. None as a result: a null pointer was
-- used. `escapeString` has no body. What libmysqlclient and `vsnprintf` answer is an argument.
use ka_im.Prelude.{
  ℕ, zero, suc, ◌%◌, ◌^◌, ◌-◌, ◌≡◌, refl, ◌∙◌, inl, inr, Bool, false, List, [], ◌∷◌, ◌++◌, Option,
  none, some, Bytes, bytes, bytes_eq, arith, if◌then◌else◌, take, length, Option-cases,
}
use ka_im.Prelude.Int.{ℤ, pos, to_unsigned, ◌==ℤ◌}
use ka_im.Prelude.Decimal.{atoi}
use ka_im.Util.Config.{
  Pairs, ConfigFileReader, get_config_name, open_file, load_file, load_lines, load_line, parse_line,
  insert_pair, trim_space, next_line, line_size, split_equals, until, drop_newline,
}
use ka_im.Util.Config
use ka_im.Util.Config.Lookup.{find-insert_pair}
use ka_im.Database.Pool.{Pool}
use ka_im.Database.Pool
use ka_im.Database.Mysql.{KaDbConn, Opening, Answer, query}
use ka_im.Database.Mysql.Manager.{KaDbManager, pool_init, find}

pub record DatabaseInfo : Type 0 where
  pub host : Bytes
  pub port : ℕ
  pub user : Bytes
  pub pwd : Bytes
  pub db_name : Bytes

-- The constructor of `KaDBPool`: what it keeps, and the pool.
unfoldable pub make_pool : Bytes → ℕ → Bytes → Bytes → Bytes → ℤ → DatabaseInfo × Pool
make_pool ip port user passwd db_name max_conn = (
  record { host = ip; port = port; user = user; pwd = passwd; db_name = db_name },
  Pool.make max_conn,
)

-- The destructor: the connections that it deletes.
unfoldable pub destroy_pool : Pool → List ℕ × Pool
destroy_pool p = (p.free_list, record p { free_list = [] })

abbrev pub default_pool : Bytes
default_pool = bytes "defaultPool"

-- `insert`, which leaves a name that is there alone.
abbrev pub insert_pool : Bytes → Pool → KaDbManager → KaDbManager
insert_pool name p m = elim (find name m.pools) [
  | none ↦ record { pools = m.pools ++ (name, p) ∷ [] }
  | some q ↦ m
]

-- `KaDBManager::init`. `atoi` and the constructor of a string are given what `GetConfigName` found.
unfoldable pub init : ConfigFileReader → (ℕ → Option ℕ) → KaDbManager → Option (ℕ × KaDbManager)
unfolding make_pool pool_init
init configure creation m = elim (get_config_name (bytes "KaIM_host") configure) [
  | none ↦ none
  | some ip ↦ elim (get_config_name [] configure) [
    | none ↦ none
    | some setting ↦ elim (get_config_name (bytes "KaIM_maxconncnt") configure) [
      | none ↦ none
      | some max_cnt ↦
          let made =
            make_pool ip (to_unsigned 16 (atoi setting)) setting setting setting (atoi max_cnt) in
          let (code, p) = pool_init creation made.1 in
          if code ==ℤ pos 0 then some (0, insert_pool default_pool p m) else some (3, m)
    ]
  ]
]

-- MAX_QUERY_LEN
abbrev pub max_query_len : ℕ
max_query_len = 1024

module _ {ℓ} {R : Type ℓ} where
  -- `pquery`: the format, and what `vsnprintf` makes of it, none if it returns -1.
  unfoldable pub pquery :
      Option Bytes
      → (Bytes → Option Bytes)
      → Opening
      → Opening
      → Answer
      → Answer
      → Option R
      → KaDbConn
      → Option R × KaDbConn
  unfolding query
  pquery none print o o' first second result c = (none, c)
  pquery (some format) print o o' first second result c = elim (print format) [
    | none ↦ (none, c)
    | some text ↦ query o o' first second result (take (max_query_len - 1) text) c
  ]

-- `getInsertId`, which cuts the id that the library gives. None: there is no handle.
unfoldable pub get_insert_id : ℕ → KaDbConn → Option ℕ
get_insert_id id c = elim c.mysql [ none ↦ none | some h ↦ some (id % 2 ^ 32) ]

-- The loop of `clearStoreResults` over the results that are left, each of which can be stored or not:
-- the stored ones that it frees.
unfoldable pub free_results : List (Option ℕ) → List ℕ
free_results [] = []
free_results (none ∷ rest) = free_results rest
free_results (some r ∷ rest) = r ∷ free_results rest

unfoldable pub clear_store_results : List (Option ℕ) → KaDbConn → List ℕ
unfolding free_results
clear_store_results left c = elim c.mysql [ none ↦ [] | some h ↦ free_results left ]

-- No key is empty.
abbrev NoEmpty : Pairs → Type 0
NoEmpty pairs = Config.find [] pairs ≡ none

trim_space_nonempty : (s k : Bytes) → trim_space s ≡ some k → bytes_eq k [] ≡ false
unfolding trim_space
trim_space_nonempty s k h = ground (arith, h)

insert_pair-NoEmpty :
    (k v : Bytes) (pairs : Pairs)
    → bytes_eq k [] ≡ false
    → NoEmpty pairs
    → NoEmpty (insert_pair k v pairs)
insert_pair-NoEmpty k v pairs h n = find-insert_pair [] k v pairs ∙ rw (n, h) refl

parse_line-NoEmpty :
    (line : Bytes) (pairs : Pairs) → NoEmpty pairs → NoEmpty (parse_line line pairs)
unfolding parse_line
parse_line-NoEmpty line pairs n = elim (Option-cases (split_equals line)) [
  | inl no_mark ↦ rw (parse_line, no_mark) n
  | inr ((key, value), e) ↦ elim (Option-cases (trim_space key)) [
    | inl blank ↦ rw (parse_line, e, blank) n
    | inr (k, f) ↦ elim (Option-cases (trim_space value)) [
      | inl blank ↦ rw (parse_line, e, f, blank) n
      | inr (v, g) ↦
          rw (parse_line, e, f, g) (insert_pair-NoEmpty k v pairs (trim_space_nonempty key k f) n)
    ]
  ]
]

load_line-at :
    (text : Bytes) (pairs : Pairs)
    → NoEmpty pairs
    → NoEmpty (elim text [ [] ↦ pairs | c ∷ cs ↦ parse_line (c ∷ cs) pairs ])
load_line-at [] pairs n = n
load_line-at (c ∷ cs) pairs n = parse_line-NoEmpty (c ∷ cs) pairs n

load_lines-NoEmpty :
    (fuel : ℕ) (text : Bytes) (pairs result : Pairs)
    → NoEmpty pairs
    → load_lines fuel text pairs ≡ some result
    → NoEmpty result
unfolding load_lines load_line
load_lines-NoEmpty zero text pairs result n e = absurd (ground (arith, e))
load_lines-NoEmpty (suc fuel) [] pairs result n e = ground (arith, e, n)
load_lines-NoEmpty (suc fuel) (c ∷ cs) pairs result n e =
    let cut = next_line line_size (c ∷ cs) in
    load_lines-NoEmpty fuel cut.1 (load_line cut.0 pairs) result
      (load_line-at (until 35 (drop_newline (until 0 cut.0))) pairs n) e

open_file-NoEmpty :
    (garbage : Bool) (name : Bytes) (text : Option Bytes) (r : ConfigFileReader)
    → open_file garbage name text ≡ some r
    → NoEmpty r.config_map
unfolding load_file
open_file-NoEmpty garbage name none r e = ground (arith, e)
open_file-NoEmpty garbage name (some text) r e =
    elim (Option-cases (load_lines (suc (length text)) text [])) [
      | inl out ↦ absurd (ground (arith, out, e))
      | inr (pairs, f) ↦ ground (arith, f, e, load_lines-NoEmpty _ text [] pairs refl f)
    ]

no_setting : (r : ConfigFileReader) → NoEmpty r.config_map → get_config_name [] r ≡ none
unfolding get_config_name
no_setting r n = ground (arith, n)

-- Whatever the configuration file holds, and whether or not it can be opened, `init` of the manager
-- gives `atoi` a null pointer: it asks for the setting with the empty name, which no line of a file
-- can set.
pub init-none :
    (garbage : Bool) (name : Bytes) (text : Option Bytes) (r : ConfigFileReader)
    (creation : ℕ → Option ℕ) (m : KaDbManager)
    → open_file garbage name text ≡ some r
    → init r creation m ≡ none
unfolding init
init-none garbage name text r creation m e =
    ground (arith, no_setting r (open_file-NoEmpty garbage name text r e))
