-- ===== src/Database/ManagerTests.antt =====
-- Runs of the results and of the managers of the pools on small inputs.
use ka_im.Prelude.{
  ◌≡◌, ◌-◌, ◌^◌, refl, true, false, List, [], ◌∷◌, ◌++◌, Option, none, some, Bytes, bytes, arith,
  min, map, ◌==◌, if◌then◌else◌,
}
use ka_im.Prelude.Int.{pos}
use ka_im.Prelude.Decimal.{digits}
use ka_im.Util.Config.{ConfigFileReader, load_file, load_lines, load_line}
use ka_im.Database.Pool.Manager.{KaCacheManager, pool_name, gets, gives_back, run, replay, view}
use ka_im.Database.Pool.Manager.Refinement.{run_refines}
use ka_im.Database.Mysql.Setup.{init, init-none}
use ka_im.Database.Mysql.Results.{
  MysqlField, Row, QueryResult, type_longlong, type_string, deletes_row, frees_result, make,
  destroy, new_field, get_field_idx, set_value,
}
use ka_im.Database.Mysql.Results.Rows.{columns, read_all, read_all-make}
use ka_im.Database.Mysql.Results.Releases.{next, ends, run as use_result, destroy-released}
use ka_im.Database.Mysql.Results.Names.{Finds, get_field_idx_lem}
use ka_im.Database.Mysql.Results.Values.{Casts, get_u_int_value-digits}

-- A result set is the list of the rows that are left.
abbrev fetch : List Row → Option Row × List Row
fetch [] = (none, [])
fetch (row ∷ rows) = (some row, rows)

abbrev lower : Bytes → Bytes
lower name = name

abbrev fields : List MysqlField
fields =
    record { name = some (bytes "id"); native_type = type_longlong }
    ∷ record { name = some (bytes "nick"); native_type = type_string }
    ∷ []

abbrev row_of : Option Bytes → Option Bytes → Row
row_of first second i = if i == 0 then first else second

abbrev rows : List Row
rows = row_of (some (bytes "1")) (some (bytes "ka")) ∷ row_of (some (bytes "2")) none ∷ []

read_all-make_example :
    (q : QueryResult (List Row)) × (read_all 3 lower fetch (make rows 2 fields)
      ≡ some (map (λ row. some (columns lower fields row)) rows, q))
    × (q.current_row ≡ none)
    × (q.result ≡ none)
    × (q.released ≡ deletes_row ∷ frees_result ∷ [])
read_all-make_example =
    read_all-make lower fetch rows 2 fields rows 3 (refl, (refl, refl)) (omega arith)

destroy-released_example :
    (destroy (use_result lower fetch (next ∷ ends ∷ next ∷ []) (make rows 2 fields))).released
    ≡ deletes_row ∷ frees_result ∷ []
destroy-released_example = destroy-released lower fetch (next ∷ ends ∷ next ∷ []) rows 2 fields

get_field_idx_lem_example :
    Finds
      (bytes "nick")
      (make rows 2 fields).field_names
      (get_field_idx (bytes "nick") (make rows 2 fields))
get_field_idx_lem_example = get_field_idx_lem (bytes "nick") (make rows 2 fields)

-- The largest BIGINT UNSIGNED.
get_u_int_value-digits_example :
    Casts (set_value (digits (2 ^ 64 - 1)) new_field) (min (2 ^ 64 - 1) (2 ^ 63 - 1))
get_u_int_value-digits_example = get_u_int_value-digits (2 ^ 64 - 1) new_field

-- A manager with one pool of two free connections.
abbrev manager : KaCacheManager
manager = record {
  pools =
      (
        pool_name,
        record {
          info = record { server_ip = bytes "127.0.0.1"; server_port = 6379; db_number = pos 0 };
          pool = record { cur_conn_cnt = 2; max_conn_cnt = pos 4; free_list = 11 ∷ 12 ∷ [] };
        },
      )
      ∷ [];
}

run_refines_example :
    ((run (gets none pool_name ∷ gives_back (some (11, pool_name)) ∷ gets none [] ∷ []) manager).0
      ≡ (replay
          (gets none pool_name ∷ gives_back (some (11, pool_name)) ∷ gets none [] ∷ [])
          (view manager)).0)
    × (view
          (run
            (gets none pool_name ∷ gives_back (some (11, pool_name)) ∷ gets none [] ∷ [])
            manager).1
        ≡ (replay
            (gets none pool_name ∷ gives_back (some (11, pool_name)) ∷ gets none [] ∷ [])
            (view manager)).1)
run_refines_example =
    run_refines (gets none pool_name ∷ gives_back (some (11, pool_name)) ∷ gets none [] ∷ [])
      manager

abbrev conf : Bytes
conf = bytes "KaIM_host=db" ++ 10 ∷ bytes "=3306" ++ 10 ∷ []

abbrev reader : ConfigFileReader
reader = record {
  has_load = true;
  config_map = (bytes "KaIM_host", bytes "db") ∷ [];
  configfile = bytes "mysql.conf";
}

init-none_example : init reader (λ i. some i) (record { pools = [] }) ≡ none
unfolding load_file load_lines load_line
init-none_example =
    init-none false (bytes "mysql.conf") (some conf) reader (λ i. some i) (record { pools = [] })
      refl
