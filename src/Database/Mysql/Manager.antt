-- ===== src/Database/Mysql/Manager.antt =====
-- `KaDBPool` and `KaDBManager` of DataBase/KaMysql/KaDBManager.h and KaDBManager.cpp. `KaDBPool` is
-- `KaCachePool` with other names, and is modelled by its definitions. The manager keeps its pools by
-- name, and a connection knows the name of its pool.
use ka_im.Prelude.{ℕ, List, [], ◌∷◌, Option, none, some, Bytes, bytes_eq, if◌then◌else◌, ◌==◌}
use ka_im.Prelude.Int.{ℤ, pos, negsuc}
use ka_im.Database.Pool.{Pool, Got, failed, get_cache_conn, rel_cache_conn}
use ka_im.Database.Pool.{init as cache_init}

-- `KaDBPool::init`
unfoldable pub pool_init : (ℕ → Option ℕ) → Pool → ℤ × Pool
unfolding cache_init
pool_init creation p =
    let (code, q) = cache_init creation p in (if code == 0 then pos 0 else negsuc 0, q)

-- `getKaConn`, with what making a connection gives.
unfoldable pub get_ka_conn : Option ℕ → Pool → Got × Pool
unfolding get_cache_conn
get_ka_conn creation p = get_cache_conn creation p

-- `RelKaConn`
unfoldable pub rel_ka_conn : ℕ → Pool → Pool
unfolding rel_cache_conn
rel_ka_conn c p = rel_cache_conn c p

-- `m_DBPools`, with each name once.
pub record KaDbManager : Type 0 where
  pub pools : List (Bytes × Pool)

abbrev pub find : Bytes → List (Bytes × Pool) → Option Pool
find name [] = none
find name ((key, p) ∷ rest) = if bytes_eq key name then some p else find name rest

abbrev pub put : Bytes → Pool → List (Bytes × Pool) → List (Bytes × Pool)
put name q [] = []
put name q ((key, p) ∷ rest) =
    if bytes_eq key name then (key, q) ∷ rest else (key, p) ∷ put name q rest

-- `getInstance` on the static pointer, where making a manager gives `built`, none if its `init`
-- fails.
unfoldable pub get_instance : Option KaDbManager → Option KaDbManager → Option KaDbManager
get_instance built none = none
get_instance built (some m) = built

-- `getDBConn`, with what making a connection gives. NULL is `failed`.
unfoldable pub get_db_conn : Option ℕ → Bytes → KaDbManager → Got × KaDbManager
unfolding get_ka_conn
get_db_conn creation name m = elim (find name m.pools) [
  | none ↦ (failed, m)
  | some p ↦ let (got, q) = get_ka_conn creation p in (got, record { pools = put name q m.pools })
]

-- `RelDBConn`, on a connection and the name of its pool. A null pointer gets past the test and is
-- used: none.
unfoldable pub rel_db_conn : Option (ℕ × Bytes) → KaDbManager → Option KaDbManager
rel_db_conn (some c) m = some m
rel_db_conn none m = none
