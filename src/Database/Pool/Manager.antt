-- ===== src/Database/Pool/Manager.antt =====
-- `KaCacheManager` of DataBase/KaRedis/KaCachePool.h and KaCachePool.cpp, and the constructor of
-- `KaCachePool` with what it is told. A pool keeps these facts beside its connections. A connection
-- comes with the name of its pool. None as a result: a null pointer was used.
pub mod Refinement
pub mod Setup
use ka_im.Prelude.{
  ℕ, ◌%◌, ◌^◌, ◌≡◌, refl, sym, ap, ◌∙◌, inl, inr, Bool, true, false, List, [], ◌∷◌, ◌++◌, Option,
  none, some, Bytes, bytes, bytes_eq, bytes_eq_refl, bytes_eq_sound, arith, if◌then◌else◌, ◌==◌,
  Bool-cases, Option-cases,
}
use ka_im.Prelude.Int.{ℤ, pos, negsuc, to_unsigned}
use ka_im.Prelude.Decimal.{atoi}
use ka_im.Util.Config.{ConfigFileReader, get_config_name, open_file}
use ka_im.Database.Pool.{Pool, Got, failed, conn, waits}
use ka_im.Database.Pool

-- What the constructor of the pool is given: the port as `uint16_t`.
pub record PoolInfo : Type 0 where
  pub server_ip : Bytes
  pub server_port : ℕ
  pub db_number : ℤ

pub record CachePool : Type 0 where
  pub info : PoolInfo
  pub pool : Pool

unfoldable pub make_pool : Bytes → ℤ → ℤ → ℤ → CachePool
make_pool ip port db_num max_conn = record {
  info = record { server_ip = ip; server_port = to_unsigned 16 port; db_number = db_num };
  pool = Pool.make max_conn;
}

abbrev pub Pools : Type 0
Pools = List (Bytes × CachePool)

-- `m_pKaCaChePool_map`
pub record KaCacheManager : Type 0 where
  pub pools : Pools

abbrev pub find : Bytes → Pools → Option CachePool
find name [] = none
find name ((key, p) ∷ rest) = if bytes_eq key name then some p else find name rest

-- A pool that is there is changed in place.
abbrev pub put : Bytes → CachePool → Pools → Pools
put name q [] = []
put name q ((key, p) ∷ rest) =
    if bytes_eq key name then (key, q) ∷ rest else (key, p) ∷ put name q rest

-- `insert`, which leaves a name that is there alone; the order of the map is not kept.
abbrev pub insert_pool : Bytes → CachePool → Pools → Pools
insert_pool name q pools = elim (find name pools) [
  | none ↦ pools ++ (name, q) ∷ []
  | some p ↦ pools
]

abbrev pub pool_name : Bytes
pool_name = bytes "KaRedis_1"

-- `Init` on what the file holds; `creation` is what making connections gives. Where the file lacks a
-- setting, `atoi` or the constructor of a string gets a null pointer.
unfoldable pub init :
    ConfigFileReader → (ℕ → Option ℕ) → KaCacheManager → Option (ℕ × KaCacheManager)
unfolding make_pool Pool.init
init reader creation m = elim (get_config_name (bytes "KaIM_host") reader) [
  | none ↦ none
  | some ip ↦ elim (get_config_name (bytes "KaIM_port") reader) [
    | none ↦ none
    | some port ↦ elim (get_config_name (bytes "KaIM_DBNUM") reader) [
      | none ↦ none
      | some db_num ↦ elim (get_config_name (bytes "KaIM_MAX_CONN") reader) [
        | none ↦ none
        | some max_conn ↦
            let made = make_pool ip (atoi port) (atoi db_num) (atoi max_conn) in
            let (code, p) = Pool.init creation made.pool in
            if code == 0
            then some
                (0, record { pools = insert_pool pool_name (record made { pool = p }) m.pools })
            else some (3, m)
      ]
    ]
  ]
]

-- `getInstance` on the static pointer: the pointer afterwards.
unfoldable pub get_instance :
    ConfigFileReader → (ℕ → Option ℕ) → Option KaCacheManager → Option (Option KaCacheManager)
unfolding init
get_instance reader creation (some m) = some (some m)
get_instance reader creation none = elim (init reader creation (record { pools = [] })) [
  | none ↦ none
  | some (code, m) ↦ some (if code == 0 then some m else none)
]

unfoldable pub get_cache_conn : Option ℕ → Bytes → KaCacheManager → Got × KaCacheManager
unfolding Pool.get_cache_conn
get_cache_conn creation name m = elim (find name m.pools) [
  | none ↦ (failed, m)
  | some p ↦
      let (got, q) = Pool.get_cache_conn creation p.pool in
      (got, record { pools = put name (record p { pool = q }) m.pools })
]

unfoldable pub rel_cache_conn : Option (ℕ × Bytes) → KaCacheManager → KaCacheManager
unfolding Pool.rel_cache_conn
rel_cache_conn none m = m
rel_cache_conn (some (c, name)) m = elim (find name m.pools) [
  | none ↦ m
  | some p ↦ record { pools = put name (record p { pool = Pool.rel_cache_conn c p.pool }) m.pools }
]

-- The abstract view: a pool or none at each name.
abbrev pub View : Type 0
View = Bytes → Option Pool

abbrev pool_of : Option CachePool → Option Pool
pool_of o = elim o [ none ↦ none | some p ↦ some p.pool ]

pub view : KaCacheManager → View
view m name = pool_of (find name m.pools)

abbrev pub update : View → Bytes → Pool → View
update f name p n = if bytes_eq name n then some p else f n

pub data Op : Type 0 where
  gets : Option ℕ → Bytes → Op
  gives_back : Option (ℕ × Bytes) → Op

-- The calls on the manager, with what they return.
unfoldable pub run : List Op → KaCacheManager → List Got × KaCacheManager
run [] m = ([], m)
run (gets creation name ∷ ops) m =
    let (got, m') = get_cache_conn creation name m in
    let (rest, m'') = run ops m' in (got ∷ rest, m'')
run (gives_back c ∷ ops) m = run ops (rel_cache_conn c m)

-- The same calls on the pools of the view.
abbrev pub got_of : Option ℕ → Option Pool → Got
got_of creation o = elim o [ none ↦ failed | some p ↦ (Pool.get_cache_conn creation p).0 ]

abbrev pub borrowed : Option ℕ → Bytes → View → View
borrowed creation name f = elim (f name) [
  | none ↦ f
  | some p ↦ update f name (Pool.get_cache_conn creation p).1
]

abbrev pub returned : Option (ℕ × Bytes) → View → View
returned none f = f
returned (some (c, name)) f = elim (f name) [
  | none ↦ f
  | some p ↦ update f name (Pool.rel_cache_conn c p)
]

unfoldable pub replay : List Op → View → List Got × View
replay [] f = ([], f)
replay (gets creation name ∷ ops) f =
    let (rest, f') = replay ops (borrowed creation name f) in (got_of creation (f name) ∷ rest, f')
replay (gives_back c ∷ ops) f = replay ops (returned c f)
