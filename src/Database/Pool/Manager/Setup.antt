-- ===== src/Database/Pool/Manager/Setup.antt =====
-- What the manager of the Redis pools is made from.
use ka_im.Prelude.{ℕ, ◌≡◌, refl, [], ◌∷◌, Option, none, some, Bytes, bytes, arith}
use ka_im.Prelude.Int.{to_unsigned}
use ka_im.Prelude.Decimal.{atoi}
use ka_im.Util.Config.{ConfigFileReader, get_config_name}
use ka_im.Database.Pool.{Pool, min_conn_cnt, init_loop}
use ka_im.Database.Pool
use ka_im.Database.Pool.Manager.{KaCacheManager, pool_name, init, get_instance, make_pool}

-- The manager with one pool, of two connections.
abbrev one_pool : Bytes → Bytes → Bytes → Bytes → ℕ → ℕ → KaCacheManager
one_pool ip port db_num max_conn a b = record {
  pools =
      (
        pool_name,
        record {
          info = record {
            server_ip = ip;
            server_port = to_unsigned 16 (atoi port);
            db_number = atoi db_num;
          };
          pool = record {
            cur_conn_cnt = min_conn_cnt;
            max_conn_cnt = atoi max_conn;
            free_list = a ∷ b ∷ [];
          };
        },
      )
      ∷ [];
}

module _ (reader : ConfigFileReader) (ip port db_num max_conn : Bytes)
    (has_ip : get_config_name (bytes "KaIM_host") reader ≡ some ip)
    (has_port : get_config_name (bytes "KaIM_port") reader ≡ some port)
    (has_db_num : get_config_name (bytes "KaIM_DBNUM") reader ≡ some db_num)
    (has_max_conn : get_config_name (bytes "KaIM_MAX_CONN") reader ≡ some max_conn)
    (creation : ℕ → Option ℕ) where
  init_made :
      (a b : ℕ)
      → creation 0 ≡ some a
      → creation 1 ≡ some b
      → init reader creation (record { pools = [] })
        ≡ some (0, one_pool ip port db_num max_conn a b)
  unfolding init make_pool Pool.init Pool.init_loop
  init_made a b h k = ground (arith, has_ip, has_port, has_db_num, has_max_conn, h, k)

  -- If the reader has the four settings, and both first connections can be made, then where there is
  -- no manager yet `getInstance` makes one with one pool, which holds the two connections, is
  -- limited by KaIM_MAX_CONN, and knows the address, the port cut to 16 bits and the database.
  pub get_instance-new :
      (a b : ℕ)
      → creation 0 ≡ some a
      → creation 1 ≡ some b
      → get_instance reader creation none ≡ some (some (one_pool ip port db_num max_conn a b))
  unfolding get_instance
  get_instance-new a b h k = rw (get_instance, init_made a b h k) refl
