-- ===== src/Database/Tests.antt =====
-- Runs of DataBase/ on small inputs.
use ka_im.Prelude.{ℕ, ◌+◌, ◌≡◌, ◌≢◌, refl, true, map, [], ◌∷◌, Option, none, some, Bytes, bytes}
use ka_im.Prelude.Int.{pos}
use ka_im.Database.Pool.{Pool, conn, waits, get_cache_conn, rel_cache_conn, init, is_free}
use ka_im.Database.Pool
use ka_im.Database.Pool.Clients.{
  System, Step, borrows, here, next, IsSound, Reach-IsSound, init-IsSound,
}
use ka_im.Database.Pool.Order.{give_back_all, gets-give_back_all}
use ka_im.Database.Pool.Order
use ka_im.Database.Redis.Session.{
  CacheConn, Context, no_context, live, dangling, Answers, connected, status_reply, string_reply,
  integer_reply, make, fault,
}
use ka_im.Database.Redis.Session
use ka_im.Database.Redis.Commands.{is_exist}
use ka_im.Database.Redis.Safety.{gets, sets, run-IsSafe, is_exist_dangles, left}
use ka_im.Database.Redis.Safety

-- A pool with two connections, and one of them lent out.
abbrev pool : Pool
pool = record { cur_conn_cnt = 2; max_conn_cnt = pos 2; free_list = 11 ∷ 12 ∷ [] }

abbrev idle : System
idle = record { pool = pool; lent = [] }

abbrev busy : System
busy = record { pool = record pool { free_list = 12 ∷ [] }; lent = 11 ∷ [] }

abbrev creation : ℕ → Option ℕ
creation i = some (11 + i)

init_ok : init creation (Pool.make (pos 2)) ≡ (0, pool)
unfolding init
init_ok = refl

idle-IsSound : IsSound idle
idle-IsSound = init-IsSound (pos 2) creation pool (λ e. absurd (cc e)) init_ok

lends : get_cache_conn none pool ≡ (conn 11, busy.pool)
unfolding get_cache_conn
lends = refl

borrow_one : Step idle busy
borrow_one = borrows {s = idle} {t = busy} none 11 busy.pool (λ a e. absurd (cc e)) lends refl

Reach-IsSound_example : IsSound busy
Reach-IsSound_example = Reach-IsSound idle-IsSound (next here borrow_one)

abbrev spent : System
spent = record { pool = record pool { free_list = [] }; lent = 12 ∷ 11 ∷ [] }

lends_last : get_cache_conn none busy.pool ≡ (conn 12, spent.pool)
unfolding get_cache_conn
lends_last = refl

spent-IsSound : IsSound spent
spent-IsSound = Reach-IsSound idle-IsSound (
    next (next here borrow_one)
      (borrows {s = busy} {t = spent} none 12 spent.pool (λ a e. absurd (cc e)) lends_last refl))

spent_waits : (get_cache_conn none spent.pool).0 ≡ waits
unfolding get_cache_conn
spent_waits = refl

-- Answers at the time 100: a connection with its database selected, and "OK".
abbrev answers : Answers
answers = record {
  cur_time = 100;
  connect = connected;
  select = some (status_reply (bytes "OK"));
  reply = some (status_reply (bytes "OK"));
}

abbrev silent : Answers
silent = record answers { reply = none }

abbrev key : Bytes
key = bytes "k"

run-IsSafe_example :
    (d : CacheConn) × (Safety.run
        (bytes "0")
        make
        ((answers, sets key key) ∷ (silent, gets key) ∷ [])
      ≡ some d)
    × (d.context ≢ dangling)
run-IsSafe_example =
    run-IsSafe (bytes "0") make ((answers, sets key key) ∷ (silent, gets key) ∷ []) (λ e. cc e)

abbrev opened : CacheConn
opened = record { context = live; last_connect_time = 90 }

is_exist_dangles_example :
    (d : CacheConn) × (left (is_exist (bytes "0") silent opened key) ≡ some d)
    × (Safety.step (bytes "0") answers d (gets key) ≡ none)
    × (is_exist (bytes "0") answers d key ≡ fault)
    × (Session.destroy d ≡ none)
is_exist_dangles_example =
    is_exist_dangles (bytes "0") silent answers opened key (gets key) refl refl

unselected : (Session.init (bytes "0") (record answers { select = none }) make).0 ≡ 2
unfolding Session.init
unselected = refl

-- A third connection and a fourth are given back while two are free.
gets-give_back_all_example :
    ((c : ℕ)
      → is_free c (11 ∷ 12 ∷ 21 ∷ 22 ∷ []) ≡ true
      → rel_cache_conn c (give_back_all (21 ∷ 22 ∷ []) pool) ≡ give_back_all (21 ∷ 22 ∷ []) pool)
    × (Order.gets (none ∷ none ∷ none ∷ none ∷ []) (give_back_all (21 ∷ 22 ∷ []) pool)
        ≡ (map conn (11 ∷ 12 ∷ 21 ∷ 22 ∷ []), record pool { free_list = [] }))
gets-give_back_all_example =
    gets-give_back_all (21 ∷ 22 ∷ []) (none ∷ none ∷ none ∷ none ∷ []) pool (refl, (refl, tt)) refl
