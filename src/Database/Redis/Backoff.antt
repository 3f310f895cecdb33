-- ===== src/Database/Redis/Backoff.antt =====
-- When `Init` connects, and what a failed "select" leaves.
use ka_im.Prelude.{◌+◌, ◌≤◌, ◌<◌, ◌≡◌, [], Bytes, arith}
use ka_im.Database.Redis.Session.{Answers, CacheConn, no_context, init}

-- A failed "select" is reported once: the call returns 2, and every later call returns 0 without
-- selecting the database.
pub init_skips_select :
    (db : Bytes) (a b : Answers) (c : CacheConn)
    → (init db a c).0 ≡ 2
    → let c' = (init db a c).1 in init db b c' ≡ (0, c', [])
unfolding init
init_skips_select db a b c h = ground arith

-- Without a context, whatever is answered, `Init` sends nothing and changes nothing within four
-- seconds of the last attempt to connect, and from then on notes the time of its attempt.
pub init_backoff :
    (db : Bytes) (a : Answers) (c : CacheConn)
    → c.context ≡ no_context
    → (a.cur_time < c.last_connect_time + 4 → init db a c ≡ (1, c, []))
      × (c.last_connect_time + 4 ≤ a.cur_time → (init db a c).1.last_connect_time ≡ a.cur_time)
unfolding init
init_backoff db a c h = (λ k. ground arith, λ k. ground arith)
