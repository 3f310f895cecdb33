-- ===== src/Net/Server/Serving.antt =====
-- A server from its start over all that it accepts.

use ka_im.Prelude.{
  ℕ, suc, ◌+◌, ◌≡◌, refl, ap, ◌∙◌, Bool, true, false, List, [], ◌∷◌, ◌++◌, Option, none, some,
  Bytes, arith,
}
use ka_im.Prelude.Int.{ℤ, pos, negsuc, to_unsigned}
use ka_im.Net.Channel.{set_read_callback, added}
use ka_im.Net.Socket.{SockAddr}
use ka_im.Net.LoopPool.{LoopPool, get_next_loop, loop_at}
use ka_im.Net.Acceptor.{handle_read}
use ka_im.Net.Connection.{Effect, connection_callback, close_callback}
use ka_im.Net.Server.Opening.{set_poller_self, told, new_connection_lost}
use ka_im.Net.Poller.Fresh.{enable_reading_fresh}
use ka_im.Net.Channel
use ka_im.Net.LoopPool
use ka_im.Net.Acceptor
use ka_im.Net.Server.{
  make, start, TcpServer, Pollers, set_poller, has_connection, conn_name, new_connection, on_accept,
}
use ka_im.Net.LoopPool.Turning.{Turning, get_next_loop-Turning, start_pool}

-- The acceptor's channel reports a connection: what `::accept` answers, and the later answers.
pub record Arrival : Type 0 where
  pub connfd : ℤ
  pub peer : SockAddr
  pub address : ℕ
  pub answer : Bool
  pub closing : Bool

-- The read handler, once for each arrival.
unfoldable pub run :
    (Bytes → ℕ) → List Arrival → Pollers → TcpServer → Option (Pollers × TcpServer × List Effect)
run inet_addr [] pollers s = some (pollers, s, [])
run inet_addr (a ∷ rest) pollers s =
    elim (on_accept inet_addr a.connfd a.peer a.address a.answer a.closing pollers s).0 [
      | none ↦ none
      | some (pollers', s', es) ↦ elim (run inet_addr rest pollers' s') [
        | none ↦ none
        | some (pollers2, s2, es2) ↦ some (pollers2, s2, es ++ es2)
      ]
    ]

-- How many `::accept` let in, and what their owner is told.
unfoldable pub accepted : List Arrival → ℕ
accepted [] = 0
accepted (a ∷ rest) = elim a.connfd [ pos n ↦ suc (accepted rest) | negsuc n ↦ accepted rest ]

unfoldable pub told_of : List Arrival → List Effect
told_of [] = []
told_of (a ∷ rest) = elim a.connfd [
  | pos n ↦ connection_callback ∷ close_callback ∷ told_of rest
  | negsuc n ↦ told_of rest
]

-- A server that was started and holds no connection.
pub record Serving (s : TcpServer) : Type 0 where
  pub has_pool : (p : LoopPool) × (s.pool ≡ some p) × Turning p
  pub calls_back : s.acceptor.calls_back ≡ true
  pub no_connections : s.connections ≡ []

-- What a run comes to.
abbrev pub Served :
    Pollers → TcpServer → List Effect → ℕ → Option (Pollers × TcpServer × List Effect) → Type 0
Served pollers s told n o =
    (s' : TcpServer) × (o ≡ some (pollers, s', told))
    × (s'.next_conn_id ≡ s.next_conn_id + n)
    × Serving s'

on_accept_call :
    (inet_addr : Bytes → ℕ) (n : ℕ) (peer : SockAddr) (address : ℕ) (answer closing : Bool)
    (pollers : Pollers) (s : TcpServer)
    → s.acceptor.calls_back ≡ true
    → (on_accept inet_addr (pos n) peer address answer closing pollers s).0
      ≡ new_connection address answer closing n pollers s
unfolding on_accept handle_read
on_accept_call inet_addr n peer address answer closing pollers s h = ground (arith, h)

on_accept-Served :
    (inet_addr : Bytes → ℕ) (a : Arrival) (connfd : ℤ) (pollers : Pollers) (s : TcpServer)
    → a.connfd ≡ connfd
    → ((loop fd : ℕ) → (pollers loop).channels fd ≡ none)
    → Serving s
    → Served pollers s
        (elim connfd [ pos n ↦ told | negsuc n ↦ [] ])
        (elim connfd [ pos n ↦ 1 | negsuc n ↦ 0 ])
        (on_accept inet_addr connfd a.peer a.address a.answer a.closing pollers s).0
unfolding on_accept handle_read
on_accept-Served inet_addr a (negsuc n) pollers s e h v = (s, refl, omega arith, v)
on_accept-Served inet_addr a (pos n) pollers s e h v =
    let (p, has, turning) = v.has_pool in
    let (loop, p', next, turning') = get_next_loop-Turning p turning in
    let absent : has_connection (conn_name s) s.connections ≡ false =
      ap (has_connection (conn_name s)) v.no_connections in
    (
      record s { pool = some p'; next_conn_id = s.next_conn_id + 1 },
      on_accept_call inet_addr n a.peer a.address a.answer a.closing pollers s v.calls_back
          ∙ new_connection_lost a.address a.answer a.closing n pollers s p p' loop has next
              (h loop n) absent,
      refl,
      record {
        has_pool = (p', refl, turning');
        calls_back = v.calls_back;
        no_connections = v.no_connections;
      },
    )

run_cons :
    (inet_addr : Bytes → ℕ) (a : Arrival) (rest : List Arrival) (pollers : Pollers)
    (s s' : TcpServer) (es es2 : List Effect) (n m t : ℕ)
    → t ≡ n + m
    → (on_accept inet_addr a.connfd a.peer a.address a.answer a.closing pollers s).0
      ≡ some (pollers, s', es)
    → s'.next_conn_id ≡ s.next_conn_id + n
    → Served pollers s' es2 m (run inet_addr rest pollers s')
    → Served pollers s (es ++ es2) t (run inet_addr (a ∷ rest) pollers s)
unfolding run
run_cons inet_addr a rest pollers s s' es es2 n m t sum e c (s2, e2, c2, v2) =
    (s2, rw (run, e, e2) refl, omega arith, v2)

run_step :
    (inet_addr : Bytes → ℕ) (a : Arrival) (rest : List Arrival) (pollers : Pollers) (s : TcpServer)
    (connfd : ℤ)
    → Served pollers s
        (elim connfd [ pos n ↦ told | negsuc n ↦ [] ])
        (elim connfd [ pos n ↦ 1 | negsuc n ↦ 0 ])
        (on_accept inet_addr a.connfd a.peer a.address a.answer a.closing pollers s).0
    → ((s' : TcpServer)
        → Serving s'
        → Served pollers s' (told_of rest) (accepted rest) (run inet_addr rest pollers s'))
    → Served pollers s
        (elim connfd [
          | pos n ↦ connection_callback ∷ close_callback ∷ told_of rest
          | negsuc n ↦ told_of rest
        ])
        (elim connfd [ pos n ↦ suc (accepted rest) | negsuc n ↦ accepted rest ])
        (run inet_addr (a ∷ rest) pollers s)
run_step inet_addr a rest pollers s (pos n) (s', e, c, v) more =
    run_cons inet_addr a rest pollers s s' told (told_of rest) 1 (accepted rest)
      (suc (accepted rest)) (omega arith) e c (more s' v)
run_step inet_addr a rest pollers s (negsuc n) (s', e, c, v) more =
    run_cons inet_addr a rest pollers s s' [] (told_of rest) 0 (accepted rest) (accepted rest)
      (omega arith) e c (more s' v)

run-Served :
    (inet_addr : Bytes → ℕ) (arrivals : List Arrival) (pollers : Pollers) (s : TcpServer)
    → ((loop fd : ℕ) → (pollers loop).channels fd ≡ none)
    → Serving s
    → Served pollers s (told_of arrivals) (accepted arrivals) (run inet_addr arrivals pollers s)
unfolding run told_of accepted
run-Served inet_addr [] pollers s h v = (s, refl, omega arith, v)
run-Served inet_addr (a ∷ rest) pollers s h v =
    run_step inet_addr a rest pollers s a.connfd
      (on_accept-Served inet_addr a a.connfd pollers s refl h v)
      λ s' v'. run-Served inet_addr rest pollers s' h v'

-- The acceptor's channel is not registered.
start_lem :
    (threads channel loop : ℕ) (started_loop : ℕ → ℕ) (fd bound listened : ℤ) (ctl : Bool)
    (addr : SockAddr) (name : Bytes) (pollers : Pollers)
    → ((loop' fd' : ℕ) → (pollers loop').channels fd' ≡ none)
    → let (pollers', (s, asked)) =
        start threads started_loop listened ctl pollers (make channel loop fd bound addr name).0 in
      (pollers' ≡ pollers) × (s.next_conn_id ≡ 1) × Serving s
unfolding start make Acceptor.make Acceptor.listen Acceptor.set_new_connection_callback
start_lem threads channel loop started_loop fd bound listened ctl addr name pollers h =
    let c = set_read_callback true (Channel.make channel loop (to_unsigned 32 fd)) in
    (
      ap (λ r. set_poller pollers loop r.1)
            (enable_reading_fresh ctl (pollers loop) c refl (h loop _))
          ∙ set_poller_self pollers loop,
      refl,
      record {
        has_pool = (
          LoopPool.start started_loop (LoopPool.init loop threads LoopPool.make),
          refl,
          start_pool threads loop started_loop,
        );
        calls_back = refl;
        no_connections = refl;
      },
    )

-- A server that was made and started on pollers that know no channel, whatever the system answers:
-- after any number of calls of the acceptor's read handler the pollers know no channel still, so that
-- the listening socket is watched by none; the map of connections is empty; each connection that
-- `::accept` let in has used up one number, and its owner was told twice, by the connection callback
-- and by the close callback.
pub start-run :
    (inet_addr : Bytes → ℕ) (threads channel loop : ℕ) (started_loop : ℕ → ℕ)
    (fd bound listened : ℤ) (ctl : Bool) (addr : SockAddr) (name : Bytes) (pollers : Pollers)
    (arrivals : List Arrival)
    → ((loop' fd' : ℕ) → (pollers loop').channels fd' ≡ none)
    → let (pollers', (s, asked)) =
        start threads started_loop listened ctl pollers (make channel loop fd bound addr name).0 in
      (s' : TcpServer) × (run inet_addr arrivals pollers' s ≡ some (pollers, s', told_of arrivals))
      × (s'.next_conn_id ≡ accepted arrivals + 1)
      × (s'.connections ≡ [])
start-run inet_addr threads channel loop started_loop fd bound listened ctl addr name pollers
      arrivals h =
    let s0 = (make channel loop fd bound addr name).0 in
    let began = start threads started_loop listened ctl pollers s0 in
    let (same, first, v) =
      start_lem threads channel loop started_loop fd bound listened ctl addr name pollers h in
    let (s', e, c, v') = run-Served inet_addr arrivals pollers began.1.0 h v in
    (
      s',
      ap (λ ps. run inet_addr arrivals ps began.1.0) same ∙ e,
      omega (arith, c, first),
      v'.no_connections,
    )
