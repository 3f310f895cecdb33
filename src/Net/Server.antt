-- ===== src/Net/Server.antt =====
-- `TcpServer` of Net/TcpServer.h and Net/TcpServer.cpp. The pollers are those of the loops, by the
-- loop's address. The map of connections is in the order of the names; the connection behind a shared
-- pointer is its value, and a pointer that was reset is none. None as a result: a null pointer was
-- used. The callback for new threads is kept, and `start` does not pass it on. A connection's two
-- addresses are kept for printing only, and are left out with `getLocalAddr`'s answer.
pub mod Names
pub mod Opening
pub mod Refinement
pub mod Serving
pub mod Stopping
pub mod Table
pub mod Calling
use ka_im.Prelude.{
  ℕ, ◌+◌, ◌≡◌, refl, Bool, true, false, not, ◌||◌, List, [], ◌∷◌, ◌++◌, Option, none, some, Bytes,
  bytes, bytes_eq, bytes_lt, take, ◌==◌, if◌then◌else◌,
}
use ka_im.Prelude.Int.{ℤ, pos, negsuc}
use ka_im.Prelude.Decimal.{digits}
use ka_im.Net.Socket.{SockAddr, SysCall, Done, to_string, gets_sock_name}
use ka_im.Net.Poller.{KaPoller}
use ka_im.Net.LoopPool.{LoopPool, get_next_loop}
use ka_im.Net.LoopPool
use ka_im.Net.EventLoop.{ThreadCall}
use ka_im.Net.Acceptor.{KaAcceptor, set_new_connection_callback, calls, closed, failed, handle_read}
use ka_im.Net.Acceptor
use ka_im.Net.Connection.{
  TcpConnection, Effect, connection_callback, message_callback, write_complete_callback,
  close_callback, wrote, shut_down_write, connect_established, connect_destroyed,
}
use ka_im.Net.Connection
use ka_im.Net.Callback.{Callback, ServerCallbacks, default_callbacks, install}

abbrev pub ConnectionMap : Type 0
ConnectionMap = List (Bytes × Option TcpConnection)

-- `m_connections[name] = conn`
unfoldable pub put_connection : Bytes → Option TcpConnection → ConnectionMap → ConnectionMap
put_connection name c [] = (name, c) ∷ []
put_connection name c ((key, d) ∷ rest) =
    if bytes_eq key name
    then (key, c) ∷ rest
    else (if bytes_lt name key
        then (name, c) ∷ (key, d) ∷ rest
        else (key, d) ∷ put_connection name c rest)

-- `m_connections.erase(name)`
unfoldable pub erase_connection : Bytes → ConnectionMap → ConnectionMap
erase_connection name [] = []
erase_connection name ((key, d) ∷ rest) =
    if bytes_eq key name then rest else (key, d) ∷ erase_connection name rest

abbrev pub has_connection : Bytes → ConnectionMap → Bool
has_connection name [] = false
has_connection name ((key, d) ∷ rest) = bytes_eq key name || has_connection name rest

pub record TcpServer : Type 0 where
  pub loop : ℕ
  pub host_port : Bytes
  pub name : Bytes
  pub acceptor : KaAcceptor
  pub pool : Option LoopPool
  pub callbacks : ServerCallbacks
  pub started : Bool
  pub next_conn_id : ℕ
  pub connections : ConnectionMap

abbrev pub Pollers : Type 0
Pollers = ℕ → KaPoller

abbrev pub set_poller : Pollers → ℕ → KaPoller → Pollers
set_poller pollers loop p l = if l == loop then p else pollers l

-- The constructor, with the address of the acceptor's channel and what the system answers.
unfoldable pub make : ℕ → ℕ → ℤ → ℤ → SockAddr → Bytes → Done TcpServer
unfolding Acceptor.make set_new_connection_callback to_string
make channel loop fd answer listen_addr name =
    let (a, made) = Acceptor.make channel loop fd answer listen_addr in
    (
      record {
        loop = loop;
        host_port = to_string listen_addr;
        name = name;
        acceptor = set_new_connection_callback a;
        pool = none;
        callbacks = default_callbacks;
        started = false;
        next_conn_id = 1;
        connections = [];
      },
      made,
    )

unfoldable pub set_thread_init_callback : Callback → TcpServer → TcpServer
set_thread_init_callback cb s = record s { callbacks = record s.callbacks { thread_init = cb } }

unfoldable pub set_connection_callback : Callback → TcpServer → TcpServer
set_connection_callback cb s = record s { callbacks = record s.callbacks { connection = cb } }

unfoldable pub set_message_callback : Callback → TcpServer → TcpServer
set_message_callback cb s = record s { callbacks = record s.callbacks { message = cb } }

unfoldable pub set_write_complete_callback : Callback → TcpServer → TcpServer
set_write_complete_callback cb s = record s {
  callbacks = record s.callbacks { write_complete = cb };
}

-- `start`, with the loops that the threads make, and the answers of `::listen` and `::epoll_ctl`.
unfoldable pub start : ℕ → (ℕ → ℕ) → ℤ → Bool → Pollers → TcpServer → Pollers × Done TcpServer
unfolding LoopPool.init LoopPool.start Acceptor.listen
start threads started_loop answer ctl pollers s =
    let made = LoopPool.start started_loop (LoopPool.init s.loop threads LoopPool.make) in
    let (p, (a, asked)) = Acceptor.listen answer ctl (pollers s.loop) s.acceptor in
    if s.started then (pollers, (s, [])) else (
      set_poller pollers s.loop p,
      (record s { pool = some made; acceptor = a; started = true }, asked),
    )

-- The loop of `stop` over the map: each pointer is reset, and `connectDestroyed`, which does nothing,
-- is called on what it pointed to.
unfoldable pub reset_connections : ConnectionMap → Option ConnectionMap
reset_connections [] = some []
reset_connections ((key, none) ∷ rest) = none
reset_connections ((key, some c) ∷ rest) = elim (reset_connections rest) [
  | none ↦ none
  | some rest' ↦ some ((key, none) ∷ rest')
]

-- `stop`, and what it asks of the threads. The destructor is `stop`.
unfoldable pub stop : TcpServer → Option (TcpServer × List ThreadCall)
unfolding reset_connections LoopPool.stop
stop s = if not s.started then some (s, []) else (elim (reset_connections s.connections) [
  | none ↦ none
  | some left ↦ elim s.pool [
    | none ↦ none
    | some p ↦ some (record s { connections = left; started = false }, LoopPool.stop p)
  ]
])

-- `removeConnection`, which is `removeConnectionInLoop`. After the erasure `connectDestroyed` does
-- nothing.
unfoldable pub remove_connection : TcpConnection → TcpServer → TcpServer
unfolding erase_connection
remove_connection c s = record s { connections = erase_connection c.name s.connections }

-- The name of a connection: `snprintf` into an array of 32 bytes, behind the name of the server. The
-- number is an `int`, whose overflow is undefined; it is taken to be below 2 ^ 31.
unfoldable pub conn_tag : Bytes → ℕ → Bytes
conn_tag host_port id = take 31 (bytes ":" ++ (host_port ++ (bytes "#" ++ digits id)))

unfoldable pub conn_name : TcpServer → Bytes
unfolding conn_tag
conn_name s = s.name ++ conn_tag s.host_port s.next_conn_id

abbrev pub closes : List Effect → Bool
closes [] = false
closes (e ∷ es) = elim e [
  | connection_callback ↦ closes es
  | message_callback ↦ closes es
  | write_complete_callback ↦ closes es
  | close_callback ↦ true
  | wrote bs ↦ closes es
  | shut_down_write ↦ closes es
]

-- The end of `newConnection`, on the loop that it got: the connection is made and put into the map,
-- its callbacks are set, and it is established. Its close callback is `removeConnection`.
unfoldable pub open_connection :
    ℕ → Bool → Bool → ℕ → ℕ → Pollers → TcpServer → Pollers × TcpServer × List Effect
unfolding remove_connection put_connection conn_name connect_established Connection.make
open_connection address answer closing loop sockfd pollers s =
    let made = Connection.make address loop (conn_name s) sockfd in
    let c = record made { callbacks = install s.callbacks made.callbacks } in
    let (p, c', effects) = connect_established answer closing (pollers loop) c in
    let s' = record s {
      next_conn_id = s.next_conn_id + 1;
      connections = put_connection (conn_name s) (some c') s.connections;
    } in
    (set_poller pollers loop p, if closes effects then remove_connection c' s' else s', effects)

-- `newConnection` on a descriptor, with the address that the connection's channel gets and the
-- answers of `::epoll_ctl`.
unfoldable pub new_connection :
    ℕ → Bool → Bool → ℕ → Pollers → TcpServer → Option (Pollers × TcpServer × List Effect)
unfolding open_connection get_next_loop
new_connection address answer closing sockfd pollers s = elim s.pool [
  | none ↦ none
  | some pool ↦
      let (next, pool') = get_next_loop pool in
      elim next [
        | none ↦ none
        | some loop ↦ some (
            open_connection address answer closing loop sockfd pollers
              (record s { pool = some pool' }))
      ]
]

-- The read handler of the acceptor, with the callback that the server sets: `::accept`, and what
-- becomes of the descriptor that it gives.
unfoldable pub on_accept :
    (Bytes → ℕ)
    → ℤ
    → SockAddr
    → ℕ
    → Bool
    → Bool
    → Pollers
    → TcpServer
    → Option (Pollers × TcpServer × List Effect) × List SysCall
unfolding handle_read new_connection
on_accept inet_addr connfd peer address answer closing pollers s =
    let (accepted, made) = handle_read inet_addr connfd peer s.acceptor in
    elim accepted [
      | calls fd from ↦
          (new_connection address answer closing fd pollers s, made ++ gets_sock_name (pos fd) ∷ [])
      | closed ↦ (some (pollers, s, []), made)
      | failed ↦ (some (pollers, s, []), made)
    ]
