-- ===== src/Net/Server/Opening.antt =====
-- What becomes of the connections that a server accepts.
use mathlib.Core.Path.{fun_ext}
use ka_im.Prelude.{
  ℕ, ◌+◌, ◌≡◌, refl, ap, inl, inr, Bool, false, List, [], ◌∷◌, Option, none, some, Bytes, bytes_eq,
  bytes_eq_refl, bytes_lt, arith, Bool-cases,
}
use ka_im.Net.Callback.{install}
use ka_im.Net.LoopPool.{LoopPool, get_next_loop}
use ka_im.Net.Connection.{
  TcpConnection, Effect, connection_callback, close_callback, connecting, disconnected,
  connect_established,
}
use ka_im.Net.Connection
use ka_im.Net.Connection.Opening.{connect_established_unknown}
use ka_im.Net.Server.{
  TcpServer, ConnectionMap, Pollers, set_poller, put_connection, erase_connection, has_connection,
  remove_connection, conn_name, open_connection, new_connection,
}

pub set_poller_self :
    (pollers : Pollers) (loop : ℕ) → set_poller pollers loop (pollers loop) ≡ pollers
set_poller_self pollers loop = fun_ext λ l. ground arith

erase-put :
    (name : Bytes) (c : Option TcpConnection) (m : ConnectionMap)
    → has_connection name m ≡ false
    → erase_connection name (put_connection name c m) ≡ m
unfolding erase_connection put_connection
erase-put name c [] h = rw (bytes_eq_refl name) refl
erase-put name c ((key, d) ∷ rest) h = elim (Bool-cases (bytes_eq key name)) [
  | inl same ↦ absurd (ground (arith, same, h))
  | inr other ↦ elim (Bool-cases (bytes_lt name key)) [
    | inl first ↦ rw (other, first, bytes_eq_refl name) refl
    | inr later ↦
        rw (other, later, other)
          (ap (◌∷◌ (key, d)) (erase-put name c rest (ground (arith, other, h))))
  ]
]

-- What the owner of a connection is told that does not last.
abbrev pub told : List Effect
told = connection_callback ∷ close_callback ∷ []

open_connection_lost :
    (address : ℕ) (answer closing : Bool) (loop sockfd : ℕ) (pollers : Pollers) (s : TcpServer)
    → (pollers loop).channels sockfd ≡ none
    → has_connection (conn_name s) s.connections ≡ false
    → open_connection address answer closing loop sockfd pollers s
      ≡ (pollers, record s { next_conn_id = s.next_conn_id + 1 }, told)
unfolding open_connection Connection.make remove_connection
open_connection_lost address answer closing loop sockfd pollers s h absent =
    let made = Connection.make address loop (conn_name s) sockfd in
    let c = record made { callbacks = install s.callbacks made.callbacks } in
    let est = connect_established answer closing (pollers loop) c in
    let known = connect_established_unknown answer closing (pollers loop) c refl refl h in
    rw
      (
        known.0,
        known.2,
        known.3,
        set_poller_self pollers loop,
        erase-put (conn_name s) (some est.1) s.connections absent,
      )
      refl

-- On a loop whose poller does not know the descriptor, and where the map has not yet the name that is
-- due, a new connection does not last: `newConnection` tells the owner of it once by the connection
-- callback, when it is disconnected already, and afterwards the map and all pollers are as before.
pub new_connection_lost :
    (address : ℕ) (answer closing : Bool) (sockfd : ℕ) (pollers : Pollers) (s : TcpServer)
    (pool pool' : LoopPool) (loop : ℕ)
    → s.pool ≡ some pool
    → get_next_loop pool ≡ (some loop, pool')
    → (pollers loop).channels sockfd ≡ none
    → has_connection (conn_name s) s.connections ≡ false
    → new_connection address answer closing sockfd pollers s
      ≡ some (pollers, record s { pool = some pool'; next_conn_id = s.next_conn_id + 1 }, told)
unfolding new_connection conn_name
new_connection_lost address answer closing sockfd pollers s pool pool' loop e next h absent =
    rw (new_connection, e, next, next)
      (ap some (
        open_connection_lost address answer closing loop sockfd pollers
          (record s { pool = some pool' }) h absent))
