-- ===== src/Net/Server/Refinement.antt =====
-- What `newConnection`, on the loops that it gets, and `removeConnection` do to a server, on a function
-- from names instead of the map.
use mathlib.Core.Path.{subst}
use ka_im.Prelude.{
  ascends, ℕ, ◌+◌, ◌≡◌, refl, sym, ap, ◌∙◌, Bool, true, false, List, [], ◌∷◌, none, some, Bytes,
  arith, if◌then◌else◌,
}
use ka_im.Net.Callback.{ServerCallbacks, install}
use ka_im.Net.Poller.{KaPoller}
use ka_im.Net.Connection.{TcpConnection, Effect, connect_established, handle_close}
use ka_im.Net.Connection
use ka_im.Net.Server.{
  TcpServer, ConnectionMap, Pollers, set_poller, put_connection, erase_connection,
  remove_connection, conn_name, open_connection, closes,
}
use ka_im.Net.Server.Table.{
  Table, table_of, set_entry, ascends-put, ascends-erase, table-put, table-erase, set_entry_twice,
}

-- `opens` has the address of the channel, the answers of `::epoll_ctl`, the loop and the descriptor.
pub data Op : Type 0 where
  opens : ℕ → Bool → Bool → ℕ → ℕ → Op
  removes : TcpConnection → Op

unfoldable pub run : List Op → Pollers → TcpServer → Pollers × TcpServer
run [] pollers s = (pollers, s)
run (opens address answer closing loop sockfd ∷ ops) pollers s =
    let (pollers', s', es) = open_connection address answer closing loop sockfd pollers s in
    run ops pollers' s'
run (removes c ∷ ops) pollers s = run ops pollers (remove_connection c s)

-- The connection that `newConnection` makes.
abbrev pub made : ℕ → ℕ → ℕ → ServerCallbacks → Bytes → TcpConnection
made address loop sockfd callbacks name =
    let c = Connection.make address loop name sockfd in
    record c { callbacks = install callbacks c.callbacks }

-- The same on a function from names; `names` gives the name that goes with a number.
unfoldable pub replay :
    List Op → ServerCallbacks → (ℕ → Bytes) → Pollers → ℕ → Table → Pollers × ℕ × Table
replay [] callbacks names pollers id t = (pollers, id, t)
replay (opens address answer closing loop sockfd ∷ ops) callbacks names pollers id t =
    let (p, c, es) =
      connect_established answer closing (pollers loop)
        (made address loop sockfd callbacks (names id)) in
    replay ops callbacks names (set_poller pollers loop p) (id + 1)
      (set_entry (names id) (if closes es then none else some (some c)) t)
replay (removes c ∷ ops) callbacks names pollers id t =
    replay ops callbacks names pollers id (set_entry c.name none t)

pub connect_established-name :
    (answer closing : Bool) (p : KaPoller) (c : TcpConnection)
    → (connect_established answer closing p c).1.name ≡ c.name
unfolding connect_established handle_close
connect_established-name answer closing p c = ground arith

-- The map once a connection was put into it and perhaps removed at once.
abbrev pub opened : Bool → Bytes → TcpConnection → ConnectionMap → ConnectionMap
opened closed name c m =
    if closed
    then erase_connection c.name (put_connection name (some c) m)
    else put_connection name (some c) m

if_removed :
    (closed : Bool) (c : TcpConnection) (s : TcpServer)
    → (if closed then remove_connection c s else s) ≡ record s {
      connections = if closed then erase_connection c.name s.connections else s.connections;
    }
unfolding remove_connection
if_removed true c s = refl
if_removed false c s = refl

opened-ascends :
    (closed : Bool) (name : Bytes) (c : TcpConnection) (m : ConnectionMap)
    → ascends m ≡ true
    → ascends (opened closed name c m) ≡ true
opened-ascends true name c m h =
    ascends-erase c.name (put_connection name (some c) m) (ascends-put name (some c) m h)
opened-ascends false name c m h = ascends-put name (some c) m h

table-opened :
    (closed : Bool) (name : Bytes) (c : TcpConnection) (m : ConnectionMap)
    → c.name ≡ name
    → ascends m ≡ true
    → table_of (opened closed name c m)
      ≡ set_entry name (if closed then none else some (some c)) (table_of m)
table-opened true name c m e h =
    table-erase c.name (put_connection name (some c) m) (ascends-put name (some c) m h)
    ∙ ap (set_entry c.name none) (table-put name (some c) m)
    ∙ ap (λ n. set_entry n none (set_entry name (some (some c)) (table_of m))) e
    ∙ set_entry_twice name none (some (some c)) (table_of m)
table-opened false name c m e h = table-put name (some c) m

abbrev pub names_of : TcpServer → ℕ → Bytes
names_of s id = conn_name (record s { next_conn_id = id })

pub open_connection_lem :
    (address : ℕ) (answer closing : Bool) (loop sockfd : ℕ) (pollers : Pollers) (s : TcpServer)
    → let (p, c, es) =
        connect_established answer closing
          (pollers loop)
          (made address loop sockfd s.callbacks (conn_name s)) in
      open_connection address answer closing loop sockfd pollers s ≡ (
        set_poller pollers loop p,
        record s {
          next_conn_id = s.next_conn_id + 1;
          connections = opened (closes es) (conn_name s) c s.connections;
        },
        es,
      )
unfolding open_connection
open_connection_lem address answer closing loop sockfd pollers s =
    let (p, c, es) =
      connect_established answer closing (pollers loop)
        (made address loop sockfd s.callbacks (conn_name s)) in
    ap (λ s'. (set_poller pollers loop p, s', es))
      (if_removed (closes es) c (record s {
        next_conn_id = s.next_conn_id + 1;
        connections = put_connection (conn_name s) (some c) s.connections;
      }))

-- A server agrees with what the calls come to on a function from names.
abbrev Agrees : Pollers × TcpServer → Pollers × ℕ × Table → Type 0
Agrees r t =
    (ascends r.1.connections ≡ true) × ((r.0, r.1.next_conn_id, table_of r.1.connections) ≡ t)

run-Agrees :
    (ops : List Op) (r r' : Pollers × TcpServer × List Effect) (t : Pollers × ℕ × Table)
    → r ≡ r'
    → Agrees (run ops r'.0 r'.1) t
    → Agrees (run ops r.0 r.1) t
run-Agrees ops r r' t e h = subst (λ q. Agrees (run ops q.0 q.1) t) (sym e) h

replay-Agrees :
    (r : Pollers × TcpServer) (t t' : Pollers × ℕ × Table) → t ≡ t' → Agrees r t → Agrees r t'
replay-Agrees r t t' e h = (h.0, h.1 ∙ e)

-- On a server whose map is in the strict order of the names, any sequence of opening connections on
-- the loops that they got and of removing connections leaves the map in this order; and the pollers,
-- the number of the next connection and what the map has under each name are what the same calls give
-- on a function from names: a new connection takes the place under its name, or leaves nothing there
-- if it was closed at once, a removal leaves nothing under its name, and no other name is touched.
pub run-replay :
    (ops : List Op) (pollers : Pollers) (s : TcpServer)
    → ascends s.connections ≡ true
    → Agrees
        (run ops pollers s)
        (replay ops s.callbacks (names_of s) pollers s.next_conn_id (table_of s.connections))
unfolding run replay remove_connection conn_name Connection.make
run-replay [] pollers s h = (h, refl)
run-replay (removes c ∷ ops) pollers s h =
    replay-Agrees (run ops pollers (remove_connection c s)) _ _
      (ap (replay ops s.callbacks (names_of s) pollers s.next_conn_id)
        (table-erase c.name s.connections h))
      (run-replay ops pollers (remove_connection c s) (ascends-erase c.name s.connections h))
run-replay (opens address answer closing loop sockfd ∷ ops) pollers s h =
    let new = made address loop sockfd s.callbacks (conn_name s) in
    let (p, c, es) = connect_established answer closing (pollers loop) new in
    let s' = record s {
      next_conn_id = s.next_conn_id + 1;
      connections = opened (closes es) (conn_name s) c s.connections;
    } in
    run-Agrees ops _ (set_poller pollers loop p, s', es) _
      (open_connection_lem address answer closing loop sockfd pollers s)
      (replay-Agrees (run ops (set_poller pollers loop p) s') _ _
        (ap (replay ops s.callbacks (names_of s) (set_poller pollers loop p) (s.next_conn_id + 1)) (
          table-opened (closes es) (conn_name s) c s.connections
            (connect_established-name answer closing (pollers loop) new) h))
        (run-replay ops (set_poller pollers loop p) s'
          (opened-ascends (closes es) (conn_name s) c s.connections h)))
