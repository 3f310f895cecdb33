-- ===== src/Net/ServerTests.antt =====
-- Runs of the server, the event loop and addresses on small inputs.
use ka_im.Prelude.{
  ascends, ℕ, ◌≡◌, ◌≢◌, ◌+◌, refl, true, false, List, [], ◌∷◌, none, some, Bytes, bytes, arith,
}
use ka_im.Prelude.Int.{pos, negsuc, ◌+ℤ◌, ◌-ℤ◌}
use ka_im.Prelude.Decimal.{digits}
use ka_im.Net.Poller.{wait_failed, ready}
use ka_im.Net.Poller
use ka_im.Net.Channel
use ka_im.Net.Connection.{took, connection_callback, close_callback}
use ka_im.Net.Connection
use ka_im.Net.Socket.{SockAddr, to_string}
use ka_im.Net.EventLoop.{EventLoop, Round, Store, loop, returned, still_runs}
use ka_im.Net.EventLoop
use ka_im.Net.EventLoop.Forever.{loop-RunsOn, fired_over, RunsOn}
use ka_im.Time.Queue.{TimerQueue, add_timer, do_timer, fire, insert_entry}
use ka_im.Time.Queue
use ka_im.Net.LoopPool
use ka_im.Net.Server.{TcpServer, Pollers, make, start, conn_name, stop}
use ka_im.Net.Server.Serving.{Arrival, run, told_of, accepted, start-run}
use ka_im.Net.Server.Refinement.{Op, opens, removes, replay, names_of, run-replay}
use ka_im.Net.Server.Refinement
use ka_im.Net.Server.Refinement.{made}
use ka_im.Net.Server.Calling.{configure, sets_message, sets_write_complete, run-configure}
use ka_im.Net.Callback.{install, no_callbacks, all_set}
use ka_im.Net.Connection.States.{Event, establishes, sends, forces_close}
use ka_im.Net.Connection.States
use ka_im.Net.Connection.Calling.{called}
use ka_im.Net.Server.Table.{table_of}
use ka_im.Net.Server.Names.{conn_name_distinct, conn_name_collides}
use ka_im.Net.Server.Stopping.{stop-start-stop}

-- 127.0.0.1 as it lies in memory, for every text.
abbrev local : Bytes → ℕ
local ip = 16777343

abbrev here : SockAddr
here = record { sin_family = 2; sin_port = 14427; s_addr = 16777343 }

-- The same, with another family.
abbrev there : SockAddr
there = record { sin_family = 0; sin_port = 14427; s_addr = 16777343 }

-- One connection is let in and one call of `accept` fails.
abbrev two_arrivals : List Arrival
two_arrivals =
    record { connfd = pos 7; peer = here; address = 70; answer = true; closing = true }
    ∷ record { connfd = negsuc 0; peer = here; address = 71; answer = true; closing = true }
    ∷ []

abbrev unknowing : Pollers
unknowing l = Poller.make (pos 4)

start-run_example :
    let (pollers', (s, asked)) =
      start 2
        (λ i. 100 + i)
        (pos 0)
        true
        unknowing
        (make 1 9 (pos 5) (pos 0) here (bytes "ka")).0 in
    (s' : TcpServer) × (run local two_arrivals pollers' s
      ≡ some (unknowing, s', told_of two_arrivals))
    × (s'.next_conn_id ≡ accepted two_arrivals + 1)
    × (s'.connections ≡ [])
start-run_example =
    start-run local 2 1 9 (λ i. 100 + i) (pos 5) (pos 0) (pos 0) true here (bytes "ka") unknowing
      two_arrivals (λ l fd. refl)

accepted_one : accepted two_arrivals ≡ 1
unfolding accepted
accepted_one = refl

abbrev server : TcpServer
server = (make 1 9 (pos 5) (pos 0) here (bytes "ka")).0

conn_name_distinct_example :
    conn_name (record server { next_conn_id = 41 })
    ≢ conn_name (record server { next_conn_id = 42 })
unfolding to_string make
conn_name_distinct_example =
    conn_name_distinct server here 41 42 refl (omega arith) (omega arith) (omega arith)
      (omega arith)

-- The address takes 22 bytes, and a number of seven digits fills the array.
conn_name_collides_example :
    conn_name (record server { next_conn_id = 10000000 })
    ≡ conn_name (record server { next_conn_id = 1000000 })
unfolding to_string make digits
conn_name_collides_example = conn_name_collides server 10000000 refl refl

-- A started server with a connection.
abbrev busy : TcpServer
busy = record server {
  started = true;
  pool = some LoopPool.make;
  connections = (bytes "a", some (Connection.make 3 9 (bytes "a") 8)) ∷ [];
}

abbrev stopped : TcpServer
stopped = record busy { started = false; connections = (bytes "a", none) ∷ [] }

stop-start-stop_example : stop (start 0 (λ i. i) (pos 0) true unknowing stopped).1.0 ≡ none
unfolding stop
stop-start-stop_example =
    stop-start-stop busy stopped [] 0 (λ i. i) (pos 0) true unknowing refl (cc) refl

-- A loop with a timer that is due in both rounds, and another thread that calls `quit`.
abbrev ticking : EventLoop
ticking = record (EventLoop.make 9 1 0 (pos 4) (pos 6) true) {
  timers = add_timer 50 7 (record { micro_seconds = pos 10 }) (pos 5) (pos 2) (Queue.empty 0);
}

abbrev two_rounds : List Round
two_rounds =
    record { now = record { micro_seconds = pos 10 }; waited = wait_failed 4; quits = true }
    ∷ record { now = record { micro_seconds = pos 20 }; waited = ready []; quits = false }
    ∷ []

abbrev nowhere : Store
nowhere a = Channel.make a 9 0

loop-RunsOn_example :
    RunsOn
      (loop two_rounds ticking nowhere)
      (ticking.iteration + 2)
      (fired_over two_rounds ticking.timers)
loop-RunsOn_example = loop-RunsOn two_rounds ticking nowhere

fired_twice : fired_over two_rounds ticking.timers ≡ (50 ∷ []) ∷ (50 ∷ []) ∷ []
unfolding fired_over add_timer do_timer ◌-ℤ◌ ◌+ℤ◌
fired_twice = refl

-- A connection is opened, which does not last, and one that the map never had is removed.
abbrev some_ops : List Op
some_ops = opens 70 true true 1 7 ∷ removes (Connection.make 71 1 (bytes "other") 8) ∷ []

run-replay_example :
    (ascends (Refinement.run some_ops unknowing server).1.connections ≡ true)
    × ((
      (Refinement.run some_ops unknowing server).0,
      (Refinement.run some_ops unknowing server).1.next_conn_id,
      table_of (Refinement.run some_ops unknowing server).1.connections,
    )
        ≡ replay some_ops server.callbacks
            (names_of server)
            unknowing
            server.next_conn_id
            (table_of server.connections))
unfolding make
run-replay_example = run-replay some_ops unknowing server refl

-- The owner sets a callback for completed writes; the connection writes three bytes and is closed.
abbrev watched_server : TcpServer
watched_server = configure (sets_message 3 ∷ sets_write_complete 4 ∷ []) server

abbrev events : List Event
events = establishes true true ∷ sends (took 3) (1 ∷ 2 ∷ 3 ∷ []) ∷ forces_close true ∷ []

run-configure_example :
    ((States.run
        (Poller.make (pos 4))
        (made 70 1 7 watched_server.callbacks (bytes "c"))
        events).1.callbacks
      ≡ install watched_server.callbacks no_callbacks)
    × (all_set (
          called
            (install watched_server.callbacks no_callbacks)
            (States.run
              (Poller.make (pos 4))
              (made 70 1 7 watched_server.callbacks (bytes "c"))
              events).2)
        ≡ true)
run-configure_example =
    run-configure 1 9 (pos 5) (pos 0) here (bytes "ka")
      (sets_message 3 ∷ sets_write_complete 4 ∷ []) 70 1 7 (bytes "c") (Poller.make (pos 4)) events
