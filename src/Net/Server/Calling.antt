-- ===== src/Net/Server/Calling.antt =====
-- Which functions the connections of a server call.
use ka_im.Prelude.{ℕ, ◌≡◌, refl, true, List, [], ◌∷◌, Bytes}
use ka_im.Prelude.Int.{ℤ}
use ka_im.Net.Callback.{ServerCallbacks, owners, is_set, all_set, install, no_callbacks}
use ka_im.Net.Socket.{SockAddr}
use ka_im.Net.Poller.{KaPoller}
use ka_im.Net.Connection
use ka_im.Net.Connection.States.{Event, run}
use ka_im.Net.Connection.Calling.{called, run_set}
use ka_im.Net.Server.{
  TcpServer, make, set_thread_init_callback, set_connection_callback, set_message_callback,
  set_write_complete_callback,
}
use ka_im.Net.Server.Refinement.{made}

-- The setters, each with a function of the owner's, by its number.
pub data Setting : Type 0 where
  sets_thread_init sets_connection sets_message sets_write_complete : ℕ → Setting

unfoldable pub configure : List Setting → TcpServer → TcpServer
unfolding set_thread_init_callback set_connection_callback set_message_callback
    set_write_complete_callback
configure [] s = s
configure (sets_thread_init n ∷ rest) s = configure rest (set_thread_init_callback (owners n) s)
configure (sets_connection n ∷ rest) s = configure rest (set_connection_callback (owners n) s)
configure (sets_message n ∷ rest) s = configure rest (set_message_callback (owners n) s)
configure (sets_write_complete n ∷ rest) s =
    configure rest (set_write_complete_callback (owners n) s)

-- What a server calls without asking.
abbrev Keeps : ServerCallbacks → Type 0
Keeps k = (is_set k.connection ≡ true) × (is_set k.message ≡ true)

configure-Keeps :
    (settings : List Setting) (s : TcpServer)
    → Keeps s.callbacks
    → Keeps (configure settings s).callbacks
unfolding configure
configure-Keeps [] s k = k
configure-Keeps (sets_thread_init n ∷ rest) s k =
    configure-Keeps rest (set_thread_init_callback (owners n) s) k
configure-Keeps (sets_connection n ∷ rest) s k =
    configure-Keeps rest (set_connection_callback (owners n) s) (refl, k.1)
configure-Keeps (sets_message n ∷ rest) s k =
    configure-Keeps rest (set_message_callback (owners n) s) (k.0, refl)
configure-Keeps (sets_write_complete n ∷ rest) s k =
    configure-Keeps rest (set_write_complete_callback (owners n) s) k

-- On a server that was made, and on which its owner has set any functions in any order, or none: a
-- connection as `newConnection` sets it up calls no empty function, whatever is called on it and
-- whatever the kernel answers, and its callbacks stay those that the server had when it was made.
pub run-configure :
    (channel loop : ℕ) (fd bound : ℤ) (addr : SockAddr) (name : Bytes) (settings : List Setting)
    (address conn_loop sockfd : ℕ) (conn_name : Bytes) (p : KaPoller) (events : List Event)
    → let s = configure settings (make channel loop fd bound addr name).0 in
      let c = made address conn_loop sockfd s.callbacks conn_name in
      ((run p c events).1.callbacks ≡ install s.callbacks no_callbacks)
      × (all_set (called (install s.callbacks no_callbacks) (run p c events).2) ≡ true)
unfolding make Connection.make
run-configure channel loop fd bound addr name settings address conn_loop sockfd conn_name p events =
    let s = configure settings (make channel loop fd bound addr name).0 in
    let k = configure-Keeps settings (make channel loop fd bound addr name).0 (refl, refl) in
    run_set p (made address conn_loop sockfd s.callbacks conn_name) events
      (record { connection = k.0; message = k.1; close = refl })
