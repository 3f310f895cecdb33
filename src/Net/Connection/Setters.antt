-- ===== src/Net/Connection/Setters.antt =====
-- The setters and getters of Net/TcpConnection.h and TcpConnection.cpp, and `TcpSession` of
-- Net/TcpSessin.h and TcpSessin.cpp.
use ka_im.Prelude.{
  ℕ, ◌≡◌, refl, Bool, true, Option, none, some, Bytes, bytes, bytes_eq, if◌then◌else◌,
}
use ka_im.Prelude.Int.{ℤ}
use ka_im.Net.Socket.{KaSocket, Done, set_no_delay}
use ka_im.Net.Callback.{Callback}
use ka_im.Net.Connection.{
  TcpConnection, State, disconnected, connecting, connected, disconnecting, is_connected,
}

unfoldable pub set_connection_callback : Callback → TcpConnection → TcpConnection
set_connection_callback cb c = record c { callbacks = record c.callbacks { connection = cb } }

unfoldable pub set_message_callback : Callback → TcpConnection → TcpConnection
set_message_callback cb c = record c { callbacks = record c.callbacks { message = cb } }

unfoldable pub set_write_complete_callback : Callback → TcpConnection → TcpConnection
set_write_complete_callback cb c = record c {
  callbacks = record c.callbacks { write_complete = cb };
}

unfoldable pub set_close_callback : Callback → TcpConnection → TcpConnection
set_close_callback cb c = record c { callbacks = record c.callbacks { close = cb } }

-- No code calls it.
unfoldable pub set_high_water_mark_callback : Callback → ℕ → TcpConnection → TcpConnection
set_high_water_mark_callback cb mark c = record c {
  callbacks = record c.callbacks { high_water_mark = cb };
  high_water_mark = mark;
}

-- `setState`
unfoldable pub set_state : State → TcpConnection → TcpConnection
set_state s c = record c { state = s }

-- `connected()`
unfoldable pub reports_connected : TcpConnection → Bool
reports_connected c = is_connected c.state

-- `setTcpNoDelay`, which switches the option on whatever it is asked.
unfoldable pub set_tcp_no_delay : ℤ → Bool → KaSocket → Done ℤ
set_tcp_no_delay answer on s = set_no_delay answer true s

unfoldable pub get_sate_to_string : State → Bytes
get_sate_to_string s = elim s [
  | disconnected ↦ bytes "DisConnected"
  | connecting ↦ bytes "Connecting"
  | connected ↦ bytes "Connected"
  | disconnecting ↦ bytes "Disconnection"
]

-- The state that a text names.
pub named_state : Bytes → State
named_state text =
    if bytes_eq text (bytes "Connecting")
    then connecting
    else (if bytes_eq text (bytes "Connected")
        then connected
        else (if bytes_eq text (bytes "DisConnected") then disconnected else disconnecting))

-- `GetSateToString` names each state differently.
pub named_state-get_sate_to_string : (s : State) → named_state (get_sate_to_string s) ≡ s
unfolding named_state get_sate_to_string
named_state-get_sate_to_string disconnected = refl
named_state-get_sate_to_string connecting = refl
named_state-get_sate_to_string connected = refl
named_state-get_sate_to_string disconnecting = refl

-- `m_tmpConn`, by the address of the connection that it points to.
pub record TcpSession : Type 0 where
  pub tmp_conn : ℕ

-- `GetConnectionPtr`: whether the connection lives when `expired` looks, and still when `lock` does.
unfoldable pub get_connection_ptr : Bool → Bool → TcpSession → Option ℕ
get_connection_ptr at_expired at_lock s =
    if at_expired then (if at_lock then some s.tmp_conn else none) else none
