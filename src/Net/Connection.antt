-- ===== src/Net/Connection.antt =====
-- Net/TcpConnection.h and Net/TcpConnection.cpp. A handler takes the loop's poller and the
-- connection, and returns both with what it has done to the outside, in order: the callbacks that it
-- called, the bytes that it handed to `::write` and its calls of `::shutdown`. What the kernel answers is an argument of the handler.
pub mod States
pub mod Sending
pub mod Opening
pub mod Setters
pub mod Calling
use ka_im.Prelude.{
  ℕ, ◌-◌, ◌*◌, ◌≡◌, Bool, true, false, not, ◌&&◌, ◌||◌, List, [], ◌∷◌, ◌++◌, Option, none, some,
  ◌==◌, ltb, if◌then◌else◌, take, length,
}
use ka_im.Net.Buffer.{
  Buffer, ReadvResult, failed, got, read_fd, readable_bytes, retrieve, peek, init_size,
}
use ka_im.Net.Buffer
use ka_im.Net.Callback.{Callbacks, no_callbacks, is_set}
use ka_im.Net.Channel.{
  set_read_callback, set_write_callback, set_close_callback, set_error_callback, KaChannel,
  is_writing, tie,
}
use ka_im.Net.Channel
use ka_im.Net.Poller.{KaPoller, enable_reading, disable_writing, disable_all}

-- TcpConnection::StateE.
pub data State : Type 0 where
  disconnected connecting connected disconnecting : State

pub data Effect : Type 0 where
  connection_callback message_callback write_complete_callback close_callback : Effect
  wrote : List ℕ → Effect
  shut_down_write : Effect

pub record TcpConnection : Type 0 where
  pub name : List ℕ
  pub state : State
  pub channel : KaChannel
  pub high_water_mark : ℕ
  pub callbacks : Callbacks
  pub input_buffer : Buffer
  pub output_buffer : Buffer

abbrev pub Handled : Type 0
Handled = KaPoller × TcpConnection × List Effect

-- The constructor.
unfoldable pub make : ℕ → ℕ → List ℕ → ℕ → TcpConnection
make address loop name sockfd = record {
  name = name;
  state = connecting;
  channel = set_error_callback true (
      set_close_callback true
        (set_write_callback true (set_read_callback true (Channel.make address loop sockfd))));
  high_water_mark = 64 * 1024 * 1024;
  callbacks = no_callbacks;
  input_buffer = Buffer.new init_size;
  output_buffer = Buffer.new init_size;
}

abbrev pub is_connected : State → Bool
is_connected s = elim s [ connected ↦ true | _ ↦ false ]

abbrev pub is_disconnected : State → Bool
is_disconnected s = elim s [ disconnected ↦ true | _ ↦ false ]

abbrev pub is_connecting : State → Bool
is_connecting s = elim s [ connecting ↦ true | _ ↦ false ]

abbrev pub is_disconnecting : State → Bool
is_disconnecting s = elim s [ disconnecting ↦ true | _ ↦ false ]

unfoldable pub handle_close : Bool → KaPoller → TcpConnection → Handled
handle_close answer p c =
    if is_disconnected c.state
    then (p, c, [])
    else (let (_, p', ch) = disable_all answer p c.channel in
        (
          p',
          record c { state = disconnected; channel = ch },
          connection_callback ∷ close_callback ∷ [],
        ))

unfoldable pub handle_error : Bool → KaPoller → TcpConnection → Handled
unfolding handle_close
handle_error answer p c = handle_close answer p c

-- What `readFd` returned decides: bytes go to the message callback, none closes, a failure is an
-- error.
unfoldable pub handle_read : Bool → ReadvResult → KaPoller → TcpConnection → Handled
unfolding handle_close handle_error
handle_read answer (failed errno) p c = handle_error answer p c
handle_read answer (got []) p c = handle_close answer p c
handle_read answer (got (x ∷ xs)) p c = (
  p,
  record c { input_buffer = (read_fd c.input_buffer (got (x ∷ xs))).1 },
  message_callback ∷ [],
)

unfoldable pub shutdown : KaPoller → TcpConnection → Handled
shutdown p c =
    if is_connected c.state
    then (
      p,
      record c { state = disconnecting },
      if is_writing c.channel then shut_down_write ∷ [] else [],
    )
    else (p, c, [])

unfoldable pub force_close : Bool → KaPoller → TcpConnection → Handled
unfolding handle_close
force_close answer p c =
    if is_connected c.state || is_disconnecting c.state
    then handle_close answer p (record c { state = disconnecting })
    else (p, c, [])

-- What `::write` answers: the count of bytes that it took, EWOULDBLOCK, or another failure.
pub data WriteResult : Type 0 where
  took : ℕ → WriteResult
  would_block : WriteResult
  write_failed : WriteResult

-- `send(const void*, int)`. The rest of the function after the write tests `remaining` and returns
-- in any case, so nothing more happens to the connection.
unfoldable pub send : WriteResult → List ℕ → KaPoller → TcpConnection → Handled
send answer bytes p c =
    if is_connected c.state
    then (if not (is_writing c.channel) && (readable_bytes c.output_buffer == 0)
        then elim answer [
          | took n ↦ (
            p,
            c,
            wrote (take n bytes)
                ∷ (if (length bytes - n == 0) && is_set c.callbacks.write_complete
                    then write_complete_callback ∷ []
                    else []),
          )
          | would_block ↦ (p, c, [])
          | write_failed ↦ (p, c, [])
        ]
        else (p, c, []))
    else (p, c, [])

-- `send(const std::string&)` and `send(Buffer*)` have empty bodies.
unfoldable pub send_string : List ℕ → KaPoller → TcpConnection → Handled
send_string message p c = (p, c, [])

unfoldable pub send_buffer : Buffer → KaPoller → TcpConnection → Handled
send_buffer message p c = (p, c, [])

-- The end of `handleWrite`, once the output buffer is empty.
unfoldable pub drained : Bool → KaPoller → TcpConnection → Handled
unfolding shutdown
drained answer p c =
    let (_, p', ch) = disable_writing answer p c.channel in
    let c' = record c { channel = ch } in
    let called : List Effect =
      if is_set c.callbacks.write_complete then write_complete_callback ∷ [] else [] in
    if is_disconnected c.state
    then (let (q, d, es) = shutdown p' c' in (q, d, called ++ es))
    else (p', c', called)

-- `handleWrite`, with what `::write` answers to the readable bytes of the output buffer.
unfoldable pub handle_write : Bool → WriteResult → KaPoller → TcpConnection → Handled
handle_write answer result p c =
    if is_writing c.channel
    then elim result [
      | took n ↦
          if ltb 0 n
          then (let out = (retrieve c.output_buffer n).1 in
              let c' = record c { output_buffer = out } in
              let sent = wrote (take n (peek c.output_buffer (readable_bytes c.output_buffer))) in
              if readable_bytes out == 0
              then (let (q, d, es) = drained answer p c' in (q, d, sent ∷ es))
              else (p, c', sent ∷ []))
          else handle_close answer p c
      | would_block ↦ handle_close answer p c
      | write_failed ↦ handle_close answer p c
    ]
    else (p, c, [])

-- `connectEatablished`. The two answers are for `enableReading` and for the update that closing makes.
unfoldable pub connect_established : Bool → Bool → KaPoller → TcpConnection → Handled
unfolding handle_close
connect_established answer closing p c =
    if not (is_connecting c.state)
    then (p, c, [])
    else (let (r, p', ch) = enable_reading answer p (tie c.channel) in
        let c' = record c { state = connected; channel = ch } in
        if not r then handle_close closing p' c' else (p', c', connection_callback ∷ []))

-- `connectDestroyed` has an empty body.
abbrev pub connect_destroyed : KaPoller → TcpConnection → Handled
connect_destroyed p c = (p, c, [])
