-- ===== src/Net/Acceptor.antt =====
-- `KaAcceptor` of Net/KaAcceptor.h and Net/KaAcceptor.cpp. What it prints is left out.
use ka_im.Prelude.{ℕ, Bool, true, false, List, ◌++◌, Bytes, if◌then◌else◌}
use ka_im.Prelude.Int.{ℤ, pos, negsuc, to_unsigned}
use ka_im.Net.Channel.{KaChannel, set_read_callback}
use ka_im.Net.Channel
use ka_im.Net.Poller.{KaPoller, enable_reading, disable_all}
use ka_im.Net.Socket.{
  SockAddr, SysCall, KaSocket, Done, set_reuse_port, set_reuse_addr, bind_addr, accept_on,
  addr_default, close,
}
use ka_im.Net.Socket

-- SOMAXCONN.
abbrev pub somaxconn : ℕ
somaxconn = 4096

-- `calls_back` says whether the callback for new connections is set.
pub record KaAcceptor : Type 0 where
  pub loop : ℕ
  pub accept_socket : KaSocket
  pub accept_channel : KaChannel
  pub calls_back : Bool
  pub listening : Bool

-- The constructor: the address of the channel, that of the loop, and what `::socket` answers. It
-- looks at no answer of the other calls.
unfoldable pub make : ℕ → ℕ → ℤ → ℤ → SockAddr → Done KaAcceptor
make channel loop fd answer listen_addr =
    let (s, made) = Socket.make fd in
    (
      record {
        loop = loop;
        accept_socket = s;
        accept_channel = set_read_callback true (Channel.make channel loop (to_unsigned 32 s.fd));
        calls_back = false;
        listening = false;
      },
      made
          ++ ((set_reuse_port answer true s).1
              ++ ((set_reuse_addr answer true s).1 ++ (bind_addr answer listen_addr s).1)),
    )

-- The destructor, then those of its channel, which does nothing more, and of its socket.
unfoldable pub destroy : Bool → KaPoller → KaAcceptor → KaPoller × List SysCall
destroy answer p a =
    let (_, p', c) = disable_all answer p a.accept_channel in (p', close a.accept_socket.fd)

-- `setNewConnectionCallback`
unfoldable pub set_new_connection_callback : KaAcceptor → KaAcceptor
set_new_connection_callback a = record a { calls_back = true }

-- `listen`, with what `::listen` and `::epoll_ctl` answer.
unfoldable pub listen : ℤ → Bool → KaPoller → KaAcceptor → KaPoller × Done KaAcceptor
listen answer ctl p a =
    let (_, p', c) = enable_reading ctl p a.accept_channel in
    (
      p',
      (
        record a { listening = true; accept_channel = c },
        (Socket.listen answer somaxconn a.accept_socket).1,
      ),
    )

-- What is done with an accepted connection: the callback is called with the descriptor and the peer.
pub data Accepted : Type 0 where
  calls : ℕ → SockAddr → Accepted
  closed failed : Accepted

-- `handleRead`, with what `::accept` answers and writes.
unfoldable pub handle_read : (Bytes → ℕ) → ℤ → SockAddr → KaAcceptor → Done Accepted
unfolding addr_default
handle_read inet_addr answer peer a =
    let ((connfd, from), made) = accept_on answer peer (addr_default inet_addr) a.accept_socket in
    elim connfd [
      | pos n ↦ if a.calls_back then (calls n from, made) else (closed, made ++ close (pos n))
      | negsuc n ↦ (failed, made)
    ]
