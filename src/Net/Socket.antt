-- ===== src/Net/Socket.antt =====
-- Net/KaSocket.h and Net/KaSocket.cpp. A function returns its value and the system calls that it made,
-- in order; what the system answers is an argument, and so is `inet_addr`. A descriptor is an `int`,
-- which may be -1. What the functions print is left out, and so is the length that goes with an
-- address. A `short` is its 16 bits.
pub mod Printing
use Prim.Native.Nat.{bit_or}
use ka_im.Prelude.{
  ℕ, ◌+◌, ◌*◌, ◌/◌, ◌%◌, ◌^◌, ◌-◌, Bool, List, [], ◌∷◌, ◌++◌, Option, none, some, Bytes, bytes,
  take, if◌then◌else◌, ◌==◌,
}
use ka_im.Prelude.Int.{ℤ, pos, negsuc, to_int32, to_unsigned, ◌==ℤ◌}
use ka_im.Prelude.Decimal.{show_int, digits}

-- `struct sockaddr_in`, its port and address as they lie in memory.
pub record SockAddr : Type 0 where
  pub sin_family : ℕ
  pub sin_port : ℕ
  pub s_addr : ℕ

-- AF_INET, PORT and IPADDR.
abbrev pub af_inet : ℕ
af_inet = 2

abbrev pub default_port : ℕ
default_port = 88888

abbrev pub default_ip : Bytes
default_ip = bytes "127.0.0.1"

-- `htons` on a little-endian machine.
abbrev pub htons : ℕ → ℕ
htons n = n % 256 * 256 + n / 256 % 256

-- The constructors of `KaNetAddr`, which is its `sockaddr_in`.
unfoldable pub addr_default : (Bytes → ℕ) → SockAddr
addr_default inet_addr = record {
  sin_family = af_inet;
  sin_port = htons (default_port % 2 ^ 16);
  s_addr = inet_addr default_ip;
}

unfoldable pub addr_of : (Bytes → ℕ) → Bytes → ℕ → SockAddr
addr_of inet_addr ip port = record {
  sin_family = af_inet;
  sin_port = htons port;
  s_addr = inet_addr ip;
}

-- What `%d` makes of the two numbers.
abbrev pub host_port_text : ℕ → ℕ → Bytes
host_port_text addr port =
    bytes "IP:" ++ (show_int (to_int32 addr) ++ (bytes ",Port=" ++ digits port))

-- `ToString`, into an array of 512 bytes.
unfoldable pub to_string : SockAddr → Bytes
to_string a = take 511 (host_port_text a.s_addr a.sin_port)

pub data SockOpt : Type 0 where
  tcp_nodelay so_reuseaddr so_reuseport so_keepalive : SockOpt

pub data SysCall : Type 0 where
  makes_socket : SysCall
  binds : ℤ → SockAddr → SysCall
  listens : ℤ → ℕ → SysCall
  connects : ℤ → SockAddr → SysCall
  accepts : ℤ → SysCall
  gets_flags : ℤ → SysCall
  sets_flags : ℤ → ℤ → SysCall
  sets_option : ℤ → SockOpt → ℕ → SysCall
  gets_error : ℤ → SysCall
  closes : ℤ → SysCall
  shuts_write : ℤ → SysCall
  gets_sock_name : ℤ → SysCall
  gets_peer_name : ℤ → SysCall

abbrev pub Done {ℓ} : Type ℓ → Type ℓ
Done A = A × List SysCall

-- The free functions.
abbrev pub socket : ℤ → Done ℤ
socket answer = (answer, makes_socket ∷ [])

abbrev pub bind : ℤ → SockAddr → ℤ → Done ℤ
bind answer a fd = (answer, binds fd a ∷ [])

abbrev pub listen_on : ℤ → ℤ → ℕ → Done ℤ
listen_on answer fd backlog = (answer, listens fd backlog ∷ [])

abbrev pub connect : ℤ → ℤ → SockAddr → Done ℤ
connect answer fd a = (answer, connects fd a ∷ [])

-- With the address of the peer, which the call writes when it succeeds.
abbrev pub accept : ℤ → SockAddr → ℤ → SockAddr → Done (ℤ × SockAddr)
accept answer peer fd a = ((answer, elim answer [ pos n ↦ peer | negsuc n ↦ a ]), accepts fd ∷ [])

-- O_NONBLOCK, and `flags |= O_NONBLOCK` on an `int`.
abbrev pub o_nonblock : ℕ
o_nonblock = 2048

abbrev pub with_nonblock : ℤ → ℤ
with_nonblock flags = to_int32 (bit_or (to_unsigned 32 flags) o_nonblock)

unfoldable pub set_socket_no_block : ℤ → ℤ → ℤ → Done ℤ
set_socket_no_block flags answer fd =
    (answer, gets_flags fd ∷ sets_flags fd (with_nonblock flags) ∷ [])

-- `SocketNoBlock`
unfoldable pub socket_no_block : ℤ → ℤ → ℤ → Done ℤ
unfolding set_socket_no_block
socket_no_block fd flags answer = (fd, makes_socket ∷ (set_socket_no_block flags answer fd).1)

-- `setSocketNoDelay`, `setSocketReuseAddr`, `setSocketReusePort` and `setSocketKeeplive`.
abbrev pub set_option : SockOpt → ℤ → ℤ → Bool → Done ℤ
set_option option answer fd on = (answer, sets_option fd option (if on then 1 else 0) ∷ [])

-- What `getsockopt` answers, the `errno` of a failure, and the pending error that it writes.
unfoldable pub get_socket_error : ℤ → ℤ → ℤ → ℤ → Done ℤ
get_socket_error answer errno pending fd =
    (if answer ==ℤ pos 0 then pending else errno, gets_error fd ∷ [])

abbrev pub close : ℤ → List SysCall
close fd = closes fd ∷ []

abbrev pub shutdown_write : ℤ → List SysCall
shutdown_write fd = shuts_write fd ∷ []

abbrev pub no_addr : SockAddr
no_addr = record { sin_family = 0; sin_port = 0; s_addr = 0 }

-- `getLocalAddr` and `getPeerAddr`, all zero where the call fails.
unfoldable pub get_local_addr : Option SockAddr → ℤ → Done SockAddr
get_local_addr answer fd = (elim answer [ none ↦ no_addr | some a ↦ a ], gets_sock_name fd ∷ [])

unfoldable pub get_peer_addr : Option SockAddr → ℤ → Done SockAddr
get_peer_addr answer fd = (elim answer [ none ↦ no_addr | some a ↦ a ], gets_peer_name fd ∷ [])

pub record KaSocket : Type 0 where
  pub fd : ℤ

-- The constructor and the destructor, which closes whatever `socket` gave.
abbrev pub make : ℤ → Done KaSocket
make answer = (record { fd = answer }, makes_socket ∷ [])

abbrev pub destroy : KaSocket → List SysCall
destroy s = close s.fd

abbrev pub bind_addr : ℤ → SockAddr → KaSocket → Done ℤ
bind_addr answer a s = bind answer a s.fd

-- `KaSocket::listen` drops the answer.
abbrev pub listen : ℤ → ℕ → KaSocket → Done ℤ
listen answer backlog s = (pos 0, (listen_on answer s.fd backlog).1)

abbrev pub connet : ℤ → SockAddr → KaSocket → Done ℤ
connet answer a s = connect answer s.fd a

abbrev pub accept_on : ℤ → SockAddr → SockAddr → KaSocket → Done (ℤ × SockAddr)
accept_on answer peer a s = accept answer peer s.fd a

-- `setNonBlock`, which does not look at its argument.
unfoldable pub set_non_block : ℤ → ℤ → Bool → KaSocket → Done ℤ
unfolding set_socket_no_block
set_non_block flags answer off s = set_socket_no_block flags answer s.fd

abbrev pub set_reuse_addr : ℤ → Bool → KaSocket → Done ℤ
set_reuse_addr answer off s = set_option so_reuseaddr answer s.fd off

abbrev pub set_reuse_port : ℤ → Bool → KaSocket → Done ℤ
set_reuse_port answer off s = set_option so_reuseport answer s.fd off

abbrev pub set_no_delay : ℤ → Bool → KaSocket → Done ℤ
set_no_delay answer off s = set_option tcp_nodelay answer s.fd off

abbrev pub set_keep_alive : ℤ → Bool → KaSocket → Done ℤ
set_keep_alive answer off s = set_option so_keepalive answer s.fd off

unfoldable pub get_error : ℤ → ℤ → ℤ → KaSocket → Done ℤ
unfolding get_socket_error
get_error answer errno pending s = get_socket_error answer errno pending s.fd

abbrev pub shutdown_write_on : KaSocket → List SysCall
shutdown_write_on s = shutdown_write s.fd
