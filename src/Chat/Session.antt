-- ===== src/Chat/Session.antt =====
-- ChatServer/ChatSession.h and ChatSession.cpp, with the packet head of MsgDefine/MsgDefine.h. The
-- buffer that `OnRead` gets is the connection's input buffer. `process` has no body and no return,
-- so its answer is a parameter, a function of the bytes that it is handed; so is the clock, a
-- function of the round of the loop. A null connection does not occur.
use ka_im.Prelude.{
  ℕ, zero, suc, ◌+◌, ◌*◌, Bool, false, ◌||◌, List, [], ◌∷◌, ◌++◌, Option, none, some, Bytes, take,
  drop, ltb, ◌==◌, if◌then◌else◌,
}
use ka_im.Prelude.Int.{ℤ, pos, pos_part, leb_ℤ, ltb_ℤ, to_int32}
use ka_im.Util.Zlib.{Zlib, uncompress_buf}
use ka_im.Net.Buffer.{readable_bytes, retrieve, peek}
use ka_im.Net.Poller.{KaPoller}
use ka_im.Net.Connection.{TcpConnection, Effect, force_close}

-- KaHead_t, packed: five words of four bytes.
abbrev pub head_size : ℕ
head_size = 20

-- MAX_PACKAGESIZE
abbrev pub max_package_size : ℕ
max_package_size = 10 * 1024 * 1024

pub record KaHead : Type 0 where
  pub flag : ℕ
  pub origin_size : ℤ
  pub compress_size : ℤ
  pub main_cmd : ℕ
  pub seq : ℕ

-- A word in the byte order of the host, x86.
abbrev pub word : Bytes → ℕ
word [] = 0
word (b ∷ bs) = b + 256 * word bs

-- The `memcpy` into the head.
unfoldable pub read_head : Bytes → KaHead
read_head bs = record {
  flag = word (take 4 bs);
  origin_size = to_int32 (word (take 4 (drop 4 bs)));
  compress_size = to_int32 (word (take 4 (drop 8 bs)));
  main_cmd = word (take 4 (drop 12 bs));
  seq = word (take 4 (drop 16 bs));
}

-- COMPRESSED
abbrev pub compressed_flag : ℕ
compressed_flag = 1

abbrev pub is_bad_size : ℤ → Bool
is_bad_size n = leb_ℤ n (pos 0) || ltb_ℤ (pos max_package_size) n

pub record ChatSession : Type 0 where
  pub id : ℕ
  pub user_id : ℕ
  pub seq : ℕ
  pub is_login : Bool
  pub last_package_time : ℕ

-- The constructor; `now` is `time(NULL)`.
abbrev pub make : ℕ → ℕ → ChatSession
make session_id now = record {
  id = session_id;
  user_id = 0;
  seq = 0;
  is_login = false;
  last_package_time = now;
}

-- What a call works on, and what it has done: the callbacks of the connection, and the packets that
-- went to `process`.
pub record State : Type 0 where
  pub session : ChatSession
  pub poller : KaPoller
  pub conn : TcpConnection
  pub effects : List Effect
  pub processed : List Bytes

-- The end of a round: the function returns, or the loop goes on.
pub data Turn : Type 0 where
  returns again : State → Turn

-- `conn->forceClose()`, with what `::epoll_ctl` would answer to it.
unfoldable pub close : Bool → State → State
close answer s =
    let (p, c, es) = force_close answer s.poller s.conn in
    record s { poller = p; conn = c; effects = s.effects ++ es }

-- `pBuffer->retrieve(n)`
abbrev pub retrieved : ℕ → State → State
retrieved n s =
    let rest = (retrieve s.conn.input_buffer n).1 in
    record s { conn = record s.conn { input_buffer = rest } }

-- Taking head and body from the buffer: the state, and the bytes of the body.
unfoldable pub take_packet : ℕ → State → State × Bytes
take_packet size s =
    let s1 = retrieved head_size s in (retrieved size s1, peek s1.conn.input_buffer size)

module _ (z : Zlib) (process : Bytes → Bool) (answer : Bool) where
  -- `if(!process(…)) { conn->forceClose(); return; } m_lastPackageTime = time(NULL);`
  unfoldable pub handle_packet : ℕ → Bytes → State → Turn
  unfolding close
  handle_packet now packet s =
      let s' = record s { processed = s.processed ++ packet ∷ [] } in
      if process packet
      then again (record s' { session = record s.session { last_package_time = now } })
      else returns (close answer s')

  unfoldable pub compressed_packet : ℕ → KaHead → State → Turn
  unfolding handle_packet
  compressed_packet now head s =
      if is_bad_size head.compress_size || is_bad_size head.origin_size
      then returns (close answer s)
      else if ltb (readable_bytes s.conn.input_buffer) (pos_part head.compress_size + head_size)
      then returns s
      else (let (s', body) = take_packet (pos_part head.compress_size) s in
          let (done, dest) = uncompress_buf z body [] (pos_part head.origin_size) in
          if done then handle_packet now dest s' else returns (close answer s'))

  unfoldable pub plain_packet : ℕ → KaHead → State → Turn
  unfolding handle_packet
  plain_packet now head s =
      if is_bad_size head.origin_size
      then returns (close answer s)
      else if ltb (readable_bytes s.conn.input_buffer) (pos_part head.origin_size + head_size)
      then returns s
      else (let (s', body) = take_packet (pos_part head.origin_size) s in handle_packet now body s')

  -- One round of the loop of `OnRead`.
  unfoldable pub turn : ℕ → State → Turn
  unfolding compressed_packet plain_packet
  turn now s =
      if ltb (readable_bytes s.conn.input_buffer) head_size
      then returns s
      else (let head = read_head (peek s.conn.input_buffer head_size) in
          if head.flag == compressed_flag
          then compressed_packet now head s
          else plain_packet now head s)

  -- `OnRead`, with fuel for its rounds; none if the fuel runs out.
  unfoldable pub on_read : ℕ → ℕ → (ℕ → ℕ) → State → Option State
  on_read zero round clock s = none
  on_read (suc fuel) round clock s = elim (turn (clock round) s) [
    | returns s' ↦ some s'
    | again s' ↦ on_read fuel (round + 1) clock s'
  ]
