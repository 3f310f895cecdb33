-- ===== src/Net/Connection/Opening.antt =====
-- Opening a connection: the channel, the poller and the connection together.
use ka_im.Prelude.{ℕ, ◌≡◌, refl, Bool, true, List, [], ◌∷◌, none, arith}
use ka_im.Net.Channel.{KaChannel, Index, added, new, deleted, read_event, set_bits, tie}
use ka_im.Net.Poller.{KaPoller, enable_reading}
use ka_im.Net.Poller.Fresh.{enable_reading_fresh, disable_all_fresh}
use ka_im.Net.Poller.Sync.{IsSynced, SyncedAt, channel_update-IsSynced}
use ka_im.Net.Connection.{
  TcpConnection, connecting, connected, disconnected, connection_callback, close_callback,
  connect_established, handle_close, make,
}

-- So does a connecting connection whose channel is as it was constructed.
pub connect_established_unknown :
    (answer closing : Bool) (p : KaPoller) (c : TcpConnection)
    → c.state ≡ connecting
    → c.channel.index ≡ added
    → p.channels c.channel.fd ≡ none
    → let (p', c', es) = connect_established answer closing p c in
      (p' ≡ p)
      × (c'.state ≡ disconnected)
      × (es ≡ connection_callback ∷ close_callback ∷ [])
      × (c'.name ≡ c.name)
unfolding connect_established handle_close
connect_established_unknown answer closing p c s i h =
    let ch = tie c.channel in
    let opened = record ch { events = set_bits ch.events read_event } in
    ground (arith, enable_reading_fresh answer p ch i h, disable_all_fresh closing p opened i h)

-- A connection as its constructor leaves it is closed by `connectEatablished`, whatever
-- `::epoll_ctl` would answer, on every poller that does not know its fd: the poller stays as it is,
-- and both callbacks are called.
pub connect_established_fresh :
    (answer closing : Bool) (p : KaPoller) (address loop sockfd : ℕ) (name : List ℕ)
    → p.channels sockfd ≡ none
    → let (p', c', es) = connect_established answer closing p (make address loop name sockfd) in
      (p' ≡ p) × (c'.state ≡ disconnected) × (es ≡ connection_callback ∷ close_callback ∷ [])
unfolding make
connect_established_fresh answer closing p address loop sockfd name h =
    let known =
      connect_established_unknown answer closing p (make address loop name sockfd) refl refl h in
    (known.0, known.1, known.2)

tie_synced : (i : Index) (p : KaPoller) (c : KaChannel) → SyncedAt i p c → SyncedAt i p (tie c)
tie_synced new p c h = h
tie_synced added p c h = h
tie_synced deleted p c h = h

-- A connecting connection whose channel is in step with the map and the kernel is connected and
-- watched for reading, if `::epoll_ctl` succeeds, and the owner is told once.
pub connect_established-IsSynced :
    (closing : Bool) (p : KaPoller) (c : TcpConnection)
    → c.state ≡ connecting
    → IsSynced p c.channel
    → let (p', c', es) = connect_established true closing p c in
      (c'.state ≡ connected)
      × IsSynced p' c'.channel
      × (c'.channel.events ≡ set_bits c.channel.events read_event)
      × (es ≡ connection_callback ∷ [])
unfolding connect_established enable_reading
connect_established-IsSynced closing p c s h = ground (
  arith,
  channel_update-IsSynced p (tie c.channel) (set_bits c.channel.events read_event)
      (tie_synced c.channel.index p c.channel h),
)
