-- ===== src/Net/Poller.antt =====
-- Net/KaPoller.h and Net/KaPoller.cpp, the methods of Net/KaChannel.cpp that end in the poller, and
-- `EventLoop::updateChannel`, `removeChannel` and `hasChannel` between the two. `channels` is
-- `m_channels`, from an fd to the address of a channel; `calls` are the calls of `::epoll_ctl`, the
-- newest first. What `::epoll_ctl` answers is an argument of each method, true for success.
pub mod Fresh
pub mod Sync
pub mod Active
use Prim.Native.Nat.{bit_and, bit_or, bit_xor}
use ka_im.Prelude.{
  ℕ, ◌*◌, ◌≡◌, Bool, true, false, not, ◌&&◌, ◌||◌, List, [], ◌∷◌, ◌++◌, Option, none, some, ◌==◌,
  if◌then◌else◌, insert, erase, holds, has_key, length,
}
use ka_im.Prelude.Int.{ℤ}
use ka_im.Net.Socket.{SysCall, closes}
use ka_im.Net.Channel.{
  KaChannel, Index, new, added, deleted, is_non_event, set_bits, clear_bits, read_event,
  write_event, none_event, set_revent,
}

pub data CtlOp : Type 0 where
  ctl_add ctl_mod ctl_del : CtlOp

pub record CtlCall : Type 0 where
  pub op : CtlOp
  pub fd : ℕ
  pub events : ℕ
  pub ptr : ℕ

-- `epollfd` is what `::epoll_create` answered, and `capacity` is `m_events.size()`.
pub record KaPoller : Type 0 where
  pub epollfd : ℤ
  pub channels : ℕ → Option ℕ
  pub capacity : ℕ
  pub calls : List CtlCall

-- The constructor, with `InitEventList`.
abbrev pub make : ℤ → KaPoller
make epollfd = record { epollfd = epollfd; channels = λ _. none; capacity = 16; calls = [] }

-- The destructor.
abbrev pub destroy : KaPoller → List SysCall
destroy p = closes p.epollfd ∷ []

unfoldable pub has_channel : KaPoller → KaChannel → Bool
has_channel p c = holds p.channels c.fd c.address

abbrev pub ctl_call : CtlOp → KaChannel → CtlCall
ctl_call op c = record { op = op; fd = c.fd; events = c.events; ptr = c.address }

unfoldable pub update : Bool → CtlOp → KaPoller → KaChannel → Bool × KaPoller
update answer op p c = (answer, record p { calls = ctl_call op c ∷ p.calls })

-- The common end of the two branches that add: the index is set before the call is made.
abbrev add : Bool → KaPoller → KaChannel → Bool × KaPoller × KaChannel
add answer p c =
    let c' = record c { index = added } in let (r, p') = update answer ctl_add p c' in (r, p', c')

update_new : Bool → KaPoller → KaChannel → Bool × KaPoller × KaChannel
unfolding update
update_new answer p c =
    if has_key p.channels c.fd
    then (false, p, c)
    else add answer (record p { channels = insert p.channels c.fd c.address }) c

update_deleted : Bool → KaPoller → KaChannel → Bool × KaPoller × KaChannel
unfolding update
update_deleted answer p c =
    if not (has_key p.channels c.fd)
    then (false, p, c)
    else if not (holds p.channels c.fd c.address)
    then (false, p, c)
    else add answer p c

update_added : Bool → KaPoller → KaChannel → Bool × KaPoller × KaChannel
unfolding update
update_added answer p c =
    if not (has_key p.channels c.fd) || not (holds p.channels c.fd c.address)
    then (false, p, c)
    else if is_non_event c
    then (let (r, p') = update answer ctl_del p c in
        if r then (true, p', record c { index = deleted }) else (false, p', c))
    else (let (r, p') = update answer ctl_mod p c in (r, p', c))

-- `KaPoller::updateChannel`.
unfoldable pub update_channel : Bool → KaPoller → KaChannel → Bool × KaPoller × KaChannel
unfolding update_new update_deleted update_added
update_channel answer p c = elim c.index [
  | new ↦ update_new answer p c
  | deleted ↦ update_deleted answer p c
  | added ↦ update_added answer p c
]

-- `KaPoller::removeChannel`, behind its guards; `erase` finds the fd there.
abbrev remove_known : Bool → KaPoller → KaChannel → KaPoller × KaChannel
remove_known answer p c =
    let q = record p { channels = erase p.channels c.fd } in
    elim c.index [
      | added ↦ ((update answer ctl_del q c).1, record c { index = new })
      | deleted ↦ (q, record c { index = new })
      | new ↦ (p, c)
    ]

unfoldable pub remove_channel : Bool → KaPoller → KaChannel → KaPoller × KaChannel
unfolding update
remove_channel answer p c =
    if not (has_key p.channels c.fd)
      || not (holds p.channels c.fd c.address)
      || not (is_non_event c)
    then (p, c)
    else remove_known answer p c

-- EventLoop::updateChannel, removeChannel and hasChannel; `this` is the loop's address.
unfoldable pub loop_update_channel : ℕ → Bool → KaPoller → KaChannel → Bool × KaPoller × KaChannel
unfolding update_channel
loop_update_channel this answer p c =
    if c.loop == this then update_channel answer p c else (false, p, c)

unfoldable pub loop_remove_channel : ℕ → Bool → KaPoller → KaChannel → KaPoller × KaChannel
unfolding remove_channel
loop_remove_channel this answer p c = if c.loop == this then remove_channel answer p c else (p, c)

unfoldable pub loop_has_channel : ℕ → KaPoller → KaChannel → Bool
unfolding has_channel
loop_has_channel this p c = if c.loop == this then has_channel p c else false

-- KaChannel::update, which calls the loop that the channel belongs to.
unfoldable pub channel_update : Bool → KaPoller → KaChannel → Bool × KaPoller × KaChannel
unfolding loop_update_channel
channel_update answer p c = loop_update_channel c.loop answer p c

unfoldable pub enable_reading : Bool → KaPoller → KaChannel → Bool × KaPoller × KaChannel
unfolding channel_update
enable_reading answer p c =
    channel_update answer p (record c { events = set_bits c.events read_event })

unfoldable pub disable_reading : Bool → KaPoller → KaChannel → Bool × KaPoller × KaChannel
unfolding channel_update
disable_reading answer p c =
    channel_update answer p (record c { events = clear_bits c.events read_event })

unfoldable pub enable_writing : Bool → KaPoller → KaChannel → Bool × KaPoller × KaChannel
unfolding channel_update
enable_writing answer p c =
    channel_update answer p (record c { events = set_bits c.events write_event })

unfoldable pub disable_writing : Bool → KaPoller → KaChannel → Bool × KaPoller × KaChannel
unfolding channel_update
disable_writing answer p c =
    channel_update answer p (record c { events = clear_bits c.events write_event })

unfoldable pub disable_all : Bool → KaPoller → KaChannel → Bool × KaPoller × KaChannel
unfolding channel_update
disable_all answer p c = channel_update answer p (record c { events = none_event })

-- What `::epoll_wait` answers: it fails with an errno, or reports events, each with its pointer.
pub data WaitResult : Type 0 where
  wait_failed : ℕ → WaitResult
  ready : List (ℕ × ℕ) → WaitResult

-- `fillActiveChannel`. The pointers are followed in `store`; the loop ends at the first event whose
-- channel is not in the map.
unfoldable pub fill_active_channel :
    KaPoller → (ℕ → KaChannel) → List (ℕ × ℕ) → (ℕ → KaChannel) × List ℕ
fill_active_channel p store [] = (store, [])
fill_active_channel p store ((ptr, events) ∷ rest) =
    let marked = λ (a : ℕ). if a == ptr then set_revent (store a) events else store a in
    let more = fill_active_channel p marked rest in
    if holds p.channels (store ptr).fd ptr then (more.0, ptr ∷ more.1) else (store, [])

-- `poll`, less the timestamp that it returns, which is the clock's.
unfoldable pub poll : KaPoller → (ℕ → KaChannel) → WaitResult → KaPoller × (ℕ → KaChannel) × List ℕ
unfolding fill_active_channel
poll p store (wait_failed errno) = (p, store, [])
poll p store (ready []) = (p, store, [])
poll p store (ready (e ∷ es)) =
    let filled = fill_active_channel p store (e ∷ es) in
    (
      if length (e ∷ es) == p.capacity then record p { capacity = p.capacity * 2 } else p,
      filled.0,
      filled.1,
    )

-- The calls on one channel that reach the poller.
pub data ChannelOp : Type 0 where
  enables_reading disables_reading enables_writing disables_writing disables_all removes : ChannelOp

unfoldable pub apply : Bool → KaPoller → KaChannel → ChannelOp → KaPoller × KaChannel
unfolding enable_reading disable_reading enable_writing disable_writing disable_all
    loop_remove_channel
apply answer p c enables_reading = let (_, p', c') = enable_reading answer p c in (p', c')
apply answer p c disables_reading = let (_, p', c') = disable_reading answer p c in (p', c')
apply answer p c enables_writing = let (_, p', c') = enable_writing answer p c in (p', c')
apply answer p c disables_writing = let (_, p', c') = disable_writing answer p c in (p', c')
apply answer p c disables_all = let (_, p', c') = disable_all answer p c in (p', c')
apply answer p c removes = loop_remove_channel c.loop answer p c
