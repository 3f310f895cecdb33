-- ===== src/Net/Poller/Sync.antt =====
-- Index, map and kernel together, while `::epoll_ctl` succeeds.
use ka_im.Prelude.{
  ℕ, ◌≡◌, refl, Bool, true, List, [], ◌∷◌, Option, none, some, arith, ◌==◌, if◌then◌else◌, ◌≢◌,
}
use ka_im.Net.Channel.{KaChannel, Index, new, added, deleted, is_non_event}
use ka_im.Net.Poller.{
  KaPoller, CtlCall, ctl_add, ctl_mod, ctl_del, channel_update, loop_remove_channel,
}

-- The events for which the kernel watches an fd, after calls that have all succeeded.
abbrev pub interest : List CtlCall → ℕ → Option ℕ
interest [] fd = none
interest (c ∷ cs) fd =
    if c.fd == fd
    then elim c.op [ ctl_add ↦ some c.events | ctl_mod ↦ some c.events | ctl_del ↦ none ]
    else interest cs fd

-- What a channel's index says is so in the map and in the kernel.
abbrev pub SyncedAt : Index → KaPoller → KaChannel → Type 0
SyncedAt new p c = (p.channels c.fd ≡ none) × (interest p.calls c.fd ≡ none)
SyncedAt added p c = (p.channels c.fd ≡ some c.address) × (interest p.calls c.fd ≡ some c.events)
SyncedAt deleted p c = (p.channels c.fd ≡ some c.address) × (interest p.calls c.fd ≡ none)

abbrev pub IsSynced : KaPoller → KaChannel → Type 0
IsSynced p c = SyncedAt c.index p c

update_at :
    (i : Index) (p : KaPoller) (c : KaChannel) (e : ℕ)
    → c.index ≡ i
    → SyncedAt i p c
    → let (r, p', c') = channel_update true p (record c { events = e }) in
      (r ≡ true) × IsSynced p' c' × (c'.events ≡ e)
unfolding channel_update
update_at new p c e h s = ground arith
update_at added p c e h s = ground arith
update_at deleted p c e h s = ground arith

-- Whatever events a channel asks for, an update of one that is in step with the map and the kernel
-- succeeds and leaves it in step, as long as `::epoll_ctl` succeeds.
pub channel_update-IsSynced :
    (p : KaPoller) (c : KaChannel) (e : ℕ)
    → IsSynced p c
    → let (r, p', c') = channel_update true p (record c { events = e }) in
      (r ≡ true) × IsSynced p' c' × (c'.events ≡ e)
channel_update-IsSynced p c e s = update_at c.index p c e refl s

-- Removing a channel that asks for no events puts it back to `KNew`, out of the map and the kernel;
-- one that asks for events stays.
remove_at :
    (i : Index) (p : KaPoller) (c : KaChannel)
    → c.index ≡ i
    → SyncedAt i p c
    → let (p', c') = loop_remove_channel c.loop true p c in
      IsSynced p' c' × (c'.index ≡ (if is_non_event c then new else c.index))
unfolding loop_remove_channel
remove_at new p c h s = ground arith
remove_at added p c h s = ground arith
remove_at deleted p c h s = ground arith

-- Removing a channel that is in step leaves it in step, if `::epoll_ctl` succeeds: one that asks for
-- no events is forgotten, any other stays as it was.
remove_channel-IsSynced :
    (p : KaPoller) (c : KaChannel)
    → IsSynced p c
    → let (p', c') = loop_remove_channel c.loop true p c in
      IsSynced p' c' × (c'.index ≡ (if is_non_event c then new else c.index))
remove_channel-IsSynced p c s = remove_at c.index p c refl s

-- An update touches no other fd, whatever `::epoll_ctl` answers.
pub channel_update_frame :
    (answer : Bool) (p : KaPoller) (c : KaChannel) (fd : ℕ)
    → c.fd ≢ fd
    → let (_, p', _) = channel_update answer p c in
      (p'.channels fd ≡ p.channels fd) × (interest p'.calls fd ≡ interest p.calls fd)
unfolding channel_update
channel_update_frame answer p c fd h = ground arith
