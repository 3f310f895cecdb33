-- ===== src/Net/Poller/Fresh.antt =====
-- Channels as their constructor leaves them, with the index `KAdded`.

use ka_im.Prelude.{ℕ, ◌≡◌, refl, Bool, false, List, [], ◌∷◌, none, arith, ◌∙◌, ◌==◌, if◌then◌else◌}
use ka_im.Net.Channel.{KaChannel, added, set_bits, read_event, none_event}
use ka_im.Net.Poller.{
  KaPoller, channel_update, ChannelOp, apply, loop_remove_channel, enables_reading,
  disables_reading, enables_writing, disables_writing, disables_all, removes, enable_reading,
  disable_all,
}

-- An update of a channel that has its first index, on a poller that does not know its fd, fails and
-- changes nothing.
pub channel_update_fresh :
    (answer : Bool) (p : KaPoller) (c : KaChannel)
    → c.index ≡ added
    → p.channels c.fd ≡ none
    → channel_update answer p c ≡ (false, p, c)
unfolding channel_update
channel_update_fresh answer p c i h = ground arith

pub enable_reading_fresh :
    (answer : Bool) (p : KaPoller) (c : KaChannel)
    → c.index ≡ added
    → p.channels c.fd ≡ none
    → enable_reading answer p c ≡ (false, p, record c { events = set_bits c.events read_event })
unfolding enable_reading
enable_reading_fresh answer p c i h = channel_update_fresh answer p _ i h

pub disable_all_fresh :
    (answer : Bool) (p : KaPoller) (c : KaChannel)
    → c.index ≡ added
    → p.channels c.fd ≡ none
    → disable_all answer p c ≡ (false, p, record c { events = none_event })
unfolding disable_all
disable_all_fresh answer p c i h = channel_update_fresh answer p _ i h

remove_fresh :
    (answer : Bool) (p : KaPoller) (c : KaChannel)
    → p.channels c.fd ≡ none
    → loop_remove_channel c.loop answer p c ≡ (p, c)
unfolding loop_remove_channel
remove_fresh answer p c h = ground arith

-- One call on the channel at an address.
pub record Call : Type 0 where
  pub address : ℕ
  pub answer : Bool
  pub op : ChannelOp

abbrev pub World : Type 0
World = KaPoller × (ℕ → KaChannel)

unfoldable pub step : World → Call → World
unfolding apply
step (p, store) call =
    let (p', c') = apply call.answer p (store call.address) call.op in
    (p', λ a. if a == call.address then c' else store a)

unfoldable pub run : World → List Call → World
run w [] = w
run w (call ∷ calls) = run (step w call) calls

apply_fresh :
    (answer : Bool) (p : KaPoller) (c : KaChannel) (op : ChannelOp)
    → c.index ≡ added
    → p.channels c.fd ≡ none
    → ((apply answer p c op).0 ≡ p)
      × ((apply answer p c op).1.index ≡ added)
      × ((apply answer p c op).1.fd ≡ c.fd)
unfolding apply
apply_fresh answer p c enables_reading i h = ground arith
apply_fresh answer p c disables_reading i h = ground arith
apply_fresh answer p c enables_writing i h = ground arith
apply_fresh answer p c disables_writing i h = ground arith
apply_fresh answer p c disables_all i h = ground arith
apply_fresh answer p c removes i h = ground arith

-- Where every channel has the index that its constructor gives and the poller knows none, no
-- sequence of calls, whatever `::epoll_ctl` answers, registers a channel or so much as calls
-- `::epoll_ctl`: the poller stays as it is.
pub run_fresh :
    (p : KaPoller) (store : ℕ → KaChannel) (calls : List Call)
    → ((a : ℕ) → (store a).index ≡ added)
    → ((fd : ℕ) → p.channels fd ≡ none)
    → (run (p, store) calls).0 ≡ p
unfolding run step
run_fresh p store [] i h = refl
run_fresh p store (call ∷ calls) i h =
    let a = apply_fresh call.answer p (store call.address) call.op (i call.address) (h _) in
    run_fresh (step (p, store) call).0 (step (p, store) call).1 calls (λ x. ground (arith, i x, a))
      (λ fd. rw a.0 (h fd))
    ∙ a.0
